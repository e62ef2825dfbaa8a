-- ===== src/Oracle/Roster.antt =====
-- The roster of a pair (`register_attestor` of pallets/oracle/src/lib.rs).
use materios_intent_settleme.Common.{ℕ, ◌≤◌, length, Distinct}
use materios_intent_settleme.Oracle.{Runtime, State}

pub record RosterInv (rt : Runtime) (s : State) : Type 0 where
  pub distinct : (pair_id : ℕ) → Distinct (s.attestors pair_id)
  pub bounded : (pair_id : ℕ) → length (s.attestors pair_id) ≤ rt.max_attestors
