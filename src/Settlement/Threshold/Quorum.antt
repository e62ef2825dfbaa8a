-- ===== src/Settlement/Threshold/Quorum.antt =====
-- The M-of-N gate decides what a quorum is.
use Prim.Native.Nat.{max}
use materios_intent_settleme.Common.{
  ◌≢◌, Bool, err, sym, ◌∙◌, ℕ, ◌≤◌, ◌≡◌, refl, ◌↔◌, inl, inr, true, false, List, [], ◌∷◌, ◌++◌,
  ◌==◌, some, ok, length, any, contains, Distinct, All, arith, Bool-cases, Option-cases,
  contains-snoc,
}
use materios_intent_settleme.Settlement.Types.{Signature, Error}
use materios_intent_settleme.Settlement.State.{Runtime, State}
use materios_intent_settleme.Settlement.Threshold.{
  verify_threshold_signatures, set_min_signer_threshold, effective_threshold, scan_signers,
  verify_all,
}

abbrev pub keys : List Signature → List ℕ
keys [] = []
keys ((pubkey, _) ∷ rest) = pubkey ∷ keys rest

-- The committee has an account for the key, and counts it as a member.
abbrev pub IsSigner : Runtime → ℕ → Type 0
IsSigner rt k = (a : ℕ) × (rt.account_of_pubkey k ≡ some a) × (rt.is_member a ≡ true)

abbrev pub IsValidSignature : Runtime → ℕ → Signature → Type 0
IsValidSignature rt payload e = rt.verify e.0 e.1 payload ≡ true

pub record IsQuorum (rt : Runtime) (s : State) (payload who : ℕ) (signatures : List Signature)
    : Type 0 where
  pub fits : length signatures ≤ rt.max_committee
  pub enough : effective_threshold rt s ≤ length signatures
  pub caller : contains (keys signatures) (rt.pubkey_of who) ≡ true
  pub distinct : Distinct (keys signatures)
  pub members : All (IsSigner rt) (keys signatures)
  pub valid : All (IsValidSignature rt payload) signatures

-- No key of the list is among those seen.
abbrev Fresh : List ℕ → List ℕ → Type 0
Fresh seen ks = All (λ k. contains seen k ≡ false) ks

any-contains :
    (k : ℕ) (signatures : List Signature)
    → any (λ e. e.0 == k) signatures ≡ contains (keys signatures) k
any-contains k [] = refl
any-contains k ((p, _) ∷ rest) = ground (arith, any-contains k rest)

Fresh-snoc :
    (seen : List ℕ) (x : ℕ) (ks : List ℕ)
    → Fresh (seen ++ x ∷ []) ks
    → Fresh seen ks × (contains ks x ≡ false)
Fresh-snoc seen x [] h = (tt, refl)
Fresh-snoc seen x (k ∷ ks) h = ground (arith, contains-snoc seen x k, Fresh-snoc seen x ks h.1)

snoc-Fresh :
    (seen : List ℕ) (x : ℕ) (ks : List ℕ)
    → Fresh seen ks
    → contains ks x ≡ false
    → Fresh (seen ++ x ∷ []) ks
snoc-Fresh seen x [] h n = tt
snoc-Fresh seen x (k ∷ ks) h n = ground (arith, contains-snoc seen x k, snoc-Fresh seen x ks h.1)

scan_signers_sound :
    (rt : Runtime) (seen : List ℕ) (signatures : List Signature)
    → scan_signers rt seen signatures ≡ ok tt
    → Fresh seen (keys signatures)
      × Distinct (keys signatures)
      × All (IsSigner rt) (keys signatures)
unfolding scan_signers
scan_signers_sound rt seen [] h = (tt, tt, tt)
scan_signers_sound rt seen ((k, g) ∷ rest) h = elim (Option-cases (rt.account_of_pubkey k)) [
  | inl e ↦ ground arith
  | inr (a, e) ↦
      let later : Fresh (seen ++ k ∷ []) (keys rest)
          × Distinct (keys rest)
          × All (IsSigner rt) (keys rest) =
        scan_signers_sound rt (seen ++ k ∷ []) rest (ground arith) in
      let split = Fresh-snoc seen k (keys rest) later.0 in
      ((ground arith, split.0), (split.1, later.1), ((a, e, ground arith), later.2))
]

scan_signers_complete :
    (rt : Runtime) (seen : List ℕ) (signatures : List Signature)
    → Fresh seen (keys signatures)
    → Distinct (keys signatures)
    → All (IsSigner rt) (keys signatures)
    → scan_signers rt seen signatures ≡ ok tt
unfolding scan_signers
scan_signers_complete rt seen [] f d m = refl
scan_signers_complete rt seen ((k, g) ∷ rest) f d m = ground (
  arith,
  m.0.1,
  m.0.2,
  scan_signers_complete rt (seen ++ k ∷ []) rest (snoc-Fresh seen k (keys rest) f.1 d.0) d.1 m.1,
)

verify_all_iff :
    (rt : Runtime) (payload : ℕ) (signatures : List Signature)
    → (verify_all rt payload signatures ≡ ok tt) ↔ All (IsValidSignature rt payload) signatures
unfolding verify_all
verify_all_iff rt payload [] = (λ _. tt, λ _. refl)
verify_all_iff rt payload ((k, g) ∷ rest) = (
  λ h. ground (arith, (verify_all_iff rt payload rest).0),
  λ h. ground (arith, (verify_all_iff rt payload rest).1 h.1),
)

-- What the gate has checked when it comes to the signatures themselves.
record IsScanned (rt : Runtime) (s : State) (who : ℕ) (signatures : List Signature) : Type 0 where
  fits : length signatures ≤ rt.max_committee
  enough : effective_threshold rt s ≤ length signatures
  caller : contains (keys signatures) (rt.pubkey_of who) ≡ true
  scanned : scan_signers rt [] signatures ≡ ok tt

gate_passes :
    (rt : Runtime) (s : State) (payload who : ℕ) (signatures : List Signature)
    → IsScanned rt s who signatures
    → verify_threshold_signatures rt s payload who signatures ≡ verify_all rt payload signatures
unfolding verify_threshold_signatures
gate_passes rt s payload who signatures q =
    ground (arith, any-contains (rt.pubkey_of who) signatures)

IsScanned-of_ok :
    (rt : Runtime) (s : State) (payload who : ℕ) (signatures : List Signature)
    → verify_threshold_signatures rt s payload who signatures ≡ ok tt
    → IsScanned rt s who signatures
unfolding verify_threshold_signatures
IsScanned-of_ok rt s payload who signatures h =
    ground (arith, any-contains (rt.pubkey_of who) signatures)

Fresh-nil : (ks : List ℕ) → Fresh [] ks
Fresh-nil [] = tt
Fresh-nil (k ∷ ks) = (refl, Fresh-nil ks)

-- The gate passes a bundle exactly when it is a quorum: no more entries than the committee may
-- have, at least the effective threshold, the caller's key among them, no key twice, every key a
-- member's, every signature valid for the payload.
pub verify_threshold_signatures_iff :
    (rt : Runtime) (s : State) (payload who : ℕ) (signatures : List Signature)
    → (verify_threshold_signatures rt s payload who signatures ≡ ok tt)
      ↔ IsQuorum rt s payload who signatures
verify_threshold_signatures_iff rt s payload who signatures = (
  λ h.
      let q = IsScanned-of_ok rt s payload who signatures h in
      let signers = scan_signers_sound rt [] signatures q.scanned in
      record {
        fits = q.fits;
        enough = q.enough;
        caller = q.caller;
        distinct = signers.1;
        members = signers.2;
        valid =
            (verify_all_iff rt payload signatures).0
              (sym (gate_passes rt s payload who signatures q) ∙ h);
      },
  λ q.
      gate_passes rt s payload who signatures (record {
        fits = q.fits;
        enough = q.enough;
        caller = q.caller;
        scanned =
            scan_signers_complete rt [] signatures (Fresh-nil (keys signatures)) q.distinct
              q.members;
      })
      ∙ (verify_all_iff rt payload signatures).1 q.valid,
)

verify_all-err :
    (rt : Runtime) (payload : ℕ) (signatures : List Signature) (e : Error)
    → verify_all rt payload signatures ≡ err e
    → e ≡ Error.invalid_signature
unfolding verify_all
verify_all-err rt payload [] e h = cc
verify_all-err rt payload ((k, g) ∷ rest) e h = elim (Bool-cases (rt.verify k g payload)) [
  | inl good ↦ verify_all-err rt payload rest e (rw good at h)
  | inr bad ↦ let reported : err Error.invalid_signature ≡ err e = rw bad at h in cc
]

scan_signers-err :
    (rt : Runtime) (seen : List ℕ) (signatures : List Signature)
    → scan_signers rt seen signatures ≢ err Error.invalid_signature
unfolding scan_signers
scan_signers-err rt seen [] h = cc
scan_signers-err rt seen ((k, g) ∷ rest) h =
    ground (arith, scan_signers-err rt (seen ++ k ∷ []) rest)

-- An invalid signature is reported only of a bundle that passes every other test: of its size, of
-- the caller's key, and of distinct keys of members.
pub invalid_signature_last :
    (rt : Runtime) (s : State) (payload who : ℕ) (signatures : List Signature)
    → verify_threshold_signatures rt s payload who signatures ≡ err Error.invalid_signature
    → (length signatures ≤ rt.max_committee)
      × (effective_threshold rt s ≤ length signatures)
      × (contains (keys signatures) (rt.pubkey_of who) ≡ true)
      × Distinct (keys signatures)
      × All (IsSigner rt) (keys signatures)
unfolding verify_threshold_signatures
invalid_signature_last rt s payload who signatures h =
    let q : IsScanned rt s who signatures =
      ground
        (arith, any-contains (rt.pubkey_of who) signatures, scan_signers-err rt [] signatures) in
    let signers = scan_signers_sound rt [] signatures q.scanned in
    (q.fits, q.enough, q.caller, signers.1, signers.2)

-- A root call that sets the floor leaves it at or below the committee's threshold, or at the least
-- floor of one signature, so the gate never asks for more signers than that.
pub set_min_signer_threshold-bounded :
    (rt : Runtime) (is_root : Bool) (new_threshold : ℕ) (s s' : State)
    → set_min_signer_threshold rt is_root new_threshold s ≡ ok s'
    → (effective_threshold rt s' ≤ max rt.threshold 1) × (is_root ≡ true)
unfolding set_min_signer_threshold effective_threshold
set_min_signer_threshold-bounded rt is_root new_threshold s s' h = ground arith
