-- ===== src/Rules/Verifiers/Quorum.antt =====
-- The verdicts that VerifiedRelease counts, and the key that it accepts (count_passed and
-- key_refused of Msg/Verifiers.antt), described without the handler's own tests.
use mathlib.Core.List.{Sublistᴰ}
use ag3nt_coin.Base.{
  ℕ, ◌≡◌, ◌≢◌, ◌⊎◌, ◌≤◌, ◌&&◌, refl, inl, inr, String, Bool-cases, true, false, List, [], ◌∷◌,
  arith, str_eq, eq_iff, length,
}
use ag3nt_coin.Base.Text.{equal_fold}
use ag3nt_coin.Types.{Escrow, Attestation}
use ag3nt_coin.Keeper.{Env}
use ag3nt_coin.Msg.Verifiers.{restates, count_passed, key_refused}

-- A pass verdict on what the escrow is committed to.
pub record Passes (e : Escrow) (a : Attestation) : Type 0 where
  pub passed : a.passed ≡ true
  pub delivery : equal_fold a.delivery_hash e.delivery_hash ≡ true
  pub key : equal_fold a.key_hash e.key_hash ≡ true
  pub acceptance : equal_fold a.acceptance_hash e.acceptance_hash ≡ true

abbrev pub AllPass : Escrow → List Attestation → Type 0
AllPass e [] = Unit
AllPass e (a ∷ rest) = Passes e a × AllPass e rest

-- Some of the escrow's verdicts, as many as the number at least, are pass verdicts.
pub record HasPasses (e : Escrow) (xs : List Attestation) (n : ℕ) : Type 0 where
  pub chosen : List Attestation
  pub among : Sublistᴰ chosen xs
  pub all_pass : AllPass e chosen
  pub enough : n ≤ length chosen

restates-Passes :
    (e : Escrow) (a : Attestation)
    → (a.passed && restates a.delivery_hash a.key_hash a.acceptance_hash e) ≡ true
    → Passes e a
unfolding restates
restates-Passes e a h = record {
  passed = ground (arith, h);
  delivery = ground (arith, h);
  key = ground (arith, h);
  acceptance = ground (arith, h);
}

count_passed-HasPasses : (e : Escrow) (xs : List Attestation) → HasPasses e xs (count_passed e xs)
unfolding count_passed
count_passed-HasPasses e [] = record {
  chosen = [];
  among = Sublistᴰ.slnil;
  all_pass = tt;
  enough = omega arith;
}
count_passed-HasPasses e (a ∷ rest) =
    let later = count_passed-HasPasses e rest in
    elim (Bool-cases (a.passed && restates a.delivery_hash a.key_hash a.acceptance_hash e)) [
      | inl counted ↦ rw counted (record {
        chosen = a ∷ later.chosen;
        among = Sublistᴰ.cons-cons refl later.among;
        all_pass = (restates-Passes e a counted, later.all_pass);
        enough = omega (arith, later.enough);
      })
      | inr passed_over ↦ rw passed_over (record {
        chosen = later.chosen;
        among = Sublistᴰ.cons later.among;
        all_pass = later.all_pass;
        enough = later.enough;
      })
    ]

pub quorum-HasPasses :
    (e : Escrow) (xs : List Attestation) (n : ℕ) → n ≤ count_passed e xs → HasPasses e xs n
quorum-HasPasses e xs n reached =
    let counted = count_passed-HasPasses e xs in
    record {
      chosen = counted.chosen;
      among = counted.among;
      all_pass = counted.all_pass;
      enough = omega (arith, counted.enough, reached);
    }

-- The key is the preimage of the committed hash, or none where no key was committed.
abbrev pub IsRightKey : Env → String → Escrow → Type 0
IsRightKey env key e =
    ((e.key_hash ≡ "") × (key ≡ ""))
    ⊎ ((e.key_hash ≢ "") × (equal_fold (env.sha256_hex key) e.key_hash ≡ true))

pub key_refused-IsRightKey :
    (env : Env) (key : String) (e : Escrow) → key_refused env key e ≡ false → IsRightKey env key e
unfolding key_refused
key_refused-IsRightKey env key e h = elim (Bool-cases (str_eq e.key_hash "")) [
  | inl open_key ↦
      let no_key : str_eq key "" ≡ true = ground (arith, h, open_key) in
      inl ((eq_iff e.key_hash "").0 open_key, (eq_iff key "").0 no_key)
  | inr committed ↦
      inr (λ p. cc (committed, (eq_iff e.key_hash "").1 p), ground (arith, h, committed))
]
