-- ===== src/Rules/Stakes.antt =====
-- The bonds that are live for a purpose, and what their settlement does to the bonds (live_bond of
-- Msg/Verifiers.antt, settle_bond of Msg/Bonds.antt).
pub mod Paid
pub mod Closed
pub mod Settled
pub mod Resolved
use mathlib.Core.Path.{subst}
use ag3nt_coin.Base.{
  str_eq, eq_iff, ◌≢◌, ◌⊎◌, ◌≡◌, refl, sym, ap, ◌∙◌, ℕ, String, Bool, true, false, ◌&&◌, Option,
  none, some, List, [], ◌∷◌, inl, inr, Bool-cases, ◌==◌, ==_iff, bool_eq, arith,
}
use ag3nt_coin.Base.Store
use ag3nt_coin.Base.Store.{uint_key, string_key}
use ag3nt_coin.Base.Store.Laws.{get-set_self, get-set_ne}
use ag3nt_coin.Base.Words.{add64}
use ag3nt_coin.Exec.{Outcome, modify, ◌>>=◌}
use ag3nt_coin.Exec.Returns.{
  Returns, success, Returns-weaken, Returns-or_raise, Returns-raise_if, Returns-gets,
  Returns-modify, Returns-pure, Returns-call,
}
use ag3nt_coin.Types.{
  Escrow, Attestation, Bond, BondStatus, Dispute, Resolution, Vote, is_active, is_challenged,
  is_accept,
}
use ag3nt_coin.Keeper.{
  State, Env, Returns-read, bond_of, put_bond, put_account, dispute_of, escrow_of, put_escrow,
  put_dispute,
}
use ag3nt_coin.Msg.Bonds.{settle_bond}
use ag3nt_coin.Msg.Verifiers.{if_live, live_bond, attestation_purpose}
use ag3nt_coin.Msg.Jury.{dispute_purpose, juror_purpose}
use ag3nt_coin.Msg.Verdict.{
  settled_status, settle_if_live, settle_dispute_bond, settle_stake, settle_votes,
  settle_attestations, finish_dispute, opener_upheld, settle_escrow, resolve_dispute, verdict,
}
use ag3nt_coin.Invariant.{IsWellFormed, IsNumbered, bond_id}
use ag3nt_coin.Invariant.Records.{id-of-found, update-IsNumbered}
use ag3nt_coin.Supply.Payments.{credited, Returns-paid}
use ag3nt_coin.Supply.Escrows.{pay_payee-Pays, pay_payer-Pays}

abbrev pub HasNumbers : State → Type 0
HasNumbers s = IsNumbered bond_id s.bond_seq s.bond

-- A bond that was paid out, or that was posted for something else.
abbrev pub IsUnlocked : String → Option Bond → Type 0
IsUnlocked purpose none = Unit
IsUnlocked purpose (some b) =
    (b.status ≡ BondStatus.released) ⊎ (b.status ≡ BondStatus.slashed) ⊎ (b.purpose ≢ purpose)

-- No stake for the purpose is locked under the id.
abbrev pub IsClosed : String → ℕ → State → Type 0
IsClosed purpose k s = IsUnlocked purpose (bond_of k s)

-- A stored bond stays stored, and nothing but its status changes.
abbrev pub Kept : State → State → Type 0
Kept s t =
    (k : ℕ) (b : Bond)
    → bond_of k s ≡ some b
    → (status : BondStatus) × (bond_of k t ≡ some (record b { status = status }))

-- The bonds keep their numbers and all but their status, none is opened, and the escrows stay.
pub record Closing (s t : State) : Type 0 where
  pub numbered : HasNumbers t
  pub escrows : t.escrow ≡ s.escrow
  pub kept : Kept s t
  pub stays_closed : (purpose : String) (k : ℕ) → IsClosed purpose k s → IsClosed purpose k t

pub Closing-refl : (s : State) → HasNumbers s → Closing s s
Closing-refl s numbered = record {
  numbered = numbered;
  escrows = refl;
  kept = λ k b h. (b.status, h);
  stays_closed = λ _ _ h. h;
}

pub Closing-trans : {s t u : State} → Closing s t → Closing t u → Closing s u
Closing-trans h k = record {
  numbered = k.numbered;
  escrows = k.escrows ∙ h.escrows;
  kept =
      λ j b e. let (status, found) = h.kept j b e in k.kept j (record b { status = status }) found;
  stays_closed = λ p j c. k.stays_closed p j (h.stays_closed p j c);
}

IsUnlocked-inactive :
    (purpose : String) (b : Bond) → is_active b.status ≡ false → IsUnlocked purpose (some b)
IsUnlocked-inactive purpose b closed = go b.status refl closed
  where
    go :
        (status : BondStatus)
        → b.status ≡ status
        → is_active status ≡ false
        → IsUnlocked purpose (some b)
    go BondStatus.active e h = cc
    go BondStatus.released e h = inl e
    go BondStatus.slashed e h = inr (inl e)

-- Where no bond is live for the purpose, none is locked for it.
if_live-IsUnlocked :
    (purpose : String) (o : Option Bond) → if_live purpose o ≡ none → IsUnlocked purpose o
unfolding if_live
if_live-IsUnlocked purpose none h = tt
if_live-IsUnlocked purpose (some b) h = elim (Bool-cases (is_active b.status)) [
  | inl active ↦
      let other : str_eq b.purpose purpose ≡ false = ground (arith, h, active) in
      inr (inr (λ e. cc (other, (eq_iff b.purpose purpose).1 e)))
  | inr closed ↦ IsUnlocked-inactive purpose b closed
]

-- A live bond is the one that is stored.
if_live-some :
    (purpose : String) (o : Option Bond) (b : Bond) → if_live purpose o ≡ some b → o ≡ some b
unfolding if_live
if_live-some purpose none b h = h
if_live-some purpose (some c) b h = ground (arith, h)

module _ (k : ℕ) (b : Bond) (s : State) (closed : is_active b.status ≡ false) where
  IsClosed-here : (purpose : String) → IsClosed purpose k (put_bond k b s)
  IsClosed-here purpose =
      subst (IsUnlocked purpose) (sym (get-set_self k b s.bond))
        (IsUnlocked-inactive purpose b closed)

  IsClosed-there :
      (purpose : String) (j : ℕ) → IsClosed purpose j s → IsClosed purpose j (put_bond k b s)
  IsClosed-there purpose j h = elim (Bool-cases (j == k)) [
    | inl here ↦
        subst (λ i. IsClosed purpose i (put_bond k b s)) (sym ((==_iff j k).0 here))
          (IsClosed-here purpose)
    | inr away ↦
        let other : ¬ (j ≡ k) = λ e. cc (away, (==_iff j k).1 e) in
        subst (IsUnlocked purpose) (sym (get-set_ne j k b s.bond other)) h
  ]

put_bond-Kept :
    (k : ℕ) (b : Bond) (status : BondStatus) (s : State)
    → bond_of k s ≡ some b
    → Kept s (put_bond k (record b { status = status }) s)
put_bond-Kept k b status s found j c c_found = elim (Bool-cases (j == k)) [
  | inl here ↦
      let same : j ≡ k = (==_iff j k).0 here in
      let one : b ≡ c = cc (found, c_found, same) in
      (
        status,
        subst
            (λ i.
              bond_of i (put_bond k (record b { status = status }) s)
              ≡ some (record c { status = status }))
            (sym same)
            (get-set_self k (record b { status = status }) s.bond
              ∙ ap {A = Bond} (λ x. some (record x { status = status })) one),
      )
  | inr away ↦
      let other : ¬ (j ≡ k) = λ e. cc (away, (==_iff j k).1 e) in
      (c.status, get-set_ne j k _ s.bond other ∙ c_found)
]

-- The settlement of the bond that is live for the purpose under an id, if there is one.
module _ (purpose recipient : String) (status : BondStatus) (k : ℕ) (s : State)
    (numbered : HasNumbers s) (inactive : is_active status ≡ false) where
  settle_bond-Closes :
      (b : Bond)
      → bond_of k s ≡ some b
      → Returns (λ _ t. Closing s t × IsClosed purpose k t) (settle_bond recipient status b s)
  unfolding settle_bond
  settle_bond-Closes b found = Returns-read _ _ _ s λ acct _. Returns-modify _ _ s (
      let t = put_account recipient (record acct { balance = add64 acct.balance b.amount }) s in
      let settled = record b { status = status } in
      let same = id-of-found bond_id s.bond_seq s.bond numbered k b found in
      let at_id : bond_of b.id s ≡ some b = subst (λ j. bond_of j s ≡ some b) (sym same) found in
      unfold modify in
      success (
        record {
          numbered = update-IsNumbered bond_id s.bond_seq s.bond numbered b.id settled b at_id refl;
          kept = put_bond-Kept b.id b status t at_id;
          escrows = refl;
          stays_closed = λ p j h. IsClosed-there b.id settled t inactive p j h;
        },
        subst (λ j. IsClosed purpose j (put_bond b.id settled t)) same
            (IsClosed-here b.id settled t inactive purpose),
      ))

  pub settle_if_live-Closes :
      Returns
        (λ _ t. Closing s t × IsClosed purpose k t)
        (settle_if_live recipient status (live_bond purpose k s) s)
  unfolding settle_if_live live_bond
  settle_if_live-Closes = go (live_bond purpose k s) refl
    where
      go :
          (o : Option Bond)
          → live_bond purpose k s ≡ o
          → Returns
              (λ _ t. Closing s t × IsClosed purpose k t)
              (settle_if_live recipient status o s)
      go none e =
          Returns-pure _ s (Closing-refl s numbered, if_live-IsUnlocked purpose (bond_of k s) e)
      go (some b) e = settle_bond-Closes b (if_live-some purpose (bond_of k s) b e)
