-- ===== src/Rules/Bonds.antt =====
-- The settlement of a bond (Msg/Bonds.antt).
use ag3nt_coin.Base.{
  not-false, ℕ, ◌≡◌, refl, String, true, false, some, inl, inr, Bool-cases, str_eq,
}
use mathlib.Core.Path.{subst}
use ag3nt_coin.Base.Store
use ag3nt_coin.Base.Store.{uint_key}
use ag3nt_coin.Base.Store.Laws.{get-set_self}
use ag3nt_coin.Base.Words.{add64}
use ag3nt_coin.Exec.{succeeds, final, modify, ◌>>=◌}
use ag3nt_coin.Exec.Returns.{
  Returns-anyway, Returns, success, Returns-or_raise, Returns-raise_if, Returns-any, Returns-known,
  Returns-modify, Returns-final,
}
use ag3nt_coin.Types.{Bond, BondStatus, is_active}
use ag3nt_coin.Keeper.{put_bond, State, Env, Returns-read, bond_of, put_account}
use ag3nt_coin.Msg.Bonds.{MsgSlashBond, settle_bond, release_bond, slash_bond}
use ag3nt_coin.Invariant.{IsWellFormed, bond_id}
use ag3nt_coin.Invariant.Records.{id-of-found}

-- The bond is there, it is active, and `caller` is its slasher.
abbrev IsSlashable : String → ℕ → State → Type 0
IsSlashable caller k s =
    (b : Bond) × (bond_of k s ≡ some b)
    × (is_active b.status ≡ true)
    × (str_eq caller b.slasher ≡ true)

-- The bond is there, and settled.
abbrev IsSettled : ℕ → State → Type 0
IsSettled k s = (b : Bond) × (bond_of k s ≡ some b) × (is_active b.status ≡ false)

IsSettled-id :
    (k : ℕ) (b : Bond) (status : BondStatus) (t : State)
    → b.id ≡ k
    → is_active status ≡ false
    → IsSettled k (put_bond b.id (record b { status = status }) t)
IsSettled-id k b status t same closed =
    let e = record b { status = status } in
    (
      e,
      subst (λ j. Store.get j (Store.set b.id e t.bond) ≡ some e) same (get-set_self b.id e t.bond),
      closed,
    )

module _ (s : State) (wf : IsWellFormed s) where
  settle_bond-IsSettled :
      (recipient : String) (status : BondStatus) (k : ℕ) (b : Bond)
      → bond_of k s ≡ some b
      → is_active status ≡ false
      → Returns (λ _ s'. IsSettled k s') (settle_bond recipient status b s)
  unfolding settle_bond
  settle_bond-IsSettled recipient status k b found closed = Returns-read _ _ _ s λ acct _.
      Returns-modify _ _ s (
        unfold ◌>>=◌ in
        success (
          IsSettled-id k b status
            (put_account recipient (record acct { balance = add64 acct.balance b.amount }) s)
            (id-of-found bond_id s.bond_seq s.bond wf.bonds k b found) closed))

  release_bond-IsSettled :
      (env : Env) (creator : String) (id : ℕ)
      → Returns (λ _ s'. IsSettled id s') (release_bond env creator id s)
  unfolding release_bond
  release_bond-IsSettled env creator id = Returns-or_raise _ _ _ s λ _ _.
      Returns-read _ _ _ s λ bond found. Returns-raise_if _ _ _ s λ _.
        Returns-raise_if _ _ _ s
          λ _. settle_bond-IsSettled bond.poster BondStatus.released id bond found refl

  slash_bond-IsSettled :
      (env : Env) (msg : MsgSlashBond)
      → Returns (λ _ s'. IsSettled msg.id s') (slash_bond env msg s)
  unfolding slash_bond
  slash_bond-IsSettled env msg = Returns-or_raise _ _ _ s λ _ _. Returns-read _ _ _ s λ bond found.
      Returns-raise_if _ _ _ s λ _. Returns-raise_if _ _ _ s λ _. Returns-any _ _ s λ _ t.
        unfold modify in
        success (
          IsSettled-id msg.id bond BondStatus.slashed t
            (id-of-found bond_id s.bond_seq s.bond wf.bonds msg.id bond found) refl)

module _ (s : State) where
  release_bond-IsSlashable :
      (env : Env) (creator : String) (id : ℕ)
      → Returns (λ _ _. IsSlashable creator id s) (release_bond env creator id s)
  unfolding release_bond
  release_bond-IsSlashable env creator id = Returns-or_raise _ _ _ s λ _ _.
      Returns-read _ _ _ s λ bond found. Returns-raise_if _ _ _ s λ active.
        Returns-raise_if _ _ _ s
          λ slasher. Returns-anyway _ (bond, found, not-false _ active, not-false _ slasher)

  slash_bond-IsSlashable :
      (env : Env) (msg : MsgSlashBond)
      → Returns (λ _ _. IsSlashable msg.creator msg.id s) (slash_bond env msg s)
  unfolding slash_bond
  slash_bond-IsSlashable env msg = Returns-or_raise _ _ _ s λ _ _.
      Returns-read _ _ _ s λ bond found. Returns-raise_if _ _ _ s λ active.
        Returns-raise_if _ _ _ s
          λ slasher. Returns-anyway _ (bond, found, not-false _ active, not-false _ slasher)

  settled_refuses_release :
      (env : Env) (creator : String) (id : ℕ)
      → IsSettled id s
      → succeeds (release_bond env creator id s) ≡ false
  settled_refuses_release env creator id (b, found, closed) =
      elim (Bool-cases (succeeds (release_bond env creator id s))) [
        | inl h ↦
            let (a, a_found, active, _) =
              Returns-known _ (release_bond-IsSlashable env creator id) h in
            cc
        | inr h ↦ h
      ]

  settled_refuses_slash :
      (env : Env) (msg : MsgSlashBond)
      → IsSettled msg.id s
      → succeeds (slash_bond env msg s) ≡ false
  settled_refuses_slash env msg (b, found, closed) =
      elim (Bool-cases (succeeds (slash_bond env msg s))) [
        | inl h ↦
            let (a, a_found, active, _) = Returns-known _ (slash_bond-IsSlashable env msg) h in cc
        | inr h ↦ h
      ]

-- Every release and every slashing of the bond is refused.
abbrev pub AllRefused : ℕ → State → Type 0
AllRefused id s =
    ((env : Env) (creator : String) → succeeds (release_bond env creator id s) ≡ false)
    × ((env : Env) (creator beneficiary : String)
        → succeeds
            (slash_bond env (record { creator = creator; id = id; beneficiary = beneficiary }) s)
          ≡ false)

IsSettled-AllRefused : (id : ℕ) (s : State) → IsSettled id s → AllRefused id s
IsSettled-AllRefused id s h = (
  λ env creator. settled_refuses_release s env creator id h,
  λ env creator beneficiary.
      settled_refuses_slash s env (record { creator = creator; id = id; beneficiary = beneficiary })
        h,
)

-- In a well-formed store, once ReleaseBond has released a bond, every later release and slash of it
-- is refused in the store that it leaves, whoever asks.
pub release_bond_once :
    (s : State)
    → IsWellFormed s
    → (env : Env) (creator : String) (id : ℕ) → succeeds (release_bond env creator id s) ≡ true
    → AllRefused id (final (release_bond env creator id s))
release_bond_once s wf env creator id done =
    IsSettled-AllRefused id _ (Returns-final _ (release_bond-IsSettled s wf env creator id) done)

-- In a well-formed store, once SlashBond has slashed a bond, every release and slash of it is
-- refused in the store that it leaves, whoever asks.
pub slash_bond_once :
    (s : State)
    → IsWellFormed s
    → (env : Env) (msg : MsgSlashBond) → succeeds (slash_bond env msg s) ≡ true
    → AllRefused msg.id (final (slash_bond env msg s))
slash_bond_once s wf env msg done =
    IsSettled-AllRefused msg.id _ (Returns-final _ (slash_bond-IsSettled s wf env msg) done)
