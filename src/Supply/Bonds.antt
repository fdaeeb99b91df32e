-- ===== src/Supply/Bonds.antt =====
-- The coins under the handlers of Msg/Bonds.antt.
use ag3nt_coin.Base.{
  none, if◌then◌else◌, inr, inl, Bool-cases, str_eq, if◌then◌else◌, Option, ℕ, ◌+◌, ◌≤◌, ◌<◌, ◌≡◌,
  refl, String, true, false, some, arith, ltb→le, not-false,
}
use ag3nt_coin.Base.Words.{add64, word}
use ag3nt_coin.Exec.{ok, pure, ◌>>=◌}
use ag3nt_coin.Exec.Returns.{
  Returns-weaken, Returns-step, Returns, success, Returns-or_raise, Returns-raise_if,
  Returns-modify,
}
use ag3nt_coin.Types.{Account, Bond, BondStatus, is_active}
use ag3nt_coin.Keeper.{State, Env, Returns-read, account_of, bond_of, put_bond}
use ag3nt_coin.Msg.Bonds.{
  MsgSlashBond, pay_beneficiary, slash_bond, MsgPostBond, post_bond, settle_bond, release_bond,
}
use ag3nt_coin.Invariant.{IsWellFormed, bond_id}
use ag3nt_coin.Invariant.Records.{found_at_id}
use ag3nt_coin.Supply.{bonded_amount, supply}
use ag3nt_coin.Supply.Payments.{
  Returns-paid, Returns-credit, Returns-check, Pays, credited, locked_bond, lock_bond_lem,
}
use ag3nt_coin.Supply.Steps.{
  Conserves, Settles, put_account-IsWellFormed, put_bond-IsWellFormed, locked_bond-IsWellFormed,
  credited-IsWellFormed, supply-credit, supply-credited, supply-put_bond, supply-locked_bond,
}

-- An active bond holds its amount, and a settled one nothing.
bonded_active :
    (amount : ℕ) (status : BondStatus)
    → is_active status ≡ true
    → bonded_amount amount status ≡ amount
bonded_active amount BondStatus.active h = refl
bonded_active amount BondStatus.released h = cc
bonded_active amount BondStatus.slashed h = cc

bonded_settled :
    (amount : ℕ) (status : BondStatus) → is_active status ≡ false → bonded_amount amount status ≡ 0
bonded_settled amount BondStatus.active h = cc
bonded_settled amount BondStatus.released h = refl
bonded_settled amount BondStatus.slashed h = refl

module _ (s : State) (wf : IsWellFormed s) where
  -- Closing a bond takes its amount out of the bonds.
  supply-close_bond :
      (k : ℕ) (b : Bond) (status : BondStatus)
      → bond_of k s ≡ some b
      → is_active b.status ≡ true
      → is_active status ≡ false
      → supply (put_bond b.id (record b { status = status }) s) + b.amount ≡ supply s
  supply-close_bond k b status found active closed = omega (
    arith,
    supply-put_bond s b.id (record b { status = status }) b
        (found_at_id bond_id s.bond_seq s.bond wf.bonds k b found),
    bonded_active b.amount b.status active,
    bonded_settled b.amount status closed,
  )

  close_bond-IsWellFormed :
      (k : ℕ) (b : Bond) (status : BondStatus)
      → bond_of k s ≡ some b
      → IsWellFormed (put_bond b.id (record b { status = status }) s)
  close_bond-IsWellFormed k b status found =
      put_bond-IsWellFormed s wf b.id (record b { status = status }) b
        (found_at_id bond_id s.bond_seq s.bond wf.bonds k b found) refl

module _ (s : State) (wf : IsWellFormed s) (small : supply s < word) where
  pub locked_bond-Conserves :
      (poster : Account) (creator : String) (amount : ℕ) (purpose slasher ref : String)
      → account_of creator s ≡ some poster
      → amount ≤ poster.balance
      → Conserves s (locked_bond poster creator amount purpose slasher ref s)
  locked_bond-Conserves poster creator amount purpose slasher ref e le = record {
    well_formed = locked_bond-IsWellFormed s wf poster creator amount purpose slasher ref;
    total = supply-locked_bond s small poster creator amount purpose slasher ref wf e le;
    emission = unfold locked_bond in refl;
  }

  -- Posting a bond locks its amount.
  pub post_bond-Conserves :
      (env : Env) (msg : MsgPostBond) → Returns (λ _ s'. Conserves s s') (post_bond env msg s)
  unfolding post_bond
  post_bond-Conserves env msg = Returns-or_raise _ _ _ s λ _ _. Returns-or_raise _ _ _ s λ _ _.
      Returns-raise_if _ _ _ s λ positive. Returns-raise_if _ _ _ s λ other.
        Returns-read _ _ _ s λ poster e. Returns-raise_if _ _ _ s λ registered.
          Returns-raise_if _ _ _ s λ enough. rw (lock_bond_lem s) (
            success (
              locked_bond-Conserves poster msg.creator msg.amount msg.purpose msg.slasher msg.ref e
                (ltb→le _ _ enough)))

  -- Settling an active bond pays its amount into an account.
  pub settle_bond-Settles :
      (recipient : String) (status : BondStatus) (k : ℕ) (b : Bond)
      → bond_of k s ≡ some b
      → is_active b.status ≡ true
      → is_active status ≡ false
      → Returns (λ _ s'. Settles s s') (settle_bond recipient status b s)
  unfolding settle_bond
  settle_bond-Settles recipient status k b found active closed = Returns-read _ _ _ s λ acct e.
      Returns-modify _ _ s (
        unfold ◌>>=◌ in
        success (
          let t = put_bond b.id (record b { status = status }) s in
          let out = supply-close_bond s wf k b status found active closed in
          record {
            disputes = refl;
            moved = record {
              well_formed =
                  put_account-IsWellFormed t (close_bond-IsWellFormed s wf k b status found)
                    recipient (record acct { balance = add64 acct.balance b.amount });
              total = omega (
                arith,
                out,
                supply-credit t (omega (arith, out)) recipient acct b.amount e (omega (arith, out)),
              );
              emission = refl;
            };
          }))

  -- A bond that is released goes back to its poster.
  pub release_bond-Conserves :
      (env : Env) (creator : String) (id : ℕ)
      → Returns (λ _ s'. Conserves s s') (release_bond env creator id s)
  unfolding release_bond
  release_bond-Conserves env creator id = Returns-or_raise _ _ _ s λ _ _.
      Returns-read _ _ _ s λ bond found. Returns-raise_if _ _ _ s λ active.
        Returns-raise_if _ _ _ s λ slasher.
          Returns-weaken (λ _ s' h. h.moved)
            (settle_bond-Settles bond.poster BondStatus.released id bond found (not-false _ active)
              refl)

-- The coins that a slashing destroys.
abbrev pub burned_by : String → Option Bond → ℕ
burned_by beneficiary none = 0
burned_by beneficiary (some b) = if str_eq beneficiary "" then b.amount else 0

-- What SlashBond does to the coins: they go to the beneficiary, or they are destroyed.
pub record Slashes (burned : ℕ) (s s' : State) : Type 0 where
  pub well_formed : IsWellFormed s'
  pub total : supply s' + burned ≡ supply s
  pub emission : s'.emission_state ≡ s.emission_state

module _ (s : State) (wf : IsWellFormed s) (small : supply s < word) where
  slashed_paid :
      (env : Env) (beneficiary bytes : String) (k : ℕ) (b : Bond)
      → bond_of k s ≡ some b
      → is_active b.status ≡ true
      → str_eq beneficiary "" ≡ false
      → Slashes (burned_by beneficiary (bond_of k s)) s (
          put_bond b.id
            (record b { status = BondStatus.slashed })
            (credited env beneficiary bytes b.amount s))
  unfolding credited
  slashed_paid env beneficiary bytes k b found active named =
      let t = put_bond b.id (record b { status = BondStatus.slashed }) s in
      let out = supply-close_bond s wf k b BondStatus.slashed found active refl in
      rw (found, named)
        (record {
          well_formed =
              credited-IsWellFormed t (close_bond-IsWellFormed s wf k b BondStatus.slashed found)
                env beneficiary bytes b.amount;
          total = omega (
            arith,
            out,
            supply-credited t (omega (arith, out)) env beneficiary bytes b.amount
                (omega (arith, out)),
          );
          emission = refl;
        })

  slashed_burned :
      (beneficiary : String) (k : ℕ) (b : Bond)
      → bond_of k s ≡ some b
      → is_active b.status ≡ true
      → str_eq beneficiary "" ≡ true
      → Slashes
          (burned_by beneficiary (bond_of k s))
          s
          (put_bond b.id (record b { status = BondStatus.slashed }) s)
  slashed_burned beneficiary k b found active unnamed =
      rw (found, unnamed)
        (record {
          well_formed = close_bond-IsWellFormed s wf k b BondStatus.slashed found;
          total = supply-close_bond s wf k b BondStatus.slashed found active refl;
          emission = refl;
        })

  pay_beneficiary-Pays :
      (env : Env) (beneficiary : String) (amount : ℕ)
      → str_eq beneficiary "" ≡ false
      → Returns (Pays env beneficiary amount s) (pay_beneficiary env beneficiary amount s)
  unfolding pay_beneficiary
  pay_beneficiary-Pays env beneficiary amount named = rw named (
      Returns-or_raise _ _ _ s λ bytes _.
        Returns-check s _ _ _ λ _. Returns-credit s env beneficiary bytes amount (bytes, refl))

  pay_beneficiary_burns :
      (env : Env) (beneficiary : String) (amount : ℕ)
      → str_eq beneficiary "" ≡ true
      → pay_beneficiary env beneficiary amount s ≡ ok tt s
  unfolding pay_beneficiary pure
  pay_beneficiary_burns env beneficiary amount unnamed = rw unnamed refl

  -- SlashBond, when it succeeds in a well-formed store whose coins fit a uint64, lowers the coins
  -- in existence by the bond's amount if no beneficiary is named and keeps them otherwise, keeps
  -- the store well formed, and leaves the emission state alone.
  pub slash_bond-Slashes :
      (env : Env) (msg : MsgSlashBond)
      → Returns
          (λ _ s'. Slashes (burned_by msg.beneficiary (bond_of msg.id s)) s s')
          (slash_bond env msg s)
  unfolding slash_bond
  slash_bond-Slashes env msg = Returns-or_raise _ _ _ s λ _ _. Returns-read _ _ _ s λ bond found.
      Returns-raise_if _ _ _ s λ active. Returns-raise_if _ _ _ s λ slasher.
        elim (Bool-cases (str_eq msg.beneficiary "")) [
          | inl unnamed ↦
              Returns-step _ _ s (pay_beneficiary_burns env msg.beneficiary bond.amount unnamed) (
                unfold ◌>>=◌ in
                success
                  (slashed_burned msg.beneficiary msg.id bond found (not-false _ active) unnamed))
          | inr named ↦
              Returns-paid s env msg.beneficiary bond.amount _ _
                (pay_beneficiary-Pays env msg.beneficiary bond.amount named)
                λ bytes.
                  unfold ◌>>=◌ in
                  success (
                    slashed_paid env msg.beneficiary bytes msg.id bond found (not-false _ active)
                      named)
        ]
