-- ===== src/Supply/Payments.antt =====
-- What the shared helpers of the handlers do to the coins: a debit, the payment into an account
-- (chain/x/agntcoin/keeper/credit.go), the locking and the settling of a bond. Each is given with
-- the store that it leaves.
use mathlib.Core.Path.{subst}
use ag3nt_coin.Base.{
  sym, Bool-cases, false, true, inr, inl, Option-cases, ℕ, ◌+◌, ◌≤◌, ◌<◌, ◌≡◌, refl, String, some,
  arith,
}
use ag3nt_coin.Base.Store
use ag3nt_coin.Base.Store.{string_key, uint_key}
use ag3nt_coin.Base.Store.Laws.{sum-set-none, sum-set-some, le-sum-some}
use ag3nt_coin.Base.Words.{word, add64, sub64, add64-eq, sub64-eq}
use ag3nt_coin.Exec.{Exec, ok, ◌>>=◌}
use ag3nt_coin.Exec.Returns.{
  Returns-call, failure, Returns, success, Returns-raise_if, Returns-gets,
}
use ag3nt_coin.Types.{Account, BondStatus}
use ag3nt_coin.Keeper.{State, Env, account_of, put_account, add_bond, escrow_of, dispute_of}
use ag3nt_coin.Keeper.Credit.{
  is_dust, check_new_account_credit, opened, ensure_auth_account, credit_account,
}
use ag3nt_coin.Msg.Bonds.{lock_bond}
use ag3nt_coin.Supply.{balance, supply}

-- The store after a payment that is not refused.
unfoldable pub credited : Env → String → String → ℕ → State → State
unfolding ensure_auth_account
credited env addr bytes amount s =
    let to = opened addr (account_of addr s) in
    put_account addr (record to { balance = add64 to.balance amount })
      (ensure_auth_account env bytes s)

-- The result of a payment of `amount` to `addr`.
abbrev pub Pays : Env → String → ℕ → State → Unit {0} → State → Type 0
Pays env addr amount s _ s' = (bytes : String) × (s' ≡ credited env addr bytes amount s)

-- The store after the locking of a bond.
unfoldable pub locked_bond : Account → String → ℕ → String → String → String → State → State
locked_bond poster creator amount purpose slasher ref s =
    add_bond
      (λ id. record {
        id = id;
        poster = creator;
        amount = amount;
        purpose = purpose;
        slasher = slasher;
        status = BondStatus.active;
        ref = ref;
      })
      (put_account creator (record poster { balance = sub64 poster.balance amount }) s)

module _ (s : State) where
  pub lock_bond_lem :
      (poster : Account) (creator : String) (amount : ℕ) (purpose slasher ref : String)
      → lock_bond poster creator amount purpose slasher ref s
        ≡ ok s.bond_seq (locked_bond poster creator amount purpose slasher ref s)
  unfolding lock_bond locked_bond ◌>>=◌
  lock_bond_lem poster creator amount purpose slasher ref = refl

  -- Locking a bond leaves the escrows and the disputes alone.
  pub escrow_of-locked_bond :
      (poster : Account) (creator : String) (amount : ℕ) (purpose slasher ref : String) (k : ℕ)
      → escrow_of k (locked_bond poster creator amount purpose slasher ref s) ≡ escrow_of k s
  unfolding locked_bond
  escrow_of-locked_bond poster creator amount purpose slasher ref k = refl

  pub dispute_of-locked_bond :
      (poster : Account) (creator : String) (amount : ℕ) (purpose slasher ref : String) (k : ℕ)
      → dispute_of k (locked_bond poster creator amount purpose slasher ref s) ≡ dispute_of k s
  unfolding locked_bond
  dispute_of-locked_bond poster creator amount purpose slasher ref k = refl

  -- A payment is refused as dust, or ends in `credited`.
  pub Returns-credit :
      {Q : Unit {0} → State → Type 0} (env : Env) (addr bytes : String) (amount : ℕ)
      → Q tt (credited env addr bytes amount s)
      → Returns Q (credit_account env addr bytes amount s)
  unfolding credit_account credited
  Returns-credit env addr bytes amount q =
      Returns-gets _ _ s (Returns-raise_if _ _ _ s λ h. unfold ◌>>=◌ in success q)

  -- A payment inside a handler.
  pub Returns-paid :
      {A : Type 0} {Q : A → State → Type 0} (env : Env) (addr : String) (amount : ℕ)
      (m : Exec State (Unit {0})) (f : Unit {0} → Exec State A)
      → Returns (Pays env addr amount s) (m s)
      → ((bytes : String) → Returns Q (f tt (credited env addr bytes amount s)))
      → Returns Q ((m >>= f) s)
  Returns-paid {Q} env addr amount m f paid h =
      Returns-call (Pays env addr amount s) m f s paid
        λ u s' p. subst (λ x. Returns Q (f u x)) (sym p.1) (h p.0)

  -- The check before a payment only refuses.
  pub Returns-check :
      {A : Type 0} {Q : A → State → Type 0} (addr : String) (amount : ℕ)
      (f : Unit {0} → Exec State A)
      → (is_dust (account_of addr s) amount ≡ false → Returns Q (f tt s))
      → Returns Q ((check_new_account_credit addr amount >>= f) s)
  unfolding check_new_account_credit
  Returns-check addr amount f h = elim (Bool-cases (is_dust (account_of addr s) amount)) [
    | inl dust ↦ unfold ◌>>=◌ in rw dust failure
    | inr good ↦ unfold ◌>>=◌ in rw good (h good)
  ]

  -- A payment leaves the disputes alone.
  pub dispute-credited :
      (env : Env) (addr bytes : String) (amount : ℕ)
      → (credited env addr bytes amount s).dispute ≡ s.dispute
  unfolding credited
  dispute-credited env addr bytes amount = refl

  -- An account's balance is part of the supply.
  pub balance-le-supply :
      (a : String) (acct : Account) → account_of a s ≡ some acct → acct.balance ≤ supply s
  unfolding supply
  balance-le-supply a acct e = omega (arith, le-sum-some balance a acct s.account e)

module _ (s : State) (small : supply s < word) where
  -- Writing a balance lowered by `amount` takes the amount out of the accounts.
  pub sum-debit :
      (a : String) (acct : Account) (amount : ℕ)
      → account_of a s ≡ some acct
      → amount ≤ acct.balance
      → Store.sum balance
            (Store.set a (record acct { balance = sub64 acct.balance amount }) s.account)
          + amount
        ≡ Store.sum balance s.account
  sum-debit a acct amount e le = omega (
    arith,
    sum-set-some balance a (record acct { balance = sub64 acct.balance amount }) acct s.account e,
    balance-le-supply s a acct e,
    sub64-eq acct.balance amount le,
  )

  -- A payment of an amount that keeps the supply below 2 ^ 64 adds it to the accounts.
  pub sum-credit :
      (a : String) (acct : Account) (amount : ℕ)
      → account_of a s ≡ some acct
      → supply s + amount < word
      → Store.sum balance
          (Store.set a (record acct { balance = add64 acct.balance amount }) s.account)
        ≡ Store.sum balance s.account + amount
  sum-credit a acct amount e fits = omega (
    arith,
    sum-set-some balance a (record acct { balance = add64 acct.balance amount }) acct s.account e,
    balance-le-supply s a acct e,
    add64-eq acct.balance amount,
  )

  pub sum-credited :
      (env : Env) (a bytes : String) (amount : ℕ)
      → supply s + amount < word
      → Store.sum balance (credited env a bytes amount s).account
        ≡ Store.sum balance s.account + amount
  unfolding credited
  sum-credited env a bytes amount fits = elim (Option-cases (account_of a s)) [
    | inl e ↦ rw e (
        unfold opened in
        omega (
          arith,
          sum-set-none balance a
              (record {
                address = a;
                balance = add64 0 amount;
                nonce = 0;
                registered = true;
                faucet_claimed = false;
              })
              s.account e,
          add64-eq 0 amount,
        ))
    | inr (acct, e) ↦ rw e (
        unfold opened in
        omega (
          arith,
          sum-set-some balance a
              (record acct { registered = true; balance = add64 acct.balance amount }) acct
              s.account e,
          balance-le-supply s a acct e,
          add64-eq acct.balance amount,
        ))
  ]
