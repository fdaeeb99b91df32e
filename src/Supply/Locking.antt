-- ===== src/Supply/Locking.antt =====
-- The coins under LockEscrow (Msg/Escrows.antt).
use ag3nt_coin.Base.{
  ℕ, ◌≤◌, ◌<◌, ◌≡◌, ◌≢◌, refl, ◌∙◌, String, Bool, true, false, some, List, [], ◌∷◌, arith, ltb→le,
  eq_iff, inl, inr, Option-cases,
}
use ag3nt_coin.Base.Store.{string_key}
use ag3nt_coin.Base.Store.Laws.{sum-set-some, sum-set-none, get-set_ne}
use ag3nt_coin.Base.Words.{word, sub64}
use ag3nt_coin.Exec.{Exec, ◌>>=◌}
use ag3nt_coin.Exec.Returns.{
  Returns-becomes, Returns, success, Returns-or_raise, Returns-raise_if, Returns-gets,
  Returns-modify, Returns-pure,
}
use ag3nt_coin.Types.{Account}
use ag3nt_coin.Keeper.{State, Env, Returns-read, account_of, put_account, add_escrow}
use ag3nt_coin.Keeper.Credit.{opened, ensure_auth_account, ensure_registered}
use ag3nt_coin.Msg.Escrows.{MsgLockEscrow, check_verifiers, check_terms, new_escrow, lock_escrow}
use ag3nt_coin.Invariant.{IsWellFormed}
use ag3nt_coin.Supply.{balance, supply}
use ag3nt_coin.Supply.Steps.{
  Conserves, put_account-IsWellFormed, add_escrow-IsWellFormed, supply-debit, supply-add_escrow,
}

-- The store after an account has been registered without a payment.
ensured : Env → String → String → State → State
unfolding ensure_auth_account
ensured env addr bytes s =
    put_account addr (opened addr (account_of addr s)) (ensure_auth_account env bytes s)

module _ (s : State) where
  Returns-ensured :
      {A : Type 0} {Q : A → State → Type 0} (env : Env) (addr bytes : String) (guard : ℕ)
      (f : Unit {0} → Exec State A)
      → Returns Q (f tt (ensured env addr bytes s))
      → Returns Q ((ensure_registered env addr bytes guard >>= f) s)
  unfolding ensure_registered ensured
  Returns-ensured env addr bytes guard f h =
      Returns-becomes (ensured env addr bytes s) _ f s
        (Returns-gets _ _ s (Returns-raise_if _ _ _ s λ _. unfold ◌>>=◌ in success refl)) λ _. h

  -- Registering moves no coins.
  supply-ensured : (env : Env) (addr bytes : String) → supply (ensured env addr bytes s) ≡ supply s
  unfolding supply ensured
  supply-ensured env addr bytes = elim (Option-cases (account_of addr s)) [
    | inl e ↦ rw e (
        unfold opened in
        omega (
          arith,
          sum-set-none balance addr
              (record {
                address = addr;
                balance = 0;
                nonce = 0;
                registered = true;
                faucet_claimed = false;
              })
              s.account e,
        ))
    | inr (a, e) ↦ rw e (
        unfold opened in
        omega (arith, sum-set-some balance addr (record a { registered = true }) a s.account e))
  ]

  ensured-IsWellFormed :
      (env : Env) (addr bytes : String) → IsWellFormed s → IsWellFormed (ensured env addr bytes s)
  unfolding ensured
  ensured-IsWellFormed env addr bytes wf = record {
    vouches = wf.vouches;
    distinct = wf.distinct;
    escrows = wf.escrows;
    disputes = wf.disputes;
    bonds = wf.bonds;
    gates = wf.gates;
  }

  -- Registering one account leaves the others alone.
  account_of-ensured_ne :
      (env : Env) (a addr bytes : String)
      → a ≢ addr
      → account_of a (ensured env addr bytes s) ≡ account_of a s
  unfolding ensured
  account_of-ensured_ne env a addr bytes ne = get-set_ne a addr _ s.account ne

  -- The checks of a message's terms write nothing.
  check_verifiers_pure :
      (env : Env) (payer payee : String) (seen verifiers : List String)
      → Returns (λ _ s'. s' ≡ s) (check_verifiers env payer payee seen verifiers s)
  unfolding check_verifiers
  check_verifiers_pure env payer payee seen [] = Returns-pure _ s refl
  check_verifiers_pure env payer payee seen (v ∷ rest) = Returns-or_raise _ _ _ s λ _ _.
      Returns-raise_if _ _ _ s
        λ _. Returns-raise_if _ _ _ s λ _. check_verifiers_pure env payer payee (v ∷ seen) rest

  check_terms_pure :
      (env : Env) (msg : MsgLockEscrow) (verifiers : List String)
      → Returns (λ _ s'. s' ≡ s) (check_terms env msg verifiers s)
  unfolding check_terms
  check_terms_pure env msg [] =
      Returns-raise_if _ _ _ s λ _. Returns-raise_if _ _ _ s λ _. Returns-pure _ s refl
  check_terms_pure env msg (v ∷ rest) = Returns-raise_if _ _ _ s λ _.
      Returns-becomes s _ _ s (check_verifiers_pure env msg.creator msg.payee [] (v ∷ rest))
        λ _. Returns-raise_if _ _ _ s λ _. Returns-pure _ s refl

module _ (s : State) (wf : IsWellFormed s) (small : supply s < word) where
  locked-Conserves :
      (env : Env) (msg : MsgLockEscrow) (bytes : String) (payer : Account) (never : Bool)
      → account_of msg.creator s ≡ some payer
      → msg.amount ≤ payer.balance
      → msg.creator ≢ msg.payee
      → Conserves s (
          add_escrow (new_escrow env msg never) (
            put_account msg.creator
              (record payer { balance = sub64 payer.balance msg.amount })
              (ensured env msg.payee bytes s)))
  unfolding new_escrow
  locked-Conserves env msg bytes payer never e le ne =
      let t = ensured env msg.payee bytes s in
      let wt = ensured-IsWellFormed s env msg.payee bytes wf in
      let same = supply-ensured s env msg.payee bytes in
      let paid =
        supply-debit t (omega (arith, same)) msg.creator payer msg.amount
          (account_of-ensured_ne s env msg.creator msg.payee bytes ne ∙ e) le in
      let debited = record payer { balance = sub64 payer.balance msg.amount } in
      let u = put_account msg.creator debited t in
      let wu = put_account-IsWellFormed t wt msg.creator debited in
      record {
        well_formed = add_escrow-IsWellFormed u wu (new_escrow env msg never) refl;
        total = omega (arith, same, paid, supply-add_escrow u wu (new_escrow env msg never));
        emission = unfold ensured in refl;
      }

  -- LockEscrow, when it succeeds in a well-formed store whose coins fit a uint64, keeps the store
  -- well formed, keeps the sum of all balances, escrows, bonds and vouch stakes, and leaves the
  -- emission state alone.
  pub lock_escrow-Conserves :
      (env : Env) (msg : MsgLockEscrow) → Returns (λ _ s'. Conserves s s') (lock_escrow env msg s)
  unfolding lock_escrow
  lock_escrow-Conserves env msg = Returns-or_raise _ _ _ s λ _ _.
      Returns-or_raise _ _ _ s λ bytes _. Returns-raise_if _ _ _ s λ positive.
        Returns-raise_if _ _ _ s λ other.
          Returns-becomes s _ _ s (check_terms_pure s env msg msg.verifier_addrs) λ never.
            Returns-read _ _ _ s λ payer e. Returns-raise_if _ _ _ s λ registered.
              Returns-raise_if _ _ _ s λ enough.
                Returns-ensured s env msg.payee bytes msg.amount _ (
                  Returns-modify _ _ _ (
                    Returns-gets _ _ _ (
                      Returns-modify _ _ _ (
                        Returns-pure _ _ (
                          locked-Conserves env msg bytes payer never e (ltb→le _ _ enough)
                            (λ same. cc (other, (eq_iff msg.creator msg.payee).1 same)))))))
