-- ===== src/Rules/Payouts.antt =====
-- What a release or a refund that may be made does to the accounts, to the escrows and to the coins
-- (release_escrow and refund_escrow of Msg/Escrows.antt).
use mathlib.Core.Path.{subst}
use ag3nt_coin.Base.{
  ap, ◌∙◌, inl, inr, arith, ◌==◌, str_eq, ◌+◌, ◌<◌, ◌≡◌, refl, ℕ, String, true, some, if◌then◌else◌,
}
use ag3nt_coin.Base.Words.{word, add64, add64-eq}
use ag3nt_coin.Base.Store.{uint_key, string_key}
use ag3nt_coin.Base.Store.Laws.{get-set}
use ag3nt_coin.Exec.{ok}
use ag3nt_coin.Types.{Account, Escrow, EscrowStatus, is_fail_attested}
use ag3nt_coin.Keeper.{State, Env, account_of, escrow_of, put_escrow}
use ag3nt_coin.Keeper.Credit.{opened}
use ag3nt_coin.Msg.Escrows.{release_escrow, refund_escrow}
use ag3nt_coin.Invariant.{IsWellFormed, escrow_id}
use ag3nt_coin.Invariant.Records.{id-of-found}
use ag3nt_coin.Supply.{supply, held, held_amount}
use ag3nt_coin.Supply.Payments.{credited, balance-le-supply}
use ag3nt_coin.Supply.Steps.{supply-put_escrow}
use ag3nt_coin.Supply.Escrows.{paid_out-Conserves, held_of_locked}
use ag3nt_coin.Rules.Escrows.{
  IsReleasable, MayRelease, release_escrow-eq, MayRefund, refund_escrow-eq,
}

-- The escrow is stored as `after`, its amount is in the recipient's balance, and nothing else has
-- changed among the accounts, the escrows and the coins.
pub record PaidOut (id : ℕ) (after : Escrow) (recipient : String) (before : Account) (s s' : State)
    : Type 0 where
  pub account : Account
  pub raised : account.balance ≡ before.balance + after.amount
  pub accounts :
      (a : String) → account_of a s' ≡ (if str_eq a recipient then some account else account_of a s)
  pub escrows : (k : ℕ) → escrow_of k s' ≡ (if k == id then some after else escrow_of k s)
  pub total : supply s' ≡ supply s

abbrev paid_into : Account → ℕ → Account
paid_into a n = record a { registered = true; balance = add64 a.balance n }

credited_account :
    (env : Env) (recipient bytes : String) (n : ℕ) (acct : Account) (s : State)
    → account_of recipient s ≡ some acct
    → (a : String)
    → account_of a (credited env recipient bytes n s)
      ≡ (if str_eq a recipient then some (paid_into acct n) else account_of a s)
unfolding credited opened
credited_account env recipient bytes n acct s found a =
    get-set a recipient _ s.account
    ∙ ap
        (λ o.
          if str_eq a recipient
          then some (record (opened recipient o) { balance = add64 (opened recipient o).balance n })
          else account_of a s)
        found

held_if_failed :
    (amount : ℕ) (status : EscrowStatus)
    → is_fail_attested status ≡ true
    → held_amount amount status ≡ amount
held_if_failed amount EscrowStatus.fail_attested h = refl
held_if_failed amount _ h = ground (arith, h)

module _ (s : State) (wf : IsWellFormed s) (small : supply s < word) where
  -- The store after a payout.
  credited-PaidOut :
      (env : Env) (recipient bytes : String) (id : ℕ) (e after : Escrow) (before : Account)
      → escrow_of id s ≡ some e
      → held e ≡ e.amount
      → held after ≡ 0
      → after.id ≡ e.id
      → after.amount ≡ e.amount
      → account_of recipient s ≡ some before
      → PaidOut id after recipient before s
          (put_escrow e.id after (credited env recipient bytes e.amount s))
  unfolding credited
  credited-PaidOut env recipient bytes id e after before found full empty same_id same
        found_before =
      let same_key = id-of-found escrow_id s.escrow_seq s.escrow wf.escrows id e found in
      let t = put_escrow id after s in
      let moved =
        paid_out-Conserves s wf small env recipient bytes id e after found full empty same_id in
      let out = supply-put_escrow s id after e found in
      let fits : before.balance + e.amount < word =
        omega (arith, out, full, empty, balance-le-supply t recipient before found_before, small) in
      record {
        account = paid_into before e.amount;
        raised = omega (arith, add64-eq before.balance e.amount fits, same);
        accounts = credited_account env recipient bytes e.amount before s found_before;
        escrows = λ k.
            subst
              (λ j.
                escrow_of k (put_escrow e.id after s)
                ≡ (if k == j then some after else escrow_of k s))
              same_key (get-set k e.id after s.escrow);
        total = moved.total;
      }

  held-IsReleasable : (e : Escrow) → IsReleasable e.status → held e ≡ e.amount
  held-IsReleasable e (inl h) = rw h refl
  held-IsReleasable e (inr (inl h)) = rw h refl
  held-IsReleasable e (inr (inr (inl h))) = rw h refl
  held-IsReleasable e (inr (inr (inr h))) = rw h refl

  -- In a well-formed store whose coins fit a uint64, let the addresses of the caller and of the
  -- payee be valid and let the payee have an account. If the escrow is locked, submitted, disputed
  -- or failed, and the caller is its payer, or its deadline is over, it is not disputed, and it
  -- releases by the clock, then the release succeeds: the payee's balance is higher by exactly the
  -- escrow's amount, the escrow is stored as released at the block's time, no other account or
  -- escrow has changed, and the sum of all coins is the same.
  pub release_escrow_pays :
      (env : Env) (creator : String) (id : ℕ) (creator_bytes payee_bytes : String) (e : Escrow)
      (payee : Account)
      → env.string_to_bytes creator ≡ some creator_bytes
      → escrow_of id s ≡ some e
      → IsReleasable e.status
      → MayRelease env.block_time creator e
      → env.string_to_bytes e.payee ≡ some payee_bytes
      → account_of e.payee s ≡ some payee
      → (s' : State) × (release_escrow env creator id s ≡ ok tt s')
        × PaidOut id
            (record e { status = EscrowStatus.released; released_at = env.block_time })
            e.payee
            payee
            s
            s'
  release_escrow_pays env creator id creator_bytes payee_bytes e payee c found releasable may p
        p_found =
      (
        _,
        release_escrow-eq s env creator id creator_bytes payee_bytes e payee c found releasable may
            p p_found,
        credited-PaidOut env e.payee payee_bytes id e _ payee found (held-IsReleasable e releasable)
            refl refl refl p_found,
      )

  held-MayRefund : (now : ℕ) (e : Escrow) → MayRefund now e → held e ≡ e.amount
  held-MayRefund now e (inl (locked, _)) = held_of_locked e.amount e.status locked
  held-MayRefund now e (inr (failed, _)) = held_if_failed e.amount e.status failed

  -- In a well-formed store whose coins fit a uint64, let the payer's address be valid and let it
  -- have an account. If the escrow is locked and its deadline is not over, or it is failed and its
  -- contest window is over, then a refund by the payer succeeds: the payer's balance is higher by
  -- exactly the escrow's amount, the escrow is stored as refunded, no other account or escrow has
  -- changed, and the sum of all coins is the same.
  pub refund_escrow_pays :
      (env : Env) (id : ℕ) (bytes : String) (e : Escrow) (payer : Account)
      → env.string_to_bytes e.payer ≡ some bytes
      → escrow_of id s ≡ some e
      → MayRefund env.block_time e
      → account_of e.payer s ≡ some payer
      → (s' : State) × (refund_escrow env e.payer id s ≡ ok tt s')
        × PaidOut id (record e { status = EscrowStatus.refunded }) e.payer payer s s'
  refund_escrow_pays env id bytes e payer p found may p_found = (
    _,
    refund_escrow-eq s env id bytes e payer p found may p_found,
    credited-PaidOut env e.payer bytes id e _ payer found (held-MayRefund env.block_time e may) refl
        refl refl p_found,
  )
