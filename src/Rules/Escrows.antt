-- ===== src/Rules/Escrows.antt =====
-- Who may release or refund an escrow, and what a release or a refund does (Msg/Escrows.antt).
use ag3nt_coin.Base.{
  eq_refl, not-false, ◌⊎◌, ℕ, ◌≡◌, refl, String, true, false, some, arith, ◌||◌, inl, inr,
  Bool-cases, str_eq,
}
use ag3nt_coin.Base.Store.{uint_key, string_key}
use ag3nt_coin.Base.Words.{sle-eq-not-slt, slt, sle}
use ag3nt_coin.Exec.{raise_if, succeeds, ok, ◌>>=◌}
use ag3nt_coin.Exec.Returns.{
  Returns, Returns-or_raise, Returns-raise_if, Returns-known, Returns-anyway,
}
use ag3nt_coin.Types.{Account, Escrow, EscrowStatus, is_locked, is_disputed, is_fail_attested}
use ag3nt_coin.Keeper.{State, Env, read, Returns-read, account_of, escrow_of, put_escrow}
use ag3nt_coin.Keeper.Credit.{check_new_account_credit, credit_account, is_dust}
use ag3nt_coin.Msg.Escrows.{
  is_releasable, release_refused, pay_payee, release_escrow, refund_refused, pay_payer,
  refund_escrow,
}
use ag3nt_coin.Supply.Payments.{credited}

-- The statuses from which an escrow may be released.
abbrev pub IsReleasable : EscrowStatus → Type 0
IsReleasable status =
    (status ≡ EscrowStatus.locked)
    ⊎ (status ≡ EscrowStatus.submitted)
    ⊎ (status ≡ EscrowStatus.disputed)
    ⊎ (status ≡ EscrowStatus.fail_attested)

is_releasable-IsReleasable :
    (status : EscrowStatus) → is_releasable status ≡ true → IsReleasable status
unfolding is_releasable
is_releasable-IsReleasable EscrowStatus.locked h = inl refl
is_releasable-IsReleasable EscrowStatus.submitted h = inr (inl refl)
is_releasable-IsReleasable EscrowStatus.disputed h = inr (inr (inl refl))
is_releasable-IsReleasable EscrowStatus.fail_attested h = inr (inr (inr refl))
is_releasable-IsReleasable _ h = cc

IsReleasable-is_releasable :
    (status : EscrowStatus) → IsReleasable status → is_releasable status ≡ true
unfolding is_releasable
IsReleasable-is_releasable status (inl e) = rw e refl
IsReleasable-is_releasable status (inr (inl e)) = rw e refl
IsReleasable-is_releasable status (inr (inr (inl e))) = rw e refl
IsReleasable-is_releasable status (inr (inr (inr e))) = rw e refl

-- The conditions of ReleaseEscrow: the payer may release at any time; anyone else from the deadline
-- on, unless the escrow is disputed or never releases by the clock.
abbrev pub MayRelease : ℕ → String → Escrow → Type 0
MayRelease now creator e =
    (str_eq creator e.payer ≡ true)
    ⊎ ((is_disputed e.status ≡ false) × (e.no_auto_release ≡ false) × (slt now e.deadline ≡ false))

may_release :
    (now : ℕ) (creator : String) (e : Escrow)
    → release_refused now creator e ≡ false
    → MayRelease now creator e
unfolding release_refused
may_release now creator e h = elim (Bool-cases (str_eq creator e.payer)) [
  | inl payer ↦ inl payer
  | inr other ↦ inr (ground arith)
]

MayRelease-release_refused :
    (now : ℕ) (creator : String) (e : Escrow)
    → MayRelease now creator e
    → release_refused now creator e ≡ false
unfolding release_refused
MayRelease-release_refused now creator e (inl payer) = ground (arith, payer)
MayRelease-release_refused now creator e (inr (calm, by_clock, over)) =
    ground (arith, calm, by_clock, over)

module _ (s : State) where
  released :
      (env : Env) (creator : String) (id : ℕ)
      → Returns
          (λ _ _.
            (e : Escrow) × (escrow_of id s ≡ some e)
            × IsReleasable e.status
            × MayRelease env.block_time creator e)
          (release_escrow env creator id s)
  unfolding release_escrow
  released env creator id = Returns-or_raise _ _ _ s λ _ _. Returns-read _ _ _ s λ escrow found.
      Returns-raise_if _ _ _ s λ releasable. Returns-raise_if _ _ _ s λ allowed. Returns-anyway _ (
        escrow,
        found,
        is_releasable-IsReleasable escrow.status (not-false _ releasable),
        may_release env.block_time creator escrow allowed,
      )

  -- A release that succeeds had a stored escrow that was locked, submitted, disputed or failed, and
  -- the caller was its payer, or its deadline was over, it was not disputed, and it releases by the
  -- clock.
  pub release_escrow-MayRelease :
      (env : Env) (creator : String) (id : ℕ)
      → succeeds (release_escrow env creator id s) ≡ true
      → (e : Escrow) × (escrow_of id s ≡ some e)
        × IsReleasable e.status
        × MayRelease env.block_time creator e
  release_escrow-MayRelease env creator id done = Returns-known _ (released env creator id) done

  -- A release that may be made, with both addresses valid and the payee's account there.
  pub release_escrow-eq :
      (env : Env) (creator : String) (id : ℕ) (creator_bytes payee_bytes : String) (e : Escrow)
      (payee : Account)
      → env.string_to_bytes creator ≡ some creator_bytes
      → escrow_of id s ≡ some e
      → IsReleasable e.status
      → MayRelease env.block_time creator e
      → env.string_to_bytes e.payee ≡ some payee_bytes
      → account_of e.payee s ≡ some payee
      → release_escrow env creator id s
        ≡ ok tt (
            put_escrow e.id
              (record e { status = EscrowStatus.released; released_at = env.block_time })
              (credited env e.payee payee_bytes e.amount s))
  unfolding release_escrow pay_payee check_new_account_credit credit_account is_dust read raise_if
      credited ◌>>=◌
  release_escrow-eq env creator id creator_bytes payee_bytes e payee c found releasable allowed p
        p_found =
      rw
        (
          c,
          found,
          IsReleasable-is_releasable e.status releasable,
          MayRelease-release_refused env.block_time creator e allowed,
          p,
          p_found,
        )
        (rw p_found refl)

-- The conditions of RefundEscrow: a locked escrow before its deadline, or a failed one once the
-- contest window is over.
abbrev pub MayRefund : ℕ → Escrow → Type 0
MayRefund now e =
    ((is_locked e.status ≡ true) × (slt now e.deadline ≡ true))
    ⊎ ((is_fail_attested e.status ≡ true) × (slt now e.challenge_deadline ≡ false))

locked_not_failed :
    (status : EscrowStatus) → is_locked status ≡ true → is_fail_attested status ≡ false
locked_not_failed EscrowStatus.locked h = refl
locked_not_failed _ h = ground (arith, h)

may_refund :
    (now : ℕ) (e : Escrow)
    → (is_locked e.status || is_fail_attested e.status) ≡ true
    → refund_refused now e ≡ false
    → MayRefund now e
unfolding refund_refused
may_refund now e status h = elim (Bool-cases (is_fail_attested e.status)) [
  | inl failed ↦ inr (failed, rw failed at h)
  | inr other ↦
      let past : sle e.deadline now ≡ false = rw other at h in
      inl (ground arith, ground (arith, sle-eq-not-slt e.deadline now))
]

MayRefund-refund_refused :
    (now : ℕ) (e : Escrow)
    → MayRefund now e
    → ((is_locked e.status || is_fail_attested e.status) ≡ true) × (refund_refused now e ≡ false)
unfolding refund_refused
MayRefund-refund_refused now e (inl (locked, early)) =
    let not_failed = locked_not_failed e.status locked in
    (rw locked refl, rw not_failed (rw (sle-eq-not-slt e.deadline now) (rw early refl)))
MayRefund-refund_refused now e (inr (failed, over)) = (ground (arith, failed), rw failed over)

module _ (s : State) where
  refunded :
      (env : Env) (creator : String) (id : ℕ)
      → Returns
          (λ _ _.
            (e : Escrow) × (escrow_of id s ≡ some e)
            × (str_eq creator e.payer ≡ true)
            × MayRefund env.block_time e)
          (refund_escrow env creator id s)
  unfolding refund_escrow
  refunded env creator id = Returns-or_raise _ _ _ s λ _ _. Returns-read _ _ _ s λ escrow found.
      Returns-raise_if _ _ _ s λ status. Returns-raise_if _ _ _ s λ payer.
        Returns-raise_if _ _ _ s λ allowed. Returns-anyway _ (
          escrow,
          found,
          not-false _ payer,
          may_refund env.block_time escrow (not-false _ status) allowed,
        )

  -- A refund that succeeds was asked for by the payer, of a locked escrow before its deadline, or
  -- of a failed one after the contest window.
  pub refund_escrow-MayRefund :
      (env : Env) (creator : String) (id : ℕ)
      → succeeds (refund_escrow env creator id s) ≡ true
      → (e : Escrow) × (escrow_of id s ≡ some e)
        × (str_eq creator e.payer ≡ true)
        × MayRefund env.block_time e
  refund_escrow-MayRefund env creator id done = Returns-known _ (refunded env creator id) done

  -- A refund that may be made, with the payer's address valid and its account there.
  pub refund_escrow-eq :
      (env : Env) (id : ℕ) (bytes : String) (e : Escrow) (payer : Account)
      → env.string_to_bytes e.payer ≡ some bytes
      → escrow_of id s ≡ some e
      → MayRefund env.block_time e
      → account_of e.payer s ≡ some payer
      → refund_escrow env e.payer id s
        ≡ ok tt (
            put_escrow e.id
              (record e { status = EscrowStatus.refunded })
              (credited env e.payer bytes e.amount s))
  unfolding refund_escrow pay_payer credit_account is_dust read credited ◌>>=◌
  refund_escrow-eq env id bytes e payer p found may p_found =
      let (refundable, allowed) = MayRefund-refund_refused env.block_time e may in
      rw (p, found, refundable, eq_refl e.payer, allowed, p, p_found) refl
