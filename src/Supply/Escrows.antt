-- ===== src/Supply/Escrows.antt =====
-- The coins under SubmitEscrow, ReleaseEscrow, RefundEscrow and DisputeEscrow (Msg/Escrows.antt).
use ag3nt_coin.Base.{sym, ℕ, ◌+◌, ◌<◌, ◌≡◌, refl, String, true, some, arith, ◌||◌, not-false}
use ag3nt_coin.Base.Words.{word}
use ag3nt_coin.Exec.{modify}
use ag3nt_coin.Exec.Returns.{Returns, success, Returns-or_raise, Returns-raise_if}
use ag3nt_coin.Types.{Escrow, EscrowStatus, is_locked, is_submitted, is_fail_attested}
use ag3nt_coin.Keeper.{State, Env, Returns-read, escrow_of, put_escrow}
use ag3nt_coin.Msg.Escrows.{
  MsgSubmitEscrow, submit_escrow, is_releasable, pay_payee, release_escrow, pay_payer,
  refund_escrow, dispute_escrow,
}
use ag3nt_coin.Invariant.{IsWellFormed, escrow_id}
use ag3nt_coin.Invariant.Records.{found_at_id}
use ag3nt_coin.Supply.{held, held_amount, supply}
use ag3nt_coin.Supply.Payments.{credited, Pays, Returns-paid, Returns-check, Returns-credit}
use ag3nt_coin.Supply.Steps.{
  Conserves, put_escrow-IsWellFormed, credited-IsWellFormed, supply-credited, supply-put_escrow,
}

-- An escrow that may be released, or refunded, still holds its amount.
held_of_releasable :
    (amount : ℕ) (status : EscrowStatus)
    → is_releasable status ≡ true
    → held_amount amount status ≡ amount
unfolding is_releasable
held_of_releasable amount EscrowStatus.locked h = refl
held_of_releasable amount _ h = ground arith

held_of_refundable :
    (amount : ℕ) (status : EscrowStatus)
    → (is_locked status || is_fail_attested status) ≡ true
    → held_amount amount status ≡ amount
held_of_refundable amount EscrowStatus.locked h = refl
held_of_refundable amount _ h = ground arith

pub held_of_submitted :
    (amount : ℕ) (status : EscrowStatus)
    → is_submitted status ≡ true
    → held_amount amount status ≡ amount
held_of_submitted amount EscrowStatus.submitted h = refl
held_of_submitted amount _ h = ground arith

pub held_of_locked :
    (amount : ℕ) (status : EscrowStatus)
    → is_locked status ≡ true
    → held_amount amount status ≡ amount
held_of_locked amount EscrowStatus.locked h = refl
held_of_locked amount _ h = ground arith

module _ (s : State) where
  -- The two payments out of an escrow.
  pub pay_payee-Pays :
      (env : Env) (e : Escrow) → Returns (Pays env e.payee e.amount s) (pay_payee env e s)
  unfolding pay_payee
  pay_payee-Pays env e = Returns-or_raise _ _ _ s λ bytes _.
      Returns-check s _ _ _ λ _. Returns-credit s env e.payee bytes e.amount (bytes, refl)

  pub pay_payer-Pays :
      (env : Env) (e : Escrow) → Returns (Pays env e.payer e.amount s) (pay_payer env e s)
  unfolding pay_payer
  pay_payer-Pays env e =
      Returns-or_raise _ _ _ s λ bytes _. Returns-credit s env e.payer bytes e.amount (bytes, refl)

module _ (s : State) (wf : IsWellFormed s) where
  -- An escrow that is written back with the same id and the same amount held.
  pub rewritten-Conserves :
      (k : ℕ) (old e : Escrow)
      → escrow_of k s ≡ some old
      → e.id ≡ old.id
      → held e ≡ held old
      → Conserves s (put_escrow old.id e s)
  rewritten-Conserves k old e found same held_same =
      let at_id = found_at_id escrow_id s.escrow_seq s.escrow wf.escrows k old found in
      record {
        well_formed = put_escrow-IsWellFormed s wf old.id e old at_id same;
        total = omega (arith, supply-put_escrow s old.id e old at_id, held_same);
        emission = refl;
      }

  -- SubmitEscrow leaves the money where it is.
  pub submit_escrow-Conserves :
      (env : Env) (msg : MsgSubmitEscrow)
      → Returns (λ _ s'. Conserves s s') (submit_escrow env msg s)
  unfolding submit_escrow
  submit_escrow-Conserves env msg = Returns-or_raise _ _ _ s λ _ _.
      Returns-read _ _ _ s λ escrow found. Returns-raise_if _ _ _ s λ locked.
        Returns-raise_if _ _ _ s λ payee. Returns-raise_if _ _ _ s λ bound.
          Returns-raise_if _ _ _ s λ delivery. Returns-raise_if _ _ _ s λ key.
            unfold modify in
            success (
              rewritten-Conserves msg.id escrow _ found refl
                (sym (held_of_locked escrow.amount escrow.status (not-false _ locked))))

  -- DisputeEscrow leaves the money where it is.
  pub dispute_escrow-Conserves :
      (env : Env) (creator : String) (id : ℕ)
      → Returns (λ _ s'. Conserves s s') (dispute_escrow env creator id s)
  unfolding dispute_escrow
  dispute_escrow-Conserves env creator id = Returns-or_raise _ _ _ s λ _ _.
      Returns-read _ _ _ s λ escrow found. Returns-raise_if _ _ _ s λ submitted.
        Returns-raise_if _ _ _ s λ payer. Returns-raise_if _ _ _ s λ bound.
          unfold modify in
          success (
            rewritten-Conserves id escrow _ found refl
              (sym (held_of_submitted escrow.amount escrow.status (not-false _ submitted))))

module _ (s : State) (wf : IsWellFormed s) (small : supply s < word) where
  -- An escrow's amount is paid, and the escrow is written back without it.
  pub paid_out-Conserves :
      (env : Env) (a bytes : String) (k : ℕ) (old e : Escrow)
      → escrow_of k s ≡ some old
      → held old ≡ old.amount
      → held e ≡ 0
      → e.id ≡ old.id
      → Conserves s (put_escrow old.id e (credited env a bytes old.amount s))
  unfolding credited
  paid_out-Conserves env a bytes k old e found full empty same =
      let at_id = found_at_id escrow_id s.escrow_seq s.escrow wf.escrows k old found in
      let t = put_escrow old.id e s in
      let out : supply t + old.amount ≡ supply s =
        omega (arith, supply-put_escrow s old.id e old at_id, full, empty) in
      record {
        well_formed =
            credited-IsWellFormed t (put_escrow-IsWellFormed s wf old.id e old at_id same) env a
              bytes old.amount;
        total = omega (
          arith,
          out,
          supply-credited t (omega (arith, out)) env a bytes old.amount (omega (arith, out)),
        );
        emission = refl;
      }

  -- ReleaseEscrow, when it succeeds in a well-formed store whose coins fit a uint64, keeps the
  -- store well formed, keeps the sum of all balances, escrows, bonds and vouch stakes, and leaves
  -- the emission state alone.
  pub release_escrow-Conserves :
      (env : Env) (creator : String) (id : ℕ)
      → Returns (λ _ s'. Conserves s s') (release_escrow env creator id s)
  unfolding release_escrow
  release_escrow-Conserves env creator id = Returns-or_raise _ _ _ s λ _ _.
      Returns-read _ _ _ s λ escrow found. Returns-raise_if _ _ _ s λ releasable.
        Returns-raise_if _ _ _ s λ allowed.
          Returns-paid s env escrow.payee escrow.amount _ _ (pay_payee-Pays s env escrow) λ bytes.
            unfold modify in
            success (
              paid_out-Conserves env escrow.payee bytes id escrow _ found
                (held_of_releasable escrow.amount escrow.status (not-false _ releasable)) refl refl)

  -- RefundEscrow, when it succeeds in a well-formed store whose coins fit a uint64, keeps the store
  -- well formed, keeps the sum of all balances, escrows, bonds and vouch stakes, and leaves the
  -- emission state alone.
  pub refund_escrow-Conserves :
      (env : Env) (creator : String) (id : ℕ)
      → Returns (λ _ s'. Conserves s s') (refund_escrow env creator id s)
  unfolding refund_escrow
  refund_escrow-Conserves env creator id = Returns-or_raise _ _ _ s λ _ _.
      Returns-read _ _ _ s λ escrow found. Returns-raise_if _ _ _ s λ refundable.
        Returns-raise_if _ _ _ s λ payer. Returns-raise_if _ _ _ s λ allowed.
          Returns-paid s env escrow.payer escrow.amount _ _ (pay_payer-Pays s env escrow) λ bytes.
            unfold modify in
            success (
              paid_out-Conserves env escrow.payer bytes id escrow _ found
                (held_of_refundable escrow.amount escrow.status (not-false _ refundable)) refl refl)
