-- ===== src/Life/Handlers.antt =====
-- The life cycle of an escrow under the handlers that write one (Msg/Escrows.antt,
-- Msg/Verifiers.antt).
use ag3nt_coin.Base.{ℕ, ◌≡◌, refl, String, true, Bool-cases, inl, inr, not-false}
use ag3nt_coin.Base.Store.{uint_key}
use ag3nt_coin.Base.Words.{sub64}
use ag3nt_coin.Keeper.{put_account}
use ag3nt_coin.Exec.{modify}
use ag3nt_coin.Exec.Returns.{
  Returns, success, Returns-or_raise, Returns-raise_if, Returns-gets, Returns-modify, Returns-pure,
  Returns-call,
}
use ag3nt_coin.Types.{Escrow, is_submitted}
use ag3nt_coin.Keeper.{State, Env, Returns-read}
use ag3nt_coin.Msg.Escrows.{
  MsgLockEscrow, MsgSubmitEscrow, new_escrow, lock_escrow, submit_escrow, release_escrow,
  refund_escrow, dispute_escrow,
}
use ag3nt_coin.Msg.Verifiers.{MsgAttestEscrow, attested, attest_escrow, verified_release}
use ag3nt_coin.Invariant.{IsWellFormed}
use ag3nt_coin.Life.{Moves, Follows, Evolves}
use ag3nt_coin.Life.Frames.{same_escrows, same_escrows-Known}
use ag3nt_coin.Frame.Payments.{
  pay_payee-Keeps, pay_payer-Keeps, ensure_registered-Keeps, lock_bond-Keeps,
}
use ag3nt_coin.Frame.Handling.{check_terms-Keeps}
use ag3nt_coin.Life.Edges.{
  releases_from, refunds_from, submits_from, disputes_from, fails_from, pays_from,
}
use ag3nt_coin.Exec.Keeps.{Keeps-Returns}
use ag3nt_coin.Life.Steps.{written-Evolves, added-Evolves}

module _ (s : State) (wf : IsWellFormed s) where
  pub submit_escrow-Evolves :
      (env : Env) (msg : MsgSubmitEscrow) → Returns (λ _ s'. Evolves s s') (submit_escrow env msg s)
  unfolding submit_escrow
  submit_escrow-Evolves env msg = Returns-or_raise _ _ _ s λ _ _.
      Returns-read _ _ _ s λ escrow found. Returns-raise_if _ _ _ s λ locked.
        Returns-raise_if _ _ _ s λ _. Returns-raise_if _ _ _ s λ _. Returns-raise_if _ _ _ s λ _.
          Returns-raise_if _ _ _ s λ _.
            unfold modify in
            success (
              written-Evolves s s wf refl msg.id escrow _ found (record {
                same_terms = refl;
                moves = submits_from escrow.status (not-false _ locked);
              }))

  pub dispute_escrow-Evolves :
      (env : Env) (creator : String) (id : ℕ)
      → Returns (λ _ s'. Evolves s s') (dispute_escrow env creator id s)
  unfolding dispute_escrow
  dispute_escrow-Evolves env creator id = Returns-or_raise _ _ _ s λ _ _.
      Returns-read _ _ _ s λ escrow found. Returns-raise_if _ _ _ s λ submitted.
        Returns-raise_if _ _ _ s λ _. Returns-raise_if _ _ _ s λ _.
          unfold modify in
          success (
            written-Evolves s s wf refl id escrow _ found (record {
              same_terms = refl;
              moves = disputes_from escrow.status (not-false _ submitted);
            }))

  pub release_escrow-Evolves :
      (env : Env) (creator : String) (id : ℕ)
      → Returns (λ _ s'. Evolves s s') (release_escrow env creator id s)
  unfolding release_escrow
  release_escrow-Evolves env creator id = Returns-or_raise _ _ _ s λ _ _.
      Returns-read _ _ _ s λ escrow found. Returns-raise_if _ _ _ s λ releasable.
        Returns-raise_if _ _ _ s λ _.
          Returns-call _ _ _ s
            (Keeps-Returns _ s (pay_payee-Keeps (same_escrows s) env escrow) refl)
            λ _ t same.
              unfold modify in
              success (
                written-Evolves s t wf same id escrow _ found (record {
                  same_terms = refl;
                  moves = releases_from escrow.status (not-false _ releasable);
                }))

  pub refund_escrow-Evolves :
      (env : Env) (creator : String) (id : ℕ)
      → Returns (λ _ s'. Evolves s s') (refund_escrow env creator id s)
  unfolding refund_escrow
  refund_escrow-Evolves env creator id = Returns-or_raise _ _ _ s λ _ _.
      Returns-read _ _ _ s λ escrow found. Returns-raise_if _ _ _ s λ refundable.
        Returns-raise_if _ _ _ s λ _. Returns-raise_if _ _ _ s λ _.
          Returns-call _ _ _ s
            (Keeps-Returns _ s (pay_payer-Keeps (same_escrows s) env escrow) refl)
            λ _ t same.
              unfold modify in
              success (
                written-Evolves s t wf same id escrow _ found (record {
                  same_terms = refl;
                  moves = refunds_from escrow.status (not-false _ refundable);
                }))

  pub verified_release-Evolves :
      (env : Env) (creator : String) (id : ℕ) (key : String)
      → Returns (λ _ s'. Evolves s s') (verified_release env creator id key s)
  unfolding verified_release
  verified_release-Evolves env creator id key = Returns-or_raise _ _ _ s λ _ _.
      Returns-read _ _ _ s λ escrow found. Returns-raise_if _ _ _ s λ _.
        Returns-raise_if _ _ _ s λ submitted. Returns-raise_if _ _ _ s λ _.
          Returns-raise_if _ _ _ s λ _.
            Returns-call _ _ _ s
              (Keeps-Returns _ s (pay_payee-Keeps (same_escrows s) env escrow) refl)
              λ _ t same.
                unfold modify in
                success (
                  written-Evolves s t wf same id escrow _ found (record {
                    same_terms = refl;
                    moves = pays_from escrow.status (not-false _ submitted);
                  }))

  attested-Follows :
      (env : Env) (msg : MsgAttestEscrow) (bond_id : ℕ) (e : Escrow)
      → is_submitted e.status ≡ true
      → Follows e (attested env msg bond_id e)
  unfolding attested
  attested-Follows env msg bond_id e h = elim (Bool-cases msg.passed) [
    | inl passed ↦ rw passed (record { same_terms = refl; moves = Moves.stays })
    | inr failed ↦ rw failed (record { same_terms = refl; moves = fails_from e.status h })
  ]

  pub attest_escrow-Evolves :
      (env : Env) (msg : MsgAttestEscrow) → Returns (λ _ s'. Evolves s s') (attest_escrow env msg s)
  unfolding attest_escrow
  attest_escrow-Evolves env msg = Returns-or_raise _ _ _ s λ _ _.
      Returns-read _ _ _ s λ escrow found. Returns-raise_if _ _ _ s λ submitted.
        Returns-raise_if _ _ _ s λ _. Returns-raise_if _ _ _ s λ _. Returns-raise_if _ _ _ s λ _.
          Returns-raise_if _ _ _ s λ _. Returns-read _ _ _ s λ verifier _.
            Returns-raise_if _ _ _ s λ _. Returns-raise_if _ _ _ s λ _.
              Returns-call _ _ _ s
                (Keeps-Returns _ s
                  (lock_bond-Keeps (same_escrows s) verifier _ _ _ _ _ (same_escrows-Known s _ _))
                  refl)
                λ bond_id t same. Returns-modify _ _ t (
                  Returns-pure _ _ (
                    written-Evolves s t wf same msg.escrow_id escrow
                      (attested env msg bond_id escrow) found
                      (attested-Follows env msg bond_id escrow (not-false _ submitted))))

  pub lock_escrow-Evolves :
      (env : Env) (msg : MsgLockEscrow) → Returns (λ _ s'. Evolves s s') (lock_escrow env msg s)
  unfolding lock_escrow
  lock_escrow-Evolves env msg = Returns-or_raise _ _ _ s λ _ _. Returns-or_raise _ _ _ s λ bytes _.
      Returns-raise_if _ _ _ s λ _. Returns-raise_if _ _ _ s λ _.
        Returns-call _ _ _ s (Keeps-Returns _ s (check_terms-Keeps (same_escrows s) env msg _) refl)
          λ no_auto_release t at_t. Returns-read _ _ _ t λ payer _. Returns-raise_if _ _ _ t λ _.
            Returns-raise_if _ _ _ t λ _.
              Returns-call _ _ _ t
                (Keeps-Returns _ t
                  (ensure_registered-Keeps (same_escrows s) env msg.payee bytes msg.amount) at_t)
                λ _ u at_u. Returns-modify _ _ u (
                  Returns-gets _ _ _ (
                    Returns-modify _ _ _ (
                      Returns-pure _ _ (
                        added-Evolves s
                          (put_account msg.creator
                            (record payer { balance = sub64 payer.balance msg.amount }) u)
                          wf at_u (new_escrow env msg no_auto_release)))))
