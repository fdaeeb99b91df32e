-- ===== src/Life/Disputes.antt =====
-- The life cycle of an escrow under the handlers of a dispute (Msg/Jury.antt, Msg/Verdict.antt).
use ag3nt_coin.Base.{◌∙◌, ℕ, ◌≡◌, refl, ap, String, false, not, ◌&&◌, Bool-cases, inl, inr}
use ag3nt_coin.Base.Store
use ag3nt_coin.Base.Store.{uint_key}
use ag3nt_coin.Exec.Returns.{
  Returns, Returns-or_raise, Returns-raise_if, Returns-gets, Returns-modify, Returns-pure,
  Returns-raise, Returns-call, Returns-weaken,
}
use ag3nt_coin.Types.{Escrow, EscrowStatus, Resolution, is_in_jury, is_challenged, is_accept}
use ag3nt_coin.Keeper.{State, Env, Returns-read, add_dispute}
use ag3nt_coin.Msg.Jury.{MsgOpenDispute, new_dispute, freeze, open_dispute}
use ag3nt_coin.Msg.Verdict.{settle_escrow, resolve_dispute, verdict}
use ag3nt_coin.Invariant.{IsWellFormed}
use ag3nt_coin.Life.{Moves, Follows, Evolves, escrows_of}
use ag3nt_coin.Life.Frames.{escrows_frame, same_escrows, same_escrows-Known}
use ag3nt_coin.Frame.Payments.{pay_payee-Keeps, pay_payer-Keeps, lock_bond-Keeps}
use ag3nt_coin.Frame.Settlements.{finish_dispute-Keeps}
use ag3nt_coin.Life.Edges.{accepts_from, rejects_from}
use ag3nt_coin.Exec.Keeps.{Keeps-Returns}
use ag3nt_coin.Life.Steps.{written-Evolves, put-Evolves}

module _ (s : State) (wf : IsWellFormed s) where
  -- Freezing writes nothing, and leads to a status that may follow.
  freeze-Moves :
      (now : ℕ) (creator : String) (e : Escrow) (a : EscrowStatus)
      → Returns (λ b s'. (s' ≡ s) × Moves a b) (freeze now creator e a s)
  unfolding freeze
  freeze-Moves now creator e EscrowStatus.submitted =
      Returns-pure _ s (refl, Moves.freezes_submitted)
  freeze-Moves now creator e EscrowStatus.disputed = Returns-pure _ s (refl, Moves.freezes_disputed)
  freeze-Moves now creator e EscrowStatus.fail_attested =
      Returns-raise_if _ _ _ s
        λ _. Returns-raise_if _ _ _ s λ _. Returns-pure _ s (refl, Moves.freezes_failed)
  freeze-Moves now creator e EscrowStatus.released = Returns-raise_if _ _ _ s λ _.
      Returns-raise_if _ _ _ s
        λ _. Returns-raise_if _ _ _ s λ _. Returns-pure _ s (refl, Moves.challenges)
  freeze-Moves now creator e _ = Returns-raise _ s

  pub open_dispute-Evolves :
      (env : Env) (msg : MsgOpenDispute) → Returns (λ _ s'. Evolves s s') (open_dispute env msg s)
  unfolding open_dispute
  open_dispute-Evolves env msg = Returns-or_raise _ _ _ s λ _ _.
      Returns-read _ _ _ s λ escrow found. Returns-raise_if _ _ _ s λ _.
        Returns-call _ _ _ s (freeze-Moves env.block_time msg.creator escrow escrow.status)
          λ frozen t at_t. Returns-raise_if _ _ _ t λ _. Returns-read _ _ _ t λ opener _.
            Returns-raise_if _ _ _ t λ _. Returns-raise_if _ _ _ t λ _. Returns-gets _ _ t (
              Returns-call _ _ _ t
                (Keeps-Returns _ t
                  (lock_bond-Keeps (same_escrows s) opener _ _ _ _ _ (same_escrows-Known s _ _))
                  (ap escrows_of at_t.0))
                λ bond_id u at_u. Returns-modify _ _ u (
                  Returns-modify _ _ _ (
                    Returns-pure _ _ (
                      written-Evolves s (add_dispute (new_dispute msg bond_id) u) wf at_u
                        msg.escrow_id escrow (record escrow { status = frozen }) found
                        (record { same_terms = refl; moves = at_t.1 })))))

  settle_escrow-Follows :
      (env : Env) (e : Escrow) (r : Resolution)
      → (not (is_in_jury e.status) && not (is_challenged e.status)) ≡ false
      → Returns (λ e' s'. (escrows_of s' ≡ escrows_of s) × Follows e e') (settle_escrow env e r s)
  unfolding settle_escrow
  settle_escrow-Follows env e r before = elim (Bool-cases (is_challenged e.status)) [
    | inl challenged ↦ rw challenged (
        Returns-pure _ _ (refl, record { same_terms = refl; moves = accepts_from e.status before }))
    | inr jury ↦ rw jury (elim (Bool-cases (is_accept r)) [
      | inl accepted ↦ rw accepted (
          Returns-call _ _ _ s (Keeps-Returns _ s (pay_payee-Keeps (same_escrows s) env e) refl)
            λ _ t same.
              Returns-pure _ t
                (same, record { same_terms = refl; moves = accepts_from e.status before }))
      | inr rejected ↦ rw rejected (
          Returns-call _ _ _ s (Keeps-Returns _ s (pay_payer-Keeps (same_escrows s) env e) refl)
            λ _ t same.
              Returns-pure _ t
                (same, record { same_terms = refl; moves = rejects_from e.status before jury }))
    ])
  ]

  pub resolve_dispute-Evolves :
      (env : Env) (creator : String) (id : ℕ)
      → Returns (λ _ s'. Evolves s s') (resolve_dispute env creator id s)
  unfolding resolve_dispute
  resolve_dispute-Evolves env creator id = Returns-or_raise _ _ _ s λ _ _.
      Returns-read _ _ _ s λ dispute _. Returns-raise_if _ _ _ s λ _.
        Returns-read _ _ _ s λ params _. Returns-raise_if _ _ _ s λ _. Returns-raise_if _ _ _ s λ _.
          Returns-read _ _ _ s λ escrow found. Returns-raise_if _ _ _ s λ before.
            Returns-call _ _ _ s (settle_escrow-Follows env escrow (verdict dispute.votes) before)
              λ settled t st. Returns-modify _ _ t (
                Returns-weaken
                  (λ _ s' same.
                    put-Evolves s s' wf dispute.escrow_id escrow settled found st.1
                      (ap (λ m. m.0) same ∙ ap (λ m. Store.set escrow.id settled m.0) st.0))
                  (Keeps-Returns _ _ (finish_dispute-Keeps (escrows_frame _) _ dispute settled _)
                    refl))
