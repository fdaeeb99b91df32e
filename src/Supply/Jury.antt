-- ===== src/Supply/Jury.antt =====
-- The coins under the handlers of Msg/Jury.antt.
use mathlib.Core.Path.{subst}
use ag3nt_coin.Base.{ℕ, ◌<◌, ◌≡◌, refl, sym, ◌∙◌, String, some, ltb→le}
use ag3nt_coin.Base.Store.{uint_key}
use ag3nt_coin.Base.Text.{format_uint}
use ag3nt_coin.Base.Words.{word}
use ag3nt_coin.Exec.{Exec, modify, ◌>>=◌}
use ag3nt_coin.Exec.Returns.{
  Returns, success, Returns-or_raise, Returns-raise_if, Returns-gets, Returns-modify, Returns-pure,
  Returns-raise, Returns-step, Returns-call,
}
use ag3nt_coin.Types.{Escrow, EscrowStatus, Dispute}
use ag3nt_coin.Keeper.{
  State, Env, Returns-read, escrow_of, put_escrow, dispute_of, put_dispute, add_dispute,
}
use ag3nt_coin.Msg.Jury.{
  new_dispute, MsgOpenDispute, freeze, dispute_purpose, open_dispute, MsgCastVote, juror_purpose,
  cast_vote,
}
use ag3nt_coin.Invariant.{IsWellFormed, dispute_id}
use ag3nt_coin.Invariant.Records.{found_at_id}
use ag3nt_coin.Supply.{held_amount, supply}
use ag3nt_coin.Supply.Payments.{escrow_of-locked_bond, dispute_of-locked_bond, lock_bond_lem}
use ag3nt_coin.Supply.Steps.{
  Conserves, Conserves-trans, put_dispute-IsWellFormed, add_dispute-IsWellFormed,
}
use ag3nt_coin.Supply.Bonds.{locked_bond-Conserves}
use ag3nt_coin.Supply.Escrows.{rewritten-Conserves}

module _ (s : State) where
  -- Freezing an escrow writes nothing, and the frozen status holds what the status before held.
  freeze_holds :
      (now : ℕ) (creator : String) (e : Escrow) (status : EscrowStatus)
      → Returns
          (λ frozen s'. (s' ≡ s) × (held_amount e.amount frozen ≡ held_amount e.amount status))
          (freeze now creator e status s)
  unfolding freeze
  freeze_holds now creator e EscrowStatus.submitted = Returns-pure _ s (refl, refl)
  freeze_holds now creator e EscrowStatus.disputed = Returns-pure _ s (refl, refl)
  freeze_holds now creator e EscrowStatus.fail_attested =
      Returns-raise_if _ _ _ s λ _. Returns-raise_if _ _ _ s λ _. Returns-pure _ s (refl, refl)
  freeze_holds now creator e EscrowStatus.released =
      Returns-raise_if _ _ _ s λ _.
        Returns-raise_if _ _ _ s λ _. Returns-raise_if _ _ _ s λ _. Returns-pure _ s (refl, refl)
  freeze_holds now creator e _ = Returns-raise _ s

  -- The disputes are no part of the supply.
  disputed-Conserves :
      (d : ℕ → Dispute)
      → IsWellFormed s
      → (d s.dispute_seq).id ≡ s.dispute_seq
      → Conserves s (add_dispute d s)
  disputed-Conserves d wf same = record {
    well_formed = add_dispute-IsWellFormed s wf d same;
    total = unfold supply in refl;
    emission = refl;
  }

  pub redisputed-Conserves :
      (k : ℕ) (d old : Dispute)
      → IsWellFormed s
      → dispute_of k s ≡ some old
      → d.id ≡ k
      → Conserves s (put_dispute k d s)
  redisputed-Conserves k d old wf found same = record {
    well_formed = put_dispute-IsWellFormed s wf k d old found same;
    total = unfold supply in refl;
    emission = refl;
  }

-- What follows a freeze runs in the store that the freeze found.
Returns-frozen :
    {A : Type 0} {Q : A → State → Type 0} (now : ℕ) (creator : String) (e : Escrow)
    (f : EscrowStatus → Exec State A) (s : State)
    → ((frozen : EscrowStatus)
        → held_amount e.amount frozen ≡ held_amount e.amount e.status
        → Returns Q (f frozen s))
    → Returns Q ((freeze now creator e e.status >>= f) s)
Returns-frozen {Q} now creator e f s h =
    Returns-call _ _ f s (freeze_holds s now creator e e.status)
      λ frozen s' p. subst (λ x. Returns Q (f frozen x)) (sym p.0) (h frozen p.1)

module _ (s : State) (wf : IsWellFormed s) where
  -- A dispute is stored, and its escrow frozen.
  opened-Conserves :
      (d : ℕ → Dispute) (k : ℕ) (e : Escrow) (frozen : EscrowStatus)
      → (d s.dispute_seq).id ≡ s.dispute_seq
      → escrow_of k s ≡ some e
      → held_amount e.amount frozen ≡ held_amount e.amount e.status
      → Conserves s (put_escrow e.id (record e { status = frozen }) (add_dispute d s))
  opened-Conserves d k e frozen same found same_held =
      let opened = disputed-Conserves s d wf same in
      Conserves-trans opened (
        rewritten-Conserves (add_dispute d s) opened.well_formed k e (record e { status = frozen })
          found refl same_held)

module _ (s : State) (wf : IsWellFormed s) (small : supply s < word) where
  -- Opening a dispute locks the opener's bond, and leaves the escrow's money where it is.
  pub open_dispute-Conserves :
      (env : Env) (msg : MsgOpenDispute) → Returns (λ _ s'. Conserves s s') (open_dispute env msg s)
  unfolding open_dispute
  open_dispute-Conserves env msg = Returns-or_raise _ _ _ s λ _ _.
      Returns-read _ _ _ s λ escrow found. Returns-raise_if _ _ _ s λ party.
        Returns-frozen env.block_time msg.creator escrow _ s λ frozen same.
          Returns-raise_if _ _ _ s λ minimum. Returns-read _ _ _ s λ opener e.
            Returns-raise_if _ _ _ s λ registered. Returns-raise_if _ _ _ s λ enough.
              Returns-gets _ _ s (
                Returns-step _ _ s (lock_bond_lem s _ _ _ _ _ _) (
                  Returns-modify _ _ _ (
                    Returns-modify _ _ _ (
                      Returns-pure _ _ (
                        let purpose = dispute_purpose s.dispute_seq in
                        let ref = format_uint msg.escrow_id in
                        let locked =
                          locked_bond-Conserves s wf small opener msg.creator msg.bond_amount
                            purpose "" ref e (ltb→le _ _ enough) in
                        Conserves-trans locked (
                          opened-Conserves _ locked.well_formed (new_dispute msg s.bond_seq)
                            msg.escrow_id escrow frozen refl
                            (escrow_of-locked_bond s opener msg.creator msg.bond_amount purpose ""
                                ref _
                              ∙ found)
                            same))))))

  -- A vote locks the juror's stake.
  pub cast_vote-Conserves :
      (env : Env) (msg : MsgCastVote) → Returns (λ _ s'. Conserves s s') (cast_vote env msg s)
  unfolding cast_vote
  cast_vote-Conserves env msg = Returns-or_raise _ _ _ s λ _ _.
      Returns-read _ _ _ s λ dispute found. Returns-raise_if _ _ _ s λ pending.
        Returns-read _ _ _ s λ params _. Returns-raise_if _ _ _ s λ juror.
          Returns-raise_if _ _ _ s λ first. Returns-raise_if _ _ _ s λ minimum.
            Returns-read _ _ _ s λ acct e. Returns-raise_if _ _ _ s λ registered.
              Returns-raise_if _ _ _ s λ enough. Returns-step _ _ s (lock_bond_lem s _ _ _ _ _ _) (
                unfold modify in
                success (
                  let purpose = juror_purpose dispute.id in
                  let ref = format_uint dispute.id in
                  let locked =
                    locked_bond-Conserves s wf small acct msg.creator msg.stake_amount purpose ""
                      ref e (ltb→le _ _ enough) in
                  Conserves-trans locked (
                    redisputed-Conserves _ dispute.id _ dispute locked.well_formed
                      (dispute_of-locked_bond s acct msg.creator msg.stake_amount purpose "" ref _
                        ∙ found_at_id dispute_id s.dispute_seq s.dispute wf.disputes msg.dispute_id
                            dispute found)
                      refl)))
