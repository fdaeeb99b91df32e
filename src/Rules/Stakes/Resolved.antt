-- ===== src/Rules/Stakes/Resolved.antt =====
-- What a verdict leaves of the stakes of its dispute (Msg/Verdict.antt).
use ag3nt_coin.Base.{◌≡◌, refl, sym, ap, ◌∙◌, ℕ, String, Bool, some, List, [], ◌∷◌}
use ag3nt_coin.Base.Store
use ag3nt_coin.Base.Store.Laws.{get-set_self}
use ag3nt_coin.Base.Store.{uint_key, string_key}
use ag3nt_coin.Exec.Returns.{
  Returns, Returns-weaken, Returns-or_raise, Returns-raise_if, Returns-gets, Returns-modify,
  Returns-pure, Returns-call,
}
use ag3nt_coin.Types.{Escrow, Attestation, Dispute, DisputeStatus, Resolution, Vote, is_challenged}
use ag3nt_coin.Keeper.{State, Env, Returns-read, dispute_of, escrow_of, put_escrow, put_dispute}
use ag3nt_coin.Msg.Verifiers.{attestation_purpose}
use ag3nt_coin.Msg.Jury.{dispute_purpose, juror_purpose}
use ag3nt_coin.Msg.Verdict.{
  settle_dispute_bond, settle_stake, settle_votes, settle_attestations, finish_dispute,
  opener_upheld, resolve_dispute, verdict,
}
use ag3nt_coin.Invariant.{IsWellFormed, dispute_id, escrow_id}
use ag3nt_coin.Invariant.Records.{id-of-found}
use ag3nt_coin.Supply.Verdict.{closed_settled}
use ag3nt_coin.Rules.Stakes.{
  Closing, Closing-refl, Closing-trans, HasNumbers, IsClosed, settle_if_live-Closes,
}
use ag3nt_coin.Rules.Stakes.Closed.{
  AllClosed, Closing-AllClosed, StakesClosed, Closing-StakesClosed, StakesClosed-settled, vote_bond,
  attestation_bond,
}
use ag3nt_coin.Rules.Stakes.Settled.{StakesAfter, Kept-StakesAfter}
use ag3nt_coin.Rules.Stakes.Paid.{settle_escrow-Leaves, status_after}

settle_stake-Closes :
    (purpose : String) (k : ℕ) (holder : String) (coherent : Bool) (winner : String) (s : State)
    → HasNumbers s
    → Returns
        (λ _ t. Closing s t × IsClosed purpose k t)
        (settle_stake purpose k holder coherent winner s)
unfolding settle_stake
settle_stake-Closes purpose k holder coherent winner s numbered =
    Returns-gets _ _ s (settle_if_live-Closes purpose _ _ k s numbered (closed_settled coherent))

settle_votes-Closes :
    (purpose : String) (accepted : Bool) (winner : String) (votes : List Vote) (s : State)
    → HasNumbers s
    → Returns
        (λ _ t. Closing s t × AllClosed vote_bond purpose votes t)
        (settle_votes purpose accepted winner votes s)
unfolding settle_votes
settle_votes-Closes purpose accepted winner [] s numbered =
    Returns-pure _ s (Closing-refl s numbered, tt)
settle_votes-Closes purpose accepted winner (v ∷ rest) s numbered =
    Returns-call _ _ _ s (settle_stake-Closes purpose v.bond_id v.juror _ winner s numbered)
      λ _ t first.
        Returns-weaken
          (λ _ u later. (
            Closing-trans first.0 later.0,
            (later.0.stays_closed purpose v.bond_id first.1, later.1),
          ))
          (settle_votes-Closes purpose accepted winner rest t first.0.numbered)

settle_attestations-Closes :
    (purpose : String) (accepted : Bool) (winner : String) (attestations : List Attestation)
    (s : State)
    → HasNumbers s
    → Returns
        (λ _ t. Closing s t × AllClosed attestation_bond purpose attestations t)
        (settle_attestations purpose accepted winner attestations s)
unfolding settle_attestations
settle_attestations-Closes purpose accepted winner [] s numbered =
    Returns-pure _ s (Closing-refl s numbered, tt)
settle_attestations-Closes purpose accepted winner (a ∷ rest) s numbered =
    Returns-call _ _ _ s (settle_stake-Closes purpose a.bond_id a.verifier _ winner s numbered)
      λ _ t first.
        Returns-weaken
          (λ _ u later. (
            Closing-trans first.0 later.0,
            (later.0.stays_closed purpose a.bond_id first.1, later.1),
          ))
          (settle_attestations-Closes purpose accepted winner rest t first.0.numbered)

settle_dispute_bond-Closes :
    (challenged : Bool) (d : Dispute) (e : Escrow) (r : Resolution) (s : State)
    → HasNumbers s
    → Returns
        (λ _ t. Closing s t × IsClosed (dispute_purpose d.id) d.bond_id t)
        (settle_dispute_bond challenged d e r s)
unfolding settle_dispute_bond
settle_dispute_bond-Closes challenged d e r s numbered =
    Returns-gets _ _ s
      (settle_if_live-Closes _ _ _ d.bond_id s numbered (closed_settled (opener_upheld d e r)))

redisputed-Closing :
    (k : ℕ) (d : Dispute) (s : State) → HasNumbers s → Closing s (put_dispute k d s)
redisputed-Closing k d s numbered = record {
  numbered = numbered;
  escrows = refl;
  kept = λ j b h. (b.status, h);
  stays_closed = λ _ _ h. h;
}

-- The dispute with its resolution.
abbrev pub resolved_by : Resolution → Dispute → Dispute
resolved_by r d = record d { status = DisputeStatus.resolved; resolution = r }

record Finished (d : Dispute) (e : Escrow) (r : Resolution) (s t : State) : Type 0 where
  stakes : StakesClosed d e t
  decided : dispute_of d.id t ≡ some (resolved_by r d)
  closing : Closing s t

finish_dispute-Finished :
    (challenged : Bool) (d : Dispute) (e : Escrow) (r : Resolution) (s : State)
    → HasNumbers s
    → Returns (λ _ t. Finished d e r s t) (finish_dispute challenged d e r s)
unfolding finish_dispute
finish_dispute-Finished challenged d e r s numbered =
    Returns-call _ _ _ s (settle_dispute_bond-Closes challenged d e r s numbered) λ _ t first.
      Returns-call _ _ _ t (settle_votes-Closes (juror_purpose d.id) _ _ d.votes t first.0.numbered)
        λ _ u second.
          Returns-call _ _ _ u
            (settle_attestations-Closes (attestation_purpose e.id) _ _ e.attestations u
              second.0.numbered)
            λ _ v third. Returns-modify _ _ v (
              let rewritten = redisputed-Closing d.id (resolved_by r d) v third.0.numbered in
              Returns-pure _ _ (record {
                stakes = Closing-StakesClosed d e rewritten (record {
                  opener = third.0.stays_closed _ _ (second.0.stays_closed _ _ first.1);
                  jurors = Closing-AllClosed vote_bond _ d.votes third.0 second.1;
                  verifiers = third.1;
                });
                decided = get-set_self d.id (resolved_by r d) v.dispute;
                closing =
                    Closing-trans first.0
                      (Closing-trans second.0 (Closing-trans third.0 rewritten));
              }))

-- The dispute with its escrow, as they were stored, and what the verdict makes of them and of
-- their stakes.
pub record Settled (k : ℕ) (s s' : State) : Type 0 where
  pub dispute : Dispute
  pub dispute_found : dispute_of k s ≡ some dispute
  pub decided : dispute_of k s' ≡ some (resolved_by (verdict dispute.votes) dispute)
  pub escrow : Escrow
  pub escrow_found : escrow_of dispute.escrow_id s ≡ some escrow
  pub settled : Escrow
  pub settled_found : escrow_of dispute.escrow_id s' ≡ some settled
  pub settled_so :
      settled.status ≡ status_after (is_challenged escrow.status) (verdict dispute.votes)
  pub stakes : StakesAfter dispute escrow s s'

-- When ResolveDispute succeeds in a well-formed store, the dispute and its escrow were stored, the
-- dispute is stored as resolved by the verdict of its votes, its escrow is stored as released if
-- the verdict accepts the work or the release was challenged, and as refunded otherwise, and of the
-- bonds that the dispute, its votes and its escrow's attestations name, each one that was stored,
-- and was posted as this dispute's bond, as a juror's stake in it or as a verifier's stake on the
-- escrow, is stored as it was, but as released or slashed.
pub resolve_dispute-Settled :
    (s : State) (env : Env) (creator : String) (k : ℕ)
    → IsWellFormed s
    → Returns (λ _ s'. Settled k s s') (resolve_dispute env creator k s)
unfolding resolve_dispute
resolve_dispute-Settled s env creator k wf = Returns-or_raise _ _ _ s λ _ _.
    Returns-read _ _ _ s λ dispute found. Returns-raise_if _ _ _ s λ pending.
      Returns-read _ _ _ s λ params _. Returns-raise_if _ _ _ s λ quorum.
        Returns-raise_if _ _ _ s λ tie. Returns-read _ _ _ s λ escrow stored.
          Returns-raise_if _ _ _ s λ before.
            Returns-call _ _ _ s
              (settle_escrow-Leaves env escrow (verdict dispute.votes) s wf.bonds)
              λ settled t left. Returns-modify _ _ t (
                let at_k =
                  id-of-found dispute_id s.dispute_seq s.dispute wf.disputes k dispute found in
                let same =
                  id-of-found escrow_id s.escrow_seq s.escrow wf.escrows dispute.escrow_id escrow
                    stored in
                Returns-weaken
                  (λ _ u end. record {
                    dispute = dispute;
                    dispute_found = found;
                    decided = ap (λ j. dispute_of j u) (sym at_k) ∙ end.decided;
                    escrow = escrow;
                    escrow_found = stored;
                    settled = settled;
                    settled_found =
                        ap (λ j. escrow_of j u) (sym same)
                        ∙ ap (Store.get escrow.id) end.closing.escrows
                        ∙ get-set_self escrow.id settled t.escrow;
                    settled_so = left.status;
                    stakes =
                        Kept-StakesAfter s u
                          (λ j b h. end.closing.kept j b (ap (Store.get j) left.bonds ∙ h)) dispute
                          escrow
                          (StakesClosed-settled dispute escrow settled u left.id left.attestations
                            end.stakes);
                  })
                  (finish_dispute-Finished _ dispute settled _ (put_escrow escrow.id settled t)
                    left.numbered))
