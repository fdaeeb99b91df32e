-- ===== src/Supply/Verdict.antt =====
-- The coins under ResolveDispute (Msg/Verdict.antt).
use ag3nt_coin.Base.{
  ℕ, ◌<◌, ◌≡◌, refl, sym, ap, ◌∙◌, String, Bool, true, false, Option, none, some, List, [], ◌∷◌,
  arith, inl, inr, Bool-cases, ◌&&◌, not,
}
use ag3nt_coin.Base.Store
use ag3nt_coin.Base.Store.{uint_key}
use ag3nt_coin.Base.Words.{word}
use ag3nt_coin.Exec.{Exec, ◌>>=◌}
use ag3nt_coin.Exec.Returns.{
  Returns, Returns-or_raise, Returns-raise_if, Returns-gets, Returns-modify, Returns-pure,
  Returns-weaken, Returns-call,
}
use ag3nt_coin.Types.{
  DisputeStatus, Escrow, EscrowStatus, Attestation, Bond, BondStatus, Dispute, Vote, Resolution,
  is_active, is_in_jury, is_challenged, is_accept,
}
use ag3nt_coin.Keeper.{State, Env, Returns-read, escrow_of, put_escrow, dispute_of}
use ag3nt_coin.Msg.Verifiers.{live_bond}
use ag3nt_coin.Msg.Verdict.{
  finish_dispute, opener_upheld, settle_escrow, settled_status, settle_if_live, settle_dispute_bond,
  settle_stake, settle_votes, settle_attestations, resolve_dispute, verdict,
}
use ag3nt_coin.Invariant.{IsWellFormed, dispute_id}
use ag3nt_coin.Invariant.Records.{found_at_id}
use ag3nt_coin.Supply.{held_amount, supply}
use ag3nt_coin.Supply.Payments.{dispute-credited, Returns-paid}
use ag3nt_coin.Supply.Steps.{Conserves, Conserves-trans, Settles, Settles-refl, Settles-then}
use ag3nt_coin.Supply.Bonds.{settle_bond-Settles}
use ag3nt_coin.Supply.Escrows.{
  rewritten-Conserves, pay_payee-Pays, pay_payer-Pays, paid_out-Conserves,
}
use ag3nt_coin.Supply.Verifiers.{live_bond-eq_some}
use ag3nt_coin.Supply.Jury.{redisputed-Conserves}

-- The status that a verdict leaves holds nothing, and an escrow before the jury holds its amount.
held_in_jury :
    (amount : ℕ) (status : EscrowStatus)
    → (not (is_in_jury status) && not (is_challenged status)) ≡ false
    → is_challenged status ≡ false
    → held_amount amount status ≡ amount
held_in_jury amount EscrowStatus.in_jury h k = refl
held_in_jury amount _ h k = ground arith

held_challenged :
    (amount : ℕ) (status : EscrowStatus)
    → is_challenged status ≡ true
    → held_amount amount status ≡ 0
held_challenged amount EscrowStatus.challenged h = refl
held_challenged amount _ h = ground arith

-- The rest of a handler after a step that settles.
Settles-call :
    {A B : Type 0} (m : Exec State A) (f : A → Exec State B) (s : State)
    → Returns (λ _ s'. Settles s s') (m s)
    → ((a : A) (t : State) → Settles s t → Returns (λ _ s'. Conserves t s') (f a t))
    → Returns (λ _ s'. Conserves s s') ((m >>= f) s)
Settles-call m f s r h =
    Returns-call (λ _ t. Settles s t) m f s r
      λ a t st. Returns-weaken (λ _ u tu. Conserves-trans st.moved tu) (h a t st)

module _ (s : State) (wf : IsWellFormed s) (small : supply s < word) where
  -- What settles the escrow pays out what it holds, once it is stored.
  settle_escrow-Settles :
      (env : Env) (k : ℕ) (e : Escrow) (r : Resolution)
      → escrow_of k s ≡ some e
      → (not (is_in_jury e.status) && not (is_challenged e.status)) ≡ false
      → Returns (λ settled s'. Settles s (put_escrow e.id settled s')) (settle_escrow env e r s)
  unfolding settle_escrow
  settle_escrow-Settles env k e r found before = elim (Bool-cases (is_challenged e.status)) [
    | inl challenged ↦ rw challenged (
        Returns-pure _ _ (record {
          disputes = refl;
          moved =
              rewritten-Conserves s wf k e (record e { status = EscrowStatus.released }) found refl
                (sym (held_challenged e.amount e.status challenged));
        }))
    | inr jury ↦ rw jury (elim (Bool-cases (is_accept r)) [
      | inl accepted ↦ rw accepted (
          Returns-paid s env e.payee e.amount _ _ (pay_payee-Pays s env e) λ bytes.
            Returns-pure _ _ (record {
              disputes = dispute-credited s env e.payee bytes e.amount;
              moved =
                  paid_out-Conserves s wf small env e.payee bytes k e _ found
                    (held_in_jury e.amount e.status before jury) refl refl;
            }))
      | inr rejected ↦ rw rejected (
          Returns-paid s env e.payer e.amount _ _ (pay_payer-Pays s env e) λ bytes.
            Returns-pure _ _ (record {
              disputes = dispute-credited s env e.payer bytes e.amount;
              moved =
                  paid_out-Conserves s wf small env e.payer bytes k e _ found
                    (held_in_jury e.amount e.status before jury) refl refl;
            }))
    ])
  ]

  settle_if_live-Settles :
      (recipient purpose : String) (id : ℕ) (status : BondStatus)
      → is_active status ≡ false
      → Returns (λ _ s'. Settles s s') (settle_if_live recipient status (live_bond purpose id s) s)
  unfolding settle_if_live
  settle_if_live-Settles recipient purpose id status closed = go (live_bond purpose id s) refl
    where
      go :
          (o : Option Bond)
          → live_bond purpose id s ≡ o
          → Returns (λ _ s'. Settles s s') (settle_if_live recipient status o s)
      go none e = Returns-pure _ s (Settles-refl s wf)
      go (some b) e =
          let (found, active) = live_bond-eq_some purpose id s b e in
          settle_bond-Settles s wf small recipient status id b found active closed

pub closed_settled : (b : Bool) → is_active (settled_status b) ≡ false
unfolding settled_status
closed_settled true = refl
closed_settled false = refl

module _ (s : State) (wf : IsWellFormed s) (small : supply s < word) where
  settle_dispute_bond-Settles :
      (challenged : Bool) (d : Dispute) (e : Escrow) (r : Resolution)
      → Returns (λ _ s'. Settles s s') (settle_dispute_bond challenged d e r s)
  unfolding settle_dispute_bond
  settle_dispute_bond-Settles challenged d e r =
      Returns-gets _ _ s
        (settle_if_live-Settles s wf small _ _ d.bond_id _ (closed_settled (opener_upheld d e r)))

  settle_stake-Settles :
      (purpose : String) (bond_id : ℕ) (holder : String) (coherent : Bool) (winner : String)
      → Returns (λ _ s'. Settles s s') (settle_stake purpose bond_id holder coherent winner s)
  unfolding settle_stake
  settle_stake-Settles purpose bond_id holder coherent winner =
      Returns-gets _ _ s
        (settle_if_live-Settles s wf small _ purpose bond_id _ (closed_settled coherent))

settle_votes-Settles :
    (purpose : String) (accepted : Bool) (winner : String) (votes : List Vote) (s : State)
    → IsWellFormed s
    → supply s < word
    → Returns (λ _ s'. Settles s s') (settle_votes purpose accepted winner votes s)
unfolding settle_votes
settle_votes-Settles purpose accepted winner [] s wf small = Returns-pure _ s (Settles-refl s wf)
settle_votes-Settles purpose accepted winner (v ∷ rest) s wf small =
    Settles-then _ _ s (settle_stake-Settles s wf small purpose v.bond_id v.juror _ winner)
      λ u t st.
        settle_votes-Settles purpose accepted winner rest t st.moved.well_formed
          (omega (arith, st.moved.total))

settle_attestations-Settles :
    (purpose : String) (accepted : Bool) (winner : String) (attestations : List Attestation)
    (s : State)
    → IsWellFormed s
    → supply s < word
    → Returns (λ _ s'. Settles s s') (settle_attestations purpose accepted winner attestations s)
unfolding settle_attestations
settle_attestations-Settles purpose accepted winner [] s wf small =
    Returns-pure _ s (Settles-refl s wf)
settle_attestations-Settles purpose accepted winner (a ∷ rest) s wf small =
    Settles-then _ _ s (settle_stake-Settles s wf small purpose a.bond_id a.verifier _ winner)
      λ u t st.
        settle_attestations-Settles purpose accepted winner rest t st.moved.well_formed
          (omega (arith, st.moved.total))

module _ (s : State) (wf : IsWellFormed s) (small : supply s < word) where
  -- The bonds and stakes of a dispute are settled, and its verdict is stored.
  finish_dispute-Conserves :
      (challenged : Bool) (d : Dispute) (e : Escrow) (r : Resolution)
      → dispute_of d.id s ≡ some d
      → Returns (λ _ s'. Conserves s s') (finish_dispute challenged d e r s)
  unfolding finish_dispute
  finish_dispute-Conserves challenged d e r found =
      Settles-call _ _ s (settle_dispute_bond-Settles s wf small challenged d e r) λ _ t st.
        Settles-call _ _ t
          (settle_votes-Settles _ _ _ d.votes t st.moved.well_formed
            (omega (arith, st.moved.total)))
          λ _ u tu.
            Settles-call _ _ u
              (settle_attestations-Settles _ _ _ e.attestations u tu.moved.well_formed
                (omega (arith, st.moved.total, tu.moved.total)))
              λ _ v uv. Returns-modify _ _ v (
                Returns-pure _ _ (
                  redisputed-Conserves v d.id
                    (record d { status = DisputeStatus.resolved; resolution = r }) d
                    uv.moved.well_formed
                    (ap (Store.get d.id) (uv.disputes ∙ tu.disputes ∙ st.disputes) ∙ found) refl))

module _ (s : State) (wf : IsWellFormed s) (small : supply s < word) where
  -- ResolveDispute, when it succeeds in a well-formed store whose coins fit a uint64, keeps the
  -- store well formed, keeps the sum of all balances, escrows, bonds and vouch stakes, and leaves
  -- the emission state alone.
  pub resolve_dispute-Conserves :
      (env : Env) (creator : String) (dispute_id : ℕ)
      → Returns (λ _ s'. Conserves s s') (resolve_dispute env creator dispute_id s)
  unfolding resolve_dispute
  resolve_dispute-Conserves env creator k = Returns-or_raise _ _ _ s λ _ _.
      Returns-read _ _ _ s λ dispute found. Returns-raise_if _ _ _ s λ pending.
        Returns-read _ _ _ s λ params _. Returns-raise_if _ _ _ s λ quorum.
          Returns-raise_if _ _ _ s λ tie. Returns-read _ _ _ s λ escrow e.
            Returns-raise_if _ _ _ s λ before.
              Returns-call _ _ _ s
                (settle_escrow-Settles s wf small env dispute.escrow_id escrow
                  (verdict dispute.votes) e before)
                λ settled t st. Returns-modify _ _ t (
                  Returns-weaken (λ _ _ h. Conserves-trans st.moved h)
                    (finish_dispute-Conserves (put_escrow escrow.id settled t) st.moved.well_formed
                      (omega (arith, st.moved.total)) _ dispute settled _
                      (ap (Store.get dispute.id) st.disputes
                        ∙ found_at_id dispute_id s.dispute_seq s.dispute wf.disputes k dispute
                            found)))
