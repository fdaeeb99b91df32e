-- ===== src/Life/Runs.antt =====
-- The life cycle of an escrow under any message, and over runs.
use ag3nt_coin.Base.{arith, ℕ, ◌≡◌, refl, ◌∙◌, some, ◌||◌, true}
use ag3nt_coin.Exec.Returns.{Returns, Returns-raise, Returns-ok}
use ag3nt_coin.Types.{Escrow, EscrowStatus, is_released, is_challenged}
use ag3nt_coin.Keeper.{State, Env, escrow_of}
use ag3nt_coin.Msg.Accounts.{faucet}
use ag3nt_coin.Invariant.{IsWellFormed}
use ag3nt_coin.Mint.{IsValid}
use ag3nt_coin.Chain.{Message, handle, Run, nothing, then}
use ag3nt_coin.Chain.Cap.{Run-Keeps}
use ag3nt_coin.Chain.Handlers.{without_response}
use ag3nt_coin.Life.{Moves, terms, Evolves}
use ag3nt_coin.Frame.Handling
use ag3nt_coin.Frame.Settlements
use ag3nt_coin.Life.Frames.{same_escrows}
use ag3nt_coin.Life.Steps.{frame-Evolves}
use ag3nt_coin.Life.Handlers
use ag3nt_coin.Life.Disputes

-- A message of any kind whose handler succeeds on a well-formed store moves each stored escrow
-- along one edge of the life cycle, or leaves its status, and does not change its terms.
pub handle-Evolves :
    (env : Env) (msg : Message) (s : State)
    → IsWellFormed s
    → Returns (λ _ s'. Evolves s s') (handle env msg s)
unfolding handle
handle-Evolves env (Message.msg_update_params authority params) s wf =
    frame-Evolves _ s (Settlements.update_params-Keeps (same_escrows s) env authority params)
handle-Evolves env (Message.msg_register creator) s wf =
    frame-Evolves _ s (Handling.register-Keeps (same_escrows s) env creator)
handle-Evolves env (Message.msg_faucet creator) s wf = unfold faucet in Returns-raise _ s
handle-Evolves env (Message.msg_transfer msg) s wf =
    frame-Evolves _ s (Handling.transfer-Keeps (same_escrows s) env msg)
handle-Evolves env (Message.msg_castvouch msg) s wf =
    frame-Evolves _ s (Handling.castvouch-Keeps (same_escrows s) env msg)
handle-Evolves env (Message.msg_unvouch creator to_addr) s wf =
    frame-Evolves _ s (Handling.unvouch-Keeps (same_escrows s) env creator to_addr)
handle-Evolves env (Message.msg_lock_escrow msg) s wf =
    without_response _ s (Handlers.lock_escrow-Evolves s wf env msg)
handle-Evolves env (Message.msg_release_escrow creator id) s wf =
    Handlers.release_escrow-Evolves s wf env creator id
handle-Evolves env (Message.msg_refund_escrow creator id) s wf =
    Handlers.refund_escrow-Evolves s wf env creator id
handle-Evolves env (Message.msg_submit_escrow msg) s wf =
    Handlers.submit_escrow-Evolves s wf env msg
handle-Evolves env (Message.msg_dispute_escrow creator id) s wf =
    Handlers.dispute_escrow-Evolves s wf env creator id
handle-Evolves env (Message.msg_open_dispute msg) s wf =
    without_response _ s (Disputes.open_dispute-Evolves s wf env msg)
handle-Evolves env (Message.msg_cast_vote msg) s wf =
    frame-Evolves _ s (Settlements.cast_vote-Keeps (same_escrows s) env msg)
handle-Evolves env (Message.msg_resolve_dispute creator id) s wf =
    without_response _ s (Disputes.resolve_dispute-Evolves s wf env creator id)
handle-Evolves env (Message.msg_post_bond msg) s wf =
    without_response _ s (frame-Evolves _ s (Handling.post_bond-Keeps (same_escrows s) env msg))
handle-Evolves env (Message.msg_release_bond creator id) s wf =
    frame-Evolves _ s (Handling.release_bond-Keeps (same_escrows s) env creator id)
handle-Evolves env (Message.msg_slash_bond msg) s wf =
    frame-Evolves _ s (Handling.slash_bond-Keeps (same_escrows s) env msg)
handle-Evolves env (Message.msg_attest_escrow msg) s wf =
    without_response _ s (Handlers.attest_escrow-Evolves s wf env msg)
handle-Evolves env (Message.msg_verified_release creator id key) s wf =
    Handlers.verified_release-Evolves s wf env creator id key
handle-Evolves env (Message.msg_reclaim_attestation_bonds creator id) s wf =
    frame-Evolves _ s (Handling.reclaim_attestation_bonds-Keeps (same_escrows s) env creator id)
handle-Evolves env (Message.msg_post_gate msg) s wf =
    without_response _ s (frame-Evolves _ s (Settlements.post_gate-Keeps (same_escrows s) env msg))
handle-Evolves env (Message.msg_commit_answer creator id commit) s wf =
    frame-Evolves _ s (Settlements.commit_answer-Keeps (same_escrows s) env creator id commit)
handle-Evolves env (Message.msg_reveal_answer msg) s wf =
    frame-Evolves _ s (Settlements.reveal_answer-Keeps (same_escrows s) env msg)
handle-Evolves env (Message.msg_settle_gate msg) s wf =
    without_response _ s
      (frame-Evolves _ s (Settlements.settle_gate-Keeps (same_escrows s) env msg))
handle-Evolves env (Message.msg_award_contribution msg) s wf =
    without_response _ s
      (frame-Evolves _ s (Settlements.award_contribution-Keeps (same_escrows s) env msg))
handle-Evolves env (Message.msg_cast_scoped_evidence_vouch msg) s wf =
    without_response _ s
      (frame-Evolves _ s (Settlements.cast_scoped_evidence_vouch-Keeps (same_escrows s) env msg))

-- Any number of edges.
pub data PathOfLife : EscrowStatus → EscrowStatus → Type 0 where
  here : {a : EscrowStatus} → PathOfLife a a
  onward : {a b c : EscrowStatus} → PathOfLife a b → Moves b c → PathOfLife a c

-- Where an escrow stands after a run: at the end of a path of the life cycle, on its old terms.
abbrev pub Arrives : ℕ → Escrow → State → Type 0
Arrives k e t =
    (e' : Escrow) × (escrow_of k t ≡ some e') × (terms e' ≡ terms e) × PathOfLife e.status e'.status

-- Over a run from a valid store, every stored escrow is still stored, with the same parties,
-- amount, deadline and verifiers, and its status has moved along edges of the life cycle only.
pub Run-Arrives :
    {s t : State}
    → Run s t
    → IsValid s
    → (k : ℕ) (e : Escrow) → escrow_of k s ≡ some e
    → Arrives k e t
Run-Arrives nothing valid k e found = (e, found, refl, here)
Run-Arrives (then {t} run env msg done) valid k e found =
    let (f, f_found, f_terms, f_path) = Run-Arrives run valid k e found in
    let wf = (Run-Keeps run valid).valid.well_formed in
    let step = Returns-ok (handle env msg t) (handle-Evolves env msg t wf) done in
    let (g, g_found, follows) = step k f f_found in
    (g, g_found, follows.same_terms ∙ f_terms, onward f_path follows.moves)

-- No edge leads on from a refund, and from a release only a challenge does, which ends in a release.
refunded_stays :
    (b c : EscrowStatus) → Moves b c → b ≡ EscrowStatus.refunded → c ≡ EscrowStatus.refunded
refunded_stays b c Moves.stays h = h
refunded_stays b c _ h = cc

paid_stays :
    (b c : EscrowStatus)
    → Moves b c
    → (is_released b || is_challenged b) ≡ true
    → (is_released c || is_challenged c) ≡ true
paid_stays b c Moves.stays h = h
paid_stays b c _ h = ground arith

refunded_end :
    {a b : EscrowStatus} → PathOfLife a b → a ≡ EscrowStatus.refunded → b ≡ EscrowStatus.refunded
refunded_end here h = h
refunded_end (onward p m) h = refunded_stays _ _ m (refunded_end p h)

paid_end :
    {a b : EscrowStatus}
    → PathOfLife a b
    → (is_released a || is_challenged a) ≡ true
    → (is_released b || is_challenged b) ≡ true
paid_end here h = h
paid_end (onward p m) h = paid_stays _ _ m (paid_end p h)

-- An escrow that is refunded in a valid store is refunded after every run from it.
pub refunded_forever :
    {s t : State}
    → Run s t
    → IsValid s
    → (k : ℕ) (e : Escrow) → escrow_of k s ≡ some e
    → e.status ≡ EscrowStatus.refunded
    → (e' : Escrow) × (escrow_of k t ≡ some e') × (e'.status ≡ EscrowStatus.refunded)
refunded_forever run valid k e found h =
    let (f, f_found, f_terms, f_path) = Run-Arrives run valid k e found in
    (f, f_found, refunded_end f_path h)

-- An escrow that is released in a valid store is released or challenged after every run from it.
pub paid_forever :
    {s t : State}
    → Run s t
    → IsValid s
    → (k : ℕ) (e : Escrow) → escrow_of k s ≡ some e
    → e.status ≡ EscrowStatus.released
    → (e' : Escrow) × (escrow_of k t ≡ some e')
      × ((is_released e'.status || is_challenged e'.status) ≡ true)
paid_forever run valid k e found h =
    let (f, f_found, f_terms, f_path) = Run-Arrives run valid k e found in
    (f, f_found, paid_end f_path (ground (arith, h)))
