-- ===== src/Supply/Verifiers.antt =====
-- The coins under the handlers of Msg/Verifiers.antt.
use ag3nt_coin.Base.{
  ℕ, ◌<◌, ◌≡◌, refl, ◌∙◌, String, true, Option, none, some, List, [], ◌∷◌, arith, ltb→le, not-false,
}
use ag3nt_coin.Base.Text.{format_uint}
use ag3nt_coin.Base.Words.{word}
use ag3nt_coin.Exec.{modify}
use ag3nt_coin.Exec.Returns.{
  Returns, success, Returns-or_raise, Returns-raise_if, Returns-gets, Returns-modify, Returns-pure,
  Returns-step, Returns-weaken,
}
use ag3nt_coin.Types.{Escrow, Attestation, Bond, BondStatus, is_active, is_submitted}
use ag3nt_coin.Keeper.{State, Env, Returns-read, bond_of}
use ag3nt_coin.Msg.Verifiers.{
  MsgAttestEscrow, attested, attest_escrow, attestation_purpose, verified_release, if_live,
  live_bond, reclaim_bond, reclaim_bonds, reclaim_attestation_bonds,
}
use ag3nt_coin.Invariant.{IsWellFormed}
use ag3nt_coin.Supply.{held, supply}
use ag3nt_coin.Supply.Payments.{locked_bond, escrow_of-locked_bond, lock_bond_lem, Returns-paid}
use ag3nt_coin.Supply.Steps.{Conserves, Conserves-trans, Settles, Settles-refl, Settles-then}
use ag3nt_coin.Supply.Bonds.{locked_bond-Conserves, settle_bond-Settles}
use ag3nt_coin.Supply.Escrows.{
  held_of_submitted, rewritten-Conserves, pay_payee-Pays, paid_out-Conserves,
}

-- A live bond is stored, and active.
if_live-eq_some :
    (purpose : String) (o : Option Bond) (b : Bond)
    → if_live purpose o ≡ some b
    → (o ≡ some b) × (is_active b.status ≡ true)
unfolding if_live
if_live-eq_some purpose none b h = cc
if_live-eq_some purpose (some x) b h = ground arith

pub live_bond-eq_some :
    (purpose : String) (id : ℕ) (s : State) (b : Bond)
    → live_bond purpose id s ≡ some b
    → (bond_of id s ≡ some b) × (is_active b.status ≡ true)
unfolding live_bond
live_bond-eq_some purpose id s b h = if_live-eq_some purpose (bond_of id s) b h

-- A verdict keeps the escrow's money where it is.
held-attested :
    (env : Env) (msg : MsgAttestEscrow) (bond_id : ℕ) (e : Escrow)
    → is_submitted e.status ≡ true
    → held (attested env msg bond_id e) ≡ held e
unfolding attested
held-attested env msg bond_id e h = ground (arith, held_of_submitted e.amount e.status h)

id-attested :
    (env : Env) (msg : MsgAttestEscrow) (bond_id : ℕ) (e : Escrow)
    → (attested env msg bond_id e).id ≡ e.id
unfolding attested
id-attested env msg bond_id e = ground arith

module _ (s : State) (wf : IsWellFormed s) (small : supply s < word) where
  -- AttestEscrow, when it succeeds in a well-formed store whose coins fit a uint64, keeps the store
  -- well formed, keeps the sum of all balances, escrows, bonds and vouch stakes, and leaves the
  -- emission state alone.
  pub attest_escrow-Conserves :
      (env : Env) (msg : MsgAttestEscrow)
      → Returns (λ _ s'. Conserves s s') (attest_escrow env msg s)
  unfolding attest_escrow
  attest_escrow-Conserves env msg = Returns-or_raise _ _ _ s λ _ _.
      Returns-read _ _ _ s λ escrow found. Returns-raise_if _ _ _ s λ submitted.
        Returns-raise_if _ _ _ s λ named. Returns-raise_if _ _ _ s λ first.
          Returns-raise_if _ _ _ s λ restated. Returns-raise_if _ _ _ s λ covered.
            Returns-read _ _ _ s λ verifier e. Returns-raise_if _ _ _ s λ registered.
              Returns-raise_if _ _ _ s λ enough. Returns-step _ _ s (lock_bond_lem s _ _ _ _ _ _) (
                Returns-modify _ _ _ (
                  Returns-pure _ _ (
                    let purpose = attestation_purpose escrow.id in
                    let ref = format_uint escrow.id in
                    let t = locked_bond verifier msg.creator msg.stake_amount purpose "" ref s in
                    let locked =
                      locked_bond-Conserves s wf small verifier msg.creator msg.stake_amount purpose
                        "" ref e (ltb→le _ _ enough) in
                    Conserves-trans locked (
                      rewritten-Conserves t locked.well_formed msg.escrow_id escrow
                        (attested env msg s.bond_seq escrow)
                        (escrow_of-locked_bond s _ _ _ _ _ _ _ ∙ found)
                        (id-attested env msg s.bond_seq escrow)
                        (held-attested env msg s.bond_seq escrow (not-false _ submitted))))))

  -- VerifiedRelease, when it succeeds in a well-formed store whose coins fit a uint64, keeps the
  -- store well formed, keeps the sum of all balances, escrows, bonds and vouch stakes, and leaves
  -- the emission state alone.
  pub verified_release-Conserves :
      (env : Env) (creator : String) (escrow_id : ℕ) (key : String)
      → Returns (λ _ s'. Conserves s s') (verified_release env creator escrow_id key s)
  unfolding verified_release
  verified_release-Conserves env creator escrow_id key = Returns-or_raise _ _ _ s λ _ _.
      Returns-read _ _ _ s λ escrow found. Returns-raise_if _ _ _ s λ bound.
        Returns-raise_if _ _ _ s λ submitted. Returns-raise_if _ _ _ s λ quorum.
          Returns-raise_if _ _ _ s λ key_fits.
            Returns-paid s env escrow.payee escrow.amount _ _ (pay_payee-Pays s env escrow) λ bytes.
              unfold modify in
              success (
                paid_out-Conserves s wf small env escrow.payee bytes escrow_id escrow _ found
                  (held_of_submitted escrow.amount escrow.status (not-false _ submitted)) refl refl)

  reclaim_bond-Settles :
      (purpose : String) (id : ℕ) (o : Option Bond)
      → live_bond purpose id s ≡ o
      → Returns (λ _ s'. Settles s s') (reclaim_bond o s)
  unfolding reclaim_bond
  reclaim_bond-Settles purpose id none e = Returns-pure _ s (Settles-refl s wf)
  reclaim_bond-Settles purpose id (some b) e =
      let (found, active) = live_bond-eq_some purpose id s b e in
      settle_bond-Settles s wf small b.poster BondStatus.released id b found active refl

reclaim_bonds-Settles :
    (purpose : String) (attestations : List Attestation) (s : State)
    → IsWellFormed s
    → supply s < word
    → Returns (λ _ s'. Settles s s') (reclaim_bonds purpose attestations s)
unfolding reclaim_bonds
reclaim_bonds-Settles purpose [] s wf small = Returns-pure _ s (Settles-refl s wf)
reclaim_bonds-Settles purpose (a ∷ rest) s wf small = Returns-gets _ _ s (
    Settles-then _ _ s (reclaim_bond-Settles s wf small purpose a.bond_id _ refl) λ u t st.
      reclaim_bonds-Settles purpose rest t st.moved.well_formed (omega (arith, st.moved.total)))

-- Stakes that are reclaimed go back to the verifiers.
pub reclaim_attestation_bonds-Conserves :
    (s : State)
    → IsWellFormed s
    → supply s < word
    → (env : Env) (creator : String) (escrow_id : ℕ)
    → Returns (λ _ s'. Conserves s s') (reclaim_attestation_bonds env creator escrow_id s)
unfolding reclaim_attestation_bonds
reclaim_attestation_bonds-Conserves s wf small env creator escrow_id =
    Returns-or_raise _ _ _ s λ _ _. Returns-read _ _ _ s λ escrow found.
      Returns-raise_if _ _ _ s λ some_attested. Returns-raise_if _ _ _ s λ reclaimable.
        Returns-raise_if _ _ _ s λ over.
          Returns-weaken (λ _ s' h. h.moved)
            (reclaim_bonds-Settles _ escrow.attestations s wf small)
