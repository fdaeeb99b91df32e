-- ===== src/Life/Frames.antt =====
-- The escrows under the writes that leave them alone: an instance of Frame.antt.
use ag3nt_coin.Base.{String, none, some}
use ag3nt_coin.Keeper.{State}
use ag3nt_coin.Keeper.Credit.{ensure_auth_account}
use ag3nt_coin.Keeper.Emission.{put_emission_state}
use ag3nt_coin.Msg.Vouches.{upsert_vouch, remove_vouch}
use ag3nt_coin.Msg.Contributions.{add_award}
use ag3nt_coin.Msg.Evidence.{add_evidence_vouch}
use ag3nt_coin.Msg.Governance.{put_params}
use ag3nt_coin.Frame.{Frame}
use ag3nt_coin.Life.{Escrows, SameEscrows, escrows_of}

pub escrows_frame : (m : Escrows) → Frame (SameEscrows m)
unfolding ensure_auth_account put_emission_state put_params remove_vouch add_award
    add_evidence_vouch
escrows_frame m = record {
  Known = λ k a. Unit;
  Begun = λ e. Unit;
  known_fresh = λ k. tt;
  known_found = λ k a s h found. tt;
  writes_account = λ k a known s h. h;
  writes_auth = λ env bytes s h. h;
  begun_read = λ env s h. tt;
  begun_synced = λ now e begun. tt;
  begun_minted = λ e amount begun. tt;
  writes_emission = λ e begun s h. h;
  writes_params = λ params s h. h;
  writes_vouch = λ msg found s h. elim found as (λ o. SameEscrows m (upsert_vouch msg o s)) [
    | none ↦ unfold upsert_vouch in h
    | some (id, v) ↦ unfold upsert_vouch in h
  ];
  removes_vouch = λ id s h. h;
  writes_bond = λ k b s h. h;
  adds_bond = λ b s h. h;
  writes_dispute = λ k d s h. h;
  writes_gate = λ k g s h. h;
  adds_gate = λ g s h. h;
  adds_award = λ msg s h. h;
  adds_evidence_vouch = λ msg s h. h;
}

-- The escrows of one store, kept.
pub same_escrows : (s : State) → Frame (SameEscrows (escrows_of s))
same_escrows s = escrows_frame (escrows_of s)

pub same_escrows-Known : (s : State) (k a : String) → (same_escrows s).Known k a
unfolding same_escrows escrows_frame
same_escrows-Known s k a = tt
