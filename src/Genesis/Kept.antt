-- ===== src/Genesis/Kept.antt =====
-- Writes that keep the store ready for an export: the laws of Frame.antt, and the escrows.
use ag3nt_coin.Base.{◌≡◌, refl, ℕ, ◌+◌, String, Option, none, some}
use ag3nt_coin.Base.Store
use ag3nt_coin.Base.Store.{Store, uint_key, string_key}
use ag3nt_coin.Base.Store.Entries.{All-get}
use ag3nt_coin.Base.Store.Rebuild.{IsIndex, set-IsIndex, remove-IsIndex}
use ag3nt_coin.Exec.{modify}
use ag3nt_coin.Exec.Keeps.{Keeps, Keeps-modify}
use ag3nt_coin.Types.{Account, Vouch, Escrow, ContributionAward, ScopedEvidenceVouch}
use ag3nt_coin.Keeper.{State, account_of, put_account, put_escrow, add_escrow}
use ag3nt_coin.Keeper.Credit.{ensure_auth_account}
use ag3nt_coin.Keeper.Emission.{put_emission_state}
use ag3nt_coin.Msg.Vouches.{MsgCastvouch, upsert_vouch, remove_vouch}
use ag3nt_coin.Msg.Contributions.{new_award, add_award}
use ag3nt_coin.Msg.Evidence.{new_evidence_vouch, add_evidence_vouch}
use ag3nt_coin.Msg.Governance.{put_params}
use ag3nt_coin.Frame.{Frame}
use ag3nt_coin.Genesis.{
  IsKeyed, IsReady, HasBegun, address_of, key_of_vouch, key_of_escrow, award_id, evidence_vouch_id,
}
use ag3nt_coin.Genesis.Emitting.{sync_emission-HasBegun, emission_or_default-HasBegun}

put_account-IsKeyed :
    (k : String) (a : Account) (s : State) → a.address ≡ k → IsKeyed s → IsKeyed (put_account k a s)
put_account-IsKeyed k a s same h = record {
  accounts = set-IsIndex address_of k a s.account same h.accounts;
  vouches = h.vouches;
  escrows = h.escrows;
  awards = h.awards;
  evidence_vouches = h.evidence_vouches;
}

set_escrow-IsKeyed :
    (k n : ℕ) (e : Escrow) (s : State)
    → e.id ≡ k
    → IsKeyed s
    → IsKeyed (record s { escrow = Store.set k e s.escrow; escrow_seq = n })
set_escrow-IsKeyed k n e s same h = record {
  accounts = h.accounts;
  vouches = h.vouches;
  escrows = set-IsIndex key_of_escrow k e s.escrow same h.escrows;
  awards = h.awards;
  evidence_vouches = h.evidence_vouches;
}

with_vouches-IsKeyed :
    (n : ℕ) (m : Store ℕ Vouch) (s : State)
    → IsIndex key_of_vouch m
    → IsKeyed s
    → IsKeyed (record s { vouch = m; vouch_seq = n })
with_vouches-IsKeyed n m s index h = record {
  accounts = h.accounts;
  vouches = index;
  escrows = h.escrows;
  awards = h.awards;
  evidence_vouches = h.evidence_vouches;
}

add_award-IsKeyed :
    (v : ℕ → ContributionAward) (s : State)
    → ((id : ℕ) → (v id).id ≡ id)
    → IsKeyed s
    → IsKeyed (add_award v s)
unfolding add_award
add_award-IsKeyed v s same h =
    let k = s.contribution_award_seq in
    record {
      accounts = h.accounts;
      vouches = h.vouches;
      escrows = h.escrows;
      awards = set-IsIndex award_id k (v k) s.contribution_award (same k) h.awards;
      evidence_vouches = h.evidence_vouches;
    }

add_evidence_vouch-IsKeyed :
    (v : ℕ → ScopedEvidenceVouch) (s : State)
    → ((id : ℕ) → (v id).id ≡ id)
    → IsKeyed s
    → IsKeyed (add_evidence_vouch v s)
unfolding add_evidence_vouch
add_evidence_vouch-IsKeyed v s same h =
    let k = s.scoped_evidence_vouch_seq in
    record {
      accounts = h.accounts;
      vouches = h.vouches;
      escrows = h.escrows;
      awards = h.awards;
      evidence_vouches =
          set-IsIndex evidence_vouch_id k (v k) s.scoped_evidence_vouch (same k) h.evidence_vouches;
    }

upsert_vouch-IsReady :
    (msg : MsgCastvouch) (found : Option (ℕ × Vouch)) (s : State)
    → IsReady s
    → IsReady (upsert_vouch msg found s)
unfolding upsert_vouch
upsert_vouch-IsReady msg none s h = (
  with_vouches-IsKeyed (s.vouch_seq + 1) _ s
      (set-IsIndex key_of_vouch s.vouch_seq _ s.vouch refl (h.0).vouches) h.0,
  h.1,
  h.2,
)
upsert_vouch-IsReady msg (some (id, v)) s h = (
  with_vouches-IsKeyed s.vouch_seq _ s (set-IsIndex key_of_vouch id _ s.vouch refl (h.0).vouches)
      h.0,
  h.1,
  h.2,
)

-- An account that is stored has the address under which it is stored.
address-of-found :
    (k : String) (a : Account) (s : State) → IsReady s → account_of k s ≡ some a → a.address ≡ k
address-of-found k a s h found =
    All-get (λ j b. address_of b ≡ j) k a s.account (h.0).accounts.keyed found

pub IsReady-Frame : Frame IsReady
unfolding ensure_auth_account put_emission_state put_params remove_vouch add_award
    add_evidence_vouch new_award new_evidence_vouch
IsReady-Frame = record {
  Known = λ k a. a ≡ k;
  Begun = λ e. HasBegun (some e);
  known_fresh = λ k. refl;
  known_found = address-of-found;
  writes_account = λ k a known s h. (put_account-IsKeyed k a s known h.0, h.1, h.2);
  writes_auth = λ env bytes s h. h;
  begun_read = λ env s h. emission_or_default-HasBegun env s.emission_state h.2;
  begun_synced = sync_emission-HasBegun;
  begun_minted = λ e amount begun. begun;
  writes_emission = λ e begun s h. (h.0, h.1, begun);
  writes_params = λ params s h. (h.0, tt, h.2);
  writes_vouch = upsert_vouch-IsReady;
  removes_vouch = λ id s h. (
    with_vouches-IsKeyed s.vouch_seq _ s (remove-IsIndex key_of_vouch id s.vouch (h.0).vouches) h.0,
    h.1,
    h.2,
  );
  writes_bond = λ k b s h. h;
  adds_bond = λ b s h. h;
  writes_dispute = λ k d s h. h;
  writes_gate = λ k g s h. h;
  adds_gate = λ g s h. h;
  adds_award = λ msg s h. (add_award-IsKeyed (new_award msg) s (λ id. refl) h.0, h.1, h.2);
  adds_evidence_vouch =
      λ msg s h. (add_evidence_vouch-IsKeyed (new_evidence_vouch msg) s (λ id. refl) h.0, h.1, h.2);
}

-- An escrow that is written stands under its own id.
pub put_escrow-Keeps : (k : ℕ) (e : Escrow) → e.id ≡ k → Keeps IsReady (modify (put_escrow k e))
put_escrow-Keeps k e same =
    Keeps-modify _ λ s h. (set_escrow-IsKeyed k s.escrow_seq e s same h.0, h.1, h.2)

pub add_escrow-Keeps :
    (v : ℕ → Escrow) → ((id : ℕ) → (v id).id ≡ id) → Keeps IsReady (modify (add_escrow v))
add_escrow-Keeps v same = Keeps-modify _ λ s h. (
  set_escrow-IsKeyed s.escrow_seq (s.escrow_seq + 1) (v s.escrow_seq) s (same s.escrow_seq) h.0,
  h.1,
  h.2,
)
