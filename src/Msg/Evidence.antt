-- ===== src/Msg/Evidence.antt =====
-- msg_server_cast_scoped_evidence_vouch.go of chain/x/agntcoin/keeper.
use ag3nt_coin.Base.{
  Option, none, some, List, ℕ, ◌+◌, String, Bool, true, false, not, ltb, ◌==◌, ◌&&◌, ◌||◌, str_eq,
}
use ag3nt_coin.Base.Text.{equal_fold, trim_space}
use ag3nt_coin.Base.Store
use ag3nt_coin.Base.Store.{uint_key}
use ag3nt_coin.Exec.{
  Exec, bad_address, invalid_request, unauthorized, io, pure, gets, or_raise, raise_if, modify,
  ◌>>=◌, ◌>>◌,
}
use ag3nt_coin.Types.{ScopedEvidenceVouch, max_vouch_weight, min_scoped_evidence_reputation}
use ag3nt_coin.Types.Params.{contains}
use ag3nt_coin.Keeper.{State, Env, read}
use ag3nt_coin.Keeper.Hash.{is_hex_sha256}
use ag3nt_coin.Keeper.Reputation.{reputation_score}
use ag3nt_coin.Keeper.Anchors.{resolve_anchors}

pub record MsgCastScopedEvidenceVouch : Type 0 where
  pub creator : String
  pub recipient : String
  pub scope : String
  pub weight : ℕ
  pub artifact_uri : String
  pub artifact_sha256 : String
  pub evidence_uri : String
  pub evidence_sha256 : String
  pub rationale_hash : String
  pub expires_at : ℕ

-- The issuer is no anchor, and its reputation is too low.
unfoldable pub issuer_refused : Env → String → List String → State → Bool
issuer_refused env creator anchors s =
    not (contains creator anchors)
    && env.floats.less (reputation_score env.floats anchors creator s)
        min_scoped_evidence_reputation

unfoldable pub same_evidence : MsgCastScopedEvidenceVouch → ScopedEvidenceVouch → Bool
same_evidence msg v =
    str_eq v.issuer msg.creator
    && str_eq v.recipient msg.recipient
    && str_eq (trim_space v.scope) (trim_space msg.scope)
    && equal_fold v.artifact_sha256 msg.artifact_sha256
    && equal_fold v.evidence_sha256 msg.evidence_sha256

unfoldable pub is_duplicate : MsgCastScopedEvidenceVouch → State → Bool
is_duplicate msg s = decided (Store.find (same_evidence msg) s.scoped_evidence_vouch)
  where
    decided : Option (ℕ × ScopedEvidenceVouch) → Bool
    decided none = false
    decided (some _) = true

unfoldable pub new_evidence_vouch : MsgCastScopedEvidenceVouch → ℕ → ScopedEvidenceVouch
new_evidence_vouch msg id = record {
  id = id;
  issuer = msg.creator;
  recipient = msg.recipient;
  scope = trim_space msg.scope;
  weight = msg.weight;
  artifact_uri = trim_space msg.artifact_uri;
  artifact_sha256 = msg.artifact_sha256;
  evidence_uri = trim_space msg.evidence_uri;
  evidence_sha256 = msg.evidence_sha256;
  rationale_hash = msg.rationale_hash;
  expires_at = msg.expires_at;
}

unfoldable pub add_evidence_vouch : (ℕ → ScopedEvidenceVouch) → State → State
add_evidence_vouch v s = record s {
  scoped_evidence_vouch_seq = s.scoped_evidence_vouch_seq + 1;
  scoped_evidence_vouch =
      Store.set s.scoped_evidence_vouch_seq (v s.scoped_evidence_vouch_seq) s.scoped_evidence_vouch;
}

unfoldable pub cast_scoped_evidence_vouch : Env → MsgCastScopedEvidenceVouch → Exec State ℕ
cast_scoped_evidence_vouch env msg = do
  or_raise (env.string_to_bytes msg.creator) bad_address
  or_raise (env.string_to_bytes msg.recipient) bad_address
  params ← read (λ s. s.params) io
  refused ← gets (issuer_refused env msg.creator (resolve_anchors env params.anchors))
  raise_if refused unauthorized
  raise_if (str_eq (trim_space msg.scope) "") invalid_request
  raise_if ((msg.weight == 0) || ltb max_vouch_weight msg.weight) invalid_request
  raise_if (str_eq (trim_space msg.artifact_uri) "") invalid_request
  raise_if (str_eq (trim_space msg.evidence_uri) "") invalid_request
  raise_if (not (is_hex_sha256 msg.artifact_sha256)) invalid_request
  raise_if (not (is_hex_sha256 msg.evidence_sha256)) invalid_request
  raise_if (not (str_eq msg.rationale_hash "") && not (is_hex_sha256 msg.rationale_hash))
      invalid_request
  duplicate ← gets (is_duplicate msg)
  raise_if duplicate invalid_request
  id ← gets (λ s. s.scoped_evidence_vouch_seq)
  modify (add_evidence_vouch (new_evidence_vouch msg))
  pure id
