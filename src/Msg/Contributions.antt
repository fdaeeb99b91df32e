-- ===== src/Msg/Contributions.antt =====
-- msg_server_award_contribution.go of chain/x/agntcoin/keeper.
use ag3nt_coin.Base.{
  Option, none, some, ℕ, ◌+◌, String, Bool, true, false, not, ltb, ◌==◌, ◌&&◌, ◌||◌, str_eq,
}
use ag3nt_coin.Base.Text.{equal_fold, trim_space}
use ag3nt_coin.Base.Store
use ag3nt_coin.Base.Store.{uint_key}
use ag3nt_coin.Exec.{
  Exec, bad_address, invalid_request, unauthorized, io, pure, gets, or_raise, raise_if, modify,
  ◌>>=◌, ◌>>◌,
}
use ag3nt_coin.Types.{ContributionAward, max_contribution_award}
use ag3nt_coin.Types.Params.{contains}
use ag3nt_coin.Keeper.{State, Env, read}
use ag3nt_coin.Keeper.Hash.{is_hex_sha256}
use ag3nt_coin.Keeper.Anchors.{resolve_anchors}
use ag3nt_coin.Keeper.Credit.{check_new_account_credit}
use ag3nt_coin.Keeper.Emission.{mint_protocol_reward}

pub record MsgAwardContribution : Type 0 where
  pub creator : String
  pub recipient : String
  pub repo_url : String
  pub pr_url : String
  pub commit_sha : String
  pub artifact_uri : String
  pub artifact_sha256 : String
  pub evidence_sha256 : String
  pub scope : String
  pub rationale_hash : String
  pub amount : ℕ
  pub contributor : String
  pub founder_authored : Bool
  pub review_evidence_uri : String

abbrev pub is_blank : String → Bool
is_blank text = str_eq (trim_space text) ""

unfoldable pub new_award : MsgAwardContribution → ℕ → ContributionAward
new_award msg id = record {
  id = id;
  anchor = msg.creator;
  recipient = msg.recipient;
  repo_url = msg.repo_url;
  pr_url = msg.pr_url;
  commit_sha = msg.commit_sha;
  artifact_uri = msg.artifact_uri;
  artifact_sha256 = msg.artifact_sha256;
  evidence_sha256 = msg.evidence_sha256;
  scope = msg.scope;
  rationale_hash = msg.rationale_hash;
  amount = msg.amount;
  contributor = msg.contributor;
  founder_authored = msg.founder_authored;
  review_evidence_uri = msg.review_evidence_uri;
}

-- The walk over the awards: whether the artifact has been awarded.
unfoldable pub is_awarded : String → State → Bool
is_awarded artifact s =
    decided (Store.find (λ a. equal_fold a.artifact_sha256 artifact) s.contribution_award)
  where
    decided : Option (ℕ × ContributionAward) → Bool
    decided none = false
    decided (some _) = true

unfoldable pub add_award : (ℕ → ContributionAward) → State → State
add_award v s = record s {
  contribution_award_seq = s.contribution_award_seq + 1;
  contribution_award =
      Store.set s.contribution_award_seq (v s.contribution_award_seq) s.contribution_award;
}

-- The tests of the message's texts.
unfoldable pub check_evidence : MsgAwardContribution → Exec State (Unit {0})
check_evidence msg = do
  raise_if (msg.founder_authored && is_blank msg.review_evidence_uri) invalid_request
  raise_if (is_blank msg.repo_url) invalid_request
  raise_if (is_blank msg.commit_sha) invalid_request
  raise_if (is_blank msg.artifact_uri) invalid_request
  raise_if (is_blank msg.scope) invalid_request
  raise_if (not (is_hex_sha256 msg.artifact_sha256)) invalid_request
  raise_if (not (is_hex_sha256 msg.evidence_sha256)) invalid_request
  raise_if (not (str_eq msg.rationale_hash "") && not (is_hex_sha256 msg.rationale_hash))
      invalid_request

unfoldable pub award_contribution : Env → MsgAwardContribution → Exec State ℕ
award_contribution env msg = do
  or_raise (env.string_to_bytes msg.creator) bad_address
  recipient_bytes ← or_raise (env.string_to_bytes msg.recipient) bad_address
  or_raise (env.string_to_bytes msg.contributor) bad_address
  params ← read (λ s. s.params) io
  raise_if (not (contains msg.creator (resolve_anchors env params.anchors))) unauthorized
  raise_if ((msg.amount == 0) || ltb max_contribution_award msg.amount) invalid_request
  raise_if (not (str_eq msg.recipient msg.contributor)) invalid_request
  raise_if (msg.founder_authored && not (str_eq msg.recipient msg.creator)) invalid_request
  raise_if (str_eq msg.recipient msg.creator && not msg.founder_authored) invalid_request
  check_evidence msg
  duplicate ← gets (is_awarded msg.artifact_sha256)
  raise_if duplicate invalid_request
  check_new_account_credit msg.recipient msg.amount
  id ← gets (λ s. s.contribution_award_seq)
  modify (add_award (new_award msg))
  mint_protocol_reward env msg.recipient recipient_bytes msg.amount
  pure id
