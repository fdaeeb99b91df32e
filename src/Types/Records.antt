-- ===== src/Types/Records.antt =====
-- The records of the store: the protobuf messages in chain/x/agntcoin/types/*.pb.go.
use ag3nt_coin.Base.{ℕ, String, Bool, List}
use ag3nt_coin.Types.Status.{EscrowStatus, BondStatus, DisputeStatus, Resolution, GateStatus}

pub record Account : Type 0 where
  pub address : String
  pub balance : ℕ
  pub nonce : ℕ
  pub registered : Bool
  pub faucet_claimed : Bool

pub record Vouch : Type 0 where
  pub id : ℕ
  pub from_addr : String
  pub to_addr : String
  pub weight : ℕ
  pub stake : ℕ

pub record Attestation : Type 0 where
  pub verifier : String
  pub passed : Bool
  pub bond_id : ℕ
  pub delivery_hash : String
  pub key_hash : String
  pub acceptance_hash : String
  pub attested_at : ℕ

pub record Escrow : Type 0 where
  pub id : ℕ
  pub payer : String
  pub payee : String
  pub amount : ℕ
  pub ref : String
  pub status : EscrowStatus
  pub deadline : ℕ
  pub no_auto_release : Bool
  pub delivery_hash : String
  pub verifier_addrs : List String
  pub verifier_quorum : ℕ
  pub key_hash : String
  pub attestations : List Attestation
  pub challenge_deadline : ℕ
  pub acceptance_hash : String
  pub artifact_uri : String
  pub submitted_at : ℕ
  pub released_at : ℕ

pub record Bond : Type 0 where
  pub id : ℕ
  pub poster : String
  pub amount : ℕ
  pub purpose : String
  pub slasher : String
  pub status : BondStatus
  pub ref : String

pub record Vote : Type 0 where
  pub juror : String
  pub accept : Bool
  pub bond_id : ℕ

pub record Dispute : Type 0 where
  pub id : ℕ
  pub escrow_id : ℕ
  pub opener : String
  pub reason : String
  pub status : DisputeStatus
  pub resolution : Resolution
  pub votes : List Vote
  pub bond_id : ℕ

pub record GateAnswer : Type 0 where
  pub agent : String
  pub commit : String
  pub answer : String
  pub revealed : Bool
  pub paid : Bool

pub record Gate : Type 0 where
  pub id : ℕ
  pub poster : String
  pub payload_uri : String
  pub payload_hash : String
  pub gold_commit : String
  pub drip : ℕ
  pub max_answers : ℕ
  pub commit_deadline : ℕ
  pub reveal_deadline : ℕ
  pub status : GateStatus
  pub answers : List GateAnswer
  pub gold_answer : String
  pub consensus : String

pub record EmissionState : Type 0 where
  pub max_supply : ℕ
  pub epoch_length_seconds : ℕ
  pub epoch_reward_divisor : ℕ
  pub genesis_time : ℕ
  pub current_epoch : ℕ
  pub epoch_started_at : ℕ
  pub epoch_scheduled : ℕ
  pub epoch_mined : ℕ
  pub total_mined : ℕ
  pub total_burned_unclaimed : ℕ

pub record ContributionAward : Type 0 where
  pub id : ℕ
  pub anchor : String
  pub recipient : String
  pub repo_url : String
  pub pr_url : String
  pub commit_sha : String
  pub artifact_uri : String
  pub artifact_sha256 : String
  pub evidence_sha256 : String
  pub scope : String
  pub rationale_hash : String
  pub amount : ℕ
  pub contributor : String
  pub founder_authored : Bool
  pub review_evidence_uri : String

pub record ScopedEvidenceVouch : Type 0 where
  pub id : ℕ
  pub issuer : String
  pub recipient : String
  pub scope : String
  pub weight : ℕ
  pub artifact_uri : String
  pub artifact_sha256 : String
  pub evidence_uri : String
  pub evidence_sha256 : String
  pub rationale_hash : String
  pub expires_at : ℕ

pub record ModuleParams : Type 0 where
  pub anchors : List String
