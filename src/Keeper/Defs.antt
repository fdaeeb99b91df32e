-- ===== src/Keeper/Defs.antt =====
-- The `Keeper` struct of chain/x/agntcoin/keeper/keeper.go as a value, and the surroundings of a
-- handler.
use ag3nt_coin.Base.{ℕ, String, Bool, Option, List}
use ag3nt_coin.Base.Floats.{Floats}
use ag3nt_coin.Base.Store.{Store}
use ag3nt_coin.Types.{
  Account, Vouch, Escrow, Bond, Dispute, Gate, EmissionState, ContributionAward,
  ScopedEvidenceVouch, ModuleParams,
}

-- Each `…Seq` is a `collections.Sequence`: the number that `Next` returns, and then raises by one.
pub record State : Type 0 where
  pub params : Option ModuleParams
  pub emission_state : Option EmissionState
  pub account : Store String Account
  pub vouch_seq : ℕ
  pub vouch : Store ℕ Vouch
  pub escrow_seq : ℕ
  pub escrow : Store ℕ Escrow
  pub dispute_seq : ℕ
  pub dispute : Store ℕ Dispute
  pub bond_seq : ℕ
  pub bond : Store ℕ Bond
  pub gate_seq : ℕ
  pub gate : Store ℕ Gate
  pub contribution_award_seq : ℕ
  pub contribution_award : Store ℕ ContributionAward
  pub scoped_evidence_vouch_seq : ℕ
  pub scoped_evidence_vouch : Store ℕ ScopedEvidenceVouch
  -- the x/auth accounts that this module has created, latest first
  pub auth_created : List String

-- What comes from outside the module: the block's time in seconds, the address codec, x/auth, the
-- operating system, SHA-256, and the machine's floating-point operations.
pub record Env : Type 0 where
  pub block_time : ℕ
  pub authority : String
  pub string_to_bytes : String → Option String
  pub has_auth_keeper : Bool
  -- `HasAccount`, given the accounts that this module has created
  pub has_auth_account : List String → String → Bool
  pub getenv : String → String
  pub user_home : Option String
  pub read_file : String → Option String
  -- `hex.EncodeToString(sha256.Sum256([]byte(s)))`
  pub sha256_hex : String → String
  pub floats : Floats
