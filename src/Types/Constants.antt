-- ===== src/Types/Constants.antt =====
-- The numbers of chain/x/agntcoin/types/constants.go.
use ag3nt_coin.Base.{ℕ, ◌*◌}

abbrev pub max_vouch_weight : ℕ
max_vouch_weight = 100

abbrev pub max_supply : ℕ
max_supply = 21_000_000

abbrev pub default_epoch_length_seconds : ℕ
default_epoch_length_seconds = 7 * 24 * 60 * 60

abbrev pub default_epoch_reward_divisor : ℕ
default_epoch_reward_divisor = 1000

abbrev pub min_vouch_stake : ℕ
min_vouch_stake = 100

abbrev pub min_new_account_credit : ℕ
min_new_account_credit = 100

abbrev pub challenge_window_seconds : ℕ
challenge_window_seconds = 72 * 3600

abbrev pub min_dispute_bond : ℕ
min_dispute_bond = 100

abbrev pub min_juror_stake : ℕ
min_juror_stake = 100

abbrev pub gate_commit_window_seconds : ℕ
gate_commit_window_seconds = 300

abbrev pub gate_reveal_window_seconds : ℕ
gate_reveal_window_seconds = 300

abbrev pub max_drip_per_answer : ℕ
max_drip_per_answer = 50

abbrev pub max_gate_answers : ℕ
max_gate_answers = 1000

abbrev pub max_contribution_award : ℕ
max_contribution_award = 500

-- `MinScopedEvidenceReputation`, the float 0.01 (Base/Floats.antt)
abbrev pub min_scoped_evidence_reputation : ℕ
min_scoped_evidence_reputation = 4576918229304087675
