-- ===== src/Tests/Minting.antt =====
-- The theorems on minting and on the cap, applied on the small chain.
use ag3nt_coin.Keeper.Hash.{is_hex_sha256, is_hex}
use ag3nt_coin.Base.Text.{trim_space, equal_fold, lower, codes_eq}
use ag3nt_coin.Keeper.Anchors.{resolve_anchors}
use ag3nt_coin.Types.Params.{contains}
use ag3nt_coin.Base.Words.{sub64, add64, slt, sle, flip_sign}
use ag3nt_coin.Base.Store
use ag3nt_coin.Keeper.Credit.{
  check_new_account_credit, credit_account, is_dust, ensure_auth_account, opened,
}
use ag3nt_coin.Base.{◌≤◌, true, false, some, refl, ◌≡◌, arith}
use ag3nt_coin.Exec.{succeeds, final, ok, ◌>>=◌, gets, modify, or_raise, pure, raise_if}
use ag3nt_coin.Exec.Returns.{Returns-final}
use ag3nt_coin.Keeper.{State, gate_of, read}
use ag3nt_coin.Types.{Gate, max_supply, max_contribution_award}
use ag3nt_coin.Keeper.Emission.{
  default_emission_state, sync_emission, epoch_over, fill_defaults, mint_protocol_reward,
  emission_or_default, get_emission_state, put_emission_state, remaining_epoch, remaining_scheduled,
  sync_emission_state, schedule_epoch, burn_unclaimed, close_epoch, close_epochs,
  next_epoch_scheduled,
}
use ag3nt_coin.Msg.Gates.{
  MsgSettleGate, settle_gate, winning_answer, gate_answer_commit, pay_winners, plurality,
  compare_counts, compare_count, count_answers, pay_answers,
}
use ag3nt_coin.Msg.Contributions.{
  MsgAwardContribution, award_contribution, add_award, check_evidence, is_awarded, new_award,
}
use ag3nt_coin.Msg.Accounts.{transfer}
use ag3nt_coin.Supply.{supply}
use ag3nt_coin.Mint.{Mints, Rewards}
use ag3nt_coin.Mint.Schedule.{Advances, sync_emission-Advances}
use ag3nt_coin.Mint.Clock.{sync_emission_ends}
use ag3nt_coin.Mint.Reward.{mint_protocol_reward-Rewards}
use ag3nt_coin.Mint.Gates.{owed_by, settle_gate-Mints}
use ag3nt_coin.Mint.Contributions.{award_contribution-Mints}
use ag3nt_coin.Keeper.Genesis.{init_genesis, default_genesis, started_emission}
use ag3nt_coin.Chain.{Message, handle, nothing, then, new_chain}
use ag3nt_coin.Chain.Handlers.{Keeps, handle-Keeps}
use ag3nt_coin.Rules.Awards.{award_once}
use ag3nt_coin.Chain.Cap.{supply-le-max, default_emission_state-IsSound}
use ag3nt_coin.Query.Defs.{answer, get_emission, EmissionReport}
use ag3nt_coin.Query.Answers.{award_contribution_within_report}
use ag3nt_coin.Tests.Fixtures.{env, env_at, hash, params, store, store-IsValid}

mint_succeeds : succeeds (mint_protocol_reward env "bob" "bob" 10 store) ≡ true
unfolding mint_protocol_reward ◌>>=◌ check_new_account_credit is_dust Store.get sync_emission_state
    get_emission_state remaining_scheduled sync_emission sub64 emission_or_default
    default_emission_state remaining_epoch credit_account put_emission_state
mint_succeeds = refl

mint_protocol_reward-Rewards_example :
    Rewards 10 store (final (mint_protocol_reward env "bob" "bob" 10 store))
mint_protocol_reward-Rewards_example =
    Returns-final (mint_protocol_reward env "bob" "bob" 10 store)
      (mint_protocol_reward-Rewards store store-IsValid env "bob" "bob" 10) mint_succeeds

abbrev without_gold : MsgSettleGate
without_gold = record { creator = "dave"; gate_id = 0; gold_answer = ""; gold_salt = "salt" }

settle_gate-succeeds : succeeds (settle_gate env without_gold store) ≡ true
unfolding settle_gate ◌>>=◌ read equal_fold lower codes_eq gate_answer_commit pay_winners
    winning_answer plurality compare_counts compare_count count_answers pay_answers
    mint_protocol_reward check_new_account_credit is_dust credit_account ensure_auth_account opened
    sync_emission_state get_emission_state emission_or_default default_emission_state
    put_emission_state remaining_scheduled remaining_epoch sync_emission fill_defaults
    schedule_epoch epoch_over burn_unclaimed close_epoch close_epochs next_epoch_scheduled add64
    sub64 slt sle flip_sign gets modify or_raise pure raise_if Store.get Store.set Store.has
settle_gate-succeeds = refl

settle_gate-Mints_example :
    (gate : Gate) × (gate_of 0 store ≡ some gate)
    × Mints
        (owed_by (winning_answer "" gate.answers) gate.drip gate.answers)
        store
        (final (settle_gate env without_gold store))
settle_gate-Mints_example =
    Returns-final (settle_gate env without_gold store)
      (settle_gate-Mints env without_gold store store-IsValid) settle_gate-succeeds

abbrev award : MsgAwardContribution
award = record {
  creator = "carol";
  recipient = "bob";
  repo_url = "repo";
  pr_url = "";
  commit_sha = "c0ffee";
  artifact_uri = "uri";
  artifact_sha256 = hash;
  evidence_sha256 = hash;
  scope = "code";
  rationale_hash = "";
  amount = 300;
  contributor = "bob";
  founder_authored = false;
  review_evidence_uri = "";
}

award-succeeds : succeeds (award_contribution env award store) ≡ true
unfolding award_contribution ◌>>=◌ read contains resolve_anchors check_evidence trim_space
    is_hex_sha256 is_hex is_awarded Store.find equal_fold lower codes_eq new_award add_award
    mint_protocol_reward check_new_account_credit is_dust credit_account ensure_auth_account opened
    sync_emission_state get_emission_state emission_or_default default_emission_state
    put_emission_state remaining_scheduled remaining_epoch sync_emission fill_defaults
    schedule_epoch epoch_over burn_unclaimed close_epoch close_epochs next_epoch_scheduled add64
    sub64 slt sle flip_sign gets modify or_raise pure raise_if Store.get Store.set Store.has
award-succeeds = refl

award_contribution-Mints_example :
    (300 ≤ max_contribution_award) × Mints 300 store (final (award_contribution env award store))
award_contribution-Mints_example =
    Returns-final (award_contribution env award store)
      (award_contribution-Mints env award store store-IsValid) award-succeeds

award_contribution_within_report_example :
    (r : EmissionReport) × (get_emission (env_at 5000) (some tt) store ≡ answer r)
    × (300 ≤ r.scheduled_remaining)
award_contribution_within_report_example =
    award_contribution_within_report env (env_at 5000) award store store-IsValid award-succeeds

sync_emission-Advances_example :
    Advances (default_emission_state 100) (sync_emission 2_000_000 (default_emission_state 100))
sync_emission-Advances_example =
    sync_emission-Advances 2_000_000 (default_emission_state 100)
      (default_emission_state-IsSound 100)

sync_emission_ends_example :
    epoch_over 2_000_000 (sync_emission 2_000_000 (default_emission_state 100)) ≡ false
sync_emission_ends_example =
    sync_emission_ends 2_000_000 (default_emission_state 100)
      (unfold fill_defaults default_emission_state in omega arith)
      (unfold fill_defaults default_emission_state in omega arith)

abbrev a_transfer : Message
a_transfer =
    Message.msg_transfer (record { creator = "alice"; to_addr = "bob"; amount = 250; memo = "" })

handle-succeeds : succeeds (handle env a_transfer store) ≡ true
unfolding handle transfer ◌>>=◌ read Store.get check_new_account_credit is_dust credit_account
    Store.set
handle-succeeds = refl

handle-Keeps_example : Keeps store (final (handle env a_transfer store))
handle-Keeps_example =
    Returns-final (handle env a_transfer store) (handle-Keeps env a_transfer store store-IsValid)
      handle-succeeds

-- An award, and then a transfer out of it.
abbrev awarded : State
awarded = final (handle env (Message.msg_award_contribution award) (new_chain env params))

award_runs :
    handle env (Message.msg_award_contribution award) (new_chain env params) ≡ ok tt awarded
unfolding handle ◌>>=◌ award_contribution read contains resolve_anchors check_evidence trim_space
    is_hex_sha256 is_awarded Store.find check_new_account_credit is_dust Store.get
    mint_protocol_reward add_award sync_emission_state get_emission_state remaining_scheduled
    sync_emission sub64 emission_or_default default_emission_state remaining_epoch credit_account
    put_emission_state slt sle add64 init_genesis Store.set_all default_genesis started_emission
award_runs = refl

supply-le-max_example : supply awarded ≤ max_supply
supply-le-max_example =
    supply-le-max env params awarded
      (then nothing env (Message.msg_award_contribution award) award_runs)

same_artifact : equal_fold award.artifact_sha256 award.artifact_sha256 ≡ true
unfolding equal_fold lower codes_eq
same_artifact = refl

award_once_example :
    succeeds (award_contribution env award (final (award_contribution env award store))) ≡ false
award_once_example = award_once env env award award store same_artifact award-succeeds
