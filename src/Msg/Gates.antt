-- ===== src/Msg/Gates.antt =====
-- msg_server_gate.go of chain/x/agntcoin/keeper: commit, reveal and settlement of review gates.
use Prim.Native.String.{◌++◌ as text_append}
use ag3nt_coin.Base.{
  ℕ, suc, String, Bool, true, false, Option, none, some, List, [], ◌∷◌, ◌++◌, not, ltb, leb, length,
  ◌==◌, ◌&&◌, ◌||◌, str_eq, if◌then◌else◌,
}
use ag3nt_coin.Base.Words.{add64, slt, sle}
use ag3nt_coin.Base.Text.{equal_fold, trim_space, parse_int}
use ag3nt_coin.Base.Store
use ag3nt_coin.Base.Store.{Store, string_key, value_or_zero}
use ag3nt_coin.Exec.{
  Exec, bad_address, invalid_request, key_not_found, unauthorized, io, pure, gets, or_raise,
  raise_if, modify, ◌>>=◌, ◌>>◌,
}
use ag3nt_coin.Types.{
  Gate, GateAnswer, GateStatus, is_accepting, gate_commit_window_seconds,
  gate_reveal_window_seconds, max_drip_per_answer, max_gate_answers,
}
use ag3nt_coin.Types.Params.{contains}
use ag3nt_coin.Keeper.{State, Env, read, account_of, gate_of, put_gate, add_gate}
use ag3nt_coin.Keeper.Hash.{is_hex_sha256}
use ag3nt_coin.Keeper.Anchors.{resolve_anchors}
use ag3nt_coin.Keeper.Emission.{mint_protocol_reward}

unfoldable pub gate_answer_commit : Env → String → String → String
gate_answer_commit env answer salt = env.sha256_hex (text_append answer (text_append ":" salt))

positive_or : ℕ → Option ℕ → ℕ
positive_or fallback none = fallback
positive_or fallback (some n) = if n == 0 then fallback else n

unfoldable pub gate_window_seconds : Env → String → ℕ → ℕ
unfolding positive_or
gate_window_seconds env name fallback =
    let raw = trim_space (env.getenv name) in
    if str_eq raw "" then fallback else positive_or fallback (parse_int raw)

pub record MsgPostGate : Type 0 where
  pub creator : String
  pub payload_uri : String
  pub payload_hash : String
  pub gold_commit : String
  pub drip : ℕ
  pub max_answers : ℕ

abbrev pub commit_window : Env → ℕ
commit_window env =
    gate_window_seconds env "AGNT_GATE_COMMIT_WINDOW_SECONDS" gate_commit_window_seconds

abbrev pub reveal_window : Env → ℕ
reveal_window env =
    gate_window_seconds env "AGNT_GATE_REVEAL_WINDOW_SECONDS" gate_reveal_window_seconds

unfoldable pub new_gate : Env → MsgPostGate → ℕ → Gate
new_gate env msg id = record {
  id = id;
  poster = msg.creator;
  payload_uri = msg.payload_uri;
  payload_hash = msg.payload_hash;
  gold_commit = msg.gold_commit;
  drip = msg.drip;
  max_answers = msg.max_answers;
  commit_deadline = add64 env.block_time (commit_window env);
  reveal_deadline = add64 (add64 env.block_time (commit_window env)) (reveal_window env);
  status = GateStatus.accepting;
  answers = [];
  gold_answer = "";
  consensus = "";
}

unfoldable pub post_gate : Env → MsgPostGate → Exec State ℕ
post_gate env msg = do
  or_raise (env.string_to_bytes msg.creator) bad_address
  params ← read (λ s. s.params) io
  raise_if (not (contains msg.creator (resolve_anchors env params.anchors))) unauthorized
  raise_if (not (is_hex_sha256 msg.payload_hash)) invalid_request
  raise_if (not (is_hex_sha256 msg.gold_commit)) invalid_request
  raise_if ((msg.drip == 0) || ltb max_drip_per_answer msg.drip) invalid_request
  raise_if ((msg.max_answers == 0) || ltb max_gate_answers msg.max_answers) invalid_request
  id ← gets (λ s. s.gate_seq)
  modify (add_gate (new_gate env msg))
  pure id

unfoldable pub has_committed : String → List GateAnswer → Bool
has_committed agent [] = false
has_committed agent (a ∷ rest) = str_eq a.agent agent || has_committed agent rest

unfoldable pub commit_answer : Env → String → ℕ → String → Exec State (Unit {0})
commit_answer env creator gate_id commit = do
  or_raise (env.string_to_bytes creator) bad_address
  gate ← read (gate_of gate_id) key_not_found
  raise_if (not (is_accepting gate.status)) invalid_request
  raise_if (sle gate.commit_deadline env.block_time) invalid_request
  raise_if (str_eq creator gate.poster) invalid_request
  acct ← read (account_of creator) invalid_request
  raise_if (not acct.registered) invalid_request
  raise_if (not (is_hex_sha256 commit)) invalid_request
  raise_if (leb gate.max_answers (length gate.answers)) invalid_request
  raise_if (has_committed creator gate.answers) invalid_request
  modify (
      put_gate gate.id (record gate {
        answers =
            gate.answers
            ++ (record {
              agent = creator;
              commit = commit;
              answer = "";
              revealed = false;
              paid = false;
            })
              ∷ [];
      }))

pub record MsgRevealAnswer : Type 0 where
  pub creator : String
  pub gate_id : ℕ
  pub answer : String
  pub salt : String

-- The loop over the answers: the agent's first one is revealed, if it is not yet and the preimage
-- fits; `none` for an error.
unfoldable pub reveal_in : Env → MsgRevealAnswer → List GateAnswer → Option (List GateAnswer)
reveal_in env msg [] = none
reveal_in env msg (a ∷ rest) =
    let later = after (reveal_in env msg rest) in
    if not (str_eq a.agent msg.creator)
    then later
    else if a.revealed
    then none
    else if not (equal_fold (gate_answer_commit env msg.answer msg.salt) a.commit)
    then none
    else some (record a { answer = msg.answer; revealed = true } ∷ rest)
  where
    after : Option (List GateAnswer) → Option (List GateAnswer)
    after none = none
    after (some answers) = some (a ∷ answers)

unfoldable pub reveal_answer : Env → MsgRevealAnswer → Exec State (Unit {0})
reveal_answer env msg = do
  or_raise (env.string_to_bytes msg.creator) bad_address
  gate ← read (gate_of msg.gate_id) key_not_found
  raise_if (not (is_accepting gate.status)) invalid_request
  raise_if (slt env.block_time gate.commit_deadline) invalid_request
  raise_if (sle gate.reveal_deadline env.block_time) invalid_request
  raise_if (str_eq msg.answer "") invalid_request
  answers ← or_raise (reveal_in env msg gate.answers) invalid_request
  modify (put_gate gate.id (record gate { answers = answers }))

pub record MsgSettleGate : Type 0 where
  pub creator : String
  pub gate_id : ℕ
  pub gold_answer : String
  pub gold_salt : String

-- `counts[a.Answer]++` for each revealed answer.
unfoldable pub count_answers : List GateAnswer → Store String ℕ → Store String ℕ
count_answers [] counts = counts
count_answers (a ∷ rest) counts = count_answers rest (
    if a.revealed
    then Store.set a.answer (suc (value_or_zero (λ n. n) (Store.get a.answer counts))) counts
    else counts)

pub record Plurality : Type 0 where
  pub best : String
  pub best_count : ℕ
  pub tied : Bool

-- One round of the loop over `counts`.
unfoldable pub compare_count : Plurality → String → ℕ → Plurality
compare_count p answer count =
    if ltb p.best_count count
    then record { best = answer; best_count = count; tied = false }
    else if count == p.best_count
    then record p { tied = true }
    else p

unfoldable pub compare_counts : Plurality → Store String ℕ → Plurality
compare_counts p [] = p
compare_counts p ((answer, count) ∷ rest) = compare_counts (compare_count p answer count) rest

unfoldable pub plurality : List GateAnswer → Plurality
plurality answers =
    compare_counts (record { best = ""; best_count = 0; tied = false }) (count_answers answers [])

-- The answer that is paid: the gold verdict, or the strict plurality; `""` if there is none.
unfoldable pub winning_answer : String → List GateAnswer → String
winning_answer gold answers =
    if str_eq gold ""
    then (let p = plurality answers in if not p.tied && ltb 0 p.best_count then p.best else gold)
    else gold

-- Each revealed answer that won is paid the drip, and marked.
unfoldable pub pay_answers : Env → ℕ → String → List GateAnswer → Exec State (List GateAnswer)
pay_answers env drip winning [] = pure []
pay_answers env drip winning (a ∷ rest) =
    if not a.revealed || not (str_eq a.answer winning)
    then (do others ← pay_answers env drip winning rest; pure (a ∷ others))
    else (do
      bytes ← or_raise (env.string_to_bytes a.agent) bad_address
      mint_protocol_reward env a.agent bytes drip
      others ← pay_answers env drip winning rest
      pure (record a { paid = true } ∷ others))

unfoldable pub pay_winners : Env → Gate → String → Exec State (List GateAnswer)
pay_winners env gate winning =
    if str_eq winning "" then pure gate.answers else pay_answers env gate.drip winning gate.answers

unfoldable pub settle_gate : Env → MsgSettleGate → Exec State String
settle_gate env msg = do
  or_raise (env.string_to_bytes msg.creator) bad_address
  gate ← read (gate_of msg.gate_id) key_not_found
  raise_if (not (is_accepting gate.status)) invalid_request
  raise_if (slt env.block_time gate.reveal_deadline) invalid_request
  raise_if
      (not (equal_fold (gate_answer_commit env msg.gold_answer msg.gold_salt) gate.gold_commit))
      invalid_request
  answers ← pay_winners env gate (winning_answer msg.gold_answer gate.answers)
  modify (
      put_gate gate.id (record gate {
        status = GateStatus.settled;
        answers = answers;
        gold_answer = msg.gold_answer;
        consensus = winning_answer msg.gold_answer gate.answers;
      }))
  pure (winning_answer msg.gold_answer gate.answers)
