-- ===== src/Mint/Gates.antt =====
-- What SettleGate (Msg/Gates.antt) mints.
use ag3nt_coin.Base.{
  ℕ, ◌+◌, ◌≡◌, ap, ◌∙◌, refl, String, List, [], ◌∷◌, some, not, ◌||◌, str_eq, Bool-cases, inl, inr,
  arith, if◌then◌else◌,
}
use ag3nt_coin.Base.Store
use ag3nt_coin.Base.Store.{uint_key}
use ag3nt_coin.Exec.Returns.{
  Returns, Returns-or_raise, Returns-raise_if, Returns-call, Returns-modify, Returns-pure,
}
use ag3nt_coin.Types.{Gate, GateAnswer}
use ag3nt_coin.Keeper.{put_gate, State, Env, Returns-read, gate_of}
use ag3nt_coin.Msg.Gates.{pay_answers, pay_winners, winning_answer, MsgSettleGate, settle_gate}
use ag3nt_coin.Mint.{IsValid, Mints, Rewards, Rewards-refl, Rewards-trans, Conserves-Mints}
use ag3nt_coin.Mint.Reward.{mint_protocol_reward-Rewards}
use ag3nt_coin.Supply.Gates.{put_gate-Conserves}

-- What the revealed answers that won are owed.
unfoldable pub owed : ℕ → String → List GateAnswer → ℕ
owed drip winning [] = 0
owed drip winning (a ∷ rest) =
    let others = owed drip winning rest in
    if not a.revealed || not (str_eq a.answer winning) then others else drip + others

pay_answers-Rewards :
    (env : Env) (drip : ℕ) (winning : String) (answers : List GateAnswer) (s : State)
    → IsValid s
    → Returns
        (λ _ s'. Rewards (owed drip winning answers) s s')
        (pay_answers env drip winning answers s)
unfolding pay_answers owed
pay_answers-Rewards env drip winning [] s valid = Returns-pure _ s (Rewards-refl s valid)
pay_answers-Rewards env drip winning (a ∷ rest) s valid =
    elim (Bool-cases (not a.revealed || not (str_eq a.answer winning))) [
      | inl lost ↦ rw lost (
          Returns-call _ _ _ s (pay_answers-Rewards env drip winning rest s valid)
            λ others t st. Returns-pure _ t st)
      | inr won ↦ rw won (
          Returns-or_raise _ _ _ s λ bytes _.
            Returns-call _ _ _ s (mint_protocol_reward-Rewards s valid env a.agent bytes drip)
              λ _ t st.
                Returns-call _ _ _ t (pay_answers-Rewards env drip winning rest t st.mints.valid)
                  λ others u tu. Returns-pure _ u (Rewards-trans st tu))
    ]

-- What a settlement owes: nothing if no answer won.
abbrev pub owed_by : String → ℕ → List GateAnswer → ℕ
owed_by winning drip answers = if str_eq winning "" then 0 else owed drip winning answers

pay_winners-Rewards :
    (env : Env) (gate : Gate) (winning : String) (s : State)
    → IsValid s
    → Returns
        (λ _ s'. Rewards (owed_by winning gate.drip gate.answers) s s')
        (pay_winners env gate winning s)
unfolding pay_winners
pay_winners-Rewards env gate winning s valid = elim (Bool-cases (str_eq winning "")) [
  | inl none ↦ rw none (Returns-pure _ s (Rewards-refl s valid))
  | inr won ↦ rw won (pay_answers-Rewards env gate.drip winning gate.answers s valid)
]

settled_gate-Mints :
    (s t : State) {amount : ℕ}
    → Rewards amount s t
    → (old : Gate) (k : ℕ) (g : Gate) → gate_of k s ≡ some old
    → g.id ≡ old.id
    → Mints amount s (put_gate old.id g t)
settled_gate-Mints s t st old k g found same =
    let kept = Conserves-Mints st.mints.valid (
      put_gate-Conserves t st.mints.valid.well_formed k old g (ap (Store.get k) st.gates ∙ found)
        same) in
    record {
      valid = kept.valid;
      total = omega (arith, st.mints.total, kept.total);
      below = omega (arith, st.mints.below, kept.below);
    }

-- SettleGate, when it succeeds on a valid store, had a gate, leaves a valid store, raises the coins
-- in existence by exactly the gate's drip for each answer that is owed one, and does not raise the
-- ceiling.
pub settle_gate-Mints :
    (env : Env) (msg : MsgSettleGate) (s : State)
    → IsValid s
    → Returns
        (λ _ s'.
          (gate : Gate) × (gate_of msg.gate_id s ≡ some gate)
          × Mints
              (owed_by (winning_answer msg.gold_answer gate.answers) gate.drip gate.answers)
              s
              s')
        (settle_gate env msg s)
unfolding settle_gate
settle_gate-Mints env msg s valid = Returns-or_raise _ _ _ s λ _ _.
    Returns-read _ _ _ s λ gate found. Returns-raise_if _ _ _ s λ accepting.
      Returns-raise_if _ _ _ s λ over. Returns-raise_if _ _ _ s λ gold.
        Returns-call _ _ _ s
          (pay_winners-Rewards env gate (winning_answer msg.gold_answer gate.answers) s valid)
          λ answers t st. Returns-modify _ _ t (
            Returns-pure _ _ (gate, found, settled_gate-Mints s t st gate msg.gate_id _ found refl))
