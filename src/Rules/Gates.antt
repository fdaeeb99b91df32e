-- ===== src/Rules/Gates.antt =====
-- The windows of a gate (Msg/Gates.antt): the times of commits, of reveals and of the settlement.
use ag3nt_coin.Base.{inr, inl, Bool-cases, ℕ, ◌≡◌, String, true, false, some, arith}
use ag3nt_coin.Base.Words.{slt, sle, sle-eq-not-slt}
use ag3nt_coin.Exec.{succeeds, modify}
use ag3nt_coin.Exec.Returns.{
  Returns, success, Returns-or_raise, Returns-raise_if, Returns-modify, Returns-pure, Returns-known,
  Returns-any,
}
use ag3nt_coin.Types.{Gate}
use ag3nt_coin.Keeper.{State, Env, Returns-read, gate_of}
use ag3nt_coin.Msg.Gates.{MsgRevealAnswer, MsgSettleGate, commit_answer, reveal_answer, settle_gate}

-- The gate is there, and the block's time is before the end of commits.
abbrev IsCommitting : Env → ℕ → State → Type 0
IsCommitting env k s =
    (g : Gate) × (gate_of k s ≡ some g) × (slt env.block_time g.commit_deadline ≡ true)

-- The gate is there, commits have ended, and reveals have not.
abbrev IsRevealing : Env → ℕ → State → Type 0
IsRevealing env k s =
    (g : Gate) × (gate_of k s ≡ some g)
    × (slt env.block_time g.commit_deadline ≡ false)
    × (slt env.block_time g.reveal_deadline ≡ true)

abbrev IsOver : Env → ℕ → State → Type 0
IsOver env k s =
    (g : Gate) × (gate_of k s ≡ some g) × (slt env.block_time g.reveal_deadline ≡ false)

before_deadline : (now d : ℕ) → sle d now ≡ false → slt now d ≡ true
before_deadline now d h = ground (arith, sle-eq-not-slt d now)

module _ (s : State) where
  commit_answer-IsCommitting :
      (env : Env) (creator : String) (k : ℕ) (commit : String)
      → Returns (λ _ _. IsCommitting env k s) (commit_answer env creator k commit s)
  unfolding commit_answer
  commit_answer-IsCommitting env creator k commit = Returns-or_raise _ _ _ s λ _ _.
      Returns-read _ _ _ s λ gate found. Returns-raise_if _ _ _ s λ _.
        Returns-raise_if _ _ _ s λ ended. Returns-raise_if _ _ _ s λ _. Returns-read _ _ _ s λ _ _.
          Returns-raise_if _ _ _ s λ _. Returns-raise_if _ _ _ s λ _. Returns-raise_if _ _ _ s λ _.
            Returns-raise_if _ _ _ s λ _.
              unfold modify in
              success (gate, found, before_deadline env.block_time gate.commit_deadline ended)

  reveal_answer-IsRevealing :
      (env : Env) (msg : MsgRevealAnswer)
      → Returns (λ _ _. IsRevealing env msg.gate_id s) (reveal_answer env msg s)
  unfolding reveal_answer
  reveal_answer-IsRevealing env msg = Returns-or_raise _ _ _ s λ _ _.
      Returns-read _ _ _ s λ gate found. Returns-raise_if _ _ _ s λ _.
        Returns-raise_if _ _ _ s λ early. Returns-raise_if _ _ _ s λ late.
          Returns-raise_if _ _ _ s λ _. Returns-or_raise _ _ _ s λ answers _.
            unfold modify in
            success (gate, found, early, before_deadline env.block_time gate.reveal_deadline late)

  settle_gate-IsOver :
      (env : Env) (msg : MsgSettleGate)
      → Returns (λ _ _. IsOver env msg.gate_id s) (settle_gate env msg s)
  unfolding settle_gate
  settle_gate-IsOver env msg = Returns-or_raise _ _ _ s λ _ _. Returns-read _ _ _ s λ gate found.
      Returns-raise_if _ _ _ s λ _. Returns-raise_if _ _ _ s λ over. Returns-raise_if _ _ _ s λ _.
        Returns-any _ _ s λ answers t. Returns-modify _ _ t (Returns-pure _ _ (gate, found, over))

  -- At a block's time at which a gate accepts a commit it refuses every reveal.
  pub commit_excludes_reveal :
      (env : Env) (creator commit : String) (msg : MsgRevealAnswer)
      → succeeds (commit_answer env creator msg.gate_id commit s) ≡ true
      → succeeds (reveal_answer env msg s) ≡ false
  commit_excludes_reveal env creator commit msg committed =
      elim (Bool-cases (succeeds (reveal_answer env msg s))) [
        | inl revealed ↦
            let (g, g_found, in_time) =
              Returns-known _ (commit_answer-IsCommitting env creator msg.gate_id commit)
                committed in
            let (h, h_found, closed, _) =
              Returns-known _ (reveal_answer-IsRevealing env msg) revealed in
            cc
        | inr refused ↦ refused
      ]

  -- At a block's time at which a gate may be settled it refuses every reveal.
  pub settle_excludes_reveal :
      (env : Env) (msg : MsgSettleGate) (reveal : MsgRevealAnswer)
      → reveal.gate_id ≡ msg.gate_id
      → succeeds (settle_gate env msg s) ≡ true
      → succeeds (reveal_answer env reveal s) ≡ false
  settle_excludes_reveal env msg reveal same settled =
      elim (Bool-cases (succeeds (reveal_answer env reveal s))) [
        | inl revealed ↦
            let (g, g_found, over) = Returns-known _ (settle_gate-IsOver env msg) settled in
            let (h, h_found, _, in_time) =
              Returns-known _ (reveal_answer-IsRevealing env reveal) revealed in
            cc
        | inr refused ↦ refused
      ]
