-- ===== src/Supply/Gates.antt =====
-- The coins under PostGate, CommitAnswer and RevealAnswer (Msg/Gates.antt).
use ag3nt_coin.Base.{ℕ, ◌≡◌, refl, String, some}
use ag3nt_coin.Exec.{modify}
use ag3nt_coin.Exec.Returns.{
  Returns, success, Returns-or_raise, Returns-raise_if, Returns-gets, Returns-modify, Returns-pure,
}
use ag3nt_coin.Types.{Gate}
use ag3nt_coin.Keeper.{State, Env, Returns-read, gate_of, put_gate, add_gate}
use ag3nt_coin.Msg.Gates.{
  MsgPostGate, new_gate, post_gate, commit_answer, MsgRevealAnswer, reveal_answer,
}
use ag3nt_coin.Invariant.{IsWellFormed, gate_id}
use ag3nt_coin.Invariant.Records.{found_at_id, update-IsNumbered, add-IsNumbered}
use ag3nt_coin.Supply.{supply}
use ag3nt_coin.Supply.Steps.{Conserves}

module _ (s : State) (wf : IsWellFormed s) where
  -- The gates are no part of the supply.
  pub put_gate-Conserves :
      (k : ℕ) (old g : Gate)
      → gate_of k s ≡ some old
      → g.id ≡ old.id
      → Conserves s (put_gate old.id g s)
  unfolding supply
  put_gate-Conserves k old g found same = record {
    well_formed = record {
      vouches = wf.vouches;
      distinct = wf.distinct;
      escrows = wf.escrows;
      disputes = wf.disputes;
      bonds = wf.bonds;
      gates =
          update-IsNumbered gate_id s.gate_seq s.gate wf.gates old.id g old
            (found_at_id gate_id s.gate_seq s.gate wf.gates k old found) same;
    };
    total = refl;
    emission = refl;
  }

  add_gate-Conserves : (g : ℕ → Gate) → (g s.gate_seq).id ≡ s.gate_seq → Conserves s (add_gate g s)
  unfolding supply
  add_gate-Conserves g same = record {
    well_formed = record {
      vouches = wf.vouches;
      distinct = wf.distinct;
      escrows = wf.escrows;
      disputes = wf.disputes;
      bonds = wf.bonds;
      gates = add-IsNumbered gate_id s.gate_seq s.gate wf.gates (g s.gate_seq) same;
    };
    total = refl;
    emission = refl;
  }

  id-new_gate : (env : Env) (msg : MsgPostGate) (id : ℕ) → (new_gate env msg id).id ≡ id
  unfolding new_gate
  id-new_gate env msg id = refl

  -- The handlers before the settlement move no coins.
  pub post_gate-Conserves :
      (env : Env) (msg : MsgPostGate) → Returns (λ _ s'. Conserves s s') (post_gate env msg s)
  unfolding post_gate
  post_gate-Conserves env msg = Returns-or_raise _ _ _ s λ _ _. Returns-read _ _ _ s λ _ _.
      Returns-raise_if _ _ _ s λ _. Returns-raise_if _ _ _ s λ _. Returns-raise_if _ _ _ s λ _.
        Returns-raise_if _ _ _ s λ _. Returns-raise_if _ _ _ s λ _. Returns-gets _ _ s (
          Returns-modify _ _ s (
            Returns-pure _ _
              (add_gate-Conserves (new_gate env msg) (id-new_gate env msg s.gate_seq))))

  pub commit_answer-Conserves :
      (env : Env) (creator : String) (k : ℕ) (commit : String)
      → Returns (λ _ s'. Conserves s s') (commit_answer env creator k commit s)
  unfolding commit_answer
  commit_answer-Conserves env creator k commit = Returns-or_raise _ _ _ s λ _ _.
      Returns-read _ _ _ s λ gate found. Returns-raise_if _ _ _ s λ _. Returns-raise_if _ _ _ s λ _.
        Returns-raise_if _ _ _ s λ _. Returns-read _ _ _ s λ _ _. Returns-raise_if _ _ _ s λ _.
          Returns-raise_if _ _ _ s λ _. Returns-raise_if _ _ _ s λ _.
            Returns-raise_if _ _ _ s
              λ _. unfold modify in success (put_gate-Conserves k gate _ found refl)

  pub reveal_answer-Conserves :
      (env : Env) (msg : MsgRevealAnswer)
      → Returns (λ _ s'. Conserves s s') (reveal_answer env msg s)
  unfolding reveal_answer
  reveal_answer-Conserves env msg = Returns-or_raise _ _ _ s λ _ _.
      Returns-read _ _ _ s λ gate found. Returns-raise_if _ _ _ s λ _. Returns-raise_if _ _ _ s λ _.
        Returns-raise_if _ _ _ s λ _. Returns-raise_if _ _ _ s λ _.
          Returns-or_raise _ _ _ s
            λ answers _. unfold modify in success (put_gate-Conserves msg.gate_id gate _ found refl)
