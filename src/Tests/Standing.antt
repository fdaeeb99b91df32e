-- ===== src/Tests/Standing.antt =====
-- The theorems on reputation, applied on a small chain on which two strangers vouch for each other.
use ag3nt_coin.Base.{
  ◌≡◌, refl, ℕ, zero, suc, String, Bool, true, false, ◌||◌, some, List, [], ◌∷◌, str_eq, arith,
}
use ag3nt_coin.Base.Floats.{Floats}
use ag3nt_coin.Base.Store
use ag3nt_coin.Base.Store.{Store, uint_key, string_key}
use ag3nt_coin.Exec.{succeeds}
use ag3nt_coin.Types.{Vouch}
use ag3nt_coin.Keeper.{State}
use ag3nt_coin.Keeper.Anchors.{resolve_anchors}
use ag3nt_coin.Keeper.PageRank.{
  FlowEdge, Ranks, rank_of, reputation, vouch_edges, job_edges, next_ranks, RepEdge, node_set,
  flow_edges, pagerank_max_iter,
}
use ag3nt_coin.Keeper.Reputation.{released_jobs, accepted_jobs}
use ag3nt_coin.Msg.Evidence.{MsgCastScopedEvidenceVouch, cast_scoped_evidence_vouch}
use ag3nt_coin.Trust.{
  HasZero, IsSealed, FiniteShares, FiniteMasses, FiniteRun, trust_edges, out_weights_of,
  teleport_of,
}
use ag3nt_coin.Trust.Sealed.{sealed_has_no_rank}
use ag3nt_coin.Trust.Domain.{has-reputation, touches, is_anchor}
use ag3nt_coin.Query.Defs.{get_reputation}
use ag3nt_coin.Query.Standing.{
  jobs_of, edges_of, is_answered, get_reputation_answers, sealed_cannot_vouch,
}
use ag3nt_coin.Tests.Fixtures.{env, store, params, toy_floats, hash}

abbrev vouch : ℕ → String → String → Vouch
vouch id from_addr to_addr = record {
  id = id;
  from_addr = from_addr;
  to_addr = to_addr;
  weight = 10;
  stake = 100;
}

-- The small chain with a ring of vouches beside it.
abbrev ring_store : State
ring_store = record store {
  vouch_seq = 3;
  vouch =
      (0, vouch 0 "alice" "bob") ∷ (1, vouch 1 "eve" "mallory") ∷ (2, vouch 2 "mallory" "eve") ∷ [];
}

abbrev vouches : List Vouch
vouches = Store.values ring_store.vouch

abbrev in_ring : String → Bool
in_ring a = str_eq a "eve" || str_eq a "mallory"

ring-HasZero : HasZero toy_floats (λ x. Unit)
ring-HasZero = record {
  plus_zero = refl;
  times_zero = λ x finite. omega arith;
  teleport_finite = tt;
}

all_shares : (f : Floats) (edges : List FlowEdge) → FiniteShares f (λ x. Unit) edges
all_shares f [] = tt
all_shares f (e ∷ edges) = (tt, all_shares f edges)

all_masses :
    (f : Floats) (left : ℕ) (nodes : List String) (w : Ranks) (edges : List FlowEdge) (p r : Ranks)
    → FiniteMasses f (λ x. Unit) left nodes w edges p r
all_masses f zero nodes w edges p r = tt
all_masses f (suc left) nodes w edges p r =
    (tt, all_masses f left nodes w edges p (next_ranks f nodes w edges p r))

all_finite :
    (f : Floats) (edges : List RepEdge) (anchors : List String)
    → FiniteRun f (λ x. Unit) edges anchors
all_finite f edges anchors =
    let w = out_weights_of f edges anchors in
    let p = teleport_of f edges anchors in
    (
      all_shares f (flow_edges f w edges),
      all_masses f pagerank_max_iter (Store.keys (node_set edges anchors)) w (flow_edges f w edges)
          p p,
    )

carol_is_outside : ¬ (in_ring "carol" ≡ true)
carol_is_outside e = ground (arith, e)

ring-IsSealed : IsSealed in_ring (edges_of toy_floats ring_store)
unfolding vouch_edges job_edges released_jobs accepted_jobs Store.values
ring-IsSealed = (λ e. e, (λ e. e, (λ e. e, (λ e. e, tt))))

sealed_has_no_rank_example :
    rank_of "eve" (reputation toy_floats vouches (jobs_of ring_store) ("carol" ∷ [])) ≡ 0
sealed_has_no_rank_example =
    sealed_has_no_rank toy_floats (λ x. Unit) ring-HasZero in_ring vouches (jobs_of ring_store)
      "carol" [] refl ring-IsSealed (carol_is_outside, tt)
      (all_finite toy_floats (edges_of toy_floats ring_store) ("carol" ∷ [])) "eve" refl

has-reputation_example :
    Store.has "eve" (reputation toy_floats vouches (jobs_of ring_store) ("carol" ∷ [])) ≡ (
      touches "eve" (trust_edges toy_floats vouches (jobs_of ring_store))
      || is_anchor "eve" ("carol" ∷ []))
has-reputation_example = has-reputation toy_floats vouches (jobs_of ring_store) ("carol" ∷ []) "eve"

get_reputation_answers_example :
    is_answered (get_reputation (λ x. "") env (some "eve") ring_store) ≡ (
      touches "eve" (edges_of toy_floats ring_store)
      || is_anchor "eve" (resolve_anchors env ("carol" ∷ []))
      || Store.has "eve" ring_store.account)
get_reputation_answers_example =
    get_reputation_answers (λ x. "") env "eve" "eve" params ring_store refl refl

abbrev claim : MsgCastScopedEvidenceVouch
claim = record {
  creator = "eve";
  recipient = "mallory";
  scope = "review";
  weight = 10;
  artifact_uri = "ipfs://artifact";
  artifact_sha256 = hash;
  evidence_uri = "ipfs://evidence";
  evidence_sha256 = hash;
  rationale_hash = "";
  expires_at = 0;
}

sealed_cannot_vouch_example : succeeds (cast_scoped_evidence_vouch env claim ring_store) ≡ false
unfolding resolve_anchors
sealed_cannot_vouch_example =
    sealed_cannot_vouch env (λ x. Unit) in_ring params "carol" [] ring_store ring-HasZero refl refl
      refl refl ring-IsSealed (carol_is_outside, tt)
      (all_finite toy_floats (edges_of toy_floats ring_store) ("carol" ∷ [])) claim refl
