-- ===== src/Trust.antt =====
-- Where reputation can come from (chain/x/agntcoin/keeper/pagerank.go): sets of addresses that no
-- edge of the trust graph enters, and the laws of the floats on which the computation relies.
pub mod Domain
pub mod Sealed
use ag3nt_coin.Base.{◌≡◌, ℕ, zero, suc, String, Bool, true, List, [], ◌∷◌, ◌++◌}
use ag3nt_coin.Base.Floats.{Floats}
use ag3nt_coin.Base.Store
use ag3nt_coin.Base.Store.{string_key}
use ag3nt_coin.Types.{Vouch}
use ag3nt_coin.Keeper.PageRank.{
  JobEdge, vouch_edges, job_edges, teleport, anchor_nodes, node_set, out_weights, constant_ranks,
  flow_edges, pagerank_max_iter, Ranks, RepEdge, FlowEdge, pagerank_damping, pagerank_teleport,
  dangling_mass, next_ranks,
}

-- IEEE 754 on zero: a finite number that is not negative, times zero, is zero, and zero and zero
-- make zero. `IsFinite` stands for "finite and not negative".
pub record HasZero (f : Floats) (IsFinite : ℕ → Type 0) : Type 0 where
  pub plus_zero : f.plus 0 0 ≡ 0
  pub times_zero : (x : ℕ) → IsFinite x → f.times x 0 ≡ 0
  pub teleport_finite : IsFinite pagerank_teleport

module _ (inside : String → Bool) where
  -- No edge enters the set from without.
  abbrev pub IsSealed : List RepEdge → Type 0
  IsSealed [] = Unit
  IsSealed (e ∷ edges) = (inside e.to ≡ true → inside e.from ≡ true) × IsSealed edges

  -- None of the addresses is in the set.
  abbrev pub AllOutside : List String → Type 0
  AllOutside [] = Unit
  AllOutside (a ∷ rest) = (¬ (inside a ≡ true)) × AllOutside rest

module _ (f : Floats) (IsFinite : ℕ → Type 0) where
  abbrev pub FiniteShares : List FlowEdge → Type 0
  FiniteShares [] = Unit
  FiniteShares (e ∷ edges) = IsFinite (f.times pagerank_damping e.share) × FiniteShares edges

  -- In each of so many rounds the dangling mass stays finite.
  abbrev pub FiniteMasses : ℕ → List String → Ranks → List FlowEdge → Ranks → Ranks → Type 0
  FiniteMasses zero nodes w edges p r = Unit
  FiniteMasses (suc left) nodes w edges p r =
      IsFinite (f.times pagerank_damping (dangling_mass f w r 0 nodes))
      × FiniteMasses left nodes w edges p (next_ranks f nodes w edges p r)

abbrev pub trust_edges : Floats → List Vouch → List JobEdge → List RepEdge
trust_edges f vouches jobs = vouch_edges f vouches ++ job_edges f jobs

-- The personalization vector and the out-weights of a graph.
abbrev pub teleport_of : Floats → List RepEdge → List String → Ranks
teleport_of f edges anchors =
    let set = node_set edges anchors in teleport f (Store.keys set) (anchor_nodes anchors set)

abbrev pub out_weights_of : Floats → List RepEdge → List String → Ranks
out_weights_of f edges anchors =
    out_weights f edges (constant_ranks 0 (Store.keys (node_set edges anchors)))

-- No number of the computation overflows.
abbrev pub FiniteRun : (f : Floats) → (ℕ → Type 0) → List RepEdge → List String → Type 0
FiniteRun f IsFinite edges anchors =
    let w = out_weights_of f edges anchors in
    let p = teleport_of f edges anchors in
    FiniteShares f IsFinite (flow_edges f w edges)
    × FiniteMasses f IsFinite pagerank_max_iter (Store.keys (node_set edges anchors)) w
        (flow_edges f w edges) p p
