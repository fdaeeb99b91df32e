-- ===== src/Keeper/PageRank.antt =====
-- chain/x/agntcoin/keeper/pagerank.go. The arrays over the nodes are entries under the nodes'
-- addresses, in the order of the sorted nodes, so that a node's index is its address; the loops run
-- in the order of the source, since the operations on floats do not associate.
use ag3nt_coin.Base.{
  ℕ, zero, suc, String, List, [], ◌∷◌, ◌++◌, ◌||◌, ◌==◌, str_eq, length, if◌then◌else◌,
}
use ag3nt_coin.Base.Floats.{Floats, float_one}
use ag3nt_coin.Base.Store
use ag3nt_coin.Base.Store.{Store, string_key, value_or_zero}
use ag3nt_coin.Types.{Vouch}

-- `pagerankDamping`, 0.85, and `1.0 - pagerankDamping`, which Go computes exactly and rounds.
abbrev pub pagerank_damping : ℕ
pagerank_damping = 4605831338911806259

abbrev pub pagerank_teleport : ℕ
pagerank_teleport = 4594572339843380019

abbrev pub pagerank_max_iter : ℕ
pagerank_max_iter = 100

-- `pagerankTolerance`, 1e-9.
abbrev pub pagerank_tolerance : ℕ
pagerank_tolerance = 4472406533629990549

pub record JobEdge : Type 0 where
  pub payer : String
  pub payee : String
  pub amount : ℕ

pub record RepEdge : Type 0 where
  pub from : String
  pub to : String
  pub weight : ℕ

pub record FlowEdge : Type 0 where
  pub from : String
  pub to : String
  pub share : ℕ

-- An array of floats over the nodes.
abbrev pub Ranks : Type 0
Ranks = Store String ℕ

abbrev pub rank_of : String → Ranks → ℕ
rank_of a r = value_or_zero (λ x. x) (Store.get a r)

-- Every node has `x`.
unfoldable pub constant_ranks : ℕ → List String → Ranks
constant_ranks x [] = []
constant_ranks x (a ∷ nodes) = (a, x) ∷ constant_ranks x nodes

-- The keys of the map that stands for the set, sorted.
unfoldable pub add_node : String → Store String (Unit {0}) → Store String (Unit {0})
add_node a set = Store.set a tt set

unfoldable pub add_endpoints : List RepEdge → Store String (Unit {0}) → Store String (Unit {0})
add_endpoints [] set = set
add_endpoints (e ∷ edges) set = add_endpoints edges (add_node e.to (add_node e.from set))

unfoldable pub add_anchors : List String → Store String (Unit {0}) → Store String (Unit {0})
add_anchors [] set = set
add_anchors (a ∷ anchors) set = add_anchors anchors (if str_eq a "" then set else add_node a set)

unfoldable pub node_set : List RepEdge → List String → Store String (Unit {0})
node_set edges anchors = add_anchors anchors (add_endpoints edges [])

-- The anchors that are nodes.
unfoldable pub anchor_nodes : List String → Store String (Unit {0}) → List String
anchor_nodes [] set = []
anchor_nodes (a ∷ anchors) set =
    let rest = anchor_nodes anchors set in if Store.has a set then a ∷ rest else rest

-- `p[i] = share` for each of the anchors.
unfoldable pub set_shares : ℕ → List String → Ranks → Ranks
set_shares share [] p = p
set_shares share (a ∷ anchors) p = set_shares share anchors (Store.set a share p)

module _ (f : Floats) where
  unfoldable pub vouch_edges : List Vouch → List RepEdge
  vouch_edges [] = []
  vouch_edges (v ∷ rest) =
      let edges = vouch_edges rest in
      if str_eq v.from_addr v.to_addr || v.stake == 0
      then edges
      else record { from = v.from_addr; to = v.to_addr; weight = f.of_uint64 v.stake } ∷ edges

  unfoldable pub job_edges : List JobEdge → List RepEdge
  job_edges [] = []
  job_edges (j ∷ rest) =
      let edges = job_edges rest in
      if str_eq j.payer j.payee || j.amount == 0
      then edges
      else record { from = j.payer; to = j.payee; weight = f.of_uint64 j.amount } ∷ edges

  -- `r[a] += x`
  unfoldable pub add_rank : String → ℕ → Ranks → Ranks
  add_rank a x r = Store.set a (f.plus (rank_of a r) x) r

  unfoldable pub out_weights : List RepEdge → Ranks → Ranks
  out_weights [] w = w
  out_weights (e ∷ edges) w = out_weights edges (add_rank e.from e.weight w)

  unfoldable pub flow_edges : Ranks → List RepEdge → List FlowEdge
  flow_edges w [] = []
  flow_edges w (e ∷ edges) =
      let rest = flow_edges w edges in
      if f.is_zero (rank_of e.from w)
      then rest
      else record { from = e.from; to = e.to; share = f.over e.weight (rank_of e.from w) } ∷ rest

  -- The personalization vector: the anchors that are nodes, or every node where there is none.
  unfoldable pub teleport : List String → List String → Ranks
  teleport nodes [] = constant_ranks (f.over float_one (f.of_uint64 (length nodes))) nodes
  teleport nodes (a ∷ anchors) =
      set_shares (f.over float_one (f.of_uint64 (length (a ∷ anchors)))) (a ∷ anchors)
        (constant_ranks 0 nodes)

  -- The rank of the nodes without an out-edge.
  unfoldable pub dangling_mass : Ranks → Ranks → ℕ → List String → ℕ
  dangling_mass w r mass [] = mass
  dangling_mass w r mass (a ∷ nodes) =
      dangling_mass w r (if f.is_zero (rank_of a w) then f.plus mass (rank_of a r) else mass) nodes

  -- The base term of a node.
  unfoldable pub base_rank : ℕ → ℕ → ℕ
  base_rank mass p =
      f.plus (f.times pagerank_teleport p) (f.times (f.times pagerank_damping mass) p)

  unfoldable pub base_ranks : Ranks → ℕ → List String → Ranks
  base_ranks p mass [] = []
  base_ranks p mass (a ∷ nodes) = (a, base_rank mass (rank_of a p)) ∷ base_ranks p mass nodes

  -- The contributions along the edges.
  unfoldable pub flow : Ranks → List FlowEdge → Ranks → Ranks
  flow r [] next = next
  flow r (e ∷ edges) next =
      flow r edges
        (add_rank e.to (f.times (f.times pagerank_damping e.share) (rank_of e.from r)) next)

  unfoldable pub l1_delta : Ranks → Ranks → ℕ → List String → ℕ
  l1_delta next r delta [] = delta
  l1_delta next r delta (a ∷ nodes) =
      l1_delta next r (f.plus delta (f.abs (f.minus (rank_of a next) (rank_of a r)))) nodes

  -- One round: the next ranks.
  unfoldable pub next_ranks : List String → Ranks → List FlowEdge → Ranks → Ranks → Ranks
  next_ranks nodes w edges p r = flow r edges (base_ranks p (dangling_mass w r 0 nodes) nodes)

  -- The loop, at most as often as its first argument says.
  unfoldable pub power_iterate : ℕ → List String → Ranks → List FlowEdge → Ranks → Ranks → Ranks
  power_iterate zero nodes w edges p r = r
  power_iterate (suc left) nodes w edges p r =
      let next = next_ranks nodes w edges p r in
      let rest = power_iterate left nodes w edges p next in
      if f.less (l1_delta next r 0 nodes) pagerank_tolerance then next else rest

  -- `Reputation` after the edges are collected.
  unfoldable pub rank_nodes : List RepEdge → List String → Store String (Unit {0}) → Ranks
  rank_nodes edges anchors set =
      let nodes = Store.keys set in
      let w = out_weights edges (constant_ranks 0 nodes) in
      let p = teleport nodes (anchor_nodes anchors set) in
      power_iterate pagerank_max_iter nodes w (flow_edges w edges) p p

  unfoldable pub reputation : List Vouch → List JobEdge → List String → Ranks
  reputation vouches jobs anchors =
      let edges = vouch_edges vouches ++ job_edges jobs in
      let set = node_set edges anchors in
      if length (Store.keys set) == 0 then [] else rank_nodes edges anchors set

  -- `PageRank`
  unfoldable pub pagerank : List Vouch → Ranks
  pagerank vouches = reputation vouches [] []
