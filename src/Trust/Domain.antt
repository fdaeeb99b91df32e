-- ===== src/Trust/Domain.antt =====
-- Which addresses have a score in PageRank (chain/x/agntcoin/keeper/pagerank.go).
use ag3nt_coin.Base.{
  zero, suc, ◌∙◌, sym, ◌==◌, length, ◌==◌, length, suc, ◌≡◌, refl, ℕ, String, Bool, true, false,
  not, List, [], ◌∷◌, ◌||◌, ◌&&◌, arith, eq_refl, inl, inr, Bool-cases, str_eq, eq_iff,
}
use ag3nt_coin.Base.Floats.{Floats}
use ag3nt_coin.Base.Store
use ag3nt_coin.Base.Store.{Store, string_key}
use ag3nt_coin.Base.Store.Laws.{has-set-eq}
use ag3nt_coin.Types.{Vouch}
use ag3nt_coin.Trust.{trust_edges}
use ag3nt_coin.Keeper.PageRank
use ag3nt_coin.Keeper.PageRank.{JobEdge}
use ag3nt_coin.Keeper.PageRank.{Ranks, RepEdge, FlowEdge, JobEdge, rank_of}
use mathlib.Core.Path.{subst}

-- An end of some edge.
unfoldable pub touches : String → List RepEdge → Bool
touches a [] = false
touches a (e ∷ edges) = str_eq e.from a || str_eq e.to a || touches a edges

-- One of the anchors, and not the empty text.
unfoldable pub is_anchor : String → List String → Bool
is_anchor a [] = false
is_anchor a (b ∷ anchors) = (not (str_eq b "") && str_eq b a) || is_anchor a anchors

has-add_endpoints :
    (a : String) (edges : List RepEdge) (set : Store String (Unit {0}))
    → Store.has a (PageRank.add_endpoints edges set) ≡ (touches a edges || Store.has a set)
unfolding PageRank.add_endpoints PageRank.add_node touches
has-add_endpoints a [] set = refl
has-add_endpoints a (e ∷ edges) set = ground (
  arith,
  has-add_endpoints a edges (Store.set e.to tt (Store.set e.from tt set)),
  has-set-eq a e.to tt (Store.set e.from tt set),
  has-set-eq a e.from tt set,
)

has-add_anchors-eq :
    (a : String) (anchors : List String) (set : Store String (Unit {0}))
    → Store.has a (PageRank.add_anchors anchors set) ≡ (is_anchor a anchors || Store.has a set)
unfolding PageRank.add_anchors PageRank.add_node is_anchor
has-add_anchors-eq a [] set = refl
has-add_anchors-eq a (b ∷ anchors) set = elim (Bool-cases (str_eq b "")) [
  | inl blank ↦ rw blank (has-add_anchors-eq a anchors set)
  | inr named ↦
      rw named
        (ground (arith, has-add_anchors-eq a anchors (Store.set b tt set), has-set-eq a b tt set))
]

has-node_set :
    (a : String) (edges : List RepEdge) (anchors : List String)
    → Store.has a (PageRank.node_set edges anchors) ≡ (touches a edges || is_anchor a anchors)
unfolding PageRank.node_set
has-node_set a edges anchors =
    let absent : Store.has {V = Unit {0}} a [] ≡ false = unfold Store.has Store.get in refl in
    ground (
      arith,
      has-add_anchors-eq a anchors (PageRank.add_endpoints edges []),
      has-add_endpoints a edges [],
    )

-- The entries of `r` stand under the nodes.
abbrev SameNodes : Store String (Unit {0}) → Ranks → Type 0
SameNodes set r = (a : String) → Store.has a r ≡ Store.has a set

-- A write to a node.
set-SameNodes :
    (set : Store String (Unit {0})) (b : String) (x : ℕ) (r : Ranks)
    → Store.has b set ≡ true
    → SameNodes set r
    → SameNodes set (Store.set b x r)
set-SameNodes set b x r node h a = elim (Bool-cases (str_eq b a)) [
  | inl here ↦
      let there = subst (λ c. Store.has c set ≡ true) ((eq_iff b a).0 here) node in
      ground (arith, has-set-eq a b x r, here, there)
  | inr away ↦ ground (arith, has-set-eq a b x r, away, h a)
]

cons-SameNodes :
    (set : Store String (Unit {0})) (r : Ranks) (b : String) (x : ℕ)
    → SameNodes set r
    → SameNodes ((b, tt) ∷ set) ((b, x) ∷ r)
unfolding Store.has Store.get
cons-SameNodes set r b x h a = elim (Bool-cases (str_eq b a)) [
  | inl here ↦ rw (here, Store.has) refl
  | inr away ↦ rw (away, Store.has) (unfold Store.has in (h a))
]

constant_ranks-SameNodes :
    (x : ℕ) (set : Store String (Unit {0}))
    → SameNodes set (PageRank.constant_ranks x (Store.keys set))
unfolding PageRank.constant_ranks Store.keys
constant_ranks-SameNodes x [] = λ a. unfold Store.has Store.get in refl
constant_ranks-SameNodes x ((b, tt) ∷ set) =
    cons-SameNodes set _ b x (constant_ranks-SameNodes x set)

abbrev AllNodes : Store String (Unit {0}) → List String → Type 0
AllNodes set [] = Unit
AllNodes set (a ∷ anchors) = (Store.has a set ≡ true) × AllNodes set anchors

anchor_nodes-AllNodes :
    (set : Store String (Unit {0})) (anchors : List String)
    → AllNodes set (PageRank.anchor_nodes anchors set)
unfolding PageRank.anchor_nodes
anchor_nodes-AllNodes set [] = tt
anchor_nodes-AllNodes set (a ∷ anchors) = elim (Bool-cases (Store.has a set)) [
  | inl node ↦ rw node (node, anchor_nodes-AllNodes set anchors)
  | inr absent ↦ rw absent (anchor_nodes-AllNodes set anchors)
]

set_shares-SameNodes :
    (set : Store String (Unit {0})) (share : ℕ) (anchors : List String) (p : Ranks)
    → AllNodes set anchors
    → SameNodes set p
    → SameNodes set (PageRank.set_shares share anchors p)
unfolding PageRank.set_shares
set_shares-SameNodes set share [] p nodes h = h
set_shares-SameNodes set share (a ∷ anchors) p nodes h =
    set_shares-SameNodes set share anchors _ nodes.1 (set-SameNodes set a share p nodes.0 h)

-- The edges lead to nodes.
abbrev EndsIn : Store String (Unit {0}) → List FlowEdge → Type 0
EndsIn set [] = Unit
EndsIn set (e ∷ edges) = (Store.has e.to set ≡ true) × EndsIn set edges

module _ (f : Floats) (set : Store String (Unit {0})) where
  base_ranks-SameNodes :
      (p : Ranks) (mass : ℕ) (nodes : Store String (Unit {0}))
      → SameNodes nodes (PageRank.base_ranks f p mass (Store.keys nodes))
  unfolding PageRank.base_ranks Store.keys
  base_ranks-SameNodes p mass [] = λ a. unfold Store.has Store.get in refl
  base_ranks-SameNodes p mass ((b, tt) ∷ nodes) =
      cons-SameNodes nodes _ b _ (base_ranks-SameNodes p mass nodes)

  flow-SameNodes :
      (r : Ranks) (edges : List FlowEdge) (next : Ranks)
      → EndsIn set edges
      → SameNodes set next
      → SameNodes set (PageRank.flow f r edges next)
  unfolding PageRank.flow PageRank.add_rank
  flow-SameNodes r [] next ends h = h
  flow-SameNodes r (e ∷ edges) next ends h =
      flow-SameNodes r edges _ ends.1 (set-SameNodes set e.to _ next ends.0 h)

  power_iterate-SameNodes :
      (left : ℕ) (w : Ranks) (edges : List FlowEdge) (p r : Ranks)
      → EndsIn set edges
      → SameNodes set r
      → SameNodes set (PageRank.power_iterate f left (Store.keys set) w edges p r)
  unfolding PageRank.power_iterate PageRank.next_ranks
  power_iterate-SameNodes zero w edges p r ends h = h
  power_iterate-SameNodes (suc left) w edges p r ends h =
      let nodes = Store.keys set in
      let next = PageRank.next_ranks f nodes w edges p r in
      let k : SameNodes set next = flow-SameNodes r edges _ ends (base_ranks-SameNodes p _ set) in
      elim (Bool-cases (f.less (PageRank.l1_delta f next r 0 nodes) PageRank.pagerank_tolerance)) [
        | inl done ↦ rw done k
        | inr more ↦ rw more (power_iterate-SameNodes left w edges p next ends k)
      ]

  flow_edges-EndsIn :
      (w : Ranks) (edges : List RepEdge)
      → ((a : String) → touches a edges ≡ true → Store.has a set ≡ true)
      → EndsIn set (PageRank.flow_edges f w edges)
  unfolding PageRank.flow_edges touches
  flow_edges-EndsIn w [] nodes = tt
  flow_edges-EndsIn w (e ∷ edges) nodes =
      let later = flow_edges-EndsIn w edges (λ a t. nodes a (ground (arith, t))) in
      elim (Bool-cases (f.is_zero (rank_of e.from w))) [
        | inl idle ↦ rw idle later
        | inr flows ↦ rw flows (nodes e.to (ground (arith, eq_refl e.to)), later)
      ]

  teleport-SameNodes :
      (anchors : List String)
      → AllNodes set anchors
      → SameNodes set (PageRank.teleport f (Store.keys set) anchors)
  unfolding PageRank.teleport
  teleport-SameNodes [] nodes = constant_ranks-SameNodes _ set
  teleport-SameNodes (a ∷ anchors) nodes =
      set_shares-SameNodes set _ (a ∷ anchors) _ nodes (constant_ranks-SameNodes 0 set)

module _ (f : Floats) where
  rank_nodes-SameNodes :
      (edges : List RepEdge) (anchors : List String)
      → SameNodes
          (PageRank.node_set edges anchors)
          (PageRank.rank_nodes f edges anchors (PageRank.node_set edges anchors))
  unfolding PageRank.rank_nodes
  rank_nodes-SameNodes edges anchors =
      let set = PageRank.node_set edges anchors in
      power_iterate-SameNodes f set _ _ _ _ _
        (flow_edges-EndsIn f set _ edges λ a t. has-node_set a edges anchors ∙ rw t refl)
        (teleport-SameNodes f set _ (anchor_nodes-AllNodes set anchors))

  no_keys :
      (a : String) (set : Store String (Unit {0}))
      → (length (Store.keys set) == 0) ≡ true
      → Store.has a set ≡ false
  unfolding Store.keys
  no_keys a [] empty = unfold Store.has Store.get in refl
  no_keys a ((b, tt) ∷ set) empty = absurd (ground (arith, empty))

  -- An address has an entry among the scores exactly if it is an end of an edge of the trust graph
  -- (from a vouch or a job with two different ends and a positive amount) or a non-empty anchor.
  pub has-reputation :
      (vouches : List Vouch) (jobs : List JobEdge) (anchors : List String) (a : String)
      → Store.has a (PageRank.reputation f vouches jobs anchors)
        ≡ (touches a (trust_edges f vouches jobs) || is_anchor a anchors)
  unfolding PageRank.reputation
  has-reputation vouches jobs anchors a =
      let edges = trust_edges f vouches jobs in
      let set = PageRank.node_set edges anchors in
      elim (Bool-cases (length (Store.keys set) == 0)) [
        | inl empty ↦
            rw empty (
              unfold Store.has Store.get in
              sym (no_keys a set empty) ∙ has-node_set a edges anchors)
        | inr nodes ↦ rw nodes (rank_nodes-SameNodes edges anchors a ∙ has-node_set a edges anchors)
      ]
