-- ===== src/Trust/Sealed.antt =====
-- A sealed set without an anchor in PageRank (chain/x/agntcoin/keeper/pagerank.go).
use ag3nt_coin.Base.{
  ◌==◌, length, false, ◌≡◌, refl, sym, ap, ◌∙◌, ℕ, zero, suc, String, Bool, true, List, [], ◌∷◌,
  inl, inr, Bool-cases, str_eq, eq_iff,
}
use ag3nt_coin.Base.Floats.{Floats}
use ag3nt_coin.Base.Store
use ag3nt_coin.Base.Store.{Store, string_key, value_or_zero}
use ag3nt_coin.Base.Store.Laws.{has-set, has-set_self, get-set_self, get-set_ne}
use ag3nt_coin.Keeper.PageRank
use ag3nt_coin.Keeper.PageRank.{Ranks, RepEdge, FlowEdge, rank_of, JobEdge}
use ag3nt_coin.Types.{Vouch}
use ag3nt_coin.Trust.{
  trust_edges, teleport_of, FiniteRun, HasZero, IsSealed, AllOutside, FiniteShares, FiniteMasses,
}
use mathlib.Core.Path.{subst}

-- The members of the set have no rank.
abbrev NoRank : (String → Bool) → Ranks → Type 0
NoRank inside r = (a : String) → inside a ≡ true → rank_of a r ≡ 0

-- No edge along which rank flows enters the set.
abbrev FlowSealed : (String → Bool) → List FlowEdge → Type 0
FlowSealed inside [] = Unit
FlowSealed inside (e ∷ edges) =
    (inside e.to ≡ true → inside e.from ≡ true) × FlowSealed inside edges

-- A write of zero, or of another address, gives none of them a rank.
set-NoRank :
    (inside : String → Bool) (b : String) (x : ℕ) (r : Ranks)
    → NoRank inside r
    → (inside b ≡ true → x ≡ 0)
    → NoRank inside (Store.set b x r)
set-NoRank inside b x r h zero_inside a member = elim (Bool-cases (str_eq a b)) [
  | inl here ↦
      let same = (eq_iff a b).0 here in
      subst (λ c. rank_of c (Store.set b x r) ≡ 0) (sym same)
        (ap (value_or_zero (λ n. n)) (get-set_self b x r)
          ∙ zero_inside (subst (λ c. inside c ≡ true) same member))
  | inr away ↦
      ap (value_or_zero (λ n. n)) (get-set_ne a b x r (λ e. cc (away, (eq_iff a b).1 e)))
      ∙ h a member
]

cons-NoRank :
    (inside : String → Bool) (b : String) (x : ℕ) (r : Ranks)
    → NoRank inside r
    → (inside b ≡ true → x ≡ 0)
    → NoRank inside ((b, x) ∷ r)
unfolding Store.get
cons-NoRank inside b x r h zero_inside a member = elim (Bool-cases (str_eq b a)) [
  | inl here ↦
      rw here (zero_inside (subst (λ c. inside c ≡ true) (sym ((eq_iff b a).0 here)) member))
  | inr away ↦ rw away (h a member)
]

constant_ranks-NoRank :
    (inside : String → Bool) (nodes : List String) → NoRank inside (PageRank.constant_ranks 0 nodes)
unfolding PageRank.constant_ranks
constant_ranks-NoRank inside [] = λ a member. unfold Store.get in refl
constant_ranks-NoRank inside (a ∷ nodes) =
    cons-NoRank inside a 0 _ (constant_ranks-NoRank inside nodes) (λ _. refl)

set_shares-NoRank :
    (inside : String → Bool) (share : ℕ) (anchors : List String) (p : Ranks)
    → AllOutside inside anchors
    → NoRank inside p
    → NoRank inside (PageRank.set_shares share anchors p)
unfolding PageRank.set_shares
set_shares-NoRank inside share [] p out h = h
set_shares-NoRank inside share (a ∷ anchors) p out h =
    set_shares-NoRank inside share anchors _ out.1
      (set-NoRank inside a share p h (λ member. absurd (out.0 member)))

module _ (f : Floats) (IsFinite : ℕ → Type 0) (laws : HasZero f IsFinite)
    (inside : String → Bool) where
  base_rank-zero :
      (mass : ℕ)
      → IsFinite (f.times PageRank.pagerank_damping mass)
      → PageRank.base_rank f mass 0 ≡ 0
  unfolding PageRank.base_rank
  base_rank-zero mass finite =
      let a = laws.times_zero PageRank.pagerank_teleport laws.teleport_finite in
      let b = laws.times_zero (f.times PageRank.pagerank_damping mass) finite in
      let c = laws.plus_zero in
      ap (λ x. f.plus x (f.times (f.times PageRank.pagerank_damping mass) 0)) a
      ∙ ap (f.plus 0) b
      ∙ c

  base_ranks-NoRank :
      (p : Ranks) (mass : ℕ) (nodes : List String)
      → IsFinite (f.times PageRank.pagerank_damping mass)
      → NoRank inside p
      → NoRank inside (PageRank.base_ranks f p mass nodes)
  unfolding PageRank.base_ranks
  base_ranks-NoRank p mass [] finite h = λ a member. unfold Store.get in refl
  base_ranks-NoRank p mass (a ∷ nodes) finite h =
      cons-NoRank inside a _ _ (base_ranks-NoRank p mass nodes finite h)
        λ member. ap (PageRank.base_rank f mass) (h a member) ∙ base_rank-zero mass finite

  -- What an edge between members carries.
  no_flow : (x y z : ℕ) → y ≡ 0 → z ≡ 0 → IsFinite x → f.plus y (f.times x z) ≡ 0
  no_flow x y z hy hz finite =
      ap (λ n. f.plus n (f.times x z)) hy
      ∙ ap (λ n. f.plus 0 (f.times x n)) hz
      ∙ ap (f.plus 0) (laws.times_zero x finite)
      ∙ laws.plus_zero

  flow-NoRank :
      (r : Ranks) (edges : List FlowEdge) (next : Ranks)
      → FiniteShares f IsFinite edges
      → FlowSealed inside edges
      → NoRank inside r
      → NoRank inside next
      → NoRank inside (PageRank.flow f r edges next)
  unfolding PageRank.flow PageRank.add_rank
  flow-NoRank r [] next finite out h k = k
  flow-NoRank r (e ∷ edges) next finite out h k = flow-NoRank r edges _ finite.1 out.1 h (
      set-NoRank inside e.to _ next k
        λ member. no_flow _ _ _ (k e.to member) (h e.from (out.0 member)) finite.0)

  power_iterate-NoRank :
      (left : ℕ) (nodes : List String) (w : Ranks) (edges : List FlowEdge) (p r : Ranks)
      → FiniteShares f IsFinite edges
      → FlowSealed inside edges
      → FiniteMasses f IsFinite left nodes w edges p r
      → NoRank inside p
      → NoRank inside r
      → NoRank inside (PageRank.power_iterate f left nodes w edges p r)
  unfolding PageRank.power_iterate PageRank.next_ranks
  power_iterate-NoRank zero nodes w edges p r shares out masses hp hr = hr
  power_iterate-NoRank (suc left) nodes w edges p r shares out masses hp hr =
      let next = PageRank.next_ranks f nodes w edges p r in
      let h : NoRank inside next =
        flow-NoRank r edges _ shares out hr (base_ranks-NoRank p _ nodes masses.0 hp) in
      elim (Bool-cases (f.less (PageRank.l1_delta f next r 0 nodes) PageRank.pagerank_tolerance)) [
        | inl done ↦ rw done h
        | inr more ↦
            rw more (power_iterate-NoRank left nodes w edges p next shares out masses.1 hp h)
      ]

  -- The edges along which rank flows are edges of the graph.
  flow_edges-FlowSealed :
      (w : Ranks) (edges : List RepEdge)
      → IsSealed inside edges
      → FlowSealed inside (PageRank.flow_edges f w edges)
  unfolding PageRank.flow_edges
  flow_edges-FlowSealed w [] out = tt
  flow_edges-FlowSealed w (e ∷ edges) out = elim (Bool-cases (f.is_zero (rank_of e.from w))) [
    | inl idle ↦ rw idle (flow_edges-FlowSealed w edges out.1)
    | inr flows ↦ rw flows (out.0, flow_edges-FlowSealed w edges out.1)
  ]

anchor_nodes-AllOutside :
    (inside : String → Bool) (anchors : List String) (set : Store String (Unit {0}))
    → AllOutside inside anchors
    → AllOutside inside (PageRank.anchor_nodes anchors set)
unfolding PageRank.anchor_nodes
anchor_nodes-AllOutside inside [] set out = tt
anchor_nodes-AllOutside inside (a ∷ anchors) set out = elim (Bool-cases (Store.has a set)) [
  | inl node ↦ rw node (out.0, anchor_nodes-AllOutside inside anchors set out.1)
  | inr absent ↦ rw absent (anchor_nodes-AllOutside inside anchors set out.1)
]

has-add_anchors :
    (a : String) (anchors : List String) (set : Store String (Unit {0}))
    → Store.has a set ≡ true
    → Store.has a (PageRank.add_anchors anchors set) ≡ true
unfolding PageRank.add_anchors PageRank.add_node
has-add_anchors a [] set h = h
has-add_anchors a (b ∷ anchors) set h = elim (Bool-cases (str_eq b "")) [
  | inl blank ↦ rw blank (has-add_anchors a anchors set h)
  | inr named ↦ rw named (has-add_anchors a anchors _ (has-set a b tt set h))
]

-- An anchor that is not the empty text is a node.
anchor_is_node :
    (edges : List RepEdge) (a : String) (anchors : List String)
    → str_eq a "" ≡ false
    → Store.has a (PageRank.node_set edges (a ∷ anchors)) ≡ true
unfolding PageRank.node_set PageRank.add_anchors PageRank.add_node
anchor_is_node edges a anchors named =
    rw named (has-add_anchors a anchors _ (has-set_self a tt (PageRank.add_endpoints edges [])))

teleport-NoRank :
    (f : Floats) (inside : String → Bool) (edges : List RepEdge) (a : String)
    (anchors : List String)
    → str_eq a "" ≡ false
    → AllOutside inside (a ∷ anchors)
    → NoRank inside (teleport_of f edges (a ∷ anchors))
unfolding PageRank.teleport PageRank.anchor_nodes
teleport-NoRank f inside edges a anchors named out =
    let set = PageRank.node_set edges (a ∷ anchors) in
    rw (anchor_is_node edges a anchors named) (
      set_shares-NoRank inside _ (a ∷ PageRank.anchor_nodes anchors set) _
        (out.0, anchor_nodes-AllOutside inside anchors set out.1)
        (constant_ranks-NoRank inside (Store.keys set)))

module _ (f : Floats) (IsFinite : ℕ → Type 0) (laws : HasZero f IsFinite)
    (inside : String → Bool) where
  rank_nodes-NoRank :
      (edges : List RepEdge) (a : String) (anchors : List String)
      → str_eq a "" ≡ false
      → IsSealed inside edges
      → AllOutside inside (a ∷ anchors)
      → FiniteRun f IsFinite edges (a ∷ anchors)
      → NoRank inside
          (PageRank.rank_nodes f edges (a ∷ anchors) (PageRank.node_set edges (a ∷ anchors)))
  unfolding PageRank.rank_nodes
  rank_nodes-NoRank edges a anchors named closed out finite =
      let p = teleport-NoRank f inside edges a anchors named out in
      power_iterate-NoRank f IsFinite laws inside _ _ _ _ _ _ finite.0
        (flow_edges-FlowSealed f IsFinite laws inside _ edges closed) finite.1 p p

  -- Let a set of addresses contain no anchor, let no edge of the trust graph enter it from outside,
  -- and let the first anchor not be empty. If zero behaves as in IEEE 754 and no number of the
  -- computation overflows, then every address of the set has rank exactly zero, however much the
  -- set has staked and paid within itself.
  pub sealed_has_no_rank :
      (vouches : List Vouch) (jobs : List JobEdge) (a : String) (anchors : List String)
      → str_eq a "" ≡ false
      → IsSealed inside (trust_edges f vouches jobs)
      → AllOutside inside (a ∷ anchors)
      → FiniteRun f IsFinite (trust_edges f vouches jobs) (a ∷ anchors)
      → (b : String) → inside b ≡ true
      → rank_of b (PageRank.reputation f vouches jobs (a ∷ anchors)) ≡ 0
  unfolding PageRank.reputation
  sealed_has_no_rank vouches jobs a anchors named closed out finite =
      let edges = trust_edges f vouches jobs in
      elim (Bool-cases (length (Store.keys (PageRank.node_set edges (a ∷ anchors))) == 0)) [
        | inl empty ↦ rw empty (λ b member. unfold Store.get in refl)
        | inr nodes ↦ rw nodes (rank_nodes-NoRank edges a anchors named closed out finite)
      ]
