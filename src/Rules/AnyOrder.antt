-- ===== src/Rules/AnyOrder.antt =====
-- The winning answer of a gate (Msg/Gates.antt), and the order in which Go walks through the map of
-- counts, which is not specified.
use ag3nt_coin.Base.{
  List, ◌≡◌, ◌≢◌, refl, sym, ap, ◌∙◌, ℕ, ◌<◌, String, Bool, true, false, not, ◌&&◌, some, [], ◌∷◌,
  inl, inr, Bool-cases, arith, str_eq, eq_iff, ltb, if◌then◌else◌,
}
use ag3nt_coin.Base.Store
use ag3nt_coin.Base.Store.{Store, string_key}
use ag3nt_coin.Base.Store.Distinct.{IsDistinct}
use ag3nt_coin.Types.{GateAnswer}
use ag3nt_coin.Msg.Gates.{
  count_answers, plurality, winning_answer, Plurality, compare_count, compare_counts,
}
use ag3nt_coin.Rules.Plurality.{compare_counts-Beats, get-cons_here, get-cons_later, no_entry}
use mathlib.Core.Path.{subst}

-- Two orders of one map: no key twice, and the same entries.
pub record SameMap (m n : Store String ℕ) : Type 0 where
  pub left_distinct : IsDistinct m
  pub right_distinct : IsDistinct n
  pub same : (x : String) → Store.get x n ≡ Store.get x m

-- The loop's start, and the answer that is taken after it.
abbrev pub start : Plurality
start = record { best = ""; best_count = 0; tied = false }

abbrev pub winner : Plurality → String
winner p = if not p.tied && ltb 0 p.best_count then p.best else ""

-- Every other answer has a smaller count.
record Leads (x : String) (c : ℕ) (m : Store String ℕ) : Type 0 where
  counted : Store.get x m ≡ some c
  others : (y : String) (d : ℕ) → y ≢ x → Store.get y m ≡ some d → d < c

-- Smaller counts change nothing.
below_changes_nothing :
    (p : Plurality) (m : Store String ℕ)
    → IsDistinct m
    → ((y : String) (d : ℕ) → Store.get y m ≡ some d → d < p.best_count)
    → compare_counts p m ≡ p
unfolding compare_counts
below_changes_nothing p [] distinct below = refl
below_changes_nothing p ((y, d) ∷ m) distinct below =
    let lt = below y d (get-cons_here y d m) in
    let same : compare_count p y d ≡ p = unfold compare_count in ground (arith, lt) in
    ap (λ q. compare_counts q m) same
    ∙ below_changes_nothing p m distinct.1
        (λ z e f. below z e (get-cons_later z y d e m distinct.0 f))

count_grows :
    (p : Plurality) (y : String) (d c : ℕ)
    → p.best_count < c
    → d < c
    → (compare_count p y d).best_count < c
unfolding compare_count
count_grows p y d c h k = ground (arith, h, k)

same_count :
    (y x : String) (d c : ℕ) (m : Store String ℕ)
    → y ≡ x
    → Store.get x ((y, d) ∷ m) ≡ some c
    → d ≡ c
same_count y x d c m is_x found =
    let h : Store.get y ((y, d) ∷ m) ≡ some c =
      subst (λ z. Store.get z ((y, d) ∷ m) ≡ some c) (sym is_x) found in
    let k = get-cons_here y d m in cc

later_count :
    (x y : String) (d c : ℕ) (m : Store String ℕ)
    → str_eq y x ≡ false
    → Store.get x ((y, d) ∷ m) ≡ some c
    → Store.get x m ≡ some c
unfolding Store.get
later_count x y d c m away found = rw away at found

new_best :
    (p : Plurality) (y x : String) (d c : ℕ)
    → y ≡ x
    → d ≡ c
    → p.best_count < c
    → compare_count p y d ≡ record { best = x; best_count = c; tied = false }
unfolding compare_count
new_best p y x d c is_x is_c lt = ground (arith, is_x, is_c, lt)

-- A leader is found, wherever it stands.
leader_wins :
    (p : Plurality) (x : String) (c : ℕ) (m : Store String ℕ)
    → IsDistinct m
    → p.best_count < c
    → Leads x c m
    → compare_counts p m ≡ record { best = x; best_count = c; tied = false }
unfolding compare_counts
leader_wins p x c [] distinct lt leads = absurd (no_entry x c leads.counted)
leader_wins p x c ((y, d) ∷ m) distinct lt leads = elim (Bool-cases (str_eq y x)) [
  | inl here ↦
      let is_x = (eq_iff y x).0 here in
      let is_c : d ≡ c = same_count y x d c m is_x leads.counted in
      let first : compare_count p y d ≡ record { best = x; best_count = c; tied = false } =
        new_best p y x d c is_x is_c lt in
      ap (λ q. compare_counts q m) first
      ∙ below_changes_nothing _ m distinct.1 (λ z e f.
        leads.others z e (λ zx. cc (f, distinct.0, zx, is_x))
          (get-cons_later z y d e m distinct.0 f))
  | inr away ↦
      let apart : y ≢ x = λ e. cc (away, (eq_iff y x).1 e) in
      let smaller = leads.others y d apart (get-cons_here y d m) in
      leader_wins (compare_count p y d) x c m distinct.1 (count_grows p y d c lt smaller) (record {
        counted = later_count x y d c m away leads.counted;
        others = λ z e ne f. leads.others z e ne (get-cons_later z y d e m distinct.0 f);
      })
]

wins : Plurality → Bool
wins p = not p.tied && ltb 0 p.best_count

-- Where the loop ends with a winner, it leads.
winner-Leads :
    (m : Store String ℕ)
    → IsDistinct m
    → wins (compare_counts start m) ≡ true
    → Leads (compare_counts start m).best (compare_counts start m).best_count m
unfolding wins
winner-Leads m distinct won =
    let q = compare_counts start m in
    let beats = compare_counts-Beats start m distinct in
    let untied : q.tied ≡ false = ground (arith, won) in
    let positive : 0 < q.best_count = ground (arith, won) in
    record {
      counted = elim (beats.counted untied) [
        | inl e ↦ absurd (omega (arith, e, positive))
        | inr f ↦ f
      ];
      others = λ y d ne f.
          let (le, eq) = beats.others y d f in
          ground (arith, le, (λ (e : d ≡ q.best_count). ne (eq untied e)));
    }

SameMap-sym : (m n : Store String ℕ) → SameMap m n → SameMap n m
SameMap-sym m n h = record {
  left_distinct = h.right_distinct;
  right_distinct = h.left_distinct;
  same = λ x. sym (h.same x);
}

-- A winner in one order wins in the other.
wins_again :
    (m n : Store String ℕ)
    → SameMap m n
    → wins (compare_counts start m) ≡ true
    → (wins (compare_counts start n) ≡ true)
      × ((compare_counts start n).best ≡ (compare_counts start m).best)
wins_again m n h won =
    let q = compare_counts start m in
    let leads = winner-Leads m h.left_distinct won in
    let positive : 0 < q.best_count = unfold wins in ground (arith, won) in
    let again : compare_counts start n
        ≡ record { best = q.best; best_count = q.best_count; tied = false } =
      leader_wins start q.best q.best_count n h.right_distinct positive (record {
        counted = h.same q.best ∙ leads.counted;
        others = λ y d ne f. leads.others y d ne (sym (h.same y) ∙ f);
      }) in
    (ap wins again ∙ unfold wins in ground (arith, positive), ap (λ p. p.best) again)

winner-wins : (p : Plurality) → wins p ≡ true → winner p ≡ p.best
unfolding wins
winner-wins p h = rw h refl

winner-loses : (p : Plurality) → wins p ≡ false → winner p ≡ ""
unfolding wins
winner-loses p h = rw h refl

winner-SameMap :
    (m n : Store String ℕ)
    → SameMap m n
    → winner (compare_counts start n) ≡ winner (compare_counts start m)
winner-SameMap m n h = elim (Bool-cases (wins (compare_counts start m))) [
  | inl won ↦
      let (again, same) = wins_again m n h won in
      winner-wins _ again ∙ same ∙ sym (winner-wins _ won)
  | inr lost ↦ elim (Bool-cases (wins (compare_counts start n))) [
    | inl won ↦ let (again, _) = wins_again n m (SameMap-sym m n h) won in absurd (cc (again, lost))
    | inr lost' ↦ winner-loses _ lost' ∙ sym (winner-loses _ lost)
  ]
]

-- Without a gold verdict, the loop over the counts gives the same winning answer in whatever order
-- it meets the entries of the map, each of them once.
pub winning_answer_any_order :
    (answers : List GateAnswer) (counts : Store String ℕ)
    → SameMap (count_answers answers []) counts
    → winner (compare_counts start counts) ≡ winning_answer "" answers
unfolding winning_answer plurality
winning_answer_any_order answers counts h = winner-SameMap (count_answers answers []) counts h
