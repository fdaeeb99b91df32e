-- ===== src/Rules/Plurality.antt =====
-- The winning answer of a gate (Msg/Gates.antt) against an independent count.
use mathlib.Core.Path.{subst}
use ag3nt_coin.Base.{
  ap, eq_refl, ℕ, suc, ◌+◌, ◌≤◌, ◌<◌, ◌≡◌, ◌≢◌, refl, sym, String, true, false, not, none, some,
  List, [], ◌∷◌, arith, ◌⊎◌, inl, inr, Bool-cases, Option-cases, ◌&&◌, str_eq, eq_iff, ltb, ◌==◌,
  if◌then◌else◌,
}
use ag3nt_coin.Base.Store
use ag3nt_coin.Base.Store.{Store, string_key, value_or_zero}
use ag3nt_coin.Base.Store.Laws.{get-set_self, get-set_ne}
use ag3nt_coin.Base.Store.Distinct.{IsDistinct, set-IsDistinct}
use ag3nt_coin.Types.{GateAnswer}
use ag3nt_coin.Msg.Gates.{
  count_answers, Plurality, compare_count, compare_counts, plurality, winning_answer,
}

-- How many revealed answers are `x`.
unfoldable pub count_of : String → List GateAnswer → ℕ
count_of x [] = 0
count_of x (a ∷ rest) =
    let n = count_of x rest in if a.revealed && str_eq a.answer x then suc n else n

-- One more of `y`.
abbrev counted_once : String → Store String ℕ → Store String ℕ
counted_once y m = Store.set y (suc (value_or_zero (λ n. n) (Store.get y m))) m

counted_once_self :
    (x y : String) (m : Store String ℕ)
    → str_eq y x ≡ true
    → value_or_zero (λ n. n) (Store.get x (counted_once y m))
      ≡ suc (value_or_zero (λ n. n) (Store.get x m))
counted_once_self x y m here =
    subst
      (λ z.
        value_or_zero (λ n. n) (Store.get z (counted_once y m))
        ≡ suc (value_or_zero (λ n. n) (Store.get z m)))
      ((eq_iff y x).0 here)
      (ap (value_or_zero (λ n. n))
        (get-set_self y (suc (value_or_zero (λ n. n) (Store.get y m))) m))

counted_once_ne :
    (x y : String) (m : Store String ℕ)
    → str_eq y x ≡ false
    → value_or_zero (λ n. n) (Store.get x (counted_once y m))
      ≡ value_or_zero (λ n. n) (Store.get x m)
counted_once_ne x y m away = ap (value_or_zero (λ n. n)) (
    get-set_ne x y (suc (value_or_zero (λ n. n) (Store.get y m))) m
      (λ same. cc (away, (eq_iff y x).1 (sym same))))

-- The collected counts are the independent ones.
count_answers-eq :
    (x : String) (answers : List GateAnswer) (m : Store String ℕ)
    → value_or_zero (λ n. n) (Store.get x (count_answers answers m))
      ≡ count_of x answers + value_or_zero (λ n. n) (Store.get x m)
unfolding count_answers count_of
count_answers-eq x [] m = omega arith
count_answers-eq x (a ∷ rest) m = elim (Bool-cases a.revealed) [
  | inl revealed ↦ rw revealed (elim (Bool-cases (str_eq a.answer x)) [
    | inl here ↦ rw here (
        omega (
          arith,
          count_answers-eq x rest (counted_once a.answer m),
          counted_once_self x a.answer m here,
        ))
    | inr away ↦ rw away (
        omega (
          arith,
          count_answers-eq x rest (counted_once a.answer m),
          counted_once_ne x a.answer m away,
        ))
  ])
  | inr hidden ↦ rw hidden (count_answers-eq x rest m)
]

pub count_answers-IsDistinct :
    (answers : List GateAnswer) (m : Store String ℕ)
    → IsDistinct m
    → IsDistinct (count_answers answers m)
unfolding count_answers
count_answers-IsDistinct [] m h = h
count_answers-IsDistinct (a ∷ rest) m h = elim (Bool-cases a.revealed) [
  | inl revealed ↦ rw revealed (count_answers-IsDistinct rest _ (set-IsDistinct a.answer _ m h))
  | inr hidden ↦ rw hidden (count_answers-IsDistinct rest m h)
]

-- What holds of the best count after the loop, `p` before it and `q` after it.
pub record Beats (p q : Plurality) (m : Store String ℕ) : Type 0 where
  pub grows : p.best_count ≤ q.best_count
  pub kept : q.tied ≡ false → q.best_count ≡ p.best_count → (q.best ≡ p.best) × (p.tied ≡ false)
  pub others :
      (x : String) (c : ℕ)
      → Store.get x m ≡ some c
      → (c ≤ q.best_count) × (q.tied ≡ false → c ≡ q.best_count → x ≡ q.best)
  pub counted :
      q.tied ≡ false → (q.best_count ≡ p.best_count) ⊎ (Store.get q.best m ≡ some q.best_count)

-- One round of the loop, in three cases.
pub data Round (p : Plurality) (x : String) (c : ℕ) : Plurality → Type 0 where
  larger : p.best_count < c → Round p x c (record { best = x; best_count = c; tied = false })
  equal : c ≡ p.best_count → Round p x c (record p { tied = true })
  smaller : c < p.best_count → Round p x c p

pub compare_count-Round : (p : Plurality) (x : String) (c : ℕ) → Round p x c (compare_count p x c)
unfolding compare_count
compare_count-Round p x c = elim (Bool-cases (ltb p.best_count c)) [
  | inl h ↦ rw h (larger (ground arith))
  | inr h ↦ rw h (elim (Bool-cases (c == p.best_count)) [
    | inl k ↦ rw k (equal (ground arith))
    | inr k ↦ rw k (smaller (ground arith))
  ])
]

pub get-cons :
    (y x : String) (c d : ℕ) (m : Store String ℕ)
    → Store.get y ((x, c) ∷ m) ≡ some d
    → ((y ≡ x) × (d ≡ c)) ⊎ (Store.get y m ≡ some d)
unfolding Store.get
get-cons y x c d m h = elim (Bool-cases (str_eq x y)) [
  | inl here ↦ inl (sym ((eq_iff x y).0 here), (let e : some c ≡ some d = rw here at h in cc))
  | inr away ↦ inr (rw away at h)
]

pub get-cons_later :
    (y x : String) (c d : ℕ) (m : Store String ℕ)
    → Store.get x m ≡ none
    → Store.get y m ≡ some d
    → Store.get y ((x, c) ∷ m) ≡ some d
unfolding Store.get
get-cons_later y x c d m new h = elim (Bool-cases (str_eq x y)) [
  | inl here ↦ let same = (eq_iff x y).0 here in absurd (cc (same, new, h))
  | inr away ↦ rw away h
]

pub get-cons_here : (x : String) (c : ℕ) (m : Store String ℕ) → Store.get x ((x, c) ∷ m) ≡ some c
unfolding Store.get
get-cons_here x c m = rw (eq_refl x) refl

compare_count-Beats :
    (p r q : Plurality) (x : String) (c : ℕ) (m : Store String ℕ)
    → Store.get x m ≡ none
    → Round p x c r
    → Beats r q m
    → Beats p q ((x, c) ∷ m)
compare_count-Beats p _ q x c m new (larger lt) h = record {
  grows = omega (arith, lt, h.grows);
  kept = λ t e. absurd (omega (arith, lt, h.grows, e));
  others = λ y d f. elim (get-cons y x c d m f) [
    | inl (yx, dc) ↦
        (omega (arith, dc, h.grows), λ t e. let same = (h.kept t (omega (arith, e, dc))).0 in cc)
    | inr later ↦ h.others y d later
  ];
  counted = λ t. elim (h.counted t) [
    | inl e ↦ let same = (h.kept t e).0 in inr (cc (get-cons_here x c m, same, e))
    | inr f ↦ inr (get-cons_later q.best x c q.best_count m new f)
  ];
}
compare_count-Beats p _ q x c m new (equal eq) h = record {
  grows = h.grows;
  kept = λ t e. let tied = (h.kept t e).1 in absurd (cc tied);
  others = λ y d f. elim (get-cons y x c d m f) [
    | inl (yx, dc) ↦ (
      omega (arith, eq, dc, h.grows),
      λ t e. let tied = (h.kept t (omega (arith, e, dc, eq))).1 in absurd (cc tied),
    )
    | inr later ↦ h.others y d later
  ];
  counted = λ t. elim (h.counted t) [
    | inl e ↦ inl e
    | inr f ↦ inr (get-cons_later q.best x c q.best_count m new f)
  ];
}
compare_count-Beats p _ q x c m new (smaller lt) h = record {
  grows = h.grows;
  kept = h.kept;
  others = λ y d f. elim (get-cons y x c d m f) [
    | inl (yx, dc) ↦
        (omega (arith, lt, dc, h.grows), λ t e. absurd (omega (arith, lt, dc, h.grows, e)))
    | inr later ↦ h.others y d later
  ];
  counted = λ t. elim (h.counted t) [
    | inl e ↦ inl e
    | inr f ↦ inr (get-cons_later q.best x c q.best_count m new f)
  ];
}

pub no_entry : (x : String) (c : ℕ) → ¬ (Store.get x [] ≡ some c)
unfolding Store.get
no_entry x c h = cc

pub compare_counts-Beats :
    (p : Plurality) (m : Store String ℕ) → IsDistinct m → Beats p (compare_counts p m) m
unfolding compare_counts
compare_counts-Beats p [] distinct = record {
  grows = omega arith;
  kept = λ t e. (refl, t);
  others = λ x c f. absurd (no_entry x c f);
  counted = λ t. inl refl;
}
compare_counts-Beats p ((x, c) ∷ m) distinct =
    compare_count-Beats p (compare_count p x c) _ x c m distinct.0 (compare_count-Round p x c)
      (compare_counts-Beats (compare_count p x c) m distinct.1)

lt_of_ne : {a b c d : ℕ} → a ≡ c → b ≡ d → c ≤ d → c ≢ d → a < b
lt_of_ne e f le ne = ground (arith, e, f, le, ne)

counts : List GateAnswer → Store String ℕ
counts answers = count_answers answers []

counts-eq :
    (x : String) (answers : List GateAnswer)
    → value_or_zero (λ n. n) (Store.get x (counts answers)) ≡ count_of x answers
unfolding counts Store.get
counts-eq x answers = omega (arith, count_answers-eq x answers [])

counts-some :
    (x : String) (answers : List GateAnswer) (c : ℕ)
    → Store.get x (counts answers) ≡ some c
    → count_of x answers ≡ c
counts-some x answers c e = sym (rw e at (counts-eq x answers))

counts-none :
    (x : String) (answers : List GateAnswer)
    → Store.get x (counts answers) ≡ none
    → count_of x answers ≡ 0
counts-none x answers e = sym (rw e at (counts-eq x answers))

plurality-Beats :
    (answers : List GateAnswer)
    → Beats
        (record { best = ""; best_count = 0; tied = false })
        (plurality answers)
        (counts answers)
unfolding plurality counts
plurality-Beats answers = compare_counts-Beats _ _ (count_answers-IsDistinct answers [] tt)

-- The best answer, where it is not tied and was given at all, was given more often than any other.
best_leads :
    (answers : List GateAnswer) (x : String)
    → (plurality answers).tied ≡ false
    → 0 < (plurality answers).best_count
    → x ≢ (plurality answers).best
    → count_of x answers < count_of (plurality answers).best answers
best_leads answers x untied given other =
    let q = plurality answers in
    let beats = plurality-Beats answers in
    elim (beats.counted untied) [
      | inl e ↦ absurd (omega (arith, e, given))
      | inr f ↦
          let most = counts-some q.best answers q.best_count f in
          elim (Option-cases (Store.get x (counts answers))) [
            | inl e ↦ omega (arith, counts-none x answers e, most, given)
            | inr (c, e) ↦
                let (le, same) = beats.others x c e in
                lt_of_ne (counts-some x answers c e) most le (λ eq. other (same untied eq))
          ]
    ]

-- Without a gold verdict, an answer that wins was revealed strictly more often than every other
-- answer, by an independent count.
pub winning_answer_leads :
    (answers : List GateAnswer) (x : String)
    → str_eq (winning_answer "" answers) "" ≡ false
    → x ≢ winning_answer "" answers
    → count_of x answers < count_of (winning_answer "" answers) answers
unfolding winning_answer
winning_answer_leads answers x won other =
    let q = plurality answers in
    elim (Bool-cases (not q.tied && ltb 0 q.best_count)) [
      | inl leads ↦
          let best : x ≢ q.best = rw leads at other in
          rw leads (best_leads answers x (ground arith) (ground arith) best)
      | inr trails ↦ let none_won : str_eq "" "" ≡ false = rw trails at won in absurd (cc none_won)
    ]
