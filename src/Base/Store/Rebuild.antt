-- ===== src/Base/Store/Rebuild.antt =====
-- A collection written again, value by value, from the list of its values.
use ag3nt_coin.Base.{
  ◌≡◌, ◌≢◌, refl, sym, ap, ◌∙◌, ℕ, ◌+◌, Option, none, some, List, [], ◌∷◌, arith, inl, inr,
  Bool-cases,
}
use ag3nt_coin.Base.Store.{Key, Store, get, set, set_all, remove, values, sum}
use ag3nt_coin.Base.Store.Laws.{get-set_self, get-set_ne, sum-set-none}
use ag3nt_coin.Base.Store.Entries.{All, All-set, All-remove}
use ag3nt_coin.Base.Store.Distinct.{IsDistinct, set-IsDistinct, remove-IsDistinct}
use mathlib.Core.Path.{subst}

-- Each value stands under the key that it carries.
abbrev pub IsKeyedBy : {K V : Type 0} → (V → K) → Store K V → Type 0
IsKeyedBy id m = All (λ k v. id v ≡ k) m

-- An index of its values: each under the key that it carries, and no key twice.
pub record IsIndex {K V : Type 0} ⦃key : Key K⦄ (id : V → K) (m : Store K V) : Type 0 where
  pub keyed : IsKeyedBy id m
  pub distinct : IsDistinct m

-- The first value, or else the second.
abbrev pub or_else : {V : Type 0} → Option V → Option V → Option V
or_else none o = o
or_else (some v) o = some v

module _ {K V : Type 0} ⦃key : Key K⦄ (id : V → K) where
  -- A read after the values of `m` were written over `base`.
  get-set_all :
      (k : K) (m base : Store K V)
      → IsKeyedBy id m
      → IsDistinct m
      → get k (set_all id (values m) base) ≡ or_else (get k m) (get k base)
  unfolding set_all values get
  get-set_all k [] base keyed distinct = refl
  get-set_all k ((j, v) ∷ m) base keyed distinct =
      let later = get-set_all k m (set (id v) v base) keyed.1 distinct.1 in
      elim (Bool-cases (key.beq j k)) [
        | inl here ↦
            let same = (key.beq_iff j k).0 here in
            let gone : get k m ≡ none = subst (λ x. get x m ≡ none) same distinct.0 in
            let written : get k (set (id v) v base) ≡ some v =
              subst (λ x. get x (set (id v) v base) ≡ some v) (keyed.0 ∙ same)
                (get-set_self (id v) v base) in
            rw here (later ∙ rw (gone, written) refl)
        | inr away ↦
            let other : k ≢ id v = λ e. cc (away, (key.beq_iff j k).1 (sym (e ∙ keyed.0))) in
            rw away (later ∙ ap (or_else (get k m)) (get-set_ne k (id v) v base other))
      ]

  fresh_later :
      (j : K) (v : V) (m base : Store K V)
      → get j m ≡ none
      → All (λ k _. get k base ≡ none) m
      → All (λ k _. get k (set j v base) ≡ none) m
  unfolding get
  fresh_later j v [] base new fresh = tt
  fresh_later j v ((i, w) ∷ m) base new fresh = elim (Bool-cases (key.beq i j)) [
    | inl here ↦ let taken : some w ≡ none = rw here at new in absurd (cc taken)
    | inr away ↦
        let other : i ≢ j = λ e. cc (away, (key.beq_iff i j).1 e) in
        (get-set_ne i j v base other ∙ fresh.0, fresh_later j v m base (rw away at new) fresh.1)
  ]

  -- The sum of what was written, where nothing was overwritten.
  sum-set_all :
      (f : V → ℕ) (m base : Store K V)
      → IsKeyedBy id m
      → IsDistinct m
      → All (λ k _. get k base ≡ none) m
      → sum f (set_all id (values m) base) ≡ sum f base + sum f m
  unfolding set_all values sum
  sum-set_all f [] base keyed distinct fresh = omega arith
  sum-set_all f ((j, v) ∷ m) base keyed distinct fresh =
      let step : sum f (set (id v) v base) ≡ sum f base + f v =
        sum-set-none f (id v) v base (subst (λ x. get x base ≡ none) (sym keyed.0) fresh.0) in
      let later : All (λ k _. get k (set (id v) v base) ≡ none) m =
        fresh_later (id v) v m base (subst (λ x. get x m ≡ none) (sym keyed.0) distinct.0)
          fresh.1 in
      omega (arith, step, sum-set_all f m (set (id v) v base) keyed.1 distinct.1 later)

  -- Whatever is written, every value stands under the key that it carries, and no key twice.
  set_all-IsKeyedBy :
      (vs : List V) (m : Store K V) → IsKeyedBy id m → IsKeyedBy id (set_all id vs m)
  unfolding set_all
  set_all-IsKeyedBy [] m keyed = keyed
  set_all-IsKeyedBy (v ∷ vs) m keyed =
      set_all-IsKeyedBy vs (set (id v) v m) (All-set (λ k x. id x ≡ k) (id v) v m keyed refl)

  pub set_all-IsDistinct :
      (vs : List V) (m : Store K V) → IsDistinct m → IsDistinct (set_all id vs m)
  unfolding set_all
  set_all-IsDistinct [] m distinct = distinct
  set_all-IsDistinct (v ∷ vs) m distinct =
      set_all-IsDistinct vs (set (id v) v m) (set-IsDistinct (id v) v m distinct)

  -- So is every collection that is written value by value.
  pub set_all-IsIndex : (vs : List V) (m : Store K V) → IsIndex id m → IsIndex id (set_all id vs m)
  set_all-IsIndex vs m h = record {
    keyed = set_all-IsKeyedBy vs m h.keyed;
    distinct = set_all-IsDistinct vs m h.distinct;
  }

  pub set-IsIndex :
      (k : K) (v : V) (m : Store K V) → id v ≡ k → IsIndex id m → IsIndex id (set k v m)
  set-IsIndex k v m same h = record {
    keyed = All-set (λ j w. id w ≡ j) k v m h.keyed same;
    distinct = set-IsDistinct k v m h.distinct;
  }

  pub remove-IsIndex : (k : K) (m : Store K V) → IsIndex id m → IsIndex id (remove k m)
  remove-IsIndex k m h = record {
    keyed = All-remove (λ j w. id w ≡ j) k m h.keyed;
    distinct = remove-IsDistinct k m h.distinct;
  }

none_stored : {K V : Type 0} ⦃key : Key K⦄ (m : Store K V) → All (λ k _. get {V = V} k [] ≡ none) m
unfolding get
none_stored [] = tt
none_stored ((k, v) ∷ m) = (refl, none_stored m)

or_else-none : {V : Type 0} (o : Option V) → or_else o none ≡ o
or_else-none none = refl
or_else-none (some v) = refl

-- A collection that is written again from nothing: reads and sums are the old ones.
module _ {K V : Type 0} ⦃key : Key K⦄ (id : V → K) (m : Store K V) (h : IsIndex id m) where
  pub get-rebuilt : (k : K) → get k (set_all id (values m) []) ≡ get k m
  get-rebuilt k = get-set_all id k m [] h.keyed h.distinct ∙ unfold get in or_else-none (get k m)

  pub sum-rebuilt : (f : V → ℕ) → sum f (set_all id (values m) []) ≡ sum f m
  unfolding sum
  sum-rebuilt f = omega (arith, sum-set_all id f m [] h.keyed h.distinct (none_stored m))
