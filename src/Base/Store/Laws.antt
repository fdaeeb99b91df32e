-- ===== src/Base/Store/Laws.antt =====
-- Laws of the keyed collections of Base/Store.antt: what a read sees after a write, and how a sum
-- over the values changes.
use ag3nt_coin.Base.Tests.{Bool-cases, Option-cases, if◌then◌else◌}
use ag3nt_coin.Base.Store.{
  Bool, find, Key, Store, get, has, replace, insert, set, remove, sum, value_or_zero,
}
use Prim.Native.Nat.{ℕ, ◌+◌, ◌≤◌}
use mathlib.Core.Path.{◌≡◌, refl, sym, ap, ◌∙◌, subst}
use mathlib.Core.Logic.{◌≢◌, inl, inr}
use mathlib.Core.Bool.{true, false, ◌||◌}
use mathlib.Core.Option.{Option, none, some}
use mathlib.Core.List.{[], ◌∷◌}
use native.Mathlib.Omega.{arith}

module _ {K : Type 0} ⦃key : Key K⦄ where
  pub beq_refl : (k : K) → key.beq k k ≡ true
  beq_refl k = (key.beq_iff k k).1 refl

  pub beq_ne : (j k : K) → j ≢ k → key.beq j k ≡ false
  beq_ne j k h = elim (Bool-cases (key.beq j k)) [
    | inl e ↦ absurd (h ((key.beq_iff j k).0 e))
    | inr e ↦ e
  ]

module _ {K V : Type 0} ⦃key : Key K⦄ where
  get-replace_self :
      (k : K) (v w : V) (m : Store K V) → get k m ≡ some w → get k (replace k v m) ≡ some v
  unfolding get replace
  get-replace_self k v w [] h = cc
  get-replace_self k v w ((j, x) ∷ m) h = ground (arith, beq_refl k, get-replace_self k v w m)

  get-replace_ne : (j k : K) (v : V) (m : Store K V) → j ≢ k → get j (replace k v m) ≡ get j m
  unfolding get replace
  get-replace_ne j k v [] h = refl
  get-replace_ne j k v ((i, x) ∷ m) h =
      ground (arith, beq_ne k j (λ e. h (sym e)), key.beq_iff i k, get-replace_ne j k v m h)

  get-insert_self : (k : K) (v : V) (m : Store K V) → get k m ≡ none → get k (insert k v m) ≡ some v
  unfolding get insert
  get-insert_self k v [] h = ground (arith, beq_refl k)
  get-insert_self k v ((j, x) ∷ m) h = ground (arith, beq_refl k, get-insert_self k v m)

  get-insert_ne : (j k : K) (v : V) (m : Store K V) → j ≢ k → get j (insert k v m) ≡ get j m
  unfolding get insert
  get-insert_ne j k v [] h = ground (arith, beq_ne k j (λ e. h (sym e)))
  get-insert_ne j k v ((i, x) ∷ m) h =
      ground (arith, beq_ne k j (λ e. h (sym e)), get-insert_ne j k v m h)

  -- A read of the key that was written.
  pub get-set_self : (k : K) (v : V) (m : Store K V) → get k (set k v m) ≡ some v
  unfolding set
  get-set_self k v m = elim (Option-cases (get k m)) [
    | inl e ↦ rw (e, has) (get-insert_self k v m e)
    | inr (w, e) ↦ rw (e, has) (get-replace_self k v w m e)
  ]

  -- A read of another key.
  pub get-set_ne : (j k : K) (v : V) (m : Store K V) → j ≢ k → get j (set k v m) ≡ get j m
  unfolding set
  get-set_ne j k v m h = elim (Bool-cases (has k m)) [
    | inl e ↦ rw e (get-replace_ne j k v m h)
    | inr e ↦ rw e (get-insert_ne j k v m h)
  ]

  -- A read of any key.
  pub get-set :
      (j k : K) (v : V) (m : Store K V)
      → get j (set k v m) ≡ (if key.beq j k then some v else get j m)
  get-set j k v m = elim (Bool-cases (key.beq j k)) [
    | inl here ↦ rw here (
        subst (λ i. get i (set k v m) ≡ some v) (sym ((key.beq_iff j k).0 here))
          (get-set_self k v m))
    | inr away ↦
        let other : j ≢ k = λ e. cc (away, (key.beq_iff j k).1 e) in
        rw away (get-set_ne j k v m other)
  ]

  pub get-remove_ne : (j k : K) (m : Store K V) → j ≢ k → get j (remove k m) ≡ get j m
  unfolding get remove
  get-remove_ne j k [] h = refl
  get-remove_ne j k ((i, x) ∷ m) h =
      ground (arith, beq_ne k j (λ e. h (sym e)), key.beq_iff i k, get-remove_ne j k m h)

  sum-replace :
      (f : V → ℕ) (k : K) (v w : V) (m : Store K V)
      → get k m ≡ some w
      → sum f (replace k v m) + f w ≡ sum f m + f v
  unfolding get replace sum
  sum-replace f k v w [] h = cc
  sum-replace f k v w ((j, x) ∷ m) h = ground (arith, sum-replace f k v w m)

  sum-insert : (f : V → ℕ) (k : K) (v : V) (m : Store K V) → sum f (insert k v m) ≡ sum f m + f v
  unfolding insert sum
  sum-insert f k v [] = omega arith
  sum-insert f k v ((j, x) ∷ m) = ground (arith, sum-insert f k v m)

  -- A write replaces the old value, or zero, by the new one in the sum.
  pub sum-set :
      (f : V → ℕ) (k : K) (v : V) (m : Store K V)
      → sum f (set k v m) + value_or_zero f (get k m) ≡ sum f m + f v
  unfolding set
  sum-set f k v m = elim (Option-cases (get k m)) [
    | inl e ↦ rw (e, has) (omega (arith, sum-insert f k v m))
    | inr (w, e) ↦ rw (e, has) (sum-replace f k v w m e)
  ]

  -- One value is at most the sum.
  pub le-sum : (f : V → ℕ) (k : K) (m : Store K V) → value_or_zero f (get k m) ≤ sum f m
  unfolding get sum
  le-sum f k [] = omega arith
  le-sum f k ((j, x) ∷ m) = ground (arith, le-sum f k m)

  -- The same where the key has a value, and where it has none.
  pub sum-set-some :
      (f : V → ℕ) (k : K) (v w : V) (m : Store K V)
      → get k m ≡ some w
      → sum f (set k v m) + f w ≡ sum f m + f v
  sum-set-some f k v w m e = rw e at (sum-set f k v m)

  pub sum-set-none :
      (f : V → ℕ) (k : K) (v : V) (m : Store K V)
      → get k m ≡ none
      → sum f (set k v m) ≡ sum f m + f v
  sum-set-none f k v m e =
      let h : sum f (set k v m) + 0 ≡ sum f m + f v = rw e at (sum-set f k v m) in omega arith

  pub le-sum-some : (f : V → ℕ) (k : K) (v : V) (m : Store K V) → get k m ≡ some v → f v ≤ sum f m
  le-sum-some f k v m e = rw e at (le-sum f k m)

  pub sum-remove :
      (f : V → ℕ) (k : K) (m : Store K V) → sum f (remove k m) + value_or_zero f (get k m) ≡ sum f m
  unfolding get remove sum
  sum-remove f k [] = omega arith
  sum-remove f k ((j, x) ∷ m) = ground (arith, sum-remove f k m)

  pub sum-remove-some :
      (f : V → ℕ) (k : K) (v : V) (m : Store K V)
      → get k m ≡ some v
      → sum f (remove k m) + f v ≡ sum f m
  sum-remove-some f k v m e = rw e at (sum-remove f k m)

  -- A walk that stops finds a stored value that passes the test.
  pub find_passes :
      (p : V → Bool) (m : Store K V) (k : K) (v : V) → find p m ≡ some (k, v) → p v ≡ true
  unfolding find
  find_passes p [] k v h = cc
  find_passes p ((j, w) ∷ m) k v h = ground (arith, find_passes p m k v)

  find-insert :
      (p : V → Bool) (k : K) (v : V) (m : Store K V)
      → p v ≡ true
      → (e : K × V) × (find p (insert k v m) ≡ some e)
  unfolding find insert
  find-insert p k v [] h = ((k, v), rw h refl)
  find-insert p k v ((j, w) ∷ m) h = elim (Bool-cases (key.before k j)) [
    | inl first ↦ rw first (rw h ((k, v), refl))
    | inr later ↦ elim (Bool-cases (p w)) [
      | inl passes ↦ rw later (rw passes ((j, w), refl))
      | inr fails ↦ rw later (rw fails (find-insert p k v m h))
    ]
  ]

  find-replace :
      (p : V → Bool) (k : K) (v : V) (m : Store K V)
      → p v ≡ true
      → has k m ≡ true
      → (e : K × V) × (find p (replace k v m) ≡ some e)
  unfolding find replace has get
  find-replace p k v [] h there = absurd (cc there)
  find-replace p k v ((j, w) ∷ m) h there = elim (Bool-cases (key.beq j k)) [
    | inl same ↦ rw same (rw h ((k, v), refl))
    | inr other ↦ elim (Bool-cases (p w)) [
      | inl passes ↦ rw other (rw passes ((j, w), refl))
      | inr fails ↦
          let behind : has k m ≡ true = rw (has, get, other) at there in
          rw other (rw fails (find-replace p k v m h behind))
    ]
  ]

  -- A walk for what a written value passes finds an entry.
  pub find-set :
      (p : V → Bool) (k : K) (v : V) (m : Store K V)
      → p v ≡ true
      → (e : K × V) × (find p (set k v m) ≡ some e)
  unfolding set
  find-set p k v m h = elim (Bool-cases (has k m)) [
    | inl there ↦ rw there (find-replace p k v m h there)
    | inr new ↦ rw new (find-insert p k v m h)
  ]

  pub has-set_self : (k : K) (v : V) (m : Store K V) → has k (set k v m) ≡ true
  unfolding has
  has-set_self k v m = rw (get-set_self k v m, has) refl

  has_ne : (j k : K) (v : V) (m : Store K V) → j ≢ k → has j (set k v m) ≡ has j m
  unfolding has
  has_ne j k v m other = ap found (get-set_ne j k v m other)
    where
      found : Option V → Bool
      found o = elim o [ none ↦ false | some _ ↦ true ]

  -- A write removes no key.
  pub has-set : (j k : K) (v : V) (m : Store K V) → has j m ≡ true → has j (set k v m) ≡ true
  has-set j k v m h = elim (Bool-cases (key.beq j k)) [
    | inl here ↦
        subst (λ x. has x (set k v m) ≡ true) (sym ((key.beq_iff j k).0 here)) (has-set_self k v m)
    | inr away ↦ has_ne j k v m (λ e. cc (away, (key.beq_iff j k).1 e)) ∙ h
  ]

  -- After a write the key is there, and else what was there.
  pub has-set-eq : (j k : K) (v : V) (m : Store K V) → has j (set k v m) ≡ (key.beq k j || has j m)
  has-set-eq j k v m = elim (Bool-cases (key.beq k j)) [
    | inl here ↦
        rw here
          (subst (λ x. has x (set k v m) ≡ true) ((key.beq_iff k j).0 here) (has-set_self k v m))
    | inr away ↦ rw away (has_ne j k v m (λ e. cc (away, (key.beq_iff k j).1 (sym e))))
  ]

  -- A walk that found nothing finds a new value that passes.
  find-insert_only :
      (p : V → Bool) (k : K) (v : V) (m : Store K V)
      → find p m ≡ none
      → p v ≡ true
      → find p (insert k v m) ≡ some (k, v)
  unfolding find insert
  find-insert_only p k v [] e h = rw h refl
  find-insert_only p k v ((j, w) ∷ m) e h = elim (Bool-cases (p w)) [
    | inl passes ↦ let impossible : some (j, w) ≡ none = rw passes at e in absurd (cc impossible)
    | inr fails ↦
        let rest : find p m ≡ none = rw fails at e in
        elim (Bool-cases (key.before k j)) [
          | inl first ↦ rw first (rw h refl)
          | inr later ↦ rw later (rw fails (find-insert_only p k v m rest h))
        ]
  ]

  pub find-set_only :
      (p : V → Bool) (k : K) (v : V) (m : Store K V)
      → find p m ≡ none
      → p v ≡ true
      → get k m ≡ none
      → find p (set k v m) ≡ some (k, v)
  unfolding set
  find-set_only p k v m e h new = rw (new, has) (find-insert_only p k v m e h)
