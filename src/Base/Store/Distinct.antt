-- ===== src/Base/Store/Distinct.antt =====
-- Collections in which no key stands twice: writes and removals keep that, and a walk finds what a
-- read finds.
use ag3nt_coin.Base.{
  ◌≡◌, refl, sym, Bool, false, none, some, [], ◌∷◌, arith, inl, inr, Bool-cases, Option-cases,
}
use ag3nt_coin.Base.Store.{Key, Store, get, has, replace, insert, set, remove, find}
use ag3nt_coin.Base.Store.Laws.{beq_ne}
use mathlib.Core.Path.{subst}

abbrev pub IsDistinct : {K V : Type 0} ⦃key : Key K⦄ → Store K V → Type 0
IsDistinct [] = Unit
IsDistinct ((k, v) ∷ m) = (get k m ≡ none) × IsDistinct m

module _ {K : Type 0} ⦃key : Key K⦄ where
  beq_sym : (j k : K) → key.beq j k ≡ false → key.beq k j ≡ false
  beq_sym j k h = beq_ne k j (λ e. cc (h, (key.beq_iff j k).1 (sym e)))

module _ {K V : Type 0} ⦃key : Key K⦄ where
  get-replace-none :
      (j k : K) (v : V) (m : Store K V) → get j m ≡ none → get j (replace k v m) ≡ none
  unfolding get replace
  get-replace-none j k v [] h = refl
  get-replace-none j k v ((i, w) ∷ m) h =
      ground (arith, get-replace-none j k v m, key.beq_iff i k, key.beq_iff i j, key.beq_iff k j)

  replace-IsDistinct : (k : K) (v : V) (m : Store K V) → IsDistinct m → IsDistinct (replace k v m)
  unfolding replace
  replace-IsDistinct k v [] h = tt
  replace-IsDistinct k v ((j, w) ∷ m) h = elim (Bool-cases (key.beq j k)) [
    | inl here ↦ rw here (subst (λ x. get x m ≡ none) ((key.beq_iff j k).0 here) h.0, h.1)
    | inr away ↦ rw away (get-replace-none j k v m h.0, replace-IsDistinct k v m h.1)
  ]

  get-insert-none :
      (j k : K) (v : V) (m : Store K V)
      → key.beq k j ≡ false
      → get j m ≡ none
      → get j (insert k v m) ≡ none
  unfolding get insert
  get-insert-none j k v [] ne h = ground arith
  get-insert-none j k v ((i, w) ∷ m) ne h = ground (arith, get-insert-none j k v m)

  -- A key that is not found differs from the first one, and is not found further on.
  get-cons_none :
      (j k : K) (v : V) (m : Store K V)
      → get j ((k, v) ∷ m) ≡ none
      → (key.beq k j ≡ false) × (get j m ≡ none)
  unfolding get
  get-cons_none j k v m h = ground arith

  insert-IsDistinct :
      (k : K) (v : V) (m : Store K V) → get k m ≡ none → IsDistinct m → IsDistinct (insert k v m)
  unfolding insert
  insert-IsDistinct k v [] new h = (unfold get in refl, tt)
  insert-IsDistinct k v ((j, w) ∷ m) new h = elim (Bool-cases (key.before k j)) [
    | inl here ↦ rw here (new, h)
    | inr away ↦
        let (ne, rest) = get-cons_none k j w m new in
        rw away (get-insert-none j k v m (beq_sym j k ne) h.0, insert-IsDistinct k v m rest h.1)
  ]

  pub set-IsDistinct : (k : K) (v : V) (m : Store K V) → IsDistinct m → IsDistinct (set k v m)
  unfolding set
  set-IsDistinct k v m h = elim (Option-cases (get k m)) [
    | inl new ↦ rw (new, has) (insert-IsDistinct k v m new h)
    | inr (w, old) ↦ rw (old, has) (replace-IsDistinct k v m h)
  ]

  get-remove-none : (j k : K) (m : Store K V) → get j m ≡ none → get j (remove k m) ≡ none
  unfolding get remove
  get-remove-none j k [] h = refl
  get-remove-none j k ((i, w) ∷ m) h = ground (arith, get-remove-none j k m)

  pub remove-IsDistinct : (k : K) (m : Store K V) → IsDistinct m → IsDistinct (remove k m)
  unfolding remove
  remove-IsDistinct k [] h = tt
  remove-IsDistinct k ((j, w) ∷ m) h = elim (Bool-cases (key.beq j k)) [
    | inl here ↦ rw here h.1
    | inr away ↦ rw away (get-remove-none j k m h.0, remove-IsDistinct k m h.1)
  ]

  -- After the removal the key is gone.
  pub get-remove_self : (k : K) (m : Store K V) → IsDistinct m → get k (remove k m) ≡ none
  unfolding get remove
  get-remove_self k [] h = refl
  get-remove_self k ((j, w) ∷ m) h = elim (Bool-cases (key.beq j k)) [
    | inl here ↦ rw here (subst (λ x. get x m ≡ none) ((key.beq_iff j k).0 here) h.0)
    | inr away ↦ rw (away, away) (get-remove_self k m h.1)
  ]

  -- What a walk finds under a key is what a read of the key gives.
  pub find-get :
      (p : V → Bool) (m : Store K V) (k : K) (v : V)
      → IsDistinct m
      → find p m ≡ some (k, v)
      → get k m ≡ some v
  unfolding find get
  find-get p [] k v h e = cc
  find-get p ((j, w) ∷ m) k v h e = elim (Bool-cases (p w)) [
    | inl here ↦ ground (arith, key.beq_iff j k)
    | inr away ↦ ground (arith, find-get p m k v h.1, key.beq_iff j k, h.0)
  ]
