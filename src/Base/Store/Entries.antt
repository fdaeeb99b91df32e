-- ===== src/Base/Store/Entries.antt =====
-- A property of all the entries of a keyed collection, under reads and writes.
use ag3nt_coin.Base.Store.{Key, Store, get, has, replace, insert, set, remove}
use ag3nt_coin.Base.{◌≡◌, inl, inr, some, [], ◌∷◌, Bool-cases}
use mathlib.Core.Path.{subst}

abbrev pub All : {K V : Type 0} → (K → V → Type 0) → Store K V → Type 0
All P [] = Unit
All P ((k, v) ∷ m) = P k v × All P m

module _ {K V : Type 0} ⦃key : Key K⦄ (P : K → V → Type 0) where
  pub All-get : (k : K) (v : V) (m : Store K V) → All P m → get k m ≡ some v → P k v
  unfolding get
  All-get k v [] h e = cc
  All-get k v ((j, w) ∷ m) h e = elim (Bool-cases (key.beq j k)) [
    | inl here ↦
        let same : some w ≡ some v = rw here at e in
        subst (λ x. P x v) ((key.beq_iff j k).0 here) (subst (P j) (cc) h.0)
    | inr away ↦ All-get k v m h.1 (rw away at e)
  ]

  All-replace : (k : K) (v : V) (m : Store K V) → All P m → P k v → All P (replace k v m)
  unfolding replace
  All-replace k v [] h p = tt
  All-replace k v ((j, w) ∷ m) h p = elim (Bool-cases (key.beq j k)) [
    | inl here ↦ rw here (p, h.1)
    | inr away ↦ rw away (h.0, All-replace k v m h.1 p)
  ]

  All-insert : (k : K) (v : V) (m : Store K V) → All P m → P k v → All P (insert k v m)
  unfolding insert
  All-insert k v [] h p = (p, tt)
  All-insert k v ((j, w) ∷ m) h p = elim (Bool-cases (key.before k j)) [
    | inl here ↦ rw here (p, h)
    | inr away ↦ rw away (h.0, All-insert k v m h.1 p)
  ]

  pub All-set : (k : K) (v : V) (m : Store K V) → All P m → P k v → All P (set k v m)
  unfolding set
  All-set k v m h p = elim (Bool-cases (has k m)) [
    | inl old ↦ rw old (All-replace k v m h p)
    | inr new ↦ rw new (All-insert k v m h p)
  ]

  pub All-remove : (k : K) (m : Store K V) → All P m → All P (remove k m)
  unfolding remove
  All-remove k [] h = tt
  All-remove k ((j, w) ∷ m) h = elim (Bool-cases (key.beq j k)) [
    | inl here ↦ rw here h.1
    | inr away ↦ rw away (h.0, All-remove k m h.1)
  ]

pub All-weaken :
    {K V : Type 0} (P Q : K → V → Type 0)
    → ((k : K) (v : V) → P k v → Q k v)
    → (m : Store K V) → All P m
    → All Q m
All-weaken P Q f [] h = tt
All-weaken P Q f ((k, v) ∷ m) h = (f k v h.0, All-weaken P Q f m h.1)
