-- ===== src/Invariant/Records.antt =====
-- The numbering of records is kept by an update in place, by a new record with the next id, and by
-- a removal.
use mathlib.Core.Path.{subst}
use ag3nt_coin.Base.{sym, ℕ, ◌+◌, ◌<◌, ◌≡◌, some, none, arith, inl, inr, Option-cases}
use ag3nt_coin.Base.Store
use ag3nt_coin.Base.Store.{Store, uint_key}
use ag3nt_coin.Base.Store.Entries.{All-get, All-set, All-remove, All-weaken}
use ag3nt_coin.Invariant.{HasId, IsNumbered}

module _ {V : Type 0} (id : V → ℕ) (next : ℕ) (m : Store ℕ V) (h : IsNumbered id next m) where
  -- A record that is found has the id by which it was found.
  pub id-of-found : (k : ℕ) (v : V) → Store.get k m ≡ some v → id v ≡ k
  id-of-found k v found = (All-get (HasId id next) k v m h found).0

  pub found_at_id : (k : ℕ) (v : V) → Store.get k m ≡ some v → Store.get (id v) m ≡ some v
  found_at_id k v found = subst (λ j. Store.get j m ≡ some v) (sym (id-of-found k v found)) found

  pub found-lt-next : (k : ℕ) (v : V) → Store.get k m ≡ some v → k < next
  found-lt-next k v found = (All-get (HasId id next) k v m h found).1

  -- The next id is not in use.
  pub next_is_fresh : Store.get next m ≡ none
  next_is_fresh = elim (Option-cases (Store.get next m)) [
    | inl e ↦ e
    | inr (v, e) ↦ absurd (omega (arith, found-lt-next next v e))
  ]

  pub update-IsNumbered :
      (k : ℕ) (v w : V) → Store.get k m ≡ some w → id v ≡ k → IsNumbered id next (Store.set k v m)
  update-IsNumbered k v w found same =
      All-set (HasId id next) k v m h (same, found-lt-next k w found)

  pub add-IsNumbered : (v : V) → id v ≡ next → IsNumbered id (next + 1) (Store.set next v m)
  add-IsNumbered v same =
      All-set (HasId id (next + 1)) next v m
        (All-weaken (HasId id next) (HasId id (next + 1)) (λ k x p. (p.0, omega arith)) m h)
        (same, omega arith)

  pub remove-IsNumbered : (k : ℕ) → IsNumbered id next (Store.remove k m)
  remove-IsNumbered k = All-remove (HasId id next) k m h
