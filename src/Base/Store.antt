-- ===== src/Base/Store.antt =====
-- `collections.Map` of the Cosmos SDK, as the keeper uses it: `Get`, `Set`, `Remove`, `Has` and a
-- `Walk` over the entries in ascending key order. The entries are kept in that order: a new key
-- goes before the first larger one. The laws hold for every list of entries.
pub mod Laws
pub mod Entries
pub mod Distinct
pub mod Rebuild
use ag3nt_coin.Base.Tests.{◌==◌, ltb, if◌then◌else◌, ==_iff}
use Prim.Native.Nat.{ℕ, ◌+◌, Ordering}
use Prim.Native.String.{String}
use Prim.Native.String
use mathlib.Core.Path.{◌≡◌}
use mathlib.Core.Logic.{◌↔◌}
use mathlib.Core.Bool.{Bool, true, false}
use mathlib.Core.Option.{Option, none, some}
use mathlib.Core.List.{List, [], ◌∷◌}
use text.Mathlib.Text.{◌==◌ as str_eq}
use text.Mathlib.TextEquality.{eq_iff}

-- What a key codec gives: equality, and the order of the encoded keys.
pub record Key (K : Type 0) : Type 0 where
  pub beq : K → K → Bool
  pub before : K → K → Bool
  pub beq_iff : (a b : K) → (beq a b ≡ true) ↔ (a ≡ b)

-- `collections.Uint64Key`
instance abbrev pub uint_key : Key ℕ
uint_key = record { beq = λ a b. a == b; before = ltb; beq_iff = ==_iff }

-- `collections.StringKey`
instance abbrev pub string_key : Key String
string_key = record {
  beq = str_eq;
  before = λ a b. elim (String.compare a b) [ Ordering.lt ↦ true | _ ↦ false ];
  beq_iff = eq_iff;
}

abbrev pub Store : Type 0 → Type 0 → Type 0
Store K V = List (K × V)

abbrev pub value_or_zero : {V : Type 0} → (V → ℕ) → Option V → ℕ
value_or_zero f none = 0
value_or_zero f (some v) = f v

module _ {K V : Type 0} ⦃key : Key K⦄ where
  unfoldable pub get : K → Store K V → Option V
  get k [] = none
  get k ((j, v) ∷ m) = if key.beq j k then some v else get k m

  unfoldable pub has : K → Store K V → Bool
  unfolding get
  has k m = elim (get k m) [ none ↦ false | some _ ↦ true ]

  replace : K → V → Store K V → Store K V
  replace k v [] = []
  replace k v ((j, w) ∷ m) = if key.beq j k then (k, v) ∷ m else (j, w) ∷ replace k v m

  insert : K → V → Store K V → Store K V
  insert k v [] = (k, v) ∷ []
  insert k v ((j, w) ∷ m) = if key.before k j then (k, v) ∷ (j, w) ∷ m else (j, w) ∷ insert k v m

  unfoldable pub set : K → V → Store K V → Store K V
  unfolding replace insert has
  set k v m = if has k m then replace k v m else insert k v m

  unfoldable pub remove : K → Store K V → Store K V
  remove k [] = []
  remove k ((j, w) ∷ m) = if key.beq j k then m else (j, w) ∷ remove k m

  -- The first entry, in key order, whose value passes the test.
  unfoldable pub find : (V → Bool) → Store K V → Option (K × V)
  find p [] = none
  find p ((k, v) ∷ m) = if p v then some (k, v) else find p m

  -- The values in key order.
  unfoldable pub values : Store K V → List V
  values [] = []
  values ((k, v) ∷ m) = v ∷ values m

  -- The keys in their order.
  unfoldable pub keys : Store K V → List K
  keys [] = []
  keys ((k, v) ∷ m) = k ∷ keys m

  unfoldable pub sum : (V → ℕ) → Store K V → ℕ
  sum f [] = 0
  sum f ((k, v) ∷ m) = f v + sum f m

  -- The loop `for _, v := range vs { Set(key(v), v) }`.
  unfoldable pub set_all : (V → K) → List V → Store K V → Store K V
  set_all id [] m = m
  set_all id (v ∷ vs) m = set_all id vs (set (id v) v m)
