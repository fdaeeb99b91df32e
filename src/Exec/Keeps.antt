-- ===== src/Exec/Keeps.antt =====
-- Properties of the store that a handler keeps, whether it succeeds or not: one rule for each way
-- to build a handler.
use ag3nt_coin.Exec.Returns.{Returns, Returns-ok, success, failure}
use ag3nt_coin.Base.{refl, Bool, true, false, Option, none, some, if◌then◌else◌}
use ag3nt_coin.Exec.{
  Error, Outcome, Exec, final, pure, raise, gets, or_raise, raise_if, modify, ◌>>=◌, continue,
}

-- Whatever the outcome of the handler, it is at a store where the property holds, if it began at one.
pub record Keeps {S A : Type 0} (P : S → Type 0) (handler : Exec S A) : Type 0 where
  pub carries : (before : S) → P before → P (final (handler before))

module _ {S : Type 0} {P : S → Type 0} where
  pub Keeps-modify : (write : S → S) → ((s : S) → P s → P (write s)) → Keeps P (modify write)
  unfolding modify
  Keeps-modify write kept = record { carries = kept }

  pub Keeps-raise_if : (test : Bool) (e : Error) → Keeps P (raise_if test e)
  unfolding raise_if
  Keeps-raise_if true e = record { carries = λ _ p. p }
  Keeps-raise_if false e = record { carries = λ _ p. p }

module _ {S A B : Type 0} {P : S → Type 0} where
  continue-Keeps :
      (first : Outcome S A) (next : A → Exec S B)
      → P (final first)
      → ((a : A) → Keeps P (next a))
      → P (final (continue first next))
  continue-Keeps (Outcome.ok a s) next p k = (k a).carries s p
  continue-Keeps (Outcome.err e s) next p k = p

  pub Keeps-bind :
      (first : Exec S A) (next : A → Exec S B)
      → Keeps P first
      → ((a : A) → Keeps P (next a))
      → Keeps P (first >>= next)
  unfolding ◌>>=◌
  Keeps-bind first next j k = record {
    carries = λ before p. continue-Keeps (first before) next (j.carries before p) k;
  }

module _ {S A : Type 0} {P : S → Type 0} where
  pub Keeps-or_raise : (found : Option A) (e : Error) → Keeps P (or_raise found e)
  unfolding or_raise
  Keeps-or_raise none e = record { carries = λ _ p. p }
  Keeps-or_raise (some a) e = record { carries = λ _ p. p }

  pub Keeps-gets : (view : S → A) → Keeps P (gets view)
  unfolding gets
  Keeps-gets view = record { carries = λ _ p. p }

  pub Keeps-raise : (e : Error) → Keeps P (raise {A = A} e)
  unfolding raise
  Keeps-raise e = record { carries = λ _ p. p }

  pub Keeps-if :
      (test : Bool) (m n : Exec S A) → Keeps P m → Keeps P n → Keeps P (if test then m else n)
  Keeps-if true m n j k = j
  Keeps-if false m n j k = k

  pub Keeps-pure : (result : A) → Keeps P (pure result)
  unfolding pure
  Keeps-pure result = record { carries = λ _ p. p }

-- A handler that keeps a property keeps it where it succeeds.
pub Keeps-Returns :
    {S A : Type 0} {P : S → Type 0} (m : Exec S A) (s : S)
    → Keeps P m
    → P s
    → Returns (λ _ s'. P s') (m s)
Keeps-Returns {S} {A} {P} m s k h = go (m s) (k.carries s h)
  where
    go : (o : Outcome S A) → P (final o) → Returns (λ _ s'. P s') o
    go (Outcome.ok a t) p = success p
    go (Outcome.err e t) p = failure

-- A property of the store that a handler keeps, with a fact about its result when it succeeds.
pub record Yields {S A : Type 0} (P : S → Type 0) (Q : A → Type 0) (handler : Exec S A)
    : Type 0 where
  pub kept : (before : S) → P before → P (final (handler before))
  pub result : (before : S) → P before → Returns (λ a _. Q a) (handler before)

module _ {S A B : Type 0} {P : S → Type 0} (Q : A → Type 0) where
  continue-Yields :
      (first : Outcome S A) (next : A → Exec S B)
      → P (final first)
      → Returns (λ a _. Q a) first
      → ((a : A) → Q a → Keeps P (next a))
      → P (final (continue first next))
  continue-Yields (Outcome.ok a s) next p r k = (k a (Returns-ok _ r refl)).carries s p
  continue-Yields (Outcome.err e s) next p r k = p

  pub Keeps-known :
      (first : Exec S A) (next : A → Exec S B)
      → Yields P Q first
      → ((a : A) → Q a → Keeps P (next a))
      → Keeps P (first >>= next)
  unfolding ◌>>=◌
  Keeps-known first next y k = record {
    carries =
        λ before p. continue-Yields (first before) next (y.kept before p) (y.result before p) k;
  }

module _ {S A : Type 0} {P : S → Type 0} {Q : A → Type 0} where
  pub Yields-pure : (a : A) → Q a → Yields P Q (pure a)
  unfolding pure
  Yields-pure a q = record { kept = λ _ p. p; result = λ _ p. success q }

  pub Yields-if :
      (test : Bool) (m n : Exec S A)
      → Yields P Q m
      → Yields P Q n
      → Yields P Q (if test then m else n)
  Yields-if true m n j k = j
  Yields-if false m n j k = k

module _ {S A B : Type 0} {P : S → Type 0} {Q : B → Type 0} where
  continue-result :
      (first : Outcome S A) (next : A → Exec S B)
      → P (final first)
      → ((a : A) → Yields P Q (next a))
      → Returns (λ b _. Q b) (continue first next)
  continue-result (Outcome.ok a s) next p k = (k a).result s p
  continue-result (Outcome.err e s) next p k = failure

  pub Yields-bind :
      (first : Exec S A) (next : A → Exec S B)
      → Keeps P first
      → ((a : A) → Yields P Q (next a))
      → Yields P Q (first >>= next)
  unfolding ◌>>=◌
  Yields-bind first next j k = record {
    kept =
        λ s p. continue-Keeps (first s) next (j.carries s p) (λ a. record { carries = (k a).kept });
    result = λ s p. continue-result (first s) next (j.carries s p) k;
  }

pub ruleset keeps_rules = (
  Keeps-bind, Keeps-modify, Keeps-if, Keeps-or_raise, Keeps-raise_if, Keeps-raise, Keeps-gets,
  Keeps-pure,
)
