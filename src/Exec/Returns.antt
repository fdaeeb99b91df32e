-- ===== src/Exec/Returns.antt =====
-- What holds of a handler's result when it succeeds, with one rule for each way to build a
-- handler. A proof walks through the handler's lines in their order.
use ag3nt_coin.Base.{sym, ◌≡◌, refl, Bool, true, false, Option, none, some}
use mathlib.Core.Path.{subst}
use ag3nt_coin.Exec.{
  Error, Outcome, ok, err, Exec, final, succeeds, pure, raise, gets, or_raise, raise_if, modify,
  ◌>>=◌, continue,
}

-- The outcome is an error, or its result and its store satisfy `Q`.
pub data Returns {S A : Type 0} (Q : A → S → Type 0) : Outcome S A → Type 0 where
  success : {a : A} {s : S} → Q a s → Returns Q (ok a s)
  failure : {e : Error} {s : S} → Returns Q (err e s)

abbrev pub OnSuccess : {S A : Type 0} → (A → S → Type 0) → Outcome S A → Type 0
OnSuccess Q (ok a s) = Q a s
OnSuccess Q (err e s) = Unit

Returns-OnSuccess :
    {S A : Type 0} {Q : A → S → Type 0} (o : Outcome S A) → Returns Q o → OnSuccess Q o
Returns-OnSuccess o (success h) = h
Returns-OnSuccess o failure = tt

-- What is known of a handler, at a run that succeeded.
pub Returns-ok :
    {S A : Type 0} {Q : A → S → Type 0} (o : Outcome S A) {a : A} {s : S}
    → Returns Q o
    → o ≡ ok a s
    → Q a s
Returns-ok {Q} o r e = subst (OnSuccess Q) e (Returns-OnSuccess o r)

-- What is known of a handler, at the store that it leaves, where errors keep the fact too.
pub Returns-weaken :
    {S A : Type 0} {P Q : A → S → Type 0} {o : Outcome S A}
    → ((a : A) (s : S) → P a s → Q a s)
    → Returns P o
    → Returns Q o
Returns-weaken h (success p) = success (h _ _ p)
Returns-weaken h failure = failure

module _ {S A : Type 0} {Q : A → S → Type 0} where
  pub Returns-pure : (a : A) (s : S) → Q a s → Returns Q (pure a s)
  unfolding pure
  Returns-pure a s h = success h

  pub Returns-raise : (e : Error) (s : S) → Returns Q (raise e s)
  unfolding raise
  Returns-raise e s = failure

  pub Returns-raise_if :
      (b : Bool) (e : Error) (f : Unit {0} → Exec S A) (s : S)
      → (b ≡ false → Returns Q (f tt s))
      → Returns Q ((raise_if b e >>= f) s)
  unfolding ◌>>=◌
  Returns-raise_if true e f s h = failure
  Returns-raise_if false e f s h = h refl

  pub Returns-modify :
      (g : S → S) (f : Unit {0} → Exec S A) (s : S)
      → Returns Q (f tt (g s))
      → Returns Q ((modify g >>= f) s)
  unfolding ◌>>=◌
  Returns-modify g f s h = h

module _ {S A B : Type 0} {Q : B → S → Type 0} where
  pub Returns-gets :
      (g : S → A) (f : A → Exec S B) (s : S) → Returns Q (f (g s) s) → Returns Q ((gets g >>= f) s)
  unfolding ◌>>=◌
  Returns-gets g f s h = h

  pub Returns-or_raise :
      (o : Option A) (e : Error) (f : A → Exec S B) (s : S)
      → ((a : A) → o ≡ some a → Returns Q (f a s))
      → Returns Q ((or_raise o e >>= f) s)
  unfolding ◌>>=◌
  Returns-or_raise none e f s h = failure
  Returns-or_raise (some a) e f s h = h a refl

  -- A step whose outcome is known.
  pub Returns-step :
      (m : Exec S A) (f : A → Exec S B) (s : S) {a : A} {s' : S}
      → m s ≡ ok a s'
      → Returns Q (f a s')
      → Returns Q ((m >>= f) s)
  unfolding ◌>>=◌
  Returns-step m f s e h = rw e h

  -- A call of another handler, of which `P` is known.
  pub Returns-call :
      (P : A → S → Type 0) (m : Exec S A) (f : A → Exec S B) (s : S)
      → Returns P (m s)
      → ((a : A) (s' : S) → P a s' → Returns Q (f a s'))
      → Returns Q ((m >>= f) s)
  unfolding ◌>>=◌
  Returns-call P m f s r h = go (m s) r
    where
      go : (o : Outcome S A) → Returns P o → Returns Q (continue o f)
      go o (success p) = h _ _ p
      go o failure = failure

  -- A call of which nothing is known.
  pub Returns-any :
      (m : Exec S A) (f : A → Exec S B) (s : S)
      → ((a : A) (s' : S) → Returns Q (f a s'))
      → Returns Q ((m >>= f) s)
  unfolding ◌>>=◌
  Returns-any m f s h = go (m s)
    where
      go : (o : Outcome S A) → Returns Q (continue o f)
      go (ok a s') = h a s'
      go (err e s') = failure

  -- A call that leaves a known store if it succeeds.
  pub Returns-becomes :
      (t : S) (m : Exec S A) (f : A → Exec S B) (s : S)
      → Returns (λ _ s'. s' ≡ t) (m s)
      → ((a : A) → Returns Q (f a t))
      → Returns Q ((m >>= f) s)
  Returns-becomes t m f s r h =
      Returns-call (λ _ s'. s' ≡ t) m f s r λ a s' e. subst (λ x. Returns Q (f a x)) (sym e) (h a)

-- A last test keeps the store.
pub Returns-refuse :
    {S : Type 0} (b : Bool) (e : Error) (s : S) → Returns (λ _ s'. s' ≡ s) (raise_if b e s)
unfolding raise_if
Returns-refuse true e s = failure
Returns-refuse false e s = success refl

-- What is known of a handler, at a run that is seen to succeed.
pub Returns-final :
    {S A : Type 0} {Q : S → Type 0} (o : Outcome S A)
    → Returns (λ _ s'. Q s') o
    → succeeds o ≡ true
    → Q (final o)
Returns-final o (success q) h = q
Returns-final o failure h = cc

-- A fact that does not depend on the result holds where the handler succeeds.
pub Returns-known :
    {S A : Type 0} {Q : Type 0} (o : Outcome S A) → Returns (λ _ _. Q) o → succeeds o ≡ true → Q
Returns-known o (success q) h = q
Returns-known o failure h = cc

-- What holds anyway.
pub Returns-anyway : {S A : Type 0} {Q : Type 0} (o : Outcome S A) → Q → Returns (λ _ _. Q) o
Returns-anyway (ok a s) q = success q
Returns-anyway (err e s) q = failure
