-- ===== src/Exec.antt =====
-- The control flow of a handler in chain/x/agntcoin/keeper: reads and writes of the keeper's store,
-- with an error that ends the handler at once. Go returns the error beside whatever was written
-- before it, so both outcomes carry the store.
pub mod Returns
pub mod Keeps
use ag3nt_coin.Base.{ℕ, Bool, true, false, Option, none, some}

-- The classes of error that the handlers wrap (`sdkerrors.Err…`); the messages are not modelled.
pub data Error : Type 0 where
  bad_address invalid_request unauthorized insufficient_funds key_not_found io invalid_signer :
      Error

pub data Outcome (S A : Type 0) : Type 0 where
  ok : A → S → Outcome S A
  err : Error → S → Outcome S A

abbrev pub Exec : Type 0 → Type 0 → Type 0
Exec S A = S → Outcome S A

-- The store after a handler, and whether it succeeded.
abbrev pub final : {S A : Type 0} → Outcome S A → S
final (ok a s) = s
final (err e s) = s

abbrev pub succeeds : {S A : Type 0} → Outcome S A → Bool
succeeds (ok a s) = true
succeeds (err e s) = false

module _ {S A : Type 0} where
  unfoldable pub pure : A → Exec S A
  pure a s = ok a s

  unfoldable pub raise : Error → Exec S A
  raise e s = err e s

  unfoldable pub gets : (S → A) → Exec S A
  gets f s = ok (f s) s

  -- `x, err := …; if err != nil { return err }`
  unfoldable pub or_raise : Option A → Error → Exec S A
  or_raise none e s = err e s
  or_raise (some a) e s = ok a s

module _ {S : Type 0} where
  -- `if test { return err }`
  unfoldable pub raise_if : Bool → Error → Exec S (Unit {0})
  raise_if true e s = err e s
  raise_if false e s = ok tt s

  unfoldable pub modify : (S → S) → Exec S (Unit {0})
  modify f s = ok tt (f s)

module _ {S A B : Type 0} where
  abbrev pub continue : Outcome S A → (A → Exec S B) → Outcome S B
  continue (ok a s) f = f a s
  continue (err e s) f = err e s

  infixl 5 ◌>>=◌ ◌>>◌
  unfoldable pub ◌>>=◌ : Exec S A → (A → Exec S B) → Exec S B
  unfolding pure raise gets or_raise raise_if modify
  ◌>>=◌ m f s = continue (m s) f

  abbrev pub ◌>>◌ : Exec S A → Exec S B → Exec S B
  m >> n = m >>= λ _. n
