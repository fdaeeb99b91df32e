-- ===== src/Keeper/Credit.antt =====
-- chain/x/agntcoin/keeper/credit.go: paying into an account that may not exist yet.
use ag3nt_coin.Base.{
  ℕ, String, Bool, true, false, Option, none, some, ◌∷◌, ◌&&◌, not, ltb, if◌then◌else◌,
}
use ag3nt_coin.Base.Words.{add64}
use ag3nt_coin.Exec.{Exec, invalid_request, gets, raise_if, modify, ◌>>=◌, ◌>>◌}
use ag3nt_coin.Types.{Account, min_new_account_credit}
use ag3nt_coin.Keeper.Defs.{State, Env}
use ag3nt_coin.Keeper.Collections.{account_of, put_account}

-- Whether the spam guard refuses the payment: the account is new, and the amount below the minimum.
unfoldable pub is_dust : Option Account → ℕ → Bool
is_dust none amount = ltb amount min_new_account_credit
is_dust (some a) amount = false

-- The record that a payment starts from: a new one, or the old one marked as registered.
unfoldable pub opened : String → Option Account → Account
opened addr none = record {
  address = addr;
  balance = 0;
  nonce = 0;
  registered = true;
  faucet_claimed = false;
}
opened addr (some a) = record a { registered = true }

unfoldable pub check_new_account_credit : String → ℕ → Exec State (Unit {0})
check_new_account_credit addr amount = do
  to ← gets (account_of addr)
  raise_if (is_dust to amount) invalid_request

-- The recipient gets an x/auth account if it has none.
unfoldable pub ensure_auth_account : Env → String → State → State
ensure_auth_account env bytes s = record s {
  auth_created =
      if env.has_auth_keeper && not (env.has_auth_account s.auth_created bytes)
      then bytes ∷ s.auth_created
      else s.auth_created;
}

unfoldable pub credit_account : Env → String → String → ℕ → Exec State (Unit {0})
credit_account env addr bytes amount = do
  to ← gets (account_of addr)
  raise_if (is_dust to amount) invalid_request
  modify (ensure_auth_account env bytes)
  modify (
      put_account addr
        (record (opened addr to) { balance = add64 (opened addr to).balance amount }))

unfoldable pub ensure_registered : Env → String → String → ℕ → Exec State (Unit {0})
ensure_registered env addr bytes guard_amount = do
  to ← gets (account_of addr)
  raise_if (is_dust to guard_amount) invalid_request
  modify (ensure_auth_account env bytes)
  modify (put_account addr (opened addr to))
