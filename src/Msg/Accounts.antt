-- ===== src/Msg/Accounts.antt =====
-- msg_server_register.go, msg_server_faucet.go and msg_server_transfer.go of
-- chain/x/agntcoin/keeper.
use ag3nt_coin.Base.{ℕ, String, Bool, true, false, Option, none, some, not, ltb, ◌==◌, str_eq}
use ag3nt_coin.Base.Words.{sub64}
use ag3nt_coin.Exec.{
  Exec, bad_address, invalid_request, insufficient_funds, raise, gets, or_raise, raise_if, modify,
  ◌>>=◌, ◌>>◌,
}
use ag3nt_coin.Types.{Account}
use ag3nt_coin.Keeper.{State, Env, read, account_of, put_account}
use ag3nt_coin.Keeper.Credit.{check_new_account_credit, credit_account}

pub record MsgTransfer : Type 0 where
  pub creator : String
  pub to_addr : String
  pub amount : ℕ
  pub memo : String

abbrev already_registered : Option Account → Bool
already_registered none = false
already_registered (some a) = a.registered

unfoldable pub register : Env → String → Exec State (Unit {0})
register env creator = do
  or_raise (env.string_to_bytes creator) bad_address
  existing ← gets (account_of creator)
  raise_if (already_registered existing) invalid_request
  modify (
      put_account creator (record {
        address = creator;
        balance = 0;
        nonce = 0;
        registered = true;
        faucet_claimed = false;
      }))

-- The one-shot faucet is switched off.
unfoldable pub faucet : Exec State (Unit {0})
faucet = raise invalid_request

unfoldable pub transfer : Env → MsgTransfer → Exec State (Unit {0})
transfer env msg = do
  or_raise (env.string_to_bytes msg.creator) bad_address
  to_bytes ← or_raise (env.string_to_bytes msg.to_addr) bad_address
  raise_if (msg.amount == 0) invalid_request
  raise_if (str_eq msg.creator msg.to_addr) invalid_request
  from ← read (account_of msg.creator) invalid_request
  raise_if (not from.registered) invalid_request
  raise_if (ltb from.balance msg.amount) insufficient_funds
  check_new_account_credit msg.to_addr msg.amount
  modify (put_account msg.creator (record from { balance = sub64 from.balance msg.amount }))
  credit_account env msg.to_addr to_bytes msg.amount
