-- ===== src/Msg/Vouches.antt =====
-- msg_server_castvouch.go and msg_server_unvouch.go of chain/x/agntcoin/keeper.
use ag3nt_coin.Base.{ℕ, String, Option, none, some, not, ltb, ◌&&◌, ◌||◌, str_eq}
use ag3nt_coin.Base.Words.{add64, sub64}
use ag3nt_coin.Base.Store
use ag3nt_coin.Base.Store.{uint_key}
use ag3nt_coin.Exec.{
  Exec, bad_address, invalid_request, insufficient_funds, key_not_found, io, gets, or_raise,
  raise_if, modify, ◌>>=◌, ◌>>◌,
}
use ag3nt_coin.Types.{Account, Vouch, max_vouch_weight, min_vouch_stake}
use ag3nt_coin.Keeper.{State, Env, read, account_of, put_account, put_vouch, add_vouch}

pub record MsgCastvouch : Type 0 where
  pub creator : String
  pub to_addr : String
  pub weight : ℕ
  pub stake : ℕ

-- The walk over the vouches: the first one from `from` for `to`, under its key.
unfoldable pub find_vouch : String → String → State → Option (ℕ × Vouch)
find_vouch from to s = Store.find (λ v. str_eq v.from_addr from && str_eq v.to_addr to) s.vouch

-- The entry replaces the one that was found, or gets a new id.
unfoldable pub upsert_vouch : MsgCastvouch → Option (ℕ × Vouch) → State → State
upsert_vouch msg none s =
    add_vouch
      (λ id. record {
        id = id;
        from_addr = msg.creator;
        to_addr = msg.to_addr;
        weight = msg.weight;
        stake = msg.stake;
      })
      s
upsert_vouch msg (some (id, v)) s =
    put_vouch id
      (record {
        id = id;
        from_addr = msg.creator;
        to_addr = msg.to_addr;
        weight = msg.weight;
        stake = msg.stake;
      })
      s

-- `from.Balance`, with the stake of the vouch that was found given back.
unfoldable pub refunded_balance : Account → Option (ℕ × Vouch) → ℕ
refunded_balance from none = from.balance
refunded_balance from (some (id, v)) = add64 from.balance v.stake

unfoldable pub castvouch : Env → MsgCastvouch → Exec State (Unit {0})
castvouch env msg = do
  or_raise (env.string_to_bytes msg.creator) bad_address
  or_raise (env.string_to_bytes msg.to_addr) bad_address
  raise_if (str_eq msg.creator msg.to_addr) invalid_request
  raise_if (ltb msg.weight 1 || ltb max_vouch_weight msg.weight) invalid_request
  raise_if (ltb msg.stake min_vouch_stake) invalid_request
  from ← read (account_of msg.creator) invalid_request
  raise_if (not from.registered) invalid_request
  to ← read (account_of msg.to_addr) invalid_request
  raise_if (not to.registered) invalid_request
  found ← gets (find_vouch msg.creator msg.to_addr)
  raise_if (ltb (refunded_balance from found) msg.stake) insufficient_funds
  modify (
      put_account msg.creator
        (record from { balance = sub64 (refunded_balance from found) msg.stake }))
  modify (upsert_vouch msg found)

unfoldable pub remove_vouch : ℕ → State → State
remove_vouch id s = record s { vouch = Store.remove id s.vouch }

unfoldable pub unvouch : Env → String → String → Exec State (Unit {0})
unvouch env creator to_addr = do
  or_raise (env.string_to_bytes creator) bad_address
  or_raise (env.string_to_bytes to_addr) bad_address
  (id, v) ← read (find_vouch creator to_addr) key_not_found
  from ← read (account_of creator) io
  modify (put_account creator (record from { balance = add64 from.balance v.stake }))
  modify (remove_vouch id)
