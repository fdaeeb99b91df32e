-- ===== src/Msg/Bonds.antt =====
-- msg_server_post_bond.go, msg_server_release_bond.go and msg_server_slash_bond.go of
-- chain/x/agntcoin/keeper.
use ag3nt_coin.Base.{ℕ, String, not, ltb, ◌==◌, str_eq, if◌then◌else◌}
use ag3nt_coin.Base.Words.{add64, sub64}
use ag3nt_coin.Exec.{
  Exec, bad_address, invalid_request, insufficient_funds, key_not_found, unauthorized, io, pure,
  gets, or_raise, raise_if, modify, ◌>>=◌, ◌>>◌,
}
use ag3nt_coin.Types.{Account, Bond, BondStatus, is_active}
use ag3nt_coin.Keeper.{State, Env, read, account_of, put_account, bond_of, put_bond, add_bond}
use ag3nt_coin.Keeper.Credit.{check_new_account_credit, credit_account}

pub record MsgPostBond : Type 0 where
  pub creator : String
  pub amount : ℕ
  pub purpose : String
  pub slasher : String
  pub ref : String

pub record MsgSlashBond : Type 0 where
  pub creator : String
  pub id : ℕ
  pub beneficiary : String

-- The stake is taken from the poster's balance and locked in a new active bond, whose id is
-- returned: the steps that PostBond, AttestEscrow, OpenDispute and CastVote have in common.
unfoldable pub lock_bond : Account → String → ℕ → String → String → String → Exec State ℕ
lock_bond poster creator amount purpose slasher ref = do
  modify (put_account creator (record poster { balance = sub64 poster.balance amount }))
  id ← gets (λ s. s.bond_seq)
  modify (
      add_bond λ id. record {
        id = id;
        poster = creator;
        amount = amount;
        purpose = purpose;
        slasher = slasher;
        status = BondStatus.active;
        ref = ref;
      })
  pure id

unfoldable pub post_bond : Env → MsgPostBond → Exec State ℕ
post_bond env msg = do
  or_raise (env.string_to_bytes msg.creator) bad_address
  or_raise (env.string_to_bytes msg.slasher) bad_address
  raise_if (msg.amount == 0) invalid_request
  raise_if (str_eq msg.creator msg.slasher) invalid_request
  poster ← read (account_of msg.creator) invalid_request
  raise_if (not poster.registered) invalid_request
  raise_if (ltb poster.balance msg.amount) insufficient_funds
  lock_bond poster msg.creator msg.amount msg.purpose msg.slasher msg.ref

-- The collateral goes to `recipient`, whose account must exist, and the bond is closed with
-- `status`: the steps by which ReleaseBond, ReclaimAttestationBonds and ResolveDispute settle.
unfoldable pub settle_bond : String → BondStatus → Bond → Exec State (Unit {0})
settle_bond recipient status bond = do
  acct ← read (account_of recipient) io
  modify (put_account recipient (record acct { balance = add64 acct.balance bond.amount }))
  modify (put_bond bond.id (record bond { status = status }))

unfoldable pub release_bond : Env → String → ℕ → Exec State (Unit {0})
release_bond env creator id = do
  or_raise (env.string_to_bytes creator) bad_address
  bond ← read (bond_of id) key_not_found
  raise_if (not (is_active bond.status)) invalid_request
  raise_if (not (str_eq creator bond.slasher)) unauthorized
  settle_bond bond.poster BondStatus.released bond

-- An empty beneficiary burns the collateral.
unfoldable pub pay_beneficiary : Env → String → ℕ → Exec State (Unit {0})
pay_beneficiary env beneficiary amount = if str_eq beneficiary "" then pure tt else do
  bytes ← or_raise (env.string_to_bytes beneficiary) bad_address
  check_new_account_credit beneficiary amount
  credit_account env beneficiary bytes amount

unfoldable pub slash_bond : Env → MsgSlashBond → Exec State (Unit {0})
slash_bond env msg = do
  or_raise (env.string_to_bytes msg.creator) bad_address
  bond ← read (bond_of msg.id) key_not_found
  raise_if (not (is_active bond.status)) invalid_request
  raise_if (not (str_eq msg.creator bond.slasher)) unauthorized
  pay_beneficiary env msg.beneficiary bond.amount
  modify (put_bond bond.id (record bond { status = BondStatus.slashed }))
