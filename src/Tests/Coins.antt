-- ===== src/Tests/Coins.antt =====
-- The theorems on the coins, applied to the runs of the handlers on the small chain.
use ag3nt_coin.Msg.Jury.{dispute_purpose, juror_purpose}
use ag3nt_coin.Keeper.Anchors.{resolve_anchors}
use ag3nt_coin.Base.Text.{format_uint}
use ag3nt_coin.Supply.Records.{register-Slashes}
use ag3nt_coin.Supply.Verdict.{resolve_dispute-Conserves}
use ag3nt_coin.Rules.Stakes.Resolved.{Settled, resolve_dispute-Settled}
use ag3nt_coin.Supply.Bonds.{Slashes, slash_bond-Slashes}
use ag3nt_coin.Msg.Verdict.{
  resolve_dispute, quorum_of, count_votes, settle_escrow, verdict, finish_dispute,
  settle_dispute_bond, settle_if_live, bond_recipient, first_passed, opener_upheld,
  settle_attestations, settle_stake, settle_votes, settled_status, winner_of,
}
use ag3nt_coin.Msg.Verifiers.{live_bond, if_live, attestation_purpose}
use ag3nt_coin.Msg.Escrows.{pay_payee, pay_payer}
use ag3nt_coin.Msg.Bonds.{MsgSlashBond, slash_bond, pay_beneficiary, settle_bond}
use ag3nt_coin.Keeper.Credit.{
  check_new_account_credit, credit_account, is_dust, ensure_auth_account, opened,
}
use ag3nt_coin.Base.Store
use ag3nt_coin.Keeper.{read}
use ag3nt_coin.Base.{true, refl, ◌≡◌}
use ag3nt_coin.Exec.{succeeds, final, ◌>>=◌, gets, modify, or_raise, pure, raise_if}
use ag3nt_coin.Exec.Returns.{Returns-final}
use ag3nt_coin.Msg.Accounts.{register}
use ag3nt_coin.Supply.Steps.{Conserves}
use ag3nt_coin.Tests.Fixtures.{env, store, store-IsWellFormed, store_fits}

resolve_dispute-succeeds : succeeds (resolve_dispute env "dave" 0 store) ≡ true
unfolding resolve_dispute ◌>>=◌ read Store.get quorum_of resolve_anchors count_votes settle_escrow
    verdict pay_payee check_new_account_credit is_dust credit_account finish_dispute
    settle_dispute_bond settle_if_live live_bond if_live Store.has Store.set format_uint gets modify
    or_raise pure raise_if ensure_auth_account opened settle_bond pay_payer dispute_purpose
    juror_purpose bond_recipient first_passed opener_upheld settle_attestations settle_stake
    settle_votes settled_status winner_of attestation_purpose
resolve_dispute-succeeds = refl

resolve_dispute-Conserves_example : Conserves store (final (resolve_dispute env "dave" 0 store))
resolve_dispute-Conserves_example =
    Returns-final (resolve_dispute env "dave" 0 store)
      (resolve_dispute-Conserves store store-IsWellFormed store_fits env "dave" 0)
      resolve_dispute-succeeds

resolve_dispute-Settled_example : Settled 0 store (final (resolve_dispute env "dave" 0 store))
resolve_dispute-Settled_example =
    Returns-final (resolve_dispute env "dave" 0 store)
      (resolve_dispute-Settled store env "dave" 0 store-IsWellFormed) resolve_dispute-succeeds

abbrev burning : MsgSlashBond
burning = record { creator = "bob"; id = 2; beneficiary = "" }

slash_bond-succeeds : succeeds (slash_bond env burning store) ≡ true
unfolding slash_bond ◌>>=◌ read Store.get pay_beneficiary
slash_bond-succeeds = refl

slash_bond-Slashes_example : Slashes 50 store (final (slash_bond env burning store))
unfolding Store.get
slash_bond-Slashes_example =
    Returns-final (slash_bond env burning store)
      (slash_bond-Slashes store store-IsWellFormed store_fits env burning) slash_bond-succeeds

register-succeeds : succeeds (register env "dave" store) ≡ true
unfolding register ◌>>=◌ Store.get
register-succeeds = refl

register-Slashes_example : Slashes 0 store (final (register env "dave" store))
unfolding Store.get
register-Slashes_example =
    Returns-final (register env "dave" store) (register-Slashes store store-IsWellFormed env "dave")
      register-succeeds
