-- ===== src/Tests/Lives.antt =====
-- The theorems on the life of an escrow, applied on the small chain.
use ag3nt_coin.Keeper.Credit.{check_new_account_credit, credit_account, is_dust}
use ag3nt_coin.Base.{true, false, some, refl, ◌≡◌, ◌||◌}
use ag3nt_coin.Base.Store
use ag3nt_coin.Exec.{succeeds, final, ok, ◌>>=◌}
use ag3nt_coin.Exec.Returns.{Returns-final}
use ag3nt_coin.Keeper.{State, escrow_of, read}
use ag3nt_coin.Types.{Escrow, EscrowStatus, is_released, is_challenged}
use ag3nt_coin.Msg.Escrows.{release_escrow, is_releasable, pay_payee, release_refused}
use ag3nt_coin.Chain.{Message, handle, Run, nothing, then}
use ag3nt_coin.Life.{Evolves}
use ag3nt_coin.Life.Runs.{handle-Evolves, Arrives, Run-Arrives, refunded_forever, paid_forever}
use ag3nt_coin.Rules.Verifiers.{no_auto_release_forever}
use ag3nt_coin.Tests.Fixtures.{
  env, env_at, escrow_0, escrow_2, escrow_3, escrow_4, store, store-IsWellFormed, store-IsValid,
}

abbrev a_release : Message
a_release = Message.msg_release_escrow "alice" 0

abbrev later : State
later = final (handle env a_release store)

release_succeeds : succeeds (handle env a_release store) ≡ true
unfolding handle release_escrow ◌>>=◌ read Store.get is_releasable release_refused pay_payee
    check_new_account_credit is_dust credit_account
release_succeeds = refl

handle-Evolves_example : Evolves store later
handle-Evolves_example =
    Returns-final (handle env a_release store)
      (handle-Evolves env a_release store store-IsWellFormed) release_succeeds

release_runs : handle env a_release store ≡ ok tt later
unfolding handle release_escrow ◌>>=◌ read Store.get is_releasable release_refused pay_payee
    check_new_account_credit is_dust credit_account
release_runs = refl

run : Run store later
run = then nothing env a_release release_runs

Run-Arrives_example : Arrives 0 escrow_0 later
Run-Arrives_example = Run-Arrives run store-IsValid 0 escrow_0 (unfold Store.get in refl)

refunded_forever_example :
    (e : Escrow) × (escrow_of 3 later ≡ some e) × (e.status ≡ EscrowStatus.refunded)
refunded_forever_example =
    refunded_forever run store-IsValid 3 escrow_3 (unfold Store.get in refl) refl

paid_forever_example :
    (e : Escrow) × (escrow_of 4 later ≡ some e)
    × ((is_released e.status || is_challenged e.status) ≡ true)
paid_forever_example = paid_forever run store-IsValid 4 escrow_4 (unfold Store.get in refl) refl

no_auto_release_forever_example : succeeds (release_escrow (env_at 9000) "bob" 2 later) ≡ false
no_auto_release_forever_example =
    no_auto_release_forever run store-IsValid 2 escrow_2 (unfold Store.get in refl) refl
      (env_at 9000) "bob" refl
