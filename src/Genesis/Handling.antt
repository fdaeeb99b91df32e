-- ===== src/Genesis/Handling.antt =====
-- The handlers that write an escrow keep the store ready for an export (Msg/Escrows.antt,
-- Msg/Verifiers.antt, Msg/Jury.antt, Msg/Verdict.antt).
use ag3nt_coin.Base.{◌≡◌, refl, ℕ, String, Bool, inl, inr, Bool-cases}
use ag3nt_coin.Exec.{Exec, modify, ◌>>=◌}
use ag3nt_coin.Exec.Keeps.{
  Keeps, Keeps-known, Yields, Yields-if, Yields-bind, Yields-pure, keeps_rules,
}
use ag3nt_coin.Types.{Escrow, EscrowStatus, Resolution}
use ag3nt_coin.Keeper.{State, Env, Keeps-read, add_escrow}
use ag3nt_coin.Msg.Escrows.{
  MsgLockEscrow, MsgSubmitEscrow, new_escrow, lock_escrow, submit_escrow, release_escrow,
  refund_escrow, dispute_escrow,
}
use ag3nt_coin.Msg.Verifiers.{MsgAttestEscrow, attested, attest_escrow, verified_release}
use ag3nt_coin.Msg.Jury.{MsgOpenDispute, freeze, open_dispute}
use ag3nt_coin.Msg.Verdict.{settle_escrow, resolve_dispute}
use ag3nt_coin.Frame.Payments
use ag3nt_coin.Frame.Handling
use ag3nt_coin.Frame.Settlements
use ag3nt_coin.Genesis.{IsReady}
use ag3nt_coin.Genesis.Kept.{IsReady-Frame, put_escrow-Keeps, add_escrow-Keeps}

new_escrow-Keeps :
    (env : Env) (msg : MsgLockEscrow) (b : Bool)
    → Keeps IsReady (modify (add_escrow (new_escrow env msg b)))
unfolding new_escrow
new_escrow-Keeps env msg b = add_escrow-Keeps _ λ id. refl

pub lock_escrow-Keeps : (env : Env) (msg : MsgLockEscrow) → Keeps IsReady (lock_escrow env msg)
unfolding lock_escrow
lock_escrow-Keeps env msg =
    search
      (
        Handling.check_terms-Keeps IsReady-Frame,
        Payments.ensure_registered-Keeps IsReady-Frame,
        new_escrow-Keeps,
        Payments.read_account-Keeps IsReady-Frame,
        Payments.put_account-Keeps IsReady-Frame,
        keeps_rules,
        Keeps-read,
      )
      depth 40 fits 8000

pub submit_escrow-Keeps :
    (env : Env) (msg : MsgSubmitEscrow) → Keeps IsReady (submit_escrow env msg)
unfolding submit_escrow
submit_escrow-Keeps env msg = search (put_escrow-Keeps, keeps_rules, Keeps-read) depth 30 fits 4000

pub release_escrow-Keeps :
    (env : Env) (creator : String) (id : ℕ) → Keeps IsReady (release_escrow env creator id)
unfolding release_escrow
release_escrow-Keeps env creator id =
    search (Payments.pay_payee-Keeps IsReady-Frame, put_escrow-Keeps, keeps_rules, Keeps-read) depth
      30 fits 4000

pub refund_escrow-Keeps :
    (env : Env) (creator : String) (id : ℕ) → Keeps IsReady (refund_escrow env creator id)
unfolding refund_escrow
refund_escrow-Keeps env creator id =
    search (Payments.pay_payer-Keeps IsReady-Frame, put_escrow-Keeps, keeps_rules, Keeps-read) depth
      30 fits 4000

pub dispute_escrow-Keeps :
    (env : Env) (creator : String) (id : ℕ) → Keeps IsReady (dispute_escrow env creator id)
unfolding dispute_escrow
dispute_escrow-Keeps env creator id =
    search (put_escrow-Keeps, keeps_rules, Keeps-read) depth 30 fits 4000

id-attested :
    (env : Env) (msg : MsgAttestEscrow) (bond_id : ℕ) (e : Escrow)
    → (attested env msg bond_id e).id ≡ e.id
unfolding attested
id-attested env msg bond_id e = elim (Bool-cases msg.passed) [
  | inl passed ↦ rw passed refl
  | inr failed ↦ rw failed refl
]

pub attest_escrow-Keeps :
    (env : Env) (msg : MsgAttestEscrow) → Keeps IsReady (attest_escrow env msg)
unfolding attest_escrow
attest_escrow-Keeps env msg =
    search
      (
        Payments.read_account-Keeps IsReady-Frame,
        Payments.lock_bond-Keeps IsReady-Frame,
        id-attested,
        put_escrow-Keeps,
        keeps_rules,
        Keeps-read,
      )
      depth 40 fits 8000

pub verified_release-Keeps :
    (env : Env) (creator : String) (id : ℕ) (key : String)
    → Keeps IsReady (verified_release env creator id key)
unfolding verified_release
verified_release-Keeps env creator id key =
    search (Payments.pay_payee-Keeps IsReady-Frame, put_escrow-Keeps, keeps_rules, Keeps-read) depth
      30 fits 4000

freeze-Keeps :
    (now : ℕ) (creator : String) (e : Escrow) (status : EscrowStatus)
    → Keeps IsReady (freeze now creator e status)
unfolding freeze
freeze-Keeps now creator e EscrowStatus.submitted = search keeps_rules depth 12
freeze-Keeps now creator e EscrowStatus.disputed = search keeps_rules depth 12
freeze-Keeps now creator e EscrowStatus.fail_attested = search keeps_rules depth 12
freeze-Keeps now creator e EscrowStatus.released = search keeps_rules depth 12
freeze-Keeps now creator e _ = search keeps_rules depth 12

pub open_dispute-Keeps : (env : Env) (msg : MsgOpenDispute) → Keeps IsReady (open_dispute env msg)
unfolding open_dispute
open_dispute-Keeps env msg =
    search
      (
        Payments.read_account-Keeps IsReady-Frame,
        Payments.lock_bond-Keeps IsReady-Frame,
        freeze-Keeps,
        put_escrow-Keeps,
        keeps_rules,
        Keeps-read,
      )
      depth 40 fits 8000

-- The escrow that is stored after the settlement has the id of the old one.
settle_escrow-Yields :
    (env : Env) (e : Escrow) (r : Resolution)
    → Yields IsReady (λ (x : Escrow). x.id ≡ e.id) (settle_escrow env e r)
unfolding settle_escrow
settle_escrow-Yields env e r = Yields-if _ _ _ (Yields-pure _ refl) (
    Yields-if _ _ _
      (Yields-bind _ _ (Payments.pay_payee-Keeps IsReady-Frame env e) λ _. Yields-pure _ refl)
      (Yields-bind _ _ (Payments.pay_payer-Keeps IsReady-Frame env e) λ _. Yields-pure _ refl))

settle_escrow_then-Keeps :
    {B : Type 0} (env : Env) (e : Escrow) (r : Resolution) (next : Escrow → Exec State B)
    → ((x : Escrow) → x.id ≡ e.id → Keeps IsReady (next x))
    → Keeps IsReady (settle_escrow env e r >>= next)
settle_escrow_then-Keeps env e r next k =
    Keeps-known (λ x. x.id ≡ e.id) _ next (settle_escrow-Yields env e r) k

pub resolve_dispute-Keeps :
    (env : Env) (creator : String) (id : ℕ) → Keeps IsReady (resolve_dispute env creator id)
unfolding resolve_dispute
resolve_dispute-Keeps env creator id =
    search
      (
        settle_escrow_then-Keeps,
        put_escrow-Keeps,
        keeps_rules,
        Keeps-read,
        Settlements.finish_dispute-Keeps IsReady-Frame,
      )
      depth 40 fits 8000
