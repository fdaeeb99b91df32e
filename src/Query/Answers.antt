-- ===== src/Query/Answers.antt =====
-- The queries after the handlers: a record that a handler has made is answered (Msg/Escrows.antt,
-- Msg/Contributions.antt), and what the emission query reports bounds what may be minted.
use ag3nt_coin.Base.{◌==◌, ◌≡◌, refl, ℕ, ◌≤◌, none, some, true, inl, inr, Bool-cases, arith, Option}
use ag3nt_coin.Base.Words.{sub64}
use ag3nt_coin.Exec.{succeeds, final}
use ag3nt_coin.Exec.Returns.{Returns, Returns-weaken, Returns-final}
use ag3nt_coin.Types.{max_contribution_award, Escrow, EmissionState}
use ag3nt_coin.Keeper.{State, Env, escrow_of}
use ag3nt_coin.Keeper.Emission.{emission_or_default, remaining_scheduled, default_emission_state}
use ag3nt_coin.Msg.Escrows.{MsgLockEscrow, lock_escrow}
use ag3nt_coin.Msg.Contributions.{MsgAwardContribution, award_contribution}
use ag3nt_coin.Mint.{IsValid, Mints, ceiling, scheduled_left}
use ag3nt_coin.Mint.Contributions.{award_contribution-Mints}
use ag3nt_coin.Rules.Verifiers.{lock_escrow-Locked}
use ag3nt_coin.Query.Defs.{
  answer, look_up, get_escrow, get_emission, EmissionReport, peek_emission_state,
}

get_escrow-found :
    (id : ℕ) (e : Escrow) (s : State) → escrow_of id s ≡ some e → get_escrow (some id) s ≡ answer e
unfolding get_escrow look_up
get_escrow-found id e s h = rw h refl

-- When LockEscrow succeeds, GetEscrow of the id that it returns answers with an escrow of that id,
-- between the creator and the payee of the message, over its amount.
pub lock_escrow-get_escrow :
    (env : Env) (msg : MsgLockEscrow) (s : State)
    → Returns
        (λ id s'.
          (e : Escrow) × (get_escrow (some id) s' ≡ answer e)
          × (e.id ≡ id)
          × (e.payer ≡ msg.creator)
          × (e.payee ≡ msg.payee)
          × (e.amount ≡ msg.amount))
        (lock_escrow env msg s)
lock_escrow-get_escrow env msg s =
    Returns-weaken
      (λ id s' h.
        let (e, found, same_id, payer, payee, amount, _) = h in
        (e, get_escrow-found id e s' found, same_id, payer, payee, amount))
      (lock_escrow-Locked env msg s)

remaining-scheduled_left :
    (env : Env) (o : Option EmissionState)
    → remaining_scheduled (emission_or_default env o) ≡ scheduled_left o
unfolding emission_or_default default_emission_state remaining_scheduled sub64
remaining-scheduled_left env none = refl
remaining-scheduled_left env (some e) = elim (Bool-cases (e.max_supply == 0)) [
  | inl unset ↦ rw unset refl
  | inr given ↦ rw given refl
]

-- When AwardContribution succeeds on a valid store, the Emission query of that store, at whatever
-- time, answers, and reports at least the amount awarded as what the schedule still allows.
pub award_contribution_within_report :
    (env env' : Env) (msg : MsgAwardContribution) (s : State)
    → IsValid s
    → succeeds (award_contribution env msg s) ≡ true
    → (r : EmissionReport) × (get_emission env' (some tt) s ≡ answer r)
      × (msg.amount ≤ r.scheduled_remaining)
unfolding get_emission peek_emission_state
award_contribution_within_report env env' msg s valid done =
    let minted : (msg.amount ≤ max_contribution_award)
        × Mints msg.amount s (final (award_contribution env msg s)) =
      Returns-final _ (award_contribution-Mints env msg s valid) done in
    let bounded : msg.amount ≤ scheduled_left s.emission_state =
      unfold ceiling in omega (arith, minted.1.total, minted.1.below) in
    (_, refl, omega (arith, bounded, remaining-scheduled_left env' s.emission_state))
