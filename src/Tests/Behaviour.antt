-- ===== src/Tests/Behaviour.antt =====
-- The theorems on what the handlers allow and refuse, applied on the small chain.
use ag3nt_coin.Keeper.Anchors.{resolve_anchors}
use ag3nt_coin.Types.Params.{contains}
use ag3nt_coin.Keeper.Credit.{check_new_account_credit, credit_account, is_dust}
use ag3nt_coin.Base.Text.{equal_fold}
use ag3nt_coin.Keeper.Hash.{is_hex_sha256}
use ag3nt_coin.Base.Words.{sle, slt}
use mathlib.Core.Path.{subst}
use ag3nt_coin.Base.{inl, ◌≢◌, eq_iff, ◌<◌, ◌≡◌, String, true, false, some, refl, str_eq, [], ◌∷◌}
use ag3nt_coin.Base.Store
use ag3nt_coin.Exec.{succeeds, final, ok, ◌>>=◌}
use ag3nt_coin.Exec.Returns.{Returns}
use ag3nt_coin.Keeper.{State, escrow_of, dispute_of, read}
use ag3nt_coin.Types.{Account, Escrow, EscrowStatus, Dispute}
use ag3nt_coin.Msg.Escrows.{
  MsgLockEscrow, lock_escrow, is_releasable, release_refused, release_escrow, refund_refused,
  refund_escrow, pay_payee, pay_payer,
}
use ag3nt_coin.Msg.Bonds.{
  MsgSlashBond, release_bond, slash_bond, lock_bond, pay_beneficiary, settle_bond,
}
use ag3nt_coin.Msg.Verifiers.{verified_release, count_passed, key_refused, restates}
use ag3nt_coin.Msg.Jury.{MsgCastVote, cast_vote, has_voted}
use ag3nt_coin.Msg.Gates.{
  MsgRevealAnswer, MsgSettleGate, commit_answer, reveal_answer, settle_gate, winning_answer,
  compare_count, compare_counts, count_answers, gate_answer_commit, has_committed, pay_answers,
  pay_winners, plurality,
}
use ag3nt_coin.Rules.Gates.{commit_excludes_reveal, settle_excludes_reveal}
use ag3nt_coin.Rules.Bonds.{AllRefused, release_bond_once, slash_bond_once}
use ag3nt_coin.Rules.Escrows.{
  IsReleasable, MayRelease, release_escrow-MayRelease, MayRefund, refund_escrow-MayRefund,
}
use ag3nt_coin.Rules.Payouts.{PaidOut, release_escrow_pays, refund_escrow_pays}
use ag3nt_coin.Rules.Votes.{VotesOnce, VotesAfter, cast_vote-VotesOnce}
use ag3nt_coin.Rules.Plurality.{count_of, winning_answer_leads}
use ag3nt_coin.Rules.Verifiers.{Locked, lock_escrow-Locked, IsVerified, verified_release-IsVerified}
use ag3nt_coin.Tests.Fixtures.{
  bob, dispute, env, hash, answers, escrow_0, store, store-IsWellFormed, store_fits,
}

abbrev a_reveal : MsgRevealAnswer
a_reveal = record { creator = "bob"; gate_id = 1; answer = "yes"; salt = "salt" }

commit_succeeds : succeeds (commit_answer env "bob" 1 hash store) ≡ true
unfolding commit_answer ◌>>=◌ read Store.get sle is_hex_sha256 has_committed
commit_succeeds = refl

commit_excludes_reveal_example : succeeds (reveal_answer env a_reveal store) ≡ false
commit_excludes_reveal_example =
    commit_excludes_reveal store env "bob" hash a_reveal commit_succeeds

abbrev with_gold : MsgSettleGate
with_gold = record { creator = "dave"; gate_id = 0; gold_answer = "maybe"; gold_salt = "salt" }

abbrev late_reveal : MsgRevealAnswer
late_reveal = record { creator = "bob"; gate_id = 0; answer = "yes"; salt = "salt" }

settle_succeeds : succeeds (settle_gate env with_gold store) ≡ true
unfolding settle_gate ◌>>=◌ read Store.get slt equal_fold gate_answer_commit pay_winners
    winning_answer pay_answers
settle_succeeds = refl

settle_excludes_reveal_example : succeeds (reveal_answer env late_reveal store) ≡ false
settle_excludes_reveal_example =
    settle_excludes_reveal store env with_gold late_reveal refl settle_succeeds

release_bond-succeeds : succeeds (release_bond env "bob" 2 store) ≡ true
unfolding release_bond ◌>>=◌ read Store.get settle_bond
release_bond-succeeds = refl

release_bond_once_example : AllRefused 2 (final (release_bond env "bob" 2 store))
release_bond_once_example =
    release_bond_once store store-IsWellFormed env "bob" 2 release_bond-succeeds

abbrev slashing : MsgSlashBond
slashing = record { creator = "bob"; id = 2; beneficiary = "carol" }

slash_bond-succeeds : succeeds (slash_bond env slashing store) ≡ true
unfolding slash_bond ◌>>=◌ read Store.get pay_beneficiary check_new_account_credit is_dust
    credit_account
slash_bond-succeeds = refl

slash_bond_once_example : AllRefused 2 (final (slash_bond env slashing store))
slash_bond_once_example = slash_bond_once store store-IsWellFormed env slashing slash_bond-succeeds

release_succeeds : succeeds (release_escrow env "alice" 0 store) ≡ true
unfolding release_escrow ◌>>=◌ read Store.get is_releasable release_refused pay_payee
    check_new_account_credit is_dust credit_account
release_succeeds = refl

release_escrow-MayRelease_example :
    (e : Escrow) × (escrow_of 0 store ≡ some e) × IsReleasable e.status × MayRelease 1000 "alice" e
release_escrow-MayRelease_example = release_escrow-MayRelease store env "alice" 0 release_succeeds

abbrev alice : Account
alice = record {
  address = "alice";
  balance = 1000;
  nonce = 0;
  registered = true;
  faucet_claimed = false;
}

release_escrow_pays_example :
    (s' : State) × (release_escrow env "alice" 0 store ≡ ok tt s')
    × PaidOut 0
        (record escrow_0 { status = EscrowStatus.released; released_at = 1000 })
        "bob"
        bob
        store
        s'
release_escrow_pays_example =
    release_escrow_pays store store-IsWellFormed store_fits env "alice" 0 "alice" "bob" escrow_0 bob
      refl (unfold Store.get in refl) (inl refl) (inl refl) refl (unfold Store.get in refl)

refund_succeeds : succeeds (refund_escrow env "alice" 0 store) ≡ true
unfolding refund_escrow ◌>>=◌ read Store.get refund_refused sle pay_payer credit_account is_dust
refund_succeeds = refl

refund_escrow-MayRefund_example :
    (e : Escrow) × (escrow_of 0 store ≡ some e) × (str_eq "alice" e.payer ≡ true) × MayRefund 1000 e
refund_escrow-MayRefund_example = refund_escrow-MayRefund store env "alice" 0 refund_succeeds

refund_escrow_pays_example :
    (s' : State) × (refund_escrow env "alice" 0 store ≡ ok tt s')
    × PaidOut 0 (record escrow_0 { status = EscrowStatus.refunded }) "alice" alice store s'
unfolding slt
refund_escrow_pays_example =
    refund_escrow_pays store store-IsWellFormed store_fits env 0 "alice" escrow_0 alice refl
      (unfold Store.get in refl) (inl (refl, refl)) (unfold Store.get in refl)

abbrev a_vote : MsgCastVote
a_vote = record { creator = "carol"; dispute_id = 1; accept = true; stake_amount = 100 }

vote_succeeds : succeeds (cast_vote env a_vote store) ≡ true
unfolding cast_vote ◌>>=◌ read Store.get contains resolve_anchors has_voted lock_bond
vote_succeeds = refl

no_votes : (d : Dispute) → dispute_of 1 store ≡ some d → VotesOnce d.votes
unfolding Store.get
no_votes d e = let same : dispute 1 [] ≡ d = cc e in subst (λ x. VotesOnce x.votes) same tt

cast_vote-VotesOnce_example : VotesAfter a_vote store (final (cast_vote env a_vote store))
cast_vote-VotesOnce_example =
    cast_vote-VotesOnce store env a_vote store-IsWellFormed no_votes vote_succeeds

yes_wins : winning_answer "" answers ≡ "yes"
unfolding winning_answer plurality compare_counts count_answers Store.set compare_count
yes_wins = refl

different : (a b : String) → str_eq a b ≡ false → a ≢ b
different a b h = λ e. cc (h, (eq_iff a b).1 e)

winning_answer_leads_example : count_of "no" answers < count_of (winning_answer "" answers) answers
winning_answer_leads_example =
    winning_answer_leads answers "no" (rw yes_wins refl) (rw yes_wins (different "no" "yes" refl))

abbrev terms_of_work : MsgLockEscrow
terms_of_work = record {
  creator = "alice";
  payee = "bob";
  amount = 400;
  ref = "work";
  dispute_seconds = 600;
  no_auto_release = false;
  verifier_addrs = "carol" ∷ [];
  verifier_quorum = 1;
  acceptance_hash = hash;
}

lock_escrow-Locked_example : Returns (Locked terms_of_work) (lock_escrow env terms_of_work store)
lock_escrow-Locked_example = lock_escrow-Locked env terms_of_work store

verified_release-succeeds : succeeds (verified_release env "dave" 2 "key" store) ≡ true
unfolding verified_release ◌>>=◌ read Store.get count_passed restates equal_fold key_refused
    pay_payee check_new_account_credit is_dust credit_account
verified_release-succeeds = refl

verified_release-IsVerified_example :
    (e : Escrow) × (escrow_of 2 store ≡ some e) × IsVerified env "key" e
verified_release-IsVerified_example =
    verified_release-IsVerified store env "dave" 2 "key" verified_release-succeeds
