-- ===== src/Rules/Votes.antt =====
-- The votes of a dispute (Msg/Jury.antt), and how often a juror votes.
use mathlib.Core.Path.{subst}
use ag3nt_coin.Base.Text.{str_eq_sym, format_uint}
use ag3nt_coin.Base.Store.{uint_key}
use ag3nt_coin.Base.Store.Laws.{get-set_self}
use ag3nt_coin.Invariant.{IsWellFormed, dispute_id}
use ag3nt_coin.Invariant.Records.{id-of-found}
use ag3nt_coin.Base.{
  ℕ, ◌≤◌, ◌≡◌, refl, String, true, false, some, List, [], ◌∷◌, ◌++◌, arith, str_eq, ltb→le,
}
use ag3nt_coin.Exec.{succeeds, final, modify}
use ag3nt_coin.Exec.Returns.{
  Returns, success, Returns-or_raise, Returns-raise_if, Returns-call, Returns-final,
}
use ag3nt_coin.Types.{Account, Bond, BondStatus, Dispute, Vote, min_juror_stake}
use ag3nt_coin.Keeper.{State, Env, Returns-read, bond_of, dispute_of}
use ag3nt_coin.Msg.Jury.{has_voted, MsgCastVote, cast_vote, juror_purpose}
use ag3nt_coin.Msg.Bonds.{lock_bond}
use ag3nt_coin.Supply.Payments.{locked_bond, lock_bond_lem}

-- No juror has voted twice.
abbrev pub VotesOnce : List Vote → Type 0
VotesOnce [] = Unit
VotesOnce (v ∷ rest) = (has_voted v.juror rest ≡ false) × VotesOnce rest

module _ (v : Vote) where
  has_voted-append :
      (a : String) (votes : List Vote)
      → has_voted a votes ≡ false
      → str_eq v.juror a ≡ false
      → has_voted a (votes ++ v ∷ []) ≡ false
  unfolding has_voted
  has_voted-append a [] h ne = ground arith
  has_voted-append a (w ∷ rest) h ne = ground (arith, has_voted-append a rest)

  VotesOnce-append :
      (votes : List Vote)
      → VotesOnce votes
      → has_voted v.juror votes ≡ false
      → VotesOnce (votes ++ v ∷ [])
  unfolding has_voted
  VotesOnce-append [] once h = (refl, tt)
  VotesOnce-append (w ∷ rest) once h = (
    has_voted-append w.juror rest once.0 (str_eq_sym w.juror v.juror (ground arith)),
    VotesOnce-append rest once.1 (ground arith),
  )

-- The stake behind a vote: a bond of the juror's, locked for the dispute.
pub record IsStaked (msg : MsgCastVote) (d : Dispute) (b : Bond) : Type 0 where
  pub poster : b.poster ≡ msg.creator
  pub amount : b.amount ≡ msg.stake_amount
  pub purpose : b.purpose ≡ juror_purpose d.id
  pub locked : b.status ≡ BondStatus.active

abbrev vote_of : MsgCastVote → ℕ → Vote
vote_of msg bond_id = record { juror = msg.creator; accept = msg.accept; bond_id = bond_id }

-- What an accepted vote does: it was the juror's first, and is the last of the votes now.
record Voted (msg : MsgCastVote) (s s' : State) : Type 0 where
  dispute : Dispute
  found : dispute_of msg.dispute_id s ≡ some dispute
  first : has_voted msg.creator dispute.votes ≡ false
  minimum : min_juror_stake ≤ msg.stake_amount
  bond_id : ℕ
  stored :
      dispute_of dispute.id s'
      ≡ some (record dispute { votes = dispute.votes ++ vote_of msg bond_id ∷ [] })
  bond : Bond
  bond_found : bond_of bond_id s' ≡ some bond
  staked : IsStaked msg dispute bond

-- A bond that has just been locked is found under the id that is returned.
lock_bond-bond_of :
    (poster : Account) (creator : String) (amount : ℕ) (purpose slasher ref : String) (s : State)
    → Returns
        (λ id t.
          (b : Bond) × (bond_of id t ≡ some b)
          × (b.poster ≡ creator)
          × (b.amount ≡ amount)
          × (b.purpose ≡ purpose)
          × (b.status ≡ BondStatus.active))
        (lock_bond poster creator amount purpose slasher ref s)
unfolding locked_bond
lock_bond-bond_of poster creator amount purpose slasher ref s =
    rw (lock_bond_lem s poster creator amount purpose slasher ref)
      (success (_, get-set_self s.bond_seq _ s.bond, refl, refl, refl, refl))

module _ (s : State) where
  cast_vote-Voted :
      (env : Env) (msg : MsgCastVote) → Returns (λ _ s'. Voted msg s s') (cast_vote env msg s)
  unfolding cast_vote
  cast_vote-Voted env msg = Returns-or_raise _ _ _ s λ _ _. Returns-read _ _ _ s λ d found.
      Returns-raise_if _ _ _ s λ _. Returns-read _ _ _ s λ params _. Returns-raise_if _ _ _ s λ _.
        Returns-raise_if _ _ _ s λ first. Returns-raise_if _ _ _ s λ minimum.
          Returns-read _ _ _ s λ acct _. Returns-raise_if _ _ _ s λ _. Returns-raise_if _ _ _ s λ _.
            Returns-call _ _ _ s
              (lock_bond-bond_of acct msg.creator msg.stake_amount (juror_purpose d.id) ""
                (format_uint d.id) s)
              λ bond_id t locked.
                let (b, b_found, poster, amount, purpose, active) = locked in
                unfold modify in
                success (record {
                  dispute = d;
                  found = found;
                  first = first;
                  minimum = ltb→le _ _ minimum;
                  bond_id = bond_id;
                  stored = get-set_self d.id _ t.dispute;
                  bond = b;
                  bond_found = b_found;
                  staked = record {
                    poster = poster;
                    amount = amount;
                    purpose = purpose;
                    locked = active;
                  };
                })

-- After an accepted vote the dispute is as it was, but for the vote at the end of its votes, which
-- has the juror and the verdict of the message and names a bond with the stake.
pub record VotesAfter (msg : MsgCastVote) (s s' : State) : Type 0 where
  pub dispute : Dispute
  pub found : dispute_of msg.dispute_id s ≡ some dispute
  pub vote : Vote
  pub by : vote.juror ≡ msg.creator
  pub side : vote.accept ≡ msg.accept
  pub stored :
      dispute_of msg.dispute_id s' ≡ some (record dispute { votes = dispute.votes ++ vote ∷ [] })
  pub once : VotesOnce (dispute.votes ++ vote ∷ [])
  pub bond : Bond
  pub bond_found : bond_of vote.bond_id s' ≡ some bond
  pub staked : IsStaked msg dispute bond
  pub minimum : min_juror_stake ≤ bond.amount

Voted-VotesAfter :
    (s s' : State) (msg : MsgCastVote)
    → IsWellFormed s
    → ((d : Dispute) → dispute_of msg.dispute_id s ≡ some d → VotesOnce d.votes)
    → Voted msg s s'
    → VotesAfter msg s s'
Voted-VotesAfter s s' msg wf once v =
    let d = v.dispute in
    let cast = vote_of msg v.bond_id in
    let at = id-of-found dispute_id s.dispute_seq s.dispute wf.disputes msg.dispute_id d v.found in
    record {
      dispute = d;
      found = v.found;
      vote = cast;
      by = refl;
      side = refl;
      stored =
          subst (λ k. dispute_of k s' ≡ some (record d { votes = d.votes ++ cast ∷ [] })) at
            v.stored;
      once = VotesOnce-append cast d.votes (once d v.found) v.first;
      bond = v.bond;
      bond_found = v.bond_found;
      staked = v.staked;
      minimum = rw v.staked.amount v.minimum;
    }

-- In a well-formed store, after a vote that is accepted, on a dispute in which no juror has voted
-- twice, the dispute is as it was but for one vote at the end of its votes, still no juror has
-- voted twice, and this vote has the juror and the side of the message and names an active bond of
-- the juror's, posted for the jury of this dispute, over the stake of the message, which is at
-- least the minimum.
pub cast_vote-VotesOnce :
    (s : State) (env : Env) (msg : MsgCastVote)
    → IsWellFormed s
    → ((d : Dispute) → dispute_of msg.dispute_id s ≡ some d → VotesOnce d.votes)
    → succeeds (cast_vote env msg s) ≡ true
    → VotesAfter msg s (final (cast_vote env msg s))
cast_vote-VotesOnce s env msg wf once done =
    Voted-VotesAfter s (final (cast_vote env msg s)) msg wf once
      (Returns-final _ (cast_vote-Voted s env msg) done)
