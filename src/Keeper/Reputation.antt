-- ===== src/Keeper/Reputation.antt =====
-- chain/x/agntcoin/keeper/reputation_score.go: the edges of the trust graph that the store holds,
-- and the scores. The anchors are those of the parameters, resolved by the caller.
use ag3nt_coin.Base.{ℕ, String, Option, none, some, List, [], ◌∷◌, ◌++◌, if◌then◌else◌}
use ag3nt_coin.Base.Floats.{Floats}
use ag3nt_coin.Base.Store
use ag3nt_coin.Base.Store.{string_key, uint_key}
use ag3nt_coin.Types.{Escrow, Dispute, Vote, is_released, is_accept}
use ag3nt_coin.Keeper.Defs.{State}
use ag3nt_coin.Keeper.Collections.{escrow_of}
use ag3nt_coin.Keeper.PageRank.{JobEdge, Ranks, rank_of, reputation}

-- The released escrows.
unfoldable pub released_jobs : List Escrow → List JobEdge
released_jobs [] = []
released_jobs (e ∷ rest) =
    let jobs = released_jobs rest in
    if is_released e.status
    then record { payer = e.payer; payee = e.payee; amount = e.amount } ∷ jobs
    else jobs

-- The jurors who voted for the payee.
unfoldable pub endorsements : Escrow → List Vote → List JobEdge
endorsements e [] = []
endorsements e (v ∷ rest) =
    let jobs = endorsements e rest in
    if v.accept then record { payer = v.juror; payee = e.payee; amount = e.amount } ∷ jobs else jobs

-- A dispute whose escrow is missing is passed over.
unfoldable pub endorsements_of : Option Escrow → List Vote → List JobEdge
endorsements_of none votes = []
endorsements_of (some e) votes = endorsements e votes

unfoldable pub accepted_jobs : List Dispute → State → List JobEdge
accepted_jobs [] s = []
accepted_jobs (d ∷ rest) s =
    let jobs = accepted_jobs rest s in
    if is_accept d.resolution
    then endorsements_of (escrow_of d.escrow_id s) d.votes ++ jobs
    else jobs

unfoldable pub reputation_scores : Floats → List String → State → Ranks
reputation_scores f anchors s =
    reputation f (Store.values s.vouch)
      (released_jobs (Store.values s.escrow) ++ accepted_jobs (Store.values s.dispute) s) anchors

-- An address without a score has zero.
unfoldable pub reputation_score : Floats → List String → String → State → ℕ
reputation_score f anchors a s = rank_of a (reputation_scores f anchors s)
