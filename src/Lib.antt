-- ===== src/Lib.antt =====
-- AG3NT coin: the module x/agntcoin of the chain, from chain/x/agntcoin.
--
-- The module is one store of records and a message server: each message of the service `Msg` has a
-- handler, a method of `msgServer`, that checks the message against the store, moves coins and
-- writes records, or returns an error. The parts meet in the store. Accounts hold balances; an
-- escrow, a bond and a vouch hold coins that a handler has taken from an account; a verdict of the
-- jury settles an escrow and the bonds of its dispute; gates and contributions mint coins, which the
-- emission schedule caps.
--
-- Files, with the code that they model:
--   Base            no code of the chain: names, Go's machine integers (Base/Words), texts
--                   (Base/Text), and `collections.Map` of the Cosmos SDK (Base/Store)
--   Exec            the handlers' control flow; Exec/Returns has the rules by which a proof walks
--                   through a handler, Exec/Keeps those for what a handler leaves alone
--   Types           chain/x/agntcoin/types: records, status values, constants, params.go
--   Keeper          keeper.go (Keeper/Defs), credit.go, emission.go with the emission functions of
--                   types/genesis.go, hash.go, resolveAnchors of query_reputation.go; Keeper/Genesis
--                   has genesis.go with the validation of types/genesis.go, Keeper/PageRank has
--                   pagerank.go, Keeper/Reputation has reputation_score.go
--   Msg             the handlers: Accounts (msg_server_register.go, _faucet.go, _transfer.go),
--                   Vouches (_castvouch.go, _unvouch.go), Bonds (_post_bond.go, _release_bond.go,
--                   _slash_bond.go), Escrows (_lock_escrow.go, _submit_escrow.go, _release_escrow.go,
--                   _refund_escrow.go, _dispute_escrow.go), Verifiers (_attest_escrow.go,
--                   _verified_release.go, _reclaim_attestation_bonds.go), Jury (_open_dispute.go,
--                   _cast_vote.go), Verdict (_resolve_dispute.go), Gates (_gate.go), Contributions
--                   (_award_contribution.go), Evidence (_cast_scoped_evidence_vouch.go), Governance
--                   (msg_update_params.go)
--   Chain           the message server, the store that InitGenesis makes of DefaultGenesis, and runs
--   Invariant       records stand under their ids, below the next id
--   Supply          where the coins are, handler by handler
--   Mint            the emission schedule and the handlers that mint
--   Life            the life cycle of an escrow as a specification, and the handlers against it
--   Rules           what single handlers allow and refuse, and what two in a row come to
--   Frame           an interface: the laws by which a property of the store is kept by the shared
--                   writes, and the handlers that write no escrow, gone through once for all of them
--   Genesis         the import and the export of a genesis file, and that the store keeps what an
--                   export needs of it
--   Trust           where reputation comes from, over the graph of vouches and jobs
--   Query           the queries (query_*.go, Query/Defs), after the handlers and on reputation
--   Tests           a small chain, and the theorems applied on it
--
-- State and operations. The keeper's collections and sequences are the fields of `State`, with the
-- names of the Go fields; a handler has the name of the Go method in lower case, takes the message
-- and its surroundings (`Env`), and returns an outcome with the store. Steps that several methods
-- write out alike are one helper (`lock_bond`, `settle_bond`, `live_bond`). A handler's error keeps
-- what was written before it; the chain discards that, so a run consists of messages that succeed.
--
-- Integers. A `uint64` is a native number below 2 ^ 64 and an `int64` its bit pattern; sums and
-- differences wrap (`add64`, `sub64`) and `slt`, `sle` compare with the sign. Ids and the lengths of
-- lists are native numbers.
--
-- Fuel. The loop that closes epochs runs on the seconds since the epoch's start: a closed epoch
-- moves the start by a second or more, so the fuel is enough where the times fit an `int64`.
--
-- Floats. A `float64` is its bit pattern, and the operations on it are parameters (Base/Floats), so
-- that the scores are computed in the order of the source and no theorem uses a law of the reals.
-- The power iteration takes at most the 100 rounds of the source. The theorems on sealed sets assume
-- three laws of zero (`HasZero`) and that no number of the computation overflows (`FiniteRun`).
--
-- Parameters. The address codec, x/auth, the environment and files, SHA-256 and the operations on
-- floats are fields of `Env`; the SDK's pagination and `strconv.FormatFloat` are arguments of the
-- queries. Beyond the laws of zero, no theorem assumes anything of them but the results that its
-- hypotheses name.
--
-- Not modelled: events; the module's wiring and simulation, the application and the daemon's
-- commands (registration with the SDK, configuration, files); the generated protobuf code beyond
-- the message and record types; the trees beside chain (TypeScript clients, a contract, a simulation
-- in Python and documents). Input and output errors of the store do not occur in the model, except
-- that a missing record is one where the code treats it so.
pub mod Base
pub mod Chain
pub mod Exec
pub mod Frame
pub mod Genesis
pub mod Invariant
pub mod Keeper
pub mod Life
pub mod Mint
pub mod Msg
pub mod Query
pub mod Rules
pub mod Supply
pub mod Tests
pub mod Trust
pub mod Types
