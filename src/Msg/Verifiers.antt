-- ===== src/Msg/Verifiers.antt =====
-- msg_server_attest_escrow.go, msg_server_verified_release.go and
-- msg_server_reclaim_attestation_bonds.go of chain/x/agntcoin/keeper.
use Prim.Native.String.{◌++◌ as text_append}
use ag3nt_coin.Base.{
  ℕ, suc, String, Bool, false, Option, none, some, List, [], ◌∷◌, ◌++◌, not, ltb, length, ◌==◌,
  ◌&&◌, ◌||◌, str_eq, if◌then◌else◌,
}
use ag3nt_coin.Base.Words.{add64, slt}
use ag3nt_coin.Base.Text.{equal_fold, format_uint}
use ag3nt_coin.Exec.{
  Exec, bad_address, invalid_request, insufficient_funds, key_not_found, unauthorized, pure, gets,
  or_raise, raise_if, modify, ◌>>=◌, ◌>>◌,
}
use ag3nt_coin.Types.{
  Escrow, EscrowStatus, Attestation, Bond, BondStatus, is_submitted, is_released, is_refunded,
  is_fail_attested, is_active, challenge_window_seconds,
}
use ag3nt_coin.Types.Params.{contains}
use ag3nt_coin.Keeper.{State, Env, read, account_of, escrow_of, put_escrow, bond_of}
use ag3nt_coin.Msg.Bonds.{lock_bond, settle_bond}
use ag3nt_coin.Msg.Escrows.{pay_payee}

pub record MsgAttestEscrow : Type 0 where
  pub creator : String
  pub escrow_id : ℕ
  pub passed : Bool
  pub stake_amount : ℕ
  pub delivery_hash : String
  pub key_hash : String
  pub acceptance_hash : String

unfoldable pub has_attested : String → List Attestation → Bool
has_attested addr [] = false
has_attested addr (a ∷ rest) = str_eq a.verifier addr || has_attested addr rest

-- The three hashes that a verdict restates agree with the escrow's.
unfoldable pub restates : String → String → String → Escrow → Bool
restates delivery_hash key_hash acceptance_hash e =
    equal_fold delivery_hash e.delivery_hash
    && equal_fold key_hash e.key_hash
    && equal_fold acceptance_hash e.acceptance_hash

unfoldable pub attestation_purpose : ℕ → String
attestation_purpose id = text_append "attestation:" (format_uint id)

-- The verdict is recorded; a fail verdict opens the contest window.
unfoldable pub attested : Env → MsgAttestEscrow → ℕ → Escrow → Escrow
attested env msg bond_id escrow =
    let recorded = record escrow {
      attestations =
          escrow.attestations
          ++ (record {
            verifier = msg.creator;
            passed = msg.passed;
            bond_id = bond_id;
            delivery_hash = escrow.delivery_hash;
            key_hash = escrow.key_hash;
            acceptance_hash = escrow.acceptance_hash;
            attested_at = env.block_time;
          })
            ∷ [];
    } in
    if msg.passed then recorded else record recorded {
      status = EscrowStatus.fail_attested;
      challenge_deadline = add64 env.block_time challenge_window_seconds;
    }

unfoldable pub attest_escrow : Env → MsgAttestEscrow → Exec State ℕ
attest_escrow env msg = do
  or_raise (env.string_to_bytes msg.creator) bad_address
  escrow ← read (escrow_of msg.escrow_id) key_not_found
  raise_if (not (is_submitted escrow.status)) invalid_request
  raise_if (not (contains msg.creator escrow.verifier_addrs)) unauthorized
  raise_if (has_attested msg.creator escrow.attestations) invalid_request
  raise_if (not (restates msg.delivery_hash msg.key_hash msg.acceptance_hash escrow))
      invalid_request
  raise_if (ltb msg.stake_amount escrow.amount) invalid_request
  verifier ← read (account_of msg.creator) invalid_request
  raise_if (not verifier.registered) invalid_request
  raise_if (ltb verifier.balance msg.stake_amount) insufficient_funds
  bond_id ←
      lock_bond verifier msg.creator msg.stake_amount (attestation_purpose escrow.id) ""
        (format_uint escrow.id)
  modify (put_escrow escrow.id (attested env msg bond_id escrow))
  pure bond_id

-- The pass verdicts that restate the escrow's commitments.
unfoldable pub count_passed : Escrow → List Attestation → ℕ
count_passed e [] = 0
count_passed e (a ∷ rest) =
    let n = count_passed e rest in
    if a.passed && restates a.delivery_hash a.key_hash a.acceptance_hash e then suc n else n

-- Whether the key presented is the wrong one: not the committed preimage, or uncommitted.
unfoldable pub key_refused : Env → String → Escrow → Bool
key_refused env key e =
    if not (str_eq e.key_hash "")
    then not (equal_fold (env.sha256_hex key) e.key_hash)
    else not (str_eq key "")

unfoldable pub verified_release : Env → String → ℕ → String → Exec State (Unit {0})
verified_release env creator escrow_id key = do
  or_raise (env.string_to_bytes creator) bad_address
  escrow ← read (escrow_of escrow_id) key_not_found
  raise_if (length escrow.verifier_addrs == 0) invalid_request
  raise_if (not (is_submitted escrow.status)) invalid_request
  raise_if (ltb (count_passed escrow escrow.attestations) escrow.verifier_quorum) invalid_request
  raise_if (key_refused env key escrow) invalid_request
  pay_payee env escrow
  modify (
      put_escrow escrow.id (record escrow {
        status = EscrowStatus.released;
        released_at = env.block_time;
        challenge_deadline = add64 env.block_time challenge_window_seconds;
      }))

unfoldable pub if_live : String → Option Bond → Option Bond
if_live purpose none = none
if_live purpose (some b) = if is_active b.status && str_eq b.purpose purpose then some b else none

-- The bond, if it is active and was posted for `purpose`.
unfoldable pub live_bond : String → ℕ → State → Option Bond
live_bond purpose id s = if_live purpose (bond_of id s)

unfoldable pub reclaim_bond : Option Bond → Exec State (Unit {0})
reclaim_bond none = pure tt
reclaim_bond (some bond) = settle_bond bond.poster BondStatus.released bond

unfoldable pub reclaim_bonds : String → List Attestation → Exec State (Unit {0})
reclaim_bonds purpose [] = pure tt
reclaim_bonds purpose (a ∷ rest) = do
  bond ← gets (live_bond purpose a.bond_id)
  reclaim_bond bond
  reclaim_bonds purpose rest

unfoldable pub is_reclaimable : EscrowStatus → Bool
is_reclaimable status = is_released status || is_refunded status || is_fail_attested status

unfoldable pub reclaim_attestation_bonds : Env → String → ℕ → Exec State (Unit {0})
reclaim_attestation_bonds env creator escrow_id = do
  or_raise (env.string_to_bytes creator) bad_address
  escrow ← read (escrow_of escrow_id) key_not_found
  raise_if (length escrow.attestations == 0) invalid_request
  raise_if (not (is_reclaimable escrow.status)) invalid_request
  raise_if (slt 0 escrow.challenge_deadline && slt env.block_time escrow.challenge_deadline)
      invalid_request
  reclaim_bonds (attestation_purpose escrow.id) escrow.attestations
