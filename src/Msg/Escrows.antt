-- ===== src/Msg/Escrows.antt =====
-- msg_server_lock_escrow.go, msg_server_submit_escrow.go, msg_server_release_escrow.go,
-- msg_server_refund_escrow.go and msg_server_dispute_escrow.go of chain/x/agntcoin/keeper.
use ag3nt_coin.Base.{
  ℕ, String, Bool, true, false, List, [], ◌∷◌, not, ltb, length, ◌==◌, ◌&&◌, ◌||◌, str_eq,
  if◌then◌else◌,
}
use ag3nt_coin.Base.Words.{add64, sub64, slt, sle}
use ag3nt_coin.Exec.{
  Exec, bad_address, invalid_request, insufficient_funds, key_not_found, unauthorized, pure, gets,
  or_raise, raise_if, modify, ◌>>=◌, ◌>>◌,
}
use ag3nt_coin.Types.{Escrow, EscrowStatus, is_locked, is_submitted, is_disputed, is_fail_attested}
use ag3nt_coin.Types.Params.{contains}
use ag3nt_coin.Keeper.{State, Env, read, account_of, put_account, escrow_of, put_escrow, add_escrow}
use ag3nt_coin.Keeper.Hash.{is_hex_sha256}
use ag3nt_coin.Keeper.Credit.{check_new_account_credit, credit_account, ensure_registered}

pub record MsgLockEscrow : Type 0 where
  pub creator : String
  pub payee : String
  pub amount : ℕ
  pub ref : String
  pub dispute_seconds : ℕ
  pub no_auto_release : Bool
  pub verifier_addrs : List String
  pub verifier_quorum : ℕ
  pub acceptance_hash : String

-- The loop over the verifier set; `seen` holds those before.
unfoldable pub check_verifiers :
    Env → String → String → List String → List String → Exec State (Unit {0})
check_verifiers env payer payee seen [] = pure tt
check_verifiers env payer payee seen (v ∷ rest) = do
  or_raise (env.string_to_bytes v) bad_address
  raise_if (str_eq v payer || str_eq v payee) invalid_request
  raise_if (contains v seen) invalid_request
  check_verifiers env payer payee (v ∷ seen) rest

-- The terms of a verifier-bound escrow; the result is the escrow's `NoAutoRelease`.
unfoldable pub check_terms : Env → MsgLockEscrow → List String → Exec State Bool
check_terms env msg [] = do
  raise_if (ltb 0 msg.verifier_quorum) invalid_request
  raise_if (not (str_eq msg.acceptance_hash "") && not (is_hex_sha256 msg.acceptance_hash))
      invalid_request
  pure msg.no_auto_release
check_terms env msg (v ∷ rest) = do
  raise_if ((msg.verifier_quorum == 0) || ltb (length (v ∷ rest)) msg.verifier_quorum)
      invalid_request
  check_verifiers env msg.creator msg.payee [] (v ∷ rest)
  raise_if (not (is_hex_sha256 msg.acceptance_hash)) invalid_request
  pure true

unfoldable pub new_escrow : Env → MsgLockEscrow → Bool → ℕ → Escrow
new_escrow env msg no_auto_release id = record {
  id = id;
  payer = msg.creator;
  payee = msg.payee;
  amount = msg.amount;
  ref = msg.ref;
  status = EscrowStatus.locked;
  deadline = add64 env.block_time msg.dispute_seconds;
  no_auto_release = no_auto_release;
  delivery_hash = "";
  verifier_addrs = msg.verifier_addrs;
  verifier_quorum = msg.verifier_quorum;
  key_hash = "";
  attestations = [];
  challenge_deadline = 0;
  acceptance_hash = msg.acceptance_hash;
  artifact_uri = "";
  submitted_at = 0;
  released_at = 0;
}

unfoldable pub lock_escrow : Env → MsgLockEscrow → Exec State ℕ
lock_escrow env msg = do
  or_raise (env.string_to_bytes msg.creator) bad_address
  payee_bytes ← or_raise (env.string_to_bytes msg.payee) bad_address
  raise_if (msg.amount == 0) invalid_request
  raise_if (str_eq msg.creator msg.payee) invalid_request
  no_auto_release ← check_terms env msg msg.verifier_addrs
  payer ← read (account_of msg.creator) invalid_request
  raise_if (not payer.registered) invalid_request
  raise_if (ltb payer.balance msg.amount) insufficient_funds
  ensure_registered env msg.payee payee_bytes msg.amount
  modify (put_account msg.creator (record payer { balance = sub64 payer.balance msg.amount }))
  id ← gets (λ s. s.escrow_seq)
  modify (add_escrow (new_escrow env msg no_auto_release))
  pure id

pub record MsgSubmitEscrow : Type 0 where
  pub creator : String
  pub id : ℕ
  pub delivery_hash : String
  pub key_hash : String
  pub artifact_uri : String

abbrev pub is_verifier_bound : Escrow → Bool
is_verifier_bound e = ltb 0 (length e.verifier_addrs)

unfoldable pub submit_escrow : Env → MsgSubmitEscrow → Exec State (Unit {0})
submit_escrow env msg = do
  or_raise (env.string_to_bytes msg.creator) bad_address
  escrow ← read (escrow_of msg.id) key_not_found
  raise_if (not (is_locked escrow.status)) invalid_request
  raise_if (not (str_eq msg.creator escrow.payee)) unauthorized
  raise_if
      (is_verifier_bound escrow
        && (not (is_hex_sha256 msg.delivery_hash) || not (is_hex_sha256 msg.key_hash)))
      invalid_request
  raise_if (not (str_eq msg.delivery_hash "") && not (is_hex_sha256 msg.delivery_hash))
      invalid_request
  raise_if (not (str_eq msg.key_hash "") && not (is_hex_sha256 msg.key_hash)) invalid_request
  modify (
      put_escrow escrow.id (record escrow {
        status = EscrowStatus.submitted;
        delivery_hash = msg.delivery_hash;
        key_hash = msg.key_hash;
        artifact_uri = msg.artifact_uri;
        submitted_at = env.block_time;
      }))

unfoldable pub is_releasable : EscrowStatus → Bool
is_releasable status =
    is_locked status || is_submitted status || is_disputed status || is_fail_attested status

-- Whether the caller may not release: a disputed escrow only by the payer; any other by the payer,
-- or by anyone from the deadline on, unless it never releases by the clock.
unfoldable pub release_refused : ℕ → String → Escrow → Bool
release_refused now creator escrow =
    if is_disputed escrow.status
    then not (str_eq creator escrow.payer)
    else if not (str_eq creator escrow.payer)
    then escrow.no_auto_release || slt now escrow.deadline
    else false

-- The escrow's amount goes to the payee, whose account is made if there is none.
unfoldable pub pay_payee : Env → Escrow → Exec State (Unit {0})
pay_payee env escrow = do
  bytes ← or_raise (env.string_to_bytes escrow.payee) bad_address
  check_new_account_credit escrow.payee escrow.amount
  credit_account env escrow.payee bytes escrow.amount

unfoldable pub release_escrow : Env → String → ℕ → Exec State (Unit {0})
release_escrow env creator id = do
  or_raise (env.string_to_bytes creator) bad_address
  escrow ← read (escrow_of id) key_not_found
  raise_if (not (is_releasable escrow.status)) invalid_request
  raise_if (release_refused env.block_time creator escrow) unauthorized
  pay_payee env escrow
  modify (
      put_escrow escrow.id
        (record escrow { status = EscrowStatus.released; released_at = env.block_time }))

-- Whether the time is wrong for a refund: before the end of the contest window of a failed escrow,
-- or from the deadline of a locked one on.
unfoldable pub refund_refused : ℕ → Escrow → Bool
refund_refused now escrow =
    if is_fail_attested escrow.status
    then slt now escrow.challenge_deadline
    else sle escrow.deadline now

-- The escrow's amount goes back to the payer.
unfoldable pub pay_payer : Env → Escrow → Exec State (Unit {0})
pay_payer env escrow = do
  bytes ← or_raise (env.string_to_bytes escrow.payer) bad_address
  credit_account env escrow.payer bytes escrow.amount

unfoldable pub refund_escrow : Env → String → ℕ → Exec State (Unit {0})
refund_escrow env creator id = do
  or_raise (env.string_to_bytes creator) bad_address
  escrow ← read (escrow_of id) key_not_found
  raise_if (not (is_locked escrow.status || is_fail_attested escrow.status)) invalid_request
  raise_if (not (str_eq creator escrow.payer)) unauthorized
  raise_if (refund_refused env.block_time escrow) unauthorized
  pay_payer env escrow
  modify (put_escrow escrow.id (record escrow { status = EscrowStatus.refunded }))

unfoldable pub dispute_escrow : Env → String → ℕ → Exec State (Unit {0})
dispute_escrow env creator id = do
  or_raise (env.string_to_bytes creator) bad_address
  escrow ← read (escrow_of id) key_not_found
  raise_if (not (is_submitted escrow.status)) invalid_request
  raise_if (not (str_eq creator escrow.payer)) unauthorized
  raise_if (is_verifier_bound escrow) invalid_request
  modify (put_escrow escrow.id (record escrow { status = EscrowStatus.disputed }))
