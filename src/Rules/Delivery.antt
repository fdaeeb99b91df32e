-- ===== src/Rules/Delivery.antt =====
-- From the delivery of a locked escrow to its payment (Msg/Escrows.antt).
use mathlib.Core.Path.{subst}
use ag3nt_coin.Base.{
  inl, inr, arith, ◌+◌, ◌<◌, ==_iff, ◌∙◌, eq_refl, ◌≡◌, refl, String, Bool, true, false, some, not,
  ◌&&◌, str_eq,
}
use ag3nt_coin.Base.Words.{word}
use ag3nt_coin.Base.Store.{uint_key, string_key}
use ag3nt_coin.Base.Store.Laws.{get-set_self}
use ag3nt_coin.Exec.{ok, raise_if, ◌>>=◌}
use ag3nt_coin.Types.{Account, Escrow, EscrowStatus, is_locked}
use ag3nt_coin.Keeper.{State, Env, read, account_of, escrow_of, put_escrow}
use ag3nt_coin.Keeper.Hash.{is_hex_sha256}
use ag3nt_coin.Msg.Escrows.{MsgSubmitEscrow, submit_escrow, is_verifier_bound}
use ag3nt_coin.Invariant.{IsWellFormed, escrow_id}
use ag3nt_coin.Invariant.Records.{id-of-found}
use ag3nt_coin.Rules.Payouts.{release_escrow_pays}
use ag3nt_coin.Supply.{supply}
use ag3nt_coin.Supply.Escrows.{submit_escrow-Conserves}
use ag3nt_coin.Exec.Returns.{Returns-ok}
use ag3nt_coin.Chain.{Message, handle}

-- The escrow that SubmitEscrow stores.
abbrev delivered : Env → MsgSubmitEscrow → Escrow → Escrow
delivered env msg e = record e {
  status = EscrowStatus.submitted;
  delivery_hash = msg.delivery_hash;
  key_hash = msg.key_hash;
  artifact_uri = msg.artifact_uri;
  submitted_at = env.block_time;
}

-- What a delivery needs: the payee delivers two digests.
pub record Delivers (env : Env) (msg : MsgSubmitEscrow) (e : Escrow) (s : State) : Type 0 where
  pub stored : escrow_of msg.id s ≡ some e
  pub still_locked : is_locked e.status ≡ true
  pub bytes : String
  pub address : env.string_to_bytes msg.creator ≡ some bytes
  pub by_payee : msg.creator ≡ e.payee
  pub delivery_is_hex : is_hex_sha256 msg.delivery_hash ≡ true
  pub key_is_hex : is_hex_sha256 msg.key_hash ≡ true

and_false : (b : Bool) → (b && false) ≡ false
and_false true = refl
and_false false = refl

submit_escrow-delivered :
    (env : Env) (msg : MsgSubmitEscrow) (e : Escrow) (s : State)
    → Delivers env msg e s
    → submit_escrow env msg s ≡ ok tt (put_escrow e.id (delivered env msg e) s)
unfolding submit_escrow read raise_if ◌>>=◌
submit_escrow-delivered env msg e s d =
    let payee : str_eq msg.creator e.payee ≡ true =
      subst (λ a. str_eq msg.creator a ≡ true) d.by_payee (eq_refl msg.creator) in
    rw (d.address, d.stored, d.still_locked, payee, d.delivery_is_hex, d.key_is_hex)
      (rw
        (
          and_false (is_verifier_bound e),
          and_false (not (str_eq msg.delivery_hash "")),
          and_false (not (str_eq msg.key_hash "")),
        )
        refl)

-- The delivery, handled in the surroundings `env`, and then the release by the payer, handled in
-- `env'`, both succeed: the payee has the escrow's amount more, and the escrow is released under the
-- two digests delivered.
pub record Completes (env env' : Env) (msg : MsgSubmitEscrow) (e : Escrow) (payee : Account)
    (s : State) : Type 0 where
  pub submitted : State
  pub submits : handle env (Message.msg_submit_escrow msg) s ≡ ok tt submitted
  pub end : State
  pub releases : handle env' (Message.msg_release_escrow e.payer msg.id) submitted ≡ ok tt end
  pub paid : Account
  pub paid_found : account_of e.payee end ≡ some paid
  pub raised : paid.balance ≡ payee.balance + e.amount
  pub total : supply end ≡ supply s
  pub released : Escrow
  pub released_found : escrow_of msg.id end ≡ some released
  pub is_over : released.status ≡ EscrowStatus.released
  pub delivery : released.delivery_hash ≡ msg.delivery_hash
  pub key : released.key_hash ≡ msg.key_hash

-- In a well-formed store whose coins fit a uint64, let an escrow be locked, let the payer's and the
-- payee's addresses be valid, let the payee have an account, and let the payee deliver two
-- hexadecimal digests. Then the delivery succeeds, and after it the release by the payer succeeds,
-- each at whatever time: at the end the payee's balance is higher by exactly the escrow's amount,
-- the sum of all coins is the same, and the escrow is stored as released under the two digests.
pub delivery-Completes :
    (env env' : Env) (msg : MsgSubmitEscrow) (e : Escrow) (payee : Account) (s : State)
    (payer_bytes payee_bytes : String)
    → IsWellFormed s
    → supply s < word
    → Delivers env msg e s
    → env'.string_to_bytes e.payer ≡ some payer_bytes
    → env'.string_to_bytes e.payee ≡ some payee_bytes
    → account_of e.payee s ≡ some payee
    → Completes env env' msg e payee s
unfolding handle
delivery-Completes env env' msg e payee s payer_bytes payee_bytes wf small d payer_ok payee_ok
      paid =
    let same = id-of-found escrow_id s.escrow_seq s.escrow wf.escrows msg.id e d.stored in
    let t = put_escrow e.id (delivered env msg e) s in
    let submits = submit_escrow-delivered env msg e s d in
    let moved =
      Returns-ok (submit_escrow env msg s) (submit_escrow-Conserves s wf env msg) submits in
    let (u, pays, out) =
      release_escrow_pays t moved.well_formed (omega (arith, moved.total, small)) env' e.payer
        msg.id payer_bytes payee_bytes (delivered env msg e) payee payer_ok
        (subst (λ k. escrow_of k t ≡ some (delivered env msg e)) same
          (get-set_self e.id (delivered env msg e) s.escrow))
        (inr (inl refl)) (inl (eq_refl e.payer)) payee_ok paid in
    record {
      submitted = t;
      submits = submits;
      end = u;
      releases = pays;
      paid = out.account;
      paid_found = rw (eq_refl e.payee) at (out.accounts e.payee);
      raised = out.raised;
      total = out.total ∙ moved.total;
      released = record (delivered env msg e) {
        status = EscrowStatus.released;
        released_at = env'.block_time;
      };
      released_found = rw ((==_iff msg.id msg.id).1 refl) at (out.escrows msg.id);
      is_over = refl;
      delivery = refl;
      key = refl;
    }
