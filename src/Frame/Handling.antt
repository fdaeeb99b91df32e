-- ===== src/Frame/Handling.antt =====
-- The handlers that write no escrow keep what has the laws of a frame: those of accounts, vouches
-- and bonds, the checks of LockEscrow, and the return of attestation bonds.
use ag3nt_coin.Base.{ℕ, String, Option, none, some, List, [], ◌∷◌}
use ag3nt_coin.Exec.{modify}
use ag3nt_coin.Exec.Keeps.{
  Keeps, Keeps-modify, Keeps-bind, Keeps-pure, Keeps-raise, Keeps-gets, Keeps-or_raise,
  Keeps-raise_if, keeps_rules,
}
use ag3nt_coin.Types.{Vouch, Attestation, Bond, BondStatus}
use ag3nt_coin.Keeper.{State, Env, Keeps-read}
use ag3nt_coin.Msg.Accounts.{MsgTransfer, register, faucet, transfer}
use ag3nt_coin.Msg.Vouches.{MsgCastvouch, upsert_vouch, castvouch, remove_vouch, unvouch}
use ag3nt_coin.Msg.Bonds.{
  MsgPostBond, MsgSlashBond, post_bond, release_bond, pay_beneficiary, slash_bond,
}
use ag3nt_coin.Msg.Escrows.{MsgLockEscrow, check_verifiers, check_terms}
use ag3nt_coin.Msg.Verifiers.{reclaim_bond, reclaim_bonds, reclaim_attestation_bonds}
use ag3nt_coin.Frame.{Frame}
use ag3nt_coin.Frame.Payments.{
  put_account-Keeps, put_bond-Keeps, read_account-Keeps, check_new_account_credit-Keeps,
  credit_account-Keeps, lock_bond-Keeps, settle_bond-Keeps,
}

module _ {P : State → Type 0} (frame : Frame P) where
  pub register-Keeps : (env : Env) (creator : String) → Keeps P (register env creator)
  unfolding register
  register-Keeps env creator = Keeps-bind _ _ (Keeps-or_raise _ _) λ _.
      Keeps-bind _ _ (Keeps-gets _) λ _.
        Keeps-bind _ _ (Keeps-raise_if _ _)
          λ _. put_account-Keeps frame creator _ (frame.known_fresh creator)

  pub faucet-Keeps : Keeps P faucet
  unfolding faucet
  faucet-Keeps = Keeps-raise _

  pub transfer-Keeps : (env : Env) (msg : MsgTransfer) → Keeps P (transfer env msg)
  unfolding transfer
  transfer-Keeps env msg =
      search
        (
          read_account-Keeps frame,
          put_account-Keeps frame,
          check_new_account_credit-Keeps frame,
          credit_account-Keeps frame,
          keeps_rules,
          Keeps-read,
        )
        depth 30 fits 4000

  upsert_vouch-Keeps :
      (msg : MsgCastvouch) (found : Option (ℕ × Vouch)) → Keeps P (modify (upsert_vouch msg found))
  upsert_vouch-Keeps msg found = Keeps-modify _ (frame.writes_vouch msg found)

  pub castvouch-Keeps : (env : Env) (msg : MsgCastvouch) → Keeps P (castvouch env msg)
  unfolding castvouch
  castvouch-Keeps env msg =
      search
        (
          read_account-Keeps frame,
          put_account-Keeps frame,
          upsert_vouch-Keeps,
          keeps_rules,
          Keeps-read,
        )
        depth 30 fits 4000

  remove_vouch-Keeps : (id : ℕ) → Keeps P (modify (remove_vouch id))
  remove_vouch-Keeps id = Keeps-modify _ (frame.removes_vouch id)

  pub unvouch-Keeps : (env : Env) (creator to_addr : String) → Keeps P (unvouch env creator to_addr)
  unfolding unvouch
  unvouch-Keeps env creator to_addr =
      search
        (
          read_account-Keeps frame,
          put_account-Keeps frame,
          remove_vouch-Keeps,
          keeps_rules,
          Keeps-read,
        )
        depth 30 fits 4000

  pub post_bond-Keeps : (env : Env) (msg : MsgPostBond) → Keeps P (post_bond env msg)
  unfolding post_bond
  post_bond-Keeps env msg =
      search (read_account-Keeps frame, lock_bond-Keeps frame, keeps_rules, Keeps-read) depth 30
        fits 4000

  pub release_bond-Keeps :
      (env : Env) (creator : String) (id : ℕ) → Keeps P (release_bond env creator id)
  unfolding release_bond
  release_bond-Keeps env creator id =
      search (settle_bond-Keeps frame, keeps_rules, Keeps-read) depth 30 fits 4000

  pay_beneficiary-Keeps :
      (env : Env) (beneficiary : String) (amount : ℕ)
      → Keeps P (pay_beneficiary env beneficiary amount)
  unfolding pay_beneficiary
  pay_beneficiary-Keeps env beneficiary amount =
      search (check_new_account_credit-Keeps frame, credit_account-Keeps frame, keeps_rules) depth
        30 fits 4000

  pub slash_bond-Keeps : (env : Env) (msg : MsgSlashBond) → Keeps P (slash_bond env msg)
  unfolding slash_bond
  slash_bond-Keeps env msg =
      search (pay_beneficiary-Keeps, put_bond-Keeps frame, keeps_rules, Keeps-read) depth 30 fits
        4000

  check_verifiers-Keeps :
      (env : Env) (payer payee : String) (seen verifiers : List String)
      → Keeps P (check_verifiers env payer payee seen verifiers)
  unfolding check_verifiers
  check_verifiers-Keeps env payer payee seen [] = Keeps-pure tt
  check_verifiers-Keeps env payer payee seen (v ∷ rest) = Keeps-bind _ _ (Keeps-or_raise _ _) λ _.
      Keeps-bind _ _ (Keeps-raise_if _ _) λ _.
        Keeps-bind _ _ (Keeps-raise_if _ _)
          λ _. check_verifiers-Keeps env payer payee (v ∷ seen) rest

  pub check_terms-Keeps :
      (env : Env) (msg : MsgLockEscrow) (verifiers : List String)
      → Keeps P (check_terms env msg verifiers)
  unfolding check_terms
  check_terms-Keeps env msg [] = search keeps_rules depth 12
  check_terms-Keeps env msg (v ∷ rest) = search (keeps_rules, check_verifiers-Keeps) depth 12

  reclaim_bond-Keeps : (bond : Option Bond) → Keeps P (reclaim_bond bond)
  unfolding reclaim_bond
  reclaim_bond-Keeps none = Keeps-pure tt
  reclaim_bond-Keeps (some bond) = settle_bond-Keeps frame bond.poster BondStatus.released bond

  reclaim_bonds-Keeps :
      (purpose : String) (attestations : List Attestation)
      → Keeps P (reclaim_bonds purpose attestations)
  unfolding reclaim_bonds
  reclaim_bonds-Keeps purpose [] = Keeps-pure tt
  reclaim_bonds-Keeps purpose (a ∷ rest) =
      Keeps-bind _ _ (Keeps-gets _)
        λ bond. Keeps-bind _ _ (reclaim_bond-Keeps bond) λ _. reclaim_bonds-Keeps purpose rest

  pub reclaim_attestation_bonds-Keeps :
      (env : Env) (creator : String) (id : ℕ) → Keeps P (reclaim_attestation_bonds env creator id)
  unfolding reclaim_attestation_bonds
  reclaim_attestation_bonds-Keeps env creator id =
      search (reclaim_bonds-Keeps, keeps_rules, Keeps-read) depth 30 fits 4000
