-- ===== src/Frame/Payments.antt =====
-- What the laws of a frame give for the shared steps of the handlers: reads and payments of
-- accounts (Keeper/Credit.antt), bonds (Msg/Bonds.antt), and rewards (Keeper/Emission.antt).
use ag3nt_coin.Base.{◌≡◌, refl, ℕ, String, Option, none, some}
use ag3nt_coin.Base.Store.{string_key}
use ag3nt_coin.Exec.{Error, Exec, gets, modify, or_raise, ◌>>=◌}
use ag3nt_coin.Exec.Returns.{Returns, success, failure}
use ag3nt_coin.Exec.Keeps.{
  Keeps, Keeps-modify, Keeps-known, Keeps-bind, Keeps-raise_if, Yields, keeps_rules,
}
use ag3nt_coin.Types.{Account, Escrow, Bond, BondStatus}
use ag3nt_coin.Keeper.{State, Env, read, Keeps-read, account_of, put_account, put_bond, add_bond}
use ag3nt_coin.Keeper.Credit.{
  check_new_account_credit, credit_account, ensure_auth_account, ensure_registered, opened,
}
use ag3nt_coin.Keeper.Emission.{
  emission_or_default, get_emission_state, sync_emission_state, mint_protocol_reward,
}
use ag3nt_coin.Msg.Bonds.{lock_bond, settle_bond}
use ag3nt_coin.Msg.Escrows.{pay_payee, pay_payer}
use ag3nt_coin.Frame.{Frame}

module _ {P : State → Type 0} (frame : Frame P) where
  pub put_account-Keeps :
      (k : String) (a : Account) → frame.Known k a.address → Keeps P (modify (put_account k a))
  put_account-Keeps k a known = Keeps-modify _ (frame.writes_account k a known)

  pub put_bond-Keeps : (k : ℕ) (b : Bond) → Keeps P (modify (put_bond k b))
  put_bond-Keeps k b = Keeps-modify _ (frame.writes_bond k b)

  add_bond-Keeps : (b : ℕ → Bond) → Keeps P (modify (add_bond b))
  add_bond-Keeps b = Keeps-modify _ (frame.adds_bond b)

  auth-Keeps : (env : Env) (bytes : String) → Keeps P (modify (ensure_auth_account env bytes))
  auth-Keeps env bytes = Keeps-modify _ (frame.writes_auth env bytes)

  Known-opened : (k : String) (s : State) → P s → frame.Known k (opened k (account_of k s)).address
  unfolding opened
  Known-opened k s h = go (account_of k s) (λ a found. frame.known_found k a s h found)
    where
      go :
          (o : Option Account)
          → ((a : Account) → o ≡ some a → frame.Known k a.address)
          → frame.Known k (opened k o).address
      go none known = frame.known_fresh k
      go (some a) known = known a refl

  -- An account that is read, or opened, may stand under the key under which it was looked for.
  pub read_account-Keeps :
      {B : Type 0} (k : String) (e : Error) (next : Account → Exec State B)
      → ((a : Account) → frame.Known k a.address → Keeps P (next a))
      → Keeps P (read (account_of k) e >>= next)
  unfolding read or_raise
  read_account-Keeps k e next kept =
      Keeps-known (λ a. frame.Known k a.address) (read (account_of k) e) next
        (record {
          kept = (Keeps-read {P = P} (account_of k) e).carries;
          result = λ s h. found (account_of k s) s (λ a stored. frame.known_found k a s h stored);
        })
        kept
    where
      found :
          (o : Option Account) (s : State)
          → ((a : Account) → o ≡ some a → frame.Known k a.address)
          → Returns (λ a _. frame.Known k a.address) (or_raise o e s)
      found none s known = failure
      found (some a) s known = success (known a refl)

  pub gets_account-Keeps :
      {B : Type 0} (k : String) (next : Option Account → Exec State B)
      → ((o : Option Account) → frame.Known k (opened k o).address → Keeps P (next o))
      → Keeps P (gets (account_of k) >>= next)
  gets_account-Keeps k next kept =
      Keeps-known (λ o. frame.Known k (opened k o).address) (gets (account_of k)) next
        (record {
          kept = λ s h. unfold gets in h;
          result = λ s h. unfold gets in success (Known-opened k s h);
        })
        kept

  pub check_new_account_credit-Keeps :
      (addr : String) (amount : ℕ) → Keeps P (check_new_account_credit addr amount)
  unfolding check_new_account_credit
  check_new_account_credit-Keeps addr amount = search keeps_rules depth 30 fits 4000

  pub credit_account-Keeps :
      (env : Env) (addr bytes : String) (amount : ℕ)
      → Keeps P (credit_account env addr bytes amount)
  unfolding credit_account
  credit_account-Keeps env addr bytes amount =
      search (gets_account-Keeps, put_account-Keeps, auth-Keeps, keeps_rules) depth 30 fits 4000

  pub ensure_registered-Keeps :
      (env : Env) (addr bytes : String) (amount : ℕ)
      → Keeps P (ensure_registered env addr bytes amount)
  unfolding ensure_registered
  ensure_registered-Keeps env addr bytes amount =
      search (gets_account-Keeps, put_account-Keeps, auth-Keeps, keeps_rules) depth 30 fits 4000

  pub pay_payee-Keeps : (env : Env) (escrow : Escrow) → Keeps P (pay_payee env escrow)
  unfolding pay_payee
  pay_payee-Keeps env escrow =
      search (keeps_rules, check_new_account_credit-Keeps, credit_account-Keeps) depth 30 fits 4000

  pub pay_payer-Keeps : (env : Env) (escrow : Escrow) → Keeps P (pay_payer env escrow)
  unfolding pay_payer
  pay_payer-Keeps env escrow = search (keeps_rules, credit_account-Keeps) depth 30 fits 4000

  pub lock_bond-Keeps :
      (poster : Account) (creator : String) (amount : ℕ) (purpose slasher ref : String)
      → frame.Known creator poster.address
      → Keeps P (lock_bond poster creator amount purpose slasher ref)
  unfolding lock_bond
  lock_bond-Keeps poster creator amount purpose slasher ref known =
      search (put_account-Keeps, add_bond-Keeps, keeps_rules) depth 30 fits 4000

  pub settle_bond-Keeps :
      (recipient : String) (status : BondStatus) (bond : Bond)
      → Keeps P (settle_bond recipient status bond)
  unfolding settle_bond
  settle_bond-Keeps recipient status bond =
      search (read_account-Keeps, put_account-Keeps, put_bond-Keeps, keeps_rules) depth 30 fits 4000

  sync_emission_state-Yields : (env : Env) → Yields P frame.Begun (sync_emission_state env)
  unfolding sync_emission_state get_emission_state ◌>>=◌
  sync_emission_state-Yields env =
      let read_begun = λ (s : State) (h : P s). frame.begun_read env s h in
      let synced = λ (s : State) (h : P s).
        frame.begun_synced env.block_time (emission_or_default env s.emission_state)
          (read_begun s h) in
      record {
        kept = λ s h.
            frame.writes_emission _ (synced s h) _ (frame.writes_emission _ (read_begun s h) s h);
        result = λ s h. success (synced s h);
      }

  pub mint_protocol_reward-Keeps :
      (env : Env) (recipient bytes : String) (amount : ℕ)
      → Keeps P (mint_protocol_reward env recipient bytes amount)
  unfolding mint_protocol_reward
  mint_protocol_reward-Keeps env recipient bytes amount = Keeps-bind _ _ (Keeps-raise_if _ _) λ _.
      Keeps-bind _ _ (check_new_account_credit-Keeps recipient amount) λ _.
        Keeps-known frame.Begun _ _ (sync_emission_state-Yields env) λ e begun.
          Keeps-bind _ _ (Keeps-raise_if _ _) λ _. Keeps-bind _ _ (Keeps-raise_if _ _) λ _.
            Keeps-bind _ _
              (Keeps-modify _ (frame.writes_emission _ (frame.begun_minted e amount begun)))
              λ _. credit_account-Keeps env recipient bytes amount
