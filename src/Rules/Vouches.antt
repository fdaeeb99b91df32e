-- ===== src/Rules/Vouches.antt =====
-- A vouch and its withdrawal (Msg/Vouches.antt).
use mathlib.Core.Path.{subst}
use ag3nt_coin.Base.{
  ap, ◌∙◌, inl, inr, Bool-cases, arith, eq_refl, eq_iff, ◌==◌, ==_iff, sym, str_eq, ◌<◌, ◌≡◌, refl,
  ℕ, ◌≤◌, String, none, some, true, ltb→le,
}
use ag3nt_coin.Base.Words.{word, add64, sub64, add64-eq, sub64-eq}
use ag3nt_coin.Base.Store.{uint_key, string_key}
use ag3nt_coin.Base.Store.Laws.{get-set_self, get-set_ne, get-remove_ne, find-set_only, le-sum-some}
use ag3nt_coin.Base.Store.Distinct.{get-remove_self, set-IsDistinct}
use ag3nt_coin.Exec.{◌>>=◌, succeeds, final, ok}
use ag3nt_coin.Exec.Returns.{
  Returns, success, Returns-or_raise, Returns-raise_if, Returns-gets, Returns-modify, Returns-final,
}
use ag3nt_coin.Types.{Account, Vouch}
use ag3nt_coin.Keeper.{State, Env, Returns-read, account_of, put_account, read, vouch_of}
use ag3nt_coin.Invariant.{IsWellFormed, vouch_id}
use ag3nt_coin.Invariant.Records.{next_is_fresh}
use ag3nt_coin.Supply.{supply, balance}
use ag3nt_coin.Msg.Vouches.{
  MsgCastvouch, castvouch, find_vouch, refunded_balance, upsert_vouch, unvouch, remove_vouch,
}

-- The vouch that Castvouch stores under a new id.
abbrev given : MsgCastvouch → ℕ → Vouch
given msg id = record {
  id = id;
  from_addr = msg.creator;
  to_addr = msg.to_addr;
  weight = msg.weight;
  stake = msg.stake;
}

abbrev debited : MsgCastvouch → Account → State → State
debited msg acct s =
    put_account msg.creator (record acct { balance = sub64 acct.balance msg.stake }) s

-- What Castvouch has checked and written, where there was no vouch.
record Cast (env : Env) (msg : MsgCastvouch) (s s' : State) : Type 0 where
  from_bytes : String
  from_address : env.string_to_bytes msg.creator ≡ some from_bytes
  to_bytes : String
  to_address : env.string_to_bytes msg.to_addr ≡ some to_bytes
  acct : Account
  stored : account_of msg.creator s ≡ some acct
  enough : msg.stake ≤ acct.balance
  result : s' ≡ upsert_vouch msg none (debited msg acct s)

castvouch-Cast :
    (env : Env) (msg : MsgCastvouch) (s : State)
    → find_vouch msg.creator msg.to_addr s ≡ none
    → Returns (λ _ s'. Cast env msg s s') (castvouch env msg s)
unfolding castvouch
castvouch-Cast env msg s absent = Returns-or_raise _ _ _ s λ from_bytes from_address.
    Returns-or_raise _ _ _ s λ to_bytes to_address. Returns-raise_if _ _ _ s λ _.
      Returns-raise_if _ _ _ s λ _. Returns-raise_if _ _ _ s λ _. Returns-read _ _ _ s λ from e.
        Returns-raise_if _ _ _ s λ _. Returns-read _ _ _ s λ to _. Returns-raise_if _ _ _ s λ _.
          Returns-gets _ _ s (
            rw absent (
              Returns-raise_if _ _ _ s λ enough. Returns-modify _ _ s (
                unfold ◌>>=◌ refunded_balance in
                success (record {
                  from_bytes = from_bytes;
                  from_address = from_address;
                  to_bytes = to_bytes;
                  to_address = to_address;
                  acct = from;
                  stored = e;
                  enough = unfold refunded_balance in ltb→le _ _ enough;
                  result = unfold refunded_balance in refl;
                }))))

module _ (msg : MsgCastvouch) (acct : Account) (s : State) where
  -- The stores after Castvouch, and after Unvouch.
  abbrev vouched : State
  vouched = upsert_vouch msg none (debited msg acct s)

  abbrev restored : Account
  restored = record acct { balance = add64 (sub64 acct.balance msg.stake) msg.stake }

  abbrev withdrawn : State
  withdrawn = remove_vouch s.vouch_seq (put_account msg.creator restored vouched)

  find_vouch-vouched :
      IsWellFormed s
      → find_vouch msg.creator msg.to_addr s ≡ none
      → find_vouch msg.creator msg.to_addr vouched ≡ some (s.vouch_seq, given msg s.vouch_seq)
  unfolding find_vouch upsert_vouch
  find_vouch-vouched wf absent =
      find-set_only _ s.vouch_seq (given msg s.vouch_seq) s.vouch absent
        (rw (eq_refl msg.creator, eq_refl msg.to_addr) refl)
        (next_is_fresh vouch_id s.vouch_seq s.vouch wf.vouches)

  account_of-vouched :
      account_of msg.creator vouched ≡ some (record acct { balance = sub64 acct.balance msg.stake })
  unfolding upsert_vouch
  account_of-vouched = get-set_self msg.creator _ s.account

  unvouch-vouched :
      (env : Env) (from_bytes to_bytes : String)
      → env.string_to_bytes msg.creator ≡ some from_bytes
      → env.string_to_bytes msg.to_addr ≡ some to_bytes
      → IsWellFormed s
      → find_vouch msg.creator msg.to_addr s ≡ none
      → unvouch env msg.creator msg.to_addr vouched ≡ ok tt withdrawn
  unfolding unvouch read ◌>>=◌
  unvouch-vouched env from_bytes to_bytes from to wf absent =
      rw (from, to, find_vouch-vouched wf absent, account_of-vouched) refl

  restored-eq : msg.stake ≤ acct.balance → acct.balance < word → restored ≡ acct
  restored-eq le fits =
      let back : add64 (sub64 acct.balance msg.stake) msg.stake ≡ acct.balance =
        let less = sub64-eq acct.balance msg.stake le fits in
        omega (
          arith,
          less,
          le,
          fits,
          add64-eq (sub64 acct.balance msg.stake) msg.stake (omega (arith, less, le, fits)),
        ) in
      ap (λ n. record acct { balance = n }) back

  account_of-withdrawn :
      account_of msg.creator s ≡ some acct
      → restored ≡ acct
      → (a : String) → account_of a withdrawn ≡ account_of a s
  unfolding remove_vouch upsert_vouch
  account_of-withdrawn stored same a = elim (Bool-cases (str_eq a msg.creator)) [
    | inl here ↦
        subst (λ c. account_of c withdrawn ≡ account_of c s) (sym ((eq_iff a msg.creator).0 here))
          (get-set_self msg.creator restored _ ∙ ap some same ∙ sym stored)
    | inr away ↦
        let other : ¬ (a ≡ msg.creator) = λ e. cc (away, (eq_iff a msg.creator).1 e) in
        get-set_ne a msg.creator restored _ other ∙ get-set_ne a msg.creator _ s.account other
  ]

  vouch_of-withdrawn : IsWellFormed s → (k : ℕ) → vouch_of k withdrawn ≡ vouch_of k s
  unfolding remove_vouch upsert_vouch
  vouch_of-withdrawn wf k = elim (Bool-cases (k == s.vouch_seq)) [
    | inl here ↦
        subst (λ c. vouch_of c withdrawn ≡ vouch_of c s) (sym ((==_iff k s.vouch_seq).0 here))
          (get-remove_self s.vouch_seq _ (set-IsDistinct s.vouch_seq _ s.vouch wf.distinct)
            ∙ sym (next_is_fresh vouch_id s.vouch_seq s.vouch wf.vouches))
    | inr away ↦
        let other : ¬ (k ≡ s.vouch_seq) = λ e. cc (away, (==_iff k s.vouch_seq).1 e) in
        get-remove_ne k s.vouch_seq _ other ∙ get-set_ne k s.vouch_seq _ s.vouch other
  ]

-- Unvouch succeeds in `s'`, and leaves the accounts and the vouches of `s`.
abbrev pub Withdraws : Env → MsgCastvouch → State → State → Type 0
Withdraws env msg s s' =
    (t : State) × (unvouch env msg.creator msg.to_addr s' ≡ ok tt t)
    × ((a : String) → account_of a t ≡ account_of a s)
    × ((k : ℕ) → vouch_of k t ≡ vouch_of k s)

-- In a well-formed store whose coins fit a uint64, after a Castvouch that succeeds where there was
-- no vouch of the pair, Unvouch succeeds, and every account and every vouch is as it was before the
-- two.
pub castvouch-unvouch :
    (env : Env) (msg : MsgCastvouch) (s : State)
    → IsWellFormed s
    → supply s < word
    → find_vouch msg.creator msg.to_addr s ≡ none
    → succeeds (castvouch env msg s) ≡ true
    → Withdraws env msg s (final (castvouch env msg s))
castvouch-unvouch env msg s wf small absent done =
    let c = Returns-final _ (castvouch-Cast env msg s absent) done in
    let fits : c.acct.balance < word =
      unfold supply in
      omega (arith, le-sum-some balance msg.creator c.acct s.account c.stored, small) in
    subst (Withdraws env msg s) (sym c.result) (
      withdrawn msg c.acct s,
      unvouch-vouched msg c.acct s env c.from_bytes c.to_bytes c.from_address c.to_address wf
          absent,
      account_of-withdrawn msg c.acct s c.stored (restored-eq msg c.acct s c.enough fits),
      vouch_of-withdrawn msg c.acct s wf,
    )
