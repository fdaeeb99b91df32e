-- ===== src/Supply/Vouches.antt =====
-- The coins under the handlers of Msg/Vouches.antt.
use ag3nt_coin.Base.{ℕ, ◌+◌, ◌≤◌, ◌<◌, ◌≡◌, refl, String, Option, none, some, arith, ltb→le}
use ag3nt_coin.Base.Store
use ag3nt_coin.Base.Store.{uint_key}
use ag3nt_coin.Base.Store.Laws.{sum-set-some, sum-set-none, sum-remove-some, le-sum-some}
use ag3nt_coin.Base.Store.Distinct.{set-IsDistinct, remove-IsDistinct, find-get}
use ag3nt_coin.Base.Words.{word, add64, sub64, add64-eq, sub64-eq}
use ag3nt_coin.Exec.Returns.{
  Returns, success, Returns-or_raise, Returns-raise_if, Returns-gets, Returns-modify,
}
use ag3nt_coin.Exec.{◌>>=◌}
use ag3nt_coin.Types.{Account, Vouch}
use ag3nt_coin.Keeper.{State, Env, Returns-read, account_of, put_account}
use ag3nt_coin.Msg.Vouches.{
  MsgCastvouch, find_vouch, refunded_balance, upsert_vouch, remove_vouch, castvouch, unvouch,
}
use ag3nt_coin.Invariant.{IsWellFormed, vouch_id}
use ag3nt_coin.Invariant.Records.{
  next_is_fresh, update-IsNumbered, add-IsNumbered, remove-IsNumbered,
}
use ag3nt_coin.Supply.{balance, stake, supply}
use ag3nt_coin.Supply.Payments.{sum-debit}
use ag3nt_coin.Supply.Steps.{Conserves}

module _ (s : State) (wf : IsWellFormed s) (small : supply s < word) where
  -- A vouch that the walk finds stands under the key that the walk reports.
  pub found_vouch_is_stored :
      (from to : String) (id : ℕ) (v : Vouch)
      → find_vouch from to s ≡ some (id, v)
      → Store.get id s.vouch ≡ some v
  unfolding find_vouch
  found_vouch_is_stored from to id v e = find-get _ s.vouch id v wf.distinct e

  -- Balance and stake of one account together are part of the supply.
  balance-add-stake-le-supply :
      (a : String) (acct : Account) (id : ℕ) (v : Vouch)
      → account_of a s ≡ some acct
      → Store.get id s.vouch ≡ some v
      → acct.balance + v.stake ≤ supply s
  unfolding supply
  balance-add-stake-le-supply a acct id v e f =
      omega (arith, le-sum-some balance a acct s.account e, le-sum-some stake id v s.vouch f)

  -- The write of the voucher's balance and of the vouch, when there was no vouch before.
  new_vouch-Conserves :
      (msg : MsgCastvouch) (acct : Account)
      → account_of msg.creator s ≡ some acct
      → msg.stake ≤ acct.balance
      → Conserves s (
          upsert_vouch msg none
            (put_account msg.creator (record acct { balance = sub64 acct.balance msg.stake }) s))
  unfolding upsert_vouch supply
  new_vouch-Conserves msg acct e le = record {
    well_formed = record {
      vouches = add-IsNumbered vouch_id s.vouch_seq s.vouch wf.vouches _ refl;
      distinct = set-IsDistinct _ _ s.vouch wf.distinct;
      escrows = wf.escrows;
      disputes = wf.disputes;
      bonds = wf.bonds;
      gates = wf.gates;
    };
    total = omega (
      arith,
      sum-debit s small msg.creator acct msg.stake e le,
      sum-set-none stake s.vouch_seq
          (record {
            id = s.vouch_seq;
            from_addr = msg.creator;
            to_addr = msg.to_addr;
            weight = msg.weight;
            stake = msg.stake;
          })
          s.vouch (next_is_fresh vouch_id s.vouch_seq s.vouch wf.vouches),
    );
    emission = refl;
  }

  -- The same, when the stake of the vouch before is given back.
  old_vouch-Conserves :
      (msg : MsgCastvouch) (acct : Account) (id : ℕ) (v : Vouch)
      → account_of msg.creator s ≡ some acct
      → Store.get id s.vouch ≡ some v
      → msg.stake ≤ add64 acct.balance v.stake
      → Conserves s (
          upsert_vouch msg (some (id, v)) (
            put_account msg.creator
              (record acct { balance = sub64 (add64 acct.balance v.stake) msg.stake })
              s))
  unfolding upsert_vouch
  old_vouch-Conserves msg acct id v e f le =
      let bound = balance-add-stake-le-supply msg.creator acct id v e f in
      let sum = add64-eq acct.balance v.stake (omega (arith, bound)) in
      record {
        well_formed = record {
          vouches = update-IsNumbered vouch_id s.vouch_seq s.vouch wf.vouches id _ v f refl;
          distinct = set-IsDistinct _ _ s.vouch wf.distinct;
          escrows = wf.escrows;
          disputes = wf.disputes;
          bonds = wf.bonds;
          gates = wf.gates;
        };
        total =
            unfold supply in
            omega (
              arith,
              sum,
              bound,
              sub64-eq (add64 acct.balance v.stake) msg.stake le,
              sum-set-some balance msg.creator
                  (record acct { balance = sub64 (add64 acct.balance v.stake) msg.stake }) acct
                  s.account e,
              sum-set-some stake id
                  (record {
                    id = id;
                    from_addr = msg.creator;
                    to_addr = msg.to_addr;
                    weight = msg.weight;
                    stake = msg.stake;
                  })
                  v s.vouch f,
            );
        emission = refl;
      }

  vouched-Conserves :
      (msg : MsgCastvouch) (acct : Account) (found : Option (ℕ × Vouch))
      → account_of msg.creator s ≡ some acct
      → find_vouch msg.creator msg.to_addr s ≡ found
      → msg.stake ≤ refunded_balance acct found
      → Conserves s (
          upsert_vouch msg found (
            put_account msg.creator
              (record acct { balance = sub64 (refunded_balance acct found) msg.stake })
              s))
  unfolding refunded_balance
  vouched-Conserves msg acct none e f le = new_vouch-Conserves msg acct e le
  vouched-Conserves msg acct (some (id, v)) e f le =
      old_vouch-Conserves msg acct id v e (found_vouch_is_stored _ _ id v f) le

  -- Castvouch, when it succeeds in a well-formed store whose coins fit a uint64, keeps the store
  -- well formed, keeps the sum of all balances, escrows, bonds and vouch stakes, and leaves the
  -- emission state alone, whether it makes a vouch or replaces one.
  pub castvouch-Conserves :
      (env : Env) (msg : MsgCastvouch) → Returns (λ _ s'. Conserves s s') (castvouch env msg s)
  unfolding castvouch
  castvouch-Conserves env msg = Returns-or_raise _ _ _ s λ _ _. Returns-or_raise _ _ _ s λ _ _.
      Returns-raise_if _ _ _ s λ other. Returns-raise_if _ _ _ s λ weight.
        Returns-raise_if _ _ _ s λ least. Returns-read _ _ _ s λ from e.
          Returns-raise_if _ _ _ s λ registered. Returns-read _ _ _ s λ to f.
            Returns-raise_if _ _ _ s λ known. Returns-gets _ _ s (
              Returns-raise_if _ _ _ s λ enough.
                Returns-modify _ _ s (
                  unfold ◌>>=◌ in
                  success (vouched-Conserves msg from _ e refl (ltb→le _ _ enough))))

  unvouched-Conserves :
      (a : String) (acct : Account) (id : ℕ) (v : Vouch)
      → account_of a s ≡ some acct
      → Store.get id s.vouch ≡ some v
      → Conserves s
          (remove_vouch id (put_account a (record acct { balance = add64 acct.balance v.stake }) s))
  unfolding remove_vouch
  unvouched-Conserves a acct id v e f =
      let bound = balance-add-stake-le-supply a acct id v e f in
      record {
        well_formed = record {
          vouches = remove-IsNumbered vouch_id s.vouch_seq s.vouch wf.vouches id;
          distinct = remove-IsDistinct id s.vouch wf.distinct;
          escrows = wf.escrows;
          disputes = wf.disputes;
          bonds = wf.bonds;
          gates = wf.gates;
        };
        total =
            unfold supply in
            omega (
              arith,
              bound,
              add64-eq acct.balance v.stake (omega (arith, bound)),
              sum-set-some balance a (record acct { balance = add64 acct.balance v.stake }) acct
                  s.account e,
              sum-remove-some stake id v s.vouch f,
            );
        emission = refl;
      }

  -- Unvouch, when it succeeds in a well-formed store whose coins fit a uint64, keeps the store well
  -- formed, keeps the sum of all balances, escrows, bonds and vouch stakes, and leaves the emission
  -- state alone.
  pub unvouch-Conserves :
      (env : Env) (creator to_addr : String)
      → Returns (λ _ s'. Conserves s s') (unvouch env creator to_addr s)
  unfolding unvouch
  unvouch-Conserves env creator to_addr = Returns-or_raise _ _ _ s λ _ _.
      Returns-or_raise _ _ _ s λ _ _. Returns-read _ _ _ s λ entry f. Returns-read _ _ _ s λ from e.
        Returns-modify _ _ s (
          unfold ◌>>=◌ in
          success (
            unvouched-Conserves creator from entry.0 entry.1 e
              (found_vouch_is_stored _ _ entry.0 entry.1 f)))
