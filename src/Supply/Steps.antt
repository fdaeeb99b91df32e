-- ===== src/Supply/Steps.antt =====
-- One write of the keeper's store at a time: how it moves the supply, and that the ids stay in
-- order. A handler's theorem composes these.
use ag3nt_coin.Base.{◌∙◌, ℕ, ◌+◌, ◌≤◌, ◌<◌, ◌≡◌, refl, String, some, arith}
use ag3nt_coin.Base.Store.{string_key, uint_key}
use ag3nt_coin.Base.Store.Laws.{sum-set-some, sum-set-none}
use ag3nt_coin.Base.Words.{word, add64, sub64}
use ag3nt_coin.Exec.{Exec, ◌>>=◌}
use ag3nt_coin.Exec.Returns.{Returns, Returns-call, Returns-weaken}
use ag3nt_coin.Types.{Account, Escrow, Bond, BondStatus, Dispute}
use ag3nt_coin.Keeper.{
  State, Env, account_of, put_account, bond_of, put_bond, escrow_of, put_escrow, add_escrow,
  dispute_of, put_dispute, add_dispute,
}
use ag3nt_coin.Invariant.{IsWellFormed, escrow_id, bond_id, dispute_id}
use ag3nt_coin.Invariant.Records.{next_is_fresh, update-IsNumbered, add-IsNumbered}
use ag3nt_coin.Supply.{bonded, held, supply}
use ag3nt_coin.Supply.Payments.{credited, locked_bond, sum-debit, sum-credit, sum-credited}

-- A step that moves coins and neither makes nor destroys any.
pub record Conserves (s s' : State) : Type 0 where
  pub well_formed : IsWellFormed s'
  pub total : supply s' ≡ supply s
  pub emission : s'.emission_state ≡ s.emission_state

pub Conserves-trans : {s t u : State} → Conserves s t → Conserves t u → Conserves s u
Conserves-trans h k = record {
  well_formed = k.well_formed;
  total = omega (arith, h.total, k.total);
  emission = k.emission ∙ h.emission;
}

-- A step that moves coins and leaves the disputes alone.
pub record Settles (s s' : State) : Type 0 where
  pub moved : Conserves s s'
  pub disputes : s'.dispute ≡ s.dispute

pub Settles-refl : (s : State) → IsWellFormed s → Settles s s
Settles-refl s wf = record {
  moved = record { well_formed = wf; total = refl; emission = refl };
  disputes = refl;
}

Settles-trans : {s t u : State} → Settles s t → Settles t u → Settles s u
Settles-trans h k = record {
  moved = Conserves-trans h.moved k.moved;
  disputes = k.disputes ∙ h.disputes;
}

-- Two steps, one after the other.
pub Settles-then :
    {A B : Type 0} (m : Exec State A) (f : A → Exec State B) (s : State)
    → Returns (λ _ s'. Settles s s') (m s)
    → ((a : A) (t : State) → Settles s t → Returns (λ _ s'. Settles t s') (f a t))
    → Returns (λ _ s'. Settles s s') ((m >>= f) s)
Settles-then m f s r h =
    Returns-call (λ _ t. Settles s t) m f s r
      λ a t st. Returns-weaken (λ _ u tu. Settles-trans st tu) (h a t st)

module _ (s : State) (wf : IsWellFormed s) where
  pub put_account-IsWellFormed : (a : String) (acct : Account) → IsWellFormed (put_account a acct s)
  put_account-IsWellFormed a acct = record {
    vouches = wf.vouches;
    distinct = wf.distinct;
    escrows = wf.escrows;
    disputes = wf.disputes;
    bonds = wf.bonds;
    gates = wf.gates;
  }

  pub credited-IsWellFormed :
      (env : Env) (a bytes : String) (amount : ℕ) → IsWellFormed (credited env a bytes amount s)
  unfolding credited
  credited-IsWellFormed env a bytes amount = record {
    vouches = wf.vouches;
    distinct = wf.distinct;
    escrows = wf.escrows;
    disputes = wf.disputes;
    bonds = wf.bonds;
    gates = wf.gates;
  }

  pub put_escrow-IsWellFormed :
      (k : ℕ) (e old : Escrow)
      → escrow_of k s ≡ some old
      → e.id ≡ k
      → IsWellFormed (put_escrow k e s)
  put_escrow-IsWellFormed k e old found same = record {
    vouches = wf.vouches;
    distinct = wf.distinct;
    escrows = update-IsNumbered escrow_id s.escrow_seq s.escrow wf.escrows k e old found same;
    disputes = wf.disputes;
    bonds = wf.bonds;
    gates = wf.gates;
  }

  pub add_escrow-IsWellFormed :
      (e : ℕ → Escrow) → (e s.escrow_seq).id ≡ s.escrow_seq → IsWellFormed (add_escrow e s)
  add_escrow-IsWellFormed e same = record {
    vouches = wf.vouches;
    distinct = wf.distinct;
    escrows = add-IsNumbered escrow_id s.escrow_seq s.escrow wf.escrows (e s.escrow_seq) same;
    disputes = wf.disputes;
    bonds = wf.bonds;
    gates = wf.gates;
  }

  pub put_bond-IsWellFormed :
      (k : ℕ) (b old : Bond) → bond_of k s ≡ some old → b.id ≡ k → IsWellFormed (put_bond k b s)
  put_bond-IsWellFormed k b old found same = record {
    vouches = wf.vouches;
    distinct = wf.distinct;
    escrows = wf.escrows;
    disputes = wf.disputes;
    bonds = update-IsNumbered bond_id s.bond_seq s.bond wf.bonds k b old found same;
    gates = wf.gates;
  }

  pub locked_bond-IsWellFormed :
      (poster : Account) (creator : String) (amount : ℕ) (purpose slasher ref : String)
      → IsWellFormed (locked_bond poster creator amount purpose slasher ref s)
  unfolding locked_bond
  locked_bond-IsWellFormed poster creator amount purpose slasher ref = record {
    vouches = wf.vouches;
    distinct = wf.distinct;
    escrows = wf.escrows;
    disputes = wf.disputes;
    bonds = add-IsNumbered bond_id s.bond_seq s.bond wf.bonds _ refl;
    gates = wf.gates;
  }

  pub put_dispute-IsWellFormed :
      (k : ℕ) (d old : Dispute)
      → dispute_of k s ≡ some old
      → d.id ≡ k
      → IsWellFormed (put_dispute k d s)
  put_dispute-IsWellFormed k d old found same = record {
    vouches = wf.vouches;
    distinct = wf.distinct;
    escrows = wf.escrows;
    disputes = update-IsNumbered dispute_id s.dispute_seq s.dispute wf.disputes k d old found same;
    bonds = wf.bonds;
    gates = wf.gates;
  }

  pub add_dispute-IsWellFormed :
      (d : ℕ → Dispute) → (d s.dispute_seq).id ≡ s.dispute_seq → IsWellFormed (add_dispute d s)
  add_dispute-IsWellFormed d same = record {
    vouches = wf.vouches;
    distinct = wf.distinct;
    escrows = wf.escrows;
    disputes = add-IsNumbered dispute_id s.dispute_seq s.dispute wf.disputes (d s.dispute_seq) same;
    bonds = wf.bonds;
    gates = wf.gates;
  }

  pub supply-add_escrow :
      (e : ℕ → Escrow) → supply (add_escrow e s) ≡ supply s + held (e s.escrow_seq)
  unfolding supply
  supply-add_escrow e = omega (
    arith,
    sum-set-none held s.escrow_seq (e s.escrow_seq) s.escrow
        (next_is_fresh escrow_id s.escrow_seq s.escrow wf.escrows),
  )

module _ (s : State) where
  pub supply-put_escrow :
      (k : ℕ) (e old : Escrow)
      → escrow_of k s ≡ some old
      → supply (put_escrow k e s) + held old ≡ supply s + held e
  unfolding supply
  supply-put_escrow k e old found = omega (arith, sum-set-some held k e old s.escrow found)

  pub supply-put_bond :
      (k : ℕ) (b old : Bond)
      → bond_of k s ≡ some old
      → supply (put_bond k b s) + bonded old ≡ supply s + bonded b
  unfolding supply
  supply-put_bond k b old found = omega (arith, sum-set-some bonded k b old s.bond found)

module _ (s : State) (small : supply s < word) where
  pub supply-debit :
      (a : String) (acct : Account) (amount : ℕ)
      → account_of a s ≡ some acct
      → amount ≤ acct.balance
      → supply (put_account a (record acct { balance = sub64 acct.balance amount }) s) + amount
        ≡ supply s
  unfolding supply
  supply-debit a acct amount e le = omega (arith, sum-debit s small a acct amount e le)

  pub supply-credit :
      (a : String) (acct : Account) (amount : ℕ)
      → account_of a s ≡ some acct
      → supply s + amount < word
      → supply (put_account a (record acct { balance = add64 acct.balance amount }) s)
        ≡ supply s + amount
  unfolding supply
  supply-credit a acct amount e fits = omega (arith, sum-credit s small a acct amount e fits)

  pub supply-credited :
      (env : Env) (a bytes : String) (amount : ℕ)
      → supply s + amount < word
      → supply (credited env a bytes amount s) ≡ supply s + amount
  unfolding supply credited
  supply-credited env a bytes amount fits =
      omega (arith, sum-credited s small env a bytes amount fits)

  pub supply-locked_bond :
      (poster : Account) (creator : String) (amount : ℕ) (purpose slasher ref : String)
      → IsWellFormed s
      → account_of creator s ≡ some poster
      → amount ≤ poster.balance
      → supply (locked_bond poster creator amount purpose slasher ref s) ≡ supply s
  unfolding supply locked_bond
  supply-locked_bond poster creator amount purpose slasher ref wf e le = omega (
    arith,
    sum-debit s small creator poster amount e le,
    sum-set-none bonded s.bond_seq
        (record {
          id = s.bond_seq;
          poster = creator;
          amount = amount;
          purpose = purpose;
          slasher = slasher;
          status = BondStatus.active;
          ref = ref;
        })
        s.bond (next_is_fresh bond_id s.bond_seq s.bond wf.bonds),
  )

-- A payment of what a debit has taken out completes a move of coins.
pub credit-Conserves :
    (s t : State) (env : Env) (a bytes : String) (amount : ℕ)
    → IsWellFormed t
    → supply s < word
    → supply t + amount ≡ supply s
    → t.emission_state ≡ s.emission_state
    → Conserves s (credited env a bytes amount t)
credit-Conserves s t env a bytes amount wf small out same = record {
  well_formed = credited-IsWellFormed t wf env a bytes amount;
  total =
      omega (arith, supply-credited t (omega (arith, out)) env a bytes amount (omega (arith, out)));
  emission = unfold credited in same;
}
