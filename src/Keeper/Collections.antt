-- ===== src/Keeper/Collections.antt =====
-- Reads and writes of the keeper's collections (chain/x/agntcoin/keeper/keeper.go).
use ag3nt_coin.Base.{ℕ, ◌+◌, String, Option, ◌≡◌, some}
use ag3nt_coin.Base.Store
use ag3nt_coin.Base.Store.{uint_key, string_key}
use ag3nt_coin.Exec.{Error, Exec, or_raise, ◌>>=◌}
use ag3nt_coin.Exec.Keeps.{Keeps, Keeps-or_raise}
use ag3nt_coin.Exec.Returns.{Returns, Returns-or_raise}
use ag3nt_coin.Types.{
  ContributionAward, ScopedEvidenceVouch, Account, Vouch, Escrow, Bond, Dispute, Gate,
}
use ag3nt_coin.Keeper.Defs.{State}

-- `x, err := k.….Get(ctx, key); if err != nil { return error }`
unfoldable pub read : {A : Type 0} → (State → Option A) → Error → Exec State A
read f e s = or_raise (f s) e s

pub Returns-read :
    {A B : Type 0} {Q : B → State → Type 0} (g : State → Option A) (e : Error)
    (f : A → Exec State B) (s : State)
    → ((a : A) → g s ≡ some a → Returns Q (f a s))
    → Returns Q ((read g e >>= f) s)
Returns-read g e f s h = unfold read ◌>>=◌ in Returns-or_raise (g s) e f s h

pub Keeps-read :
    {A : Type 0} {P : State → Type 0} (g : State → Option A) (e : Error) → Keeps P (read g e)
unfolding read
Keeps-read {P} g e = record { carries = λ s h. (Keeps-or_raise {P = P} (g s) e).carries s h }

abbrev pub account_of : String → State → Option Account
account_of a s = Store.get a s.account

abbrev pub vouch_of : ℕ → State → Option Vouch
vouch_of k s = Store.get k s.vouch

abbrev pub escrow_of : ℕ → State → Option Escrow
escrow_of k s = Store.get k s.escrow

abbrev pub bond_of : ℕ → State → Option Bond
bond_of k s = Store.get k s.bond

abbrev pub dispute_of : ℕ → State → Option Dispute
dispute_of k s = Store.get k s.dispute

abbrev pub gate_of : ℕ → State → Option Gate
gate_of k s = Store.get k s.gate

-- `k.….Set(ctx, key, value)`
abbrev pub put_account : String → Account → State → State
put_account k v s = record s { account = Store.set k v s.account }

abbrev pub put_vouch : ℕ → Vouch → State → State
put_vouch k v s = record s { vouch = Store.set k v s.vouch }

abbrev pub put_escrow : ℕ → Escrow → State → State
put_escrow k v s = record s { escrow = Store.set k v s.escrow }

abbrev pub put_bond : ℕ → Bond → State → State
put_bond k v s = record s { bond = Store.set k v s.bond }

abbrev pub put_dispute : ℕ → Dispute → State → State
put_dispute k v s = record s { dispute = Store.set k v s.dispute }

abbrev pub put_gate : ℕ → Gate → State → State
put_gate k v s = record s { gate = Store.set k v s.gate }

-- `id, err := k.….Next(ctx)`, and then a `Set` of the record with that id
abbrev pub add_vouch : (ℕ → Vouch) → State → State
add_vouch v s = record s {
  vouch_seq = s.vouch_seq + 1;
  vouch = Store.set s.vouch_seq (v s.vouch_seq) s.vouch;
}

abbrev pub add_escrow : (ℕ → Escrow) → State → State
add_escrow v s = record s {
  escrow_seq = s.escrow_seq + 1;
  escrow = Store.set s.escrow_seq (v s.escrow_seq) s.escrow;
}

abbrev pub add_bond : (ℕ → Bond) → State → State
add_bond v s = record s {
  bond_seq = s.bond_seq + 1;
  bond = Store.set s.bond_seq (v s.bond_seq) s.bond;
}

abbrev pub add_dispute : (ℕ → Dispute) → State → State
add_dispute v s = record s {
  dispute_seq = s.dispute_seq + 1;
  dispute = Store.set s.dispute_seq (v s.dispute_seq) s.dispute;
}

abbrev pub add_gate : (ℕ → Gate) → State → State
add_gate v s = record s {
  gate_seq = s.gate_seq + 1;
  gate = Store.set s.gate_seq (v s.gate_seq) s.gate;
}

abbrev pub award_of : ℕ → State → Option ContributionAward
award_of k s = Store.get k s.contribution_award

abbrev pub evidence_vouch_of : ℕ → State → Option ScopedEvidenceVouch
evidence_vouch_of k s = Store.get k s.scoped_evidence_vouch
