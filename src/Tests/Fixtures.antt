-- ===== src/Tests/Fixtures.antt =====
-- A store with a record of every kind, and the surroundings in which the handlers run on it.
use ag3nt_coin.Base.{
  ◌==◌, ltb, ◌/◌, ◌-◌, ◌+◌, ◌*◌, ℕ, String, true, false, none, some, List, [], ◌∷◌, str_eq,
  if◌then◌else◌, ◌<◌, refl, arith,
}
use ag3nt_coin.Base.Floats.{Floats}
use ag3nt_coin.Base.Store
use ag3nt_coin.Base.Store.{uint_key, string_key}
use ag3nt_coin.Base.Words.{word}
use ag3nt_coin.Types.{
  Account, Escrow, EscrowStatus, Attestation, Bond, BondStatus, Dispute, DisputeStatus, Resolution,
  Vote, Gate, GateStatus, GateAnswer, ModuleParams,
}
use ag3nt_coin.Keeper.{State, Env}
use ag3nt_coin.Invariant.{IsWellFormed}
use ag3nt_coin.Supply.{supply}
use ag3nt_coin.Mint.{IsValid, ceiling}

abbrev pub hash : String
hash = "aaaaaaaaaaaaaaaaaaaaaaaaaaaaaaaaaaaaaaaaaaaaaaaaaaaaaaaaaaaaaaaa"

-- Fixed-point numbers in the place of floats: a unit is 2 ^ 32.
abbrev pub toy_floats : Floats
toy_floats = record {
  of_uint64 = λ n. n * 4294967296;
  plus = λ x y. x + y;
  minus = λ x y. x - y;
  times = λ x y. x * y / 4294967296;
  over = λ x y. x * 4294967296 / y;
  abs = λ x. x;
  less = ltb;
  is_zero = λ x. x == 0;
}

-- Every text that is not empty is an address, and every text has the same hash.
abbrev pub env_at : ℕ → Env
env_at now = record {
  block_time = now;
  authority = "gov";
  string_to_bytes = λ a. if str_eq a "" then none else some a;
  has_auth_keeper = true;
  has_auth_account = λ created bytes. false;
  getenv = λ name. "";
  user_home = none;
  read_file = λ path. none;
  sha256_hex = λ text. hash;
  floats = toy_floats;
}

abbrev pub env : Env
env = env_at 1000

abbrev account : String → ℕ → Account
account a n = record {
  address = a;
  balance = n;
  nonce = 0;
  registered = true;
  faucet_claimed = false;
}

abbrev escrow : ℕ → ℕ → EscrowStatus → Escrow
escrow id amount status = record {
  id = id;
  payer = "alice";
  payee = "bob";
  amount = amount;
  ref = "";
  status = status;
  deadline = 2000;
  no_auto_release = false;
  delivery_hash = "";
  verifier_addrs = [];
  verifier_quorum = 0;
  key_hash = "";
  attestations = [];
  challenge_deadline = 0;
  acceptance_hash = "";
  artifact_uri = "";
  submitted_at = 0;
  released_at = 0;
}

abbrev bound_escrow : ℕ → List Attestation → Escrow
bound_escrow id attestations = record (escrow id 200 EscrowStatus.submitted) {
  no_auto_release = true;
  delivery_hash = hash;
  verifier_addrs = "carol" ∷ [];
  verifier_quorum = 1;
  key_hash = hash;
  acceptance_hash = hash;
  attestations = attestations;
}

abbrev verdict_of_carol : Attestation
verdict_of_carol = record {
  verifier = "carol";
  passed = true;
  bond_id = 3;
  delivery_hash = hash;
  key_hash = hash;
  acceptance_hash = hash;
  attested_at = 900;
}

abbrev pub bob : Account
bob = account "bob" 500

abbrev pub escrow_0 : Escrow
escrow_0 = escrow 0 300 EscrowStatus.locked

abbrev pub escrow_2 : Escrow
escrow_2 = bound_escrow 2 (verdict_of_carol ∷ [])

abbrev pub escrow_3 : Escrow
escrow_3 = escrow 3 50 EscrowStatus.refunded

abbrev pub escrow_4 : Escrow
escrow_4 = escrow 4 50 EscrowStatus.released

abbrev bond : ℕ → String → ℕ → String → String → Bond
bond id poster amount purpose slasher = record {
  id = id;
  poster = poster;
  amount = amount;
  purpose = purpose;
  slasher = slasher;
  status = BondStatus.active;
  ref = "";
}

abbrev pub dispute : ℕ → List Vote → Dispute
dispute id votes = record {
  id = id;
  escrow_id = 1;
  opener = "bob";
  reason = "";
  status = DisputeStatus.pending;
  resolution = Resolution.undecided;
  votes = votes;
  bond_id = 0;
}

abbrev answer : String → String → GateAnswer
answer agent text = record {
  agent = agent;
  commit = hash;
  answer = text;
  revealed = true;
  paid = false;
}

abbrev pub answers : List GateAnswer
answers = answer "alice" "no" ∷ answer "bob" "yes" ∷ answer "carol" "yes" ∷ []

abbrev gate : ℕ → ℕ → ℕ → List GateAnswer → Gate
gate id commit_deadline reveal_deadline given = record {
  id = id;
  poster = "carol";
  payload_uri = "";
  payload_hash = hash;
  gold_commit = hash;
  drip = 10;
  max_answers = 5;
  commit_deadline = commit_deadline;
  reveal_deadline = reveal_deadline;
  status = GateStatus.accepting;
  answers = given;
  gold_answer = "";
  consensus = "";
}

abbrev pub params : ModuleParams
params = record { anchors = "carol" ∷ [] }

abbrev pub store : State
store = record {
  params = some params;
  emission_state = none;
  account =
      ("alice", account "alice" 1000)
      ∷ ("bob", account "bob" 500)
      ∷ ("carol", account "carol" 900)
      ∷ [];
  vouch_seq = 1;
  vouch =
      (0, record { id = 0; from_addr = "alice"; to_addr = "bob"; weight = 10; stake = 100 }) ∷ [];
  escrow_seq = 6;
  escrow =
      (0, escrow_0)
      ∷ (1, escrow 1 200 EscrowStatus.in_jury)
      ∷ (2, escrow_2)
      ∷ (3, escrow_3)
      ∷ (4, escrow_4)
      ∷ (5, bound_escrow 5 [])
      ∷ [];
  dispute_seq = 2;
  dispute =
      (0, dispute 0 (record { juror = "carol"; accept = true; bond_id = 1 } ∷ []))
      ∷ (1, dispute 1 [])
      ∷ [];
  bond_seq = 4;
  bond =
      (0, bond 0 "bob" 100 "dispute:0" "")
      ∷ (1, bond 1 "carol" 100 "jurorstake:0" "")
      ∷ (2, bond 2 "alice" 50 "work" "bob")
      ∷ (3, bond 3 "carol" 200 "attestation:2" "")
      ∷ [];
  gate_seq = 2;
  gate = (0, gate 0 800 900 answers) ∷ (1, gate 1 3000 4000 []) ∷ [];
  contribution_award_seq = 0;
  contribution_award = [];
  scoped_evidence_vouch_seq = 0;
  scoped_evidence_vouch = [];
  auth_created = [];
}

pub store-IsWellFormed : IsWellFormed store
store-IsWellFormed = record {
  vouches = ((refl, omega arith), tt);
  distinct = (unfold Store.get in refl, tt);
  escrows = (
    (refl, omega arith),
    (
      (refl, omega arith),
      (
        (refl, omega arith),
        ((refl, omega arith), ((refl, omega arith), ((refl, omega arith), tt))),
      ),
    ),
  );
  disputes = ((refl, omega arith), ((refl, omega arith), tt));
  bonds = (
    (refl, omega arith),
    ((refl, omega arith), ((refl, omega arith), ((refl, omega arith), tt))),
  );
  gates = ((refl, omega arith), ((refl, omega arith), tt));
}

pub store_fits : supply store < word
unfolding supply Store.sum
store_fits = omega arith

ceiling-store : ceiling store < word
unfolding ceiling supply Store.sum
ceiling-store = omega arith

pub store-IsValid : IsValid store
store-IsValid = record { well_formed = store-IsWellFormed; sound = tt; fits = ceiling-store }
