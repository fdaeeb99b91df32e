-- ===== src/Genesis.antt =====
-- The genesis file as a copy of the store: what an import and an export have to keep. The children
-- compare chain/x/agntcoin/keeper/genesis.go and the validation in
-- chain/x/agntcoin/types/genesis.go with it.
pub mod Import
pub mod Kept
pub mod Emitting
pub mod Handling
pub mod RoundTrip
pub mod Runs
use ag3nt_coin.Base.{Option, false, ◌==◌, ◌≡◌, ℕ, String, some, none, []}
use ag3nt_coin.Base.Store.{Store, uint_key, string_key}
use ag3nt_coin.Base.Store.Distinct.{IsDistinct}
use ag3nt_coin.Base.Store.Rebuild.{IsIndex}
use ag3nt_coin.Types.{EmissionState, Account, Vouch, Escrow, ContributionAward, ScopedEvidenceVouch}
use ag3nt_coin.Keeper.{State, account_of, vouch_of, escrow_of, award_of, evidence_vouch_of}

abbrev pub address_of : Account → String
address_of a = a.address

abbrev pub award_id : ContributionAward → ℕ
award_id a = a.id

abbrev pub evidence_vouch_id : ScopedEvidenceVouch → ℕ
evidence_vouch_id v = v.id

abbrev pub key_of_vouch : Vouch → ℕ
key_of_vouch v = v.id

abbrev pub key_of_escrow : Escrow → ℕ
key_of_escrow e = e.id

-- Each record of the exported collections stands under the key that it carries, and none twice.
pub record KeyedStores (account : Store String Account) (vouch : Store ℕ Vouch)
    (escrow : Store ℕ Escrow) (award : Store ℕ ContributionAward)
    (evidence : Store ℕ ScopedEvidenceVouch) : Type 0 where
  pub accounts : IsIndex address_of account
  pub vouches : IsIndex key_of_vouch vouch
  pub escrows : IsIndex key_of_escrow escrow
  pub awards : IsIndex award_id award
  pub evidence_vouches : IsIndex evidence_vouch_id evidence

abbrev pub IsKeyed : State → Type 0
IsKeyed s = KeyedStores s.account s.vouch s.escrow s.contribution_award s.scoped_evidence_vouch

abbrev pub IsStored : {A : Type 0} → Option A → Type 0
IsStored none = ⊥
IsStored (some a) = Unit

-- An emission state is stored that needs neither a default nor a time.
abbrev pub HasBegun : Option EmissionState → Type 0
HasBegun none = ⊥
HasBegun (some e) = ((e.max_supply == 0) ≡ false) × ((e.genesis_time == 0) ≡ false)

-- What an export needs of the store.
abbrev pub IsReady : State → Type 0
IsReady s = IsKeyed s × IsStored s.params × HasBegun s.emission_state

-- Two stores that answer every read of the exported collections alike.
pub record SameRecords (s t : State) : Type 0 where
  pub params : t.params ≡ s.params
  pub emission : t.emission_state ≡ s.emission_state
  pub accounts : (a : String) → account_of a t ≡ account_of a s
  pub vouches : (k : ℕ) → vouch_of k t ≡ vouch_of k s
  pub vouch_seq : t.vouch_seq ≡ s.vouch_seq
  pub escrows : (k : ℕ) → escrow_of k t ≡ escrow_of k s
  pub escrow_seq : t.escrow_seq ≡ s.escrow_seq
  pub awards : (k : ℕ) → award_of k t ≡ award_of k s
  pub award_seq : t.contribution_award_seq ≡ s.contribution_award_seq
  pub evidence : (k : ℕ) → evidence_vouch_of k t ≡ evidence_vouch_of k s
  pub evidence_seq : t.scoped_evidence_vouch_seq ≡ s.scoped_evidence_vouch_seq
