-- ===== src/Genesis/Import.antt =====
-- The import of a genesis file that passes the validation (chain/x/agntcoin/types/genesis.go).
use ag3nt_coin.Base.{◌≡◌, refl, ℕ, true, false, Bool, Option, none, some, List, [], ◌∷◌, arith}
use ag3nt_coin.Base.Store
use ag3nt_coin.Base.Store.{Store, uint_key, string_key}
use ag3nt_coin.Base.Store.Entries.{All-set}
use ag3nt_coin.Base.Store.Rebuild.{set_all-IsIndex, set_all-IsDistinct}
use ag3nt_coin.Keeper.{Env}
use ag3nt_coin.Keeper.Genesis.{
  GenesisState, Invalid, fails_if, and_then, check_ids, validate_genesis, init_genesis, empty_store,
  duplicate_vouch, vouch_beyond_count, duplicate_escrow, escrow_beyond_count,
}
use ag3nt_coin.Invariant.{HasId, IsNumbered, IsWellFormed}
use ag3nt_coin.Genesis.{
  IsKeyed, address_of, key_of_vouch, key_of_escrow, award_id, evidence_vouch_id,
}

passes_both : (o p : Option Invalid) → and_then o p ≡ none → (o ≡ none) × (p ≡ none)
unfolding and_then
passes_both none p h = (refl, h)
passes_both (some e) p h = absurd (cc h)

passes :
    (b : Bool) (e : Invalid) (rest : Option Invalid)
    → fails_if b e rest ≡ none
    → (b ≡ false) × (rest ≡ none)
unfolding fails_if
passes true e rest h = absurd (cc h)
passes false e rest h = (refl, h)

-- Ids that passed are below the count.
module _ {V : Type 0} (id : V → ℕ) (count : ℕ) (duplicate beyond : Invalid) where
  check_ids-IsNumbered :
      (seen : List ℕ) (vs : List V) (m : Store ℕ V)
      → check_ids id count duplicate beyond seen vs ≡ none
      → IsNumbered id count m
      → IsNumbered id count (Store.set_all id vs m)
  unfolding check_ids Store.set_all
  check_ids-IsNumbered seen [] m h numbered = numbered
  check_ids-IsNumbered seen (v ∷ vs) m h numbered =
      let (_, bounded) = passes _ _ _ h in
      let (below, later) = passes _ _ _ bounded in
      check_ids-IsNumbered (id v ∷ seen) vs (Store.set (id v) v m) later
        (All-set (HasId id count) (id v) v m numbered (refl, ground (arith, below)))

-- Of a genesis file that Validate accepts, InitGenesis makes a well-formed store: each vouch and
-- each escrow stands under its id, below the next id, and no vouch twice.
pub init_genesis-IsWellFormed :
    (env : Env) (g : GenesisState)
    → validate_genesis g ≡ none
    → IsWellFormed (init_genesis env g empty_store)
unfolding validate_genesis init_genesis
init_genesis-IsWellFormed env g valid =
    let (_, later) = passes_both _ _ valid in
    let (vouches, later') = passes_both _ _ later in
    let (escrows, _) = passes_both _ _ later' in
    record {
      vouches =
          check_ids-IsNumbered key_of_vouch g.vouch_count duplicate_vouch vouch_beyond_count []
            g.vouch_list [] vouches tt;
      distinct = set_all-IsDistinct key_of_vouch g.vouch_list [] tt;
      escrows =
          check_ids-IsNumbered key_of_escrow g.escrow_count duplicate_escrow escrow_beyond_count []
            g.escrow_list [] escrows tt;
      disputes = tt;
      bonds = tt;
      gates = tt;
    }

-- Whatever the file holds, each imported record stands under its own key.
pub init_genesis-IsKeyed : (env : Env) (g : GenesisState) → IsKeyed (init_genesis env g empty_store)
unfolding init_genesis
init_genesis-IsKeyed env g = record {
  accounts = set_all-IsIndex address_of g.account_map [] (record { keyed = tt; distinct = tt });
  vouches = set_all-IsIndex key_of_vouch g.vouch_list [] (record { keyed = tt; distinct = tt });
  escrows = set_all-IsIndex key_of_escrow g.escrow_list [] (record { keyed = tt; distinct = tt });
  awards =
      set_all-IsIndex award_id g.contribution_award_list [] (record { keyed = tt; distinct = tt });
  evidence_vouches =
      set_all-IsIndex evidence_vouch_id g.scoped_evidence_vouch_list []
        (record { keyed = tt; distinct = tt });
}
