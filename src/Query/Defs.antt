-- ===== src/Query/Defs.antt =====
-- The queries (chain/x/agntcoin/keeper/query_*.go). The SDK's pagination and
-- `strconv.FormatFloat` are parameters.
use ag3nt_coin.Base.{ℕ, String, Option, none, some, List, []}
use ag3nt_coin.Base.Store
use ag3nt_coin.Base.Store.{Store, uint_key, string_key}
use ag3nt_coin.Types.{
  Account, Vouch, Escrow, Bond, Dispute, Gate, EmissionState, ContributionAward,
  ScopedEvidenceVouch, ModuleParams,
}
use ag3nt_coin.Keeper.{
  State, Env, account_of, vouch_of, escrow_of, bond_of, dispute_of, gate_of, award_of,
  evidence_vouch_of,
}
use ag3nt_coin.Keeper.Anchors.{resolve_anchors}
use ag3nt_coin.Keeper.Emission.{emission_or_default, remaining_scheduled, remaining_epoch}
use ag3nt_coin.Keeper.Reputation.{reputation_scores}

-- `status.Error` of gRPC, the SDK's `ErrKeyNotFound` and `ErrIO`, and the codec's error.
pub data QueryError : Type 0 where
  invalid_argument not_found key_not_found internal io bad_address : QueryError

pub data Reply (A : Type 0) : Type 0 where
  answer : A → Reply A
  refused : QueryError → Reply A

-- `Get` for a request that may be nil, with the error for a missing record.
unfoldable pub look_up :
    {K A : Type 0} → QueryError → (K → State → Option A) → Option K → State → Reply A
look_up {K} {A} missing read none s = refused invalid_argument
look_up {K} {A} missing read (some k) s = found (read k s)
  where
    found : Option A → Reply A
    found none = refused missing
    found (some a) = answer a

unfoldable pub get_account : Option String → State → Reply Account
unfolding look_up
get_account req s = look_up not_found account_of req s

unfoldable pub get_vouch : Option ℕ → State → Reply Vouch
unfolding look_up
get_vouch req s = look_up key_not_found vouch_of req s

unfoldable pub get_escrow : Option ℕ → State → Reply Escrow
unfolding look_up
get_escrow req s = look_up key_not_found escrow_of req s

unfoldable pub get_bond : Option ℕ → State → Reply Bond
unfolding look_up
get_bond req s = look_up key_not_found bond_of req s

unfoldable pub get_dispute : Option ℕ → State → Reply Dispute
unfolding look_up
get_dispute req s = look_up key_not_found dispute_of req s

unfoldable pub get_gate : Option ℕ → State → Reply Gate
unfolding look_up
get_gate req s = look_up key_not_found gate_of req s

unfoldable pub get_contribution_award : Option ℕ → State → Reply ContributionAward
unfolding look_up
get_contribution_award req s = look_up key_not_found award_of req s

unfoldable pub get_scoped_evidence_vouch : Option ℕ → State → Reply ScopedEvidenceVouch
unfolding look_up
get_scoped_evidence_vouch req s = look_up key_not_found evidence_vouch_of req s

-- `Params`: parameters that were never set are answered as the zero value.
unfoldable pub get_params : Option (Unit {0}) → State → Reply ModuleParams
get_params none s = refused invalid_argument
get_params (some tt) s = stored s.params
  where
    stored : Option ModuleParams → Reply ModuleParams
    stored none = answer (record { anchors = [] })
    stored (some params) = answer params

pub record EmissionReport : Type 0 where
  pub emission : EmissionState
  pub scheduled_remaining : ℕ
  pub epoch_remaining : ℕ

-- `peekEmissionState`, which stores nothing.
unfoldable pub peek_emission_state : Env → State → EmissionState
unfolding emission_or_default
peek_emission_state env s = emission_or_default env s.emission_state

unfoldable pub get_emission : Env → Option (Unit {0}) → State → Reply EmissionReport
unfolding peek_emission_state
get_emission env none s = refused invalid_argument
get_emission env (some tt) s = answer (record {
  emission = peek_emission_state env s;
  scheduled_remaining = remaining_scheduled (peek_emission_state env s);
  epoch_remaining = remaining_epoch (peek_emission_state env s);
})

-- A score, or zero for an account that is not in the graph.
unfoldable pub score_reply : (ℕ → String) → Option ℕ → Option Account → Reply String
score_reply format_float (some score) acct = answer (format_float score)
score_reply format_float none (some acct) = answer (format_float 0)
score_reply format_float none none = refused not_found

-- `Reputation`, after the address is checked.
unfoldable pub scored : (ℕ → String) → Env → String → Option ModuleParams → State → Reply String
scored format_float env a none s = refused io
scored format_float env a (some params) s =
    score_reply format_float
      (Store.get a (reputation_scores env.floats (resolve_anchors env params.anchors) s))
      (account_of a s)

unfoldable pub checked_score : (ℕ → String) → Env → String → Option String → State → Reply String
checked_score format_float env a none s = refused bad_address
checked_score format_float env a (some bytes) s = scored format_float env a s.params s

unfoldable pub get_reputation : (ℕ → String) → Env → Option String → State → Reply String
get_reputation format_float env none s = refused invalid_argument
get_reputation format_float env (some a) s =
    checked_score format_float env a (env.string_to_bytes a) s

-- `query.CollectionPaginate` of the SDK: a page of the values and where to go on, or an error.
pub record Pagination (PageRequest PageResponse : Type 0) : Type 1 where
  pub paginate : {K V : Type 0} → Store K V → Option PageRequest → Option (List V × PageResponse)

module _ {PageRequest PageResponse : Type 0} (sdk : Pagination PageRequest PageResponse) where
  -- A list query: the request may be nil, and so may its pagination.
  unfoldable pub list_of :
      {K V : Type 0}
      → (State → Store K V)
      → Option (Option PageRequest)
      → State
      → Reply (List V × PageResponse)
  list_of collection none s = refused invalid_argument
  list_of {K} {V} collection (some page) s = paged (sdk.paginate (collection s) page)
    where
      paged : Option (List V × PageResponse) → Reply (List V × PageResponse)
      paged none = refused internal
      paged (some r) = answer r

  unfoldable pub list_account :
      Option (Option PageRequest) → State → Reply (List Account × PageResponse)
  list_account req s = list_of (λ s. s.account) req s

  unfoldable pub list_vouch :
      Option (Option PageRequest) → State → Reply (List Vouch × PageResponse)
  list_vouch req s = list_of (λ s. s.vouch) req s

  unfoldable pub list_escrow :
      Option (Option PageRequest) → State → Reply (List Escrow × PageResponse)
  list_escrow req s = list_of (λ s. s.escrow) req s

  unfoldable pub list_bond : Option (Option PageRequest) → State → Reply (List Bond × PageResponse)
  list_bond req s = list_of (λ s. s.bond) req s

  unfoldable pub list_dispute :
      Option (Option PageRequest) → State → Reply (List Dispute × PageResponse)
  list_dispute req s = list_of (λ s. s.dispute) req s

  unfoldable pub list_gate : Option (Option PageRequest) → State → Reply (List Gate × PageResponse)
  list_gate req s = list_of (λ s. s.gate) req s

  unfoldable pub list_contribution_award :
      Option (Option PageRequest) → State → Reply (List ContributionAward × PageResponse)
  list_contribution_award req s = list_of (λ s. s.contribution_award) req s

  unfoldable pub list_scoped_evidence_vouch :
      Option (Option PageRequest) → State → Reply (List ScopedEvidenceVouch × PageResponse)
  list_scoped_evidence_vouch req s = list_of (λ s. s.scoped_evidence_vouch) req s
