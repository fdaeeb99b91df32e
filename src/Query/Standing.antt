-- ===== src/Query/Standing.antt =====
-- Who has a standing: the addresses that the Reputation query answers
-- (chain/x/agntcoin/keeper/query_reputation.go), and the issuers that CastScopedEvidenceVouch
-- refuses (Msg/Evidence.antt).
use ag3nt_coin.Base.{
  Bool-cases, inl, inr, ◌≡◌, refl, ap, ◌∙◌, ℕ, String, Bool, true, false, ◌||◌, Option, none, some,
  List, ◌++◌,
}
use ag3nt_coin.Base.Floats.{Floats}
use ag3nt_coin.Base.Store
use ag3nt_coin.Base.Store.{Store, string_key, uint_key}
use ag3nt_coin.Types.{Account, ModuleParams}
use ag3nt_coin.Keeper.{State, Env}
use ag3nt_coin.Keeper.Anchors.{resolve_anchors}
use ag3nt_coin.Keeper.PageRank.{JobEdge, RepEdge}
use ag3nt_coin.Keeper.Reputation.{released_jobs, accepted_jobs, reputation_scores}
use ag3nt_coin.Trust.{trust_edges}
use ag3nt_coin.Trust.Domain.{touches, is_anchor, has-reputation}
use ag3nt_coin.Msg.Evidence.{MsgCastScopedEvidenceVouch, issuer_refused, cast_scoped_evidence_vouch}
use ag3nt_coin.Types.Params.{contains}
use ag3nt_coin.Types.{min_scoped_evidence_reputation}
use ag3nt_coin.Trust.{IsSealed, AllOutside, FiniteRun, HasZero}
use ag3nt_coin.Trust.Sealed.{sealed_has_no_rank}
use ag3nt_coin.Exec.{succeeds}
use ag3nt_coin.Exec.Returns.{
  Returns, Returns-or_raise, Returns-known, Returns-anyway, Returns-gets, Returns-raise_if,
}
use ag3nt_coin.Keeper.{Returns-read}
use ag3nt_coin.Keeper.Reputation.{reputation_score}
use mathlib.Core.Path.{subst}
use ag3nt_coin.Base.{sym, eq_iff, inl, inr, Bool-cases, str_eq, [], ◌∷◌}
use ag3nt_coin.Query.Defs.{
  Reply, answer, refused, get_reputation, checked_score, scored, score_reply,
}

abbrev pub is_answered : {A : Type 0} → Reply A → Bool
is_answered (answer a) = true
is_answered (refused e) = false

-- The jobs and the edges of the trust graph that the store holds.
abbrev pub jobs_of : State → List JobEdge
jobs_of s = released_jobs (Store.values s.escrow) ++ accepted_jobs (Store.values s.dispute) s

abbrev pub edges_of : Floats → State → List RepEdge
edges_of f s = trust_edges f (Store.values s.vouch) (jobs_of s)

score_reply-eq :
    (format_float : ℕ → String) (scores : Store String ℕ) (accounts : Store String Account)
    (a : String)
    → is_answered (score_reply format_float (Store.get a scores) (Store.get a accounts))
      ≡ (Store.has a scores || Store.has a accounts)
unfolding score_reply Store.has
score_reply-eq format_float scores accounts a = go (Store.get a scores) (Store.get a accounts)
  where
    go :
        (score : Option ℕ) (acct : Option Account)
        → is_answered (score_reply format_float score acct) ≡ (
            (elim score [ none ↦ false | some _ ↦ true ])
            || (elim acct [ none ↦ false | some _ ↦ true ]))
    go (some x) acct = refl
    go none (some x) = refl
    go none none = refl

or_assoc : (x y z : Bool) → ((x || y) || z) ≡ (x || y || z)
or_assoc true y z = refl
or_assoc false y z = refl

-- With the address valid and the parameters stored, the Reputation query answers exactly for the
-- ends of the trust graph's edges, the resolved anchors and the addresses that have an account, and
-- refuses every other address.
pub get_reputation_answers :
    (format_float : ℕ → String) (env : Env) (a bytes : String) (params : ModuleParams) (s : State)
    → env.string_to_bytes a ≡ some bytes
    → s.params ≡ some params
    → is_answered (get_reputation format_float env (some a) s) ≡ (
        touches a (edges_of env.floats s)
        || is_anchor a (resolve_anchors env params.anchors)
        || Store.has a s.account)
unfolding get_reputation checked_score scored
get_reputation_answers format_float env a bytes params s address set =
    let anchors = resolve_anchors env params.anchors in
    let domain : Store.has a (reputation_scores env.floats anchors s)
        ≡ (touches a (edges_of env.floats s) || is_anchor a anchors) =
      unfold reputation_scores in
      has-reputation env.floats (Store.values s.vouch) (jobs_of s) anchors a in
    ap is_answered (
      ap (λ o. checked_score format_float env a o s) address
      ∙ ap (λ p. scored format_float env a p s) set)
    ∙ score_reply-eq format_float (reputation_scores env.floats anchors s) s.account a
    ∙ ap (λ b. b || Store.has a s.account) domain
    ∙ or_assoc (touches a (edges_of env.floats s)) (is_anchor a anchors) (Store.has a s.account)

contains-AllOutside :
    (inside : String → Bool) (a : String) (anchors : List String)
    → inside a ≡ true
    → AllOutside inside anchors
    → contains a anchors ≡ false
unfolding contains
contains-AllOutside inside a [] member out = refl
contains-AllOutside inside a (b ∷ anchors) member out = elim (Bool-cases (str_eq b a)) [
  | inl here ↦ absurd (out.0 (subst (λ c. inside c ≡ true) (sym ((eq_iff b a).0 here)) member))
  | inr away ↦ rw away (contains-AllOutside inside a anchors member out.1)
]

cast-IsAccepted :
    (env : Env) (msg : MsgCastScopedEvidenceVouch) (params : ModuleParams) (s : State)
    → s.params ≡ some params
    → Returns
        (λ _ _. issuer_refused env msg.creator (resolve_anchors env params.anchors) s ≡ false)
        (cast_scoped_evidence_vouch env msg s)
unfolding cast_scoped_evidence_vouch
cast-IsAccepted env msg params s set = Returns-or_raise _ _ _ s λ _ _.
    Returns-or_raise _ _ _ s λ _ _. Returns-read _ _ _ s λ found e. Returns-gets _ _ s (
      Returns-raise_if _ _ _ s λ accepted. Returns-anyway _ (
        subst
          (λ (p : ModuleParams).
            issuer_refused env msg.creator (resolve_anchors env p.anchors) s ≡ false)
          (cc (e, set)) accepted))

-- Let a set of addresses contain no resolved anchor, let no vouch, released escrow or accepting
-- vote enter it from outside, and let the parameters be stored and the first anchor not be empty.
-- If zero behaves as in IEEE 754, no number of the computation overflows, and zero is below the
-- threshold, then CastScopedEvidenceVouch refuses every issuer of the set.
pub sealed_cannot_vouch :
    (env : Env) (IsFinite : ℕ → Type 0) (inside : String → Bool) (params : ModuleParams)
    (a : String) (anchors : List String) (s : State)
    → HasZero env.floats IsFinite
    → env.floats.less 0 min_scoped_evidence_reputation ≡ true
    → s.params ≡ some params
    → resolve_anchors env params.anchors ≡ a ∷ anchors
    → str_eq a "" ≡ false
    → IsSealed inside (edges_of env.floats s)
    → AllOutside inside (a ∷ anchors)
    → FiniteRun env.floats IsFinite (edges_of env.floats s) (a ∷ anchors)
    → (msg : MsgCastScopedEvidenceVouch) → inside msg.creator ≡ true
    → succeeds (cast_scoped_evidence_vouch env msg s) ≡ false
unfolding issuer_refused reputation_score reputation_scores
sealed_cannot_vouch env IsFinite inside params a anchors s laws low set roots named closed out
      finite msg member =
    let rank : reputation_score env.floats (a ∷ anchors) msg.creator s ≡ 0 =
      sealed_has_no_rank env.floats IsFinite laws inside (Store.values s.vouch) (jobs_of s) a
        anchors named closed out finite msg.creator member in
    let stranger = contains-AllOutside inside msg.creator (a ∷ anchors) member out in
    let barred : issuer_refused env msg.creator (a ∷ anchors) s ≡ true =
      rw (stranger, rank, low) refl in
    elim (Bool-cases (succeeds (cast_scoped_evidence_vouch env msg s))) [
      | inl cast ↦
          let accepted = Returns-known _ (cast-IsAccepted env msg params s set) cast in
          let accepted' : issuer_refused env msg.creator (a ∷ anchors) s ≡ false =
            subst (λ l. issuer_refused env msg.creator l s ≡ false) roots accepted in
          absurd (cc (barred, accepted'))
      | inr barred ↦ barred
    ]
