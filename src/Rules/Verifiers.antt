-- ===== src/Rules/Verifiers.antt =====
-- Escrows that are bound to verifiers: what LockEscrow checks of the set, what VerifiedRelease asks
-- for, and what ReleaseEscrow refuses.
mod Quorum
use mathlib.Core.Path.{subst}
use ag3nt_coin.Base.{
  ℕ, ◌≡◌, ◌≤◌, ◌<◌, refl, sym, ap, ◌∙◌, String, Bool, true, false, some, List, [], ◌∷◌, arith, inl,
  inr, Bool-cases, str_eq, ltb→le, not-false, length,
}
use ag3nt_coin.Base.Text.{str_eq_sym}
use ag3nt_coin.Base.Store.{uint_key}
use ag3nt_coin.Base.Store.Laws.{get-set_self}
use ag3nt_coin.Base.Words.{sub64}
use ag3nt_coin.Exec.{succeeds}
use ag3nt_coin.Exec.Returns.{
  Returns, Returns-or_raise, Returns-raise_if, Returns-call, Returns-any, Returns-anyway,
  Returns-known, Returns-pure, Returns-gets, Returns-modify, Returns-weaken,
}
use ag3nt_coin.Types.{Escrow, is_submitted}
use ag3nt_coin.Types.Params.{contains}
use ag3nt_coin.Keeper.{State, Env, Returns-read, escrow_of, put_account, add_escrow}
use ag3nt_coin.Msg.Escrows.{
  MsgLockEscrow, check_verifiers, check_terms, new_escrow, lock_escrow, release_escrow,
}
use ag3nt_coin.Msg.Verifiers.{count_passed, key_refused, verified_release}
use ag3nt_coin.Rules.Verifiers.Quorum.{
  HasPasses, quorum-HasPasses, IsRightKey, key_refused-IsRightKey,
}
use ag3nt_coin.Mint.{IsValid}
use ag3nt_coin.Chain.{Run}
use ag3nt_coin.Life.{terms}
use ag3nt_coin.Life.Runs.{Run-Arrives}
use ag3nt_coin.Rules.Escrows.{MayRelease, release_escrow-MayRelease}

-- A verifier set: nobody twice, and neither party.
abbrev pub IsIndependent : String → String → List String → Type 0
IsIndependent payer payee [] = Unit
IsIndependent payer payee (v ∷ rest) =
    (str_eq v payer ≡ false)
    × (str_eq v payee ≡ false)
    × (contains v rest ≡ false)
    × IsIndependent payer payee rest

-- None of the second list is among the first.
IsFresh : List String → List String → Type 0
IsFresh seen [] = Unit
IsFresh seen (v ∷ rest) = (contains v seen ≡ false) × IsFresh seen rest

IsFresh-cons :
    (v : String) (seen vs : List String)
    → IsFresh (v ∷ seen) vs
    → (contains v vs ≡ false) × IsFresh seen vs
unfolding contains IsFresh
IsFresh-cons v seen [] h = (refl, tt)
IsFresh-cons v seen (w ∷ rest) h =
    let (later, fresh) = IsFresh-cons v seen rest h.1 in
    (ground (arith, later, h.0, str_eq_sym v w), (ground (arith, h.0), fresh))

check_verifiers-IsIndependent :
    (env : Env) (payer payee : String) (seen vs : List String) (s : State)
    → Returns
        (λ _ _. IsFresh seen vs × IsIndependent payer payee vs)
        (check_verifiers env payer payee seen vs s)
unfolding check_verifiers IsFresh
check_verifiers-IsIndependent env payer payee seen [] s = Returns-pure _ s (tt, tt)
check_verifiers-IsIndependent env payer payee seen (v ∷ rest) s = Returns-or_raise _ _ _ s λ _ _.
    Returns-raise_if _ _ _ s λ party. Returns-raise_if _ _ _ s λ new.
      Returns-weaken
        (λ _ _ h.
          let (later, fresh) = IsFresh-cons v seen rest h.0 in
          ((new, fresh), (ground (arith, party), ground (arith, party), later, h.1)))
        (check_verifiers-IsIndependent env payer payee (v ∷ seen) rest s)

-- The terms of an escrow that is bound to verifiers.
pub record IsBound (payer payee : String) (vs : List String) (quorum : ℕ) (no_auto_release : Bool)
    : Type 0 where
  pub independent : IsIndependent payer payee vs
  pub some_quorum : 0 < quorum
  pub reachable : quorum ≤ length vs
  pub no_clock : no_auto_release ≡ true

-- An escrow that names no verifier has no quorum.
abbrev pub TermsOf : String → String → List String → ℕ → Bool → Type 0
TermsOf payer payee [] quorum no_auto_release = quorum ≡ 0
TermsOf payer payee (v ∷ rest) quorum no_auto_release =
    IsBound payer payee (v ∷ rest) quorum no_auto_release

check_terms-TermsOf :
    (env : Env) (msg : MsgLockEscrow) (vs : List String) (s : State)
    → Returns
        (λ b _. TermsOf msg.creator msg.payee vs msg.verifier_quorum b)
        (check_terms env msg vs s)
unfolding check_terms
check_terms-TermsOf env msg [] s =
    Returns-raise_if _ _ _ s
      λ no_quorum. Returns-raise_if _ _ _ s λ _. Returns-pure _ s (ground (arith, no_quorum))
check_terms-TermsOf env msg (v ∷ rest) s = Returns-raise_if _ _ _ s λ quorum.
    Returns-call _ _ _ s (check_verifiers-IsIndependent env msg.creator msg.payee [] (v ∷ rest) s)
      λ _ t h. Returns-raise_if _ _ _ t λ _. Returns-pure _ t (record {
        independent = h.1;
        some_quorum = ground (arith, quorum);
        reachable = ground (arith, quorum);
        no_clock = refl;
      })

-- What LockEscrow stores under the id that it returns.
abbrev pub Locked : MsgLockEscrow → ℕ → State → Type 0
Locked msg id s' =
    (e : Escrow) × (escrow_of id s' ≡ some e)
    × (e.id ≡ id)
    × (e.payer ≡ msg.creator)
    × (e.payee ≡ msg.payee)
    × (e.amount ≡ msg.amount)
    × TermsOf e.payer e.payee e.verifier_addrs e.verifier_quorum e.no_auto_release

new_escrow-Locked :
    (env : Env) (msg : MsgLockEscrow) (b : Bool) (t : State)
    → TermsOf msg.creator msg.payee msg.verifier_addrs msg.verifier_quorum b
    → Locked msg t.escrow_seq (add_escrow (new_escrow env msg b) t)
unfolding new_escrow
new_escrow-Locked env msg b t h = (
  _,
  get-set_self t.escrow_seq (new_escrow env msg b t.escrow_seq) t.escrow,
  refl,
  refl,
  refl,
  refl,
  h,
)

-- LockEscrow, when it succeeds, stores an escrow of the message's amount under the id that it
-- returns, and if the escrow names verifiers then none is named twice or is one of the parties, the
-- quorum is positive and can be reached, and the escrow does not release by the clock.
pub lock_escrow-Locked :
    (env : Env) (msg : MsgLockEscrow) (s : State) → Returns (Locked msg) (lock_escrow env msg s)
unfolding lock_escrow
lock_escrow-Locked env msg s = Returns-or_raise _ _ _ s λ _ _. Returns-or_raise _ _ _ s λ bytes _.
    Returns-raise_if _ _ _ s λ _. Returns-raise_if _ _ _ s λ _.
      Returns-call _ _ _ s (check_terms-TermsOf env msg msg.verifier_addrs s) λ b t h.
        Returns-read _ _ _ t λ payer _. Returns-raise_if _ _ _ t λ _. Returns-raise_if _ _ _ t λ _.
          Returns-any _ _ t λ _ u. Returns-modify _ _ u (
            Returns-gets _ _ _ (
              Returns-modify _ _ _ (
                Returns-pure _ _ (
                  new_escrow-Locked env msg b
                    (put_account msg.creator
                      (record payer { balance = sub64 payer.balance msg.amount }) u)
                    h))))

-- What VerifiedRelease needs.
pub record IsVerified (env : Env) (key : String) (e : Escrow) : Type 0 where
  pub bound : 0 < length e.verifier_addrs
  pub submitted : is_submitted e.status ≡ true
  pub quorum : HasPasses e e.attestations e.verifier_quorum
  pub right_key : IsRightKey env key e

verified :
    (s : State) (env : Env) (creator : String) (id : ℕ) (key : String)
    → Returns
        (λ _ _. (e : Escrow) × (escrow_of id s ≡ some e) × IsVerified env key e)
        (verified_release env creator id key s)
unfolding verified_release
verified s env creator id key = Returns-or_raise _ _ _ s λ _ _. Returns-read _ _ _ s λ escrow found.
    Returns-raise_if _ _ _ s λ bound. Returns-raise_if _ _ _ s λ submitted.
      Returns-raise_if _ _ _ s λ quorum. Returns-raise_if _ _ _ s λ right_key. Returns-anyway _ (
        escrow,
        found,
        record {
          bound = ground (arith, bound);
          submitted = not-false _ submitted;
          quorum = quorum-HasPasses escrow escrow.attestations _ (ltb→le _ _ quorum);
          right_key = key_refused-IsRightKey env key escrow right_key;
        },
      )

-- A verified release that succeeds had a stored escrow that was submitted and names verifiers.
-- Among the escrow's verdicts there are at least as many as its quorum that passed the work and
-- restate its delivery hash, key hash and acceptance hash, up to case. If a key hash is committed,
-- then the hash of the key presented is that hash, up to case, and if none is, then no key was
-- presented.
pub verified_release-IsVerified :
    (s : State) (env : Env) (creator : String) (id : ℕ) (key : String)
    → succeeds (verified_release env creator id key s) ≡ true
    → (e : Escrow) × (escrow_of id s ≡ some e) × IsVerified env key e
verified_release-IsVerified s env creator id key done =
    Returns-known _ (verified s env creator id key) done

one_escrow :
    (k : ℕ) (f g : Escrow) (t : State) → escrow_of k t ≡ some f → escrow_of k t ≡ some g → f ≡ g
one_escrow k f g t h i = cc

clock_closed :
    (e g : Escrow) (now : ℕ) (creator : String)
    → terms g ≡ terms e
    → e.no_auto_release ≡ true
    → str_eq creator e.payer ≡ false
    → ¬ MayRelease now creator g
clock_closed e g now creator same clock other (inl payer) =
    let h : str_eq creator e.payer ≡ true = ap (λ x. str_eq creator x.payer) (sym same) ∙ payer in
    cc
clock_closed e g now creator same clock other (inr (_, by_clock, _)) =
    let h : g.no_auto_release ≡ true = ap (λ x. x.no_auto_release) same ∙ clock in cc

-- After every run from a valid store, and at every time, ReleaseEscrow refuses a caller who is not
-- the payer of an escrow that does not release by the clock.
pub no_auto_release_forever :
    {s t : State}
    → Run s t
    → IsValid s
    → (k : ℕ) (e : Escrow) → escrow_of k s ≡ some e
    → e.no_auto_release ≡ true
    → (env : Env) (creator : String) → str_eq creator e.payer ≡ false
    → succeeds (release_escrow env creator k t) ≡ false
no_auto_release_forever {s} {t} run valid k e found clock env creator other =
    let (f, f_found, same, _) = Run-Arrives run valid k e found in
    elim (Bool-cases (succeeds (release_escrow env creator k t))) [
      | inl done ↦
          let (g, g_found, _, allowed) = release_escrow-MayRelease t env creator k done in
          absurd (
            clock_closed e g env.block_time creator
              (subst (λ x. terms x ≡ terms e) (one_escrow k f g t f_found g_found) same) clock other
              allowed)
      | inr refused ↦ refused
    ]
