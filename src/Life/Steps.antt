-- ===== src/Life/Steps.antt =====
-- One write to the escrows: none, a new escrow, or one escrow that follows the life cycle.
use ag3nt_coin.Base.{ℕ, ◌≡◌, refl, ap, ◌∙◌, some, inl, inr, arith, Bool-cases, ◌==◌, ==_iff}
use mathlib.Core.Path.{subst}
use ag3nt_coin.Base.Store
use ag3nt_coin.Base.Store.{Store, uint_key}
use ag3nt_coin.Base.Store.Laws.{get-set_self, get-set_ne}
use ag3nt_coin.Exec.{Exec}
use ag3nt_coin.Exec.Returns.{Returns, Returns-weaken}
use ag3nt_coin.Exec.Keeps.{Keeps, Keeps-Returns}
use ag3nt_coin.Types.{Escrow}
use ag3nt_coin.Keeper.{add_escrow, put_escrow, State, escrow_of}
use ag3nt_coin.Invariant.{IsWellFormed, escrow_id}
use ag3nt_coin.Invariant.Records.{found_at_id, found-lt-next}
use ag3nt_coin.Life.{stays, Follows, Evolves, SameEscrows, escrows_of}

Follows-refl : (e : Escrow) → Follows e e
Follows-refl e = record { same_terms = refl; moves = stays }

module _ (s s' : State) where
  same_escrow : (k : ℕ) (e f : Escrow) → escrow_of k s ≡ some e → escrow_of k s ≡ some f → e ≡ f
  same_escrow k e f h g = cc

  same-Evolves : s'.escrow ≡ s.escrow → Evolves s s'
  same-Evolves same k e found = (e, ap (Store.get k) same ∙ found, Follows-refl e)

  pub put-Evolves :
      IsWellFormed s
      → (k : ℕ) (old e : Escrow) → escrow_of k s ≡ some old
      → Follows old e
      → s'.escrow ≡ Store.set old.id e s.escrow
      → Evolves s s'
  put-Evolves wf k old e found follows written j f j_found = elim (Bool-cases (j == old.id)) [
    | inl here ↦
        let at : j ≡ old.id = (==_iff j old.id).0 here in
        let at_id = found_at_id escrow_id s.escrow_seq s.escrow wf.escrows k old found in
        let same : old ≡ f =
          same_escrow old.id old f at_id (subst (λ x. escrow_of x s ≡ some f) at j_found) in
        (
          e,
          ap (Store.get j) written
              ∙ subst (λ x. Store.get j (Store.set x e s.escrow) ≡ some e) at
                  (get-set_self j e s.escrow),
          subst (λ x. Follows x e) same follows,
        )
    | inr away ↦ (
      f,
      ap (Store.get j) written ∙ get-set_ne j old.id e s.escrow (ground arith) ∙ j_found,
      Follows-refl f,
    )
  ]

  pub add-Evolves :
      IsWellFormed s → (e : Escrow) → s'.escrow ≡ Store.set s.escrow_seq e s.escrow → Evolves s s'
  add-Evolves wf e written j f found = (
    f,
    ap (Store.get j) written
        ∙ get-set_ne j s.escrow_seq e s.escrow (λ same.
          absurd (
            omega
              (arith, found-lt-next escrow_id s.escrow_seq s.escrow wf.escrows j f found, same)))
        ∙ found,
    Follows-refl f,
  )

-- A handler that leaves the escrows alone.
pub frame-Evolves :
    {A : Type 0} (m : Exec State A) (s : State)
    → Keeps (SameEscrows (escrows_of s)) m
    → Returns (λ _ s'. Evolves s s') (m s)
frame-Evolves m s k =
    Returns-weaken (λ _ s' same. same-Evolves s s' (ap (λ m. m.0) same)) (Keeps-Returns m s k refl)

-- One escrow is written back, in a store whose escrows are those of `s`.
pub written-Evolves :
    (s t : State)
    → IsWellFormed s
    → escrows_of t ≡ escrows_of s
    → (k : ℕ) (old e : Escrow) → escrow_of k s ≡ some old
    → Follows old e
    → Evolves s (put_escrow old.id e t)
written-Evolves s t wf same k old e found follows =
    put-Evolves s (put_escrow old.id e t) wf k old e found follows
      (ap (λ m. Store.set old.id e m.0) same)

-- A new escrow, in a store whose escrows are those of `s`.
pub added-Evolves :
    (s t : State)
    → IsWellFormed s
    → escrows_of t ≡ escrows_of s
    → (e : ℕ → Escrow) → Evolves s (add_escrow e t)
added-Evolves s t wf same e =
    add-Evolves s (add_escrow e t) wf (e s.escrow_seq) (ap (λ m. Store.set m.1 (e m.1) m.0) same)
