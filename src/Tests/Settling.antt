-- ===== src/Tests/Settling.antt =====
-- The theorems on the order of a map's entries and on a delivery, applied on the small chain.
use ag3nt_coin.Base.{
  ◌≡◌, refl, ℕ, String, true, false, [], ◌∷◌, arith, str_eq, inl, inr, Bool-cases, ◌∙◌, sym, eq_iff,
}
use ag3nt_coin.Base.Store
use ag3nt_coin.Base.Store.{Store, uint_key, string_key}
use ag3nt_coin.Keeper.Hash.{is_hex_sha256}
use ag3nt_coin.Msg.Escrows.{MsgSubmitEscrow}
use ag3nt_coin.Msg.Gates.{compare_counts, count_answers, winning_answer}
use ag3nt_coin.Rules.AnyOrder.{SameMap, start, winner, winning_answer_any_order}
use ag3nt_coin.Rules.Delivery.{Completes, Delivers, delivery-Completes}
use ag3nt_coin.Tests.Fixtures.{
  answers, bob, env, env_at, escrow_0, hash, store, store-IsWellFormed, store_fits,
}

-- The counts of the answers in another order than that of the loop over the answers.
abbrev other_order : Store String ℕ
other_order = ("yes", 2) ∷ ("no", 1) ∷ []

never_both : (x : String) → str_eq "yes" x ≡ true → str_eq "no" x ≡ false
never_both x first = elim (Bool-cases (str_eq "no" x)) [
  | inl second ↦
      let same : "no" ≡ "yes" = (eq_iff "no" x).0 second ∙ sym ((eq_iff "yes" x).0 first) in
      let h = (eq_iff "no" "yes").1 same in absurd (ground (arith, h))
  | inr away ↦ away
]

same_counts : SameMap (count_answers answers []) other_order
unfolding count_answers Store.set Store.get
same_counts = record {
  left_distinct = (refl, (refl, tt));
  right_distinct = (refl, (refl, tt));
  same = λ x. elim (Bool-cases (str_eq "yes" x)) [
    | inl first ↦ rw (first, never_both x first) refl
    | inr away ↦ rw away refl
  ];
}

winning_answer_any_order_example :
    winner (compare_counts start other_order) ≡ winning_answer "" answers
winning_answer_any_order_example = winning_answer_any_order answers other_order same_counts

abbrev delivery : MsgSubmitEscrow
delivery = record {
  creator = "bob";
  id = 0;
  delivery_hash = hash;
  key_hash = hash;
  artifact_uri = "ipfs://work";
}

bob-Delivers : Delivers env delivery escrow_0 store
unfolding Store.get is_hex_sha256
bob-Delivers = record {
  stored = refl;
  still_locked = refl;
  bytes = "bob";
  address = refl;
  by_payee = refl;
  delivery_is_hex = refl;
  key_is_hex = refl;
}

delivery-Completes_example : Completes env (env_at 5000) delivery escrow_0 bob store
unfolding Store.get
delivery-Completes_example =
    delivery-Completes env (env_at 5000) delivery escrow_0 bob store "alice" "bob"
      store-IsWellFormed store_fits bob-Delivers refl refl refl
