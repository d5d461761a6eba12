-- ===== src/Rerank/Counts.antt =====
-- How often each chunk stands in the reordered list.
use rago_desk.Base.{
  ℕ, ◌+◌, ◌≤◌, ◌≡◌, refl, ap, sym, inl, inr, Bool, true, false, not, ◌&&◌, ◌||◌, none, some, List,
  [], ◌∷◌, ◌++◌, ◌==◌, nat_eq, text_eq, text_beq_iff, eq_refl, if◌then◌else◌, null, any, Text, trim,
  to_lower, Unicode, arith, Bool-cases, Option-cases,
}
use rago_desk.Rerank.Order.{
  ScoredChunk, by_id, take_order, take_rest, apply_rerank_order, dedupe_loop, dedupe_queries,
}

abbrev pub times_named : Text → List Text → ℕ
times_named c [] = 0
times_named c (raw ∷ order) = (if trim raw == c then 1 else 0) + times_named c order

module _ {S : Type 0} (c : Text) where
  abbrev pub copies : List (ScoredChunk S) → ℕ
  copies [] = 0
  copies (item ∷ ranked) = (if item.chunk_id == c then 1 else 0) + copies ranked

  copies-append : (xs ys : List (ScoredChunk S)) → copies (xs ++ ys) ≡ copies xs + copies ys
  copies-append [] ys = omega arith
  copies-append (x ∷ xs) ys = omega (arith, copies-append xs ys)

  by_id-none : (ranked : List (ScoredChunk S)) → by_id ranked c ≡ none → copies ranked ≡ 0
  unfolding by_id
  by_id-none [] h = refl
  by_id-none (item ∷ ranked) h = elim (Option-cases (by_id ranked c)) [
    | inl e ↦ ground (arith, h, e, by_id-none ranked e)
    | inr (x, e) ↦ ground (arith, h, e)
  ]

  by_id-some :
      (ranked : List (ScoredChunk S)) (x : ScoredChunk S)
      → by_id ranked c ≡ some x
      → ((x.chunk_id == c) ≡ true) × ((copies ranked == 0) ≡ false)
  unfolding by_id
  by_id-some [] x h = cc
  by_id-some (item ∷ ranked) x h = elim (Option-cases (by_id ranked c)) [
    | inl e ↦ ground (arith, h, e)
    | inr (y, e) ↦ ground (arith, h, e, by_id-some ranked y e)
  ]

-- Equality of two texts is decided alike when one of them is replaced by an equal one.
same_as : (a b c : Text) → (a == b) ≡ true → (b == c) ≡ (a == c)
same_as a b c h = ap (λ x. x == c) (sym ((text_beq_iff a b).0 h))

module _ {S : Type 0} (c : Text) where
  take_order-copies :
      (ranked : List (ScoredChunk S)) (order : List Text)
      → copies c (take_order ranked order).0
        ≡ (if copies c ranked == 0 then 0 else times_named c order)
  unfolding take_order
  take_order-copies ranked [] = ground arith
  take_order-copies ranked (raw ∷ order) = elim (Bool-cases (trim raw == c)) [
    | inl e ↦
        let same = (text_beq_iff (trim raw) c).0 e in
        elim (Option-cases (by_id ranked c)) [
          | inl f ↦
              rw (take_order, same, f)
                (ground (arith, by_id-none c ranked f, take_order-copies ranked order))
          | inr (x, f) ↦
              rw (take_order, same, f)
                (ground (arith, eq_refl c, by_id-some c ranked x f, take_order-copies ranked order))
        ]
    | inr e ↦ elim (Option-cases (by_id ranked (trim raw))) [
      | inl f ↦ rw (take_order, f) (ground (arith, e, take_order-copies ranked order))
      | inr (x, f) ↦
          let other = same_as x.chunk_id (trim raw) c (by_id-some (trim raw) ranked x f).0 in
          rw (take_order, f) (ground (arith, e, other, take_order-copies ranked order))
    ]
  ]

  take_order-seen :
      (ranked : List (ScoredChunk S)) (order : List Text)
      → any (λ id. id == c) (take_order ranked order).1
        ≡ (not (copies c ranked == 0) && not (times_named c order == 0))
  unfolding take_order
  take_order-seen ranked [] = ground arith
  take_order-seen ranked (raw ∷ order) = elim (Bool-cases (trim raw == c)) [
    | inl e ↦
        let same = (text_beq_iff (trim raw) c).0 e in
        elim (Option-cases (by_id ranked c)) [
          | inl f ↦
              rw (take_order, same, f)
                (ground (arith, by_id-none c ranked f, take_order-seen ranked order))
          | inr (x, f) ↦
              rw (take_order, same, f)
                (ground (arith, eq_refl c, by_id-some c ranked x f, take_order-seen ranked order))
        ]
    | inr e ↦ elim (Option-cases (by_id ranked (trim raw))) [
      | inl f ↦ rw (take_order, f) (ground (arith, e, take_order-seen ranked order))
      | inr (x, f) ↦ rw (take_order, f) (ground (arith, e, take_order-seen ranked order))
    ]
  ]

  take_rest-copies :
      (seen : List Text) (ranked : List (ScoredChunk S))
      → copies c (take_rest seen ranked) ≡ (if any (λ id. id == c) seen then 0 else copies c ranked)
  unfolding take_rest
  take_rest-copies seen [] = ground arith
  take_rest-copies seen (item ∷ ranked) = elim (Bool-cases (item.chunk_id == c)) [
    | inl e ↦
        let same : any (λ id. id == item.chunk_id) seen ≡ any (λ id. id == c) seen =
          ap (λ n. any (λ id. id == n) seen) ((text_beq_iff item.chunk_id c).0 e) in
        rw (take_rest, same) (ground (arith, e, take_rest-copies seen ranked))
    | inr e ↦ ground (arith, e, take_rest-copies seen ranked)
  ]

  -- A chunk that the order names stands in the result as often as the order names it, if it was
  -- retrieved at all; every other chunk stands there as often as it was retrieved.
  pub apply_rerank_order-copies :
      (order : List Text) (ranked : List (ScoredChunk S))
      → copies c (apply_rerank_order order ranked) ≡ (
          if copies c ranked == 0 || times_named c order == 0
          then copies c ranked
          else times_named c order)
  unfolding apply_rerank_order
  apply_rerank_order-copies [] ranked = ground arith
  apply_rerank_order-copies (id ∷ order) ranked =
      let (out, seen) = take_order ranked (id ∷ order) in
      ground (
        arith,
        copies-append c out (take_rest seen ranked),
        take_order-copies ranked (id ∷ order),
        take_order-seen ranked (id ∷ order),
        take_rest-copies seen ranked,
      )

  -- If a chunk was not retrieved twice and the order does not name it twice, it stands in the
  -- reordered list as often as it was retrieved.
  pub apply_rerank_order-keeps :
      (order : List Text) (ranked : List (ScoredChunk S))
      → copies c ranked ≤ 1
      → times_named c order ≤ 1
      → copies c (apply_rerank_order order ranked) ≡ copies c ranked
  apply_rerank_order-keeps order ranked h k =
      ground (arith, apply_rerank_order-copies order ranked, h, k)

module _ ⦃u : Unicode⦄ (c : Text) where
  -- How many queries are the same as `c` but for upper and lower case.
  abbrev pub keyed : List Text → ℕ
  keyed [] = 0
  keyed (q ∷ queries) = (if to_lower q == c then 1 else 0) + keyed queries

  -- One of the queries, trimmed, is not empty and is the same as `c` but for case.
  abbrev pub asked : List Text → Bool
  asked = any (λ q. not (null (trim q)) && to_lower (trim q) == c)

  dedupe_loop-keyed :
      (seen queries : List Text)
      → keyed (dedupe_loop seen queries)
        ≡ (if any (λ key. key == c) seen then 0 else if asked queries then 1 else 0)
  unfolding dedupe_loop
  dedupe_loop-keyed seen [] = ground arith
  dedupe_loop-keyed seen (raw ∷ queries) = elim (Bool-cases (null (trim raw))) [
    | inl e ↦ ground (arith, e, dedupe_loop-keyed seen queries)
    | inr e ↦ elim (Bool-cases (to_lower (trim raw) == c)) [
      | inl f ↦
          let same : any (λ key. key == to_lower (trim raw)) seen ≡ any (λ key. key == c) seen =
            ap (λ n. any (λ key. key == n) seen) ((text_beq_iff (to_lower (trim raw)) c).0 f) in
          rw (dedupe_loop, e, same)
            (ground (
              arith,
              f,
              dedupe_loop-keyed seen queries,
              dedupe_loop-keyed (to_lower (trim raw) ∷ seen) queries,
            ))
      | inr f ↦ ground (
        arith,
        e,
        f,
        dedupe_loop-keyed seen queries,
        dedupe_loop-keyed (to_lower (trim raw) ∷ seen) queries,
      )
    ]
  ]

  keyed-null : (queries : List Text) → null queries ≡ true → keyed queries ≡ 0
  keyed-null [] h = refl
  keyed-null (q ∷ queries) h = cc

  -- If one of the queries, trimmed, is not empty and is the same as a text but for case, exactly one
  -- query that is the same but for case is kept.
  pub dedupe_queries-once :
      (queries : List Text) → asked queries ≡ true → keyed (dedupe_queries queries) ≡ 1
  unfolding dedupe_queries
  dedupe_queries-once [] h = cc
  dedupe_queries-once (first ∷ queries) h =
      let out = dedupe_loop-keyed [] (first ∷ queries) in
      let empty = keyed-null (dedupe_loop [] (first ∷ queries)) in
      elim (Bool-cases (null (dedupe_loop [] (first ∷ queries)))) [
        | inl e ↦ let none_kept = empty e in ground (arith, h, out, none_kept)
        | inr e ↦ rw (dedupe_queries, e) (ground (arith, h, out))
      ]
