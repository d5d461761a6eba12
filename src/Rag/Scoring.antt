-- ===== src/Rag/Scoring.antt =====
-- Scores: apps/server/internal/rag/biz/scoring.go, and normalizeQuery and alignQueryWeights beside it.
use rago_desk.Base.{
  ℕ, suc, ◌-◌, Bool, true, false, not, ◌&&◌, ◌||◌, List, [], ◌∷◌, ◌++◌, ltb, leb, ◌==◌, nat_eq,
  text_eq, if◌then◌else◌, null, any, length, take, Text, codes, trim, to_lower, is_space, Unicode,
  ℤ, pos_part, is_pos,
}
use rago_desk.Rag.Types.{Floats, Ranked, utf8}

-- strings.FieldsFunc; the word that was read so far stands first.
unfoldable pub fields_by : (ℕ → Bool) → Text → Text → List Text
fields_by splits word [] = if null word then [] else word ∷ []
fields_by splits word (r ∷ s) =
    let cut = fields_by splits [] s in
    let longer = fields_by splits (word ++ r ∷ []) s in
    if splits r then (if null word then cut else word ∷ cut) else longer

-- The loop of tokenSet: `left` more tokens are taken, those that were taken before included.
unfoldable pub token_loop : ℕ → List Text → List Text → List Text
token_loop left set [] = set
token_loop left set (token ∷ fields) =
    let skip = token_loop left set fields in
    let set' = if any (λ t. t == token) set then set else set ++ token ∷ [] in
    let more = token_loop (left - 1) set' fields in
    if ltb (length (utf8 token)) 2 then skip else if leb left 1 then set' else more

module _ ⦃u : Unicode⦄ where
  unfoldable pub token_set : Text → ℕ → List Text
  token_set text limit =
      token_loop (if limit == 0 then 64 else limit) []
        (fields_by (λ r. not (u.is_letter r || u.is_number r)) [] (to_lower text))

  -- `is_mark` is unicode.IsPunct or unicode.IsSymbol.
  unfoldable pub query_loop : (ℕ → Bool) → Bool → Text → Text
  query_loop is_mark space [] = []
  query_loop is_mark space (r ∷ s) =
      let word = query_loop is_mark false s in
      let spaced = query_loop is_mark true s in
      let same = query_loop is_mark space s in
      if u.is_letter r || u.is_number r
      then r ∷ word
      else if is_space r || is_mark r
      then (if space then spaced else 32 ∷ spaced)
      else same

  unfoldable pub normalize_query : (ℕ → Bool) → Text → Text
  normalize_query is_mark text =
      if null (trim text) then [] else trim (query_loop is_mark false (to_lower text))

module _ {F : Type 0} (fl : Floats F) where
  abbrev zero_float : F
  zero_float = fl.of_nat 0

  abbrev unit_float : F
  unit_float = fl.of_nat 1

  unfoldable pub max_float32 : F → F → F
  max_float32 a b = if fl.le b a then a else b

  unfoldable pub combine_scores : F → F → F → F
  combine_scores vector_score text_score weight =
      if fl.le weight zero_float
      then vector_score
      else if fl.le unit_float weight
      then text_score
      else fl.add (fl.mul vector_score (fl.sub unit_float weight)) (fl.mul text_score weight)

  unfoldable pub derive_retrieve_threshold : F → F
  derive_retrieve_threshold confidence =
      let threshold = fl.mul confidence (fl.lit (codes "0.2")) in
      if fl.le confidence zero_float
      then zero_float
      else if fl.lt (fl.lit (codes "0.2")) threshold
      then fl.lit (codes "0.2")
      else threshold

  unfoldable pub count_matched : List Text → List Text → ℕ
  count_matched [] c_tokens = 0
  count_matched (token ∷ tokens) c_tokens =
      let rest = count_matched tokens c_tokens in
      if any (λ t. t == token) c_tokens then suc rest else rest

  unfoldable pub overlap_score : ⦃u : Unicode⦄ → Text → Text → F
  overlap_score question content =
      let q_tokens = token_set question 64 in
      let c_tokens = token_set content 256 in
      if null q_tokens || null c_tokens
      then zero_float
      else fl.div (fl.of_nat (count_matched q_tokens c_tokens)) (fl.of_nat (length q_tokens))

  unfoldable pub sum_scores : F → List (Ranked F) → F
  sum_scores sum [] = sum
  sum_scores sum (item ∷ items) = sum_scores (fl.add sum item.score) items

  unfoldable pub coverage_of : ℕ → ℤ → F
  coverage_of count top_k =
      let share = fl.div (fl.of_nat count) (fl.of_nat (pos_part top_k)) in
      if is_pos top_k then (if fl.lt unit_float share then unit_float else share) else unit_float

  -- `if conf < 0 … if conf > 1 … return conf`
  unfoldable pub clamp : F → F
  clamp x = if fl.lt x zero_float then zero_float else if fl.lt unit_float x then unit_float else x

  unfoldable pub compute_confidence : List (Ranked F) → ℤ → F
  compute_confidence ranked top_k =
      let best = take 3 ranked in
      let avg = fl.div (sum_scores zero_float best) (fl.of_nat (length best)) in
      if null ranked
      then zero_float
      else clamp (
          fl.add (fl.mul (fl.lit (codes "0.8")) avg)
            (fl.mul (fl.lit (codes "0.2")) (coverage_of (length ranked) top_k)))

  -- sort.SliceStable by `score >`, as an insertion from the right.
  unfoldable pub insert_ranked : Ranked F → List (Ranked F) → List (Ranked F)
  insert_ranked x [] = x ∷ []
  insert_ranked x (y ∷ ys) =
      let later = insert_ranked x ys in if fl.lt x.score y.score then y ∷ later else x ∷ y ∷ ys

  unfoldable pub sort_ranked : List (Ranked F) → List (Ranked F)
  sort_ranked [] = []
  sort_ranked (x ∷ xs) = insert_ranked x (sort_ranked xs)

  -- One round of the loop over the items; the map has each ID once.
  unfoldable pub keep_best : Ranked F → List (Ranked F) → List (Ranked F)
  keep_best item [] = item ∷ []
  keep_best item (prev ∷ by_chunk) =
      let later = keep_best item by_chunk in
      if prev.result.chunk_id == item.result.chunk_id
      then (if fl.lt prev.score item.score then item ∷ by_chunk else prev ∷ by_chunk)
      else prev ∷ later

  unfoldable pub best_by_chunk : List (Ranked F) → List (Ranked F) → List (Ranked F)
  best_by_chunk by_chunk [] = by_chunk
  best_by_chunk by_chunk (item ∷ items) =
      best_by_chunk (if null item.result.chunk_id then by_chunk else keep_best item by_chunk) items

  -- `iterate` is the order in which `range` goes over the map.
  unfoldable pub rank_and_filter :
      (List (Ranked F) → List (Ranked F)) → List (Ranked F) → ℤ → List (Ranked F)
  rank_and_filter iterate items top_k =
      let merged = sort_ranked (iterate (best_by_chunk [] items)) in
      if is_pos top_k && ltb (pos_part top_k) (length merged)
      then take (pos_part top_k) merged
      else merged

  unfoldable pub align_query_weights : List Text → List F → List F
  align_query_weights [] weights = []
  align_query_weights (query ∷ queries) [] = unit_float ∷ align_query_weights queries []
  align_query_weights (query ∷ queries) (weight ∷ weights) =
      (if fl.lt zero_float weight then weight else unit_float) ∷ align_query_weights queries weights
