-- ===== src/ApiMgmt/Scopes.antt =====
-- Normalised scopes: what normalising keeps of what is allowed.
use rago_desk.Base.{
  ◌≡◌, refl, ap, sym, ◌∙◌, inl, inr, Bool, true, false, ◌||◌, Option, List, [], ◌∷◌, ◌++◌, ◌==◌,
  text_eq, text_beq_iff, null, any, All, Text, trim, trim_left, trim_right, keep, trim_idem,
  to_lower, Unicode, arith, Bool-cases, map, ℤ, ℕ,
}
use rago_desk.ApiMgmt.Types.{ApiKey, scope_all}
use rago_desk.ApiMgmt.Normalize.{contains, clean, scope_loop, normalize_scopes, scope_allowed}
use rago_desk.ApiMgmt.Keys.{update_fields}

module _ ⦃u : Unicode⦄ where
  -- Lowering keeps the spaces, so it goes past trimming.
  lower-trim_left : (s : Text) → trim_left (map u.lower s) ≡ map u.lower (trim_left s)
  lower-trim_left [] = refl
  lower-trim_left (r ∷ s) = ground (arith, u.lower_space r, lower-trim_left s)

  lower-keep : (r : ℕ) (t : Text) → keep (u.lower r) (map u.lower t) ≡ map u.lower (keep r t)
  lower-keep r [] = ground (arith, u.lower_space r)
  lower-keep r (c ∷ t) = refl

  lower-trim_right : (s : Text) → trim_right (map u.lower s) ≡ map u.lower (trim_right s)
  lower-trim_right [] = refl
  lower-trim_right (r ∷ s) = rw (lower-trim_right s) (lower-keep r (trim_right s))

  lower-trim : (s : Text) → trim (to_lower s) ≡ to_lower (trim s)
  unfolding trim to_lower
  lower-trim s = rw (lower-trim_left s) (lower-trim_right (trim_left s))

  lower-lower : (s : Text) → to_lower (to_lower s) ≡ to_lower s
  unfolding to_lower
  lower-lower [] = refl
  lower-lower (r ∷ s) = cc (u.lower_idem r, lower-lower s)

  pub clean_idem : (s : Text) → clean (clean s) ≡ clean s
  unfolding clean
  clean_idem s =
      ap to_lower (lower-trim (trim s)) ∙ lower-lower (trim (trim s)) ∙ ap to_lower (trim_idem s)

  -- What one item of the list lets in.
  lets : Text → Text → Bool
  lets required item = clean item == scope_all || clean item == required

  any-append :
      (p : Text → Bool) (xs : List Text) (x : Text) → any p (xs ++ x ∷ []) ≡ (any p xs || p x)
  any-append p [] x = ground arith
  any-append p (y ∷ xs) x = ground (arith, any-append p xs x)

  contains-lets :
      (v c : Text) (out : List Text)
      → contains v out ≡ true
      → lets c v ≡ true
      → any (lets c) out ≡ true
  unfolding contains
  contains-lets v c [] h k = cc
  contains-lets v c (y ∷ out) h k = elim (Bool-cases (v == y)) [
    | inl e ↦
        let same : v ≡ y = (text_beq_iff v y).0 e in
        or_left (lets c y) (any (lets c) out) (rw (← same) k)
    | inr e ↦ or_right (lets c y) (any (lets c) out) (contains-lets v c out (rw e at h) k)
  ]
    where
      or_left : (a b : Bool) → a ≡ true → (a || b) ≡ true
      or_left a b h = ground arith

      or_right : (a b : Bool) → b ≡ true → (a || b) ≡ true
      or_right a b h = ground arith

  -- An item lets in what its cleaned form lets in.
  lets-clean : (c item : Text) → lets c (clean item) ≡ lets c item
  unfolding lets
  lets-clean c item = ap (λ v. v == scope_all || v == c) (clean_idem item)

  empty_lets : (c item : Text) → null c ≡ false → null (clean item) ≡ true → lets c item ≡ false
  unfolding lets
  empty_lets c item h k = empty_is (clean item) c h k
    where
      empty_is : (v c : Text) → null c ≡ false → null v ≡ true → (v == scope_all || v == c) ≡ false
      empty_is [] [] h k = cc
      empty_is [] (x ∷ c) h k = refl
      empty_is (y ∷ v) c h k = cc

  all_lets : (c item : Text) → (clean item == scope_all) ≡ true → lets c scope_all ≡ true
  unfolding lets
  all_lets c item e =
      let same : clean item ≡ scope_all = (text_beq_iff (clean item) scope_all).0 e in
      ap (lets c) (sym same) ∙ lets-clean c item ∙ ap (λ b. b || clean item == c) e

  item_lets : (c item : Text) → (clean item == scope_all) ≡ true → lets c item ≡ true
  unfolding lets
  item_lets c item e = ap (λ b. b || clean item == c) e

  scope_loop-lets :
      (c : Text) (items out : List Text)
      → null c ≡ false
      → any (lets c) (scope_loop items out) ≡ (any (lets c) out || any (lets c) items)
  unfolding scope_loop
  scope_loop-lets c [] out h = ground arith
  scope_loop-lets c (item ∷ items) out h =
      let v = clean item in
      elim (Bool-cases (null v)) [
        | inl e ↦ rw e (
            scope_loop-lets c items out h
            ∙ ap (λ b. any (lets c) out || (b || any (lets c) items)) (sym (empty_lets c item h e)))
        | inr e ↦ elim (Bool-cases (v == scope_all)) [
          | inl all ↦
              rw (e, all)
                (every (lets c scope_all) (lets c item) (any (lets c) out) (any (lets c) items)
                  (all_lets c item all) (item_lets c item all))
          | inr other ↦ elim (Bool-cases (contains v out)) [
            | inl old ↦
                rw (e, other, old)
                  (scope_loop-lets c items out h
                    ∙ absorb (any (lets c) out) (lets c item) (any (lets c) items)
                        (λ k. contains-lets v c out old (lets-clean c item ∙ k)))
            | inr new ↦
                rw (e, other, new)
                  (scope_loop-lets c items (out ++ v ∷ []) h
                    ∙ ap (λ b. b || any (lets c) items) (any-append (lets c) out v)
                    ∙ ap (λ b. (any (lets c) out || b) || any (lets c) items) (lets-clean c item)
                    ∙ regroup (any (lets c) out) (lets c item) (any (lets c) items))
          ]
        ]
      ]
    where
      absorb : (o i r : Bool) → (i ≡ true → o ≡ true) → (o || r) ≡ (o || (i || r))
      absorb true i r k = refl
      absorb false true r k = cc (k refl)
      absorb false false r k = refl

      regroup : (o i r : Bool) → ((o || i) || r) ≡ (o || (i || r))
      regroup o i r = ground arith

      every : (b i o r : Bool) → b ≡ true → i ≡ true → (b || false) ≡ (o || (i || r))
      every b i o r h k = ground arith

  -- Normalising a list of scopes does not change what it lets in, if it leaves a scope at all; the
  -- scope that is asked for is not blank.
  pub scope_allowed-normalize :
      (scopes : List Text) (required : Text)
      → null (normalize_scopes scopes) ≡ false
      → null (clean required) ≡ false
      → scope_allowed (normalize_scopes scopes) required ≡ scope_allowed scopes required
  unfolding scope_allowed normalize_scopes lets
  scope_allowed-normalize [] required h k = unfold scope_loop in cc
  scope_allowed-normalize (item ∷ items) required h k =
      rw h (
        ap (λ b. null required || false || b)
          (scope_loop-lets (clean required) (item ∷ items) [] k))

  scope_loop-blank :
      (scopes out : List Text)
      → All (λ s. null (clean s) ≡ true) scopes
      → scope_loop scopes out ≡ out
  unfolding scope_loop
  scope_loop-blank [] out h = refl
  scope_loop-blank (s ∷ scopes) out (hs, h) = rw hs (scope_loop-blank scopes out h)

  -- An update of a key by a list of blank scopes, which is not empty, leaves a key without scopes,
  -- and such a key is let in for every scope.
  pub update_fields-blank_scopes :
      (name status : Text) (scopes versions : List Text) (quota qps : Option ℤ) (chat : Option Bool)
      (key : ApiKey) (required : Text)
      → null scopes ≡ false
      → All (λ s. null (clean s) ≡ true) scopes
      → scope_allowed (update_fields name status scopes versions quota qps chat key).scopes required
        ≡ true
  unfolding update_fields scope_allowed normalize_scopes
  update_fields-blank_scopes name status scopes versions quota qps chat key required h k =
      rw (h, scope_loop-blank scopes [] k) (ground arith)
