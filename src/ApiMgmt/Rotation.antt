-- ===== src/ApiMgmt/Rotation.antt =====
-- Rotation of an API key: for how long the old key and the new one are found.
use rago_desk.Base.{
  ℕ, ◌≡◌, refl, ap, sym, ◌∙◌, ◌≢◌, inl, inr, Bool, true, false, not, ◌&&◌, ◌||◌, Option, none, some,
  List, [], ◌∷◌, ltb, ◌==◌, nat_eq, text_eq, if◌then◌else◌, null, any, Text, Result, ok, err, All,
  arith, Bool-cases, text_beq_iff, eq_refl, not_both,
}
use rago_desk.ApiMgmt.Types.{ApiKey, Time, status_active}
use rago_desk.ApiMgmt.Table.{
  KeyRow, Db, plain_error, find_row, update_where, is_row, matches_hash, hash_columns,
  select_by_hash, select_key, rotate_row, rotate_key, require_tenant, hash_taken, null_time,
}

-- A row that carries a hash neither as its own nor as its previous one.
abbrev prev_is : Text → Option Text → Bool
prev_is hash none = false
prev_is hash (some prev) = prev == hash

unfoldable pub carries : Text → KeyRow → Bool
carries hash r = r.key.key_hash == hash || prev_is hash r.prev_key_hash

-- Only the rows with the ID carry the hash.
abbrev pub OthersLack : Text → Text → Text → List KeyRow → Type 0
OthersLack t id hash = All (λ r. (carries hash r && not (is_row t id r)) ≡ false)

text_ne : (a b : Text) → a ≢ b → (a == b) ≡ false
text_ne a b h = elim (Bool-cases (a == b)) [
  | inl e ↦ absurd (h ((text_beq_iff a b).0 e))
  | inr e ↦ e
]

-- A row that lacks the hash is not found by it.
lacks-misses :
    (hash : Text) (now : Time) (r : KeyRow)
    → carries hash r ≡ false
    → matches_hash hash now r ≡ false
unfolding carries matches_hash
lacks-misses hash now r h = ground arith

-- The time is before what the column keeps of the end of the grace, if there is one.
abbrev pub in_grace : (Time → Time) → Time → Time → Bool
in_grace datetime grace now = not (grace == 0) && ltb now (datetime grace)

rotated_match :
    (datetime : Time → Time) (hash new : Text) (grace now : Time) (r : KeyRow)
    → matches_hash hash now (rotate_row datetime new grace r)
      ≡ (new == hash || (r.key.key_hash == hash && in_grace datetime grace now))
unfolding matches_hash rotate_row null_time
rotated_match datetime hash new grace now r = ground arith

module _ (datetime : Time → Time) (t id new : Text) (grace now : ℕ) where
  abbrev rotated : List KeyRow → List KeyRow
  rotated = update_where (is_row t id) (rotate_row datetime new grace)

  rotated_cons :
      (r : KeyRow) (rows : List KeyRow)
      → rotated (r ∷ rows)
        ≡ (if is_row t id r then rotate_row datetime new grace r else r) ∷ rotated rows
  unfolding update_where
  rotated_cons r rows = refl

  -- Past the grace nothing is found by a hash that only rotated rows had.
  find_expired :
      (hash : Text) (rows : List KeyRow)
      → OthersLack t id hash rows
      → (new == hash) ≡ false
      → in_grace datetime grace now ≡ false
      → find_row (matches_hash hash now) (rotated rows) ≡ none
  unfolding find_row update_where
  find_expired hash [] lack fresh late = refl
  find_expired hash (x ∷ rows) (lx, lack) fresh late =
      let rest = find_expired hash rows lack fresh late in
      elim (Bool-cases (is_row t id x)) [
        | inl e ↦ rw (e, rotated_match datetime hash new grace now x) (ground (arith, rest))
        | inr e ↦ rw (e, lacks-misses hash now x (ground arith)) rest
      ]

  -- The old hash finds the row until the grace ends.
  find_old :
      (hash : Text) (rows : List KeyRow) (r : KeyRow)
      → find_row (is_row t id) rows ≡ some r
      → (r.key.key_hash == hash) ≡ true
      → OthersLack t id hash rows
      → (new == hash) ≡ false
      → (find_row (matches_hash hash now) (rotated rows)
          ≡ (if in_grace datetime grace now then some (rotate_row datetime new grace r) else none))
  unfolding find_row update_where
  find_old hash [] r found same lack fresh = cc
  find_old hash (x ∷ rows) r found same (lx, lack) fresh = elim (Bool-cases (is_row t id x)) [
    | inl e ↦
        rw (e, rotated_match datetime hash new grace now x)
          (ground (arith, find_expired hash rows lack fresh))
    | inr e ↦
        rw (e, lacks-misses hash now x (ground arith))
          (find_old hash rows r (ground arith) same lack fresh)
  ]

  -- The new hash, which no row had, finds the row at any time.
  find_new :
      (rows : List KeyRow) (r : KeyRow)
      → find_row (is_row t id) rows ≡ some r
      → All (λ x. carries new x ≡ false) rows
      → find_row (matches_hash new now) (rotated rows) ≡ some (rotate_row datetime new grace r)
  unfolding find_row update_where
  find_new [] r found lack = cc
  find_new (x ∷ rows) r found (lx, lack) = elim (Bool-cases (is_row t id x)) [
    | inl e ↦ rw (e, rotated_match datetime new new grace now x) (ground (arith, eq_refl new))
    | inr e ↦ rw (e, lacks-misses new now x lx) (find_new rows r (ground arith) lack)
  ]

any_found :
    (p : KeyRow → Bool) (rows : List KeyRow) (r : KeyRow)
    → find_row p rows ≡ some r
    → any p rows ≡ true
unfolding find_row
any_found p [] r h = cc
any_found p (x ∷ rows) r h = ground (arith, any_found p rows r)

none_taken :
    (t id new : Text) (rows : List KeyRow)
    → All (λ x. carries new x ≡ false) rows
    → any (hash_taken t id new) rows ≡ false
unfolding carries hash_taken
none_taken t id new [] h = refl
none_taken t id new (x ∷ rows) (hx, h) = ground (arith, none_taken t id new rows h)

own_hash :
    (p : KeyRow → Bool) (new : Text) (rows : List KeyRow) (r : KeyRow)
    → find_row p rows ≡ some r
    → All (λ x. carries new x ≡ false) rows
    → (r.key.key_hash == new) ≡ false
unfolding find_row carries
own_hash p new [] r h l = ground arith
own_hash p new (x ∷ rows) r h (lx, l) = elim (Bool-cases (p x)) [
  | inl e ↦ ground arith
  | inr e ↦ own_hash p new rows r (rw e at h) l
]

text_beq_sym : (a b : Text) → (a == b) ≡ false → (b == a) ≡ false
text_beq_sym a b h = elim (Bool-cases (b == a)) [
  | inl e ↦
      let same : a ≡ b = sym ((text_beq_iff b a).0 e) in not_both ((text_beq_iff a b).1 same) h
  | inr e ↦ e
]

-- The table behind a rotation, at the time of a later lookup.
abbrev pub rotated_db : Text → Text → Text → Time → Time → Db → Db
rotated_db t id new grace now db = record ((rotate_key (some t) id new grace db).1) { now = now }

-- What a lookup by a hash answers for the row that it found.
abbrev answer : Option KeyRow → Result ApiKey
answer none = err plain_error
answer (some r) = ok (hash_columns r.key)

select_answer :
    (hash : Text) (db : Db)
    → (select_by_hash hash db).0 ≡ answer (find_row (matches_hash hash db.now) db.rows)
unfolding select_by_hash
select_answer hash db = ground arith

answer_if :
    (b : Bool) (r : KeyRow)
    → answer (if b then some r else none) ≡ (if b then ok (hash_columns r.key) else err plain_error)
answer_if true r = refl
answer_if false r = refl

select_key-state : (t id : Text) (db : Db) → (select_key t id db).1 ≡ db
unfolding select_key
select_key-state t id db = ground arith

rotate_rows :
    (t id new : Text) (grace : Time) (db : Db) (r : KeyRow)
    → null t ≡ false
    → find_row (is_row t id) db.rows ≡ some r
    → All (λ x. carries new x ≡ false) db.rows
    → (rotate_key (some t) id new grace db).1.rows
      ≡ update_where (is_row t id) (rotate_row db.datetime new grace) db.rows
unfolding rotate_key require_tenant
rotate_rows t id new grace db r named found fresh =
    let seen = any_found (is_row t id) db.rows r found in
    let free = none_taken t id new db.rows fresh in
    rw (named, seen, free) (ap (λ (d : Db). d.rows) (select_key-state t id _))

-- A key of a tenant is rotated to a hash that no row carries, and no other row carries its old hash.
-- Then a lookup by the old hash finds it exactly while the end of the grace is set and the time is
-- before what the column DATETIME keeps of it, and a lookup by the new hash always; both find it
-- active, whatever its status was.
pub select_by_hash-rotate :
    (t id new : Text) (grace now : Time) (db : Db) (r : KeyRow)
    → null t ≡ false
    → find_row (is_row t id) db.rows ≡ some r
    → OthersLack t id r.key.key_hash db.rows
    → All (λ x. carries new x ≡ false) db.rows
    → ((select_by_hash r.key.key_hash (rotated_db t id new grace now db)).0 ≡ (
        if in_grace db.datetime grace now
        then ok (hash_columns (record (r.key) { key_hash = new; status = status_active }))
        else err plain_error))
      × ((select_by_hash new (rotated_db t id new grace now db)).0
          ≡ ok (hash_columns (record (r.key) { key_hash = new; status = status_active })))
unfolding rotate_row
select_by_hash-rotate t id new grace now db r named found lack fresh =
    let rows = rotate_rows t id new grace db r named found fresh in
    let differs =
      text_beq_sym r.key.key_hash new (own_hash (is_row t id) new db.rows r found fresh) in
    let old =
      find_old db.datetime t id new grace now r.key.key_hash db.rows r found
        (eq_refl r.key.key_hash) lack differs in
    (
      select_answer r.key.key_hash (rotated_db t id new grace now db)
          ∙ ap (λ l. answer (find_row (matches_hash r.key.key_hash now) l)) rows
          ∙ ap answer old
          ∙ answer_if (in_grace db.datetime grace now) (rotate_row db.datetime new grace r),
      select_answer new (rotated_db t id new grace now db)
          ∙ ap (λ l. answer (find_row (matches_hash new now) l)) rows
          ∙ ap answer (find_new db.datetime t id new grace now db.rows r found fresh),
    )
