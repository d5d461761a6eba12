-- ===== src/Documents/Reindexing.antt =====
-- The next version of a document: apps/server/internal/knowledge/biz/knowledge.go over
-- apps/server/internal/knowledge/data/knowledge.go.
use rago_desk.Base.{
  ℕ, ◌+◌, ◌<◌, ◌≤◌, ◌≡◌, refl, Bool, true, false, some, List, [], ◌∷◌, null, any, Text, trim, codes,
  ok, err, Error, Unicode, Bool-cases, inl, inr, ℤ, pos, negsuc, leℤ, if◌then◌else◌, ◌&&◌, ◌==◌,
  text_eq, arith, conflict, ltb,
}
use rago_desk.Documents.Types.{
  Document, DocumentVersion, KnowledgeRepo, KnowledgeUsecase, Ctx, next_int32,
}
use rago_desk.Documents.Tables.{
  Store, Services, first_where, require_tenant, found_or, time_now, or_new_uuid, or_now,
}
use rago_desk.Documents.Statements.{
  is_document, is_numbered, eqℤ, version_collides, add_version, get_row, select_document,
  get_version_by_number, select_version, insert_version,
}
use rago_desk.Documents.Repo.{knowledge_repo}
use rago_desk.Documents.Uploads.{
  new_version, has_version, needs_reindex, reindex_document, store_next,
}

-- A version of the document with the number is in the table.
abbrev pub number_taken : Text → ℤ → List DocumentVersion → Bool
number_taken document_id version =
    any (λ row. row.document_id == document_id && eqℤ row.version version)

taken-collides :
    (v : DocumentVersion) (rows : List DocumentVersion)
    → number_taken v.document_id v.version rows ≡ true
    → any (version_collides v) rows ≡ true
unfolding version_collides
taken-collides v [] h = cc
taken-collides v (row ∷ rows) h = ground (arith, taken-collides v rows)

add_version-taken :
    {W : Type 0} (v : DocumentVersion) (s : Store W)
    → number_taken v.document_id v.version s.versions ≡ true
    → add_version v s ≡ (err (conflict (codes "DOC_VERSION_DUPLICATE")), s)
unfolding add_version
add_version-taken v s h = rw (taken-collides v s.versions h) refl

module _ ⦃u : Unicode⦄ {W : Type 0} (repo : KnowledgeRepo W) (uc : KnowledgeUsecase W) (ctx : Ctx)
    (id : Text) (w w' : W) where
  reindex-refused :
      (doc : Document) (current : DocumentVersion) (e : Error)
      → null (trim id) ≡ false
      → repo.get_document ctx (trim id) w ≡ (ok doc, w)
      → has_version repo uc ctx doc ≡ ok tt
      → repo.get_document_version_by_number ctx (trim id) doc.current_version w ≡ (ok current, w)
      → needs_reindex repo uc ctx current ≡ ok tt
      → repo.create_document_version ctx
          (new_version repo uc ctx (trim id) (next_int32 doc.current_version) current.raw_uri)
          w
        ≡ (err e, w')
      → reindex_document repo uc ctx id w ≡ (err e, w')
  unfolding reindex_document store_next
  reindex-refused doc current e named found has numbered needs refused =
      rw (named, found, has, numbered, needs, refused) refl

module _ ⦃u : Unicode⦄ {W : Type 0} (services : Services W) (uc : KnowledgeUsecase (Store W))
    (t : Text) (named : null t ≡ false) where
  insert-taken :
      (id raw : Text) (n : ℤ) (s : Store W)
      → leℤ n (pos 0) ≡ false
      → null (trim raw) ≡ false
      → number_taken id n s.versions ≡ true
      → (w' : W) × (insert_version services
            (some t)
            (new_version (knowledge_repo services) uc (some t) id n raw)
            s
          ≡ (err (conflict (codes "DOC_VERSION_DUPLICATE")), record s { outside = w' }))
  unfolding insert_version require_tenant or_new_uuid or_now time_now new_version
  insert-taken id raw n s positive filled taken =
      let (made, w1) = services.new_uuid s.outside in
      let (at, w2) = services.now (services.new_uuid s.outside).1 in
      (w2, rw (named, positive, filled) (add_version-taken _ _ taken))

  get_row-found :
      (id : Text) (s : Store W) (doc : Document)
      → first_where (is_document t id) s.documents ≡ some doc
      → get_row services (some t) id s ≡ (ok doc, s)
  unfolding get_row require_tenant select_document found_or
  get_row-found id s doc e = rw (named, e) refl

  pub get_number-found :
      (id : Text) (n : ℤ) (s : Store W) (v : DocumentVersion)
      → first_where (is_numbered t id n) s.versions ≡ some v
      → get_version_by_number services (some t) id n s ≡ (ok v, s)
  unfolding get_version_by_number require_tenant select_version found_or
  get_number-found id n s v e = rw (named, e) refl

filled_uri :
    ⦃u : Unicode⦄
    → {W : Type 0}
    → (repo : KnowledgeRepo W) (uc : KnowledgeUsecase W) (ctx : Ctx) (current : DocumentVersion)
    → needs_reindex repo uc ctx current ≡ ok tt
    → null (trim current.raw_uri) ≡ false
unfolding needs_reindex
filled_uri repo uc ctx current =
    elim (Bool-cases (trim current.index_config_hash == trim uc.index_config_hash)) [
      | inl e ↦ rw (needs_reindex, e) (λ h. absurd (cc h))
      | inr e ↦ elim (Bool-cases (null (trim current.raw_uri))) [
        | inl f ↦ rw (needs_reindex, e, f) (λ h. absurd (cc h))
        | inr f ↦ λ h. f
      ]
    ]

next_pos : (v : ℤ) (n : ℕ) → v ≡ pos n → n + 1 < 0x80000000 → next_int32 v ≡ pos (n + 1)
unfolding next_int32
next_pos v n p h = rw p (below h)
  where
    below :
        n + 1 < 0x80000000
        → (if ltb (n + 1) 0x80000000 then pos (n + 1) else negsuc 0x7fffffff) ≡ pos (n + 1)
    below h = ground (arith, h)

has_positive :
    ⦃u : Unicode⦄
    → {W : Type 0}
    → (repo : KnowledgeRepo W) (uc : KnowledgeUsecase W) (ctx : Ctx) (doc : Document) (n : ℕ)
    → doc.current_version ≡ pos n
    → 1 ≤ n
    → has_version repo uc ctx doc ≡ ok tt
unfolding has_version
has_positive repo uc ctx doc n p h = rw p (ground (arith, h))

-- If the current version of a document has the positive number n, needs to be indexed again, and the
-- number behind n is taken by some version of the document already, as after an indexing that
-- failed or a rollback, then reindexing the document is refused as a duplicate, and the tables
-- stay as they are.
pub reindex_document-taken :
    ⦃u : Unicode⦄
    → {W : Type 0}
    → (services : Services W) (uc : KnowledgeUsecase (Store W)) (t id : Text) (s : Store W)
      (doc : Document) (current : DocumentVersion) (n : ℕ)
    → null t ≡ false
    → null (trim id) ≡ false
    → first_where (is_document t (trim id)) s.documents ≡ some doc
    → doc.current_version ≡ pos n
    → 1 ≤ n
    → n + 1 < 0x80000000
    → first_where (is_numbered t (trim id) doc.current_version) s.versions ≡ some current
    → needs_reindex (knowledge_repo services) uc (some t) current ≡ ok tt
    → number_taken (trim id) (pos (n + 1)) s.versions ≡ true
    → (w : W) × (reindex_document (knowledge_repo services) uc (some t) id s
        ≡ (err (conflict (codes "DOC_VERSION_DUPLICATE")), record s { outside = w }))
unfolding knowledge_repo
reindex_document-taken services uc t id s doc current n named id_ok found at low high numbered needs
      taken =
    let (w, refused) =
      insert-taken services uc t named (trim id) current.raw_uri (pos (n + 1)) s (ground arith)
        (filled_uri (knowledge_repo services) uc (some t) current needs) taken in
    (
      w,
      reindex-refused (knowledge_repo services) uc (some t) id s (record s { outside = w }) doc
          current _ id_ok (get_row-found services uc t named (trim id) s doc found)
          (has_positive (knowledge_repo services) uc (some t) doc n at low)
          (get_number-found services uc t named (trim id) doc.current_version s current numbered)
          needs (rw (next_pos doc.current_version n at high) refused),
    )
