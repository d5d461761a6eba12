-- ===== src/Documents/Cleanups.antt =====
-- What the removal of an index leaves: apps/server/internal/knowledge/biz/knowledge.go over
-- apps/server/internal/knowledge/data/knowledge.go.
use rago_desk.Base.{
  ◌≡◌, refl, sym, ap, Bool, true, false, Option, some, List, [], ◌∷◌, null, any, Text, trim, ok,
  Exec, Unicode, Bool-cases, Option-cases, inl, inr, ℤ, pos, leℤ, ltℤ, if◌then◌else◌, ◌&&◌, ◌||◌,
  ◌==◌, text_eq, arith, codes,
}
use rago_desk.Ingestion.Queue.{IngestionJob}
use rago_desk.Documents.Types.{DocumentVersion, KnowledgeRepo, KnowledgeUsecase, Ctx, status_ready}
use rago_desk.Documents.Tables.{
  Store, Services, ChunkRow, first_where, update_all, delete_all, require_tenant, on_outside,
}
use rago_desk.Documents.Index.{delete_version_index, delete_vectors, drop_version}
use rago_desk.Documents.Ingestion.{clean_up}
use rago_desk.Documents.Uploads.{is_ready, rollback_document}

-- The chunk belongs to the tenant's version.
abbrev pub indexed : Text → Text → ChunkRow → Bool
indexed t version_id c = c.tenant_id == t && c.document_version_id == version_id

any-delete_all : (p : ChunkRow → Bool) (rows : List ChunkRow) → any p (delete_all p rows) ≡ false
unfolding delete_all
any-delete_all p [] = refl
any-delete_all p (r ∷ rows) = elim (Bool-cases (p r)) [
  | inl e ↦ rw e (any-delete_all p rows)
  | inr e ↦ rw (e, e) (any-delete_all p rows)
]

pub first_where-update :
    (p q : DocumentVersion → Bool) (f : DocumentVersion → DocumentVersion)
    (same : (v : DocumentVersion) → p (f v) ≡ p v) (rows : List DocumentVersion)
    (v : DocumentVersion)
    → first_where p rows ≡ some v
    → first_where p (update_all q f rows) ≡ some (if q v then f v else v)
unfolding first_where update_all
first_where-update p q f same [] v = λ h. absurd (cc h)
first_where-update p q f same (r ∷ rows) v = elim (Bool-cases (q r)) [
  | inl k ↦ elim (Bool-cases (p r)) [
    | inl e ↦ rw (k, same r, e) (λ h. ap some (changed r v k (some_inj h)))
    | inr e ↦ rw (k, same r, e) (first_where-update p q f same rows v)
  ]
  | inr k ↦ elim (Bool-cases (p r)) [
    | inl e ↦ rw (k, e) (λ h. ap some (unchanged r v k (some_inj h)))
    | inr e ↦ rw (k, e) (first_where-update p q f same rows v)
  ]
]
  where
    some_inj : {a b : DocumentVersion} → Option.some a ≡ some b → a ≡ b
    some_inj {a} {b} h = cc

    changed : (r v : DocumentVersion) → q r ≡ true → r ≡ v → f r ≡ (if q v then f v else v)
    changed r v k h = rw (sym h, k) refl

    unchanged : (r v : DocumentVersion) → q r ≡ false → r ≡ v → r ≡ (if q v then f v else v)
    unchanged r v k h = rw (sym h, k) refl

module _ {W : Type 0} (services : Services W) where
  delete_vectors-tables :
      (filter : List (Text × Text)) (s : Store W)
      → ((delete_vectors services filter s).1.chunks ≡ s.chunks)
        × ((delete_vectors services filter s).1.versions ≡ s.versions)
  unfolding delete_vectors on_outside
  delete_vectors-tables filter s = elim (Option-cases services.vector) [
    | inl e ↦ rw e (refl, refl)
    | inr (vector, e) ↦ rw e (ground arith)
  ]

  pub delete_version_index-tables :
      (t document_id version_id : Text) (s : Store W)
      → null t ≡ false
      → (null (trim document_id) || null (trim version_id)) ≡ false
      → (any
            (indexed t version_id)
            (delete_version_index services (some t) document_id version_id s).1.chunks
          ≡ false)
        × ((delete_version_index services (some t) document_id version_id s).1.versions
            ≡ s.versions)
  unfolding delete_version_index require_tenant drop_version
  delete_version_index-tables t document_id version_id s named filled =
      let kept =
        delete_vectors-tables
          ((codes "tenant_id", t) ∷ (codes "document_version_id", version_id) ∷ [])
          (drop_version services t version_id s) in
      rw (named, filled, kept.0, kept.1) (any-delete_all (indexed t version_id) s.chunks, refl)

pub positive_lt : (n : ℤ) → leℤ n (pos 0) ≡ false → ltℤ (pos 0) n ≡ true
positive_lt n h = ground (arith, h)

-- What `markIngestionReady` writes to a version's row.
abbrev pub ready_row : DocumentVersion → DocumentVersion
ready_row v = record v { status = status_ready; error_reason = [] }

pub still_ready :
    (b : Bool) (old : DocumentVersion)
    → old.status ≡ status_ready
    → ((if b then ready_row old else old).status ≡ status_ready)
      × ((if b then ready_row old else old).id ≡ old.id)
still_ready true old h = (refl, refl)
still_ready false old h = (h, refl)

module _ ⦃u : Unicode⦄ {W : Type 0} (repo : KnowledgeRepo W) (uc : KnowledgeUsecase W)
    (ctx : Ctx) where
  pub clean_up-ok :
      (job : IngestionJob) (lookup : Exec W DocumentVersion) (w w' : W) (old : DocumentVersion)
      → lookup w ≡ (ok old, w')
      → clean_up repo uc ctx job lookup w
        ≡ (repo.delete_document_version_index ctx job.document_id old.id w').1
  unfolding clean_up
  clean_up-ok job lookup w w' old p = rw (clean_up, p) (rw p refl)

  pub rollback-ok :
      (id : Text) (n : ℤ) (w w' : W) (v : DocumentVersion)
      → null (trim id) ≡ false
      → leℤ n (pos 0) ≡ false
      → repo.get_document_version_by_number ctx (trim id) n w ≡ (ok v, w')
      → v.status ≡ status_ready
      → rollback_document repo uc ctx id n w ≡ repo.rollback_document ctx (trim id) n w'
  unfolding rollback_document is_ready
  rollback-ok id n w w' v named positive p ready = rw (named, positive, p, ready) refl
