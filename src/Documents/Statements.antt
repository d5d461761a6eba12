-- ===== src/Documents/Statements.antt =====
-- The statements on documents and their versions of apps/server/internal/knowledge/data/knowledge.go.
use rago_desk.Base.{
  ℕ, Bool, not, ◌&&◌, ◌||◌, List, [], ◌∷◌, ◌++◌, ◌==◌, text_eq, nat_eq, if◌then◌else◌, null, any,
  Text, codes, trim, err, ok, Exec, raise, ◌>>=◌, ◌>>◌, not_found, conflict, bad_request, map, take,
  drop, ℤ, pos, leℤ, pos_part, neg_part,
}
use rago_desk.ApiMgmt.Table.{plain_error}
use rago_desk.Documents.Types.{
  Document, DocumentVersion, Ctx, Done, Time, status_uploaded, status_processing, status_ready,
}
use rago_desk.Documents.Tables.{
  Store, Services, first_where, all_where, update_all, newest_first, require_tenant, found_or,
  or_new_uuid, or_now, time_now, or_time,
}

-- tenant_id = ? AND id = ?
unfoldable pub is_document : Text → Text → Document → Bool
is_document tenant_id id d = d.tenant_id == tenant_id && d.id == id

unfoldable pub is_version : Text → Text → DocumentVersion → Bool
is_version tenant_id id v = v.tenant_id == tenant_id && v.id == id

unfoldable pub version_of : Text → Text → DocumentVersion → Bool
version_of tenant_id document_id v = v.tenant_id == tenant_id && v.document_id == document_id

abbrev pub eqℤ : ℤ → ℤ → Bool
eqℤ a b = pos_part a == pos_part b && neg_part a == neg_part b

-- tenant_id = ? AND document_id = ? AND version = ?
unfoldable pub is_numbered : Text → Text → ℤ → DocumentVersion → Bool
is_numbered tenant_id document_id version v =
    version_of tenant_id document_id v && eqℤ v.version version

-- PRIMARY KEY (id), UNIQUE KEY (document_id, version)
unfoldable pub version_collides : DocumentVersion → DocumentVersion → Bool
version_collides v row =
    row.id == v.id || (row.document_id == v.document_id && eqℤ row.version v.version)

-- `ORDER BY version DESC`
unfoldable pub place_version : DocumentVersion → List DocumentVersion → List DocumentVersion
place_version x [] = x ∷ []
place_version x (y ∷ ys) =
    let later = y ∷ place_version x ys in if leℤ y.version x.version then x ∷ y ∷ ys else later

unfoldable pub newest_versions : List DocumentVersion → List DocumentVersion
newest_versions [] = []
newest_versions (x ∷ xs) = place_version x (newest_versions xs)

-- The columns of the listing; the others are Go's zero values.
unfoldable pub listed_columns : DocumentVersion → DocumentVersion
listed_columns v = record v { raw_uri = []; error_reason = [] }

module _ {W : Type 0} where
  unfoldable pub add_document : Document → Exec (Store W) Document
  add_document doc s =
      if any (λ row. row.id == doc.id) s.documents
      then (err plain_error, s)
      else (ok doc, record s { documents = s.documents ++ doc ∷ [] })

  unfoldable pub select_document : Text → Text → Exec (Store W) Document
  select_document tenant_id id s =
      found_or (first_where (is_document tenant_id id) s.documents)
        (raise (not_found (codes "DOC_NOT_FOUND"))) s

  unfoldable pub change_documents : Text → Text → (Document → Document) → Exec (Store W) Done
  change_documents tenant_id id f s =
      (ok tt, record s { documents = update_all (is_document tenant_id id) f s.documents })

  -- `rows == 0`
  unfoldable pub move_document : Text → Text → Text → Time → Exec (Store W) Done
  move_document tenant_id id kb_id now s =
      if not (any (is_document tenant_id id) s.documents)
      then (err (not_found (codes "DOC_NOT_FOUND")), s)
      else change_documents tenant_id id (λ d. record d { kb_id = kb_id; updated_at = now }) s

  unfoldable pub add_version : DocumentVersion → Exec (Store W) DocumentVersion
  add_version v s =
      if any (version_collides v) s.versions
      then (err (conflict (codes "DOC_VERSION_DUPLICATE")), s)
      else (ok v, record s { versions = s.versions ++ v ∷ [] })

  unfoldable pub select_version : (DocumentVersion → Bool) → Exec (Store W) DocumentVersion
  select_version p s =
      found_or (first_where p s.versions) (raise (not_found (codes "DOC_VERSION_NOT_FOUND"))) s

module _ {W : Type 0} (services : Services W) (ctx : Ctx) where
  unfoldable pub insert_document : Document → Exec (Store W) Document
  insert_document doc = require_tenant ctx (λ tenant_id. or_new_uuid services doc.id >>= λ id.
      time_now services >>= λ now. add_document (record doc {
        id = id;
        tenant_id = tenant_id;
        status = if null doc.status then status_uploaded else doc.status;
        created_at = or_time doc.created_at now;
        updated_at = or_time doc.updated_at now;
      }))

  unfoldable pub get_row : Text → Exec (Store W) Document
  get_row id = require_tenant ctx (λ tenant_id. select_document tenant_id id)

  unfoldable pub page_rows : Text → ℕ → ℕ → Exec (Store W) (List Document)
  page_rows kb_id limit offset = require_tenant ctx (λ tenant_id s. (
    ok (
        take limit (
          drop offset (
            newest_first (λ d. d.created_at)
              (all_where (λ d. d.tenant_id == tenant_id && (null (trim kb_id) || d.kb_id == kb_id))
                s.documents)))),
    s,
  ))

  unfoldable pub update_kb : Text → Text → Exec (Store W) Document
  update_kb document_id kb_id = require_tenant ctx (λ tenant_id. time_now services >>= λ now.
      move_document tenant_id (trim document_id) (trim kb_id) now >> get_row document_id)

  unfoldable pub update_index_state : Text → Text → ℤ → Exec (Store W) Done
  update_index_state document_id status version = require_tenant ctx (λ tenant_id.
      time_now services >>= λ now.
      change_documents tenant_id document_id
        (λ d. record d { status = status; current_version = version; updated_at = now }))

  -- The columns of a new version; the URI is stored without the spaces around it.
  unfoldable pub insert_version : DocumentVersion → Exec (Store W) DocumentVersion
  insert_version v = require_tenant ctx (λ tenant_id. or_new_uuid services v.id >>= λ id.
      if leℤ v.version (pos 0)
      then raise (bad_request (codes "DOC_VERSION_INVALID"))
      else if null (trim v.raw_uri)
      then raise (bad_request (codes "DOC_RAW_URI_MISSING"))
      else (or_now services v.created_at >>= λ created. add_version (record v {
        id = id;
        tenant_id = tenant_id;
        raw_uri = trim v.raw_uri;
        index_config_hash = trim v.index_config_hash;
        status = if null v.status then status_processing else v.status;
        created_at = created;
      })))

  unfoldable pub get_version : Text → Exec (Store W) DocumentVersion
  get_version id = require_tenant ctx (λ tenant_id. select_version (is_version tenant_id id))

  unfoldable pub get_version_by_number : Text → ℤ → Exec (Store W) DocumentVersion
  get_version_by_number document_id version =
      require_tenant ctx (λ tenant_id. select_version (is_numbered tenant_id document_id version))

  unfoldable pub list_versions : Text → Exec (Store W) (List DocumentVersion)
  list_versions document_id = require_tenant ctx (λ tenant_id s. (
    ok (
        map listed_columns
          (newest_versions (all_where (version_of tenant_id document_id) s.versions))),
    s,
  ))

  unfoldable pub update_version_status : Text → Text → Text → Exec (Store W) Done
  update_version_status id status reason = require_tenant ctx (λ tenant_id s. (
    ok tt,
    record s {
      versions =
          update_all (is_version tenant_id id)
            (λ v. record v { status = status; error_reason = reason }) s.versions;
    },
  ))

  unfoldable pub roll_back : Text → ℤ → Exec (Store W) Done
  roll_back document_id version = require_tenant ctx (λ tenant_id. time_now services >>= λ now.
      change_documents tenant_id document_id
        (λ d. record d { current_version = version; status = status_ready; updated_at = now }))
