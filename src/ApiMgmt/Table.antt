-- ===== src/ApiMgmt/Table.antt =====
-- The table `api_key` and the statements of apps/server/internal/apimgmt/data/apimgmt.go on it, for
-- a connection that works. The table's definition is in apps/server/internal/data/data.go.
-- Texts are compared exactly, and lists are kept as lists: their JSON is not modelled.
use rago_desk.Base.{
  Bool, false, not, ◌&&◌, ◌||◌, Option, none, some, List, [], ◌∷◌, ◌++◌, ltb, ◌==◌, nat_eq, text_eq,
  if◌then◌else◌, null, any, Text, codes, trim, Error, ok, err, Exec, raise, not_found, conflict,
  map,
}
use rago_desk.ApiMgmt.Types.{ApiKey, UsageLog, UsageFilter, ApiMgmtRepo, Time, status_active}

pub record KeyRow : Type 0 where
  pub key : ApiKey
  pub prev_key_hash : Option Text
  pub prev_expires_at : Option Time

-- The table, the time at which a statement runs, and what a column DATETIME, which has no fraction of
-- a second, keeps of a time.
pub record Db : Type 0 where
  pub rows : List KeyRow
  pub now : Time
  pub datetime : Time → Time

-- An error that is none of Kratos, as its `FromError` shows it.
abbrev pub plain_error : Error
plain_error = record { code = 500; reason = [] }

unfoldable pub find_row : (KeyRow → Bool) → List KeyRow → Option KeyRow
find_row p [] = none
find_row p (r ∷ rows) = if p r then some r else find_row p rows

unfoldable pub update_where : (KeyRow → Bool) → (KeyRow → KeyRow) → List KeyRow → List KeyRow
update_where p f = map (λ r. if p r then f r else r)

unfoldable pub delete_where : (KeyRow → Bool) → List KeyRow → List KeyRow
delete_where p [] = []
delete_where p (r ∷ rows) = let rest = delete_where p rows in if p r then rest else r ∷ rest

-- tenant_id = ? AND id = ?
unfoldable pub is_row : Text → Text → KeyRow → Bool
is_row tenant_id id r = r.key.tenant_id == tenant_id && r.key.id == id

-- key_hash = ? OR (prev_key_hash = ? AND prev_expires_at IS NOT NULL AND prev_expires_at > ?)
abbrev pub prev_matches : Text → Time → Option Text → Option Time → Bool
prev_matches hash now none expires = false
prev_matches hash now (some prev) none = false
prev_matches hash now (some prev) (some expires) = prev == hash && ltb now expires

unfoldable pub matches_hash : Text → Time → KeyRow → Bool
matches_hash hash now r =
    r.key.key_hash == hash || prev_matches hash now r.prev_key_hash r.prev_expires_at

-- Only these columns are read; the other fields of the key are Go's zero values.
unfoldable pub hash_columns : ApiKey → ApiKey
hash_columns k = record k {
  name = [];
  key_hash = [];
  rotated_from = [];
  created_at = 0;
  last_used_at = 0;
}

-- `LIMIT 1` takes the first row that fits.
unfoldable pub select_by_hash : Text → Exec Db ApiKey
select_by_hash hash db = elim (find_row (matches_hash hash db.now) db.rows) [
  | none ↦ (err plain_error, db)
  | some r ↦ (ok (hash_columns r.key), db)
]

unfoldable pub select_by_chat_id : Text → Exec Db ApiKey
select_by_chat_id chat_id db = elim (find_row (λ r. r.key.public_chat_id == trim chat_id) db.rows) [
  | none ↦ (err (not_found (codes "API_KEY_NOT_FOUND")), db)
  | some r ↦ (ok (record (r.key) { rotated_from = [] }), db)
]

-- tenant.RequireTenantID, for the tenant of the request's context.
unfoldable pub require_tenant : {A : Type 0} → Option Text → (Text → Exec Db A) → Exec Db A
require_tenant none k = raise plain_error
require_tenant (some t) k = if null t then raise plain_error else k t

unfoldable pub select_key : Text → Text → Exec Db ApiKey
select_key tenant_id id db = elim (find_row (is_row tenant_id id) db.rows) [
  | none ↦ (err (not_found (codes "API_KEY_NOT_FOUND")), db)
  | some r ↦ (ok (record (r.key) { rotated_from = [] }), db)
]

-- PRIMARY KEY (id), UNIQUE KEY (key_hash), UNIQUE KEY (public_chat_id)
unfoldable pub collides : ApiKey → KeyRow → Bool
collides k r =
    r.key.id == k.id || r.key.key_hash == k.key_hash || r.key.public_chat_id == k.public_chat_id

-- The key as it is stored for the tenant, and its row.
unfoldable pub stored_key : Text → Time → ApiKey → ApiKey
stored_key t now key = record key {
  tenant_id = t;
  created_at = if key.created_at == 0 then now else key.created_at;
}

unfoldable pub stored_row : (Time → Time) → Text → Time → ApiKey → KeyRow
stored_row datetime t now key = record {
  key = record (stored_key t now key) {
    rotated_from = [];
    created_at = datetime (stored_key t now key).created_at;
    last_used_at = if key.last_used_at == 0 then 0 else datetime key.last_used_at;
  };
  prev_key_hash = none;
  prev_expires_at = none;
}

unfoldable pub insert_key : Option Text → ApiKey → Exec Db ApiKey
insert_key tenant key = require_tenant tenant λ t db.
    if any (collides (stored_key t db.now key)) db.rows
    then (err (conflict (codes "DUPLICATE_KEY")), db)
    else (
      ok (stored_key t db.now key),
      record db { rows = db.rows ++ stored_row db.datetime t db.now key ∷ [] },
    )

unfoldable pub get_key : Option Text → Text → Exec Db ApiKey
get_key tenant id = require_tenant tenant λ t. select_key t id

-- The columns that `UpdateAPIKey` writes.
unfoldable pub write_key : ApiKey → KeyRow → KeyRow
write_key k r = record r {
  key = record (r.key) {
    name = k.name;
    status = k.status;
    public_chat_enabled = k.public_chat_enabled;
    scopes = k.scopes;
    api_versions = k.api_versions;
    quota_daily = k.quota_daily;
    qps_limit = k.qps_limit;
  };
}

unfoldable pub update_key : Option Text → ApiKey → Exec Db ApiKey
update_key tenant k = require_tenant tenant λ t db.
    select_key t k.id (record db { rows = update_where (is_row t k.id) (write_key k) db.rows })

-- Another row has the chat ID.
unfoldable pub chat_taken : Text → Text → Text → KeyRow → Bool
chat_taken tenant_id id chat r = r.key.public_chat_id == chat && not (is_row tenant_id id r)

-- MySQL reports the rows that an update changes, so a row that has the chat ID already counts as
-- missing. An error of the driver, a duplicate among them, is returned as it is.
unfoldable pub set_chat_id : Option Text → Text → Text → Exec Db ApiKey
set_chat_id tenant key_id raw_chat = require_tenant tenant λ t db.
    let chat = trim raw_chat in
    let id = trim key_id in
    let changed = record db {
      rows =
          update_where (is_row t id)
            (λ r. record r { key = record (r.key) { public_chat_id = chat } }) db.rows;
    } in
    if not (any (λ r. is_row t id r && not (r.key.public_chat_id == chat)) db.rows)
    then (err (not_found (codes "API_KEY_NOT_FOUND")), db)
    else if any (chat_taken t id chat) db.rows
    then (err plain_error, db)
    else select_key t key_id changed

unfoldable pub delete_key : Option Text → Text → Exec Db (Unit {0})
delete_key tenant id = require_tenant tenant λ t db.
    if any (is_row t id) db.rows
    then (ok tt, record db { rows = delete_where (is_row t id) db.rows })
    else (err (not_found (codes "API_KEY_NOT_FOUND")), db)

-- nullTime
unfoldable pub null_time : Time → Option Time
null_time t = if t == 0 then none else some t

-- What the column keeps: NULL as it is.
abbrev pub kept_time : (Time → Time) → Option Time → Option Time
kept_time datetime none = none
kept_time datetime (some t) = some (datetime t)

unfoldable pub rotate_row : (Time → Time) → Text → Time → KeyRow → KeyRow
rotate_row datetime hash grace_until r = record {
  key = record (r.key) { key_hash = hash; status = status_active };
  prev_key_hash = some r.key.key_hash;
  prev_expires_at = kept_time datetime (null_time grace_until);
}

unfoldable pub hash_taken : Text → Text → Text → KeyRow → Bool
hash_taken tenant_id id hash r = r.key.key_hash == hash && not (is_row tenant_id id r)

-- The transaction of `RotateKey`: on an error it is rolled back.
unfoldable pub rotate_key : Option Text → Text → Text → Time → Exec Db ApiKey
rotate_key tenant id hash grace_until = require_tenant tenant λ t db.
    let changed = record db {
      rows = update_where (is_row t id) (rotate_row db.datetime hash grace_until) db.rows;
    } in
    if not (any (is_row t id) db.rows)
    then (err plain_error, db)
    else if any (hash_taken t id hash) db.rows
    then (err plain_error, db)
    else select_key t id changed

unfoldable pub set_last_used : Text → Time → Exec Db (Unit {0})
set_last_used id at db =
    let changed =
      update_where (λ r. r.key.id == id)
        (λ r. record r { key = record (r.key) { last_used_at = db.datetime at } }) db.rows in
    (ok tt, if null id then db else record db { rows = changed })

-- The table as the repository of one request, whose context has the tenant or none. The statements
-- on the table of usage logs are taken as they are given.
abbrev pub table_repo :
    (UsageLog → Exec Db (Unit {0}))
    → (UsageFilter → Exec Db (List UsageLog))
    → Option Text
    → ApiMgmtRepo Db
table_repo log_usage list_usage tenant = record {
  create_api_key = insert_key tenant;
  get_api_key = get_key tenant;
  get_api_key_by_public_chat_id = select_by_chat_id;
  update_api_key = update_key tenant;
  regenerate_public_chat_id = set_chat_id tenant;
  delete_api_key = delete_key tenant;
  rotate_key = rotate_key tenant;
  update_last_used_at = set_last_used;
  create_usage_log = log_usage;
  get_api_key_by_hash = select_by_hash;
  list_usage_logs = list_usage;
}
