-- ===== src/ApiMgmt/Examples.antt =====
-- The theorems on API keys at concrete tables.
use rago_desk.Base.{
  ℕ, suc, ◌+◌, ◌*◌, ◌/◌, ◌≡◌, refl, Bool, true, false, Option, none, some, List, [], ◌∷◌, ltb,
  if◌then◌else◌, Text, codes, ascii, Error, ok, err, Exec, pure, raise, ℤ, pos, ◌↔◌, null, trim,
  unauthorized,
}
use rago_desk.ApiMgmt.Types.{ApiKey, ApiMgmtUsecase, System, status_active}
use rago_desk.ApiMgmt.Normalize.{clean, normalize_scopes, scope_allowed}
use rago_desk.ApiMgmt.Keys.{create_api_key, regenerate_attempts, update_fields}
use rago_desk.ApiMgmt.Access.{
  check_limit, authorize_api_key_with_scope, authorize_public_chat_id_with_scope,
}
use rago_desk.ApiMgmt.Table.{
  KeyRow, Db, plain_error, table_repo, select_by_hash, find_row, is_row, hash_columns,
}
use rago_desk.ApiMgmt.Rotation.{in_grace, rotated_db, carries, select_by_hash-rotate}
use rago_desk.ApiMgmt.Isolation.{rotate, run, seen, others, run-others}
use rago_desk.ApiMgmt.Grants.{Granted, looked_up, chat_found, authorize_iff, authorize_chat_iff}
use rago_desk.ApiMgmt.Scopes.{scope_allowed-normalize, update_fields-blank_scopes}
use rago_desk.ApiMgmt.Creation.{
  SystemKeeps, AllScoped, insert_key-AllScoped, create_api_key-keeps, regenerate_attempts-once,
}

abbrev front_key : ApiKey
front_key = record {
  id = codes "k1";
  tenant_id = codes "t1";
  bot_id = codes "b1";
  name = codes "front";
  key_hash = codes "h1";
  public_chat_id = codes "chat_1";
  public_chat_enabled = true;
  api_versions = codes "v1" ∷ [];
  scopes = codes "rag" ∷ [];
  status = status_active;
  rotated_from = [];
  quota_daily = pos 0;
  qps_limit = pos 5;
  created_at = 1;
  last_used_at = 1;
}

abbrev front_row : KeyRow
front_row = record { key = front_key; prev_key_hash = none; prev_expires_at = none }

-- Times are nanoseconds.
abbrev nearest_second : ℕ → ℕ
nearest_second t = (t + 500000000) / 1000000000 * 1000000000

abbrev table : Db
table = record { rows = front_row ∷ []; now = 100; datetime = nearest_second }

-- A table that two tenants share.
abbrev back_row : KeyRow
back_row = record front_row {
  key = record front_key {
    id = codes "k2";
    tenant_id = codes "t2";
    key_hash = codes "h9";
    public_chat_id = codes "chat_2";
  };
}

abbrev shared : Db
shared = record table { rows = front_row ∷ back_row ∷ [] }

-- A clock that runs with every call, and keys made of it.
abbrev tick : Db → Db
tick db = record db { now = suc db.now }

abbrev machine : System Db
machine = record {
  now = λ db. (db.now, tick db);
  random_base64 = λ n db. (some (n ∷ db.now ∷ []), tick db);
  new_uuid = λ db. (db.now ∷ [], tick db);
  sha256_hex = λ s. s;
}

abbrev usecase : Option (ApiKey → Exec Db (Unit {0})) → ApiMgmtUsecase Db
usecase limiter = record {
  repo = table_repo (λ l. pure tt) (λ f. pure []) (some (codes "t1"));
  system = machine;
  limiter = limiter;
  sink = none;
  rotation_grace = 60;
}

abbrev busy : Error
busy = record { code = 429; reason = codes "RATE_LIMITED" }

-- The end of the grace is kept as 160 seconds.
select_by_hash-rotate_example :
    ((select_by_hash
        (codes "h1")
        (rotated_db (codes "t1") (codes "k1") (codes "h2") 160400000000 160300000000 table)).0
      ≡ (if in_grace nearest_second 160400000000 160300000000
          then ok
              (hash_columns (record front_key { key_hash = codes "h2"; status = status_active }))
          else err plain_error))
    × ((select_by_hash
          (codes "h2")
          (rotated_db (codes "t1") (codes "k1") (codes "h2") 160400000000 160300000000 table)).0
        ≡ ok (hash_columns (record front_key { key_hash = codes "h2"; status = status_active })))
unfolding find_row is_row carries
select_by_hash-rotate_example =
    select_by_hash-rotate (codes "t1") (codes "k1") (codes "h2") 160400000000 160300000000 table
      front_row refl refl (refl, tt) (refl, tt)

expired_early : in_grace nearest_second 160400000000 160300000000 ≡ false
expired_early = refl

-- The second row is the other tenant's.
run-others_example :
    (others (codes "t1") (
        seen
          (rotate (codes "k1") (codes "h3") 50)
          (run (some (codes "t1")) (rotate (codes "k1") (codes "h3") 50) shared).rows)
      ≡ others (codes "t1") (seen (rotate (codes "k1") (codes "h3") 50) shared.rows))
    × (seen
          (rotate (codes "k1") (codes "h3") 50)
          (run none (rotate (codes "k1") (codes "h3") 50) shared).rows
        ≡ seen (rotate (codes "k1") (codes "h3") 50) shared.rows)
run-others_example = run-others (codes "t1") (rotate (codes "k1") (codes "h3") 50) shared

authorize_iff_example :
    ((authorize_api_key_with_scope ⦃u = ascii⦄
        (usecase none)
        (codes " h1 ")
        (codes "rag")
        (codes "v1")
        table).0
      ≡ ok (hash_columns front_key))
    ↔ ((null (trim (codes " h1 ")) ≡ false)
        × ((looked_up ⦃u = ascii⦄ (usecase none) table (codes " h1 ")).0
            ≡ ok (hash_columns front_key))
        × Granted ⦃u = ascii⦄
            (usecase none)
            table
            (hash_columns front_key)
            (codes "rag")
            (codes "v1")
        × ((check_limit
              (usecase none)
              (hash_columns front_key)
              (looked_up ⦃u = ascii⦄ (usecase none) table (codes " h1 ")).1).0
            ≡ ok tt))
authorize_iff_example =
    authorize_iff ⦃u = ascii⦄ (usecase none) table (codes " h1 ") (codes "rag") (codes "v1")
      (hash_columns front_key)

authorize_chat_iff_example :
    ((authorize_public_chat_id_with_scope ⦃u = ascii⦄
        (usecase none)
        (codes "chat_1")
        (codes "rag")
        []
        table).0
      ≡ ok front_key)
    ↔ ((null (trim (codes "chat_1")) ≡ false)
        × ((chat_found ⦃u = ascii⦄ (usecase none) table (codes "chat_1")).0 ≡ ok front_key)
        × (front_key.public_chat_enabled ≡ true)
        × Granted ⦃u = ascii⦄ (usecase none) table front_key (codes "rag") []
        × ((check_limit
              (usecase none)
              front_key
              (chat_found ⦃u = ascii⦄ (usecase none) table (codes "chat_1")).1).0
            ≡ ok tt))
authorize_chat_iff_example =
    authorize_chat_iff ⦃u = ascii⦄ (usecase none) table (codes "chat_1") (codes "rag") [] front_key

scope_allowed-normalize_example :
    scope_allowed ⦃u = ascii⦄ (normalize_scopes ⦃u = ascii⦄ (codes " RAG" ∷ [] ∷ [])) (codes "rag")
    ≡ scope_allowed ⦃u = ascii⦄ (codes " RAG" ∷ [] ∷ []) (codes "rag")
unfolding clean trim rago_desk.Base.Strings.to_lower normalize_scopes
    rago_desk.ApiMgmt.Normalize.scope_loop rago_desk.ApiMgmt.Normalize.contains
scope_allowed-normalize_example =
    scope_allowed-normalize ⦃u = ascii⦄ (codes " RAG" ∷ [] ∷ []) (codes "rag") refl refl

update_fields-blank_scopes_example :
    scope_allowed ⦃u = ascii⦄
      (update_fields ⦃u = ascii⦄ [] [] (codes " " ∷ []) [] none none none front_key).scopes
      (codes "conversation")
    ≡ true
unfolding clean trim rago_desk.Base.Strings.to_lower
update_fields-blank_scopes_example =
    update_fields-blank_scopes ⦃u = ascii⦄ [] [] (codes " " ∷ []) [] none none none front_key
      (codes "conversation") refl (refl, tt)

machine_keeps : SystemKeeps (usecase none) AllScoped
machine_keeps = record { now = λ w h. h; random = λ n w h. h; uuid = λ w h. h }

create_api_key-keeps_example :
    AllScoped
      (create_api_key ⦃u = ascii⦄
        (usecase none)
        (codes "back")
        (codes "b1")
        []
        []
        (pos 0)
        (pos 0)
        none
        table).1
create_api_key-keeps_example =
    create_api_key-keeps ⦃u = ascii⦄ (usecase none) AllScoped machine_keeps
      (insert_key-AllScoped (some (codes "t1"))) (codes "back") (codes "b1") [] [] (pos 0) (pos 0)
      none table (refl, tt)

regenerate_attempts-once_example :
    regenerate_attempts (usecase none) (codes "k1") 3 table
    ≡ regenerate_attempts (usecase none) (codes "k1") 1 table
regenerate_attempts-once_example =
    regenerate_attempts-once (usecase none) (some (codes "t1")) refl (codes "k1") 2 table
