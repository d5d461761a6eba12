-- ===== src/ApiMgmt/Keys.antt =====
-- The console's operations on API keys, of apps/server/internal/apimgmt/biz/apimgmt.go.
use rago_desk.Base.{
  ℕ, zero, suc, ◌+◌, Bool, true, false, ◌&&◌, Option, none, some, List, [], ◌∷◌, ◌++◌, ◌==◌, nat_eq,
  if◌then◌else◌, null, Text, codes, trim, Unicode, Result, ok, err, Exec, pure, raise, ◌>>=◌, call,
  bad_request, internal_server, ℤ, pos, ltℤ,
}
use rago_desk.ApiMgmt.Types.{ApiKey, ApiMgmtUsecase, System, status_active}
use rago_desk.ApiMgmt.Normalize.{
  normalize_scopes, normalize_versions, normalize_status, is_duplicate_key_error,
}

abbrev pub default_scopes : List Text
default_scopes = codes "rag" ∷ codes "conversation" ∷ []

abbrev pub default_versions : List Text
default_versions = codes "v1" ∷ []

-- `if quota < 0 { quota = 0 }`
abbrev pub floor_zero : ℤ → ℤ
floor_zero n = if ltℤ n (pos 0) then pos 0 else n

abbrev pub or_default : Bool → Option Bool → Bool
or_default d none = d
or_default d (some b) = b

abbrev pub or_else : List Text → List Text → List Text
or_else [] d = d
or_else (x ∷ xs) d = x ∷ xs

-- strings.ReplaceAll(id, "-", "")
abbrev pub remove_dashes : Text → Text
remove_dashes [] = []
remove_dashes (c ∷ s) = if c == b'-' then remove_dashes s else c ∷ remove_dashes s

module _ {W : Type 0} (sys : System W) where
  -- The raw key and its hash; on a failing source of randomness the key is empty.
  unfoldable pub generate_api_key : W → (Text × Text) × W
  generate_api_key w =
      let (bytes, w') = sys.random_base64 32 w in
      let (id, w'') = sys.new_uuid w' in
      elim bytes [
        | none ↦ (([], sys.sha256_hex id), w'')
        | some raw ↦ ((raw, sys.sha256_hex raw), w')
      ]

  unfoldable pub generate_public_chat_id : W → Text × W
  generate_public_chat_id w =
      let (bytes, w') = sys.random_base64 24 w in
      let (id, w'') = sys.new_uuid w' in
      elim bytes [
        | none ↦ (codes "chat_" ++ remove_dashes id, w'')
        | some raw ↦ (codes "chat_" ++ raw, w')
      ]

-- What a loop makes of its write: the next attempt follows an error that says duplicate.
unfoldable pub settle : {W A B : Type 0} → (A → B) → Exec W B → Result A × W → Result B × W
settle f again (ok a, w) = (ok (f a), w)
settle f again (err e, w) = if is_duplicate_key_error e then again w else (err e, w)

module _ {W : Type 0} (uc : ApiMgmtUsecase W) where
  -- The key of one attempt: a fresh ID, hash and chat ID for the fields that the caller fixed.
  unfoldable pub fresh_key : ApiKey → Exec W (ApiKey × Text)
  fresh_key wanted = do
    (raw, hash) ← call (generate_api_key uc.system)
    now ← call uc.system.now
    id ← call uc.system.new_uuid
    chat ← call (generate_public_chat_id uc.system)
    pure (record wanted { id = id; key_hash = hash; public_chat_id = chat; created_at = now }, raw)

  -- The `for` loop of `CreateAPIKey`, over the attempts left.
  unfoldable pub create_attempts : ApiKey → ℕ → Exec W (ApiKey × Text)
  create_attempts wanted zero = raise (internal_server (codes "API_KEY_GENERATE_FAILED"))
  create_attempts wanted (suc left) = do
    (key, raw) ← fresh_key wanted
    let again = create_attempts wanted left
    λ w. settle (λ k. (k, raw)) again (uc.repo.create_api_key key w)

module _ {W : Type 0} (uc : ApiMgmtUsecase W) where
  -- The `for` loop of `RegeneratePublicChatID`.
  unfoldable pub regenerate_attempts : Text → ℕ → Exec W ApiKey
  regenerate_attempts key_id zero = raise (internal_server (codes "PUBLIC_CHAT_ID_GENERATE_FAILED"))
  regenerate_attempts key_id (suc left) = do
    chat ← call (generate_public_chat_id uc.system)
    let again = regenerate_attempts key_id left
    λ w. settle (λ k. k) again (uc.repo.regenerate_public_chat_id key_id chat w)

abbrev pub is_nil {ℓ} : {A : Type ℓ} → Option A → Bool
is_nil none = true
is_nil (some a) = false

module _ ⦃u : Unicode⦄ where
  -- What `CreateAPIKey` fixes before its loop.
  unfoldable pub wanted_key : Text → Text → List Text → List Text → ℤ → ℤ → Option Bool → ApiKey
  wanted_key name bot_id scopes versions quota_daily qps_limit enabled = record {
    id = [];
    tenant_id = [];
    bot_id = bot_id;
    name = name;
    key_hash = [];
    public_chat_id = [];
    public_chat_enabled = or_default true enabled;
    api_versions = or_else (normalize_versions versions) default_versions;
    scopes = or_else (normalize_scopes scopes) default_scopes;
    status = status_active;
    rotated_from = [];
    quota_daily = floor_zero quota_daily;
    qps_limit = floor_zero qps_limit;
    created_at = 0;
    last_used_at = 0;
  }

  -- What `UpdateAPIKey` changes in the stored key.
  unfoldable pub update_fields :
      Text → Text → List Text → List Text → Option ℤ → Option ℤ → Option Bool → ApiKey → ApiKey
  update_fields name status scopes versions quota_daily qps_limit enabled current = record current {
    name = if null (trim name) then current.name else trim name;
    status = if null (trim status) then current.status else normalize_status status;
    scopes = if null scopes then current.scopes else normalize_scopes scopes;
    api_versions = if null versions then current.api_versions else normalize_versions versions;
    quota_daily = elim quota_daily [ none ↦ current.quota_daily | some n ↦ floor_zero n ];
    qps_limit = elim qps_limit [ none ↦ current.qps_limit | some n ↦ floor_zero n ];
    public_chat_enabled = or_default current.public_chat_enabled enabled;
  }

module _ ⦃u : Unicode⦄ {W : Type 0} (uc : ApiMgmtUsecase W) where
  unfoldable pub create_api_key :
      Text → Text → List Text → List Text → ℤ → ℤ → Option Bool → Exec W (ApiKey × Text)
  create_api_key raw_name raw_bot scopes versions quota_daily qps_limit enabled =
      let name = trim raw_name in
      let bot_id = trim raw_bot in
      if null name
      then raise (bad_request (codes "API_KEY_NAME_MISSING"))
      else if null bot_id
      then raise (bad_request (codes "BOT_ID_MISSING"))
      else create_attempts uc (wanted_key name bot_id scopes versions quota_daily qps_limit enabled)
          3

  unfoldable pub get_api_key : Text → Exec W ApiKey
  get_api_key raw_id =
      if null (trim raw_id)
      then raise (bad_request (codes "API_KEY_ID_MISSING"))
      else uc.repo.get_api_key (trim raw_id)

  unfoldable pub update_api_key :
      Text → Text → Text → List Text → List Text → Option ℤ → Option ℤ → Option Bool → Exec W ApiKey
  update_api_key raw_id name status scopes versions quota_daily qps_limit enabled =
      let key_id = trim raw_id in
      let empty =
        null (trim name)
        && null (trim status)
        && null scopes
        && null versions
        && is_nil quota_daily
        && is_nil qps_limit
        && is_nil enabled in
      let change = update_fields name status scopes versions quota_daily qps_limit enabled in
      if null key_id
      then raise (bad_request (codes "API_KEY_ID_MISSING"))
      else if empty
      then raise (bad_request (codes "API_KEY_UPDATE_EMPTY"))
      else do current ← uc.repo.get_api_key key_id; uc.repo.update_api_key (change current)

  unfoldable pub delete_api_key : Text → Exec W (Unit {0})
  delete_api_key raw_id =
      if null (trim raw_id)
      then raise (bad_request (codes "API_KEY_ID_MISSING"))
      else uc.repo.delete_api_key (trim raw_id)

  unfoldable pub rotate_api_key : Text → Exec W (ApiKey × Text)
  rotate_api_key raw_id =
      if null (trim raw_id) then raise (bad_request (codes "API_KEY_ID_MISSING")) else do
        (raw, hash) ← call (generate_api_key uc.system)
        now ← call uc.system.now
        updated ← uc.repo.rotate_key (trim raw_id) hash (now + uc.rotation_grace)
        pure (updated, raw)

  unfoldable pub regenerate_public_chat_id : Text → Exec W ApiKey
  regenerate_public_chat_id raw_id =
      if null (trim raw_id)
      then raise (bad_request (codes "API_KEY_ID_MISSING"))
      else regenerate_attempts uc (trim raw_id) 3
