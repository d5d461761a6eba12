-- ===== src/ApiMgmt/Access.antt =====
-- How a request is let in by its API key or chat key, and how its use is recorded, of
-- apps/server/internal/apimgmt/biz/apimgmt.go.
use rago_desk.Base.{
  Bool, not, ◌&&◌, ◌||◌, none, some, List, ◌==◌, text_eq, if◌then◌else◌, null, Text, codes, trim,
  Unicode, Result, ok, err, Exec, pure, raise, ◌>>=◌, call, ignore, unauthorized, forbidden, ℤ, pos,
  leℤ,
}
use rago_desk.ApiMgmt.Types.{ApiKey, ApiMgmtUsecase, UsageLog, UsageFilter, Time, status_active}
use rago_desk.ApiMgmt.Normalize.{scope_allowed, version_allowed, normalize_usage_filter}

-- `key.Status != active || key.TenantID == "" || key.BotID == ""`
unfoldable pub is_unusable : ApiKey → Bool
is_unusable key = not (key.status == status_active) || null key.tenant_id || null key.bot_id

module _ {W : Type 0} (uc : ApiMgmtUsecase W) where
  -- `if uc.limiter != nil { … }`
  unfoldable pub check_limit : ApiKey → Exec W (Unit {0})
  check_limit key = elim uc.limiter [ none ↦ pure tt | some check ↦ check key ]

  unfoldable pub touch : ApiKey → Exec W (Unit {0})
  touch key = do now ← call uc.system.now; ignore (uc.repo.update_last_used_at key.id now)

-- Go returns a key beside the error; the handlers read it only where the error is nil.
module _ ⦃u : Unicode⦄ {W : Type 0} (uc : ApiMgmtUsecase W) where
  -- Scope, then version.
  unfoldable pub check_grant : ApiKey → Text → Text → Result ApiKey
  check_grant key required_scope required_version =
      if not (null required_scope) && not (scope_allowed key.scopes required_scope)
      then err (forbidden (codes "API_SCOPE_FORBIDDEN"))
      else if not (null required_version) && not (version_allowed key.api_versions required_version)
      then err (forbidden (codes "API_VERSION_FORBIDDEN"))
      else ok key

  -- A lookup whose every error becomes one reason, and the check of what it found.
  unfoldable pub usable : Text → Exec W ApiKey → Exec W ApiKey
  usable reason find w =
      let (found, w') = find w in
      elim found [
        | ok key ↦ (if is_unusable key then raise (unauthorized reason) else pure key) w'
        | err e ↦ raise (unauthorized reason) w'
      ]

  unfoldable pub resolve_api_key : Text → Exec W ApiKey
  resolve_api_key raw =
      let raw_key = trim raw in
      if null raw_key
      then raise (unauthorized (codes "API_KEY_MISSING"))
      else usable (codes "API_KEY_INVALID")
          (uc.repo.get_api_key_by_hash (uc.system.sha256_hex raw_key))

  unfoldable pub authorize_api_key : Text → Exec W ApiKey
  authorize_api_key raw = do
    key ← resolve_api_key raw
    _ ← check_limit uc key
    _ ← touch uc key
    pure key

  unfoldable pub authorize_api_key_with_scope : Text → Text → Text → Exec W ApiKey
  authorize_api_key_with_scope raw required_scope required_version = do
    key ← authorize_api_key raw
    λ w. (check_grant key required_scope required_version, w)

  unfoldable pub authorize_public_chat_id_with_scope : Text → Text → Text → Exec W ApiKey
  authorize_public_chat_id_with_scope raw required_scope required_version =
      let chat_id = trim raw in
      if null chat_id then raise (unauthorized (codes "CHAT_KEY_MISSING")) else do
        key ← usable (codes "CHAT_KEY_INVALID") (uc.repo.get_api_key_by_public_chat_id chat_id)
        if not key.public_chat_enabled then raise (forbidden (codes "CHAT_KEY_DISABLED")) else do
          _ ← check_limit uc key
          _ ← touch uc key
          λ w. (check_grant key required_scope required_version, w)

  unfoldable pub usage_log :
      ApiKey → Text → Text → Text → ℤ → ℤ → ℤ → ℤ → ℤ → Text → Text → Time → UsageLog
  usage_log key operation version model prompt completion total status latency ip agent now =
      record {
        id = codes "";
        api_key_id = key.id;
        tenant_id = key.tenant_id;
        bot_id = key.bot_id;
        path = trim operation;
        api_version = trim version;
        model = trim model;
        status_code = if leℤ status (pos 0) then pos 200 else status;
        latency_ms = latency;
        prompt_tokens = prompt;
        completion_tokens = completion;
        total_tokens = total;
        client_ip = trim ip;
        user_agent = trim agent;
        created_at = now;
      }

  -- Errors of the repository and of the sink are dropped. The counts and the latency are taken as
  -- the int32 values that they are cut to.
  unfoldable pub record_usage :
      ApiKey → Text → Text → Text → ℤ → ℤ → ℤ → ℤ → ℤ → Text → Text → Exec W (Unit {0})
  record_usage key operation version model prompt completion total status latency ip agent =
      if null key.id then pure tt else do
        now ← call uc.system.now
        let log =
            usage_log key operation version model prompt completion total status latency ip agent
              now
        _ ← ignore (uc.repo.create_usage_log log)
        elim uc.sink [ none ↦ pure tt | some capture ↦ ignore (capture log) ]

  unfoldable pub list_usage_logs : UsageFilter → Exec W (List UsageLog)
  list_usage_logs f = do
    now ← call uc.system.now
    uc.repo.list_usage_logs (normalize_usage_filter now f (pos 200) 604800000000000)
