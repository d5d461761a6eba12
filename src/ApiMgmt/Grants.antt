-- ===== src/ApiMgmt/Grants.antt =====
-- Who is let in by an API key, and by a chat key.
use rago_desk.Base.{
  ◌≡◌, ◌↔◌, true, false, ◌||◌, text_eq, null, Text, trim, Unicode, Error, Result, ok, err, arith,
}
use rago_desk.ApiMgmt.Types.{ApiKey, ApiMgmtUsecase, status_active}
use rago_desk.ApiMgmt.Normalize.{scope_allowed, version_allowed}
use rago_desk.ApiMgmt.Access.{
  is_unusable, check_limit, touch, check_grant, usable, resolve_api_key, authorize_api_key,
  authorize_api_key_with_scope, authorize_public_chat_id_with_scope,
}

module _ ⦃u : Unicode⦄ {W : Type 0} (uc : ApiMgmtUsecase W) (w : W) where
  -- A key that was found may be used for the scope and the version.
  pub record Granted (key : ApiKey) (scope version : Text) : Type 0 where
    pub active : key.status ≡ status_active
    pub has_tenant : null key.tenant_id ≡ false
    pub has_bot : null key.bot_id ≡ false
    pub scope_ok : (null scope || scope_allowed key.scopes scope) ≡ true
    pub version_ok : (null version || version_allowed key.api_versions version) ≡ true

  -- The answer of the lookup by the hash of the trimmed key, with the world behind it.
  abbrev pub looked_up : Text → Result ApiKey × W
  looked_up raw = uc.repo.get_api_key_by_hash (uc.system.sha256_hex (trim raw)) w

  -- A key is let in exactly if the trimmed text is not empty, the repository finds the key by its
  -- hash, the key is active, belongs to a tenant and a bot and grants the scope and the version, and
  -- the limiter lets it pass.
  pub authorize_iff :
      (raw scope version : Text) (key : ApiKey)
      → ((authorize_api_key_with_scope uc raw scope version w).0 ≡ ok key) ↔ (
          (null (trim raw) ≡ false)
          × ((looked_up raw).0 ≡ ok key)
          × Granted key scope version
          × ((check_limit uc key (looked_up raw).1).0 ≡ ok tt))
  unfolding authorize_api_key_with_scope authorize_api_key resolve_api_key usable check_grant touch
      is_unusable
  authorize_iff raw scope version key = (λ h. ground (arith), λ h. ground (arith))

  abbrev pub chat_found : Text → Result ApiKey × W
  chat_found raw = uc.repo.get_api_key_by_public_chat_id (trim raw) w

  -- A chat key is let in under the same conditions, and only if public chat is enabled for it.
  pub authorize_chat_iff :
      (raw scope version : Text) (key : ApiKey)
      → ((authorize_public_chat_id_with_scope uc raw scope version w).0 ≡ ok key) ↔ (
          (null (trim raw) ≡ false)
          × ((chat_found raw).0 ≡ ok key)
          × (key.public_chat_enabled ≡ true)
          × Granted key scope version
          × ((check_limit uc key (chat_found raw).1).0 ≡ ok tt))
  unfolding authorize_public_chat_id_with_scope usable check_grant touch is_unusable
  authorize_chat_iff raw scope version key = (λ h. ground (arith), λ h. ground (arith))

  -- A usable key that the limiter refuses is refused with the limiter's error, and nothing is written
  -- behind it.
  pub authorize_limited :
      (raw scope version : Text) (key : ApiKey) (e : Error)
      → null (trim raw) ≡ false
      → (looked_up raw).0 ≡ ok key
      → is_unusable key ≡ false
      → (check_limit uc key (looked_up raw).1).0 ≡ err e
      → authorize_api_key_with_scope uc raw scope version w
        ≡ (err e, (check_limit uc key (looked_up raw).1).1)
  unfolding authorize_api_key_with_scope authorize_api_key resolve_api_key usable
  authorize_limited raw scope version key e h found fine limited = ground arith
