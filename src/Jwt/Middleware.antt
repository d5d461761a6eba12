-- ===== src/Jwt/Middleware.antt =====
-- apps/server/internal/middleware/middleware.go: the requests that need a token.
use rago_desk.Base.{
  Bool, not, ◌&&◌, ◌||◌, Option, none, some, if◌then◌else◌, null, drop, Text, codes, trim, to_lower,
  has_prefix, contains_text, Unicode, Result, ok, err, Exec, raise, unauthorized, ℤ,
}
use rago_desk.Jwt.Tokens.{TokenCodec, Claims, parse_hs256}

pub record AuthConfig : Type 0 where
  pub jwt_secret : Text
  pub issuer : Text
  pub audience : Text

-- What a request's context holds: claims (kit/jwt) and a tenant (kit/tenant).
pub record RequestContext : Type 0 where
  pub claims : Option Claims
  pub tenant : Option Text

-- The operation of a request and its header `Authorization`, where there is a transport.
pub record Transport : Type 0 where
  pub operation : Text
  pub authorization : Text

unfoldable pub is_admin_operation : Text → Bool
is_admin_operation operation =
    let has = λ (name : Text). contains_text name operation in
    not (has (codes "ConsoleAuth") || has (codes "PlatformAuth"))
    && (has (codes "PlatformIAM")
        || has (codes "ConsoleIAM")
        || has (codes "ConsoleKnowledge")
        || has (codes "ConsoleBot")
        || has (codes "ConsoleConversation")
        || has (codes "ConsoleAPIMgmt")
        || has (codes "ConsoleAnalytics"))

-- The context with the claims and, where they name one, their tenant.
unfoldable pub with_claims : Claims → RequestContext → RequestContext
with_claims claims ctx = record {
  claims = some claims;
  tenant = if null claims.tenant_id then ctx.tenant else some claims.tenant_id;
}

module _ ⦃u : Unicode⦄ where
  unfoldable pub bearer_token : Text → Text
  bearer_token authorization =
      let header = trim authorization in
      if has_prefix (codes "bearer ") (to_lower header) then trim (drop 7 header) else header

module _ ⦃u : Unicode⦄ {W A : Type 0} (codec : TokenCodec) (now : W → ℤ × W)
    (next : RequestContext → Exec W A) where
  unfoldable pub enter : RequestContext → Result Claims → Exec W A
  enter ctx (err e) = raise (unauthorized (codes "ADMIN_UNAUTHORIZED"))
  enter ctx (ok claims) = next (with_claims claims ctx)

  unfoldable pub check_token : AuthConfig → RequestContext → Text → Exec W A
  check_token cfg ctx token w =
      let (time, w') = now w in
      if null token
      then (err (unauthorized (codes "ADMIN_UNAUTHORIZED")), w)
      else enter ctx (parse_hs256 codec token cfg.jwt_secret cfg.issuer cfg.audience time) w'

  unfoldable pub authorize : Option AuthConfig → RequestContext → Text → Exec W A
  authorize none ctx authorization = raise (unauthorized (codes "ADMIN_UNAUTHORIZED"))
  authorize (some cfg) ctx authorization =
      if null cfg.jwt_secret
      then raise (unauthorized (codes "ADMIN_UNAUTHORIZED"))
      else check_token cfg ctx (bearer_token authorization)

  unfoldable pub auth_middleware : Option AuthConfig → Option Transport → RequestContext → Exec W A
  auth_middleware cfg none ctx = next ctx
  auth_middleware cfg (some tr) ctx =
      if not (is_admin_operation tr.operation) then next ctx else authorize cfg ctx tr.authorization
