-- ===== src/Jwt/Guard.antt =====
-- Which requests reach a handler: apps/server/internal/middleware/middleware.go.
use rago_desk.Base.{
  ◌≡◌, ◌⊎◌, refl, true, Option, none, some, null, Text, codes, Unicode, Result, ok, err, Exec,
  unauthorized, ℤ, Bool-cases, Result-cases, inl, inr,
}
use rago_desk.Jwt.Tokens.{TokenCodec, Claims, parse_hs256}
use rago_desk.Jwt.Middleware.{
  AuthConfig, RequestContext, Transport, is_admin_operation, with_claims, bearer_token, enter,
  check_token, authorize, auth_middleware,
}

module _ ⦃u : Unicode⦄ {W A : Type 0} (codec : TokenCodec) (now : W → ℤ × W)
    (next : RequestContext → Exec W A) where
  -- The request is refused, or it goes on with the claims of a token that was accepted at the time of the
  -- clock.
  abbrev pub Guarded : Option AuthConfig → RequestContext → Text → W → Result A × W → Type 0
  Guarded cfg ctx authorization w outcome =
      (outcome.0 ≡ err (unauthorized (codes "ADMIN_UNAUTHORIZED")))
      ⊎ ((c : AuthConfig) × (claims : Claims) × ((cfg ≡ some c)
            × (parse_hs256 codec (bearer_token authorization) c.jwt_secret c.issuer c.audience
                  (now w).0
                ≡ ok claims)
            × (outcome ≡ next (with_claims claims ctx) (now w).1)))

  check_token-Guarded :
      (cfg : AuthConfig) (ctx : RequestContext) (authorization : Text) (w : W)
      → Guarded
          (some cfg)
          ctx
          authorization
          w
          (check_token codec now next cfg ctx (bearer_token authorization) w)
  unfolding check_token enter
  check_token-Guarded cfg ctx authorization w =
      elim (Bool-cases (null (bearer_token authorization))) [
        | inl e ↦ inl (rw e refl)
        | inr e ↦
            elim (Result-cases (
              parse_hs256 codec (bearer_token authorization) cfg.jwt_secret cfg.issuer cfg.audience
                (now w).0)) [
                  | inl (claims, p) ↦ inr (cfg, claims, (refl, p, rw (e, p) refl))
                  | inr (x, p) ↦ inl (rw (e, p) refl)
                ]
      ]

  authorize-Guarded :
      (cfg : Option AuthConfig) (ctx : RequestContext) (authorization : Text) (w : W)
      → Guarded cfg ctx authorization w (authorize codec now next cfg ctx authorization w)
  unfolding authorize
  authorize-Guarded none ctx authorization w = inl refl
  authorize-Guarded (some cfg) ctx authorization w = elim (Bool-cases (null cfg.jwt_secret)) [
    | inl e ↦ inl (rw e refl)
    | inr e ↦ rw e (check_token-Guarded cfg ctx authorization w)
  ]

-- Every request for an operation of the console or the platform, sign-in apart, either is refused
-- as unauthorized or reaches the handler with the claims of its bearer token, which parsing accepts under
-- the configured secret, issuer and audience at the time of the clock, and with their tenant.
pub auth_middleware-Guarded :
    ⦃u : Unicode⦄
    → {W A : Type 0}
    → (codec : TokenCodec) (now : W → ℤ × W) (next : RequestContext → Exec W A)
      (cfg : Option AuthConfig) (tr : Transport) (ctx : RequestContext) (w : W)
    → is_admin_operation tr.operation ≡ true
    → Guarded codec now next cfg ctx tr.authorization w
        (auth_middleware codec now next cfg (some tr) ctx w)
unfolding auth_middleware
auth_middleware-Guarded codec now next cfg tr ctx w h =
    rw (auth_middleware, h) (authorize-Guarded codec now next cfg ctx tr.authorization w)
