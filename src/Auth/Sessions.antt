-- ===== src/Auth/Sessions.antt =====
-- The operations of `AuthUsecase`, of apps/server/internal/auth/biz/auth.go.
use rago_desk.Base.{
  ◌+◌, Bool, not, ◌&&◌, ◌||◌, Option, none, some, [], ◌∷◌, ◌==◌, text_eq, if◌then◌else◌, null, Text,
  codes, trim, to_lower, Unicode, Error, Result, ok, err, Exec, raise, ◌>>=◌, call, bad_request,
  unauthorized, forbidden, internal_server,
}
use rago_desk.Auth.Types.{
  Time, TenantAccount, PlatformAccount, AuthProfile, AuthSession, ConsoleRegisterInput, TokenClaims,
  AuthUsecase,
}

unfoldable pub primary_account : Text → Text → Text
primary_account email phone = if null (trim email) then phone else email

unfoldable pub is_active_status : ⦃u : Unicode⦄ → Text → Bool
is_active_status status = trim (to_lower status) == codes "active"

abbrev pub login_failed : Error
login_failed = unauthorized (codes "LOGIN_FAILED")

module _ {W : Type 0} (uc : AuthUsecase W) where
  unfoldable pub token_claims : AuthProfile → Time → TokenClaims
  token_claims profile now = record {
    tenant_id = profile.tenant_id;
    subject = profile.subject_id;
    issuer = uc.issuer;
    audience = uc.audience;
    expiry = uc.system.unix (now + uc.token_ttl);
    not_before = uc.system.unix now;
    issued_at = uc.system.unix now;
    roles = profile.roles;
  }

  unfoldable pub signed : AuthProfile → Time → Option Text → Result AuthSession
  signed profile now none = err (internal_server (codes "JWT_SIGN_FAILED"))
  signed profile now (some token) =
      ok (record { token = token; expires_at = now + uc.token_ttl; profile = profile })

  unfoldable pub build_session : AuthProfile → Exec W AuthSession
  build_session profile w =
      let (now, w') = uc.system.now w in
      if null (trim uc.secret)
      then (err (internal_server (codes "JWT_SECRET_MISSING")), w)
      else (signed profile now (uc.system.sign (token_claims profile now) uc.secret), w')

  -- `ACCOUNT_AMBIGUOUS` alone is told to the caller.
  unfoldable pub found_account : Result TenantAccount → Result TenantAccount
  found_account (ok user) = ok user
  found_account (err e) = if e.reason == codes "ACCOUNT_AMBIGUOUS" then err e else err login_failed

  unfoldable pub found_admin : Result PlatformAccount → Result PlatformAccount
  found_admin (ok user) = ok user
  found_admin (err e) = err login_failed

module _ ⦃u : Unicode⦄ {W : Type 0} (uc : AuthUsecase W) where
  -- The status and the password of an account.
  unfoldable pub check_account : Text → Text → Text → Result (Unit {0})
  check_account status password_hash password =
      if not (is_active_status status)
      then err (forbidden (codes "ACCOUNT_DISABLED"))
      else if null password_hash
      then err login_failed
      else if not (uc.system.compare_password password_hash password)
      then err login_failed
      else ok tt

  -- After the check for empty fields.
  unfoldable pub enter_console : Text → Text → Text → Exec W AuthSession
  enter_console account password tenant_id = do
    user ← λ w.
        let (found, w') = uc.repo.find_tenant_account account tenant_id w in
        (found_account uc found, w')
    _ ← λ w. (check_account user.status user.password_hash password, w)
    roles ← uc.repo.list_user_roles user.id
    build_session uc record {
      subject_id = user.id;
      tenant_id = user.tenant_id;
      account = primary_account user.email user.phone;
      name = user.name;
      roles = roles;
    }

  unfoldable pub console_login : Text → Text → Text → Exec W AuthSession
  console_login raw_account raw_password tenant_id =
      if null (trim raw_account) || null (trim raw_password)
      then raise (bad_request (codes "LOGIN_INVALID"))
      else enter_console (trim raw_account) (trim raw_password) (trim tenant_id)

  unfoldable pub enter_platform : Text → Text → Exec W AuthSession
  enter_platform account password = do
    admin ←
        λ w. let (found, w') = uc.repo.find_platform_account account w in (found_admin uc found, w')
    _ ← λ w. (check_account admin.status admin.password_hash password, w)
    build_session uc record {
      subject_id = admin.id;
      tenant_id = [];
      account = primary_account admin.email admin.phone;
      name = admin.name;
      roles = codes "platform_admin" ∷ [];
    }

  unfoldable pub platform_login : Text → Text → Exec W AuthSession
  platform_login raw_account raw_password =
      if null (trim raw_account) || null (trim raw_password)
      then raise (bad_request (codes "LOGIN_INVALID"))
      else enter_platform (trim raw_account) (trim raw_password)

  unfoldable pub tenant_type : Text → Text
  tenant_type raw = if null (trim raw) then codes "enterprise" else trim raw

  unfoldable pub hashed_password : Text → Exec W Text
  hashed_password password w =
      let (hash, w') = uc.system.hash_password password w in
      elim hash [
        | none ↦ (err (internal_server (codes "PASSWORD_HASH_FAILED")), w')
        | some h ↦ (ok h, w')
      ]

  unfoldable pub console_register : ConsoleRegisterInput → Exec W AuthSession
  console_register input =
      let tenant_name = trim input.tenant_name in
      let email = trim input.email in
      let phone = trim input.phone in
      let password = trim input.password in
      let kind = tenant_type input.tenant_type in
      if null tenant_name || null password || (null email && null phone)
      then raise (bad_request (codes "REGISTER_INVALID"))
      else if not (kind == codes "enterprise") && not (kind == codes "personal")
      then raise (bad_request (codes "TENANT_TYPE_INVALID"))
      else do
        password_hash ← hashed_password password
        now ← call uc.system.now
        tenant_id ← call uc.system.new_uuid
        admin_id ← call uc.system.new_uuid
        created ←
            uc.repo.create_tenant_with_admin
              (record {
                id = tenant_id;
                name = tenant_name;
                kind = kind;
                plan = codes "free";
                status = codes "active";
                created_at = now;
              })
              (record {
                id = admin_id;
                tenant_id = tenant_id;
                email = email;
                phone = phone;
                name = trim input.admin_name;
                status = codes "active";
                password_hash = password_hash;
              })
              (codes "tenant_admin")
        roles ← uc.repo.list_user_roles created.1.id
        build_session uc record {
          subject_id = created.1.id;
          tenant_id = created.0.id;
          account = primary_account created.1.email created.1.phone;
          name = created.1.name;
          roles = roles;
        }
