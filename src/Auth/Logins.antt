-- ===== src/Auth/Logins.antt =====
-- Who gets a session, and what a failed login tells.
use rago_desk.Base.{
  ◌≡◌, ap, inl, inr, true, false, ◌||◌, [], ◌∷◌, text_eq, null, Text, codes, trim, Unicode, Error,
  Result, ok, err, arith, Bool-cases, continue-ok,
}
use rago_desk.Auth.Types.{TenantAccount, PlatformAccount, AuthProfile, AuthSession, AuthUsecase}
use rago_desk.Auth.Sessions.{
  is_active_status, build_session, signed, found_account, found_admin, check_account, console_login,
  platform_login, enter_console, enter_platform, primary_account,
}

module _ ⦃u : Unicode⦄ {W : Type 0} (uc : AuthUsecase W) where
  -- The account is active and the password is that of its hash.
  pub record IsVerified (status password_hash password : Text) : Type 0 where
    pub active : is_active_status status ≡ true
    pub hashed : null password_hash ≡ false
    pub matches : uc.system.compare_password password_hash password ≡ true

  check_account-IsVerified :
      (status hash password : Text)
      → check_account uc status hash password ≡ ok tt
      → IsVerified status hash password
  unfolding check_account
  check_account-IsVerified status hash password h = record {
    active = ground arith;
    hashed = ground arith;
    matches = ground arith;
  }

  build_session-profile :
      (profile : AuthProfile) (w : W) (s : AuthSession)
      → (build_session uc profile w).0 ≡ ok s
      → s.profile ≡ profile
  unfolding build_session signed
  build_session-profile profile w s h = ground arith

  found_account-ok :
      (r : Result TenantAccount) (user : TenantAccount) → found_account uc r ≡ ok user → r ≡ ok user
  unfolding found_account
  found_account-ok (ok a) user h = h
  found_account-ok (err e) user h = ground arith

  found_admin-ok :
      (r : Result PlatformAccount) (user : PlatformAccount)
      → found_admin uc r ≡ ok user
      → r ≡ ok user
  unfolding found_admin
  found_admin-ok (ok a) user h = h
  found_admin-ok (err e) user h = cc

  -- What a session of the console proves: the account was found, is active, and the password is
  -- that of its hash; the session is its own.
  abbrev pub OwnSession : Result TenantAccount → Text → AuthSession → Type 0
  OwnSession found password s =
      (user : TenantAccount) × ((found ≡ ok user)
        × (IsVerified user.status user.password_hash password
            × ((s.profile.subject_id ≡ user.id) × (s.profile.tenant_id ≡ user.tenant_id))))

  abbrev pub AdminSession : Result PlatformAccount → Text → AuthSession → Type 0
  AdminSession found password s =
      (admin : PlatformAccount) × ((found ≡ ok admin)
        × (IsVerified admin.status admin.password_hash password
            × ((s.profile.subject_id ≡ admin.id)
                × ((s.profile.tenant_id ≡ []) × (s.profile.roles ≡ codes "platform_admin" ∷ [])))))

  enter_console-OwnSession :
      (account password tenant_id : Text) (w : W) (s : AuthSession)
      → (enter_console uc account password tenant_id w).0 ≡ ok s
      → OwnSession (uc.repo.find_tenant_account account tenant_id w).0 password s
  unfolding enter_console
  enter_console-OwnSession account password tenant_id w s h =
      let (user, (f, checked)) = continue-ok _ _ _ _ h in
      let (_, (c, listed)) = continue-ok _ _ _ _ checked in
      let w' = (uc.repo.find_tenant_account account tenant_id w).1 in
      let (answer, w'') = uc.repo.list_user_roles user.id w' in
      let (roles, (_, b)) =
        continue-ok answer
          (λ roles. build_session uc record {
            subject_id = user.id;
            tenant_id = user.tenant_id;
            account = primary_account user.email user.phone;
            name = user.name;
            roles = roles;
          })
          w'' s listed in
      let mine = build_session-profile _ _ _ b in
      (
        user,
        (
          found_account-ok _ _ f,
          (
            check_account-IsVerified _ _ _ c,
            (ap (λ p. p.subject_id) mine, ap (λ p. p.tenant_id) mine),
          ),
        ),
      )

  enter_platform-AdminSession :
      (account password : Text) (w : W) (s : AuthSession)
      → (enter_platform uc account password w).0 ≡ ok s
      → AdminSession (uc.repo.find_platform_account account w).0 password s
  unfolding enter_platform
  enter_platform-AdminSession account password w s h =
      let (admin, (f, checked)) = continue-ok _ _ _ _ h in
      let (_, (c, b)) = continue-ok _ _ _ _ checked in
      let mine = build_session-profile _ _ _ b in
      (
        admin,
        (
          found_admin-ok _ _ f,
          (
            check_account-IsVerified _ _ _ c,
            (ap (λ p. p.subject_id) mine, (ap (λ p. p.tenant_id) mine, ap (λ p. p.roles) mine)),
          ),
        ),
      )

  -- The session of a login at the console is that of the account that the repository finds by the
  -- trimmed name; the account is active, and the trimmed password is that of its hash.
  pub console_login-OwnSession :
      (account password tenant_id : Text) (w : W) (s : AuthSession)
      → (console_login uc account password tenant_id w).0 ≡ ok s
      → OwnSession
          (uc.repo.find_tenant_account (trim account) (trim tenant_id) w).0
          (trim password)
          s
  unfolding console_login
  console_login-OwnSession account password tenant_id w s h =
      elim (Bool-cases (null (trim account) || null (trim password))) [
        | inl e ↦ ground (arith, e, h)
        | inr e ↦
            enter_console-OwnSession (trim account) (trim password) (trim tenant_id) w s
              (ground (arith, e, h))
      ]

  -- The session of a login at the platform is that of the admin that the repository finds by the
  -- trimmed name, with no tenant and the role of a platform's admin; the admin is active, and the
  -- trimmed password is that of the hash.
  pub platform_login-AdminSession :
      (account password : Text) (w : W) (s : AuthSession)
      → (platform_login uc account password w).0 ≡ ok s
      → AdminSession (uc.repo.find_platform_account (trim account) w).0 (trim password) s
  unfolding platform_login
  platform_login-AdminSession account password w s h =
      elim (Bool-cases (null (trim account) || null (trim password))) [
        | inl e ↦ ground (arith, e, h)
        | inr e ↦
            enter_platform-AdminSession (trim account) (trim password) w s (ground (arith, e, h))
      ]

  -- A login at the platform by a name that is not known and one with the wrong password of an
  -- active account, both with fields that are not blank, are answered alike.
  pub platform_login-alike :
      (account password other wrong : Text) (w w' : W) (e : Error) (admin : PlatformAccount)
      → (null (trim account) || null (trim password)) ≡ false
      → (null (trim other) || null (trim wrong)) ≡ false
      → (uc.repo.find_platform_account (trim account) w).0 ≡ err e
      → (uc.repo.find_platform_account (trim other) w').0 ≡ ok admin
      → is_active_status admin.status ≡ true
      → uc.system.compare_password admin.password_hash (trim wrong) ≡ false
      → (platform_login uc account password w).0 ≡ (platform_login uc other wrong w').0
  unfolding platform_login enter_platform found_admin check_account
  platform_login-alike account password other wrong w w' e admin full full' unknown known active
        differs =
      ground arith
