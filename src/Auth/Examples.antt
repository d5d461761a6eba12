-- ===== src/Auth/Examples.antt =====
-- The theorems on logins at concrete accounts.
use rago_desk.Base.{
  ◌≡◌, refl, ascii, some, [], ◌∷◌, codes, trim, to_lower, text_beq, err, ok, pure, not_found, pos,
  Bool,
}
use rago_desk.Auth.Types.{PlatformAccount, TenantAccount, AuthUsecase, AuthSession}
use rago_desk.Auth.Sessions.{
  build_session, signed, enter_console, enter_platform, found_account, found_admin, check_account,
  console_login, platform_login, is_active_status, primary_account,
}
use rago_desk.Auth.Logins.{
  OwnSession, AdminSession, console_login-OwnSession, platform_login-AdminSession,
  platform_login-alike,
}

abbrev anna : TenantAccount
anna = record {
  id = codes "u1";
  tenant_id = codes "t1";
  email = codes "a@b";
  phone = [];
  name = codes "Anna";
  status = codes "Active";
  password_hash = codes "pw";
}

abbrev root : PlatformAccount
root = record {
  id = codes "p1";
  email = codes "r@b";
  phone = [];
  name = codes "Root";
  status = codes "active";
  password_hash = codes "pw";
}

abbrev usecase : AuthUsecase (Unit {0})
usecase = record {
  repo = record {
    find_tenant_account = λ a t. pure anna;
    find_platform_account = λ a w. elim (text_beq a (codes "root")) [
      | Bool.true ↦ (ok root, w)
      | Bool.false ↦ (err (not_found []), w)
    ];
    list_user_roles = λ id. pure [];
    create_tenant_with_admin = λ t a r. pure (t, a);
  };
  system = record {
    compare_password = text_beq;
    hash_password = λ p w. (some p, w);
    new_uuid = λ w. (codes "id", w);
    now = λ w. (5, w);
    sign = λ c s. some s;
    unix = λ t. pos t;
  };
  secret = codes "s";
  issuer = [];
  audience = [];
  token_ttl = 10;
}

abbrev anna_session : AuthSession
anna_session = record {
  token = codes "s";
  expires_at = 15;
  profile = record {
    subject_id = codes "u1";
    tenant_id = codes "t1";
    account = codes "a@b";
    name = codes "Anna";
    roles = [];
  };
}

abbrev root_session : AuthSession
root_session = record {
  token = codes "s";
  expires_at = 15;
  profile = record {
    subject_id = codes "p1";
    tenant_id = [];
    account = codes "r@b";
    name = codes "Root";
    roles = codes "platform_admin" ∷ [];
  };
}

console_login-OwnSession_example :
    OwnSession ⦃u = ascii⦄ usecase
      (usecase.repo.find_tenant_account (trim (codes "a@b")) (trim []) tt).0
      (trim (codes " pw"))
      anna_session
unfolding console_login enter_console build_session signed found_account check_account trim to_lower
    is_active_status primary_account
console_login-OwnSession_example =
    console_login-OwnSession ⦃u = ascii⦄ usecase (codes "a@b") (codes " pw") [] tt anna_session refl

platform_login-AdminSession_example :
    AdminSession ⦃u = ascii⦄ usecase
      (usecase.repo.find_platform_account (trim (codes "root")) tt).0
      (trim (codes "pw"))
      root_session
unfolding platform_login enter_platform build_session signed found_admin check_account trim to_lower
    is_active_status primary_account
platform_login-AdminSession_example =
    platform_login-AdminSession ⦃u = ascii⦄ usecase (codes "root") (codes "pw") tt root_session refl

platform_login-alike_example :
    (platform_login ⦃u = ascii⦄ usecase (codes "nobody") (codes "pw") tt).0
    ≡ (platform_login ⦃u = ascii⦄ usecase (codes "root") (codes "no") tt).0
unfolding trim to_lower is_active_status
platform_login-alike_example =
    platform_login-alike ⦃u = ascii⦄ usecase (codes "nobody") (codes "pw") (codes "root")
      (codes "no") tt tt (not_found []) root refl refl refl refl refl refl
