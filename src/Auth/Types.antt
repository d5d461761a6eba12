-- ===== src/Auth/Types.antt =====
-- The data of apps/server/internal/auth/biz/auth.go and the interfaces that its use cases are given.
use rago_desk.Base.{ℕ, Bool, Option, List, text_eq, Text, Exec, ℤ}

abbrev pub Time : Type 0
Time = ℕ

pub record Tenant : Type 0 where
  pub id : Text
  pub name : Text
  pub kind : Text
  pub plan : Text
  pub status : Text
  pub created_at : Time

pub record TenantAccount : Type 0 where
  pub id : Text
  pub tenant_id : Text
  pub email : Text
  pub phone : Text
  pub name : Text
  pub status : Text
  pub password_hash : Text

pub record PlatformAccount : Type 0 where
  pub id : Text
  pub email : Text
  pub phone : Text
  pub name : Text
  pub status : Text
  pub password_hash : Text

pub record AuthProfile : Type 0 where
  pub subject_id : Text
  pub tenant_id : Text
  pub account : Text
  pub name : Text
  pub roles : List Text

pub record AuthSession : Type 0 where
  pub token : Text
  pub expires_at : Time
  pub profile : AuthProfile

pub record ConsoleRegisterInput : Type 0 where
  pub tenant_name : Text
  pub tenant_type : Text
  pub admin_name : Text
  pub email : Text
  pub phone : Text
  pub password : Text

-- jwt.Claims of the kit; a time stands there in Unix seconds.
pub record TokenClaims : Type 0 where
  pub tenant_id : Text
  pub subject : Text
  pub issuer : Text
  pub audience : Text
  pub expiry : ℤ
  pub not_before : ℤ
  pub issued_at : ℤ
  pub roles : List Text

pub record AuthRepo (W : Type 0) : Type 0 where
  pub find_tenant_account : Text → Text → Exec W TenantAccount
  pub find_platform_account : Text → Exec W PlatformAccount
  pub list_user_roles : Text → Exec W (List Text)
  pub create_tenant_with_admin : Tenant → TenantAccount → Text → Exec W (Tenant × TenantAccount)

-- The libraries: bcrypt, UUIDs, the clock, the signer of tokens, and `Unix` of a time.
pub record AuthSystem (W : Type 0) : Type 0 where
  pub compare_password : Text → Text → Bool
  pub hash_password : Text → W → Option Text × W
  pub new_uuid : W → Text × W
  pub now : W → Time × W
  pub sign : TokenClaims → Text → Option Text
  pub unix : Time → ℤ

pub record AuthUsecase (W : Type 0) : Type 0 where
  pub repo : AuthRepo W
  pub system : AuthSystem W
  pub secret : Text
  pub issuer : Text
  pub audience : Text
  pub token_ttl : Time
