-- ===== src/Iam/Permissions.antt =====
-- `RequirePermission` and its helpers, of apps/server/internal/iam/biz/iam.go.
use rago_desk.Base.{
  ℕ, Bool, true, false, ◌||◌, Option, none, some, List, [], ◌∷◌, ◌++◌, ◌==◌, nat_eq, text_eq,
  if◌then◌else◌, has_prefix, null, any, Text, codes, Exec, pure, raise, ◌>>=◌, forbidden,
}

abbrev pub prepend : ℕ → Option Text → Option Text
prepend c none = none
prepend c (some p) = some (c ∷ p)

-- strings.HasSuffix and strings.TrimSuffix: what stands before the suffix, if the text has it.
unfoldable pub cut_suffix : Text → Text → Option Text
cut_suffix suffix [] = if null suffix then some [] else none
cut_suffix suffix (c ∷ s) =
    let rest = cut_suffix suffix s in if (c ∷ s) == suffix then some [] else prepend c rest

unfoldable pub permission_match : Text → Text → Bool
permission_match candidate target =
    if candidate == codes "*" || candidate == target
    then true
    else elim (cut_suffix (codes ".*") candidate) [
      | none ↦ false
      | some prefix ↦ has_prefix (prefix ++ codes ".") target
    ]

unfoldable pub has_role : List Text → Text → Bool
has_role roles target = any (λ role. role == target) roles

-- What the decision reads of the token's claims.
pub record Claims : Type 0 where
  pub subject : Text
  pub roles : List Text

-- The codes of the permissions that the repository lists for a subject.
pub record IamRepo (W : Type 0) : Type 0 where
  pub list_platform_admin_permissions : Text → Exec W (List Text)
  pub list_user_permissions : Text → Exec W (List Text)

module _ {W : Type 0} where
  -- The loop over the listed permissions.
  unfoldable pub grant_listed : Text → Exec W (List Text) → Exec W (Unit {0})
  grant_listed permission list = do
    perms ← list
    let listed = any (λ code. permission_match code permission) perms
    if listed then pure tt else raise (forbidden (codes "RBAC_FORBIDDEN"))

  unfoldable pub require_permission : IamRepo W → Option Claims → Text → Exec W (Unit {0})
  require_permission repo none permission =
      if null permission then pure tt else raise (forbidden (codes "RBAC_FORBIDDEN"))
  require_permission repo (some claims) permission =
      if null permission
      then pure tt
      else if null claims.subject
      then raise (forbidden (codes "RBAC_FORBIDDEN"))
      else if has_prefix (codes "platform.") permission
      then grant_listed permission (repo.list_platform_admin_permissions claims.subject)
      else if has_prefix (codes "tenant.") permission
      then if has_role claims.roles (codes "tenant_admin")
        then pure tt
        else grant_listed permission (repo.list_user_permissions claims.subject)
      else raise (forbidden (codes "RBAC_FORBIDDEN"))
