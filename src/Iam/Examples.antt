-- ===== src/Iam/Examples.antt =====
-- The decisions on permissions at concrete claims.
use rago_desk.Base.{
  ◌≡◌, ◌↔◌, ◌⊎◌, refl, true, false, [], ◌∷◌, ◌++◌, null, Text, codes, has_prefix, pure,
}
use rago_desk.Iam.Permissions.{Claims, IamRepo, permission_match, require_permission, has_role}
use rago_desk.Iam.Decisions.{IsAllowed, permission_match_iff, require_permission-IsAllowed}

abbrev owner : Claims
owner = record { subject = codes "u1"; roles = codes "tenant_admin" ∷ [] }

abbrev empty_repo : IamRepo (Unit {0})
empty_repo = record {
  list_platform_admin_permissions = λ s. pure [];
  list_user_permissions = λ s. pure [];
}

permission_match_iff_example :
    (permission_match (codes "tenant.bot.*") (codes "tenant.bot.read") ≡ true) ↔ (
      (codes "tenant.bot.*" ≡ codes "*")
      ⊎ ((codes "tenant.bot.*" ≡ codes "tenant.bot.read")
          ⊎ ((prefix : Text) × ((rest : Text) × ((codes "tenant.bot.*" ≡ prefix ++ codes ".*")
                  × (codes "tenant.bot.read" ≡ (prefix ++ codes ".") ++ rest))))))
permission_match_iff_example = permission_match_iff (codes "tenant.bot.*") (codes "tenant.bot.read")

require_permission-IsAllowed_example :
    (null owner.subject ≡ false) × IsAllowed empty_repo owner (codes "tenant.bot.read") tt
unfolding require_permission has_prefix has_role
require_permission-IsAllowed_example =
    require_permission-IsAllowed empty_repo owner (codes "tenant.bot.read") tt refl refl
