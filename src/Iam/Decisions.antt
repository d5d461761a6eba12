-- ===== src/Iam/Decisions.antt =====
-- Which permission matches which, and who is let in.
use rago_desk.Base.{
  ℕ, ◌≡◌, ◌↔◌, ◌⊎◌, refl, ap, inl, inr, Bool, true, false, Option, none, some, List, [], ◌∷◌, ◌++◌,
  ◌==◌, nat_eq, text_eq, text_beq_iff, if◌then◌else◌, null, any, Text, codes, ok, err, arith,
  Bool-cases, Option-cases, Exec, Result, pure, raise, forbidden, length, length-append,
}
use rago_desk.Base.Monad.{continue}
use rago_desk.Base.{has_prefix}
use rago_desk.Iam.Permissions.{
  cut_suffix, prepend, permission_match, has_role, Claims, IamRepo, grant_listed,
  require_permission,
}

has_prefix_sound : (p s : Text) → has_prefix p s ≡ true → (rest : Text) × (s ≡ p ++ rest)
unfolding has_prefix
has_prefix_sound [] s h = (s, refl)
has_prefix_sound (c ∷ p) [] h = cc
has_prefix_sound (c ∷ p) (d ∷ s) h = elim (Bool-cases (c == d)) [
  | inl e ↦
      let (rest, same) = has_prefix_sound p s (ground arith) in
      let head : c ≡ d = (nat_eq.same_iff c d).0 e in (rest, cc)
  | inr e ↦ ground arith
]

has_prefix-append : (p rest : Text) → has_prefix p (p ++ rest) ≡ true
unfolding has_prefix
has_prefix-append [] rest = refl
has_prefix-append (c ∷ p) rest = ground (arith, has_prefix-append p rest)

cut_by :
    (suffix s p : Text) (c : ℕ) (whole : Bool) (rest : Option Text)
    → (whole ≡ true → (c ∷ s) ≡ suffix)
    → ((q : Text) → rest ≡ some q → s ≡ q ++ suffix)
    → (if whole then some [] else prepend c rest) ≡ some p
    → (c ∷ s) ≡ p ++ suffix
cut_by suffix s [] c true rest same later h = same refl
cut_by suffix s (d ∷ p) c true rest same later h = cc
cut_by suffix s p c false none same later h = cc
cut_by suffix s p c false (some q) same later h = let tail = later q refl in cc

cut_suffix_sound : (suffix s p : Text) → cut_suffix suffix s ≡ some p → s ≡ p ++ suffix
unfolding cut_suffix
cut_suffix_sound [] [] p h = cc
cut_suffix_sound (c ∷ suffix) [] p h = cc
cut_suffix_sound suffix (c ∷ s) p h =
    cut_by suffix s p c ((c ∷ s) == suffix) (cut_suffix suffix s)
      (λ e. (text_beq_iff (c ∷ s) suffix).0 e) (cut_suffix_sound suffix s) h

suffix_differs : (suffix p : Text) (c : ℕ) → ((c ∷ p ++ suffix) == suffix) ≡ false
suffix_differs suffix p c = elim (Bool-cases ((c ∷ p ++ suffix) == suffix)) [
  | inl e ↦
      let same = ap length ((text_beq_iff (c ∷ p ++ suffix) suffix).0 e) in
      absurd (omega (arith, same, length-append p suffix))
  | inr e ↦ e
]

cut_suffix-append :
    (suffix p : Text)
    → cut_suffix suffix suffix ≡ some []
    → cut_suffix suffix (p ++ suffix) ≡ some p
unfolding cut_suffix
cut_suffix-append suffix [] h = h
cut_suffix-append suffix (c ∷ p) h =
    rw (cut_suffix, suffix_differs suffix p c, cut_suffix-append suffix p h)

matches_by_prefix :
    (candidate target prefix rest : Text)
    → candidate ≡ prefix ++ codes ".*"
    → target ≡ (prefix ++ codes ".") ++ rest
    → permission_match candidate target ≡ true
unfolding permission_match
matches_by_prefix candidate target prefix rest e f =
    let cut : cut_suffix (codes ".*") candidate ≡ some prefix =
      rw e (cut_suffix-append (codes ".*") prefix (unfold cut_suffix in refl)) in
    let begins : has_prefix (prefix ++ codes ".") target ≡ true =
      rw f (has_prefix-append (prefix ++ codes ".") rest) in
    ground (arith, cut, begins)

-- A pattern matches a permission exactly if it is `*`, or the permission itself, or the text
-- `prefix.*` of a prefix such that the permission begins with `prefix.`.
pub permission_match_iff :
    (candidate target : Text)
    → (permission_match candidate target ≡ true) ↔ (
        (candidate ≡ codes "*")
        ⊎ ((candidate ≡ target)
            ⊎ ((prefix : Text) × ((rest : Text) × ((candidate ≡ prefix ++ codes ".*")
                    × (target ≡ (prefix ++ codes ".") ++ rest))))))
unfolding permission_match
permission_match_iff candidate target = (
  λ h. elim (Bool-cases (candidate == codes "*")) [
    | inl e ↦ inl ((text_beq_iff candidate (codes "*")).0 e)
    | inr e ↦ elim (Bool-cases (candidate == target)) [
      | inl e' ↦ inr (inl ((text_beq_iff candidate target).0 e'))
      | inr e' ↦ elim (Option-cases (cut_suffix (codes ".*") candidate)) [
        | inl f ↦ ground (arith, e, e', f)
        | inr (p, f) ↦
            let (rest, t) = has_prefix_sound (p ++ codes ".") target (ground (arith, e, e', f)) in
            inr (inr (p, (rest, (cut_suffix_sound (codes ".*") candidate p f, t))))
      ]
    ]
  ],
  λ h. elim h [
    | inl e ↦ ground (arith, (text_beq_iff candidate (codes "*")).1 e)
    | inr (inl e) ↦ ground (arith, (text_beq_iff candidate target).1 e)
    | inr (inr (p, (rest, (e, f)))) ↦ matches_by_prefix candidate target p rest e f
  ],
)

-- The list holds a pattern that matches the permission.
abbrev pub Listed : {W : Type 0} → Text → Exec W (List Text) → W → Type 0
Listed permission list w =
    (perms : List Text) × (((list w).0 ≡ ok perms)
      × (any (λ code. permission_match code permission) perms ≡ true))

module _ {W : Type 0} (repo : IamRepo W) (claims : Claims) (permission : Text) (w : W) where
  -- A platform permission is listed for the platform admin; a tenant permission is listed for the
  -- user, or the token has the role of a tenant's admin.
  pub data IsAllowed : Type 0 where
    platform :
        has_prefix (codes "platform.") permission ≡ true
        → Listed permission (repo.list_platform_admin_permissions claims.subject) w
        → IsAllowed
    admin :
        has_prefix (codes "tenant.") permission ≡ true
        → has_role claims.roles (codes "tenant_admin") ≡ true
        → IsAllowed
    user :
        has_prefix (codes "tenant.") permission ≡ true
        → Listed permission (repo.list_user_permissions claims.subject) w
        → IsAllowed

  allowed_by :
      (listed : Bool) (w' : W)
      → ((if listed then pure tt else raise (forbidden (codes "RBAC_FORBIDDEN"))) w').0 ≡ ok tt
      → listed ≡ true
  allowed_by true w' h = refl
  allowed_by false w' h = cc

  listed_by :
      (r : Result (List Text)) (w' : W)
      → (continue r
          (λ perms w''.
            (if any (λ code. permission_match code permission) perms
                then pure tt
                else raise (forbidden (codes "RBAC_FORBIDDEN")))
              w'')
          w').0
        ≡ ok tt
      → (perms : List Text) × ((r ≡ ok perms)
          × (any (λ code. permission_match code permission) perms ≡ true))
  listed_by (ok perms) w' h = (perms, (refl, allowed_by _ w' h))
  listed_by (err e) w' h = cc

  grant_listed-ok :
      (list : Exec W (List Text))
      → (grant_listed permission list w).0 ≡ ok tt
      → Listed permission list w
  unfolding grant_listed
  grant_listed-ok list h = listed_by (list w).0 (list w).1 h

  -- If claims are let in with a permission that is not empty, their subject is named and the
  -- permission is allowed: a platform permission is listed for the platform admin, a tenant
  -- permission is listed for the user or the token has the role of a tenant's admin.
  pub require_permission-IsAllowed :
      null permission ≡ false
      → (require_permission repo (some claims) permission w).0 ≡ ok tt
      → (null claims.subject ≡ false) × IsAllowed
  unfolding require_permission
  require_permission-IsAllowed h e = elim (Bool-cases (null claims.subject)) [
    | inl s ↦ ground (arith, h, e, s)
    | inr s ↦ elim (Bool-cases (has_prefix (codes "platform.") permission)) [
      | inl p ↦
          let listed =
            grant_listed-ok (repo.list_platform_admin_permissions claims.subject)
              (ground (arith, h, e, s, p)) in
          (s, platform p listed)
      | inr p ↦ elim (Bool-cases (has_prefix (codes "tenant.") permission)) [
        | inl t ↦ elim (Bool-cases (has_role claims.roles (codes "tenant_admin"))) [
          | inl r ↦ (s, admin t r)
          | inr r ↦
              let listed =
                grant_listed-ok (repo.list_user_permissions claims.subject)
                  (ground (arith, h, e, s, p, t, r)) in
              (s, user t listed)
        ]
        | inr t ↦ ground (arith, h, e, s, p, t)
      ]
    ]
  ]
