-- ===== src/ApiMgmt/Creation.antt =====
-- What the console's operations hand to the repository, and how often they try.
use rago_desk.Base.{
  ℕ, zero, suc, ◌≡◌, refl, inl, inr, Bool, false, Option, none, some, List, [], ◌∷◌, null, Text,
  trim, Unicode, Option-cases, Result, ok, err, Exec, not, ◌&&◌, any, All, All-append, ◌==◌,
  text_eq, arith, Bool-cases, ℤ, pos, ltℤ,
}
use rago_desk.ApiMgmt.Types.{ApiKey, ApiMgmtUsecase, status_active}
use rago_desk.ApiMgmt.Normalize.{normalize_scopes, normalize_versions, is_duplicate_key_error}
use rago_desk.ApiMgmt.Keys.{
  generate_api_key, generate_public_chat_id, fresh_key, create_attempts, settle, wanted_key,
  create_api_key, regenerate_attempts, floor_zero, or_else, default_scopes, default_versions,
}
use rago_desk.ApiMgmt.Table.{
  Db, set_chat_id, require_tenant, select_key, insert_key, collides, stored_key, stored_row,
  find_row, is_row, chat_taken, KeyRow,
}

-- A new key as the repository should get it.
pub record IsWellFormed (k : ApiKey) : Type 0 where
  pub named : null k.name ≡ false
  pub bound : null k.bot_id ≡ false
  pub scoped : null k.scopes ≡ false
  pub versioned : null k.api_versions ≡ false
  pub active : k.status ≡ status_active
  pub quota : ltℤ k.quota_daily (pos 0) ≡ false
  pub qps : ltℤ k.qps_limit (pos 0) ≡ false

module _ {W : Type 0} (uc : ApiMgmtUsecase W) (P : W → Type 0) where
  -- What the clock, the source of randomness and the generator of UUIDs keep.
  pub record SystemKeeps : Type 0 where
    pub now : (w : W) → P w → P (uc.system.now w).1
    pub random : (n : ℕ) (w : W) → P w → P (uc.system.random_base64 n w).1
    pub uuid : (w : W) → P w → P (uc.system.new_uuid w).1

  module _ (keeps : SystemKeeps)
      (insert : (k : ApiKey) (w : W)
        → IsWellFormed k
        → P w
        → P (uc.repo.create_api_key k w).1) where
    generate-keeps : (w : W) → P w → P (generate_api_key uc.system w).1
    unfolding generate_api_key
    generate-keeps w h = elim (Option-cases (uc.system.random_base64 32 w).0) [
      | inl e ↦ rw (generate_api_key, e) (keeps.uuid _ (keeps.random 32 w h))
      | inr (raw, e) ↦ rw (generate_api_key, e) (keeps.random 32 w h)
    ]

    chat-keeps : (w : W) → P w → P (generate_public_chat_id uc.system w).1
    unfolding generate_public_chat_id
    chat-keeps w h = elim (Option-cases (uc.system.random_base64 24 w).0) [
      | inl e ↦ rw (generate_public_chat_id, e) (keeps.uuid _ (keeps.random 24 w h))
      | inr (raw, e) ↦ rw (generate_public_chat_id, e) (keeps.random 24 w h)
    ]

    settle-keeps :
        {A B : Type 0} (f : A → B) (again : Exec W B) (r : Result A × W)
        → P r.1
        → ((w : W) → P w → P (again w).1)
        → P (settle f again r).1
    unfolding settle
    settle-keeps f again (ok a, w) h next = h
    settle-keeps f again (err e, w) h next = elim (Bool-cases (is_duplicate_key_error e)) [
      | inl d ↦ rw (settle, d) (next w h)
      | inr d ↦ rw (settle, d) h
    ]

    attempts-keep :
        (k : ApiKey) (left : ℕ) (w : W) → IsWellFormed k → P w → P (create_attempts uc k left w).1
    unfolding create_attempts fresh_key
    attempts-keep k zero w well h = h
    attempts-keep k (suc left) w well h =
        settle-keeps _ _ _
          (insert _ _
            (record {
              named = well.named;
              bound = well.bound;
              scoped = well.scoped;
              versioned = well.versioned;
              active = well.active;
              quota = well.quota;
              qps = well.qps;
            })
            (chat-keeps _ (keeps.uuid _ (keeps.now _ (generate-keeps w h)))))
          (λ w' h'. attempts-keep k left w' well h')

or_else-null : (xs d : List Text) → null d ≡ false → null (or_else xs d) ≡ false
or_else-null [] d h = h
or_else-null (x ∷ xs) d h = refl

floor_zero-not_negative : (n : ℤ) → ltℤ (floor_zero n) (pos 0) ≡ false
floor_zero-not_negative n = ground arith

module _ ⦃u : Unicode⦄ where
  wanted_key-IsWellFormed :
      (name bot_id : Text) (scopes versions : List Text) (quota_daily qps_limit : ℤ)
      (enabled : Option Bool)
      → null name ≡ false
      → null bot_id ≡ false
      → IsWellFormed (wanted_key name bot_id scopes versions quota_daily qps_limit enabled)
  unfolding wanted_key
  wanted_key-IsWellFormed name bot_id scopes versions quota_daily qps_limit enabled named bound =
      record {
        named = named;
        bound = bound;
        scoped = or_else-null (normalize_scopes scopes) default_scopes refl;
        versioned = or_else-null (normalize_versions versions) default_versions refl;
        active = refl;
        quota = floor_zero-not_negative quota_daily;
        qps = floor_zero-not_negative qps_limit;
      }

  -- Whatever property of the world is kept by the clock, the source of randomness, the UUIDs and
  -- the insertion of a well-formed key (with a name, a bot, a scope, a version, active and no
  -- negative limit), `CreateAPIKey` keeps it on any input.
  pub create_api_key-keeps :
      {W : Type 0} (uc : ApiMgmtUsecase W) (P : W → Type 0) (keeps : SystemKeeps uc P)
      (insert : (k : ApiKey) (w : W) → IsWellFormed k → P w → P (uc.repo.create_api_key k w).1)
      (name bot_id : Text) (scopes versions : List Text) (quota_daily qps_limit : ℤ)
      (enabled : Option Bool) (w : W)
      → P w
      → P (create_api_key uc name bot_id scopes versions quota_daily qps_limit enabled w).1
  unfolding create_api_key
  create_api_key-keeps uc P keeps insert name bot_id scopes versions quota_daily qps_limit enabled w
        h =
      elim (Bool-cases (null (trim name))) [
        | inl e ↦ rw (create_api_key, e) h
        | inr e ↦ elim (Bool-cases (null (trim bot_id))) [
          | inl e' ↦ rw (create_api_key, e, e') h
          | inr e' ↦
              rw (create_api_key, e, e')
                (attempts-keep uc P keeps insert _ 3 w
                  (wanted_key-IsWellFormed (trim name) (trim bot_id) scopes versions quota_daily
                    qps_limit enabled e e')
                  h)
        ]
      ]

-- The result is an error that the loops take for a duplicate.
unfoldable says_duplicate : {A : Type 0} → Result A → Bool
says_duplicate (ok a) = false
says_duplicate (err e) = is_duplicate_key_error e

lets_by_tenant :
    (tenant : Option Text) (k : Text → Exec Db ApiKey) (db : Db)
    → ((t : Text) → says_duplicate (k t db).0 ≡ false)
    → says_duplicate (require_tenant tenant k db).0 ≡ false
unfolding require_tenant says_duplicate is_duplicate_key_error
lets_by_tenant none k db h = refl
lets_by_tenant (some t) k db h = elim (Bool-cases (null t)) [
  | inl e ↦ rw e refl
  | inr e ↦ rw e (h t)
]

select_key-not_duplicate : (t id : Text) (db : Db) → says_duplicate (select_key t id db).0 ≡ false
unfolding select_key says_duplicate is_duplicate_key_error
select_key-not_duplicate t id db = elim (Option-cases (find_row (is_row t id) db.rows)) [
  | inl e ↦ rw (select_key, e) refl
  | inr (r, e) ↦ rw (select_key, e) refl
]

-- The table returns no error that says duplicate when a chat ID is taken: the write of
-- `RegeneratePublicChatID` does not pass its error through `normalizeWriteErr`.
set_chat_id-not_duplicate :
    (tenant : Option Text) (id chat : Text) (db : Db)
    → says_duplicate (set_chat_id tenant id chat db).0 ≡ false
unfolding set_chat_id says_duplicate is_duplicate_key_error
set_chat_id-not_duplicate tenant id chat db = lets_by_tenant tenant _ db (λ t.
    elim (Bool-cases
      (not (any (λ r. is_row t (trim id) r && not (r.key.public_chat_id == trim chat)) db.rows))) [
        | inl e ↦ rw e refl
        | inr e ↦ rw e (elim (Bool-cases (any (chat_taken t (trim id) (trim chat)) db.rows)) [
          | inl e' ↦ rw e' refl
          | inr e' ↦ rw e' (select_key-not_duplicate t id _)
        ])
      ])

settle-once :
    {W A B : Type 0} (f : A → B) (again again' : Exec W B) (r : Result A × W)
    → says_duplicate r.0 ≡ false
    → settle f again r ≡ settle f again' r
unfolding settle says_duplicate
settle-once f again again' (ok a, w) h = refl
settle-once f again again' (err e, w) h = rw (settle, h) refl

-- Over the table, `RegeneratePublicChatID` makes one attempt, however many its loop allows: the
-- error of a chat ID that another key has is not one that the loop takes for a duplicate, so a
-- fresh chat ID is never tried.
pub regenerate_attempts-once :
    (uc : ApiMgmtUsecase Db) (tenant : Option Text)
    → uc.repo.regenerate_public_chat_id ≡ set_chat_id tenant
    → (key_id : Text) (left : ℕ) (db : Db)
    → regenerate_attempts uc key_id (suc left) db ≡ regenerate_attempts uc key_id 1 db
unfolding regenerate_attempts
regenerate_attempts-once uc tenant over key_id left db =
    let (chat, db') = generate_public_chat_id uc.system db in
    settle-once _ _ _ _ (rw over (set_chat_id-not_duplicate tenant key_id chat db'))

-- Every key of the table has a scope.
abbrev pub AllScoped : Db → Type 0
AllScoped db = All (λ (r : KeyRow). null r.key.scopes ≡ false) db.rows

pub insert_key-AllScoped :
    (tenant : Option Text) (k : ApiKey) (db : Db)
    → IsWellFormed k
    → AllScoped db
    → AllScoped (insert_key tenant k db).1
unfolding insert_key require_tenant
insert_key-AllScoped none k db well h = h
insert_key-AllScoped (some t) k db well h = elim (Bool-cases (null t)) [
  | inl e ↦ rw e h
  | inr e ↦ elim (Bool-cases (any (collides (stored_key t db.now k)) db.rows)) [
    | inl e' ↦ rw (e, e') h
    | inr e' ↦
        rw (e, e')
          (unfold stored_row stored_key in
            All-append _ db.rows (stored_row db.datetime t db.now k ∷ []) h (well.scoped, tt))
  ]
]
