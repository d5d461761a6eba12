-- ===== src/Documents/Bases.antt =====
-- The statements on knowledge bases and their bots of apps/server/internal/knowledge/data/knowledge.go.
use rago_desk.Base.{
  Bool, not, ◌&&◌, ◌||◌, List, [], ◌∷◌, ◌++◌, ◌==◌, text_eq, nat_eq, if◌then◌else◌, null, any, Text,
  codes, trim, err, ok, Exec, raise, ◌>>=◌, not_found, conflict,
}
use rago_desk.Documents.Types.{KnowledgeBase, BotKnowledgeBase, Ctx, Done}
use rago_desk.Documents.Tables.{
  Store, Services, first_where, all_where, update_all, delete_all, newest_first, require_tenant,
  found_or, or_new_uuid, or_now, time_now, or_time,
}

-- tenant_id = ? AND id = ?
unfoldable pub is_base : Text → Text → KnowledgeBase → Bool
is_base tenant_id id kb = kb.tenant_id == tenant_id && kb.id == id

-- PRIMARY KEY (id), UNIQUE KEY (tenant_id, name)
unfoldable pub base_collides : KnowledgeBase → KnowledgeBase → Bool
base_collides kb row = row.id == kb.id || (row.tenant_id == kb.tenant_id && row.name == kb.name)

unfoldable pub is_link : Text → Text → Text → BotKnowledgeBase → Bool
is_link tenant_id bot_id kb_id l =
    l.tenant_id == tenant_id && l.bot_id == bot_id && l.kb_id == kb_id

-- PRIMARY KEY (id), UNIQUE KEY (tenant_id, bot_id, kb_id)
unfoldable pub link_collides : BotKnowledgeBase → BotKnowledgeBase → Bool
link_collides l row = row.id == l.id || is_link l.tenant_id l.bot_id l.kb_id row

-- Another row has the name already.
unfoldable pub name_taken : KnowledgeBase → KnowledgeBase → Bool
name_taken kb row = row.tenant_id == kb.tenant_id && row.name == kb.name && not (row.id == kb.id)

module _ {W : Type 0} where
  unfoldable pub add_base : KnowledgeBase → Exec (Store W) KnowledgeBase
  add_base kb s =
      if any (base_collides kb) s.bases
      then (err (conflict (codes "KB_DUPLICATE")), s)
      else (ok kb, record s { bases = s.bases ++ kb ∷ [] })

  unfoldable pub select_base : Text → Text → Exec (Store W) KnowledgeBase
  select_base tenant_id id s =
      found_or (first_where (is_base tenant_id id) s.bases)
        (raise (not_found (codes "KB_NOT_FOUND"))) s

  unfoldable pub change_base : KnowledgeBase → Exec (Store W) KnowledgeBase
  change_base kb s =
      let write : KnowledgeBase → KnowledgeBase = λ row. record row {
        name = kb.name;
        description = kb.description;
        updated_at = kb.updated_at;
      } in
      if any (name_taken kb) s.bases
      then (err (conflict (codes "KB_DUPLICATE")), s)
      else (ok kb, record s { bases = update_all (is_base kb.tenant_id kb.id) write s.bases })

  -- The transaction: without such a knowledge base its deletion of links is taken back.
  unfoldable pub remove_base : Text → Text → Exec (Store W) Done
  remove_base tenant_id id s =
      if not (any (is_base tenant_id id) s.bases)
      then (err (not_found (codes "KB_NOT_FOUND")), s)
      else (
        ok tt,
        record s {
          bases = delete_all (is_base tenant_id id) s.bases;
          links = delete_all (λ l. l.tenant_id == tenant_id && l.kb_id == id) s.links;
        },
      )

  unfoldable pub add_link : BotKnowledgeBase → Exec (Store W) BotKnowledgeBase
  add_link link s =
      if any (link_collides link) s.links
      then (err (conflict (codes "BOT_KB_DUPLICATE")), s)
      else (ok link, record s { links = s.links ++ link ∷ [] })

  unfoldable pub remove_link : Text → Text → Text → Exec (Store W) Done
  remove_link tenant_id bot_id kb_id s =
      if not (any (is_link tenant_id bot_id kb_id) s.links)
      then (err (not_found (codes "BOT_KB_NOT_FOUND")), s)
      else (ok tt, record s { links = delete_all (is_link tenant_id bot_id kb_id) s.links })

module _ {W : Type 0} (services : Services W) (ctx : Ctx) where
  unfoldable pub insert_base : KnowledgeBase → Exec (Store W) KnowledgeBase
  insert_base kb = require_tenant ctx (λ tenant_id. or_new_uuid services kb.id >>= λ id.
      or_now services kb.created_at >>= λ created. add_base (record kb {
        id = id;
        tenant_id = tenant_id;
        created_at = created;
        updated_at = or_time kb.updated_at created;
      }))

  unfoldable pub get_base : Text → Exec (Store W) KnowledgeBase
  get_base id = require_tenant ctx (λ tenant_id. select_base tenant_id id)

  unfoldable pub list_bases : Exec (Store W) (List KnowledgeBase)
  list_bases = require_tenant ctx (λ tenant_id s. (
    ok (newest_first (λ kb. kb.created_at) (all_where (λ kb. kb.tenant_id == tenant_id) s.bases)),
    s,
  ))

  unfoldable pub update_base : KnowledgeBase → Exec (Store W) KnowledgeBase
  update_base kb = require_tenant ctx (λ tenant_id. get_base kb.id >>= λ current.
      time_now services >>= λ now. change_base (record kb {
        tenant_id = tenant_id;
        name = if null (trim kb.name) then current.name else kb.name;
        description = if null (trim kb.description) then current.description else kb.description;
        created_at = current.created_at;
        updated_at = now;
      }))

  unfoldable pub delete_base : Text → Exec (Store W) Done
  delete_base id = require_tenant ctx (λ tenant_id. remove_base tenant_id id)

  unfoldable pub list_links : Text → Exec (Store W) (List BotKnowledgeBase)
  list_links bot_id = require_tenant ctx (λ tenant_id s. (
    ok (
        newest_first (λ l. l.created_at)
          (all_where (λ l. l.tenant_id == tenant_id && l.bot_id == bot_id) s.links)),
    s,
  ))

  unfoldable pub insert_link : BotKnowledgeBase → Exec (Store W) BotKnowledgeBase
  insert_link link = require_tenant ctx (λ tenant_id. or_new_uuid services link.id >>= λ id.
      or_now services link.created_at >>= λ created.
      add_link (record link { id = id; tenant_id = tenant_id; created_at = created }))

  unfoldable pub delete_link : Text → Text → Exec (Store W) Done
  delete_link bot_id kb_id = require_tenant ctx (λ tenant_id. remove_link tenant_id bot_id kb_id)
