-- ===== src/ApiMgmt/Isolation.antt =====
-- What a request writes, seen from the other tenants.
use rago_desk.Base.{
  ◌≡◌, refl, ap, ◌∙◌, true, false, Bool, null, Option, none, some, List, [], ◌∷◌, ◌++◌, ◌==◌,
  text_eq, eq_refl, if◌then◌else◌, trim, Text, arith,
}
use rago_desk.ApiMgmt.Types.{ApiKey, Time}
use rago_desk.ApiMgmt.Table.{
  KeyRow, Db, update_where, delete_where, is_row, select_key, require_tenant, stored_key,
  stored_row, insert_key, update_key, write_key, set_chat_id, delete_key, rotate_key, rotate_row,
  set_last_used,
}

-- The statements that write keys: for a tenant, but for the time of the last use, which is written
-- for a key's ID alone.
pub data KeyCommand : Type 0 where
  create : ApiKey → KeyCommand
  update : ApiKey → KeyCommand
  new_chat : Text → Text → KeyCommand
  delete : Text → KeyCommand
  rotate : Text → Text → Time → KeyCommand
  touch : Text → Time → KeyCommand

unfoldable pub run : Option Text → KeyCommand → Db → Db
run tenant (create k) db = (insert_key tenant k db).1
run tenant (update k) db = (update_key tenant k db).1
run tenant (new_chat id chat) db = (set_chat_id tenant id chat db).1
run tenant (delete id) db = (delete_key tenant id db).1
run tenant (rotate id hash grace) db = (rotate_key tenant id hash grace db).1
run tenant (touch id at) db = (set_last_used id at db).1

-- The rows of the table; behind a statement that writes the time of the last use, those without it.
unfoldable pub used_at : Time → KeyRow → KeyRow
used_at at r = record r { key = record (r.key) { last_used_at = at } }

unfoldable pub unused : List KeyRow → List KeyRow
unused [] = []
unused (r ∷ rows) = used_at 0 r ∷ unused rows

unfoldable pub seen : KeyCommand → List KeyRow → List KeyRow
seen (create k) rows = rows
seen (update k) rows = rows
seen (new_chat id chat) rows = rows
seen (delete id) rows = rows
seen (rotate id hash grace) rows = rows
seen (touch id at) rows = unused rows

-- The rows of the other tenants, in order.
unfoldable pub others : Text → List KeyRow → List KeyRow
others t [] = []
others t (r ∷ rows) = if r.key.tenant_id == t then others t rows else r ∷ others t rows

others-append :
    (t : Text) (rows : List KeyRow) (r : KeyRow)
    → (r.key.tenant_id == t) ≡ true
    → others t (rows ++ r ∷ []) ≡ others t rows
unfolding others
others-append t [] r h = rw h
others-append t (x ∷ rows) r h = ground (arith, others-append t rows r h)

others-update :
    (t id : Text) (f : KeyRow → KeyRow) (rows : List KeyRow)
    → ((r : KeyRow) → (f r).key.tenant_id ≡ r.key.tenant_id)
    → others t (update_where (is_row t id) f rows) ≡ others t rows
unfolding others update_where is_row
others-update t id f [] same = refl
others-update t id f (x ∷ rows) same = ground (arith, others-update t id f rows same, same x)

others-delete :
    (t id : Text) (rows : List KeyRow) → others t (delete_where (is_row t id) rows) ≡ others t rows
unfolding others delete_where is_row
others-delete t id [] = refl
others-delete t id (x ∷ rows) = ground (arith, others-delete t id rows)

select_key-state : (t id : Text) (db : Db) → (select_key t id db).1 ≡ db
unfolding select_key
select_key-state t id db = ground arith

rows_of_select :
    (t t' id : Text) (db : Db) → others t' (select_key t id db).1.rows ≡ others t' db.rows
rows_of_select t t' id db = ap (λ (d : Db). others t' d.rows) (select_key-state t id db)

-- An update of rows of the tenant, read back.
changed_others :
    (t t' id id' : Text) (f : KeyRow → KeyRow) (db : Db)
    → ((r : KeyRow) → (f r).key.tenant_id ≡ r.key.tenant_id)
    → others t
        (select_key t' id (record db { rows = update_where (is_row t id') f db.rows })).1.rows
      ≡ others t db.rows
changed_others t t' id id' f db same = rows_of_select t' t id _ ∙ others-update t id' f db.rows same

write_key-tenant : (k : ApiKey) (r : KeyRow) → (write_key k r).key.tenant_id ≡ r.key.tenant_id
unfolding write_key
write_key-tenant k r = refl

rotate_row-tenant :
    (datetime : Time → Time) (hash : Text) (grace : Time) (r : KeyRow)
    → (rotate_row datetime hash grace r).key.tenant_id ≡ r.key.tenant_id
unfolding rotate_row
rotate_row-tenant datetime hash grace r = refl

stored_row-tenant :
    (datetime : Time → Time) (t : Text) (now : Time) (k : ApiKey)
    → ((stored_row datetime t now k).key.tenant_id == t) ≡ true
unfolding stored_row stored_key
stored_row-tenant datetime t now k = eq_refl t

used_again :
    (b : Bool) (at : Time) (r : KeyRow) → used_at 0 (if b then used_at at r else r) ≡ used_at 0 r
unfolding used_at
used_again true at r = refl
used_again false at r = refl

touched :
    (p : KeyRow → Bool) (at : Time) (rows : List KeyRow)
    → unused (update_where p (used_at at) rows) ≡ unused rows
unfolding unused update_where
touched p at [] = refl
touched p at (r ∷ rows) =
    ap (λ x. x ∷ unused (update_where p (used_at at) rows)) (used_again (p r) at r)
    ∙ ap (λ xs. used_at 0 r ∷ xs) (touched p at rows)

unused_if :
    (b : Bool) (db db' : Db)
    → unused db'.rows ≡ unused db.rows
    → unused (if b then db else db').rows ≡ unused db.rows
unused_if true db db' h = refl
unused_if false db db' h = h

unused-touch :
    (id : Text) (at : Time) (db : Db) → unused (set_last_used id at db).1.rows ≡ unused db.rows
unfolding set_last_used used_at
unused-touch id at db =
    unused_if (null id) db _ (touched (λ r. r.key.id == id) (db.datetime at) db.rows)

-- Whatever statement creates, updates, rotates or deletes a key or gives it another chat ID for a
-- tenant: the rows of all other tenants stay as they are, and for a request with no tenant all rows do.
-- The statement that writes the time of the last use knows no tenant; but for that time, it leaves all
-- rows as they are too.
pub run-others :
    (t : Text) (c : KeyCommand) (db : Db)
    → (others t (seen c (run (some t) c db).rows) ≡ others t (seen c db.rows))
      × (seen c (run none c db).rows ≡ seen c db.rows)
unfolding run seen insert_key update_key set_chat_id delete_key rotate_key require_tenant
run-others t (create k) db = (
  ground (
    arith,
    others-append t db.rows (stored_row db.datetime t db.now k)
        (stored_row-tenant db.datetime t db.now k),
  ),
  refl,
)
run-others t (update k) db =
    (ground (arith, changed_others t t k.id k.id (write_key k) db (write_key-tenant k)), refl)
run-others t (new_chat id chat) db =
    let f : KeyRow → KeyRow =
      λ r. record r { key = record (r.key) { public_chat_id = trim chat } } in
    (ground (arith, changed_others t t id (trim id) f db (λ r. refl)), refl)
run-others t (delete id) db = (ground (arith, others-delete t id db.rows), refl)
run-others t (rotate id hash grace) db = (
  ground (
    arith,
    changed_others t t id id (rotate_row db.datetime hash grace) db
        (rotate_row-tenant db.datetime hash grace),
  ),
  refl,
)
run-others t (touch id at) db = (ap (others t) (unused-touch id at db), unused-touch id at db)
