-- ===== src/Bot/Operations.antt =====
-- The operations of `BotUsecase`, of apps/server/internal/bot/biz/bot.go.
use rago_desk.Base.{
  ℕ, Bool, not, ◌&&◌, ◌||◌, List, ◌==◌, text_eq, if◌then◌else◌, null, Text, codes, trim, Exec,
  raise, bad_request, ℤ, pos, ltℤ, leℤ,
}

pub record Bot : Type 0 where
  pub id : Text
  pub tenant_id : Text
  pub name : Text
  pub description : Text
  pub status : Text
  pub created_at : ℕ
  pub updated_at : ℕ

pub record BotRepo (W : Type 0) : Type 0 where
  pub create_bot : Bot → Exec W Bot
  pub get_bot : Text → Exec W Bot
  pub list_bots : ℤ → ℤ → Exec W (List Bot)
  pub update_bot : Bot → Exec W Bot
  pub delete_bot : Text → Exec W (Unit {0})

unfoldable pub is_valid_status : Text → Bool
is_valid_status status = status == codes "active" || status == codes "disabled"

module _ {W : Type 0} (repo : BotRepo W) where
  unfoldable pub create_bot : Bot → Exec W Bot
  create_bot bot =
      let wanted : Bot = record bot {
        name = trim bot.name;
        description = trim bot.description;
        status = if null bot.status then codes "active" else bot.status;
      } in
      if null (trim bot.name)
      then raise (bad_request (codes "BOT_NAME_REQUIRED"))
      else if not (null bot.status) && not (is_valid_status bot.status)
      then raise (bad_request (codes "BOT_STATUS_INVALID"))
      else repo.create_bot wanted

  unfoldable pub get_bot : Text → Exec W Bot
  get_bot id =
      if null (trim id)
      then raise (bad_request (codes "BOT_ID_REQUIRED"))
      else repo.get_bot (trim id)

  unfoldable pub list_bots : ℤ → ℤ → Exec W (List Bot)
  list_bots limit offset =
      let first = if leℤ limit (pos 0) then pos 50 else limit in
      let capped = if ltℤ (pos 200) first then pos 200 else first in
      repo.list_bots capped (if ltℤ offset (pos 0) then pos 0 else offset)

  unfoldable pub update_bot : Bot → Exec W Bot
  update_bot bot =
      let wanted : Bot = record bot {
        id = trim bot.id;
        name = trim bot.name;
        description = trim bot.description;
      } in
      if null (trim bot.id)
      then raise (bad_request (codes "BOT_ID_REQUIRED"))
      else if not (null bot.status) && not (is_valid_status bot.status)
      then raise (bad_request (codes "BOT_STATUS_INVALID"))
      else repo.update_bot wanted

  unfoldable pub delete_bot : Text → Exec W (Unit {0})
  delete_bot id =
      if null (trim id)
      then raise (bad_request (codes "BOT_ID_REQUIRED"))
      else repo.delete_bot (trim id)
