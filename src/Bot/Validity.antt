-- ===== src/Bot/Validity.antt =====
-- Which bots reach the repository.
use rago_desk.Base.{
  ◌≡◌, inl, inr, true, false, not, ◌&&◌, ◌||◌, text_eq, if◌then◌else◌, null, Text, codes, trim,
  trim_idem, arith, Bool-cases,
}
use rago_desk.Bot.Operations.{Bot, BotRepo, is_valid_status, create_bot, update_bot}

-- A new bot has a trimmed name and description and a status that is known.
pub record IsNew (b : Bot) : Type 0 where
  pub named : null b.name ≡ false
  pub trimmed : trim b.name ≡ b.name
  pub tidy : trim b.description ≡ b.description
  pub known : is_valid_status b.status ≡ true

-- An update names its bot, and its status is known or empty.
pub record IsUpdate (b : Bot) : Type 0 where
  pub identified : null b.id ≡ false
  pub trimmed : trim b.name ≡ b.name
  pub known : (null b.status || is_valid_status b.status) ≡ true

module _ {W : Type 0} (repo : BotRepo W) (P : W → Type 0) where
  -- What the repository keeps on the insertion of a new bot, with a trimmed name that is not empty, a
  -- trimmed description and a known status, is kept by the creation of a bot on any input.
  pub create_bot-keeps :
      ((b : Bot) (w : W) → IsNew b → P w → P (repo.create_bot b w).1)
      → (b : Bot) (w : W) → P w
      → P (create_bot repo b w).1
  unfolding create_bot
  create_bot-keeps insert b w h = elim (Bool-cases (null (trim b.name))) [
    | inl e ↦ rw (create_bot, e) h
    | inr e ↦ elim (Bool-cases (not (null b.status) && not (is_valid_status b.status))) [
      | inl f ↦ rw (create_bot, e, f) h
      | inr f ↦
          rw (create_bot, e, f)
            (insert _ w
              (record {
                named = e;
                trimmed = trim_idem b.name;
                tidy = trim_idem b.description;
                known = status_known b.status f;
              })
              h)
    ]
  ]
    where
      status_known :
          (s : Text)
          → (not (null s) && not (is_valid_status s)) ≡ false
          → is_valid_status (if null s then codes "active" else s) ≡ true
      status_known s g = unfold is_valid_status in ground arith

  -- What the repository keeps on an update with an ID, a trimmed name and a status that is known or
  -- empty is kept by the update of a bot on any input.
  pub update_bot-keeps :
      ((b : Bot) (w : W) → IsUpdate b → P w → P (repo.update_bot b w).1)
      → (b : Bot) (w : W) → P w
      → P (update_bot repo b w).1
  unfolding update_bot
  update_bot-keeps write b w h = elim (Bool-cases (null (trim b.id))) [
    | inl e ↦ rw (update_bot, e) h
    | inr e ↦ elim (Bool-cases (not (null b.status) && not (is_valid_status b.status))) [
      | inl f ↦ rw (update_bot, e, f) h
      | inr f ↦
          rw (update_bot, e, f)
            (write _ w
              (record { identified = e; trimmed = trim_idem b.name; known = ground (arith, f) }) h)
    ]
  ]
