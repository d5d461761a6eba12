-- ===== src/Bot/Examples.antt =====
-- The theorems on bots over a list of bots.
use rago_desk.Base.{◌≡◌, false, List, [], ◌∷◌, null, All, codes, ok}
use rago_desk.Bot.Operations.{Bot, BotRepo, create_bot}
use rago_desk.Bot.Validity.{create_bot-keeps}

abbrev listing : BotRepo (List Bot)
listing = record {
  create_bot = λ b w. (ok b, b ∷ w);
  get_bot = λ id w. (
    ok (record {
      id = id;
      tenant_id = [];
      name = [];
      description = [];
      status = [];
      created_at = 0;
      updated_at = 0;
    }),
    w,
  );
  list_bots = λ l o w. (ok w, w);
  update_bot = λ b w. (ok b, w);
  delete_bot = λ id w. (ok tt, []);
}

abbrev helper : Bot
helper = record {
  id = codes "b1";
  tenant_id = codes "t1";
  name = codes " Helper ";
  description = [];
  status = [];
  created_at = 0;
  updated_at = 0;
}

abbrev AllNamed : List Bot → Type 0
AllNamed = All (λ (b : Bot). null b.name ≡ false)

create_bot-keeps_example : AllNamed (create_bot listing helper []).1
create_bot-keeps_example =
    create_bot-keeps listing AllNamed (λ b w new h. (new.named, h)) helper [] tt
