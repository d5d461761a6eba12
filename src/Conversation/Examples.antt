-- ===== src/Conversation/Examples.antt =====
-- The theorems on sessions at a concrete session and clock.
use rago_desk.Base.{◌≡◌, refl, ℕ, suc, none, some, [], ◌∷◌, codes, pure, pos, arith}
use rago_desk.Conversation.Types.{Session, Host, ConversationUsecase, status_closed}
use rago_desk.Conversation.Retention.{try_purge}
use rago_desk.Conversation.Purges.{IsPaced, purge_all, started, purge_all-IsPaced, try_purge-held}

abbrev done : Session
done = record {
  id = codes "s1";
  tenant_id = codes "t1";
  bot_id = codes "b1";
  status = status_closed;
  close_reason = [];
  user_external = [];
  metadata = [];
  created_at = 1;
  updated_at = 1;
  closed_at = 2;
}

-- The world is the clock.
abbrev usecase : ConversationUsecase ℕ (Unit {0})
usecase = record {
  repo = record {
    create_session = λ s. pure s;
    get_session = λ id. pure done;
    list_sessions = λ l o. pure [];
    close_session = λ id r t. pure tt;
    create_messages = λ ms. pure tt;
    list_messages = λ id l o. pure [];
    create_event = λ e. pure tt;
    create_feedback = λ f. pure tt;
  };
  system = record {
    now = λ w. (w, suc w);
    new_uuid = λ w. (w ∷ [], suc w);
    days_before = λ d t. t;
    marshal = λ m. none;
  };
  retention_days = 30;
  purge_interval = pos 100;
  tenant = some (codes "t1");
}

abbrev fresh : Host ℕ
fresh = record { world = 1000; last_purge = 0; purges = [] }

purge_all-IsPaced_example :
    IsPaced usecase
      (purge_all usecase ((codes "t1", 1000) ∷ (codes "t2", 1050) ∷ (codes "t1", 1100) ∷ []) fresh)
purge_all-IsPaced_example =
    purge_all-IsPaced usecase ((codes "t1", 1000) ∷ (codes "t2", 1050) ∷ (codes "t1", 1100) ∷ [])
      fresh (omega arith, (omega arith, (omega arith, tt)))
      (record { last = refl; spaced = tt; dated = tt })

try_purge-held_example :
    ((try_purge usecase (codes "t1") 1000 fresh).purges
      ≡ started usecase (codes "t1") 1000 ∷ fresh.purges)
    × (try_purge usecase (codes "t2") 1050 (try_purge usecase (codes "t1") 1000 fresh)
        ≡ try_purge usecase (codes "t1") 1000 fresh)
try_purge-held_example =
    try_purge-held usecase (codes "t1") (codes "t2") 1000 1050 fresh (omega arith) (omega arith)
      (omega arith)
