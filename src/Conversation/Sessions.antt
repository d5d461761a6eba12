-- ===== src/Conversation/Sessions.antt =====
-- The operations of `ConversationUsecase`, of apps/server/internal/conversation/biz/conversation.go.
use rago_desk.Base.{
  ℕ, Bool, not, ◌&&◌, ◌||◌, Option, none, some, List, [], ◌∷◌, ◌==◌, text_eq, nat_eq, if◌then◌else◌,
  null, Text, codes, trim, to_lower, contains_text, Unicode, Error, Result, ok, err, Exec, pure,
  raise, ◌>>=◌, ◌>>◌, call, ignore, bad_request, ℤ, pos, leℤ,
}
use rago_desk.ApiMgmt.Normalize.{normalize_page}
use rago_desk.Conversation.Types.{
  Session, Message, Host, ConversationUsecase, status_bot, status_closed,
}
use rago_desk.Conversation.Retention.{maybe_purge}

unfoldable pub can_close_session : Text → Bool
can_close_session status = status == status_bot

unfoldable pub is_escalation_reason : ⦃u : Unicode⦄ → Text → Bool
is_escalation_reason reason =
    let r = to_lower (trim reason) in
    contains_text (codes "escalat") r || contains_text (codes "handoff") r

abbrev pub session_missing : Error
session_missing = bad_request (codes "SESSION_ID_MISSING")

abbrev pub precondition : Text → Error
precondition reason = record { code = 412; reason = reason }

-- A call of the repository.
unfoldable pub on_world : {W A : Type 0} → Exec W A → Exec (Host W) A
on_world f h = let (r, w') = f h.world in (r, record h { world = w' })

module _ {W M : Type 0} (uc : ConversationUsecase W M) where
  unfoldable pub purging : Exec (Host W) (Unit {0})
  purging h = (ok tt, maybe_purge uc h)

  -- `_ = uc.repo.CreateEvent(…)` with a new ID.
  unfoldable pub emit : Text → Text → Text → ℕ → Exec (Host W) (Unit {0})
  emit session_id event_type detail now = do
    id ← on_world (call uc.system.new_uuid)
    ignore (
        on_world (
          uc.repo.create_event (record {
            id = id;
            tenant_id = [];
            session_id = session_id;
            event_type = event_type;
            detail = detail;
            created_at = now;
          })))

  abbrev pub marshalled : Option M → Text
  marshalled none = []
  marshalled (some m) = elim (uc.system.marshal m) [ none ↦ [] | some raw ↦ raw ]

  unfoldable pub open_session : Text → Text → Option M → Exec (Host W) Session
  open_session bot_id user_external metadata = do
    purging
    now ← on_world (call uc.system.now)
    id ← on_world (call uc.system.new_uuid)
    created ← on_world (
        uc.repo.create_session (record {
          id = id;
          tenant_id = [];
          bot_id = bot_id;
          status = status_bot;
          close_reason = [];
          user_external = trim user_external;
          metadata = marshalled metadata;
          created_at = now;
          updated_at = now;
          closed_at = 0;
        }))
    emit created.id (codes "open") [] now
    pure created

  unfoldable pub create_session : Text → Text → Option M → Exec (Host W) Session
  create_session bot_id user_external metadata =
      if null (trim bot_id)
      then raise (bad_request (codes "BOT_ID_MISSING"))
      else open_session (trim bot_id) user_external metadata

  unfoldable pub read_session : Text → Bool → ℤ → ℤ → Exec (Host W) (Session × List Message)
  read_session id include_messages limit offset = do
    purging
    session ← on_world (uc.repo.get_session id)
    let (l, o) = normalize_page limit offset
    if not include_messages
        then pure (session, [])
        else do messages ← on_world (uc.repo.list_messages id l o); pure (session, messages)

  unfoldable pub get_session : Text → Bool → ℤ → ℤ → Exec (Host W) (Session × List Message)
  get_session id include_messages limit offset =
      if null (trim id)
      then raise session_missing
      else read_session (trim id) include_messages limit offset

  unfoldable pub list_sessions : ℤ → ℤ → Exec (Host W) (List Session)
  list_sessions limit offset = do
    purging
    let (l, o) = normalize_page limit offset
    on_world (uc.repo.list_sessions l o)

  unfoldable pub list_messages : Text → ℤ → ℤ → Exec (Host W) (List Message)
  list_messages id limit offset = if null (trim id) then raise session_missing else do
    purging
    let (l, o) = normalize_page limit offset
    on_world (uc.repo.list_messages (trim id) l o)

  unfoldable pub send_feedback : Text → Text → ℤ → Text → Text → Exec (Host W) (Unit {0})
  send_feedback session_id message_id rating comment correction = do
    id ← on_world (call uc.system.new_uuid)
    now ← on_world (call uc.system.now)
    on_world (
        uc.repo.create_feedback (record {
          id = id;
          tenant_id = [];
          session_id = session_id;
          message_id = message_id;
          rating = rating;
          comment = trim comment;
          correction = trim correction;
          created_at = now;
        }))

  unfoldable pub create_feedback : Text → Text → ℤ → Text → Text → Exec (Host W) (Unit {0})
  create_feedback session_id message_id rating comment correction =
      if null (trim session_id) || null (trim message_id)
      then raise (bad_request (codes "FEEDBACK_INVALID"))
      else do
        purging
        let zero_rating = leℤ rating (pos 0) && leℤ (pos 0) rating
        let send = send_feedback (trim session_id) (trim message_id) rating comment correction
        if zero_rating then raise (bad_request (codes "FEEDBACK_RATING_INVALID")) else send

  -- The two messages of one exchange.
  unfoldable pub exchange : Text → Text → Text → Text → Text → ℕ → Text → ℕ → List Message
  exchange session_id user_id assistant_id user_message answer confidence references now =
      record {
        id = user_id;
        tenant_id = [];
        session_id = session_id;
        role = codes "user";
        content = trim user_message;
        confidence = 0;
        references = [];
        created_at = now;
      }
      ∷ record {
        id = assistant_id;
        tenant_id = [];
        session_id = session_id;
        role = codes "assistant";
        content = trim answer;
        confidence = confidence;
        references = trim references;
        created_at = now;
      }
      ∷ []

  unfoldable pub write_exchange : Text → Text → Text → ℕ → Bool → Text → Exec (Host W) Text
  write_exchange session_id user_message answer confidence refused references = do
    now ← on_world (call uc.system.now)
    user_id ← on_world (call uc.system.new_uuid)
    assistant_id ← on_world (call uc.system.new_uuid)
    on_world (
        uc.repo.create_messages
          (exchange session_id user_id assistant_id user_message answer confidence references now))
    if refused then emit session_id (codes "refusal") [] now else pure tt
    pure user_id

  -- The session takes an exchange with the bot.
  unfoldable pub check_exchange : Text → Session → Result (Unit {0})
  check_exchange bot_id session =
      if not (null bot_id) && not (null session.bot_id) && not (bot_id == session.bot_id)
      then err (bad_request (codes "SESSION_BOT_MISMATCH"))
      else if session.status == status_closed
      then err (precondition (codes "SESSION_CLOSED"))
      else ok tt

  unfoldable pub record_rag_exchange :
      Text → Text → Text → Text → ℕ → Bool → Text → Exec (Host W) Text
  record_rag_exchange raw_id bot_id user_message answer confidence refused references =
      if null (trim raw_id) then pure [] else do
        purging
        session ← on_world (uc.repo.get_session (trim raw_id))
        _ ← λ h. (check_exchange bot_id session, h)
        write_exchange (trim raw_id) user_message answer confidence refused references

module _ ⦃u : Unicode⦄ {W M : Type 0} (uc : ConversationUsecase W M) where
  unfoldable pub write_close : Text → Text → Exec (Host W) (Unit {0})
  write_close session_id close_reason = do
    now ← on_world (call uc.system.now)
    on_world (uc.repo.close_session session_id (trim close_reason) now)
    emit uc session_id (codes "close") (trim close_reason) now
    let escalate = emit uc session_id (codes "escalation") (trim close_reason) now
    if is_escalation_reason close_reason then escalate else pure tt

  -- What is done with the session that was found.
  unfoldable pub close_found : Text → Text → Session → Exec (Host W) (Unit {0})
  close_found session_id close_reason session =
      if session.status == status_closed
      then pure tt
      else if not (can_close_session session.status)
      then raise (precondition (codes "SESSION_STATUS_INVALID"))
      else write_close session_id close_reason

  unfoldable pub close_session : Text → Text → Exec (Host W) (Unit {0})
  close_session raw_id close_reason = if null (trim raw_id) then raise session_missing else do
    purging uc
    session ← on_world (uc.repo.get_session (trim raw_id))
    close_found (trim raw_id) close_reason session
