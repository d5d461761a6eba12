-- ===== src/Documents/Operations.antt =====
-- The operations on knowledge bases and documents of apps/server/internal/knowledge/biz/knowledge.go
-- that check their input and pass it on.
use rago_desk.Base.{
  ℕ, Bool, ◌&&◌, ◌||◌, List, [], leb, ◌==◌, nat_eq, text_eq, if◌then◌else◌, null, Text, codes, trim,
  Exec, pure, raise, ◌>>=◌, ◌>>◌, bad_request, ℤ, pos, pos_part, ltℤ, leℤ,
}
use rago_desk.Documents.Types.{
  KnowledgeBase, BotKnowledgeBase, Document, DocumentVersion, Ctx, Done, KnowledgeRepo,
}

-- `weight <= 0` of the bit pattern of a float64: a zero, or a negative number that is no NaN.
unfoldable pub not_positive : ℕ → Bool
not_positive weight =
    weight == 0 || (leb 0x8000000000000000 weight && leb weight 0xfff0000000000000)

-- The bit pattern of 1.
abbrev pub one_float : ℕ
one_float = 0x3ff0000000000000

module _ {W : Type 0} (repo : KnowledgeRepo W) (ctx : Ctx) where
  unfoldable pub create_knowledge_base : KnowledgeBase → Exec W KnowledgeBase
  create_knowledge_base kb =
      if null (trim kb.name)
      then raise (bad_request (codes "KB_NAME_MISSING"))
      else repo.create_knowledge_base ctx (record kb { name = trim kb.name })

  unfoldable pub get_knowledge_base : Text → Exec W KnowledgeBase
  get_knowledge_base id =
      if null (trim id)
      then raise (bad_request (codes "KB_ID_MISSING"))
      else repo.get_knowledge_base ctx (trim id)

  unfoldable pub list_knowledge_bases : Exec W (List KnowledgeBase)
  list_knowledge_bases = repo.list_knowledge_bases ctx

  unfoldable pub list_documents : Text → ℤ → ℤ → Exec W (List Document)
  list_documents kb_id limit offset =
      repo.list_documents ctx (trim kb_id)
        (if leℤ limit (pos 0) || ltℤ (pos 200) limit then 50 else pos_part limit)
        (if ltℤ offset (pos 0) then 0 else pos_part offset)

  -- `if kbID != "" { … }`
  unfoldable pub check_kb : Text → Exec W Done
  check_kb kb_id =
      if null kb_id then pure tt else (repo.get_knowledge_base ctx kb_id >>= λ _. pure tt)

  unfoldable pub update_document_kb : Text → Text → Exec W Document
  update_document_kb document_id kb_id =
      if null (trim document_id)
      then raise (bad_request (codes "DOC_ID_MISSING"))
      else check_kb (trim kb_id) >> repo.update_document_kb ctx (trim document_id) (trim kb_id)

  unfoldable pub list_bot_knowledge_bases : Text → Exec W (List BotKnowledgeBase)
  list_bot_knowledge_bases bot_id =
      if null (trim bot_id)
      then raise (bad_request (codes "BOT_ID_MISSING"))
      else repo.list_bot_knowledge_bases ctx (trim bot_id)

  unfoldable pub update_knowledge_base : KnowledgeBase → Exec W KnowledgeBase
  update_knowledge_base kb =
      if null (trim kb.id)
      then raise (bad_request (codes "KB_ID_MISSING"))
      else if null (trim kb.name) && null (trim kb.description)
      then raise (bad_request (codes "KB_UPDATE_EMPTY"))
      else repo.update_knowledge_base ctx (record kb { id = trim kb.id; name = trim kb.name })

  unfoldable pub delete_knowledge_base : Text → Exec W Done
  delete_knowledge_base id =
      if null (trim id)
      then raise (bad_request (codes "KB_ID_MISSING"))
      else repo.delete_knowledge_base ctx (trim id)

  unfoldable pub delete_document : Text → Exec W Done
  delete_document id =
      if null (trim id)
      then raise (bad_request (codes "DOC_ID_MISSING"))
      else repo.delete_document ctx (trim id)

  unfoldable pub bind_bot_knowledge_base : Text → Text → ℕ → Exec W BotKnowledgeBase
  bind_bot_knowledge_base bot_id kb_id weight =
      let link : BotKnowledgeBase = record {
        id = [];
        tenant_id = [];
        bot_id = trim bot_id;
        kb_id = trim kb_id;
        weight = if not_positive weight then one_float else weight;
        created_at = 0;
      } in
      if null (trim bot_id)
      then raise (bad_request (codes "BOT_ID_MISSING"))
      else if null (trim kb_id)
      then raise (bad_request (codes "KB_ID_MISSING"))
      else repo.get_knowledge_base ctx (trim kb_id) >> repo.bind_bot_knowledge_base ctx link

  unfoldable pub unbind_bot_knowledge_base : Text → Text → Exec W Done
  unbind_bot_knowledge_base bot_id kb_id =
      if null (trim bot_id)
      then raise (bad_request (codes "BOT_ID_MISSING"))
      else if null (trim kb_id)
      then raise (bad_request (codes "KB_ID_MISSING"))
      else repo.unbind_bot_knowledge_base ctx (trim bot_id) (trim kb_id)

  -- The document and its versions.
  unfoldable pub get_document : Text → Exec W (Document × List DocumentVersion)
  get_document id =
      if null (trim id)
      then raise (bad_request (codes "DOC_ID_MISSING"))
      else (repo.get_document ctx (trim id) >>= λ doc.
          repo.list_document_versions ctx (trim id) >>= λ versions. pure (doc, versions))
