-- ===== src/Documents/Repo.antt =====
-- `KnowledgeRepo` of apps/server/internal/knowledge/biz/knowledge.go as the statements of
-- apps/server/internal/knowledge/data/knowledge.go fill it.
use rago_desk.Documents.Types.{KnowledgeRepo}
use rago_desk.Documents.Tables.{Store, Services}
use rago_desk.Documents.Bases
use rago_desk.Documents.Statements
use rago_desk.Documents.Index

unfoldable pub knowledge_repo : {W : Type 0} → Services W → KnowledgeRepo (Store W)
knowledge_repo services = record {
  create_knowledge_base = Bases.insert_base services;
  get_knowledge_base = Bases.get_base services;
  list_knowledge_bases = Bases.list_bases services;
  update_knowledge_base = Bases.update_base services;
  delete_knowledge_base = Bases.delete_base services;
  create_document = Statements.insert_document services;
  get_document = Statements.get_row services;
  update_document_index_state = Statements.update_index_state services;
  create_document_version = Statements.insert_version services;
  get_document_version = Statements.get_version services;
  get_document_version_by_number = Statements.get_version_by_number services;
  list_document_versions = Statements.list_versions services;
  update_document_version_status = Statements.update_version_status services;
  load_document_content = Index.load_content services;
  put_document_object = Index.put_object services;
  index_document_version = Index.index_version services;
  delete_document_version_index = Index.delete_version_index services;
  rollback_document = Statements.roll_back services;
  list_documents = Statements.page_rows services;
  update_document_kb = Statements.update_kb services;
  delete_document = Index.delete_row services;
  list_bot_knowledge_bases = Bases.list_links services;
  bind_bot_knowledge_base = Bases.insert_link services;
  unbind_bot_knowledge_base = Bases.delete_link services;
}
