-- ===== src/Parsing/Sources.antt =====
-- `parseDocument` and `fetchURLText` of apps/server/internal/knowledge/biz/parsing.go.
use rago_desk.Base.{
  ℕ, ◌||◌, Option, none, some, List, ltb, leb, ◌==◌, text_eq, if◌then◌else◌, null, Text, codes,
  trim, to_lower, contains_text, Unicode, Result, ok, err, Exec, raise, ◌>>=◌, bad_request,
}
use rago_desk.Chunking.Build.{DocumentMeta, DocumentBlock}
use rago_desk.Parsing.Clean.{strip_html_tags}
use rago_desk.Parsing.Blocks.{ParsedDocument, parse_markdown_blocks, split_text_blocks}
use rago_desk.Parsing.Formats.{FormatReaders, parse_doc_bytes, parse_docx_bytes, parse_pdf_blocks}

pub record Response : Type 0 where
  pub status_code : ℕ
  pub content_type : Text
  pub body : Text

-- The libraries: readers of formats; a URL as its scheme, host and normal form (`none` where it
-- does not parse); a GET with its timeout, whose body, cut to five megabytes, is read only behind a status of success; the text of the
-- bytes of a payload, and the bytes of a text.
pub record Fetcher (W : Type 0) : Type 0 where
  pub readers : FormatReaders
  pub parse_url : Text → Option (Text × Text × Text)
  pub get : Text → Exec W Response
  pub decode : Text → Text
  pub encode : Text → Text

unfoldable pub valid_url : Option (Text × Text × Text) → Option Text
valid_url none = none
valid_url (some (scheme, host, whole)) = if null scheme || null host then none else some whole

module _ ⦃u : Unicode⦄ {W : Type 0} (f : Fetcher W) where
  unfoldable pub response_text : Response → Result Text
  response_text r =
      if ltb r.status_code 200 || leb 300 r.status_code
      then err (bad_request (codes "DOC_URL_FETCH_FAILED"))
      else if contains_text (codes "text/html") (to_lower r.content_type)
      then ok (strip_html_tags r.body)
      else ok r.body

  unfoldable pub fetch_from : Option Text → Exec W Text
  fetch_from none = raise (bad_request (codes "DOC_URL_INVALID"))
  fetch_from (some whole) = do response ← f.get whole; λ w. (response_text response, w)

  unfoldable pub fetch_url_text : Text → Exec W Text
  fetch_url_text raw =
      if null (trim raw)
      then raise (bad_request (codes "DOC_URL_EMPTY"))
      else fetch_from (valid_url (f.parse_url (trim raw)))

  -- `if doc.Meta.Title == "" { doc.Meta.Title = title }`
  unfoldable pub titled : DocumentMeta → List DocumentBlock × Text → ParsedDocument
  titled meta (blocks, title) = record {
    meta = record meta { title = if null meta.title then title else meta.title };
    blocks = blocks;
  }

  unfoldable pub from_text : DocumentMeta → Result Text → Result ParsedDocument
  from_text meta (err e) = err e
  from_text meta (ok text) = ok (titled meta (split_text_blocks text))

  unfoldable pub from_blocks : DocumentMeta → Result (List DocumentBlock) → Result ParsedDocument
  from_blocks meta (err e) = err e
  from_blocks meta (ok blocks) = ok (record { meta = meta; blocks = blocks })

  unfoldable pub parse_bytes : Text → Text → DocumentMeta → Result ParsedDocument
  parse_bytes source_type raw meta =
      if source_type == codes "doc"
      then from_text meta (parse_doc_bytes f.readers raw)
      else if source_type == codes "docx"
      then from_text meta (parse_docx_bytes f.readers raw)
      else if source_type == codes "pdf"
      then from_blocks meta (parse_pdf_blocks f.readers raw)
      else if source_type == codes "markdown"
      then ok (titled meta (parse_markdown_blocks (f.decode raw)))
      else if source_type == codes "html"
      then ok (titled meta (split_text_blocks (strip_html_tags (f.decode raw))))
      else ok (titled meta (split_text_blocks (f.decode raw)))

  unfoldable pub parse_document : Text → Text → DocumentMeta → Exec W ParsedDocument
  parse_document source_type raw meta w =
      let (text, w') = fetch_url_text (trim (f.decode raw)) w in
      if source_type == codes "url"
      then (from_text meta text, w')
      else (parse_bytes source_type raw meta, w)
