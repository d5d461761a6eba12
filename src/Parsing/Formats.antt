-- ===== src/Parsing/Formats.antt =====
-- The texts of binary formats in apps/server/internal/knowledge/biz/parsing.go. A payload is a list
-- of bytes. The readers of zip, XML and PDF are libraries: what they find is a parameter.
use rago_desk.Base.{
  ℕ, suc, ◌+◌, ◌*◌, ◌-◌, Bool, true, false, ◌&&◌, ◌||◌, Option, none, some, List, [], ◌∷◌, ◌++◌,
  ltb, leb, ◌==◌, nat_eq, text_eq, if◌then◌else◌, null, length, Text, codes, trim, is_space,
  Unicode, Error, Result, ok, err, bad_request,
}
use rago_desk.Chunking.Sentences.{join}
use rago_desk.Chunking.Build.{DocumentBlock}
use rago_desk.Parsing.Clean.{clean_content}
use rago_desk.Parsing.Blocks.{split_text_blocks}

-- The length in bytes of a text in UTF-8.
unfoldable pub byte_length : Text → ℕ
byte_length [] = 0
byte_length (r ∷ s) =
    (if ltb r 0x80 then 1 else if ltb r 0x800 then 2 else if ltb r 0x10000 then 3 else 4)
    + byte_length s

unfoldable pub looks_like_zip : Text → Bool
looks_like_zip (a ∷ b ∷ c ∷ d ∷ rest) = a == b'P' && b == b'K' && c == 3 && d == 4
looks_like_zip _ = false

-- Runs of printable ASCII of three bytes at least; `buf` is the open run.
unfoldable pub close_run : Text → List Text → List Text
close_run buf later = if leb 3 (length buf) then buf ∷ later else later

unfoldable pub ascii_runs : Text → Text → List Text
ascii_runs buf [] = close_run buf []
ascii_runs buf (b ∷ payload) =
    let more = ascii_runs (buf ++ b ∷ []) payload in
    let cut = ascii_runs [] payload in if leb 32 b && ltb b 127 then more else close_run buf cut

unfoldable pub extract_ascii_text : Text → Text
extract_ascii_text payload = join (codes " ") (ascii_runs [] payload)

-- The code units in little endian; a last single byte is left out.
unfoldable pub code_units : Text → List ℕ
code_units [] = []
code_units (a ∷ []) = []
code_units (a ∷ b ∷ payload) = (a + 256 * b) ∷ code_units payload

-- utf16.Decode
unfoldable pub decode_utf16 : List ℕ → Text
decode_utf16 [] = []
decode_utf16 (a ∷ []) = (if leb 0xd800 a && ltb a 0xe000 then 0xfffd else a) ∷ []
decode_utf16 (a ∷ b ∷ units) =
    let rest = decode_utf16 units in
    let one = decode_utf16 (b ∷ units) in
    if leb 0xd800 a && ltb a 0xdc00 && leb 0xdc00 b && ltb b 0xe000
    then ((a - 0xd800) * 0x400 + (b - 0xdc00) + 0x10000) ∷ rest
    else (if leb 0xd800 a && ltb a 0xe000 then 0xfffd else a) ∷ one

module _ ⦃u : Unicode⦄ where
  -- `last_space` tells whether the text before ends with a space.
  unfoldable pub printable_from : Bool → Text → Text
  printable_from last_space [] = []
  printable_from last_space (r ∷ s) =
      let same = printable_from last_space s in
      let spaced = printable_from true s in
      let printed = printable_from false s in
      if r == 0 || r == 0xfffd
      then same
      else if is_space r
      then (if last_space then spaced else 32 ∷ spaced)
      else if u.is_print r
      then r ∷ printed
      else same

  unfoldable pub filter_printable : Text → Text
  filter_printable runes = trim (printable_from false runes)

  unfoldable pub extract_utf16_text : Text → Text
  extract_utf16_text payload =
      if ltb (length payload) 4 then [] else filter_printable (decode_utf16 (code_units payload))

  unfoldable pub extract_doc_binary_text : Text → Text
  extract_doc_binary_text payload =
      let utf16_text = extract_utf16_text payload in
      let ascii_text = extract_ascii_text payload in
      if leb (byte_length ascii_text) (byte_length utf16_text) then utf16_text else ascii_text

-- The tokens of word/document.xml: a `t` with its text, an end of a `p`, others, and a broken one.
pub data XmlToken : Type 0 where
  text_element : Text → XmlToken
  paragraph_end : XmlToken
  other_token : XmlToken
  broken : Error → XmlToken

unfoldable pub docx_text : List XmlToken → Text → Result Text
docx_text [] out = ok out
docx_text (text_element t ∷ tokens) out =
    docx_text tokens (if null t then out else out ++ t ++ codes " ")
docx_text (paragraph_end ∷ tokens) out = docx_text tokens (out ++ codes "\n")
docx_text (other_token ∷ tokens) out = docx_text tokens out
docx_text (broken e ∷ tokens) out = err e

-- A page of a PDF: without contents, with a text, or with one that cannot be read.
pub data PdfPage : Type 0 where
  no_contents : PdfPage
  page_text : Text → PdfPage
  page_error : Error → PdfPage

-- `read_docx` opens the zip and its word/document.xml, cut to five megabytes (`none`: there is
-- none); `read_pdf` opens the PDF, whose panics count as errors.
pub record FormatReaders : Type 0 where
  pub read_docx : Text → Result (Option (List XmlToken))
  pub read_pdf : Text → Result (List PdfPage)

module _ (readers : FormatReaders) where
  unfoldable pub found_xml : Result (Option (List XmlToken)) → Result Text
  found_xml (err e) = err e
  found_xml (ok none) = err (bad_request (codes "DOCX_XML_MISSING"))
  found_xml (ok (some tokens)) = docx_text tokens []

  unfoldable pub parse_docx_bytes : Text → Result Text
  parse_docx_bytes payload =
      if null payload
      then err (bad_request (codes "DOCX_CONTENT_EMPTY"))
      else found_xml (readers.read_docx payload)

  module _ ⦃u : Unicode⦄ where
    unfoldable pub parse_doc_bytes : Text → Result Text
    parse_doc_bytes payload =
        let text = extract_doc_binary_text payload in
        if null payload
        then err (bad_request (codes "DOC_CONTENT_EMPTY"))
        else if looks_like_zip payload
        then parse_docx_bytes payload
        else if null (trim text)
        then err (bad_request (codes "DOC_PARSE_FAILED"))
        else ok text

-- The blocks of the pages from number `i` on, and the first error.
unfoldable pub page_blocks : ℕ → List PdfPage → List DocumentBlock × Option Error
page_blocks i [] = ([], none)
page_blocks i (page ∷ pages) =
    let (blocks, later) = page_blocks (suc i) pages in
    elim page [
      | no_contents ↦ (blocks, later)
      | page_text text ↦
          if null (trim text)
          then (blocks, later)
          else (record { text = text; section = []; page_no = i } ∷ blocks, later)
      | page_error e ↦ (blocks, some e)
    ]

unfoldable pub pages_or_error : List DocumentBlock × Option Error → Result (List DocumentBlock)
pages_or_error ([], none) = ok []
pages_or_error ([], some e) = err e
pages_or_error (b ∷ blocks, first) = ok (b ∷ blocks)

module _ (readers : FormatReaders) where
  unfoldable pub read_pages : Result (List PdfPage) → Result (List DocumentBlock)
  read_pages (err e) = err e
  read_pages (ok pages) = pages_or_error (page_blocks 1 pages)

  unfoldable pub parse_pdf_blocks_plain : Text → Result (List DocumentBlock)
  parse_pdf_blocks_plain payload =
      if null payload
      then err (bad_request (codes "PDF_CONTENT_EMPTY"))
      else read_pages (readers.read_pdf payload)

module _ ⦃u : Unicode⦄ where
  unfoldable pub parse_pdf_text_blocks : Text → List DocumentBlock
  parse_pdf_text_blocks text =
      let cleaned = clean_content text in
      if null (trim cleaned) then [] else (split_text_blocks cleaned).0

  unfoldable pub parse_pdf_fallback_blocks : Text → List DocumentBlock
  parse_pdf_fallback_blocks payload =
      let text = extract_utf16_text payload in
      let ascii = extract_ascii_text payload in
      if null payload
      then []
      else parse_pdf_text_blocks
          (if ltb (byte_length text) (byte_length ascii) then ascii else text)

  unfoldable pub or_fallback :
      List DocumentBlock → Result (List DocumentBlock) → Result (List DocumentBlock)
  or_fallback fallback (ok (b ∷ blocks)) = ok (b ∷ blocks)
  or_fallback [] _ = err (bad_request (codes "PDF_PARSE_FAILED"))
  or_fallback (f ∷ fallback) _ = ok (f ∷ fallback)

  unfoldable pub parse_pdf_blocks : FormatReaders → Text → Result (List DocumentBlock)
  parse_pdf_blocks readers payload =
      or_fallback (parse_pdf_fallback_blocks payload) (parse_pdf_blocks_plain readers payload)
