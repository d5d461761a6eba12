-- ===== src/Parsing/Blocks.antt =====
-- The blocks of a text in apps/server/internal/knowledge/biz/parsing.go.
use rago_desk.Base.{
  not, ◌&&◌, none, some, List, [], ◌∷◌, ◌++◌, ◌==◌, nat_eq, if◌then◌else◌, null, Text, codes, trim,
  split_lines, ltb, Unicode,
}
use rago_desk.Chunking.Sentences.{join}
use rago_desk.Chunking.Build.{DocumentBlock, DocumentMeta, format_int32}
use rago_desk.Parsing.Clean.{normalize_newlines, prepare_content_normalized}
use rago_desk.Parsing.Headings.{hash_heading, detect_heading, infer_title_from_blocks}

pub record ParsedDocument : Type 0 where
  pub meta : DocumentMeta
  pub blocks : List DocumentBlock

-- The blocks so far, the section and the title, and the lines of the open block.
pub record BlockState : Type 0 where
  pub blocks : List DocumentBlock
  pub section : Text
  pub title : Text
  pub buf : List Text

abbrev pub plain_block : Text → Text → DocumentBlock
plain_block text section = record { text = text; section = section; page_no = 0 }

abbrev pub start : BlockState
start = record { blocks = []; section = []; title = []; buf = [] }

unfoldable pub flush : BlockState → BlockState
flush s = if null s.buf then s else record s {
  blocks = s.blocks ++ plain_block (join (codes "\n") s.buf) s.section ∷ [];
  buf = [];
}

-- A heading closes the open block and names the section of those behind it.
unfoldable pub enter_section : Text → BlockState → BlockState
enter_section heading s = record (flush s) {
  section = heading;
  title = if null s.title then heading else s.title;
}

unfoldable pub keep_line : Text → BlockState → BlockState
keep_line line s = record s { buf = s.buf ++ line ∷ [] }

unfoldable pub markdown_line : BlockState → Text → BlockState
markdown_line s line =
    let heading = hash_heading (trim line) in
    if null heading then keep_line line s else enter_section heading s

module _ ⦃u : Unicode⦄ where
  unfoldable pub text_line : BlockState → Text → BlockState
  text_line s line = if null (trim line) then flush s else elim (detect_heading (trim line)) [
    | none ↦ keep_line line s
    | some heading ↦ enter_section heading s
  ]

unfoldable pub run_lines : (BlockState → Text → BlockState) → BlockState → List Text → BlockState
run_lines step s [] = flush s
run_lines step s (line ∷ lines) = run_lines step (step s line) lines

-- The blocks and the title.
unfoldable pub parse_markdown_blocks : Text → List DocumentBlock × Text
parse_markdown_blocks raw =
    let s = run_lines markdown_line start (split_lines raw) in
    (if null s.blocks then plain_block raw [] ∷ [] else s.blocks, s.title)

module _ ⦃u : Unicode⦄ where
  unfoldable pub split_text_blocks : Text → List DocumentBlock × Text
  split_text_blocks raw =
      let s = run_lines text_line start (split_lines (normalize_newlines raw)) in
      (
        if null s.blocks && not (null (trim raw)) then plain_block raw [] ∷ [] else s.blocks,
        s.title,
      )

unfoldable pub normalize_blocks : Text → List DocumentBlock → List DocumentBlock
normalize_blocks source_type [] = []
normalize_blocks source_type (block ∷ blocks) =
    let text = prepare_content_normalized source_type block.text in
    let rest = normalize_blocks source_type blocks in
    if null (trim text) then rest else record block { text = text } ∷ rest

unfoldable pub normalize_parsed_document : Text → ParsedDocument → ParsedDocument
normalize_parsed_document source_type doc = record doc {
  blocks = normalize_blocks source_type doc.blocks;
}

-- A page number is an int32, as its bit pattern.
unfoldable pub name_page : DocumentBlock → DocumentBlock
name_page block =
    if not (block.page_no == 0) && ltb block.page_no 0x80000000 && null (trim block.section)
    then record block { section = codes "Page " ++ format_int32 block.page_no }
    else block

unfoldable pub name_pages : List DocumentBlock → List DocumentBlock
name_pages [] = []
name_pages (block ∷ blocks) = name_page block ∷ name_pages blocks

module _ ⦃u : Unicode⦄ where
  unfoldable pub enrich_parsed_document : ParsedDocument → ParsedDocument
  enrich_parsed_document doc = record {
    meta = record (doc.meta) {
      title = if null doc.meta.title then infer_title_from_blocks doc.blocks else doc.meta.title;
    };
    blocks = name_pages doc.blocks;
  }
