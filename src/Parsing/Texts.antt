-- ===== src/Parsing/Texts.antt =====
-- What the blocks of a text hold, of apps/server/internal/knowledge/biz/parsing.go.
use rago_desk.Base.{
  ◌≡◌, ◌≢◌, refl, sym, ap, ◌∙◌, inl, inr, List, [], ◌∷◌, ◌++◌, append_assoc, append-nil, nat_eq,
  if◌then◌else◌, null, Text, trim, split_lines, All, All-append, Bool-cases,
}
use rago_desk.Chunking.Sentences.{join}
use rago_desk.Chunking.Build.{DocumentBlock}
use rago_desk.Parsing.Headings.{hash_heading}
use rago_desk.Parsing.Blocks.{
  BlockState, start, flush, enter_section, keep_line, markdown_line, run_lines,
  parse_markdown_blocks,
}
use rago_desk.Parsing.Lines.{OneLine, newline, split_lines-OneLine, split_lines-join}

-- The lines that are no headings.
abbrev pub body_lines : List Text → List Text
body_lines [] = []
body_lines (line ∷ lines) =
    let rest = body_lines lines in if null (hash_heading (trim line)) then line ∷ rest else rest

-- The lines of the texts of blocks.
abbrev pub block_lines : List DocumentBlock → List Text
block_lines [] = []
block_lines (block ∷ blocks) = split_lines block.text ++ block_lines blocks

block_lines-append :
    (bs cs : List DocumentBlock) → block_lines (bs ++ cs) ≡ block_lines bs ++ block_lines cs
block_lines-append [] cs = refl
block_lines-append (b ∷ bs) cs =
    ap (λ x. split_lines b.text ++ x) (block_lines-append bs cs)
    ∙ sym (append_assoc (split_lines b.text) (block_lines bs) (block_lines cs))

-- The lines that a state has taken in.
abbrev taken : BlockState → List Text
taken s = block_lines s.blocks ++ s.buf

closed_at :
    (s : BlockState) (buf : List Text)
    → s.buf ≡ buf
    → All OneLine buf
    → (block_lines (flush s).blocks ≡ block_lines s.blocks ++ buf) × ((flush s).buf ≡ [])
unfolding flush
closed_at s [] p h = rw p (sym (append-nil _), refl)
closed_at s (l ∷ buf) p h = rw p (
  block_lines-append s.blocks _
      ∙ ap (λ x. block_lines s.blocks ++ x)
          (append-nil (split_lines (join newline (l ∷ buf))) ∙ split_lines-join l buf h),
  refl,
)

-- A state after one more line.
markdown_line-taken :
    (s : BlockState) (line : Text)
    → All OneLine s.buf
    → OneLine line
    → (taken (markdown_line s line) ≡ taken s ++ body_lines (line ∷ []))
      × All OneLine (markdown_line s line).buf
unfolding markdown_line enter_section keep_line
markdown_line-taken s line h hl = elim (Bool-cases (null (hash_heading (trim line)))) [
  | inl e ↦ rw e (
    sym (append_assoc (block_lines s.blocks) s.buf (line ∷ [])),
    All-append OneLine s.buf (line ∷ []) h (hl, tt),
  )
  | inr e ↦ let (kept, empty) = closed_at s s.buf refl h in rw (e, kept, empty) (refl, tt)
]

body_lines-cons :
    (line : Text) (lines : List Text)
    → body_lines (line ∷ lines) ≡ body_lines (line ∷ []) ++ body_lines lines
body_lines-cons line lines = elim (Bool-cases (null (hash_heading (trim line)))) [
  | inl e ↦ rw e refl
  | inr e ↦ rw e refl
]

run_lines-taken :
    (s : BlockState) (lines : List Text)
    → All OneLine s.buf
    → All OneLine lines
    → block_lines (run_lines markdown_line s lines).blocks ≡ taken s ++ body_lines lines
unfolding run_lines
run_lines-taken s [] h _ = (closed_at s s.buf refl h).0 ∙ sym (append-nil (taken s))
run_lines-taken s (line ∷ lines) h (hl, rest) =
    let (step, lines_ok) = markdown_line-taken s line h hl in
    run_lines-taken (markdown_line s line) lines lines_ok rest
    ∙ ap (λ x. x ++ body_lines lines) step
    ∙ append_assoc (taken s) (body_lines (line ∷ [])) (body_lines lines)
    ∙ ap (λ x. taken s ++ x) (sym (body_lines-cons line lines))

or_whole :
    (raw : Text) (blocks : List DocumentBlock) (lines : List Text)
    → block_lines blocks ≡ lines
    → lines ≢ []
    → block_lines
        (if null blocks then record { text = raw; section = []; page_no = 0 } ∷ [] else blocks)
      ≡ lines
or_whole raw [] lines p h = absurd (h (sym p))
or_whole raw (b ∷ blocks) lines p h = p

-- Where a Markdown text has a line that is no heading, the lines of its blocks, one block after the
-- other, are all its lines that are no headings, in their order.
pub parse_markdown_blocks-keeps :
    (raw : Text)
    → body_lines (split_lines raw) ≢ []
    → block_lines (parse_markdown_blocks raw).0 ≡ body_lines (split_lines raw)
unfolding parse_markdown_blocks
parse_markdown_blocks-keeps raw =
    or_whole raw _ _ (run_lines-taken start (split_lines raw) tt (split_lines-OneLine raw))
