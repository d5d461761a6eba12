-- ===== src/Parsing/Examples.antt =====
-- The theorems on parsing at concrete texts.
use rago_desk.Base.{
  ◌≡◌, ◌≢◌, refl, inl, some, List, [], ◌∷◌, Text, codes, split_lines, trim, drop_while, has_prefix,
  ascii,
}
use rago_desk.Chunking.Build.{DocumentBlock}
use rago_desk.Chunking.Sentences.{join}
use rago_desk.Iam.Permissions.{cut_suffix}
use rago_desk.Parsing.Clean.{strip_html_tags, strip_tags_from}
use rago_desk.Parsing.Headings.{
  hash_heading, detect_heading, numbered_heading, skip_groups, skip_mark, spaced_rest,
  is_ascii_space, is_ascii_digit, is_all_caps_heading, count_letters,
}
use rago_desk.Parsing.Blocks.{
  parse_markdown_blocks, run_lines, markdown_line, enter_section, keep_line, flush,
}
use rago_desk.Parsing.Texts.{block_lines, body_lines, parse_markdown_blocks-keeps}
use rago_desk.Parsing.Formats.{PdfPage, no_contents, page_text, page_blocks}
use rago_desk.Parsing.Pages.{
  IsPageFrom, page_blocks-IsPageFrom, written, shown, strip_html_tags-written,
}

abbrev manual : Text
manual = codes "# Use\nfirst\nsecond\n## Care\nthird"

body : body_lines (split_lines manual) ≡ codes "first" ∷ codes "second" ∷ codes "third" ∷ []
unfolding split_lines hash_heading trim drop_while has_prefix
body = refl

some_body : body_lines (split_lines manual) ≢ []
some_body = λ p. cc (p, body)

parse_markdown_blocks-keeps_example :
    block_lines (parse_markdown_blocks manual).0 ≡ body_lines (split_lines manual)
parse_markdown_blocks-keeps_example = parse_markdown_blocks-keeps manual some_body

-- The sections of the blocks.
abbrev sections : List DocumentBlock → List Text
sections [] = []
sections (b ∷ blocks) = b.section ∷ sections blocks

sections_of_manual : sections (parse_markdown_blocks manual).0 ≡ codes "Use" ∷ codes "Care" ∷ []
unfolding parse_markdown_blocks run_lines markdown_line enter_section keep_line flush split_lines
    hash_heading trim drop_while has_prefix join
sections_of_manual = refl

abbrev pages : List PdfPage
pages = no_contents ∷ page_text (codes "two") ∷ []

abbrev second : DocumentBlock
second = record { text = codes "two"; section = []; page_no = 2 }

page_blocks-IsPageFrom_example : IsPageFrom 1 pages second
unfolding page_blocks trim
page_blocks-IsPageFrom_example = page_blocks-IsPageFrom 1 pages second (inl refl)

abbrev bold : List (Text × Text)
bold = (codes "a ", codes "b") ∷ (codes "c", codes "/b") ∷ []

strip_html_tags-written_example :
    strip_html_tags (written bold (codes " d")) ≡ shown bold (codes " d")
strip_html_tags-written_example =
    strip_html_tags-written bold (codes " d")
      (
        (((refl, refl), ((refl, refl), tt)), ((refl, refl), tt)),
        ((((refl, refl), tt), ((refl, refl), ((refl, refl), tt))), tt),
      )
      ((refl, refl), ((refl, refl), tt))

stripped : strip_html_tags (codes "<b>x</b>") ≡ codes "  x  "
unfolding strip_html_tags strip_tags_from
stripped = refl

numbered : detect_heading ⦃u = ascii⦄ (codes "1.2) Safety") ≡ some (codes "Safety")
unfolding detect_heading numbered_heading skip_groups skip_mark spaced_rest is_ascii_space
    is_ascii_digit hash_heading trim drop_while has_prefix cut_suffix
numbered = refl

capitals : detect_heading ⦃u = ascii⦄ (codes "SAFETY FIRST") ≡ some (codes "SAFETY FIRST")
unfolding detect_heading numbered_heading skip_groups skip_mark spaced_rest is_ascii_space
    is_ascii_digit hash_heading trim drop_while has_prefix cut_suffix is_all_caps_heading
    count_letters
capitals = refl
