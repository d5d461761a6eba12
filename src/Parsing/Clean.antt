-- ===== src/Parsing/Clean.antt =====
-- The cleaning of texts in apps/server/internal/knowledge/biz/parsing.go.
use rago_desk.Base.{
  Bool, true, false, not, ◌&&◌, ◌||◌, List, [], ◌∷◌, ◌==◌, nat_eq, text_eq, if◌then◌else◌, any, map,
  drop, Text, codes, trim, to_lower, has_prefix, contains_text, split_lines, fields_from,
  replace_pair, drop_while, Unicode,
}
use rago_desk.Chunking.Sentences.{join}

unfoldable pub normalize_source_type : ⦃u : Unicode⦄ → Text → Text
normalize_source_type source_type =
    let value = to_lower (trim source_type) in
    let one_of = any (λ name. value == name) in
    if one_of ([] ∷ codes "text" ∷ codes "plain" ∷ codes "txt" ∷ [])
    then codes "text"
    else if one_of (codes "md" ∷ codes "markdown" ∷ [])
    then codes "markdown"
    else if one_of (codes "html" ∷ codes "htm" ∷ [])
    then codes "html"
    else if one_of (codes "doc" ∷ codes "docx" ∷ [])
    then codes "doc"
    else if value == codes "pdf"
    then codes "pdf"
    else if one_of (codes "url" ∷ codes "link" ∷ [])
    then codes "url"
    else value

-- "\r\n" and then "\r" become "\n".
unfoldable pub normalize_newlines : Text → Text
normalize_newlines s = map (λ c. if c == 13 then 10 else c) (replace_pair 13 10 (10 ∷ []) s)

unfoldable pub squeeze : Text → Text
squeeze line = join (codes " ") (fields_from [] line)

unfoldable pub clean_content : Text → Text
clean_content [] = []
clean_content (c ∷ s) =
    trim (join (codes "\n") (map squeeze (split_lines (normalize_newlines (c ∷ s)))))

-- `in_tag` tells whether the text stands behind a `<`.
unfoldable pub strip_tags_from : Bool → Text → Text
strip_tags_from in_tag [] = []
strip_tags_from in_tag (r ∷ s) =
    let inside = strip_tags_from true s in
    let outside = strip_tags_from false s in
    let same = strip_tags_from in_tag s in
    if r == b'<'
    then 32 ∷ inside
    else if r == b'>'
    then 32 ∷ outside
    else if in_tag
    then same
    else r ∷ same

unfoldable pub strip_html_tags : Text → Text
strip_html_tags s = strip_tags_from false s

-- `if strings.HasPrefix(line, ">") { … }`, and the same for headings and list items.
unfoldable pub strip_quote : Text → Text
strip_quote line = if has_prefix (codes ">") line then trim (drop 1 line) else line

unfoldable pub strip_heading : Text → Text
strip_heading line =
    if has_prefix (codes "#") line then trim (drop_while (λ c. c == b'#') line) else line

unfoldable pub strip_item : Text → Text
strip_item line =
    if has_prefix (codes "- ") line || has_prefix (codes "* ") line || has_prefix (codes "+ ") line
    then trim (drop 2 line)
    else line

unfoldable pub remove_backticks : Text → Text
remove_backticks [] = []
remove_backticks (c ∷ s) = let rest = remove_backticks s in if c == 0x60 then rest else c ∷ rest

unfoldable pub strip_markdown_line : Text → Text
strip_markdown_line line =
    let bare =
      strip_item (strip_heading (strip_quote (drop_while (λ c. c == 32 || c == 9) line))) in
    remove_backticks (replace_pair b'_' b'_' [] (replace_pair b'*' b'*' [] bare))

unfoldable pub strip_markdown_lines : Bool → List Text → List Text
strip_markdown_lines in_code [] = []
strip_markdown_lines in_code (line ∷ lines) =
    let fence = has_prefix (codes "```") (trim line) in
    let toggled = strip_markdown_lines (not in_code) lines in
    let rest = strip_markdown_lines in_code lines in
    if fence then toggled else if in_code then line ∷ rest else strip_markdown_line line ∷ rest

unfoldable pub strip_markdown : Text → Text
strip_markdown [] = []
strip_markdown (c ∷ s) = join (codes "\n") (strip_markdown_lines false (split_lines (c ∷ s)))

unfoldable pub prepare_content_normalized : Text → Text → Text
prepare_content_normalized source_type content =
    if source_type == codes "markdown"
    then clean_content (strip_markdown content)
    else if source_type == codes "html" && contains_text (codes "<") content
    then clean_content (strip_html_tags content)
    else clean_content content
