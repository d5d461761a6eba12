-- ===== src/Parsing/Pages.antt =====
-- The pages of a PDF and the tags of HTML, of apps/server/internal/knowledge/biz/parsing.go.
use rago_desk.Base.{
  ℕ, suc, ◌-◌, ◌≤◌, ◌≡◌, ◌∙◌, refl, sym, ap, inl, inr, true, false, some, List, [], ◌∷◌, ◌++◌,
  append-nil, ◌==◌, nat_eq, null, get_elem?, Has, Text, trim, All, Bool-cases, arith,
}
use rago_desk.Chunking.Build.{DocumentBlock}
use rago_desk.Parsing.Clean.{strip_tags_from, strip_html_tags}
use rago_desk.Parsing.Formats.{PdfPage, no_contents, page_text, page_error, page_blocks}

-- The block is the text of the page with its number, in a document whose first page has number `i`.
abbrev pub IsPageFrom : ℕ → List PdfPage → DocumentBlock → Type 0
IsPageFrom i pages b =
    (i ≤ b.page_no)
    × (get_elem? pages (b.page_no - i) ≡ some (page_text b.text))
    × (null (trim b.text) ≡ false)

sub_self : (i : ℕ) → i - i ≡ 0
sub_self i = omega arith

number_back : (i n : ℕ) → suc i ≤ n → n - i ≡ suc (n - suc i)
number_back i n le = omega (arith, le)

one_later :
    (i : ℕ) (page : PdfPage) (pages : List PdfPage) (b : DocumentBlock)
    → IsPageFrom (suc i) pages b
    → IsPageFrom i (page ∷ pages) b
one_later i page pages b (le, at, full) =
    (omega (arith, le), rw (number_back i b.page_no le) at, full)

page_here :
    (i : ℕ) (text : Text) (pages : List PdfPage) (b : DocumentBlock)
    → null (trim text) ≡ false
    → (Has b (page_blocks (suc i) pages).0 → IsPageFrom (suc i) pages b)
    → Has b (record { text = text; section = []; page_no = i } ∷ (page_blocks (suc i) pages).0)
    → IsPageFrom i (page_text text ∷ pages) b
page_here i text pages b full later (inr k) = one_later i (page_text text) pages b (later k)
page_here i text pages b full later (inl p) = rw (p, sub_self i) (omega arith, refl, full)

-- Every block of the pages of a PDF holds the text of a page, which is not blank, and has that page's
-- number.
pub page_blocks-IsPageFrom :
    (i : ℕ) (pages : List PdfPage) (b : DocumentBlock)
    → Has b (page_blocks i pages).0
    → IsPageFrom i pages b
unfolding page_blocks
page_blocks-IsPageFrom i [] b h = absurd h
page_blocks-IsPageFrom i (no_contents ∷ pages) b h =
    one_later i no_contents pages b (page_blocks-IsPageFrom (suc i) pages b h)
page_blocks-IsPageFrom i (page_error e ∷ pages) b h =
    one_later i (page_error e) pages b (page_blocks-IsPageFrom (suc i) pages b h)
page_blocks-IsPageFrom i (page_text text ∷ pages) b h =
    (elim (Bool-cases (null (trim text)))
        as (λ _.
          Has b (page_blocks i (page_text text ∷ pages)).0
          → IsPageFrom i (page_text text ∷ pages) b) [
            | inl e ↦ rw e (λ k.
                one_later i (page_text text) pages b (page_blocks-IsPageFrom (suc i) pages b k))
            | inr e ↦ rw e (page_here i text pages b e (page_blocks-IsPageFrom (suc i) pages b))
          ])
      h

-- A text without an angle bracket, and HTML: texts with a tag behind each, and a last text.
abbrev pub NoBracket : Text → Type 0
NoBracket = All (λ r. ((r == b'<') ≡ false) × ((r == b'>') ≡ false))

abbrev pub Plain : List (Text × Text) → Type 0
Plain = All (λ piece. NoBracket piece.0 × NoBracket piece.1)

unfoldable pub written : List (Text × Text) → Text → Text
written [] last = last
written ((text, tag) ∷ pieces) last = text ++ b'<' ∷ (tag ++ b'>' ∷ written pieces last)

-- The texts, with two spaces in the place of each tag.
unfoldable pub shown : List (Text × Text) → Text → Text
shown [] last = last
shown ((text, tag) ∷ pieces) last = text ++ 32 ∷ 32 ∷ shown pieces last

strip_text :
    (text rest : Text)
    → NoBracket text
    → strip_tags_from false (text ++ rest) ≡ text ++ strip_tags_from false rest
unfolding strip_tags_from
strip_text [] rest h = refl
strip_text (r ∷ text) rest ((no_open, no_close), h) =
    rw (strip_tags_from, no_open, no_close) (ap (λ s. r ∷ s) (strip_text text rest h))

strip_tag :
    (tag rest : Text)
    → NoBracket tag
    → strip_tags_from true (tag ++ b'>' ∷ rest) ≡ 32 ∷ strip_tags_from false rest
unfolding strip_tags_from
strip_tag [] rest h = refl
strip_tag (r ∷ tag) rest ((no_open, no_close), h) =
    rw (strip_tags_from, no_open, no_close) (strip_tag tag rest h)

-- Of HTML whose texts and tags have no angle brackets of their own, what is left are its texts, in order
-- and whole, with two spaces in the place of each tag.
pub strip_html_tags-written :
    (pieces : List (Text × Text)) (last : Text)
    → Plain pieces
    → NoBracket last
    → strip_html_tags (written pieces last) ≡ shown pieces last
unfolding strip_html_tags written shown strip_tags_from
strip_html_tags-written [] last plain h =
    ap (strip_tags_from false) (sym (append-nil last)) ∙ strip_text last [] h ∙ append-nil last
strip_html_tags-written ((text, tag) ∷ pieces) last ((ht, hg), plain) h =
    strip_text text (b'<' ∷ (tag ++ b'>' ∷ written pieces last)) ht
    ∙ ap (λ s. text ++ 32 ∷ s)
        (strip_tag tag (written pieces last) hg
          ∙ ap (λ s. 32 ∷ s) (strip_html_tags-written pieces last plain h))
