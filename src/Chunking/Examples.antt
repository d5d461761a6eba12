-- ===== src/Chunking/Examples.antt =====
-- The chunking theorems at concrete texts.
use rago_desk.Base.{◌≡◌, refl, ◌≤◌, List, [], ◌∷◌, pos, codes, Text, ascii, All}
use rago_desk.Chunking.Tokens.{estimate_token_count, tokenize_spans, scan, is_cjk, is_word}
use rago_desk.Chunking.Build.{DocumentMeta, DocumentBlock, ChunkEnv, build_chunks}
use rago_desk.Chunking.Spans.{AllAt}
use rago_desk.Chunking.Invariant.{ChunkFits, Numbered}
use rago_desk.Chunking.Promises.{
  size_of, chunk_total, block_total, build_chunks-Fit, build_chunks-Numbered,
  build_chunks-keeps_tokens, build_chunks-exact,
}

-- Hashes that keep the text.
abbrev env : ChunkEnv
env = record { uuid_sha1 = λ s. s; sha256_hex = λ s. s; clock = λ i. i }

abbrev manual : DocumentMeta
manual = record {
  title = codes "Manual";
  source_uri = codes "/manual.md";
  source_type = codes "md";
}

abbrev pages : List DocumentBlock
pages =
    record { text = codes "Turn it on. Wait for the light."; section = codes "Start"; page_no = 1 }
    ∷ record { text = codes "Turn it off!"; section = codes "End"; page_no = 2 }
    ∷ []

abbrev sample : Text
sample = codes "one two, three four five"

sample_tokens : estimate_token_count ⦃u = ascii⦄ sample ≡ 5
unfolding estimate_token_count tokenize_spans scan is_cjk is_word
sample_tokens = refl

build_chunks-Fit_example :
    All
      (ChunkFits ⦃u = ascii⦄ (size_of (pos 100)))
      (build_chunks ⦃u = ascii⦄ env pages manual (codes "v1") (pos 100) (pos 20))
build_chunks-Fit_example =
    build_chunks-Fit ⦃u = ascii⦄ env pages manual (codes "v1") (pos 100) (pos 20)

build_chunks-Numbered_example :
    AllAt
      (Numbered ⦃u = ascii⦄ env (codes "v1"))
      0
      (build_chunks ⦃u = ascii⦄ env pages manual (codes "v1") (pos 100) (pos 20))
build_chunks-Numbered_example =
    build_chunks-Numbered ⦃u = ascii⦄ env pages manual (codes "v1") (pos 100) (pos 20)

build_chunks-keeps_tokens_example :
    block_total ⦃u = ascii⦄ pages
    ≤ chunk_total ⦃u = ascii⦄
        (build_chunks ⦃u = ascii⦄ env pages manual (codes "v1") (pos 100) (pos 20))
build_chunks-keeps_tokens_example =
    build_chunks-keeps_tokens ⦃u = ascii⦄ env pages manual (codes "v1") (pos 100) (pos 20)

build_chunks-exact_example :
    chunk_total ⦃u = ascii⦄
      (build_chunks ⦃u = ascii⦄ env pages manual (codes "v1") (pos 100) (pos 0))
    ≡ block_total ⦃u = ascii⦄ pages
build_chunks-exact_example =
    build_chunks-exact ⦃u = ascii⦄ env pages manual (codes "v1") (pos 100) (pos 0) refl
