-- ===== src/Target/Markers/RoundTrip.antt =====
-- A block that is appended and stripped again (crates/frank-target/src/markdown_block.rs).
use mathlib.Core.List.{append_assoc}
use frank.Prelude.{ℕ, suc, ◌+◌, ◌<◌, ◌≡◌, sym, ap, ◌∙◌, some, List, [], ◌∷◌, ◌++◌, length, arith}
use frank.Target.Markers.{
  Block, newline, find_text, count_matches, remove_matches, strip_all, trim_end, trim, separator,
  with_block, append, AppendOutcome,
}
use frank.Target.Markers.Search.{moved, find_text-beginning}
use frank.Target.Markers.Passes.{
  IsBlock, IsPlain, front, inside, begin-front, end-front, begin-inside, strip_from-front, cut-end,
  length-cut, lone, count_from-none, count_from-found, remove_from-none, trim_end-beginning,
  find_text-front,
}

module _ (block : Block) (proper : IsBlock block) where
  trim_end-IsPlain : (s : List ℕ) → IsPlain block s → IsPlain block (trim_end s)
  trim_end-IsPlain s plain =
      let (w, e) = trim_end-beginning s in
      record {
        no_begin =
            find_text-beginning block.begin (trim_end s) w proper.begin_lem
              (ap (find_text block.begin) e ∙ plain.no_begin);
        no_end =
            find_text-beginning block.end (trim_end s) w proper.end_lem
              (ap (find_text block.end) e ∙ plain.no_end);
      }

  append-plain :
      (s body : List ℕ)
      → IsPlain block s
      → append s block body ≡ AppendOutcome.appended (with_block (trim_end s) block body)
  unfolding append count_matches
  append-plain s body plain = ground (
    arith,
    count_from-none (suc (length s)) block.begin s plain.no_begin,
    count_from-none (suc (length s)) block.end s plain.no_end,
  )

  strip_all-with_block :
      (t body : List ℕ)
      → IsPlain block t
      → IsPlain block (trim body)
      → strip_all (with_block t block body) block ≡ t ++ (separator t ++ newline ∷ [])
  unfolding strip_all with_block remove_matches
  strip_all-with_block t body plain inner =
      ap (remove_matches block.end) (
        strip_from-front block proper (length (with_block t block body)) t (trim body)
          plain.no_begin inner)
      ∙ remove_from-none (suc (length (t ++ (separator t ++ newline ∷ [])))) block.end
          (t ++ (separator t ++ newline ∷ []))
          (find_text-front block.end t (newline ∷ []) proper.end_lem plain.no_end
            ∙ ap (moved (length (front t))) (lone block proper block.end proper.end_lem))

  clean-append :
      (s other : List ℕ) (b e : ℕ)
      → count_matches block.begin s ≡ 1
      → count_matches block.end s ≡ 1
      → find_text block.begin s ≡ some b
      → find_text block.end s ≡ some e
      → b < e
      → append s block other ≡ AppendOutcome.already_present
  unfolding append
  clean-append s other b e one_begin one_end at_b at_e h =
      ground (arith, one_begin, one_end, at_b, at_e, h)

  again-present :
      (t body other : List ℕ)
      → IsPlain block t
      → IsPlain block (trim body)
      → append (with_block t block body) block other ≡ AppendOutcome.already_present
  unfolding count_matches with_block
  again-present t body other plain inner =
      let w = with_block t block body in
      let b = trim body in
      let first = begin-front block proper t b plain.no_begin in
      let last = end-front block proper t b plain.no_end inner.no_end in
      let begins =
        count_from-found (length w) block.begin w (front t) (inside block b)
          (sym (append_assoc t (separator t) (block.begin ++ inside block b))) first
        ∙ ap suc (
            count_from-none (length w) block.begin (inside block b)
              (begin-inside block proper b inner.no_begin)) in
      let ends =
        count_from-found (length w) block.end w _ (newline ∷ []) (cut-end block proper t b)
          (last ∙ ap (λ n. some n) (length-cut block proper (front t) b))
        ∙ ap suc (
            count_from-none (length w) block.end (newline ∷ [])
              (lone block proper block.end proper.end_lem)) in
      clean-append w other (length (front t))
        (length (front t) + (suc (length block.begin) + (suc (length b) + 0))) begins ends first
        last (omega arith)

-- Where neither the text nor the trimmed body holds a marker, and the markers are of one line, not
-- empty, and neither holds the other: the block is appended to the text without its trailing white
-- space; stripping gives that text back, with the line breaks that were put around the block; and
-- appending again, whatever the body, finds the block present.
pub append-strip_all :
    (block : Block) (text body other : List ℕ)
    → IsBlock block
    → IsPlain block text
    → IsPlain block (trim body)
    → (append text block body ≡ AppendOutcome.appended (with_block (trim_end text) block body))
      × (strip_all (with_block (trim_end text) block body) block
          ≡ trim_end text ++ (separator (trim_end text) ++ newline ∷ []))
      × (append (with_block (trim_end text) block body) block other ≡ AppendOutcome.already_present)
append-strip_all block text body other proper plain inner =
    let trimmed = trim_end-IsPlain block proper text plain in
    (
      append-plain block proper text body plain,
      strip_all-with_block block proper (trim_end text) body trimmed inner,
      again-present block proper (trim_end text) body other trimmed inner,
    )
