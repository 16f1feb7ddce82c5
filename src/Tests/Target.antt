-- ===== src/Tests/Target.antt =====
-- Runs of the marker blocks (crates/frank-target/src/markdown_block.rs).
use frank.Prelude.{ℕ, ◌≡◌, refl, List, [], ◌∷◌, ◌++◌, arith, is_whitespace}
use frank.Target.Markers.{
  Block, newline, AppendOutcome, append, strip_all, trim, trim_end, trim_start, with_block,
  separator, find_text, starts_with, strip_from, resume_at, remove_matches, remove_from,
}
use frank.Target.Markers.Search.{IsMarker}
use frank.Target.Markers.Passes.{IsBlock, IsPlain}
use frank.Target.Markers.RoundTrip.{append-strip_all}

-- `<b>` and `<e>`
abbrev begin_marker : List ℕ
begin_marker = 60 ∷ 98 ∷ 62 ∷ []

abbrev end_marker : List ℕ
end_marker = 60 ∷ 101 ∷ 62 ∷ []

abbrev marks : Block
marks = record { begin = begin_marker; end = end_marker }

-- The text ends in a blank.
abbrev text : List ℕ
text = 97 ∷ 98 ∷ 32 ∷ []

abbrev body : List ℕ
body = 32 ∷ 99 ∷ 10 ∷ []

begin_marker-IsMarker : IsMarker begin_marker
begin_marker-IsMarker = record { one_line = refl; present = omega arith }

end_marker-IsMarker : IsMarker end_marker
end_marker-IsMarker = record { one_line = refl; present = omega arith }

marks-IsBlock : IsBlock marks
unfolding find_text starts_with
marks-IsBlock = record {
  begin_lem = begin_marker-IsMarker;
  end_lem = end_marker-IsMarker;
  begin_apart = refl;
  end_apart = refl;
}

text-IsPlain : IsPlain marks text
unfolding find_text starts_with
text-IsPlain = record { no_begin = refl; no_end = refl }

body-IsPlain : IsPlain marks (trim body)
unfolding find_text starts_with trim trim_start trim_end is_whitespace
body-IsPlain = record { no_begin = refl; no_end = refl }

append-strip_all_example :
    (append text marks body ≡ AppendOutcome.appended (with_block (trim_end text) marks body))
    × (strip_all (with_block (trim_end text) marks body) marks
        ≡ trim_end text ++ (separator (trim_end text) ++ newline ∷ []))
    × (append (with_block (trim_end text) marks body) marks text ≡ AppendOutcome.already_present)
append-strip_all_example =
    append-strip_all marks text body text marks-IsBlock text-IsPlain body-IsPlain

-- An end marker that stands inside another one leaves a marker behind.
spliced : strip_all (60 ∷ 101 ∷ 60 ∷ 101 ∷ 62 ∷ 62 ∷ []) marks ≡ end_marker
unfolding strip_all strip_from resume_at remove_matches remove_from find_text starts_with
spliced = refl
