-- ===== src/Target/Markers.antt =====
-- The blocks between markers of crates/frank-target/src/markdown_block.rs. A text is the list of its
-- code points; positions count code points, where the source counts bytes of the same places.
pub mod Search
pub mod Passes
pub mod RoundTrip
use frank.Prelude.{
  ℕ, suc, zero, ◌+◌, Bool, true, false, not, ◌&&◌, ◌==◌, Option, none, some, List, [], ◌∷◌, ◌++◌,
  length, take, ltb, is_none_or, is_some_and, is_whitespace, if◌then◌else◌,
}

pub record Block : Type 0 where
  pub begin : List ℕ
  pub end : List ℕ

abbrev pub newline : ℕ
newline = 10

abbrev pub drop : ℕ → List ℕ → List ℕ
drop zero s = s
drop (suc n) [] = []
drop (suc n) (c ∷ s) = drop n s

unfoldable pub starts_with : List ℕ → List ℕ → Bool
starts_with [] s = true
starts_with (p ∷ pat) [] = false
starts_with (p ∷ pat) (c ∷ s) = p == c && starts_with pat s

abbrev pub shifted : Option ℕ → Option ℕ
shifted none = none
shifted (some n) = some (suc n)

-- `text.find(pattern)`
unfoldable pub find_text : List ℕ → List ℕ → Option ℕ
find_text pat [] = if starts_with pat [] then some 0 else none
find_text pat (c ∷ s) =
    let later = shifted (find_text pat s) in if starts_with pat (c ∷ s) then some 0 else later

-- `text.matches(pattern).count()` and `text.replace(pattern, "")`, for a pattern that is not empty:
-- each pass goes on after the occurrence that it finds. The fuel is more than the length.
unfoldable pub count_from : ℕ → List ℕ → List ℕ → ℕ
count_from zero pat s = 0
count_from (suc fuel) pat s = elim (find_text pat s) [
  | none ↦ 0
  | some place ↦ suc (count_from fuel pat (drop (place + length pat) s))
]

unfoldable pub remove_from : ℕ → List ℕ → List ℕ → List ℕ
remove_from zero pat s = s
remove_from (suc fuel) pat s = elim (find_text pat s) [
  | none ↦ s
  | some place ↦ take place s ++ remove_from fuel pat (drop (place + length pat) s)
]

unfoldable pub count_matches : List ℕ → List ℕ → ℕ
count_matches pat s = count_from (suc (length s)) pat s

unfoldable pub remove_matches : List ℕ → List ℕ → List ℕ
remove_matches pat s = remove_from (suc (length s)) pat s

-- Where the loop goes on after a begin marker: after the end marker of its block, or, for an
-- orphan, right after the marker.
unfoldable pub resume_at : Block → List ℕ → List ℕ
resume_at block after = elim (find_text block.end after) [
  | none ↦ after
  | some e ↦
      if is_none_or (find_text block.begin after) (λ next. ltb e next)
      then drop (e + length block.end) after
      else after
]

-- The loop of `strip_all` on the text that is left.
unfoldable pub strip_from : ℕ → Block → List ℕ → List ℕ
strip_from zero block s = s
strip_from (suc fuel) block s = elim (find_text block.begin s) [
  | none ↦ s
  | some b ↦ take b s ++ strip_from fuel block (resume_at block (drop (b + length block.begin) s))
]

unfoldable pub strip_all : List ℕ → Block → List ℕ
strip_all text block = remove_matches block.end (strip_from (suc (length text)) block text)

unfoldable pub trim_end : List ℕ → List ℕ
trim_end [] = []
trim_end (c ∷ s) = elim (trim_end s) [
  | [] ↦ if is_whitespace c then [] else c ∷ []
  | d ∷ rest ↦ c ∷ d ∷ rest
]

unfoldable pub trim_start : List ℕ → List ℕ
trim_start [] = []
trim_start (c ∷ s) = let rest = trim_start s in if is_whitespace c then rest else c ∷ s

unfoldable pub trim : List ℕ → List ℕ
trim s = trim_end (trim_start s)

pub data AppendOutcome : Type 0 where
  already_present : AppendOutcome
  appended repaired : List ℕ → AppendOutcome

abbrev lower : Option ℕ → Option ℕ → Bool
lower none e = false
lower (some b) e = is_some_and e (λ e. ltb b e)

abbrev one_clean_pair : List ℕ → Block → Bool
one_clean_pair text block =
    count_matches block.begin text == 1
    && count_matches block.end text == 1
    && lower (find_text block.begin text) (find_text block.end text)

abbrev no_markers : List ℕ → Block → Bool
no_markers text block = count_matches block.begin text == 0 && count_matches block.end text == 0

unfoldable pub separator : List ℕ → List ℕ
separator [] = []
separator (c ∷ s) = newline ∷ newline ∷ []

-- The `format!` of the new text.
unfoldable pub with_block : List ℕ → Block → List ℕ → List ℕ
with_block trimmed block body =
    trimmed
    ++ (separator trimmed
        ++ (block.begin ++ (newline ∷ (trim body ++ (newline ∷ (block.end ++ (newline ∷ [])))))))

unfoldable pub append : List ℕ → Block → List ℕ → AppendOutcome
append text block body =
    if one_clean_pair text block
    then AppendOutcome.already_present
    else if no_markers text block
    then AppendOutcome.appended (with_block (trim_end text) block body)
    else AppendOutcome.repaired (with_block (trim_end (strip_all text block)) block body)

unfoldable pub remove : List ℕ → Block → Option (List ℕ)
remove text block = elim (trim_end (strip_all text block)) [
  | [] ↦ none
  | c ∷ s ↦ some ((c ∷ s) ++ (newline ∷ []))
]
