-- ===== src/Target/Markers/Search.antt =====
-- Searching for a pattern that has no line break, one line after the other
-- (crates/frank-target/src/markdown_block.rs).
use frank.Prelude.{
  ℕ, suc, ◌+◌, ◌<◌, ◌≡◌, refl, ap, ◌∙◌, true, false, ==_refl, Option, none, some, List, [], ◌∷◌,
  ◌++◌, length, take, arith, contains, inl, inr, Bool-cases,
}
use frank.Target.Markers.{newline, drop, starts_with, find_text, shifted}

-- A pattern that is searched for: not empty, and in one line.
pub record IsMarker (pat : List ℕ) : Type 0 where
  pub one_line : contains pat newline ≡ false
  pub present : 0 < length pat

-- Moved by a number of places.
abbrev pub moved : ℕ → Option ℕ → Option ℕ
moved n none = none
moved n (some place) = some (n + place)

pub take-append : (xs ys : List ℕ) → take (length xs) (xs ++ ys) ≡ xs
take-append [] [] = refl
take-append [] (y ∷ ys) = refl
take-append (x ∷ xs) ys = ap (◌∷◌ x) (take-append xs ys)

pub drop-append : (xs ys : List ℕ) (n : ℕ) → drop (length xs + n) (xs ++ ys) ≡ drop n ys
drop-append [] ys n = let e : 0 + n ≡ n = omega arith in rw e refl
drop-append (x ∷ xs) ys n =
    let e : suc (length xs) + n ≡ suc (length xs + n) = omega arith in rw e (drop-append xs ys n)

-- What starts a text before a line break starts it in that line.
starts_with-line :
    (pat xs ys : List ℕ)
    → contains pat newline ≡ false
    → starts_with pat (xs ++ newline ∷ ys) ≡ starts_with pat xs
unfolding starts_with
starts_with-line [] xs ys h = refl
starts_with-line (p ∷ pat) [] ys h = ground (arith, h)
starts_with-line (p ∷ pat) (x ∷ xs) ys h = ground (arith, h, starts_with-line pat xs ys)

nothing_starts : (pat : List ℕ) → IsMarker pat → starts_with pat [] ≡ false
unfolding starts_with
nothing_starts [] m = absurd (omega (arith, m.present))
nothing_starts (p ∷ pat) m = refl

moved-one : (o : Option ℕ) → shifted o ≡ moved 1 o
moved-one none = refl
moved-one (some place) = ground arith

find_text-tail :
    (pat : List ℕ) (x : ℕ) (xs : List ℕ)
    → find_text pat (x ∷ xs) ≡ none
    → (starts_with pat (x ∷ xs) ≡ false) × (find_text pat xs ≡ none)
unfolding find_text
find_text-tail pat x xs h = elim (Bool-cases (starts_with pat (x ∷ xs))) [
  | inl here ↦ absurd (ground (arith, h, here))
  | inr apart ↦ (apart, ground (arith, h, apart))
]

moved-shifted : (n : ℕ) (o : Option ℕ) → shifted (moved n o) ≡ moved (suc n) o
moved-shifted n none = refl
moved-shifted n (some place) = ground arith

-- A pattern of one line that a line does not hold is found after its break, if at all.
pub find_text-line :
    (pat xs ys : List ℕ)
    → IsMarker pat
    → find_text pat xs ≡ none
    → find_text pat (xs ++ newline ∷ ys) ≡ moved (suc (length xs)) (find_text pat ys)
unfolding find_text
find_text-line pat [] ys m h =
    let apart : starts_with pat (newline ∷ ys) ≡ false =
      ground (arith, starts_with-line pat [] ys m.one_line, nothing_starts pat m) in
    rw apart (moved-one (find_text pat ys))
find_text-line pat (x ∷ xs) ys m h =
    let tail = find_text-tail pat x xs h in
    let apart : starts_with pat (x ∷ (xs ++ newline ∷ ys)) ≡ false =
      starts_with-line pat (x ∷ xs) ys m.one_line ∙ tail.0 in
    rw apart (
      ap shifted (find_text-line pat xs ys m tail.1)
      ∙ moved-shifted (suc (length xs)) (find_text pat ys))

starts_with-append : (pat ys : List ℕ) → starts_with pat (pat ++ ys) ≡ true
unfolding starts_with
starts_with-append [] ys = refl
starts_with-append (p ∷ pat) ys = ground (arith, ==_refl p, starts_with-append pat ys)

-- A pattern is found where it stands.
pub find_text-here : (pat ys : List ℕ) → IsMarker pat → find_text pat (pat ++ ys) ≡ some 0
unfolding find_text
find_text-here [] ys m = absurd (omega (arith, m.present))
find_text-here (p ∷ pat) ys m = rw (starts_with-append (p ∷ pat) ys) refl

-- A text without the pattern has none in its beginning.
starts_with-longer :
    (pat xs ys : List ℕ) → starts_with pat (xs ++ ys) ≡ false → starts_with pat xs ≡ false
unfolding starts_with
starts_with-longer [] xs ys h = h
starts_with-longer (p ∷ pat) [] ys h = refl
starts_with-longer (p ∷ pat) (x ∷ xs) ys h = ground (arith, h, starts_with-longer pat xs ys)

pub find_text-beginning :
    (pat xs ys : List ℕ) → IsMarker pat → find_text pat (xs ++ ys) ≡ none → find_text pat xs ≡ none
unfolding find_text
find_text-beginning pat [] ys m h = rw (nothing_starts pat m) refl
find_text-beginning pat (x ∷ xs) ys m h =
    let tail = find_text-tail pat x (xs ++ ys) h in
    rw (starts_with-longer pat (x ∷ xs) ys tail.0)
      (ap shifted (find_text-beginning pat xs ys m tail.1))

pub find_text-nothing : (pat : List ℕ) → IsMarker pat → find_text pat [] ≡ none
unfolding find_text
find_text-nothing pat m = rw (nothing_starts pat m) refl
