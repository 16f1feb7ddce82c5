-- ===== src/Target/Markers/Passes.antt =====
-- The passes of the loops over a text with one block (crates/frank-target/src/markdown_block.rs).
use mathlib.Core.List.{append_assoc}
use frank.Prelude.{
  ℕ, suc, zero, ◌+◌, ◌≡◌, refl, sym, ap, ◌∙◌, Option, none, some, List, [], ◌∷◌, ◌++◌, length,
  length-append, take, arith, is_whitespace, inl, inr, Bool-cases,
}
use frank.Target.Markers.{
  Block, newline, drop, find_text, count_from, remove_from, resume_at, strip_from, trim_end,
  separator,
}
use frank.Target.Markers.Search.{
  IsMarker, moved, take-append, drop-append, find_text-line, find_text-here, find_text-nothing,
}

-- Both markers are markers, and neither holds the other.
pub record IsBlock (block : Block) : Type 0 where
  pub begin_lem : IsMarker block.begin
  pub end_lem : IsMarker block.end
  pub begin_apart : find_text block.begin block.end ≡ none
  pub end_apart : find_text block.end block.begin ≡ none

-- A text without the markers.
pub record IsPlain (block : Block) (s : List ℕ) : Type 0 where
  pub no_begin : find_text block.begin s ≡ none
  pub no_end : find_text block.end s ≡ none

moved_zero : (o : Option ℕ) → moved 0 o ≡ o
moved_zero none = refl
moved_zero (some place) = ground arith

moved-moved : (m n : ℕ) (o : Option ℕ) → moved m (moved n o) ≡ moved (m + n) o
moved-moved m n none = refl
moved-moved m n (some place) = ground arith

-- The text in front of the block.
abbrev pub front : List ℕ → List ℕ
front t = t ++ separator t

pub find_text-front :
    (pat t xs : List ℕ)
    → IsMarker pat
    → find_text pat t ≡ none
    → find_text pat (t ++ (separator t ++ xs)) ≡ moved (length (front t)) (find_text pat xs)
unfolding separator
find_text-front pat [] xs m h = sym (moved_zero (find_text pat xs))
find_text-front pat (c ∷ s) xs m h =
    find_text-line pat (c ∷ s) (newline ∷ xs) m h
    ∙ ap (moved (suc (length (c ∷ s)))) (find_text-line pat [] xs m (find_text-nothing pat m))
    ∙ moved-moved (suc (length (c ∷ s))) 1 (find_text pat xs)
    ∙ ap (λ n. moved n (find_text pat xs)) (two (c ∷ s))
  where
    two : (s : List ℕ) → suc (length s) + 1 ≡ length (s ++ newline ∷ newline ∷ [])
    two [] = refl
    two (x ∷ s) = omega (arith, two s)

pub trim_end-beginning : (s : List ℕ) → (w : List ℕ) × (trim_end s ++ w ≡ s)
unfolding trim_end
trim_end-beginning [] = ([], refl)
trim_end-beginning (c ∷ s) = let (w, e) = trim_end-beginning s in whole (trim_end s) w refl e
  where
    whole :
        (t w : List ℕ)
        → trim_end s ≡ t
        → t ++ w ≡ s
        → (v : List ℕ) × (trim_end (c ∷ s) ++ v ≡ c ∷ s)
    whole [] w e h = elim (Bool-cases (is_whitespace c)) [
      | inl blank ↦ (c ∷ w, rw (e, blank) (ap (◌∷◌ c) h))
      | inr solid ↦ (w, rw (e, solid) (ap (◌∷◌ c) h))
    ]
    whole (d ∷ t) w e h = (w, rw e (ap (◌∷◌ c) h))

-- Where nothing is found, nothing is counted or removed.
pub count_from-none :
    (fuel : ℕ) (pat s : List ℕ) → find_text pat s ≡ none → count_from fuel pat s ≡ 0
unfolding count_from
count_from-none zero pat s h = refl
count_from-none (suc fuel) pat s h = rw (h, count_from) refl

pub remove_from-none :
    (fuel : ℕ) (pat s : List ℕ) → find_text pat s ≡ none → remove_from fuel pat s ≡ s
unfolding remove_from
remove_from-none zero pat s h = refl
remove_from-none (suc fuel) pat s h = rw (h, remove_from) refl

strip_from-none :
    (fuel : ℕ) (block : Block) (s : List ℕ)
    → find_text block.begin s ≡ none
    → strip_from fuel block s ≡ s
unfolding strip_from
strip_from-none zero block s h = refl
strip_from-none (suc fuel) block s h = rw (h, strip_from) refl

drop-start : (pat rest : List ℕ) → drop (length pat) (pat ++ rest) ≡ rest
drop-start pat rest = ap (λ n. drop n (pat ++ rest)) (no_more (length pat)) ∙ drop-append pat rest 0
  where
    no_more : (n : ℕ) → n ≡ n + 0
    no_more n = omega arith

drop-found : (xs pat rest : List ℕ) → drop (length xs + length pat) (xs ++ (pat ++ rest)) ≡ rest
drop-found xs pat rest = drop-append xs (pat ++ rest) (length pat) ∙ drop-start pat rest

-- One pass of each loop, at a marker after a text.
pub count_from-found :
    (fuel : ℕ) (pat w pre after : List ℕ)
    → w ≡ pre ++ (pat ++ after)
    → find_text pat w ≡ some (length pre)
    → count_from (suc fuel) pat w ≡ suc (count_from fuel pat after)
unfolding count_from
count_from-found fuel pat w pre after e place =
    rw (place, count_from)
      (ap (λ x. suc (count_from fuel pat x))
        (ap (drop (length pre + length pat)) e ∙ drop-found pre pat after))

strip_from-found :
    (fuel : ℕ) (block : Block) (w pre after : List ℕ)
    → w ≡ pre ++ (block.begin ++ after)
    → find_text block.begin w ≡ some (length pre)
    → strip_from (suc fuel) block w ≡ pre ++ strip_from fuel block (resume_at block after)
unfolding strip_from
strip_from-found fuel block w pre after e place =
    let before = ap (take (length pre)) e ∙ take-append pre (block.begin ++ after) in
    let rest = ap (drop (length pre + length block.begin)) e ∙ drop-found pre block.begin after in
    rw (place, strip_from) (cc (before, rest))

-- The text after the begin marker.
abbrev pub inside : Block → List ℕ → List ℕ
inside block b = newline ∷ (b ++ (newline ∷ (block.end ++ (newline ∷ []))))

module _ (block : Block) (proper : IsBlock block) where
  pub begin-inside :
      (b : List ℕ) → find_text block.begin b ≡ none → find_text block.begin (inside block b) ≡ none
  begin-inside b h =
      let m = proper.begin_lem in
      find_text-line block.begin [] _ m (find_text-nothing block.begin m)
      ∙ ap (moved 1) (
          find_text-line block.begin b _ m h
          ∙ ap (moved (suc (length b))) (
              find_text-line block.begin block.end [] m proper.begin_apart
              ∙ ap (moved (suc (length block.end))) (find_text-nothing block.begin m)))

  end-inside :
      (b : List ℕ)
      → find_text block.end b ≡ none
      → find_text block.end (inside block b) ≡ some (1 + (suc (length b) + 0))
  end-inside b h =
      let m = proper.end_lem in
      find_text-line block.end [] _ m (find_text-nothing block.end m)
      ∙ ap (moved 1) (
          find_text-line block.end b _ m h
          ∙ ap (moved (suc (length b))) (find_text-here block.end (newline ∷ []) m))

  drop-inside :
      (b : List ℕ)
      → drop (1 + (suc (length b) + 0) + length block.end) (inside block b) ≡ newline ∷ []
  drop-inside b =
      let count : 1 + (suc (length b) + 0) + length block.end
          ≡ suc (length b + suc (length block.end)) =
        omega arith in
      ap (λ n. drop n (inside block b)) count
      ∙ drop-append b (newline ∷ (block.end ++ (newline ∷ []))) (suc (length block.end))
      ∙ drop-start block.end (newline ∷ [])

  resume_at-inside :
      (b : List ℕ) → IsPlain block b → resume_at block (inside block b) ≡ newline ∷ []
  unfolding resume_at
  resume_at-inside b plain =
      rw (end-inside b plain.no_end, begin-inside b plain.no_begin, resume_at) (drop-inside b)

  pub lone : (pat : List ℕ) → IsMarker pat → find_text pat (newline ∷ []) ≡ none
  lone pat m =
      find_text-line pat [] [] m (find_text-nothing pat m) ∙ ap (moved 1) (find_text-nothing pat m)

  pub begin-front :
      (t b : List ℕ)
      → find_text block.begin t ≡ none
      → find_text block.begin (t ++ (separator t ++ (block.begin ++ inside block b)))
        ≡ some (length (front t))
  begin-front t b h =
      find_text-front block.begin t (block.begin ++ inside block b) proper.begin_lem h
      ∙ ap (moved (length (front t))) (find_text-here block.begin (inside block b) proper.begin_lem)
      ∙ ap (λ n. some n) (nothing (length (front t)))
    where
      nothing : (n : ℕ) → n + 0 ≡ n
      nothing n = omega arith

  -- One pass of `strip_all` at a block after a text without begin markers.
  pub strip_from-front :
      (fuel : ℕ) (t b : List ℕ)
      → find_text block.begin t ≡ none
      → IsPlain block b
      → strip_from (suc fuel) block (t ++ (separator t ++ (block.begin ++ inside block b)))
        ≡ t ++ (separator t ++ newline ∷ [])
  strip_from-front fuel t b h plain =
      strip_from-found fuel block _ (front t) (inside block b)
        (sym (append_assoc t (separator t) (block.begin ++ inside block b))) (begin-front t b h)
      ∙ ap (λ x. front t ++ strip_from fuel block x) (resume_at-inside b plain)
      ∙ ap (◌++◌ (front t))
          (strip_from-none fuel block (newline ∷ []) (lone block.begin proper.begin_lem))
      ∙ append_assoc t (separator t) (newline ∷ [])

  pub end-front :
      (t b : List ℕ)
      → find_text block.end t ≡ none
      → find_text block.end b ≡ none
      → find_text block.end (t ++ (separator t ++ (block.begin ++ inside block b)))
        ≡ some (length (front t) + (suc (length block.begin) + (suc (length b) + 0)))
  end-front t b h k =
      let m = proper.end_lem in
      find_text-front block.end t (block.begin ++ inside block b) m h
      ∙ ap (moved (length (front t))) (
          find_text-line block.end block.begin _ m proper.end_apart
          ∙ ap (moved (suc (length block.begin))) (
              find_text-line block.end b _ m k
              ∙ ap (moved (suc (length b))) (find_text-here block.end (newline ∷ []) m)))

  -- The text with the block, cut at its end marker.
  pub cut-end :
      (t b : List ℕ)
      → t ++ (separator t ++ (block.begin ++ inside block b))
        ≡ (front t ++ (block.begin ++ (newline ∷ (b ++ (newline ∷ [])))))
          ++ (block.end ++ (newline ∷ []))
  cut-end t b =
      sym (append_assoc t (separator t) (block.begin ++ inside block b))
      ∙ ap (λ x. front t ++ (block.begin ++ (newline ∷ x)))
          (sym (append_assoc b (newline ∷ []) (block.end ++ (newline ∷ []))))
      ∙ ap (◌++◌ (front t)) (
          sym (
            append_assoc block.begin (newline ∷ (b ++ (newline ∷ [])))
              (block.end ++ (newline ∷ []))))
      ∙ sym (
          append_assoc (front t) (block.begin ++ (newline ∷ (b ++ (newline ∷ []))))
            (block.end ++ (newline ∷ [])))

  pub length-cut :
      (f b : List ℕ)
      → length f + (suc (length block.begin) + (suc (length b) + 0))
        ≡ length (f ++ (block.begin ++ (newline ∷ (b ++ (newline ∷ [])))))
  length-cut f b = omega (
    arith,
    length-append f (block.begin ++ (newline ∷ (b ++ (newline ∷ [])))),
    length-append block.begin (newline ∷ (b ++ (newline ∷ []))),
    length-append b (newline ∷ []),
  )
