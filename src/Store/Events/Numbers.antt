-- ===== src/Store/Events/Numbers.antt =====
-- The numbers of the events in a log without gaps (crates/frank-store/src/events.rs).
use frank.Prelude.{
  ℕ, suc, zero, ◌+◌, ◌-◌, ◌≤◌, ◌<◌, ◌≡◌, refl, ap, subst, ◌∙◌, false, some, List, [], ◌∷◌, keep,
  map, take, length, ltb, arith, inl, inr, Bool-cases,
}
use frank.Store.{EventRow, i64_limit, saturating_succ}
use frank.Store.Events.{oldest_row, insert_row, by_seq, past_cursor, envelope_of, resync}

-- The newest row has the given number, and each other row the next one below.
abbrev pub Contiguous : ℕ → List EventRow → Type 0
Contiguous last [] = Unit {0}
Contiguous last (row ∷ rest) = (row.seq ≡ last) × (0 < last) × Contiguous (last - 1) rest

-- The numbers of the rows go up by one.
abbrev pub Ascending : ℕ → List EventRow → Type 0
Ascending first [] = Unit {0}
Ascending first (row ∷ rest) = (row.seq ≡ first) × Ascending (suc first) rest

abbrev pub count_up : ℕ → ℕ → List ℕ
count_up first zero = []
count_up first (suc n) = first ∷ count_up (suc first) n

pub length-Contiguous :
    (last : ℕ) (rows : List EventRow) → Contiguous last rows → length rows ≤ last
length-Contiguous last [] h = omega arith
length-Contiguous last (row ∷ rest) h = omega (arith, length-Contiguous (last - 1) rest h.2)

insert_row-last :
    (row : EventRow) (first : ℕ) (rows : List EventRow)
    → Ascending first rows
    → row.seq ≡ first + length rows
    → Ascending first (insert_row row rows) × (length (insert_row row rows) ≡ suc (length rows))
unfolding insert_row
insert_row-last row first [] h e = ((omega (arith, e), tt), refl)
insert_row-last row first (x ∷ rest) h e =
    let deep = insert_row-last row (suc first) rest h.1 (omega (arith, e)) in
    ground (arith, deep, e, h)

pub by_seq-Ascending :
    (last : ℕ) (rows : List EventRow)
    → Contiguous last rows
    → Ascending (suc last - length rows) (by_seq rows) × (length (by_seq rows) ≡ length rows)
unfolding by_seq
by_seq-Ascending last [] h = (tt, refl)
by_seq-Ascending last (row ∷ rest) h =
    let older = by_seq-Ascending (last - 1) rest h.2 in
    let room = length-Contiguous (last - 1) rest h.2 in
    let start : suc (last - 1) - length rest ≡ suc last - suc (length rest) = omega (arith, h.1) in
    let placed =
      insert_row-last row (suc last - suc (length rest)) (by_seq rest)
        (subst (λ n. Ascending n (by_seq rest)) start older.0)
        (omega (arith, h.0, h.1, older.1, room)) in
    (placed.0, omega (arith, placed.1, older.1))

keep-above :
    (after first : ℕ) (rows : List EventRow)
    → after < i64_limit
    → after < first
    → Ascending first rows
    → map (λ row. row.seq) (keep (past_cursor after) rows) ≡ count_up first (length rows)
unfolding past_cursor
keep-above after first [] small above h = refl
keep-above after first (row ∷ rest) small above h =
    ground (arith, h, small, keep-above after (suc first) rest small (omega arith) h.1)

pub keep-Ascending :
    (after first : ℕ) (rows : List EventRow)
    → after < i64_limit
    → first ≤ suc after
    → Ascending first rows
    → map (λ row. row.seq) (keep (past_cursor after) rows)
      ≡ count_up (suc after) (first + length rows - suc after)
unfolding past_cursor
keep-Ascending after first [] small low h =
    let nothing : first + 0 - suc after ≡ 0 = omega arith in rw nothing refl
keep-Ascending after first (row ∷ rest) small low h = elim (Bool-cases (ltb after first)) [
  | inl above ↦
      let next : first ≡ suc after = ground arith in
      let count : first + suc (length rest) - suc after ≡ suc (length rest) = omega arith in
      keep-above after first (row ∷ rest) small (ground arith) h
      ∙ (rw count (ap (λ n. count_up n (suc (length rest))) next))
  | inr below ↦
      let older = keep-Ascending after (suc first) rest small (ground arith) h.1 in
      let same : suc first + length rest - suc after ≡ first + suc (length rest) - suc after =
        omega arith in
      ground (arith, h, below, small) ∙ older ∙ ap (count_up (suc after)) same
]

pub map-take {ℓ κ} :
    {A : Type ℓ} {B : Type κ} (f : A → B) (n : ℕ) (xs : List A)
    → map f (take n xs) ≡ take n (map f xs)
map-take f zero xs = refl
map-take f (suc n) [] = refl
map-take f (suc n) (x ∷ xs) = ap (◌∷◌ (f x)) (map-take f n xs)

pub seqs : (xs : List EventRow) → map (λ e. e.seq) (map envelope_of xs) ≡ map (λ row. row.seq) xs
seqs [] = refl
seqs (x ∷ xs) = ap (◌∷◌ x.seq) (seqs xs)

-- The oldest number of a contiguous log.
oldest-Contiguous :
    (last : ℕ) (row : EventRow) (rest : List EventRow)
    → Contiguous last (row ∷ rest)
    → oldest_row (row ∷ rest) ≡ some (last - length rest)
unfolding oldest_row
oldest-Contiguous last row [] h = ground (arith, h)
oldest-Contiguous last row (next ∷ rest) h = ground (
  arith,
  h,
  oldest-Contiguous (last - 1) next rest h.2,
  length-Contiguous (last - 1) (next ∷ rest) h.2,
)

reaches-empty :
    (after last : ℕ) → resync after last (oldest_row []) ≡ false → suc last - 0 ≤ suc after
unfolding resync oldest_row
reaches-empty after last r = ground (arith, r)

-- No resync: the rows reach down to the cursor.
pub reaches :
    (after last : ℕ) (rows : List EventRow)
    → after < i64_limit
    → Contiguous last rows
    → resync after last (oldest_row rows) ≡ false
    → suc last - length rows ≤ suc after
unfolding resync saturating_succ
reaches after last [] small h r = reaches-empty after last r
reaches after last (row ∷ rest) small h r =
    ground (arith, r, oldest-Contiguous last row rest h, small)
