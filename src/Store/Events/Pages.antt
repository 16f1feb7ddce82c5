-- ===== src/Store/Events/Pages.antt =====
-- A page of events without `resync_required` has no gap (crates/frank-store/src/events.rs).
use frank.Prelude.{
  ◌++◌, Bool, sym, All, if◌then◌else◌, ℕ, suc, zero, ◌+◌, ◌-◌, ◌≤◌, ◌<◌, ◌≡◌, refl, ap, ◌∙◌, false,
  List, [], ◌∷◌, keep, map, take, length, ltb, max, arith, inl, inr, Bool-cases,
}
use frank.Store.{Tables, EventRow, i64_limit}
use frank.Store.Events.{
  oldest_row, insert_row, by_seq, past_cursor, envelope_of, resync, events_after,
}
use frank.Store.Events.Numbers.{
  Contiguous, Ascending, count_up, length-Contiguous, by_seq-Ascending, keep-Ascending, map-take,
  seqs, reaches,
}

paged :
    (after limit : ℕ) (db : Tables)
    → (events_after after limit db).resync_required ≡ false
    → (resync after db.event_seq (oldest_row db.events) ≡ false)
      × ((events_after after limit db).events
          ≡ map envelope_of (take (max limit 1) (keep (past_cursor after) (by_seq db.events))))
unfolding events_after
paged after limit db h = ground (arith, h)

-- The log stands with the newest row first.
abbrev pub oldest_first : List EventRow → List EventRow
oldest_first [] = []
oldest_first (row ∷ rest) = oldest_first rest ++ row ∷ []

-- The event of a row carries the number of the row.
abbrev pub IsNumbered : EventRow → Type 0
IsNumbered row = row.envelope.seq ≡ row.seq

insert_row-end :
    (row : EventRow) (first : ℕ) (rows : List EventRow)
    → Ascending first rows
    → first + length rows ≤ row.seq
    → insert_row row rows ≡ rows ++ row ∷ []
unfolding insert_row
insert_row-end row first [] h e = refl
insert_row-end row first (x ∷ rest) h e =
    let later : ltb row.seq x.seq ≡ false = ground (arith, h, e) in
    rw later (ap (◌∷◌ x) (insert_row-end row (suc first) rest h.1 (omega (arith, e))))

by_seq-oldest_first :
    (last : ℕ) (rows : List EventRow) → Contiguous last rows → by_seq rows ≡ oldest_first rows
unfolding by_seq
by_seq-oldest_first last [] h = refl
by_seq-oldest_first last (row ∷ rest) h =
    let (ascending, size) = by_seq-Ascending (last - 1) rest h.2 in
    let room = length-Contiguous (last - 1) rest h.2 in
    insert_row-end row (suc (last - 1) - length rest) (by_seq rest) ascending
      (omega (arith, size, room, h.0, h.1))
    ∙ ap (λ rows. rows ++ row ∷ []) (by_seq-oldest_first (last - 1) rest h.2)

keep-append :
    (p : EventRow → Bool) (rows : List EventRow) (row : EventRow)
    → keep p (rows ++ row ∷ []) ≡ keep p rows ++ (if p row then row ∷ [] else [])
keep-append p [] row = ground arith
keep-append p (x ∷ rows) row = ground (arith, keep-append p rows row)

past_cursor-ltb :
    (after : ℕ) (row : EventRow) → after < i64_limit → past_cursor after row ≡ ltb after row.seq
unfolding past_cursor
past_cursor-ltb after row small = ground (arith, small)

take-nil : (n : ℕ) → ◌≡◌ {A = List EventRow} (take n []) []
take-nil zero = refl
take-nil (suc n) = refl

-- The rows past the cursor are the newest ones.
keep-oldest_first :
    (after last : ℕ) (rows : List EventRow)
    → after < i64_limit
    → Contiguous last rows
    → keep (past_cursor after) (oldest_first rows) ≡ oldest_first (take (last - after) rows)
keep-oldest_first after last [] small h = ap oldest_first (sym (take-nil (last - after)))
keep-oldest_first after last (row ∷ rest) small h =
    let older = keep-oldest_first after (last - 1) rest small h.2 in
    let split = keep-append (past_cursor after) (oldest_first rest) row in
    let past = past_cursor-ltb after row small in
    elim (Bool-cases (ltb after row.seq)) [
      | inl above ↦
          let count : last - after ≡ suc (last - 1 - after) = ground (arith, above, h) in
          rw count (split ∙ rw (past ∙ above) (ap (λ rows. rows ++ row ∷ []) older))
      | inr below ↦
          let nothing : last - after ≡ 0 = ground (arith, below, h) in
          let none_older : last - 1 - after ≡ 0 = omega (arith, nothing) in
          let empty : keep (past_cursor after) (oldest_first rest) ≡ [] =
            older ∙ ap (λ n. oldest_first (take n rest)) none_older in
          rw nothing (split ∙ rw (past ∙ below) (ap (λ rows. rows ++ []) empty))
    ]

envelope_of-numbered : (row : EventRow) → IsNumbered row → envelope_of row ≡ row.envelope
envelope_of-numbered row e = ap (λ n. record row.envelope { seq = n }) (sym e)

IsNumbered-append :
    (rows : List EventRow) (row : EventRow)
    → All IsNumbered rows
    → IsNumbered row
    → All IsNumbered (rows ++ row ∷ [])
IsNumbered-append [] row h e = (e, tt)
IsNumbered-append (x ∷ rows) row h e = (h.0, IsNumbered-append rows row h.1 e)

IsNumbered-take :
    (n : ℕ) (rows : List EventRow)
    → All IsNumbered rows
    → All IsNumbered (oldest_first (take n rows))
IsNumbered-take zero rows h = tt
IsNumbered-take (suc n) [] h = tt
IsNumbered-take (suc n) (row ∷ rows) h =
    IsNumbered-append (oldest_first (take n rows)) row (IsNumbered-take n rows h.1) h.0

map-envelope_of :
    (rows : List EventRow)
    → All IsNumbered rows
    → map envelope_of rows ≡ map (λ row. row.envelope) rows
map-envelope_of [] h = refl
map-envelope_of (row ∷ rows) h = cc (envelope_of-numbered row h.0, map-envelope_of rows h.1)

module _ (after limit : ℕ) (db : Tables) (log : Contiguous db.event_seq db.events)
    (small : after < i64_limit) (h : (events_after after limit db).resync_required ≡ false) where
  seqs-events_after :
      map (λ e. e.seq) (events_after after limit db).events
      ≡ take (max limit 1) (count_up (suc after) (db.event_seq - after))
  seqs-events_after =
      let page = paged after limit db h in
      let sorted = by_seq-Ascending db.event_seq db.events log in
      let room = length-Contiguous db.event_seq db.events log in
      let low = reaches after db.event_seq db.events small log page.0 in
      let kept =
        keep-Ascending after (suc db.event_seq - length db.events) (by_seq db.events) small low
          sorted.0 in
      let count : suc db.event_seq - length db.events + length (by_seq db.events) - suc after
          ≡ db.event_seq - after =
        omega (arith, sorted.1, room) in
      ap (map (λ e. e.seq)) page.1
      ∙ seqs (take (max limit 1) (keep (past_cursor after) (by_seq db.events)))
      ∙ map-take (λ row. row.seq) (max limit 1) (keep (past_cursor after) (by_seq db.events))
      ∙ ap (take (max limit 1)) (kept ∙ ap (count_up (suc after)) count)

  events-events_after :
      All IsNumbered db.events
      → (events_after after limit db).events
        ≡ take
            (max limit 1)
            (map (λ row. row.envelope) (oldest_first (take (db.event_seq - after) db.events)))
  events-events_after numbered =
      let newest = oldest_first (take (db.event_seq - after) db.events) in
      let kept : keep (past_cursor after) (by_seq db.events) ≡ newest =
        ap (keep (past_cursor after)) (by_seq-oldest_first db.event_seq db.events log)
        ∙ keep-oldest_first after db.event_seq db.events small log in
      (paged after limit db h).1
      ∙ map-take envelope_of (max limit 1) (keep (past_cursor after) (by_seq db.events))
      ∙ ap (λ rows. take (max limit 1) (map envelope_of rows)) kept
      ∙ ap (take (max limit 1))
          (map-envelope_of newest (IsNumbered-take (db.event_seq - after) db.events numbered))

-- From a log without gaps whose newest event is the latest and whose events carry the numbers of
-- their rows, a page for a cursor below 2 ^ 63 that asks for no resync has the logged events after
-- the cursor, the oldest first, as many as the limit allows, which counts as at least one; their
-- numbers are those right after the cursor, up to the latest.
pub events_after_complete :
    (after limit : ℕ) (db : Tables)
    → Contiguous db.event_seq db.events
    → All IsNumbered db.events
    → after < i64_limit
    → (events_after after limit db).resync_required ≡ false
    → ((events_after after limit db).events
        ≡ take
            (max limit 1)
            (map (λ row. row.envelope) (oldest_first (take (db.event_seq - after) db.events))))
      × (map (λ e. e.seq) (events_after after limit db).events
          ≡ take (max limit 1) (count_up (suc after) (db.event_seq - after)))
events_after_complete after limit db log numbered small h = (
  events-events_after after limit db log small h numbered,
  seqs-events_after after limit db log small h,
)
