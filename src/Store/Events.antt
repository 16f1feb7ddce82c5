-- ===== src/Store/Events.antt =====
-- The event log of crates/frank-store/src/events.rs: pages for clients, retention.
pub mod Numbers
pub mod Pages
use frank.Prelude.{
  ℕ, ◌+◌, suc, String, Bool, true, false, not, Option, none, some, List, [], ◌∷◌, ◌++◌, keep, map,
  take, length, any, ltb, leb, ◌==◌, ◌||◌, if◌then◌else◌, max, min, text_ltb, StoreError,
}
use frank.Store.{Tables, EventRow, EventEnvelope, OutboxRow, u64_max, i64_limit, saturating_succ}

pub record EventPage : Type 0 where
  pub events : List EventEnvelope
  pub oldest_seq : Option ℕ
  pub latest_seq : ℕ  -- u64
  pub resync_required : Bool

-- `SELECT MIN(seq) FROM events`
unfoldable pub oldest_row : List EventRow → Option ℕ
oldest_row [] = none
oldest_row (row ∷ rest) = elim (oldest_row rest) [
  | none ↦ some row.seq
  | some seq ↦ some (min row.seq seq)
]

-- `ORDER BY seq ASC`
unfoldable pub insert_row : EventRow → List EventRow → List EventRow
insert_row row [] = row ∷ []
insert_row row (first ∷ rest) =
    let later = insert_row row rest in
    if ltb row.seq first.seq then row ∷ first ∷ rest else first ∷ later

unfoldable pub by_seq : List EventRow → List EventRow
by_seq [] = []
by_seq (row ∷ rest) = insert_row row (by_seq rest)

-- `seq > ?` with the cursor bound as an `i64`: a cursor past the signed range is negative.
unfoldable pub past_cursor : ℕ → EventRow → Bool
past_cursor after row = if ltb after i64_limit then ltb after row.seq else true

abbrev pub envelope_of : EventRow → EventEnvelope
envelope_of row = record row.envelope { seq = row.seq }

unfoldable pub resync : ℕ → ℕ → Option ℕ → Bool
resync after latest_seq oldest = elim oldest [
  | some first ↦ ltb (saturating_succ after) first
  | none ↦ ltb after latest_seq
]

unfoldable pub events_after : ℕ → ℕ → Tables → EventPage
events_after after limit db =
    let oldest = oldest_row db.events in
    if resync after db.event_seq oldest
    then record {
      events = [];
      oldest_seq = oldest;
      latest_seq = db.event_seq;
      resync_required = true;
    }
    else record {
      events = map envelope_of (take (max limit 1) (keep (past_cursor after) (by_seq db.events)));
      oldest_seq = oldest;
      latest_seq = db.event_seq;
      resync_required = false;
    }

-- Retention: the events before the cutoff go, the rows of the journal with them, and they are
-- counted.
unfoldable pub prune_events_before : String → Tables → ℕ × Tables
prune_events_before cutoff db = (
  length (keep (λ row. text_ltb row.envelope.occurred_at cutoff) db.events),
  record db { events = keep (λ row. not (text_ltb row.envelope.occurred_at cutoff)) db.events },
)
