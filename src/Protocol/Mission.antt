-- ===== src/Protocol/Mission.antt =====
-- `MissionStatus` of crates/frank-protocol/src/mission_task.rs and its transition table. A test
-- `value == Variant` or `matches!(value, ..)` of the source is a function by clauses.
use frank.Prelude.{String, Bool, true, false}

pub data MissionStatus : Type 0 where
  draft active paused blocked completed failed cancelled : MissionStatus

-- `MissionStatus::can_transition_to`
unfoldable pub can_transition_to : MissionStatus → MissionStatus → Bool
can_transition_to draft active = true
can_transition_to draft blocked = true
can_transition_to draft cancelled = true
can_transition_to active paused = true
can_transition_to active blocked = true
can_transition_to active completed = true
can_transition_to active failed = true
can_transition_to active cancelled = true
can_transition_to paused active = true
can_transition_to paused cancelled = true
can_transition_to blocked active = true
can_transition_to blocked cancelled = true
can_transition_to _ _ = false

abbrev pub is_active : MissionStatus → Bool
is_active active = true
is_active _ = false

abbrev pub is_completed : MissionStatus → Bool
is_completed completed = true
is_completed _ = false

-- `Completed | Failed | Cancelled`
abbrev pub is_final : MissionStatus → Bool
is_final completed = true
is_final failed = true
is_final cancelled = true
is_final _ = false

-- `Draft | Blocked`
abbrev pub is_draft_or_blocked : MissionStatus → Bool
is_draft_or_blocked draft = true
is_draft_or_blocked blocked = true
is_draft_or_blocked _ = false

-- The derived `Debug` name.
abbrev pub debug : MissionStatus → String
debug draft = "Draft"
debug active = "Active"
debug paused = "Paused"
debug blocked = "Blocked"
debug completed = "Completed"
debug failed = "Failed"
debug cancelled = "Cancelled"
