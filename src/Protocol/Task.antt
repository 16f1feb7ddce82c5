-- ===== src/Protocol/Task.antt =====
-- `TaskStatus` of crates/frank-protocol/src/usage.rs and its transition table.
use frank.Prelude.{ℕ, String, Bool, true, false, ◌==◌}

pub data TaskStatus : Type 0 where
  backlog ready running review done blocked cancelled : TaskStatus

-- `TaskStatus::can_transition_to`
unfoldable pub can_transition_to : TaskStatus → TaskStatus → Bool
can_transition_to backlog ready = true
can_transition_to backlog cancelled = true
can_transition_to ready running = true
can_transition_to ready blocked = true
can_transition_to ready cancelled = true
can_transition_to running review = true
can_transition_to running blocked = true
can_transition_to running cancelled = true
can_transition_to review done = true
can_transition_to review running = true
can_transition_to review blocked = true
can_transition_to review cancelled = true
can_transition_to blocked ready = true
can_transition_to blocked cancelled = true
can_transition_to _ _ = false

abbrev pub is_backlog : TaskStatus → Bool
is_backlog backlog = true
is_backlog _ = false

abbrev pub is_ready : TaskStatus → Bool
is_ready ready = true
is_ready _ = false

abbrev pub is_running : TaskStatus → Bool
is_running running = true
is_running _ = false

abbrev pub is_review : TaskStatus → Bool
is_review review = true
is_review _ = false

abbrev pub is_done : TaskStatus → Bool
is_done done = true
is_done _ = false

abbrev pub is_blocked : TaskStatus → Bool
is_blocked blocked = true
is_blocked _ = false

-- `Done | Cancelled`
abbrev pub is_final : TaskStatus → Bool
is_final done = true
is_final cancelled = true
is_final _ = false

-- `Running | Review`
abbrev pub is_started : TaskStatus → Bool
is_started running = true
is_started review = true
is_started _ = false

-- `==` of two statuses, by the derived discriminant.
abbrev pub discriminant : TaskStatus → ℕ
discriminant backlog = 0
discriminant ready = 1
discriminant running = 2
discriminant review = 3
discriminant done = 4
discriminant blocked = 5
discriminant cancelled = 6

abbrev pub eq : TaskStatus → TaskStatus → Bool
eq s t = discriminant s == discriminant t

abbrev pub debug : TaskStatus → String
debug backlog = "Backlog"
debug ready = "Ready"
debug running = "Running"
debug review = "Review"
debug done = "Done"
debug blocked = "Blocked"
debug cancelled = "Cancelled"
