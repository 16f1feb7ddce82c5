-- ===== src/Runtime/Mailbox.antt =====
-- crates/frank-orchestrator/src/mailbox.rs.
use frank.Prelude.{
  ℕ, suc, ◌≤◌, ◌≡◌, refl, Bool, true, false, ◌&&◌, ◌==◌, ==_iff, List, [], ◌∷◌, contains, leb,
  arith, if◌then◌else◌, Bool-cases, inl, inr,
}

pub record Mailbox : Type 0 where
  pub hop_limit : ℕ  -- u8
  pub seen : List ℕ

-- A message that travelled too far is not noted as seen.
unfoldable pub accept : ℕ → ℕ → Mailbox → Bool × Mailbox
accept message_id hop mailbox =
    if leb hop mailbox.hop_limit
    then (if contains mailbox.seen message_id
        then (false, mailbox)
        else (true, record mailbox { seen = message_id ∷ mailbox.seen }))
    else (false, mailbox)

-- How often a message is accepted in a sequence of deliveries.
unfoldable pub accepted_times : ℕ → List (ℕ × ℕ) → Mailbox → ℕ
accepted_times id [] mailbox = 0
accepted_times id ((message_id, hop) ∷ deliveries) mailbox =
    let (taken, next) = accept message_id hop mailbox in
    let rest = accepted_times id deliveries next in
    if taken && message_id == id then suc rest else rest

never_again :
    (id : ℕ) (deliveries : List (ℕ × ℕ)) (m : Mailbox)
    → contains m.seen id ≡ true
    → accepted_times id deliveries m ≡ 0
unfolding accepted_times accept
never_again id [] m h = refl
never_again id ((message_id, hop) ∷ deliveries) m h = ground (
  arith,
  h,
  never_again id deliveries m h,
  ==_iff message_id id,
  never_again id deliveries (record m { seen = message_id ∷ m.seen }) (ground (arith, h)),
)

-- In any sequence of deliveries, repeated ones included, a message is accepted at most once.
pub accepted_times-once :
    (id : ℕ) (deliveries : List (ℕ × ℕ)) (mailbox : Mailbox)
    → accepted_times id deliveries mailbox ≤ 1
unfolding accepted_times accept
accepted_times-once id [] m = omega arith
accepted_times-once id ((message_id, hop) ∷ deliveries) m = elim (Bool-cases (message_id == id)) [
  | inl e ↦ ground (
    arith,
    e,
    accepted_times-once id deliveries m,
    never_again id deliveries (record m { seen = message_id ∷ m.seen }) (ground (arith, e)),
  )
  | inr e ↦ ground (
    arith,
    e,
    accepted_times-once id deliveries m,
    accepted_times-once id deliveries (record m { seen = message_id ∷ m.seen }),
  )
]
