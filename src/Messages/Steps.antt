-- ===== src/Messages/Steps.antt =====
-- How messages move on (crates/frank-orchestrator/src/reduce/message.rs and messaging.rs).
use frank.Prelude.{
  ℕ, ◌≡◌, refl, sym, ap, subst, ◌∙◌, true, false, ◌==◌, ==_iff, none, some, List, [], ◌∷◌, ◌++◌,
  modify_first, arith, Bool-cases, inl, inr,
}
use frank.Protocol.Messages.{MessageView, DeliveryStatus, is_awaiting}
use frank.Messages.{has_message_id, find_message, with_delivery}

-- The steps of a delivery.
pub data Step : DeliveryStatus → DeliveryStatus → Type 0 where
  delivers : Step DeliveryStatus.queued DeliveryStatus.delivered
  acknowledges : Step DeliveryStatus.delivered DeliveryStatus.acknowledged
  completes :
      (status : DeliveryStatus) → is_awaiting status ≡ true → Step status DeliveryStatus.completed
  fails : (status : DeliveryStatus) → is_awaiting status ≡ true → Step status DeliveryStatus.failed

pub data Reaches : DeliveryStatus → DeliveryStatus → Type 0 where
  stays : (status : DeliveryStatus) → Reaches status status
  goes :
      (first second last : DeliveryStatus)
      → Step first second
      → Reaches second last
      → Reaches first last

pub Reaches-trans : (a b c : DeliveryStatus) → Reaches a b → Reaches b c → Reaches a c
Reaches-trans a _ c (stays _) h = h
Reaches-trans a b c (goes _ second _ step rest) h =
    goes a second c step (Reaches-trans second b c rest h)

-- A message with at most its delivery moved on.
abbrev pub Moves : MessageView → MessageView → Type 0
Moves m m' = (m' ≡ with_delivery m'.delivery m) × Reaches m.delivery m'.delivery

-- The messages of before stand in their places and have moved on; new ones stand after them.
pub data Progress : List MessageView → List MessageView → Type 0 where
  fresh : (messages : List MessageView) → Progress [] messages
  kept :
      (m m' : MessageView) (ms ms' : List MessageView)
      → Moves m m'
      → Progress ms ms'
      → Progress (m ∷ ms) (m' ∷ ms')

pub Progress-refl : (ms : List MessageView) → Progress ms ms
Progress-refl [] = fresh []
Progress-refl (m ∷ ms) = kept m m ms ms (refl, stays m.delivery) (Progress-refl ms)

Moves-trans : (a b c : MessageView) → Moves a b → Moves b c → Moves a c
Moves-trans a b c h k = (
  k.0 ∙ ap (with_delivery c.delivery) h.0,
  Reaches-trans a.delivery b.delivery c.delivery h.1 k.1,
)

pub Progress-trans : (a b c : List MessageView) → Progress a b → Progress b c → Progress a c
Progress-trans [] b c h k = fresh c
Progress-trans _ _ _ (kept m m' ms ms' h rest) (kept _ m'' _ ms'' h' rest') =
    kept m m'' ms ms'' (Moves-trans m m' m'' h h') (Progress-trans ms ms' ms'' rest rest')

-- The identifiers are distinct.
abbrev pub Distinct : List MessageView → Type 0
Distinct [] = Unit {0}
Distinct (m ∷ ms) = (find_message m.id ms ≡ none) × Distinct ms

pub find_message-append :
    (id : ℕ) (ms : List MessageView) (m : MessageView)
    → find_message id ms ≡ none
    → (m.id == id) ≡ false
    → find_message id (ms ++ m ∷ []) ≡ none
find_message-append id [] m h apart = ground (arith, apart)
find_message-append id (x ∷ ms) m h apart = ground (arith, h, apart, find_message-append id ms m)

pub Distinct-append :
    (ms : List MessageView) (m : MessageView)
    → Distinct ms
    → find_message m.id ms ≡ none
    → Distinct (ms ++ m ∷ [])
Distinct-append [] m d h = (refl, tt)
Distinct-append (x ∷ ms) m d h =
    let apart : (x.id == m.id) ≡ false = ground (arith, h) in
    (
      find_message-append x.id ms m d.0 (ground (arith, apart, ==_iff x.id m.id, ==_iff m.id x.id)),
      Distinct-append ms m d.1 (ground (arith, h, apart)),
    )

pub Progress-append : (ms new : List MessageView) → Progress ms (ms ++ new)
Progress-append [] new = fresh new
Progress-append (m ∷ ms) new =
    kept m m ms (ms ++ new) (refl, stays m.delivery) (Progress-append ms new)

pub find_message-modified :
    (id k : ℕ) (status : DeliveryStatus) (ms : List MessageView)
    → find_message id ms ≡ none
    → find_message id (modify_first (has_message_id k) (with_delivery status) ms) ≡ none
find_message-modified id k status [] h = refl
find_message-modified id k status (m ∷ ms) h =
    ground (arith, h, find_message-modified id k status ms)

pub Distinct-modified :
    (k : ℕ) (status : DeliveryStatus) (ms : List MessageView)
    → Distinct ms
    → Distinct (modify_first (has_message_id k) (with_delivery status) ms)
Distinct-modified k status [] d = tt
Distinct-modified k status (m ∷ ms) d = elim (Bool-cases (m.id == k)) [
  | inl e ↦ rw e d
  | inr e ↦ rw e (find_message-modified m.id k status ms d.0, Distinct-modified k status ms d.1)
]

-- The found message takes a step.
pub Progress-modified :
    (k : ℕ) (status : DeliveryStatus) (ms : List MessageView) (found : MessageView)
    → find_message k ms ≡ some found
    → Reaches found.delivery status
    → Progress ms (modify_first (has_message_id k) (with_delivery status) ms)
Progress-modified k status [] found h step = fresh []
Progress-modified k status (m ∷ ms) found h step = elim (Bool-cases (m.id == k)) [
  | inl e ↦
      let same : m ≡ found = ground (arith, h, e) in
      rw e (
        kept m (with_delivery status m) ms ms
          (refl, subst (λ f. Reaches f.delivery status) (sym same) step) (Progress-refl ms))
  | inr e ↦ rw e (
      kept m m ms (modify_first (has_message_id k) (with_delivery status) ms)
        (refl, stays m.delivery) (Progress-modified k status ms found (ground (arith, h, e)) step))
]
