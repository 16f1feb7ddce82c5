-- ===== src/Missions/Guards.antt =====
-- What a mission's status change has been checked for, and what a resume has not.
use frank.Prelude.{
  ℕ, ◌≡◌, refl, String, Bool, true, not, ◌&&◌, ◌||◌, some, List, [], ◌∷◌, any, modify_first,
  is_some_and, Option-cases, inl, inr, arith, ok,
}
use frank.Protocol.Mission.{MissionStatus}
use frank.Protocol.Mission
use frank.Protocol.Records.{MissionView, Snapshot, Env, Event, CommandResult, Reduced}
use frank.Tasks.Feed.{find_mission}
use frank.Missions.{
  has_mission_id, set_mission, planned, unfinished, worker_with_model, check_start,
  reduce_set_mission_status, pause_or_resume,
}

abbrev implies : Bool → Bool → Bool
implies a b = not a || b

-- What a status change of a mission has been checked for.
abbrev pub mission_move_allowed : Snapshot → ℕ → MissionStatus → MissionView → Bool
mission_move_allowed s mission_id status mission =
    Mission.can_transition_to mission.status status
    && implies (Mission.is_completed status)
        (planned mission_id s.tasks && not (unfinished mission_id s.tasks))
    && implies (Mission.is_active status)
        (planned mission_id s.tasks && any worker_with_model s.agents)

mission_after :
    (id : ℕ) (f : MissionView → MissionView) (p : MissionView → Bool) (ms : List MissionView)
    (m : MissionView)
    → ((x : MissionView) → (f x).id ≡ x.id)
    → ((x : MissionView) → p (f x) ≡ true)
    → find_mission id ms ≡ some m
    → is_some_and (find_mission id (modify_first (has_mission_id id) f ms)) p ≡ true
mission_after id f p [] m same holds h = absurd (cc)
mission_after id f p (x ∷ ms) m same holds h =
    ground (arith, h, same x, holds x, mission_after id f p ms m same holds)

abbrev resumed : String → MissionView → MissionView
resumed now m = record m { status = MissionStatus.active; updated_at = now }

module _ (env : Env) (s : Snapshot) (mission_id : ℕ) where
  started :
      (mission : MissionView)
      → check_start env s mission_id mission ≡ ok tt
      → planned mission_id s.tasks && any worker_with_model s.agents ≡ true
  unfolding check_start
  started mission h = ground (arith, h)

  -- An accepted status change of a mission follows the transition table; into Completed the
  -- mission has tasks and all of them are Done; into Active it has tasks and there is a worker with
  -- a model.
  pub set_mission_status_allowed :
      (status : MissionStatus) (r : Reduced)
      → reduce_set_mission_status env s mission_id status ≡ ok r
      → is_some_and (find_mission mission_id s.missions) (mission_move_allowed s mission_id status)
        ≡ true
  unfolding reduce_set_mission_status
  set_mission_status_allowed status r h = elim (Option-cases (find_mission mission_id s.missions)) [
    | inl e ↦ absurd (ground (arith, h, e))
    | inr (mission, e) ↦ rw e (ground (arith, h, e, started mission))
  ]

  -- A resume makes a Draft or Blocked mission Active with none of the checks of a start: not even
  -- a single task is asked for.
  pub resume_unchecked :
      (mission : MissionView)
      → find_mission mission_id s.missions ≡ some mission
      → Mission.is_draft_or_blocked mission.status ≡ true
      → (r : Reduced) × (pause_or_resume env s mission_id MissionStatus.active ≡ ok r)
        × (is_some_and (find_mission mission_id r.0.missions) (λ m. Mission.is_active m.status)
            ≡ true)
  unfolding pause_or_resume Mission.can_transition_to
  resume_unchecked mission e d = (
    (
      set_mission mission_id (resumed (env.timestamp s.draws)) s,
      Event.mission_status_changed mission_id MissionStatus.active,
      CommandResult.accepted,
    ),
    ground (arith, e, d),
    mission_after mission_id (resumed (env.timestamp s.draws)) (λ m. Mission.is_active m.status)
        s.missions mission (λ x. refl) (λ x. refl) e,
  )
