-- ===== src/Tests/Missions.antt =====
-- Runs of the mission commands.
use frank.Prelude.{◌≡◌, refl, true, not, ◌&&◌, none, [], ◌∷◌, Result, ok, err, is_some_and}
use frank.Protocol.Mission.{MissionStatus}
use frank.Protocol.Mission
use frank.Protocol.Task.{TaskStatus}
use frank.Protocol.Records.{MissionView, Snapshot, Reduced, Event, CommandResult}
use frank.Tasks.Feed.{find_mission}
use frank.Missions.{
  unfinished, reduce_set_mission_status, pause_or_resume, start_delivery, reduce_deliver_mission,
}
use frank.Missions.Guards.{mission_move_allowed, set_mission_status_allowed, resume_unchecked}
use frank.Missions.Delivery.{deliver_mission_idempotent}
use frank.Tests.Data.{sample_env, sample_mission, sample_task, workspace}

abbrev done_work : Snapshot
done_work = workspace (sample_task 4 TaskStatus.done [] none ∷ []) []

abbrev value : Result Reduced → Reduced
value (ok r) = r
value (err e) = (done_work, Event.task_released 0, CommandResult.accepted)

abbrev completing : Result Reduced
completing = reduce_set_mission_status sample_env done_work 1 MissionStatus.completed

completing-ok : completing ≡ ok (value completing)
unfolding reduce_set_mission_status Mission.can_transition_to
completing-ok = refl

set_mission_status_allowed_example :
    is_some_and
      (find_mission 1 done_work.missions)
      (mission_move_allowed done_work 1 MissionStatus.completed)
    ≡ true
set_mission_status_allowed_example =
    set_mission_status_allowed sample_env done_work 1 MissionStatus.completed (value completing)
      completing-ok

abbrev draft_mission : MissionView
draft_mission = record sample_mission { status = MissionStatus.draft }

abbrev empty_draft : Snapshot
empty_draft = record (workspace [] []) { missions = draft_mission ∷ [] }

resume_unchecked_example :
    (r : Reduced) × (pause_or_resume sample_env empty_draft 1 MissionStatus.active ≡ ok r)
    × (is_some_and (find_mission 1 r.0.missions) (λ m. Mission.is_active m.status) ≡ true)
resume_unchecked_example = resume_unchecked sample_env empty_draft 1 draft_mission refl refl

abbrev completed_work : Snapshot
completed_work = record done_work {
  missions = record sample_mission { status = MissionStatus.completed } ∷ [];
}

abbrev delivery : Result Reduced
delivery = reduce_deliver_mission sample_env completed_work 1

delivery-ok : delivery ≡ ok (value delivery)
unfolding reduce_deliver_mission start_delivery
delivery-ok = refl

deliver_mission_idempotent_example :
    (is_some_and
        (find_mission 1 completed_work.missions)
        (λ m. Mission.is_completed m.status && not (unfinished 1 completed_work.tasks))
      ≡ true)
    × (reduce_deliver_mission sample_env (value delivery).0 1 ≡ ok (value delivery))
deliver_mission_idempotent_example =
    deliver_mission_idempotent sample_env completed_work 1 (value delivery) delivery-ok
