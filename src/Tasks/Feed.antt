-- ===== src/Tasks/Feed.antt =====
-- `append_task_feed` of crates/frank-orchestrator/src/reduce/task.rs, and the lookups that the
-- task reducers share.
use frank.Prelude.{
  ℕ, ◌+◌, ◌≤◌, ◌≡◌, refl, length, length-take-le, String, Bool, not, ◌==◌, Option, List, [], ◌∷◌,
  arith, any, all, find, modify_first, take, is_some_and, is_none_or,
}
use frank.Protocol.Task.{TaskStatus}
use frank.Protocol.Task
use frank.Protocol.Status.{TaskFeedKind}
use frank.Protocol.Records.{TaskView, MissionView, ActorRef, TaskFeedEntry, Snapshot, Env}

abbrev pub has_id : ℕ → TaskView → Bool
has_id task_id task = task.id == task_id

abbrev pub find_task : ℕ → List TaskView → Option TaskView
find_task task_id tasks = find (has_id task_id) tasks

abbrev pub find_mission : ℕ → List MissionView → Option MissionView
find_mission mission_id missions = find (λ mission. mission.id == mission_id) missions

-- `ids.all(|id| tasks.find(id).is_some_and(|task| task.status == Done))`
abbrev pub all_done : List TaskView → List ℕ → Bool
all_done tasks ids = all (λ id. is_some_and (find_task id tasks) (λ t. Task.is_done t.status)) ids

-- `ids.any(|id| tasks.find(id).is_none_or(|task| task.status != Done))`
abbrev pub any_unfinished : List TaskView → List ℕ → Bool
any_unfinished tasks ids =
    any (λ id. is_none_or (find_task id tasks) (λ t. not (Task.is_done t.status))) ids

abbrev pub with_status : TaskStatus → TaskView → TaskView
with_status status task = record task { status = status }

abbrev pub set_task : ℕ → (TaskView → TaskView) → Snapshot → Snapshot
set_task task_id f s = record s { tasks = modify_first (has_id task_id) f s.tasks }

abbrev pub feed_limit : ℕ
feed_limit = 2048

unfoldable pub feed_entry :
    Env → Snapshot → ℕ → ActorRef → TaskFeedKind → String → List ℕ → TaskFeedEntry
feed_entry env s task_id actor kind body artifact_ids = record {
  id = env.uuid s.draws;
  task_id = task_id;
  actor = actor;
  kind = kind;
  body = body;
  artifact_ids = artifact_ids;
  created_at = env.timestamp s.draws;
}

-- The newest entry stands first, and the list is cut at the limit. The entry that the source
-- returns is `feed_entry` of the same arguments.
unfoldable pub append_task_feed :
    Env → Snapshot → ℕ → ActorRef → TaskFeedKind → String → List ℕ → Snapshot
append_task_feed env s task_id actor kind body artifact_ids = record s {
  task_feed = take feed_limit (feed_entry env s task_id actor kind body artifact_ids ∷ s.task_feed);
  draws = s.draws + 1;
}

-- An entry in the feed changes nothing else.
pub tasks-append_task_feed :
    (env : Env) (s : Snapshot) (task_id : ℕ) (actor : ActorRef) (kind : TaskFeedKind)
    (body : String) (artifact_ids : List ℕ)
    → (append_task_feed env s task_id actor kind body artifact_ids).tasks ≡ s.tasks
unfolding append_task_feed
tasks-append_task_feed env s task_id actor kind body artifact_ids = refl

pub grants-append_task_feed :
    (env : Env) (s : Snapshot) (task_id : ℕ) (actor : ActorRef) (kind : TaskFeedKind)
    (body : String) (artifact_ids : List ℕ)
    → (append_task_feed env s task_id actor kind body artifact_ids).task_grants ≡ s.task_grants
unfolding append_task_feed
grants-append_task_feed env s task_id actor kind body artifact_ids = refl

pub length-append_task_feed :
    (env : Env) (s : Snapshot) (task_id : ℕ) (actor : ActorRef) (kind : TaskFeedKind)
    (body : String) (artifact_ids : List ℕ)
    → length (append_task_feed env s task_id actor kind body artifact_ids).task_feed ≤ feed_limit
unfolding append_task_feed
length-append_task_feed env s task_id actor kind body artifact_ids =
    length-take-le feed_limit (feed_entry env s task_id actor kind body artifact_ids ∷ s.task_feed)

-- The two ways in which the source asks for finished tasks agree.
pub unfinished-all_done :
    (tasks : List TaskView) (ids : List ℕ) → any_unfinished tasks ids ≡ not (all_done tasks ids)
unfinished-all_done tasks [] = refl
unfinished-all_done tasks (id ∷ ids) = ground (arith, unfinished-all_done tasks ids)
