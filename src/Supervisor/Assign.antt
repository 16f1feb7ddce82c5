-- ===== src/Supervisor/Assign.antt =====
-- `assign_ready_tasks` of crates/frank-orchestrator/src/supervisor.rs.
pub mod Rounds
pub mod Fair
use Prim.Native.Char.{code}
use frank.Prelude.{
  ℕ, ◌+◌, ◌-◌, ◌*◌, String, Bool, true, false, not, ◌&&◌, ◌||◌, ◌==◌, ltb, leb, Option, none, some,
  List, [], ◌∷◌, map, keep, and_then, is_none, is_none_or, is_some_of, text_eq, text_ltb,
  if◌then◌else◌,
}
use frank.Protocol.Task
use frank.Protocol.Status.{is_available}
use frank.Protocol.Records.{TaskView, AgentView, Env}

abbrev pub u128_max : ℕ
u128_max = 340282366920938463463374607431768211455

-- `text.parse::<u128>()`: digits after an optional plus, in range.
unfoldable pub parse_digits : ℕ → String → Option ℕ
parse_digits n String.[] = some n
parse_digits n (String.◌∷◌ c s) =
    let next = n * 10 + (code c - 0x30) in
    let rest = parse_digits next s in
    if leb 0x30 (code c) && leb (code c) 0x39 && leb next u128_max then rest else none

unfoldable pub parse_number : String → Option ℕ
parse_number String.[] = none
parse_number (String.◌∷◌ c s) =
    if code c == 0x2b then parse_signed s else parse_digits 0 (String.◌∷◌ c s)
  where
    parse_signed : String → Option ℕ
    parse_signed String.[] = none
    parse_signed (String.◌∷◌ d t) = parse_digits 0 (String.◌∷◌ d t)

abbrev pub claim_time : AgentView → Option ℕ
claim_time agent = and_then agent.last_claimed_at parse_number

-- The order of `Option<u128>`: an agent that never claimed a task is first.
abbrev pub time_ltb : Option ℕ → Option ℕ → Bool
time_ltb none none = false
time_ltb none (some b) = true
time_ltb (some a) none = false
time_ltb (some a) (some b) = ltb a b

-- The least recent claim is first, and then the text of the identifier decides.
unfoldable pub comes_before : Env → AgentView → AgentView → Bool
comes_before env left right =
    time_ltb (claim_time left) (claim_time right)
    || (not (time_ltb (claim_time right) (claim_time left))
        && text_ltb (env.show_uuid left.id) (env.show_uuid right.id))

unfoldable pub insert_agent : Env → AgentView → List AgentView → List AgentView
insert_agent env agent [] = agent ∷ []
insert_agent env agent (other ∷ agents) =
    let rest = insert_agent env agent agents in
    if comes_before env other agent then other ∷ rest else agent ∷ other ∷ agents

-- The stable sort.
unfoldable pub sort_agents : Env → List AgentView → List AgentView
sort_agents env [] = []
sort_agents env (agent ∷ agents) = insert_agent env agent (sort_agents env agents)

abbrev pub can_work : AgentView → Bool
can_work agent =
    not agent.archived
    && not (text_eq agent.display_name "Frank supervisor")
    && is_available agent.status

-- The agent has the role that the task asks for.
abbrev pub fits_role : TaskView → AgentView → Bool
fits_role task agent =
    is_none_or task.required_role_id (λ role_id. is_some_of agent.role_id role_id)

-- `position` and `remove`: the first that fits, and the others.
unfoldable pub take_first : TaskView → List AgentView → Option (AgentView × List AgentView)
take_first task [] = none
take_first task (agent ∷ agents) =
    let rest = take_first task agents in
    if fits_role task agent
    then some (agent, agents)
    else elim rest [ none ↦ none | some (found, others) ↦ some (found, agent ∷ others) ]

abbrev pub waits : TaskView → Bool
waits task = Task.is_ready task.status && is_none task.assigned_agent

abbrev pub assigned_to : AgentView → TaskView → TaskView
assigned_to agent task = record task { assigned_agent = some agent.id }

-- The tasks after the loop, and the assignments that it made.
unfoldable pub assign_each : List TaskView → List AgentView → List TaskView × List (ℕ × ℕ)
assign_each [] available = ([], [])
assign_each (task ∷ tasks) available =
    let skipped = assign_each tasks available in
    if waits task
    then elim (take_first task available) [
      | none ↦ (task ∷ skipped.0, skipped.1)
      | some (agent, others) ↦
          let rest = assign_each tasks others in
          (assigned_to agent task ∷ rest.0, (task.id, agent.id) ∷ rest.1)
    ]
    else (task ∷ skipped.0, skipped.1)

unfoldable pub assign_ready_tasks :
    Env → List TaskView → List AgentView → List TaskView × List (ℕ × ℕ)
assign_ready_tasks env tasks agents = assign_each tasks (sort_agents env (keep can_work agents))
