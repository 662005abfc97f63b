-- ===== src/Concurrency.antt =====
-- The cap on concurrent reads (precis_mcp/concurrency.py): a semaphore for each user and one for all.
-- A schedule is a list of events, each a step of one task between two points where it waits; an event
-- that a task cannot make leaves all as it is.
pub mod Slots
pub mod Turns
use precis_finance_mcp.Common.{
  ℕ, ◌+◌, ◌-◌, zero, suc, String, Bool, true, false, Option, none, some, List, [], ◌∷◌, ◌==◌,
  if◌then◌else◌, eqb, ltb, Dict, lookup, put, Result, ok, err,
}
use precis_finance_mcp.Periods.{int_of}

-- `_int_env`, with what the environment has; `int` reads ASCII digits here.
unfoldable pub int_env : Option String → ℕ → ℕ
int_env none default = default
int_env (some raw) default =
    if raw == ""
    then default
    else elim (int_of raw) [ err _ ↦ default | ok value ↦ if ltb 0 value then value else default ]

pub record Caps : Type 0 where
  pub per_user : ℕ
  pub all_users : ℕ

-- The two variables of the environment, read when a semaphore is made.
abbrev pub caps_of : Option String → Option String → Caps
caps_of per_user_env global_env = record {
  per_user = int_env per_user_env 6;
  all_users = int_env global_env 32;
}

-- Where a task stands in `acquire`.
pub data Phase : Type 0 where
  waits_for_user waits_for_global inside finished too_busy : Phase

pub record Task : Type 0 where
  pub user_id : String
  pub phase : Phase

-- A semaphore is its number of free slots; `global_free` is missing before the first call.
pub record Limiter : Type 0 where
  pub per_user_free : Dict ℕ
  pub global_free : Option ℕ
  pub tasks : Dict Task

abbrev pub idle : Limiter
idle = record { per_user_free = []; global_free = none; tasks = [] }

pub data Event : Type 0 where
  enter : (task : String) (user_id : String) → Event
  take_user : (task : String) → Event
  take_global : (task : String) → Event
  time_out : (task : String) → Event
  leave : (task : String) → Event

abbrev pub or_else : Option ℕ → ℕ → ℕ
or_else none default = default
or_else (some free) default = free

-- `_slots_for`: semaphores are made on first use.
unfoldable pub slots_for : Caps → String → Limiter → Limiter
slots_for caps user_id limiter = record limiter {
  per_user_free = elim (lookup user_id limiter.per_user_free) [
    | none ↦ put user_id caps.per_user limiter.per_user_free
    | some _ ↦ limiter.per_user_free
  ];
  global_free = some (or_else limiter.global_free caps.all_users);
}

abbrev pub user_free : String → Limiter → ℕ
user_free user_id limiter = or_else (lookup user_id limiter.per_user_free) 0

abbrev pub all_free : Limiter → ℕ
all_free limiter = or_else limiter.global_free 0

abbrev pub set_phase : String → Task → Phase → Limiter → Limiter
set_phase id task phase limiter = record limiter {
  tasks = put id (record task { phase = phase }) limiter.tasks;
}

abbrev pub set_user_free : String → ℕ → Limiter → Limiter
set_user_free user_id free limiter = record limiter {
  per_user_free = put user_id free limiter.per_user_free;
}

-- `user_sem.release()`
abbrev pub release_user : String → Limiter → Limiter
release_user user_id limiter = set_user_free user_id (user_free user_id limiter + 1) limiter

-- `global_sem.release()`
abbrev pub release_global : Limiter → Limiter
release_global limiter = record limiter { global_free = some (all_free limiter + 1) }

-- `await wait_for(user_sem.acquire())` goes on when a slot is free.
abbrev pub take_user_slot : String → Task → Limiter → Limiter
take_user_slot id task limiter =
    if ltb 0 (user_free task.user_id limiter)
    then set_phase id task waits_for_global
        (set_user_free task.user_id (user_free task.user_id limiter - 1) limiter)
    else limiter

abbrev pub take_global_slot : String → Task → Limiter → Limiter
take_global_slot id task limiter =
    if ltb 0 (all_free limiter)
    then set_phase id task inside (record limiter { global_free = some (all_free limiter - 1) })
    else limiter

-- What each event does in each phase; the `finally` block releases what the task has.
unfoldable pub task_step : Event → Phase → String → Task → Limiter → Limiter
task_step (take_user _) waits_for_user id task limiter = take_user_slot id task limiter
task_step (take_global _) waits_for_global id task limiter = take_global_slot id task limiter
task_step (time_out _) waits_for_user id task limiter = set_phase id task too_busy limiter
task_step (time_out _) waits_for_global id task limiter =
    set_phase id task too_busy (release_user task.user_id limiter)
task_step (leave _) inside id task limiter =
    set_phase id task finished (release_user task.user_id (release_global limiter))
task_step _ _ id task limiter = limiter

abbrev pub task_of : Event → String
task_of (enter id user_id) = id
task_of (take_user id) = id
task_of (take_global id) = id
task_of (time_out id) = id
task_of (leave id) = id

abbrev pub enters : Caps → Event → Limiter → Limiter
enters caps (enter id user_id) limiter =
    set_phase id (record { user_id = user_id; phase = waits_for_user }) waits_for_user
      (slots_for caps user_id limiter)
enters caps (take_user _) limiter = limiter
enters caps (take_global _) limiter = limiter
enters caps (time_out _) limiter = limiter
enters caps (leave _) limiter = limiter

unfoldable pub step : Caps → Event → Limiter → Limiter
unfolding task_step slots_for
step caps event limiter = elim (lookup (task_of event) limiter.tasks) [
  | none ↦ enters caps event limiter
  | some task ↦ task_step event task.phase (task_of event) task limiter
]

unfoldable pub run : Caps → List Event → Limiter → Limiter
unfolding step
run caps [] limiter = limiter
run caps (event ∷ events) limiter = run caps events (step caps event limiter)
