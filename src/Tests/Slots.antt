-- ===== src/Tests/Slots.antt =====
-- Schedules of concurrent reads at concrete inputs.
use precis_finance_mcp.Common.{◌≤◌, String, ◌≡◌, refl, Option, none, some, List, [], ◌∷◌, lookup}
use precis_finance_mcp.Concurrency.{
  Phase, waits_for_user, waits_for_global, inside, too_busy, Task, idle, Event, enter, take_user,
  take_global, time_out, step, run, int_env, caps_of,
}
use precis_finance_mcp.Concurrency.Slots.{count, reads, reads_as, IsBalanced}
use precis_finance_mcp.Concurrency.Turns.{
  run-IsBalanced, run_bounds, limiter_after, run-take_global, run-take_user,
}

abbrev one_each : Option String
one_each = some "1"

abbrev task : Phase → Task
task phase = record { user_id = "ana"; phase = phase }

abbrev crowded : List Event
crowded =
    enter "a" "ana"
    ∷ enter "b" "ana"
    ∷ take_user "a"
    ∷ take_user "b"
    ∷ take_global "a"
    ∷ time_out "b"
    ∷ []

second_gives_up : run (caps_of one_each one_each) crowded idle ≡ record {
  per_user_free = ("ana", 0) ∷ [];
  global_free = some 0;
  tasks = ("a", task inside) ∷ ("b", task too_busy) ∷ [];
}
unfolding run int_env
second_gives_up = refl

run-IsBalanced_example :
    IsBalanced (caps_of one_each none) (run (caps_of one_each none) crowded idle)
run-IsBalanced_example = run-IsBalanced (caps_of one_each none) crowded

run_bounds_example :
    (count (reads_as "ana") (run (caps_of one_each one_each) crowded idle).tasks
      ≤ (caps_of one_each one_each).per_user)
    × (count reads (run (caps_of one_each one_each) crowded idle).tasks
        ≤ (caps_of one_each one_each).all_users)
run_bounds_example = run_bounds (caps_of one_each one_each) crowded "ana"

abbrev one_waits : List Event
one_waits = enter "a" "ana" ∷ take_user "a" ∷ []

run-take_global_example :
    lookup "a"
      (step (caps_of one_each none) (take_global "a") (limiter_after one_each none one_waits)).tasks
    ≡ some (task inside)
unfolding run int_env
run-take_global_example =
    run-take_global one_each none one_waits "a" (task waits_for_global) refl refl refl

abbrev both_enter : List Event
both_enter = enter "a" "ana" ∷ enter "b" "ana" ∷ []

run-take_user_example :
    lookup "b"
      (step (caps_of one_each none) (take_user "b") (limiter_after one_each none both_enter)).tasks
    ≡ some (task waits_for_global)
unfolding run int_env
run-take_user_example =
    run-take_user one_each none both_enter "b" (task waits_for_user) refl refl refl
