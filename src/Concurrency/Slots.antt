-- ===== src/Concurrency/Slots.antt =====
-- No slot is lost or made: what is free and what tasks hold adds up to the cap.
use precis_finance_mcp.Common.{
  ℕ, ◌+◌, ◌-◌, String, ◌≡◌, arith, Bool, true, false, ◌&&◌, none, some, [], ◌∷◌, ◌==◌, eq_iff,
  if◌then◌else◌, Dict, lookup, lookup-put, put,
}
use precis_finance_mcp.Concurrency.{
  Caps, Phase, waits_for_user, waits_for_global, inside, finished, too_busy, Task, Limiter, Event,
  enter, take_user, take_global, time_out, leave, or_else, take_user_slot, take_global_slot,
  user_free, task_step,
}

-- How many tasks pass a test.
abbrev pub count : (Task → Bool) → Dict Task → ℕ
count p [] = 0
count p ((id, task) ∷ tasks) = (if p task then 1 else 0) + count p tasks

pub count-put :
    (p : Task → Bool) (id : String) (old new : Task) (tasks : Dict Task)
    → lookup id tasks ≡ some old
    → count p (put id new tasks) + (if p old then 1 else 0)
      ≡ count p tasks + (if p new then 1 else 0)
count-put p id old new [] h = cc
count-put p id old new ((j, t) ∷ tasks) h =
    ground (arith, eq_iff j id, count-put p id old new tasks)

pub count-put_new :
    (p : Task → Bool) (id : String) (new : Task) (tasks : Dict Task)
    → lookup id tasks ≡ none
    → count p (put id new tasks) ≡ count p tasks + (if p new then 1 else 0)
count-put_new p id new [] h = ground arith
count-put_new p id new ((j, t) ∷ tasks) h =
    ground (arith, eq_iff j id, count-put_new p id new tasks)

abbrev pub has_user_slot : Phase → Bool
has_user_slot waits_for_user = false
has_user_slot waits_for_global = true
has_user_slot inside = true
has_user_slot finished = false
has_user_slot too_busy = false

abbrev pub is_inside : Phase → Bool
is_inside waits_for_user = false
is_inside waits_for_global = false
is_inside inside = true
is_inside finished = false
is_inside too_busy = false

-- A task of the user that holds one of the user's slots.
abbrev pub holds : String → Task → Bool
holds user_id task = task.user_id == user_id && has_user_slot task.phase

abbrev pub reads : Task → Bool
reads task = is_inside task.phase

-- A task of the user that reads.
abbrev pub reads_as : String → Task → Bool
reads_as user_id task = task.user_id == user_id && is_inside task.phase

pub record IsBalanced (caps : Caps) (limiter : Limiter) : Type 0 where
  pub users :
      (user_id : String)
      → or_else (lookup user_id limiter.per_user_free) caps.per_user
          + count (holds user_id) limiter.tasks
        ≡ caps.per_user
  pub all_users :
      or_else limiter.global_free caps.all_users + count reads limiter.tasks ≡ caps.all_users

module _ (caps : Caps) (limiter : Limiter) (b : IsBalanced caps limiter) where
  -- What a task's new phase changes.
  abbrev moved : String → Task → Phase → Dict Task
  moved id task phase = put id (record task { phase = phase }) limiter.tasks

  take_user_slot-IsBalanced :
      (id : String) (task : Task)
      → lookup id limiter.tasks ≡ some task
      → task.phase ≡ waits_for_user
      → IsBalanced caps (take_user_slot id task limiter)
  take_user_slot-IsBalanced id task known now =
      let after = record task { phase = waits_for_global } in
      record {
        users = λ u. ground (
          arith,
          b.users u,
          count-put (holds u) id task after limiter.tasks known,
          lookup-put task.user_id u (user_free task.user_id limiter - 1) limiter.per_user_free,
          eq_iff task.user_id u,
          now,
        );
        all_users =
            ground (arith, b.all_users, count-put reads id task after limiter.tasks known, now);
      }

  take_global_slot-IsBalanced :
      (id : String) (task : Task)
      → lookup id limiter.tasks ≡ some task
      → task.phase ≡ waits_for_global
      → IsBalanced caps (take_global_slot id task limiter)
  take_global_slot-IsBalanced id task known now =
      let after = record task { phase = inside } in
      record {
        users = λ u.
            ground (arith, b.users u, count-put (holds u) id task after limiter.tasks known, now);
        all_users =
            ground (arith, b.all_users, count-put reads id task after limiter.tasks known, now);
      }

  pub task_step-IsBalanced :
      (event : Event) (phase : Phase) (id : String) (task : Task)
      → lookup id limiter.tasks ≡ some task
      → task.phase ≡ phase
      → IsBalanced caps (task_step event phase id task limiter)
  unfolding task_step
  task_step-IsBalanced (enter _ _) phase id task known now = b
  task_step-IsBalanced (take_user _) waits_for_user id task known now =
      take_user_slot-IsBalanced id task known now
  task_step-IsBalanced (take_user _) waits_for_global id task known now = b
  task_step-IsBalanced (take_user _) inside id task known now = b
  task_step-IsBalanced (take_user _) finished id task known now = b
  task_step-IsBalanced (take_user _) too_busy id task known now = b
  task_step-IsBalanced (take_global _) waits_for_user id task known now = b
  task_step-IsBalanced (take_global _) waits_for_global id task known now =
      take_global_slot-IsBalanced id task known now
  task_step-IsBalanced (take_global _) inside id task known now = b
  task_step-IsBalanced (take_global _) finished id task known now = b
  task_step-IsBalanced (take_global _) too_busy id task known now = b
  task_step-IsBalanced (time_out _) waits_for_user id task known now =
      let after = record task { phase = too_busy } in
      record {
        users = λ u.
            ground (arith, b.users u, count-put (holds u) id task after limiter.tasks known, now);
        all_users =
            ground (arith, b.all_users, count-put reads id task after limiter.tasks known, now);
      }
  task_step-IsBalanced (time_out _) waits_for_global id task known now =
      let after = record task { phase = too_busy } in
      record {
        users = λ u. ground (
          arith,
          b.users u,
          count-put (holds u) id task after limiter.tasks known,
          lookup-put task.user_id u (user_free task.user_id limiter + 1) limiter.per_user_free,
          eq_iff task.user_id u,
          now,
        );
        all_users =
            ground (arith, b.all_users, count-put reads id task after limiter.tasks known, now);
      }
  task_step-IsBalanced (time_out _) inside id task known now = b
  task_step-IsBalanced (time_out _) finished id task known now = b
  task_step-IsBalanced (time_out _) too_busy id task known now = b
  task_step-IsBalanced (leave _) waits_for_user id task known now = b
  task_step-IsBalanced (leave _) waits_for_global id task known now = b
  task_step-IsBalanced (leave _) inside id task known now =
      let after = record task { phase = finished } in
      record {
        users = λ u. ground (
          arith,
          b.users u,
          count-put (holds u) id task after limiter.tasks known,
          lookup-put task.user_id u (user_free task.user_id limiter + 1) limiter.per_user_free,
          eq_iff task.user_id u,
          now,
        );
        all_users =
            ground (arith, b.all_users, count-put reads id task after limiter.tasks known, now);
      }
  task_step-IsBalanced (leave _) finished id task known now = b
  task_step-IsBalanced (leave _) too_busy id task known now = b
