-- ===== src/Concurrency/Turns.antt =====
-- What holds after any schedule: the caps, and who can go on.
use precis_finance_mcp.Common.{
  ℕ, ◌+◌, ◌-◌, ◌≤◌, ◌<◌, String, ◌≡◌, refl, arith, Bool, true, not, ◌&&◌, Option, none, some, List,
  [], ◌∷◌, eq_iff, eq_refl, is_none, Dict, lookup, lookup-put, lookup-has_key, has_key, has_key-put,
  Option-cases, inl, inr,
}
use precis_finance_mcp.Concurrency.{
  int_env, caps_of, Caps, Phase, waits_for_user, waits_for_global, inside, finished, too_busy, Task,
  Limiter, idle, Event, enter, take_user, take_global, time_out, leave, slots_for, user_free,
  task_step, task_of, enters, step, run,
}
use precis_finance_mcp.Concurrency.Slots.{
  count, count-put_new, holds, reads, reads_as, IsBalanced, task_step-IsBalanced,
}

-- Every task came with its semaphores made.
IsMade : Limiter → Type 0
IsMade limiter =
    (id : String) (task : Task)
    → lookup id limiter.tasks ≡ some task
    → (has_key task.user_id limiter.per_user_free && not (is_none limiter.global_free)) ≡ true

module _ (caps : Caps) (limiter : Limiter) where
  enters-IsBalanced :
      (event : Event)
      → IsBalanced caps limiter
      → lookup (task_of event) limiter.tasks ≡ none
      → IsBalanced caps (enters caps event limiter)
  unfolding slots_for
  enters-IsBalanced (enter id user_id) b new =
      let task : Task = record { user_id = user_id; phase = waits_for_user } in
      record {
        users = λ u. ground (
          arith,
          b.users u,
          count-put_new (holds u) id task limiter.tasks new,
          lookup-put user_id u caps.per_user limiter.per_user_free,
          eq_iff user_id u,
        );
        all_users = ground (arith, b.all_users, count-put_new reads id task limiter.tasks new);
      }
  enters-IsBalanced (take_user _) b new = b
  enters-IsBalanced (take_global _) b new = b
  enters-IsBalanced (time_out _) b new = b
  enters-IsBalanced (leave _) b new = b

  step-IsBalanced :
      (event : Event) → IsBalanced caps limiter → IsBalanced caps (step caps event limiter)
  unfolding step
  step-IsBalanced event b = elim (Option-cases (lookup (task_of event) limiter.tasks)) [
    | inl new ↦ rw (step, new) (enters-IsBalanced event b new)
    | inr (task, known) ↦
        rw (step, known)
          (task_step-IsBalanced caps limiter b event task.phase (task_of event) task known refl)
  ]

  enters-IsMade :
      (event : Event)
      → IsMade limiter
      → lookup (task_of event) limiter.tasks ≡ none
      → IsMade (enters caps event limiter)
  unfolding slots_for IsMade
  enters-IsMade (enter id user_id) made new j t found = ground (
    arith,
    made j t,
    lookup-put id j (record { user_id = user_id; phase = waits_for_user }) limiter.tasks,
    has_key-put user_id t.user_id caps.per_user limiter.per_user_free,
    lookup-has_key user_id limiter.per_user_free,
    eq_iff user_id t.user_id,
    eq_iff id j,
  )
  enters-IsMade (take_user _) made new j t found = made j t found
  enters-IsMade (take_global _) made new j t found = made j t found
  enters-IsMade (time_out _) made new j t found = made j t found
  enters-IsMade (leave _) made new j t found = made j t found

  task_step-IsMade :
      (event : Event) (phase : Phase) (id : String) (task : Task)
      → IsMade limiter
      → lookup id limiter.tasks ≡ some task
      → IsMade (task_step event phase id task limiter)
  unfolding task_step IsMade
  task_step-IsMade event phase id task made known j t found =
      let free = user_free task.user_id limiter in
      ground (
        arith,
        made j t,
        made id task known,
        lookup-put id j (record task { phase = waits_for_global }) limiter.tasks,
        lookup-put id j (record task { phase = inside }) limiter.tasks,
        lookup-put id j (record task { phase = too_busy }) limiter.tasks,
        lookup-put id j (record task { phase = finished }) limiter.tasks,
        has_key-put task.user_id t.user_id (free - 1) limiter.per_user_free,
        has_key-put task.user_id t.user_id (free + 1) limiter.per_user_free,
        eq_iff task.user_id t.user_id,
        eq_iff id j,
      )

  step-IsMade : (event : Event) → IsMade limiter → IsMade (step caps event limiter)
  unfolding step
  step-IsMade event made = elim (Option-cases (lookup (task_of event) limiter.tasks)) [
    | inl new ↦ rw (step, new) (enters-IsMade event made new)
    | inr (task, known) ↦
        rw (step, known) (task_step-IsMade event task.phase (task_of event) task made known)
  ]

module _ (caps : Caps) where
  run-keeps :
      (events : List Event) (limiter : Limiter)
      → IsBalanced caps limiter
      → IsMade limiter
      → IsBalanced caps (run caps events limiter) × IsMade (run caps events limiter)
  unfolding run
  run-keeps [] limiter b made = (b, made)
  run-keeps (event ∷ events) limiter b made =
      run-keeps events (step caps event limiter) (step-IsBalanced caps limiter event b)
        (step-IsMade caps limiter event made)

  idle-IsBalanced : IsBalanced caps idle
  idle-IsBalanced = record { users = λ u. omega arith; all_users = omega arith }

  idle-IsMade : IsMade idle
  unfolding IsMade
  idle-IsMade id task found = cc

  -- After every schedule from the start, what is free of a semaphore and what tasks hold of it make
  -- the cap: of each user's, by the tasks of that user between their two acquisitions and their
  -- release, and of the one for all, by the tasks that read.
  pub run-IsBalanced : (events : List Event) → IsBalanced caps (run caps events idle)
  run-IsBalanced events = (run-keeps events idle idle-IsBalanced idle-IsMade).0

  count_mono :
      (p q : Task → Bool) (tasks : Dict Task)
      → ((t : Task) → p t ≡ true → q t ≡ true)
      → count p tasks ≤ count q tasks
  count_mono p q [] h = omega arith
  count_mono p q ((id, t) ∷ tasks) h = ground (arith, h t, count_mono p q tasks h)

  reads_as-holds :
      (user_id : String) (t : Task) → reads_as user_id t ≡ true → holds user_id t ≡ true
  reads_as-holds user_id t h = ground arith

  -- After every schedule from the start, no user has more reads running than the user's cap, and all
  -- users together no more than the cap for all.
  pub run_bounds :
      (events : List Event) (user_id : String)
      → (count (reads_as user_id) (run caps events idle).tasks ≤ caps.per_user)
        × (count reads (run caps events idle).tasks ≤ caps.all_users)
  run_bounds events user_id =
      let b = run-IsBalanced events in
      (
        omega (
          arith,
          b.users user_id,
          count_mono (reads_as user_id) (holds user_id) (run caps events idle).tasks
              (reads_as-holds user_id),
        ),
        omega (arith, b.all_users),
      )

int_env-pos : (raw : Option String) (default : ℕ) → 0 < default → 0 < int_env raw default
unfolding int_env
int_env-pos none default h = h
int_env-pos (some raw) default h = ground (arith, h)

module _ (caps : Caps) (limiter : Limiter) (b : IsBalanced caps limiter)
    (made : IsMade limiter) where
  step-take_global :
      (id : String) (task : Task)
      → 0 < caps.all_users
      → lookup id limiter.tasks ≡ some task
      → task.phase ≡ waits_for_global
      → count reads limiter.tasks ≡ 0
      → lookup id (step caps (take_global id) limiter).tasks ≡ some (record task { phase = inside })
  unfolding step task_step IsMade
  step-take_global id task capped known now none_reads =
      let after = record task { phase = inside } in
      rw (step, known, now)
        (ground (
          arith,
          b.all_users,
          made id task known,
          lookup-put id id after limiter.tasks,
          eq_refl id,
        ))

  step-take_user :
      (id : String) (task : Task)
      → 0 < caps.per_user
      → lookup id limiter.tasks ≡ some task
      → task.phase ≡ waits_for_user
      → count (holds task.user_id) limiter.tasks ≡ 0
      → lookup id (step caps (take_user id) limiter).tasks
        ≡ some (record task { phase = waits_for_global })
  unfolding step task_step IsMade
  step-take_user id task capped known now none_holds =
      let after = record task { phase = waits_for_global } in
      rw (step, known, now)
        (ground (
          arith,
          b.users task.user_id,
          made id task known,
          lookup-has_key task.user_id limiter.per_user_free,
          lookup-put id id after limiter.tasks,
          eq_refl id,
        ))

module _ (per_user_env global_env : Option String) (events : List Event) where
  abbrev pub limiter_after : Limiter
  limiter_after = run (caps_of per_user_env global_env) events idle

  -- After every schedule from the start, whatever the environment says of the caps: a task that waits
  -- for the slot of all users gets it if no task reads.
  pub run-take_global :
      (id : String) (task : Task)
      → lookup id limiter_after.tasks ≡ some task
      → task.phase ≡ waits_for_global
      → count reads limiter_after.tasks ≡ 0
      → lookup id (step (caps_of per_user_env global_env) (take_global id) limiter_after).tasks
        ≡ some (record task { phase = inside })
  run-take_global id task =
      let (b, made) =
        run-keeps (caps_of per_user_env global_env) events idle
          (idle-IsBalanced (caps_of per_user_env global_env))
          (idle-IsMade (caps_of per_user_env global_env)) in
      step-take_global (caps_of per_user_env global_env) limiter_after b made id task
        (int_env-pos global_env 32 (omega arith))

  -- After every schedule from the start, whatever the environment says of the caps: a task that waits
  -- for a slot of its user gets it if no task of that user holds one.
  pub run-take_user :
      (id : String) (task : Task)
      → lookup id limiter_after.tasks ≡ some task
      → task.phase ≡ waits_for_user
      → count (holds task.user_id) limiter_after.tasks ≡ 0
      → lookup id (step (caps_of per_user_env global_env) (take_user id) limiter_after).tasks
        ≡ some (record task { phase = waits_for_global })
  run-take_user id task =
      let (b, made) =
        run-keeps (caps_of per_user_env global_env) events idle
          (idle-IsBalanced (caps_of per_user_env global_env))
          (idle-IsMade (caps_of per_user_env global_env)) in
      step-take_user (caps_of per_user_env global_env) limiter_after b made id task
        (int_env-pos per_user_env 6 (omega arith))
