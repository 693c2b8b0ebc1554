-- ===== src/Tests/Jobs.antt =====
-- The executor theorems on a lifecycle job beside a general one.
use pal_panel_host_wine.Prelude.{ℕ, ◌≡◌, ◌≤◌, refl, true, false, update}
use pal_panel_host_wine.Jobs.{
  general, lifecycle, working, ended, Executor, capacity, new_executor, is_terminal, submit,
  acquire, can_acquire, finish, release, submits, acquires, finishes, Steps, here, later, Reach,
}
use pal_panel_host_wine.Jobs.Invariant.{count}
use pal_panel_host_wine.Jobs.Safety.{count-general-le, lifecycle_exclusive, ended-is_terminal}
use pal_panel_host_wine.Jobs.Drain.{is_active, drains}

abbrev submitted : Executor
submitted = submit general (submit lifecycle new_executor)

abbrev at_work : Executor
at_work = acquire 1 general (acquire 0 lifecycle submitted)

-- A pool whose size is not set.
abbrev unset : ℕ
unset = 0

at_work-Reach : Reach (capacity unset) at_work
unfolding acquire submit can_acquire update
at_work-Reach =
    later
      (later (later (later here (submits lifecycle refl)) (submits general refl))
        (acquires 0 lifecycle refl refl))
      (acquires 1 general refl refl)

count-general-le_example : count general at_work ≤ capacity unset
count-general-le_example = count-general-le unset at_work-Reach

works_first : at_work.phase 0 ≡ working lifecycle
unfolding acquire submit update
works_first = refl

abbrev first_job : ℕ
first_job = 0

lifecycle_exclusive_example : first_job ≡ first_job
lifecycle_exclusive_example =
    lifecycle_exclusive first_job first_job at_work-Reach works_first works_first

drains_example :
    (f : Executor) × Steps (capacity unset) at_work f × ((i : ℕ) → is_active (f.phase i) ≡ false)
drains_example = drains unset at_work-Reach

-- The lifecycle job panics.
abbrev panicked : Executor
panicked = finish 0 lifecycle true true at_work

panicked-Reach : Reach (capacity unset) panicked
panicked-Reach = later at_work-Reach (finishes 0 lifecycle true true works_first)

has_ended : panicked.phase 0 ≡ ended true
unfolding finish release update
has_ended = refl

ended-is_terminal_example : is_terminal (panicked.table 0).status ≡ true
ended-is_terminal_example = ended-is_terminal 0 panicked-Reach has_ended
