-- ===== src/Tests/Locks.antt =====
-- Runs of the blocks of one kernel.
use noted_runner.Prelude.{
  ◌≤◌, ◌≡◌, refl, true, false, [], ◌∷◌, Text, ascii, lookup, insert, text_eq, contains,
}
use noted_runner.Usecase.Locks.{
  Locks, new_mutex, no_locks, start_kernel, call, lock, defer_unlock, Reach, none_yet, further,
}
use noted_runner.Usecase.Locks.Exclusion.{Once, active, Reach-active}
use noted_runner.Usecase.Locks.Progress.{Drains, Reach-Drains}
use noted_runner.Usecase.Locks.Restart.{restart_fatal}

-- one run is inside, another one waits
two_runs : (s : Locks) × Reach (ascii "ku" ∷ []) s
unfolding new_mutex insert no_locks lookup text_eq
two_runs = (
  _,
  further
      (further
        (further (further (further none_yet (start_kernel (ascii "ku"))) (call (ascii "ku") 0 refl))
          (lock [] (ascii "ku") 0 [] refl refl))
        (defer_unlock [] (ascii "ku") 0 0 [] refl refl))
      (call (ascii "ku") 0 refl),
)

Reach-active_example : (two_runs.0.fatal ≡ false) × ((key : Text) → active key two_runs.0.runs ≤ 1)
unfolding Once contains
Reach-active_example = Reach-active two_runs.1 (refl, tt)

restart_fatal_example : (s : Locks) × Reach (ascii "ku" ∷ ascii "ku" ∷ []) s × (s.fatal ≡ true)
restart_fatal_example = restart_fatal (ascii "ku")

Reach-Drains_example : Drains two_runs.0
unfolding two_runs Once contains
Reach-Drains_example = Reach-Drains two_runs.1 (refl, tt)
