-- ===== src/Usecase/Locks/Restart.antt =====
-- A kernel that is started again while its blocks run.
use noted_runner.Prelude.{
  ℕ, ◌≡◌, refl, ◌∙◌, true, some, List, [], ◌∷◌, Text, text_eq_refl, lookup, insert, lookup-insert,
}
use noted_runner.Usecase.Locks.{
  waiting, Locks, set_locked, new_mutex, unlock, start_kernel, call, lock, defer_unlock, leave,
  no_locks, Reach, none_yet, further,
}

lookup-insert-same :
    (key : Text) (n : ℕ) (muxes : List (Text × ℕ)) → lookup key (insert key n muxes) ≡ some n
lookup-insert-same key n muxes = lookup-insert key key n muxes ∙ (rw (text_eq_refl key) refl)

-- Starting a kernel a second time can end the program: for every key there is an interleaving of runs
-- with two starts of the key after which a mutex has been unlocked that was not locked. One run is
-- inside and another one waits when the mutex is replaced; the second run then locks the old mutex
-- and unlocks the new one.
pub restart_fatal : (key : Text) → (s : Locks) × Reach (key ∷ key ∷ []) s × (s.fatal ≡ true)
unfolding new_mutex insert no_locks unlock set_locked
restart_fatal key =
    let first =
      further
        (further
          (further (further none_yet (start_kernel key)) (call key 0 (lookup-insert-same key 0 [])))
          (lock [] key 0 [] refl refl))
        (defer_unlock [] key 0 0 [] refl (lookup-insert-same key 0 [])) in
    let again =
      further (further first (call key 0 (lookup-insert-same key 0 []))) (start_kernel key) in
    let second =
      further (further again (leave [] key 0 0 (waiting key 0 ∷ []) refl))
        (lock [] key 0 [] refl refl) in
    (
      _,
      further
          (further second
            (defer_unlock [] key 0 1 [] refl (lookup-insert-same key 1 ((key, 0) ∷ []))))
          (leave [] key 0 1 [] refl),
      refl,
    )
