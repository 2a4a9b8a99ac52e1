-- ===== src/Docker/Active.antt =====
-- The list of active containers is a record of every container that was created.
use noted_runner.Prelude.{
  ◌≡◌, refl, sym, none, some, List, [], ◌∷◌, ◌++◌, arith, Text, Outcome, ok, err, panic, ◌∙◌, ap,
}
use mathlib.Core.List.{append_assoc, append-nil}
use noted_runner.Docker.{
  Engine, Docked, create, run, remove, created, close, remove_all, stopped, removed,
}

-- a call of the client by the rest of the program
pub data Call : Type 0 where
  create_call : Text → Text → Call
  run_call : Text → Call
  remove_call : Text → Call

module _ {W : Type 0} (e : Engine W) where
  -- the state behind a call, and the container that it has created
  unfoldable pub perform : Call → Docked W → List Text × Docked W
  perform (create_call name kernel_id) s = noted (create e name kernel_id s)
    where
      noted : Outcome Text × Docked W → List Text × Docked W
      noted (ok id, u) = (id ∷ [], u)
      noted (err x, u) = ([], u)
      noted (panic, u) = ([], u)
  perform (run_call id) s = ([], (run e id s).1)
  perform (remove_call id) (dc, w) = ([], (dc, (remove e id w).1))

  -- a history of calls, with the containers created in it
  unfoldable pub replay : List Call → Docked W → List Text × Docked W
  unfolding perform
  replay [] s = ([], s)
  replay (c ∷ cs) s = let (ids, u) = perform c s in let (more, v) = replay cs u in (ids ++ more, v)

  perform-active :
      (c : Call) (s : Docked W) → (perform c s).1.0.active ≡ s.0.active ++ (perform c s).0
  unfolding perform create created run
  perform-active (create_call name kernel_id) (dc, w) = ground (arith, append-nil dc.active)
  perform-active (run_call id) (dc, w) = sym (append-nil dc.active)
  perform-active (remove_call id) (dc, w) = sym (append-nil dc.active)

  -- After any history of calls the active containers are those of the start and then all that were
  -- created in the history, in their order: removing a container takes none of them off.
  pub replay-active :
      (cs : List Call) (s : Docked W) → (replay cs s).1.0.active ≡ s.0.active ++ (replay cs s).0
  unfolding replay
  replay-active [] s = sym (append-nil s.0.active)
  replay-active (c ∷ cs) s =
      let (ids, u) = perform c s in
      replay-active cs u
      ∙ ap (λ l. l ++ (replay cs u).0) (perform-active c s)
      ∙ append_assoc s.0.active ids (replay cs u).0

  -- what the engine does with one container that is closed: an error of the stop leaves it
  unfoldable pub stop_and_remove : Text → W → W
  stop_and_remove id w =
      let (problem, u) = e.container_stop id w in
      elim problem [ none ↦ (e.container_remove id u).1 | some x ↦ u ]

  abbrev pub stop_and_remove_each : List Text → W → W
  stop_and_remove_each [] w = w
  stop_and_remove_each (id ∷ ids) w = stop_and_remove_each ids (stop_and_remove id w)

  remove-stop_and_remove : (id : Text) (w : W) → (remove e id w).1 ≡ stop_and_remove id w
  unfolding remove stop_and_remove stopped removed
  remove-stop_and_remove id w = ground arith

  remove_all-stop_and_remove_each :
      (ids : List Text) (w : W) → remove_all e ids w ≡ stop_and_remove_each ids w
  unfolding remove_all
  remove_all-stop_and_remove_each [] w = refl
  remove_all-stop_and_remove_each (id ∷ ids) w =
      remove_all-stop_and_remove_each ids (remove e id w).1
      ∙ ap (stop_and_remove_each ids) (remove-stop_and_remove id w)

  -- Closing the client after any calls takes the containers that it knew at the start and then every
  -- container created since, in their order, those that have been removed before included: the engine
  -- stops each and, unless the stop has failed, removes it. Then the connection to the engine is closed.
  pub close-replay :
      (cs : List Call) (s : Docked W)
      → close e (replay cs s).1
        ≡ (e.client_close
            (stop_and_remove_each (s.0.active ++ (replay cs s).0) (replay cs s).1.1)).1
  unfolding close
  close-replay cs s =
      ap (λ w. (e.client_close w).1)
        (ap (λ ids. remove_all e ids (replay cs s).1.1) (replay-active cs s)
          ∙ remove_all-stop_and_remove_each (s.0.active ++ (replay cs s).0) (replay cs s).1.1)
