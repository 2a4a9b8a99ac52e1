-- ===== src/Application/Shutdown.antt =====
-- internal/application/app.go, `Run`, as steps of its three goroutines: the one of the HTTP server, the
-- one of the consumer and the one of `Run` itself, which receives the signal, shuts the server down,
-- closes the queue and waits for the other two.
use noted_runner.Prelude.{
  ℕ, ◌+◌, ◌<◌, ◌≤◌, ◌≡◌, refl, subst, Bool, true, false, ◌||◌, Option, none, some, arith, Text, ok,
  panic, ◌⊎◌, inl, inr, Bool-cases,
}
use noted_runner.Rabbit.{close, close-new_rabbit, Crashes}
use noted_runner.Application.{Platform, App, new_app}
use noted_runner.Application.Wiring.{Wired, Fitted, new_app-ok}

-- where `Run` is: at `<-quit`, at `srv.Shutdown()`, at `Rabbit.Close()`, at `wg.Wait()`, or at its end
pub data Main : Type 0 where
  receiving shutting closing waiting returned crashed : Main

-- `listening` and `consuming`: whether the goroutines of the server and of the consumer run. The server's
-- listener is closed by Shutdown, the stream of deliveries by the end of its channel.
pub record Running (W : Type 0) : Type 0 where
  pub main : Main
  pub listening : Bool
  pub consuming : Bool
  pub listener_closed : Bool
  pub deliveries_closed : Bool
  pub world : W

-- behind the two calls of `wg.Go`
unfoldable pub spawned : {W : Type 0} → W → Running W
spawned w = record {
  main = receiving;
  listening = true;
  consuming = true;
  listener_closed = false;
  deliveries_closed = false;
  world = w;
}

module _ {W : Type 0} (platform : Platform W) (shutdown : W → Option Text × W) (app : App) where
  pub data Step : Running W → Running W → Type 0 where
    -- a request is handled or a result is passed on
    work :
        (s : Running W) (u : W)
        → (s.listening || s.consuming) ≡ true
        → Step s (record s { world = u })
    -- ListenAndServe returns an error, which is logged
    listen_fails : (s : Running W) → s.listening ≡ true → Step s (record s { listening = false })
    -- ListenAndServe returns nil, since the listener is closed
    listen_ends :
        (s : Running W)
        → s.listening ≡ true
        → s.listener_closed ≡ true
        → Step s (record s { listening = false })
    -- the broker closes the channel of the queue
    queue_lost : (s : Running W) → Step s (record s { deliveries_closed = true })
    -- `Consume` returns at the end of the deliveries
    consume_ends :
        (s : Running W)
        → s.consuming ≡ true
        → s.deliveries_closed ≡ true
        → Step s (record s { consuming = false })
    signalled : (s : Running W) → s.main ≡ receiving → Step s (record s { main = shutting })
    -- an error of the server's shutdown is only logged
    shut_down :
        (s : Running W)
        → s.main ≡ shutting
        → Step s (record s { main = closing; listener_closed = true; world = (shutdown s.world).1 })
    queue_closed :
        (s : Running W) (v : W)
        → s.main ≡ closing
        → close platform.amqp app.components.rabbit s.world ≡ (ok tt, v)
        → Step s (record s { main = waiting; deliveries_closed = true; world = v })
    close_panics :
        (s : Running W) (v : W)
        → s.main ≡ closing
        → close platform.amqp app.components.rabbit s.world ≡ (panic, v)
        → Step s (record s { main = crashed; world = v })
    waited :
        (s : Running W)
        → s.main ≡ waiting
        → s.listening ≡ false
        → s.consuming ≡ false
        → Step s (record s { main = returned })

  pub data Reach (s : Running W) : Running W → Type 0 where
    here : Reach s s
    next : {t u : Running W} → Reach s t → Step t u → Reach s u

-- how much `Run` and its goroutines have in front of them
abbrev pub phase : Main → ℕ
phase receiving = 4
phase shutting = 3
phase closing = 2
phase waiting = 1
phase returned = 0
phase crashed = 0

abbrev pub one_if : Bool → ℕ
one_if true = 1
one_if false = 0

abbrev pub left : {W : Type 0} → Running W → ℕ
left s = phase s.main + one_if s.listening + one_if s.consuming

-- What each place of `Run` may rely on. A service whose queue closes without a panic does not crash.
abbrev Expects : {W : Type 0} → Main → Running W → Type 0
Expects receiving s = Unit {0}
Expects shutting s = Unit {0}
Expects closing s = s.listener_closed ≡ true
Expects waiting s = (s.listener_closed ≡ true) × (s.deliveries_closed ≡ true)
Expects returned s = (s.listening ≡ false) × (s.consuming ≡ false)
Expects crashed s = true ≡ false

-- A goroutine that ends and a channel that is closed take nothing away from that.
Expects-later :
    {W : Type 0} (m : Main) (s u : Running W)
    → (s.listener_closed ≡ true → u.listener_closed ≡ true)
    → (s.deliveries_closed ≡ true → u.deliveries_closed ≡ true)
    → (s.listening ≡ false → u.listening ≡ false)
    → (s.consuming ≡ false → u.consuming ≡ false)
    → Expects m s
    → Expects m u
Expects-later receiving s u a b c d h = tt
Expects-later shutting s u a b c d h = tt
Expects-later closing s u a b c d h = a h
Expects-later waiting s u a b c d h = (a h.0, b h.1)
Expects-later returned s u a b c d h = (c h.0, d h.1)
Expects-later crashed s u a b c d h = h

module _ {W : Type 0} (platform : Platform W) (shutdown : W → Option Text × W) (app : App)
    (closes : (u : W) → (v : W) × (close platform.amqp app.components.rabbit u ≡ (ok tt, v))) where
  Step-Expects :
      {s u : Running W} → Step platform shutdown app s u → Expects s.main s → Expects u.main u
  Step-Expects (work s u e) h = Expects-later s.main s _ (λ a. a) (λ a. a) (λ a. a) (λ a. a) h
  Step-Expects (listen_fails s e) h =
      Expects-later s.main s _ (λ a. a) (λ a. a) (λ a. refl) (λ a. a) h
  Step-Expects (listen_ends s e c) h =
      Expects-later s.main s _ (λ a. a) (λ a. a) (λ a. refl) (λ a. a) h
  Step-Expects (queue_lost s) h = Expects-later s.main s _ (λ a. a) (λ a. refl) (λ a. a) (λ a. a) h
  Step-Expects (consume_ends s e c) h =
      Expects-later s.main s _ (λ a. a) (λ a. a) (λ a. a) (λ a. refl) h
  Step-Expects (signalled s e) h = tt
  Step-Expects (shut_down s e) h = refl
  Step-Expects (queue_closed s v e c) h = (subst (λ m. Expects m s) e h, refl)
  Step-Expects (close_panics s v e c) h = let (w, k) = closes s.world in cc
  Step-Expects (waited s e l c) h = (l, c)

  Reach-Expects :
      {s u : Running W} → Expects s.main s → Reach platform shutdown app s u → Expects u.main u
  Reach-Expects h here = h
  Reach-Expects h (next r st) = Step-Expects st (Reach-Expects h r)

  -- what is next for `Run` or for a goroutine that it waits for
  abbrev pub Goes : Running W → Type 0
  Goes s = (u : Running W) × Step platform shutdown app s u × (left u < left s)

  wait-Goes : (s : Running W) → s.main ≡ waiting → Expects waiting s → Goes s
  wait-Goes s e (l, d) = elim (Bool-cases s.listening) [
    | inl on ↦ (record s { listening = false }, listen_ends s on l, ground (arith, on))
    | inr off ↦ elim (Bool-cases s.consuming) [
      | inl on ↦ (record s { consuming = false }, consume_ends s on d, ground (arith, on))
      | inr none_left ↦ (record s { main = returned }, waited s e off none_left, ground (arith, e))
    ]
  ]

  Expects-Goes :
      (m : Main) (s : Running W)
      → s.main ≡ m
      → Expects m s
      → ((s.main ≡ returned) × (s.listening ≡ false) × (s.consuming ≡ false)) ⊎ Goes s
  Expects-Goes receiving s e h =
      inr (record s { main = shutting }, signalled s e, ground (arith, e))
  Expects-Goes shutting s e h = inr (_, shut_down s e, ground (arith, e))
  Expects-Goes closing s e h =
      let (v, c) = closes s.world in inr (_, queue_closed s v e c, ground (arith, e))
  Expects-Goes waiting s e h = inr (wait-Goes s e h)
  Expects-Goes returned s e h = inl (e, h.0, h.1)
  Expects-Goes crashed s e h = cc

Step-left :
    {W : Type 0} (platform : Platform W) (shutdown : W → Option Text × W) (app : App)
    {s u : Running W}
    → Step platform shutdown app s u
    → left u ≤ left s
Step-left platform shutdown app (work s u e) = omega arith
Step-left platform shutdown app (listen_fails s e) = ground (arith, e)
Step-left platform shutdown app (listen_ends s e c) = ground (arith, e)
Step-left platform shutdown app (queue_lost s) = omega arith
Step-left platform shutdown app (consume_ends s e c) = ground (arith, e)
Step-left platform shutdown app (signalled s e) = ground (arith, e)
Step-left platform shutdown app (shut_down s e) = ground (arith, e)
Step-left platform shutdown app (queue_closed s v e c) = ground (arith, e)
Step-left platform shutdown app (close_panics s v e c) = ground (arith, e)
Step-left platform shutdown app (waited s e l c) = ground (arith, e)

Reach-left :
    {W : Type 0} (platform : Platform W) (shutdown : W → Option Text × W) (app : App)
    {s u : Running W}
    → Reach platform shutdown app s u
    → left u ≤ left s
Reach-left platform shutdown app here = omega arith
Reach-left platform shutdown app (next r st) =
    omega (arith, Reach-left platform shutdown app r, Step-left platform shutdown app st)

no_error : {W : Type 0} (r : Option Text × W) → r.0 ≡ none → r ≡ (none, r.1)
no_error (none, w) e = refl
no_error (some x, w) e = cc

-- A service that `NewApp` returned, where the channel and the connection of the queue can always be
-- closed, in any state that its goroutines reach: either `Run` has returned, and then the goroutines of
-- the server and of the consumer have ended before, or some goroutine has a next step, which brings
-- `Run` nearer to its end: the signal, if it has not come, is the one of `Run`. No step of any
-- goroutine brings `Run` farther from its end, so that `Run` has to make at most six such steps.
pub Reach-returns :
    {W : Type 0} (platform : Platform W) (shutdown : W → Option Text × W) (configs_dir : Text)
    (w v : W) (app : App)
    → new_app platform configs_dir w ≡ (ok app, v)
    → ((ch : ℕ) (u : W) → (platform.amqp.close_channel ch u).0 ≡ none)
    → ((conn : ℕ) (u : W) → (platform.amqp.close_connection conn u).0 ≡ none)
    → (s : Running W) → Reach platform shutdown app (spawned v) s
    → (((s.main ≡ returned) × (s.listening ≡ false) × (s.consuming ≡ false))
        ⊎ ((u : Running W) × Step platform shutdown app s u × (left u < left s)))
      × ((u : Running W) → Step platform shutdown app s u → left u ≤ left s)
      × (left s ≤ 6)
unfolding Wired Fitted Crashes spawned
Reach-returns {W = W} platform shutdown configs_dir w v app made channel connection s r =
    let wired = new_app-ok platform configs_dir w v app made in
    let (u0, u1, queue) = wired.2.0 in
    let (ch, conn, has_ch, has_conn, crashes) =
      close-new_rabbit platform.amqp app.configs.docker.env.rmq_addr
        app.configs.docker.env.chan_name u0 u1 app.components.rabbit queue in
    let closes : (u : W) → (t : W) × (close platform.amqp app.components.rabbit u ≡ (ok tt, t)) =
      λ u.
        let t = (platform.amqp.close_channel ch u).1 in
        (
          (platform.amqp.close_connection conn t).1,
          crashes.2 u t _ (no_error _ (channel ch u)) (no_error _ (connection conn t)),
        ) in
    (
      Expects-Goes platform shutdown app closes s.main s refl
          (Reach-Expects platform shutdown app closes tt r),
      (λ u st. Step-left platform shutdown app st),
      Reach-left platform shutdown app r,
    )
