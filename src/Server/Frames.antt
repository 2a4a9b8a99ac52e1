-- ===== src/Server/Frames.antt =====
-- What becomes of a block that a user sends to the running service.
use noted_runner.Prelude.{
  subst, sym, ◌≡◌, ◌≢◌, refl, ◌⊎◌, inl, inr, false, Option, none, some, List, ◌∷◌, ◌++◌, All-middle,
  Text, Outcome, ok, err, panic,
}
use noted_runner.Middlewares.{Services}
use noted_runner.Docker.{DockerClient}
use noted_runner.Usecase.{Host, Sys, run_block, kernel_key}
use noted_runner.Usecase.Sound.{run_block-returns}
use noted_runner.Usecase.Panics.{Readable, when_read, run_block-ne-panic}
use noted_runner.Usecase.Compiled.{Compiled, run_block-Compiled}
use noted_runner.Usecase.Served.{Served, run_block-Served}
use noted_runner.Delivery.{
  ComilerDelivery, Wire, Session, Reading, again, on_reading, on_message, after_run, after_write,
  failure, is_close,
}
use noted_runner.Delivery.Usecases.{compiler_usecase}
use noted_runner.Server.{Server, Label, Reach}
use noted_runner.Server.World.{sys_services, sys_wire, HasKernel}
use noted_runner.Server.Whole.{initial, Reach-Inv}

some-ne-none : {A : Type 0} {o : Option A} {a : A} → o ≡ some a → o ≢ none
some-ne-none e f = cc

module _ {W : Type 0} (h : Host W) (net : Wire W) where
  -- The block runs in its kernel, or the failure is written to the connection that the block came from.
  unfoldable pub Settled : Text → Text → Session → Reading → ComilerDelivery → Sys W → Type 0
  unfolding compiler_usecase
  Settled mount prefix x r cd u =
      ((t : Sys W) × (on_reading (compiler_usecase h) (sys_wire net) x r (cd, u) ≡ (again, (cd, t)))
        × Served h mount prefix x.kernel_id r.message x.user_id t.world
        × Compiled h x.kernel_id r.message x.user_id u t)
      ⊎ ((text : Text) × (t : Sys W) × (run_block h x.kernel_id r.message x.user_id u
            ≡ (some (err text), t))
          × (on_reading (compiler_usecase h) (sys_wire net) x r (cd, u)
              ≡ after_write (compiler_usecase h) (sys_wire net) x.conn cd (
                  (sys_wire net).write_json x.conn
                    (failure (compiler_usecase h) (sys_wire net) x r.message text) t)))

  settled :
      (x : Session) (r : Reading) (cd : ComilerDelivery) (u : Sys W)
      (o : Option (Outcome (Unit {0})) × Sys W)
      → is_close r.message_type ≡ false
      → r.error ≡ none
      → run_block h x.kernel_id r.message x.user_id u ≡ o
      → o.0 ≢ none
      → o.0 ≢ some panic
      → Settled u.uc.mount_path u.uc.kernel_prefix x r cd u
  unfolding Settled on_reading on_message after_run compiler_usecase
  settled x r cd u (none, t) text_frame fine e returns sound = absurd (returns refl)
  settled x r cd u (some panic, t) text_frame fine e returns sound = absurd (sound refl)
  settled x r cd u (some (ok a), t) text_frame fine e returns sound = inl (
    t,
    rw (on_reading, text_frame, on_message, fine, e) refl,
    run_block-Served h x.kernel_id r.message x.user_id u e,
    run_block-Compiled h x.kernel_id r.message x.user_id u t e,
  )
  settled x r cd u (some (err text), t) text_frame fine e returns sound =
      inr (text, t, e, rw (on_reading, text_frame, on_message, fine, e) refl)

  -- In every state that the service reaches with its use case, each call of `RunBlock` being one step, a
  -- block that a live session sends is settled, if Go's parser of expressions rejects the empty text and
  -- the block's file, where `RunBlock` reads it, either gives an error or holds a document that automerge
  -- loads, whose text has its tokens on its lines and a name behind every `func`. Either the loop goes
  -- on and the block was run: the source that `FormExportFunc` makes of the text in the block's file was
  -- written, the plugin of the attempt was built from it below the configured path without an error,
  -- and the kernel with the configured prefix was asked to run that attempt and answered, which was the
  -- last call of the world outside. Or a message with the error of `RunBlock` is written to the
  -- session's own connection.
  pub Reach-Settled :
      (v : Services W) (client : DockerClient) (mount prefix : Text) (w : W) {history : List Label}
      {s : Server (Sys W)}
      → Reach
          (sys_services v)
          (compiler_usecase h)
          (sys_wire net)
          (initial h v net client mount prefix w)
          history
          s
      → (before : List Session) (x : Session) (after : List Session) (r : Reading)
      → s.live ≡ before ++ x ∷ after
      → is_close r.message_type ≡ false
      → r.error ≡ none
      → Readable h mount x.kernel_id r.message
          (when_read h mount x.kernel_id x.user_id s.program.world)
      → Settled mount prefix x r s.tables s.program
  Reach-Settled v client mount prefix w {s = s} reached before x after r e text_frame fine
        readable =
      let i = Reach-Inv h v net client mount prefix w reached in
      let (p, rest) = All-middle (HasKernel s.program.uc) before x after (rw e at i.in_live) in
      let (types, known) = i.sound.typed (kernel_key x.kernel_id x.user_id) p in
      let at_own =
        settled x r s.tables s.program _ text_frame fine refl
          (run_block-returns h x.kernel_id r.message x.user_id s.program p)
          (run_block-ne-panic h x.kernel_id r.message x.user_id s.program
            (subst
              (λ m.
                Readable h m x.kernel_id r.message
                  (when_read h m x.kernel_id x.user_id s.program.world))
              (sym i.at_mount) readable)
            (λ missing. some-ne-none p missing) known) in
      subst (λ q. Settled mount q x r s.tables s.program) i.with_prefix
        (subst (λ m. Settled m s.program.uc.kernel_prefix x r s.tables s.program) i.at_mount at_own)
