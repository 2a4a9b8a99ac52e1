-- ===== src/Server/Whole.antt =====
-- The service with the use case of internal/usecase/compile.go: what its sessions rely on.
use noted_runner.Prelude.{
  ◌∙◌, false, none, ℕ, ◌≡◌, refl, sym, subst, List, [], ◌∷◌, ◌++◌, Text, All, All-append,
  All-middle, lookup, ◌⊎◌,
}
use noted_runner.Middlewares.{Ctx, Services, or_empty}
use noted_runner.Middlewares.Inv.{guarded-R}
use noted_runner.Docker.{DockerClient}
use noted_runner.Usecase.{Host, Sys, new_compiler_usecase}
use noted_runner.Usecase.Sound.{Sound, Evolves, Evolves-same}
use noted_runner.Usecase.Panics.{Readable, when_read}
use noted_runner.Delivery.{
  Wire, Session, Reading, is_close, bad_request, upgraded, crashed, again, over, open_session,
  on_reading,
}
use noted_runner.Delivery.Usecases.{compiler_usecase}
use noted_runner.Server.{
  Server, Label, Step, request, begin, frame, message, Reach, start, next, route, compile_handler,
  replied, server_services, on_program, begun, read, fresh,
}
use noted_runner.Server.Routes.{remaining-All}
use noted_runner.Server.World.{
  sys_services, sys_wire, HasKernel, All-HasKernel, Called, called, called-Evolves,
  called-HasKernel, on_reading-Evolves, send_memes-uc, on_reading-answered,
}

module _ {W : Type 0} (h : Host W) (v : Services W) (net : Wire W) where
  module _ (mount prefix : Text) where
    -- What holds between two steps of the service.
    pub record Inv (s : Server (Sys W)) : Type 0 where
      pub sound : Sound s.program.uc
      pub in_pending : All (HasKernel s.program.uc) s.pending
      pub in_live : All (HasKernel s.program.uc) s.live
      pub at_mount : s.program.uc.mount_path ≡ mount
      pub with_prefix : s.program.uc.kernel_prefix ≡ prefix

    replied-Inv :
        (c : Ctx) (s : Server (Sys W)) (conn : ℕ) (r : Called h net)
        → called h net (or_empty c.user_id) c.kernel_id conn (s.tables, s.program) ≡ r
        → Evolves s.program.uc r.1.1.uc
        → Inv s
        → Inv (replied (sys_services v) (compiler_usecase h) (sys_wire net) c s r).1
    unfolding replied
    replied-Inv c s conn (bad_request, t) e g i = record {
      sound = g.sound i.sound;
      in_pending = All-HasKernel g s.pending i.in_pending;
      in_live = All-HasKernel g s.live i.in_live;
      at_mount = g.mount ∙ i.at_mount;
      with_prefix = g.prefix ∙ i.with_prefix;
    }
    replied-Inv c s conn (crashed, t) e g i = record {
      sound = g.sound i.sound;
      in_pending = All-HasKernel g s.pending i.in_pending;
      in_live = All-HasKernel g s.live i.in_live;
      at_mount = g.mount ∙ i.at_mount;
      with_prefix = g.prefix ∙ i.with_prefix;
    }
    replied-Inv c s conn (upgraded x, t) e g i =
        let fresh_one =
          called-HasKernel h net (or_empty c.user_id) c.kernel_id conn (s.tables, s.program) t x
            e in
        record {
          sound = g.sound i.sound;
          in_pending =
              All-append (HasKernel t.1.uc) s.pending (x ∷ [])
                (All-HasKernel g s.pending i.in_pending) (fresh_one, tt);
          in_live = All-HasKernel g s.live i.in_live;
          at_mount = g.mount ∙ i.at_mount;
          with_prefix = g.prefix ∙ i.with_prefix;
        }

    route-Inv :
        (conn : ℕ) (c : Ctx) (s : Server (Sys W))
        → Inv s
        → Inv (route (sys_services v) (compiler_usecase h) (sys_wire net) conn (c, s)).1
    unfolding route compile_handler server_services on_program sys_services
    route-Inv conn c s i =
        guarded-R (server_services (sys_services v) (compiler_usecase h) (sys_wire net))
          (λ a b. Inv a → Inv b) (λ a j. j) (λ a b d p q j. q (p j))
          (compile_handler (sys_services v) (compiler_usecase h) (sys_wire net) conn)
          (λ at rt a j. record {
            sound = j.sound;
            in_pending = j.in_pending;
            in_live = j.in_live;
            at_mount = j.at_mount;
            with_prefix = j.with_prefix;
          })
          (λ user file a j. record {
            sound = j.sound;
            in_pending = j.in_pending;
            in_live = j.in_live;
            at_mount = j.at_mount;
            with_prefix = j.with_prefix;
          })
          (λ d a j.
            replied-Inv d a conn _ refl
              (called-Evolves h net (or_empty d.user_id) d.kernel_id conn (a.tables, a.program)) j)
          c s i

    Step-Inv :
        {e : Label} {s t : Server (Sys W)}
        → Step (sys_services v) (compiler_usecase h) (sys_wire net) s e t
        → Inv s
        → Inv t
    unfolding begun read open_session
    Step-Inv {s} (request c conn) i = route-Inv conn c s i
    Step-Inv {s} (begin before x after e) i =
        let (p, rest) = All-middle (HasKernel s.program.uc) before x after (rw e at i.in_pending) in
        record {
          sound = i.sound;
          in_pending = rest;
          in_live = All-append (HasKernel s.program.uc) s.live (x ∷ []) i.in_live (p, tt);
          at_mount = i.at_mount;
          with_prefix = i.with_prefix;
        }
    Step-Inv {s} (frame before x after r e) i =
        let g = on_reading-Evolves h net x r (s.tables, s.program) in
        record {
          sound = g.sound i.sound;
          in_pending = All-HasKernel g s.pending i.in_pending;
          in_live =
              remaining-All (sys_services v) (compiler_usecase h) (sys_wire net) _ before x after _
                (All-HasKernel g (before ++ x ∷ after) (rw e at i.in_live));
          at_mount = g.mount ∙ i.at_mount;
          with_prefix = g.prefix ∙ i.with_prefix;
        }
    Step-Inv {s} (message kernel_id memes) i =
        let same = send_memes-uc h net kernel_id memes (s.tables, s.program) in
        let g = subst (Evolves s.program.uc) (sym same) (Evolves-same s.program.uc) in
        record {
          sound = g.sound i.sound;
          in_pending = All-HasKernel g s.pending i.in_pending;
          in_live = All-HasKernel g s.live i.in_live;
          at_mount = g.mount ∙ i.at_mount;
          with_prefix = g.prefix ∙ i.with_prefix;
        }

  -- the program before the first request
  abbrev pub initial : DockerClient → Text → Text → W → Sys W
  initial client mount prefix w = record {
    uc = new_compiler_usecase client mount prefix;
    world = w;
  }

  pub Reach-Inv :
      (client : DockerClient) (mount prefix : Text) (w : W) {history : List Label}
      {s : Server (Sys W)}
      → Reach
          (sys_services v)
          (compiler_usecase h)
          (sys_wire net)
          (initial client mount prefix w)
          history
          s
      → Inv mount prefix s
  unfolding fresh new_compiler_usecase lookup
  Reach-Inv client mount prefix w start = record {
    sound = record { free = λ key e. cc; typed = λ key e. cc };
    in_pending = tt;
    in_live = tt;
    at_mount = refl;
    with_prefix = refl;
  }
  Reach-Inv client mount prefix w (next r st) =
      Step-Inv mount prefix st (Reach-Inv client mount prefix w r)

  -- In every state that the service reaches with its use case, each call of `RunBlock` being one step: a
  -- frame that a live session reads is answered, so that its loop goes on or is left and does not panic.
  -- A frame with a block needs, for this, that Go's parser of expressions rejects the empty text and
  -- that the file of this block, where `RunBlock` reads it, either gives an error or holds a document
  -- that automerge loads, whose text has its tokens on its lines and a name behind every `func`.
  pub Reach-on_reading :
      (client : DockerClient) (mount prefix : Text) (w : W) {history : List Label}
      {s : Server (Sys W)}
      → Reach
          (sys_services v)
          (compiler_usecase h)
          (sys_wire net)
          (initial client mount prefix w)
          history
          s
      → (before : List Session) (x : Session) (after : List Session) (r : Reading)
      → s.live ≡ before ++ x ∷ after
      → (is_close r.message_type ≡ false
          → r.error ≡ none
          → Readable h mount x.kernel_id r.message
              (when_read h mount x.kernel_id x.user_id s.program.world))
      → ((on_reading (compiler_usecase h) (sys_wire net) x r (s.tables, s.program)).0 ≡ again)
        ⊎ ((on_reading (compiler_usecase h) (sys_wire net) x r (s.tables, s.program)).0 ≡ over)
  Reach-on_reading client mount prefix w {s = s} reached before x after r e readable =
      let i = Reach-Inv client mount prefix w reached in
      let (p, rest) = All-middle (HasKernel s.program.uc) before x after (rw e at i.in_live) in
      on_reading-answered h net x r (s.tables, s.program)
        (λ goes_on fine.
          subst
            (λ m.
              Readable h m x.kernel_id r.message
                (when_read h m x.kernel_id x.user_id s.program.world))
            (sym i.at_mount) (readable goes_on fine))
        i.sound p
