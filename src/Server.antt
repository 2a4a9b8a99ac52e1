-- ===== src/Server.antt =====
-- The running service: the route of internal/delivery/compiler/v1/http/http.go with its guards, the
-- sessions that are served at the same time, and the messages of the kernels, as the server and the
-- consumer that internal/application/app.go starts interleave them.
pub mod Routes
pub mod Admission
pub mod Routing
pub mod Consumption
pub mod Races
pub mod World
pub mod Whole
pub mod Frames
use noted_runner.Prelude.{ℕ, ◌≡◌, Bool, true, false, Option, none, some, List, [], ◌∷◌, ◌++◌, Text}
use noted_runner.Middlewares.{Ctx, UserDto, Services, Handler, or_empty, guarded}
use noted_runner.Delivery.{
  CompilerUsecase, Wire, ComilerDelivery, new_compiler_delivery, Served, Session, Reading, Reply,
  bad_request, upgraded, crashed, Next, again, over, waits, fallen, compile, open_session,
  on_reading, send_memes, is_close,
}

-- `pending` holds the sessions whose connection is upgraded and whose handler has not begun, `live`
-- those whose loop waits for a frame.
pub record Server (S : Type 0) : Type 0 where
  pub pending : List Session
  pub live : List Session
  pub tables : ComilerDelivery
  pub program : S

-- What a step does to the tables of connections and listeners: it opens or closes a session, or leaves
-- them alone, as a request does that is received.
pub data Label : Type 0 where
  opened : Session → Label
  closed : Session → Label
  received : Ctx → Label
  silent : Label

module _ {S : Type 0} (services : Services S) (uc : CompilerUsecase S) (wire : Wire S) where
  -- the handler's state and the program's, with that of the server
  abbrev pub served : Server S → Served S
  served s = (s.tables, s.program)

  abbrev pub with_served : Server S → Served S → Server S
  with_served s (cd, u) = record s { tables = cd; program = u }

  -- the services, which see only the program's state
  unfoldable pub on_program : {A : Type 0} → (S → Option A × S) → Server S → Option A × Server S
  on_program f s = let (r, u) = f s.program in (r, record s { program = u })

  unfoldable pub server_services : Services (Server S)
  unfolding on_program
  server_services = record {
    auth_user_id = λ at rt. on_program (services.auth_user_id at rt);
    file_access = λ user file. on_program (services.file_access user file);
  }

  unfoldable pub replied : Ctx → Server S → Reply × Served S → Ctx × Server S
  replied c s (bad_request, t) = (record c { status = 400 }, with_served s t)
  replied c s (upgraded x, t) = (c, record (with_served s t) { pending = s.pending ++ x ∷ [] })
  replied c s (crashed, t) = (c, with_served s t)

  -- `Compile` as a handler of a request on the connection `conn`
  unfoldable pub compile_handler : ℕ → Handler (Server S)
  unfolding replied
  compile_handler conn (c, s) =
      replied c s (compile uc wire (or_empty c.user_id) c.kernel_id conn (served s))

  -- `cd.authMW.AuthMiddleware(cd.accessMW.MW(cd.Compile))`
  unfoldable pub route : ℕ → Handler (Server S)
  unfolding compile_handler server_services
  route conn = guarded server_services (compile_handler conn)

  -- A pending session begins.
  unfoldable pub begun : List Session → Session → List Session → Server S → Server S
  begun before x after s = record (with_served s (open_session uc wire x (served s))) {
    pending = before ++ after;
    live = s.live ++ x ∷ [];
  }

  -- the live sessions after a frame of `x`; a session that waits or has fallen reads no more
  unfoldable pub remaining : List Session → Session → List Session → Next → List Session
  remaining before x after again = before ++ x ∷ after
  remaining before x after over = before ++ after
  remaining before x after waits = before ++ after
  remaining before x after fallen = before ++ after

  -- A live session reads a frame.
  unfoldable pub read : List Session → Session → List Session → Reading → Server S → Server S
  unfolding remaining
  read before x after r s =
      let (n, t) = on_reading uc wire x r (served s) in
      record (with_served s t) { live = remaining before x after n }

  abbrev pub label_of : Session → Bool → Label
  label_of x true = closed x
  label_of x false = silent

  -- A step of the service: a request of anyone, the beginning of a pending session, a frame of a live
  -- one, a message of a kernel.
  pub data Step (s : Server S) : Label → Server S → Type 0 where
    request : (c : Ctx) (conn : ℕ) → Step s (received c) (route conn (c, s)).1
    begin :
        (before : List Session) (x : Session) (after : List Session)
        → s.pending ≡ before ++ x ∷ after
        → Step s (opened x) (begun before x after s)
    frame :
        (before : List Session) (x : Session) (after : List Session) (r : Reading)
        → s.live ≡ before ++ x ∷ after
        → Step s (label_of x (is_close r.message_type)) (read before x after r s)
    message :
        (kernel_id memes : Text)
        → Step s silent (with_served s (send_memes uc wire kernel_id memes (served s)))

  -- the service before its first request
  unfoldable pub fresh : S → Server S
  fresh u = record { pending = []; live = []; tables = new_compiler_delivery; program = u }

  -- What is reached from a fresh service, with the labels of the steps, the last one first.
  pub data Reach (u : S) : List Label → Server S → Type 0 where
    start : Reach u [] (fresh u)
    next :
        {history : List Label} {e : Label} {s t : Server S}
        → Reach u history s
        → Step s e t
        → Reach u (e ∷ history) t
