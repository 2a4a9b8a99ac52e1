-- ===== src/Delivery.antt =====
-- internal/delivery/compiler/v1/http/http.go: the handler that starts a kernel for a user, the loop
-- over the frames of the user's connection, and the messages of the kernels. The program below the
-- handler is an interface, `CompilerUsecase`, over a state `S`, which also holds the world outside;
-- the websocket library is a parameter, `Wire`.
pub mod Usecases
pub mod Connections
pub mod Messages
use noted_runner.Prelude.{
  ℕ, Bool, true, false, ◌||◌, Option, none, some, List, [], ◌∷◌, ◌++◌, if◌then◌else◌, Text, ascii,
  lookup, lookup_or_nil, has_key, insert, delete, Outcome, ok, err, panic,
}

-- `CompilerUsecase`; a call of `run_block` may wait for a mutex, and then there is no result
pub record CompilerUsecase (S : Type 0) : Type 0 where
  pub start_kernel : Text → Text → S → Outcome Text × S
  pub run_block : Text → Text → Text → S → Option (Outcome (Unit {0})) × S
  pub stop_kernel : Text → S → Outcome (Unit {0}) × S

-- internal/model/kmessage.go
pub record KernelMessage : Type 0 where
  pub kernel_id : Text
  pub block_id : Text
  pub result : Text
  pub fail : Bool

-- the type of a message; `no_frame` is -1
pub data MessageType : Type 0 where
  text_message binary_message close_message ping_message pong_message no_frame : MessageType

-- what `ReadMessage` returns
pub record Reading : Type 0 where
  pub message_type : MessageType
  pub message : Text
  pub error : Option Text

-- A connection is a number. The calls return an error's text or none.
pub record Wire (S : Type 0) : Type 0 where
  -- `upgrader.Upgrade`; the handler that it is given runs later, on the connection
  pub upgrade : ℕ → S → Option Text × S
  pub write_message : ℕ → Text → S → Option Text × S
  pub write_json : ℕ → KernelMessage → S → Option Text × S
  pub close_conn : ℕ → S → S

pub record ComilerDelivery : Type 0 where
  pub active_conns : List (Text × ℕ)
  pub kernel_listeners : List (Text × Text)

unfoldable pub new_compiler_delivery : ComilerDelivery
new_compiler_delivery = record { active_conns = []; kernel_listeners = [] }

-- the handler's state and the program's
abbrev pub Served : Type 0 → Type 0
Served S = ComilerDelivery × S

-- what the function given to `Upgrade` has captured
pub record Session : Type 0 where
  pub user_id : Text
  pub kernel_id : Text
  pub container : Text
  pub conn : ℕ

pub data Reply : Type 0 where
  bad_request : Reply
  -- the connection is upgraded, and the session will be served on it
  upgraded : Session → Reply
  crashed : Reply

-- how the loop goes on after a frame
pub data Next : Type 0 where
  again : Next
  over : Next
  -- in a call of `run_block` that waits
  waits : Next
  -- a panic
  fallen : Next

unfoldable pub is_close : MessageType → Bool
is_close text_message = false
is_close binary_message = false
is_close close_message = true
is_close ping_message = false
is_close pong_message = false
is_close no_frame = true

module _ {S : Type 0} (uc : CompilerUsecase S) (wire : Wire S) where
  unfoldable pub upgrade_reply : Session → Option Text × S → Reply × S
  upgrade_reply session (none, u) = (upgraded session, u)
  upgrade_reply session (some x, u) = (bad_request, u)

  unfoldable pub started : Text → Text → ℕ → Outcome Text × S → Reply × S
  unfolding upgrade_reply
  started user_id kernel_id conn (ok id, u) =
      upgrade_reply
        (record { user_id = user_id; kernel_id = kernel_id; container = id; conn = conn })
        (wire.upgrade conn u)
  started user_id kernel_id conn (err x, u) = (bad_request, u)
  started user_id kernel_id conn (panic, u) = (crashed, u)

  -- `Compile`, without the function that it gives to `Upgrade`
  unfoldable pub compile : Text → Option Text → ℕ → Served S → Reply × Served S
  unfolding started
  compile user_id none conn s = (bad_request, s)
  compile user_id (some kernel_id) conn (cd, u) =
      let (r, v) = started user_id kernel_id conn (uc.start_kernel kernel_id user_id u) in
      if has_key user_id cd.active_conns then (bad_request, (cd, u)) else (r, (cd, v))

  -- the first two statements of that function
  unfoldable pub open_session : Session → Served S → Served S
  open_session x (cd, u) = (
    record {
      active_conns = insert x.user_id x.conn cd.active_conns;
      kernel_listeners = insert x.kernel_id x.user_id cd.kernel_listeners;
    },
    u,
  )

  -- the result of a write: the loop goes on, or the connection is closed and the loop is left
  unfoldable pub after_write : ℕ → ComilerDelivery → Option Text × S → Next × Served S
  after_write conn cd (none, u) = (again, (cd, u))
  after_write conn cd (some x, u) = (over, (cd, wire.close_conn conn u))

  unfoldable pub failure : Session → Text → Text → KernelMessage
  failure x block_id text = record {
    kernel_id = x.kernel_id;
    block_id = block_id;
    result = ascii "error compiling:" ++ text;
    fail = true;
  }

  unfoldable pub after_run :
      Session → Text → ComilerDelivery → Option (Outcome (Unit {0})) × S → Next × Served S
  unfolding after_write failure
  after_run x block_id cd (none, u) = (waits, (cd, u))
  after_run x block_id cd (some (ok _), u) = (again, (cd, u))
  after_run x block_id cd (some (err text), u) =
      after_write x.conn cd (wire.write_json x.conn (failure x block_id text) u)
  after_run x block_id cd (some panic, u) = (fallen, (cd, u))

  -- a frame that is not a close frame
  unfoldable pub on_message : Session → Reading → Served S → Next × Served S
  unfolding after_write after_run
  on_message x r (cd, u) = elim r.error [
    | some _ ↦ after_write x.conn cd (wire.write_message x.conn (ascii "error reading message") u)
    | none ↦ after_run x r.message cd (uc.run_block x.kernel_id r.message x.user_id u)
  ]

  unfoldable pub on_close : Session → Served S → Next × Served S
  on_close x (cd, u) = (
    over,
    (
      record cd { active_conns = delete x.user_id cd.active_conns },
      (uc.stop_kernel x.container u).1,
    ),
  )

  -- one turn of the loop
  unfoldable pub on_reading : Session → Reading → Served S → Next × Served S
  unfolding on_message on_close is_close
  on_reading x r s = if is_close r.message_type then on_close x s else on_message x r s

  unfoldable pub go_on : Next × Served S → (Served S → Next × Served S) → Next × Served S
  go_on (again, t) rest = rest t
  go_on (over, t) rest = (over, t)
  go_on (waits, t) rest = (waits, t)
  go_on (fallen, t) rest = (fallen, t)

  -- the loop over the frames that come in; with none left it waits for the next
  unfoldable pub serve : Session → List Reading → Served S → Next × Served S
  unfolding on_reading go_on
  serve x [] s = (again, s)
  serve x (r ∷ rs) s = go_on (on_reading x r s) (serve x rs)

  unfoldable pub send_to : Option ℕ → Text → S → S
  send_to none memes u = u
  send_to (some conn) memes u = (wire.write_message conn memes u).1

  -- `SendMemes`
  unfoldable pub send_memes : Text → Text → Served S → Served S
  unfolding send_to
  send_memes kernel_id memes (cd, u) =
      (cd, send_to (lookup (lookup_or_nil kernel_id cd.kernel_listeners) cd.active_conns) memes u)

  -- internal/consumers/runner.go: `Consume` over the bodies that come in; `unmarshal` reads the kernel
  -- of a message, or there is an error
  unfoldable pub consume : (Text → Option Text) → List Text → Served S → Served S
  unfolding send_memes
  consume unmarshal [] s = s
  consume unmarshal (body ∷ bodies) s = consume unmarshal bodies (received (unmarshal body))
    where
      received : Option Text → Served S
      received none = s
      received (some kernel_id) = send_memes kernel_id body s
