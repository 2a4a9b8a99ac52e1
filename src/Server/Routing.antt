-- ===== src/Server/Routing.antt =====
-- Where the messages of a kernel go, in terms of what has happened.
use noted_runner.Prelude.{
  ℕ, ◌≡◌, refl, ap, ◌∙◌, Option, none, some, List, [], ◌∷◌, arith, Text, lookup, lookup-insert,
  lookup-delete, text_eq, if◌then◌else◌,
}
use noted_runner.Middlewares.{Services, or_empty}
use noted_runner.Delivery.{
  CompilerUsecase, Wire, ComilerDelivery, new_compiler_delivery, Served, Session, Reading,
  open_session, on_reading, on_message, on_close, after_write, after_run, send_memes, send_to,
  is_close,
}
use noted_runner.Server.{
  Server, Label, opened, closed, received, silent, Step, request, begin, frame, message, Reach,
  start, next, begun, read, fresh, label_of,
}
use noted_runner.Server.Routes.{tables-route}

-- The user who has opened a session of the kernel last.
unfoldable pub listener_of : List Label → Text → Option Text
listener_of [] k = none
listener_of (opened x ∷ h) k = if text_eq x.kernel_id k then some x.user_id else listener_of h k
listener_of (closed x ∷ h) k = listener_of h k
listener_of (received c ∷ h) k = listener_of h k
listener_of (silent ∷ h) k = listener_of h k

-- The connection that the user has opened last, if no session of his was closed since.
unfoldable pub conn_of : List Label → Text → Option ℕ
conn_of [] u = none
conn_of (opened x ∷ h) u = if text_eq x.user_id u then some x.conn else conn_of h u
conn_of (closed x ∷ h) u = if text_eq x.user_id u then none else conn_of h u
conn_of (received c ∷ h) u = conn_of h u
conn_of (silent ∷ h) u = conn_of h u

-- the connection to which a kernel's message has to be written
abbrev pub target : List Label → Text → Option ℕ
target h k = conn_of h (or_empty (listener_of h k))

-- The tables hold what the history says.
pub record Refines (h : List Label) (cd : ComilerDelivery) : Type 0 where
  pub conns : (u : Text) → lookup u cd.active_conns ≡ conn_of h u
  pub listeners : (k : Text) → lookup k cd.kernel_listeners ≡ listener_of h k

listener_text : (o : Option Text) → (elim o [ none ↦ [] | some v ↦ v ]) ≡ or_empty o
listener_text none = refl
listener_text (some v) = refl

module _ {S : Type 0} (services : Services S) (uc : CompilerUsecase S) (wire : Wire S) where
  open_session-Refines :
      (h : List Label) (x : Session) (s : Served S)
      → Refines h s.0
      → Refines (opened x ∷ h) (open_session uc wire x s).0
  unfolding open_session conn_of listener_of
  open_session-Refines h x s r = record {
    conns = λ u. ground (arith, lookup-insert x.user_id u x.conn s.0.active_conns, r.conns u);
    listeners = λ k.
        ground (arith, lookup-insert x.kernel_id k x.user_id s.0.kernel_listeners, r.listeners k);
  }

  on_reading-Refines :
      (h : List Label) (x : Session) (r : Reading) (s : Served S)
      → Refines h s.0
      → Refines
          (label_of services uc wire x (is_close r.message_type) ∷ h)
          (on_reading uc wire x r s).1.0
  unfolding on_reading on_message on_close after_write after_run conn_of listener_of
  on_reading-Refines h x r s f = record {
    conns = λ u. ground (arith, lookup-delete x.user_id u s.0.active_conns, f.conns u);
    listeners = λ k. ground (arith, f.listeners k);
  }

  Step-Refines :
      {e : Label} {s t : Server S} {h : List Label}
      → Step services uc wire s e t
      → Refines h s.tables
      → Refines (e ∷ h) t.tables
  unfolding begun read send_memes conn_of listener_of
  Step-Refines {s} (request c conn) r =
      let same = tables-route services uc wire conn c s in
      record { conns = λ u. rw same (r.conns u); listeners = λ k. rw same (r.listeners k) }
  Step-Refines {s} {h} (begin before x after e) r = open_session-Refines h x (s.tables, s.program) r
  Step-Refines {s} {h} (frame before x after f e) r =
      on_reading-Refines h x f (s.tables, s.program) r
  Step-Refines (message kernel_id memes) r = record { conns = r.conns; listeners = r.listeners }

  pub Reach-Refines :
      {u : S} {h : List Label} {s : Server S} → Reach services uc wire u h s → Refines h s.tables
  unfolding fresh conn_of listener_of lookup new_compiler_delivery
  Reach-Refines start = record { conns = λ u. refl; listeners = λ k. refl }
  Reach-Refines (next r st) = Step-Refines st (Reach-Refines r)

  pub Refines-send_memes :
      (h : List Label) (cd : ComilerDelivery)
      → Refines h cd
      → (kernel_id memes : Text) (v : S)
      → send_memes uc wire kernel_id memes (cd, v)
        ≡ (cd, send_to uc wire (target h kernel_id) memes v)
  unfolding send_memes
  Refines-send_memes h cd f kernel_id memes v =
      ap (λ o. (cd, send_to uc wire o memes v))
        (ap (λ a. lookup a cd.active_conns) (listener_text (lookup kernel_id cd.kernel_listeners))
          ∙ f.conns _
          ∙ ap (λ o. conn_of h (or_empty o)) (f.listeners kernel_id))

  -- In every state that the service reaches, a message of a kernel is written to the connection that
  -- the history of the service determines, and to no other: the one opened last by the user who has
  -- opened a session of the kernel last, or to none, where that user has closed a session since.
  pub Reach-send_memes :
      {u : S} {h : List Label} {s : Server S}
      → Reach services uc wire u h s
      → (kernel_id memes : Text)
      → send_memes uc wire kernel_id memes (s.tables, s.program)
        ≡ (s.tables, send_to uc wire (target h kernel_id) memes s.program)
  Reach-send_memes {h} {s} r kernel_id memes =
      Refines-send_memes h s.tables (Reach-Refines r) kernel_id memes s.program
