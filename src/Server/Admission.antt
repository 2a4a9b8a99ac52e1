-- ===== src/Server/Admission.antt =====
-- Who has a session.
use noted_runner.Prelude.{
  ℕ, ◌≡◌, refl, sym, ap, true, some, List, [], ◌∷◌, ◌++◌, Text, All, All-append, All-middle, lookup,
}
use noted_runner.Middlewares.{
  Ctx, UserDto, Services, rt_cookie_key, or_empty, contains_byte, at_cookie_key,
}
use noted_runner.Middlewares.Access.{Granted}
use noted_runner.Delivery.{CompilerUsecase, Wire, Session}
use noted_runner.Server.{
  Server, Label, received, Step, request, begin, frame, message, Reach, start, next,
  compile_handler, server_services, on_program, begun, read, fresh,
}
use noted_runner.Server.Routes.{route-Routed, remaining-All}

module _ {S : Type 0} (services : Services S) (uc : CompilerUsecase S) (wire : Wire S) where
  -- A request of the history has let the session in. In a state that the history before it leads to, the
  -- identity service, asked with the access token and the refresh token of the request's cookies, names
  -- the session's user, and the access service, asked then, grants this user the right to execute the
  -- kernel of the request, which is the session's.
  pub record Admitted (u : S) (history : List Label) (x : Session) : Type 0 where
    -- the request, what came before and after it, and a state behind what came before
    pub c : Ctx
    pub before : List Label
    pub after : List Label
    pub server : Server S
    pub reached : Reach services uc wire u before server
    pub in_history : history ≡ after ++ received c ∷ before
    -- its tokens and what the services answer
    pub refresh : Text
    pub user : UserDto
    pub access : Text
    pub token : lookup rt_cookie_key c.cookies ≡ some refresh
    pub known :
        (services.auth_user_id (or_empty (lookup at_cookie_key c.cookies)) refresh server.program).0
        ≡ some user
    pub named : user.id ≡ x.user_id
    pub of_kernel : or_empty c.kernel_id ≡ x.kernel_id
    pub asked :
        (services.file_access x.user_id x.kernel_id
          (services.auth_user_id
            (or_empty (lookup at_cookie_key c.cookies))
            refresh
            server.program).1).0
        ≡ some access
    pub may_execute : contains_byte b'x' access ≡ true

  Admitted-later :
      (u : S) (history : List Label) (e : Label) (xs : List Session)
      → All (Admitted u history) xs
      → All (Admitted u (e ∷ history)) xs
  Admitted-later u history e [] h = tt
  Admitted-later u history e (x ∷ xs) (a, h) = (
    record {
      c = a.c;
      before = a.before;
      after = e ∷ a.after;
      server = a.server;
      reached = a.reached;
      in_history = ap (λ l. e ∷ l) a.in_history;
      refresh = a.refresh;
      user = a.user;
      access = a.access;
      token = a.token;
      known = a.known;
      named = a.named;
      of_kernel = a.of_kernel;
      asked = a.asked;
      may_execute = a.may_execute;
    },
    Admitted-later u history e xs h,
  )

  -- Every session of the server is admitted.
  pub record AllAdmitted (u : S) (history : List Label) (s : Server S) : Type 0 where
    pub in_pending : All (Admitted u history) s.pending
    pub in_live : All (Admitted u history) s.live

  Granted-Admitted :
      {u : S} {history : List Label} (conn : ℕ) (c : Ctx) (s : Server S)
      → Reach services uc wire u history s
      → (g : Granted
          (server_services services uc wire)
          (compile_handler services uc wire conn)
          (c, s))
      → (x : Session) → g.user.id ≡ x.user_id
      → or_empty c.kernel_id ≡ x.kernel_id
      → Admitted u (received c ∷ history) x
  unfolding server_services on_program
  Granted-Admitted {u} {history} conn c s r g x same_user same_kernel = record {
    c = c;
    before = history;
    after = [];
    server = s;
    reached = r;
    in_history = refl;
    refresh = g.refresh;
    token = g.token;
    user = g.user;
    access = g.access;
    known = g.known;
    named = same_user;
    of_kernel = same_kernel;
    asked = rw (sym same_user, sym same_kernel) g.asked;
    may_execute = g.may_execute;
  }

  Step-AllAdmitted :
      {u : S} {history : List Label} {e : Label} {s t : Server S}
      → Reach services uc wire u history s
      → Step services uc wire s e t
      → AllAdmitted u (e ∷ history) s
      → AllAdmitted u (e ∷ history) t
  unfolding begun read
  Step-AllAdmitted {u} {history} {s = s} reached (request c conn) h =
      let r =
        route-Routed services uc wire (Admitted u (received c ∷ history)) conn c s
          (Granted-Admitted conn c s reached) in
      record { in_pending = r.pending h.in_pending; in_live = rw r.same_live h.in_live }
  Step-AllAdmitted {u} {history} {e = l} {s = s} reached (begin before x after e) h =
      let P = Admitted u (l ∷ history) in
      let (p, rest) = All-middle P before x after (rw e at h.in_pending) in
      record { in_pending = rest; in_live = All-append P s.live (x ∷ []) h.in_live (p, tt) }
  Step-AllAdmitted {u} {history} {e = l} {s = s} reached (frame before x after r e) h = record {
    in_pending = h.in_pending;
    in_live =
        remaining-All services uc wire (Admitted u (l ∷ history)) before x after _
          (rw e at h.in_live);
  }
  Step-AllAdmitted reached (message kernel_id memes) h = record {
    in_pending = h.in_pending;
    in_live = h.in_live;
  }

  -- In every state that the service reaches, by whatever interleaving of requests, frames and messages,
  -- each session that is pending or served was let in by a request in the history: in a state that
  -- the history before this request leads to, the identity service names the session's user from the
  -- access token and the refresh token in the cookies of the request, and the access service, asked
  -- next, grants this user the right to execute the kernel of the request, which is the session's.
  pub Reach-AllAdmitted :
      {u : S} {history : List Label} {s : Server S}
      → Reach services uc wire u history s
      → AllAdmitted u history s
  unfolding fresh
  Reach-AllAdmitted start = record { in_pending = tt; in_live = tt }
  Reach-AllAdmitted {u} (next {history = history} {e = e} {s = s} r st) =
      let h = Reach-AllAdmitted r in
      Step-AllAdmitted r st (record {
        in_pending = Admitted-later u history e s.pending h.in_pending;
        in_live = Admitted-later u history e s.live h.in_live;
      })
