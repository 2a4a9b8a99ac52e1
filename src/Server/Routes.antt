-- ===== src/Server/Routes.antt =====
-- What the route does to the sessions and to the tables.
use noted_runner.Prelude.{
  ℕ, ◌≡◌, refl, sym, ap, ◌∙◌, subst, Option, none, some, List, [], ◌∷◌, ◌++◌, arith, Text, All,
  All-append, All-middle, lookup, inl, inr,
}
use noted_runner.Middlewares.{
  Ctx, Services, or_empty, guarded, refresh_cookies, at_cookie_key, auth_middleware, access_mw,
  identified, permitted,
}
use noted_runner.Middlewares.Access.{
  Granted, Refused, guarded-cases, user_of-refresh, kernel_of-refresh,
}
use noted_runner.Delivery.{
  CompilerUsecase, Wire, Session, Served, Reply, bad_request, upgraded, crashed, compile, started,
  upgrade_reply, Next, again, over, waits, fallen,
}
use noted_runner.Server.{
  Server, route, compile_handler, replied, server_services, on_program, remaining,
}

module _ {S : Type 0} (services : Services S) (uc : CompilerUsecase S) (wire : Wire S) where
  -- the session of an upgraded request is the user's and the kernel's
  compile-upgraded :
      (user_id : Text) (kernel : Option Text) (conn : ℕ) (s t : Served S) (x : Session)
      → compile uc wire user_id kernel conn s ≡ (upgraded x, t)
      → (x.user_id ≡ user_id) × (or_empty kernel ≡ x.kernel_id)
  unfolding compile started upgrade_reply
  compile-upgraded user_id none conn s t x e = ground arith
  compile-upgraded user_id (some k) conn s t x e = ground arith

  -- `Compile` leaves the tables to the sessions
  compile-tables :
      (user_id : Text) (kernel : Option Text) (conn : ℕ) (s : Served S) (r : Reply) (t : Served S)
      → compile uc wire user_id kernel conn s ≡ (r, t)
      → t.0 ≡ s.0
  unfolding compile started upgrade_reply
  compile-tables user_id none conn s r t e = ground arith
  compile-tables user_id (some k) conn s r t e = ground arith

  pub remaining-All :
      (P : Session → Type 0) (before : List Session) (x : Session) (after : List Session) (n : Next)
      → All P (before ++ x ∷ after)
      → All P (remaining services uc wire before x after n)
  unfolding remaining
  remaining-All P before x after again h = h
  remaining-All P before x after over h = (All-middle P before x after h).1
  remaining-All P before x after waits h = (All-middle P before x after h).1
  remaining-All P before x after fallen h = (All-middle P before x after h).1

  -- what the route does to the sessions, whose property is `P`
  pub record Routed (P : Session → Type 0) (s t : Server S) : Type 0 where
    pub same_live : t.live ≡ s.live
    pub same_tables : t.tables ≡ s.tables
    pub pending : All P s.pending → All P t.pending

  replied-Routed :
      (P : Session → Type 0) (c : Ctx) (s : Server S) (conn : ℕ) (r : Reply × Served S)
      → compile uc wire (or_empty c.user_id) c.kernel_id conn (s.tables, s.program) ≡ r
      → ((x : Session) → x.user_id ≡ or_empty c.user_id → or_empty c.kernel_id ≡ x.kernel_id → P x)
      → Routed P s (replied services uc wire c s r).1
  unfolding replied
  replied-Routed P c s conn (bad_request, t) e admit = record {
    same_live = refl;
    same_tables = compile-tables (or_empty c.user_id) c.kernel_id conn (s.tables, s.program) _ t e;
    pending = λ h. h;
  }
  replied-Routed P c s conn (upgraded x, t) e admit =
      let (u, k) =
        compile-upgraded (or_empty c.user_id) c.kernel_id conn (s.tables, s.program) t x e in
      record {
        same_live = refl;
        same_tables =
            compile-tables (or_empty c.user_id) c.kernel_id conn (s.tables, s.program) _ t e;
        pending = λ h. All-append P s.pending (x ∷ []) h (admit x u k, tt);
      }
  replied-Routed P c s conn (crashed, t) e admit = record {
    same_live = refl;
    same_tables = compile-tables (or_empty c.user_id) c.kernel_id conn (s.tables, s.program) _ t e;
    pending = λ h. h;
  }

  idle-Routed :
      (P : Session → Type 0) (c : Ctx) (s : Server S)
      → Routed P s (guarded (server_services services uc wire) (λ y. y) (c, s)).1
  unfolding guarded auth_middleware identified access_mw permitted server_services on_program
  idle-Routed P c s = record {
    same_live = ground arith;
    same_tables = ground arith;
    pending = λ h. ground arith;
  }

  route-Refused :
      (P : Session → Type 0) (conn : ℕ) (c : Ctx) (s : Server S)
      → Refused (server_services services uc wire) (compile_handler services uc wire conn) (c, s)
      → Routed P s (route services uc wire conn (c, s)).1
  unfolding route
  route-Refused P conn c s refused =
      subst (λ y. Routed P s y.1) (refused.unhandled (λ y. y)) (idle-Routed P c s)

  -- whom the route lets in, where the sessions that a granted request gets have the property `P`
  abbrev pub Lets : (Session → Type 0) → ℕ → Ctx → Server S → Type 0
  Lets P conn c s =
      (g : Granted (server_services services uc wire) (compile_handler services uc wire conn)
        (c, s))
      → (x : Session) → g.user.id ≡ x.user_id
      → or_empty c.kernel_id ≡ x.kernel_id
      → P x

  route-Granted :
      (P : Session → Type 0) (conn : ℕ) (c : Ctx) (s : Server S)
      → Lets P conn c s
      → Granted (server_services services uc wire) (compile_handler services uc wire conn) (c, s)
      → Routed P s (route services uc wire conn (c, s)).1
  unfolding route server_services on_program compile_handler
  route-Granted P conn c s admit g =
      let d = record c { user_id = some g.user.id } in
      let same_user = ap or_empty (user_of-refresh (server_services services uc wire) g.user d) in
      let same_kernel =
        ap or_empty (kernel_of-refresh (server_services services uc wire) g.user d) in
      let called =
        replied-Routed P (refresh_cookies g.user d)
          (record s {
            program =
                (services.file_access g.user.id (or_empty c.kernel_id)
                  (services.auth_user_id (or_empty (lookup at_cookie_key c.cookies)) g.refresh
                    s.program).1).1;
          })
          conn _ refl
          λ x of_user of_kernel.
            admit g x (sym (of_user ∙ same_user)) (sym same_kernel ∙ of_kernel) in
      subst (λ y. Routed P s y.1) (sym g.handled)
        (record {
          same_live = called.same_live;
          same_tables = called.same_tables;
          pending = called.pending;
        })

  pub route-Routed :
      (P : Session → Type 0) (conn : ℕ) (c : Ctx) (s : Server S)
      → Lets P conn c s
      → Routed P s (route services uc wire conn (c, s)).1
  route-Routed P conn c s admit =
      elim (guarded-cases (server_services services uc wire) (compile_handler services uc wire conn)
        (c, s)) [ inl g ↦ route-Granted P conn c s admit g | inr r ↦ route-Refused P conn c s r ]

  -- The route leaves the tables alone.
  pub tables-route :
      (conn : ℕ) (c : Ctx) (s : Server S) → (route services uc wire conn (c, s)).1.tables ≡ s.tables
  tables-route conn c s =
      (route-Routed (λ x. Unit {0}) conn c s (λ g x of_user of_kernel. tt)).same_tables
