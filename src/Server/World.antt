-- ===== src/Server/World.antt =====
-- What a call of the handler makes of the use case of internal/usecase/compile.go.
use noted_runner.Prelude.{
  ℕ, ◌≡◌, sym, subst, false, Option, none, some, List, [], ◌∷◌, arith, Text, ascii, All, lookup,
  has_key, text_eq_refl, Outcome, inl, inr, Bool-cases, Option-cases, ◌⊎◌,
}
use noted_runner.Middlewares.{Services}
use noted_runner.Usecase.{
  Host, Sys, Compile, kernel_key, start_kernel, run_block, stop_kernel, outside,
}
use noted_runner.Usecase.Kernels.{start_kernel-Started}
use noted_runner.Usecase.Sound.{
  Sound, Evolves, Evolves-same, start_kernel-Evolves, run_block-Evolves, run_block-returns,
}
use noted_runner.Usecase.Panics.{Readable, when_read, run_block-ne-panic}
use noted_runner.Delivery.{
  ComilerDelivery, Wire, Session, Served, Reading, Reply, upgraded, again, over, compile, started,
  upgrade_reply, on_reading, on_message, on_close, after_write, after_run, send_memes, send_to,
  is_close,
}
use noted_runner.Delivery.Usecases.{compiler_usecase}

-- The session's kernel has been started for the session's user.
abbrev pub HasKernel : Compile → Session → Type 0
HasKernel c x = lookup (kernel_key x.kernel_id x.user_id) c.kernel_muxes ≡ some false

pub All-HasKernel :
    {c c' : Compile}
    → Evolves c c'
    → (xs : List Session) → All (HasKernel c) xs
    → All (HasKernel c') xs
All-HasKernel v [] h = tt
All-HasKernel v (x ∷ xs) (p, ps) =
    (v.started_before (kernel_key x.kernel_id x.user_id) p, All-HasKernel v xs ps)

module _ {W : Type 0} where
  -- what the world outside does is the only change of a call
  abbrev pub in_world : {A : Type 0} → (W → A × W) → Sys W → A × Sys W
  in_world f s = let (a, w) = f s.world in (a, record s { world = w })

  unfoldable pub sys_services : Services W → Services (Sys W)
  sys_services v = record {
    auth_user_id = λ at rt. in_world (v.auth_user_id at rt);
    file_access = λ user file. in_world (v.file_access user file);
  }

  unfoldable pub sys_wire : Wire W → Wire (Sys W)
  sys_wire v = record {
    upgrade = λ conn. in_world (v.upgrade conn);
    write_message = λ conn text. in_world (v.write_message conn text);
    write_json = λ conn m. in_world (v.write_json conn m);
    close_conn = λ conn s. record s { world = v.close_conn conn s.world };
  }

module _ {W : Type 0} (h : Host W) (net : Wire W) where
  abbrev pub Called : Type 0
  Called = Reply × Served (Sys W)

  abbrev pub called : Text → Option Text → ℕ → Served (Sys W) → Called
  called user_id kernel conn s = compile (compiler_usecase h) (sys_wire net) user_id kernel conn s

  started-uc :
      (user_id k : Text) (conn : ℕ) (o : Outcome Text × Sys W)
      → (started (compiler_usecase h) (sys_wire net) user_id k conn o).1.uc ≡ o.1.uc
  unfolding started upgrade_reply sys_wire
  started-uc user_id k conn o = ground arith

  pub called-Evolves :
      (user_id : Text) (kernel : Option Text) (conn : ℕ) (s : Served (Sys W))
      → Evolves s.1.uc (called user_id kernel conn s).1.1.uc
  unfolding compile compiler_usecase
  called-Evolves user_id none conn s = Evolves-same s.1.uc
  called-Evolves user_id (some k) conn (cd, u) =
      let start = start_kernel h k user_id u in
      let same = started-uc user_id k conn start in
      elim (Bool-cases (has_key user_id cd.active_conns)) [
        | inl refused ↦ rw (compile, refused) (Evolves-same u.uc)
        | inr free ↦
            rw (compile, free)
              (subst (Evolves u.uc) (sym same) (start_kernel-Evolves h k user_id u))
      ]

  pub called-HasKernel :
      (user_id : Text) (kernel : Option Text) (conn : ℕ) (s t : Served (Sys W)) (x : Session)
      → called user_id kernel conn s ≡ (upgraded x, t)
      → HasKernel t.1.uc x
  unfolding compile started upgrade_reply sys_wire compiler_usecase
  called-HasKernel user_id none conn s t x e = ground arith
  called-HasKernel user_id (some k) conn (cd, u) t x e =
      let m = (start_kernel-Started h k user_id u).mux (kernel_key k user_id) in
      let r = text_eq_refl (kernel_key k user_id) in ground arith

  after_run-uc :
      (x : Session) (block_id : Text) (cd : ComilerDelivery)
      (o : Option (Outcome (Unit {0})) × Sys W)
      → (after_run (compiler_usecase h) (sys_wire net) x block_id cd o).1.1.uc ≡ o.1.uc
  unfolding after_run after_write sys_wire
  after_run-uc x block_id cd o = ground arith

  after_write-uc :
      (conn : ℕ) (cd : ComilerDelivery) (o : Option Text × Sys W)
      → (after_write (compiler_usecase h) (sys_wire net) conn cd o).1.1.uc ≡ o.1.uc
  unfolding after_write sys_wire
  after_write-uc conn cd o = ground arith

  on_message-Evolves :
      (x : Session) (r : Reading) (s : Served (Sys W))
      → Evolves s.1.uc (on_message (compiler_usecase h) (sys_wire net) x r s).1.1.uc
  unfolding on_message after_write sys_wire compiler_usecase
  on_message-Evolves x r (cd, u) = elim (Option-cases r.error) [
    | inl fine ↦
        rw (on_message, fine)
          (subst (Evolves u.uc)
            (sym (after_run-uc x r.message cd (run_block h x.kernel_id r.message x.user_id u)))
            (run_block-Evolves h x.kernel_id r.message x.user_id u))
    | inr (text, failed) ↦
        rw (on_message, failed)
          (subst (Evolves u.uc)
            (sym (
              after_write-uc x.conn cd
                ((sys_wire net).write_message x.conn (ascii "error reading message") u)))
            (Evolves-same u.uc))
  ]

  pub on_reading-Evolves :
      (x : Session) (r : Reading) (s : Served (Sys W))
      → Evolves s.1.uc (on_reading (compiler_usecase h) (sys_wire net) x r s).1.1.uc
  unfolding on_reading on_close compiler_usecase stop_kernel outside
  on_reading-Evolves x r (cd, u) = elim (Bool-cases (is_close r.message_type)) [
    | inl close ↦ rw (on_reading, close) (Evolves-same u.uc)
    | inr goes_on ↦ rw (on_reading, goes_on) (on_message-Evolves x r (cd, u))
  ]

  pub send_memes-uc :
      (kernel_id memes : Text) (s : Served (Sys W))
      → (send_memes (compiler_usecase h) (sys_wire net) kernel_id memes s).1.uc ≡ s.1.uc
  unfolding send_memes send_to sys_wire
  send_memes-uc kernel_id memes s = ground arith

  pub on_reading-answered :
      (x : Session) (r : Reading) (s : Served (Sys W))
      → (is_close r.message_type ≡ false
          → r.error ≡ none
          → Readable h s.1.uc.mount_path x.kernel_id r.message
              (when_read h s.1.uc.mount_path x.kernel_id x.user_id s.1.world))
      → Sound s.1.uc
      → HasKernel s.1.uc x
      → ((on_reading (compiler_usecase h) (sys_wire net) x r s).0 ≡ again)
        ⊎ ((on_reading (compiler_usecase h) (sys_wire net) x r s).0 ≡ over)
  unfolding on_reading on_message on_close after_write after_run compiler_usecase
  on_reading-answered x r (cd, u) readable sound p =
      let returns = run_block-returns h x.kernel_id r.message x.user_id u p in
      let (types, known) = sound.typed (kernel_key x.kernel_id x.user_id) p in
      elim (Bool-cases (is_close r.message_type)) [
        | inl close ↦ ground arith
        | inr goes_on ↦ elim (Option-cases r.error) [
          | inl fine ↦
              let unbroken =
                run_block-ne-panic h x.kernel_id r.message x.user_id u (readable goes_on fine)
                  (λ e. cc) known in
              ground arith
          | inr (text, failed) ↦ ground arith
        ]
      ]
