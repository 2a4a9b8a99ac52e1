-- ===== src/Delivery/Connections.antt =====
-- Which users are connected, and what becomes of their kernels.
use noted_runner.Prelude.{
  ℕ, ◌≡◌, ◌≢◌, refl, ◌⊎◌, inl, inr, ◌∙◌, arith, true, false, Option, none, some, List, [], ◌∷◌,
  ◌++◌, Text, ascii, lookup, has_key, lookup-insert, lookup-delete, text_eq, text_eq_refl,
}
use noted_runner.Delivery.{
  CompilerUsecase, Reading, Wire, Served, Session, bad_request, Next, again, over, waits, fallen,
  is_close, compile, open_session, on_reading, on_message, on_close, after_write, after_run, serve,
  go_on,
}

module _ {S : Type 0} (uc : CompilerUsecase S) (wire : Wire S) where
  -- A user with an active connection is refused, and so is a request without a kernel: no kernel is
  -- started for it and nothing changes.
  pub compile_refused :
      (user_id : Text) (kernel : Option Text) (conn : ℕ) (s : Served S)
      → (kernel ≡ none) ⊎ (has_key user_id s.0.active_conns ≡ true)
      → compile uc wire user_id kernel conn s ≡ (bad_request, s)
  unfolding compile
  compile_refused user_id none conn s why = refl
  compile_refused user_id (some k) conn s (inl e) = cc
  compile_refused user_id (some k) conn s (inr e) = ground arith

  -- how one frame may change the table of connections
  pub record Turned (x : Session) (s : Served S) (n : Next) (t : Served S) : Type 0 where
    -- No other user's connection changes.
    pub others :
        (j : Text)
        → text_eq x.user_id j ≡ false
        → lookup j t.0.active_conns ≡ lookup j s.0.active_conns
    -- While the loop goes on or waits, the user stays connected as before.
    pub stays : n ≢ over → t.0.active_conns ≡ s.0.active_conns
    pub listeners : t.0.kernel_listeners ≡ s.0.kernel_listeners

  pub on_reading-Turned :
      (x : Session) (r : Reading) (s : Served S)
      → Turned x s (on_reading uc wire x r s).0 (on_reading uc wire x r s).1
  unfolding on_reading on_message on_close after_write after_run
  on_reading-Turned x r s = record {
    others = λ j e. ground (arith, lookup-delete x.user_id j s.0.active_conns);
    stays = λ e. ground arith;
    listeners = ground arith;
  }

  go_on-Turned :
      (x : Session) (s : Served S) (r : Next × Served S) (f : Served S → Next × Served S)
      → Turned x s r.0 r.1
      → ((t : Served S) → Turned x t (f t).0 (f t).1)
      → Turned x s (go_on uc wire r f).0 (go_on uc wire r f).1
  unfolding go_on
  go_on-Turned x s (again, t) f p q = record {
    others = λ j e. (q t).others j e ∙ p.others j e;
    stays = λ e. (q t).stays e ∙ p.stays λ d. cc;
    listeners = (q t).listeners ∙ p.listeners;
  }
  go_on-Turned x s (over, t) f p q = p
  go_on-Turned x s (waits, t) f p q = p
  go_on-Turned x s (fallen, t) f p q = p

  -- Whatever frames come in, serving a session changes no other user's connection and no listener,
  -- and until the loop is left its own user stays connected as before.
  pub serve-Turned :
      (x : Session) (rs : List Reading) (s : Served S)
      → Turned x s (serve uc wire x rs s).0 (serve uc wire x rs s).1
  unfolding serve
  serve-Turned x [] s = record { others = λ j e. refl; stays = λ e. refl; listeners = refl }
  serve-Turned x (r ∷ rs) s =
      go_on-Turned x s (on_reading uc wire x r s) (serve uc wire x rs) (on_reading-Turned x r s)
        (serve-Turned x rs)

  append_from :
      (p : Next × Served S) (f f' g : Served S → Next × Served S)
      → ((t : Served S) → f' t ≡ go_on uc wire (f t) g)
      → go_on uc wire p f' ≡ go_on uc wire (go_on uc wire p f) g
  unfolding go_on
  append_from (again, t) f f' g same = same t
  append_from (over, t) f f' g same = refl
  append_from (waits, t) f f' g same = refl
  append_from (fallen, t) f f' g same = refl

  serve-append :
      (x : Session) (rs more : List Reading) (s : Served S)
      → serve uc wire x (rs ++ more) s ≡ go_on uc wire (serve uc wire x rs s) (serve uc wire x more)
  unfolding serve go_on
  serve-append x [] more s = refl
  serve-append x (r ∷ rs) more s =
      append_from (on_reading uc wire x r s) (serve uc wire x rs) (serve uc wire x (rs ++ more))
        (serve uc wire x more) (serve-append x rs more)

  -- where the loop is left by a close frame
  pub record Closed (x : Session) (s : Served S) (end : Next × Served S) : Type 0 where
    pub left : end.0 ≡ over
    pub gone : has_key x.user_id end.1.0.active_conns ≡ false
    pub stopped : end.1.1 ≡ (uc.stop_kernel x.container s.1).1

  Closed-from :
      (x : Session) (r : Reading) (more : List Reading) (p : Next × Served S)
      → p.0 ≡ again
      → is_close r.message_type ≡ true
      → Closed x p.1 (go_on uc wire p (serve uc wire x (r ∷ more)))
  unfolding go_on serve on_reading on_close has_key
  Closed-from x r more (again, t) here close = record {
    left = ground arith;
    gone =
        ground (arith, lookup-delete x.user_id x.user_id t.0.active_conns, text_eq_refl x.user_id);
    stopped = ground arith;
  }
  Closed-from x r more (over, t) here close = cc
  Closed-from x r more (waits, t) here close = cc
  Closed-from x r more (fallen, t) here close = cc

  -- When the loop has gone on through some frames and then a close frame or a lost connection is
  -- read, the loop is left, the user is no longer connected, the session's container is stopped, and
  -- the frames behind are not read.
  pub serve_close :
      (x : Session) (rs : List Reading) (r : Reading) (more : List Reading) (s : Served S)
      → (serve uc wire x rs s).0 ≡ again
      → is_close r.message_type ≡ true
      → Closed x (serve uc wire x rs s).1 (serve uc wire x (rs ++ r ∷ more) s)
  serve_close x rs r more s here close =
      rw (serve-append x rs (r ∷ more) s) (Closed-from x r more (serve uc wire x rs s) here close)

  connected :
      (x : Session) (s : Served S)
      → has_key x.user_id (open_session uc wire x s).0.active_conns ≡ true
  unfolding open_session has_key
  connected x s =
      ground
        (arith, lookup-insert x.user_id x.user_id x.conn s.0.active_conns, text_eq_refl x.user_id)

  broken_turn :
      (x : Session) (r : Reading) (s : Served S) {why : Text} {lost : Text}
      → is_close r.message_type ≡ false
      → r.error ≡ some why
      → (wire.write_message x.conn (ascii "error reading message") s.1).0 ≡ some lost
      → on_reading uc wire x r (open_session uc wire x s) ≡ (
        over,
        (
          (open_session uc wire x s).0,
          wire.close_conn x.conn (wire.write_message x.conn (ascii "error reading message") s.1).1,
        ),
      )
  unfolding on_reading on_message after_write open_session
  broken_turn x r s not_closed failed unsent = ground arith

  -- If the message that a read has failed cannot be sent to the user, the loop is left with the user
  -- still connected: every later request of the user is refused, and the container is not stopped.
  pub serve_broken :
      (x : Session) (r : Reading) (more : List Reading) (s : Served S) {why : Text} {lost : Text}
      → is_close r.message_type ≡ false
      → r.error ≡ some why
      → (wire.write_message x.conn (ascii "error reading message") s.1).0 ≡ some lost
      → (kernel : Option Text) (conn : ℕ)
      → let last = (serve uc wire x (r ∷ more) (open_session uc wire x s)).1 in
        (last.1
          ≡ wire.close_conn x.conn
              (wire.write_message x.conn (ascii "error reading message") s.1).1)
        × (compile uc wire x.user_id kernel conn last ≡ (bad_request, last))
  unfolding serve go_on
  serve_broken x r more s not_closed failed unsent kernel conn =
      let e = broken_turn x r s not_closed failed unsent in
      let key = connected x s in rw e (refl, compile_refused x.user_id kernel conn _ (inr key))
