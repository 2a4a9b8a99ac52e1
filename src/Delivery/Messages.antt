-- ===== src/Delivery/Messages.antt =====
-- Where the messages of a kernel go.
use noted_runner.Prelude.{
  ◌≡◌, arith, false, some, Text, lookup, insert, lookup-insert, lookup-delete, text_eq, text_eq_iff,
  text_eq_refl,
}
use noted_runner.Delivery.{
  CompilerUsecase, Wire, Served, Session, open_session, on_close, send_memes, send_to,
}

module _ {S : Type 0} (uc : CompilerUsecase S) (wire : Wire S) where
  -- A message of a kernel is written to the connection of the session that was opened last for that
  -- kernel, and to no other.
  pub send_memes-open_session :
      (x : Session) (s : Served S) (memes : Text)
      → send_memes uc wire x.kernel_id memes (open_session uc wire x s)
        ≡ ((open_session uc wire x s).0, (wire.write_message x.conn memes s.1).1)
  unfolding send_memes send_to open_session
  send_memes-open_session x s memes = ground (
    arith,
    lookup-insert x.kernel_id x.kernel_id x.user_id s.0.kernel_listeners,
    lookup-insert x.user_id x.user_id x.conn s.0.active_conns,
    text_eq_refl x.kernel_id,
    text_eq_refl x.user_id,
  )

  -- When two users have opened sessions for one kernel and the later one has closed his, the earlier
  -- one is still connected, but a message of the kernel is sent to nobody.
  pub send_memes_lost :
      (x y : Session) (s : Served S) (memes : Text)
      → y.kernel_id ≡ x.kernel_id
      → text_eq y.user_id x.user_id ≡ false
      → let last = (on_close uc wire y (open_session uc wire y (open_session uc wire x s))).1 in
        (lookup x.user_id last.0.active_conns ≡ some x.conn)
        × (send_memes uc wire x.kernel_id memes last ≡ last)
  unfolding send_memes send_to open_session on_close
  send_memes_lost x y s memes same differ =
      let conns = insert x.user_id x.conn s.0.active_conns in
      let both = insert y.user_id y.conn conns in
      (
        ground (
          arith,
          lookup-delete y.user_id x.user_id both,
          lookup-insert y.user_id x.user_id y.conn conns,
          lookup-insert x.user_id x.user_id x.conn s.0.active_conns,
          text_eq_refl x.user_id,
        ),
        ground (
          arith,
          lookup-insert y.kernel_id x.kernel_id y.user_id
              (insert x.kernel_id x.user_id s.0.kernel_listeners),
          text_eq_iff y.kernel_id x.kernel_id,
          lookup-delete y.user_id y.user_id both,
          text_eq_refl y.user_id,
        ),
      )
