-- ===== src/Server/Races.antt =====
-- Between the upgrade of a connection and the beginning of its session.
use noted_runner.Prelude.{ℕ, ◌≡◌, arith, some, Text}
use noted_runner.Delivery.{
  CompilerUsecase, Wire, Served, Session, upgraded, compile, started, upgrade_reply,
}

module _ {S : Type 0} (uc : CompilerUsecase S) (wire : Wire S) where
  -- When a request was upgraded and its session has not begun, its user does not count as connected: a
  -- second request of the user starts another kernel and is answered like the first one, instead of
  -- being refused.
  compile_again :
      (user_id k : Text) (conn : ℕ) (s t : Served S) (x : Session)
      → compile uc wire user_id (some k) conn s ≡ (upgraded x, t)
      → (k' : Text) (conn' : ℕ)
      → let r = started uc wire user_id k' conn' (uc.start_kernel k' user_id t.1) in
        compile uc wire user_id (some k') conn' t ≡ (r.0, (t.0, r.1))
  unfolding compile started upgrade_reply
  compile_again user_id k conn s t x e k' conn' = ground arith
