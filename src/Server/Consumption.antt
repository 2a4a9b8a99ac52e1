-- ===== src/Server/Consumption.antt =====
-- internal/consumers/runner.go on the running service.
use noted_runner.Prelude.{
  ◌≡◌, refl, Option, none, some, List, [], ◌∷◌, Text, Option-cases, inl, inr,
}
use noted_runner.Delivery.{CompilerUsecase, ComilerDelivery, Wire, consume, send_to}
use noted_runner.Middlewares.{Services}
use noted_runner.Server.{Server, Label, Reach}
use noted_runner.Server.Routing.{Refines, target, Refines-send_memes, Reach-Refines}

module _ {S : Type 0} (services : Services S) (uc : CompilerUsecase S) (wire : Wire S) where
  -- each body that names a kernel is written, as it is, where the history says
  unfoldable pub relayed : List Label → (Text → Option Text) → List Text → S → S
  unfolding send_to
  relayed h unmarshal [] v = v
  relayed h unmarshal (body ∷ bodies) v = relayed h unmarshal bodies (elim (unmarshal body) [
    | none ↦ v
    | some kernel_id ↦ send_to uc wire (target h kernel_id) body v
  ])

  Refines-consume :
      (h : List Label) (cd : ComilerDelivery)
      → Refines h cd
      → (unmarshal : Text → Option Text) (bodies : List Text) (v : S)
      → consume uc wire unmarshal bodies (cd, v) ≡ (cd, relayed h unmarshal bodies v)
  unfolding consume relayed
  Refines-consume h cd f unmarshal [] v = refl
  Refines-consume h cd f unmarshal (body ∷ bodies) v = elim (Option-cases (unmarshal body)) [
    | inl bad ↦ rw (consume, relayed, bad) (Refines-consume h cd f unmarshal bodies v)
    | inr (kernel_id, named) ↦
        rw (consume, relayed, named, Refines-send_memes services uc wire h cd f kernel_id body v)
          (Refines-consume h cd f unmarshal bodies _)
  ]

  -- In every state that the service reaches, the consumer, run over any bodies, writes each body that
  -- it can read, unchanged and in the order in which they come in, to the connection that the history
  -- of the service determines for its kernel; it passes over the other bodies and changes no table.
  pub Reach-consume :
      {u : S} {h : List Label} {s : Server S}
      → Reach services uc wire u h s
      → (unmarshal : Text → Option Text) (bodies : List Text)
      → consume uc wire unmarshal bodies (s.tables, s.program)
        ≡ (s.tables, relayed h unmarshal bodies s.program)
  Reach-consume {h = h} {s = s} r unmarshal bodies =
      Refines-consume h s.tables (Reach-Refines services uc wire r) unmarshal bodies s.program
