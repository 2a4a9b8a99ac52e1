-- ===== src/Tests/Service.antt =====
-- The service: a request of a user, his session, and a block.
use noted_runner.Prelude.{
  Text, Option, none, ℕ, ◌≡◌, refl, ◌⊎◌, some, [], ◌∷◌, ascii, lookup, text_eq, has_key,
}
use noted_runner.Delivery.{
  is_close, consume, compile, started, upgrade_reply, on_reading, send_memes, send_to, again, over,
  new_compiler_delivery,
}
use noted_runner.Delivery.Usecases.{compiler_usecase}
use noted_runner.Middlewares.{
  guarded, identified, permitted, auth_middleware, access_mw, contains_byte,
}
use noted_runner.Server.{
  Server, Label, opened, received, begin, Reach, start, next, route, compile_handler, replied,
  server_services, on_program, begun, fresh, served,
}
use noted_runner.Server
use noted_runner.Server.Admission.{AllAdmitted, Reach-AllAdmitted}
use noted_runner.Server.Routing.{target, Reach-send_memes}
use noted_runner.Server.Consumption.{relayed, Reach-consume}
use noted_runner.Server.World.{sys_services, sys_wire}
use noted_runner.Server.Whole.{initial, Reach-on_reading}
use noted_runner.Server.Frames.{Settled, Reach-Settled}
use noted_runner.Usecase.{Sys, start_kernel, continue}
use noted_runner.Docker
use noted_runner.Tests.Requests.{usecase, wire, session, block_frame, services, request}
use noted_runner.Tests.Kernels.{host, client, host-Readable}

-- user `u` has opened a session of kernel `k`
abbrev opened_service : Server ℕ
opened_service =
    begun services usecase wire [] session []
      (route services usecase wire 1 (request, fresh services usecase wire 0)).1

reached : Reach services usecase wire 0 (opened session ∷ received request ∷ []) opened_service
unfolding route fresh guarded compile_handler server_services on_program identified permitted
    auth_middleware access_mw contains_byte lookup text_eq replied compile started upgrade_reply
    has_key new_compiler_delivery
reached = next (next start (Server.request request 1)) (begin [] session [] refl)

Reach-AllAdmitted_example :
    AllAdmitted services usecase wire 0 (opened session ∷ received request ∷ []) opened_service
Reach-AllAdmitted_example = Reach-AllAdmitted services usecase wire reached

Reach-send_memes_example :
    send_memes usecase wire (ascii "k") (ascii "hi") (opened_service.tables, opened_service.program)
    ≡ (
      opened_service.tables,
      send_to usecase wire
          (target (opened session ∷ received request ∷ []) (ascii "k"))
          (ascii "hi")
          opened_service.program,
    )
Reach-send_memes_example = Reach-send_memes services usecase wire reached (ascii "k") (ascii "hi")

-- the service with the use case of the program
abbrev whole : Server (Sys ℕ)
whole =
    begun (sys_services services) (compiler_usecase host) (sys_wire wire) [] session []
      (route (sys_services services) (compiler_usecase host) (sys_wire wire) 1 (
        request,
        fresh (sys_services services) (compiler_usecase host) (sys_wire wire)
            (initial host services wire client (ascii "/mnt") (ascii "kernel-") 0),
      )).1

whole_reached :
    Reach
      (sys_services services)
      (compiler_usecase host)
      (sys_wire wire)
      (initial host services wire client (ascii "/mnt") (ascii "kernel-") 0)
      (opened session ∷ received request ∷ [])
      whole
unfolding route fresh guarded compile_handler server_services on_program identified permitted
    auth_middleware access_mw contains_byte lookup text_eq replied compile started upgrade_reply
    has_key new_compiler_delivery sys_services sys_wire compiler_usecase start_kernel continue
    Docker.create
whole_reached = next (next start (Server.request request 1)) (begin [] session [] refl)

Reach-on_reading_example :
    ((on_reading
        (compiler_usecase host)
        (sys_wire wire)
        session
        block_frame
        (whole.tables, whole.program)).0
      ≡ again)
    ⊎ ((on_reading
          (compiler_usecase host)
          (sys_wire wire)
          session
          block_frame
          (whole.tables, whole.program)).0
        ≡ over)
unfolding begun route fresh guarded compile_handler server_services on_program identified permitted
    auth_middleware access_mw contains_byte lookup text_eq replied compile started upgrade_reply
    has_key new_compiler_delivery sys_services sys_wire compiler_usecase start_kernel continue
    Docker.create
Reach-on_reading_example =
    Reach-on_reading host services wire client (ascii "/mnt") (ascii "kernel-") 0 whole_reached []
      session [] block_frame refl λ goes_on fine. host-Readable block_frame.message _

-- bodies that name kernel `k`, unless they are empty
abbrev read_kernel : Text → Option Text
read_kernel [] = none
read_kernel (x ∷ xs) = some (ascii "k")

Reach-consume_example :
    consume usecase wire read_kernel
      (ascii "hi" ∷ [] ∷ ascii "ho" ∷ [])
      (opened_service.tables, opened_service.program)
    ≡ (
      opened_service.tables,
      relayed services usecase wire
          (opened session ∷ received request ∷ [])
          read_kernel
          (ascii "hi" ∷ [] ∷ ascii "ho" ∷ [])
          opened_service.program,
    )
Reach-consume_example =
    Reach-consume services usecase wire reached read_kernel (ascii "hi" ∷ [] ∷ ascii "ho" ∷ [])

Reach-Settled_example :
    Settled host wire
      (ascii "/mnt")
      (ascii "kernel-")
      session
      block_frame
      whole.tables
      whole.program
unfolding begun route fresh guarded compile_handler server_services on_program identified permitted
    auth_middleware access_mw contains_byte lookup text_eq replied compile started upgrade_reply
    has_key new_compiler_delivery sys_services sys_wire compiler_usecase start_kernel continue
    Docker.create is_close
Reach-Settled_example =
    Reach-Settled host wire services client (ascii "/mnt") (ascii "kernel-") 0 whole_reached []
      session [] block_frame refl refl refl (host-Readable block_frame.message _)
