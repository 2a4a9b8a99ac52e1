-- ===== src/Lib.antt =====
-- A model of noted-runner, a service that runs the code blocks of notebooks. A user connects over a
-- websocket and a kernel, a container, is started for him. Each block that he sends is turned into the
-- source of a Go plugin, built, and handed to the kernel, whose results come back over a queue and are
-- sent to the user. The functions are those of the source, under their names in the spelling of this
-- library; state is a record that is passed on, and errors and panics are values (`Outcome`).
--
-- Parts and files. A text is a list of bytes (Prelude/Bytes), a Go map an association list
-- (Prelude/Maps); Strings.antt has what the program uses of Go's strings and strconv.
-- - internal/preproc/preproc.go and base_copypaste.go: Preproc. Preproc/Block.antt has the block, what
--   is known of a kernel and the marks of lines; Preproc/Scan.antt `Parse`, one definition for each
--   case of its switch and one step for each token, with Preproc/Scan/Mentions.antt an independent
--   description of the names that a block mentions; Preproc/LineType.antt `parseLineType`;
--   Preproc/Imports.antt `ClearImports`; Preproc/Export.antt `FormExportFunc`, with
--   Preproc/Export/Layout.antt the parts of a plugin's source, and Preproc/Export/Typed.antt and
--   Preproc/Export/Carried.antt what becomes of a variable between two blocks;
--   Preproc/BaseCopypaste.antt the beginning of every plugin.
-- - internal/docker/docker.go: Docker.antt.
-- - internal/usecase/compile.go: Usecase.antt. `RunBlock` reads the block, calls `Parse` and
--   `FormExportFunc`, builds the plugin and calls the kernel. Usecase/Frame.antt has what its steps
--   leave alone, Usecase/Panics.antt what a run needs of the block's file not to
--   panic (`Readable`),
--   Usecase/Compiled.antt and Usecase/Launched.antt
--   what a run has compiled and handed to its kernel, Usecase/Carried.antt and Usecase/Failed.antt two runs of a
--   kernel, and Usecase/Locks.antt the mutexes where several calls interleave.
-- - internal/delivery/compiler/v1/http/http.go, internal/consumers/runner.go and
--   internal/model/kmessage.go: Delivery.antt, over the interface `CompilerUsecase`, which
--   Delivery/Usecases.antt fills with the use case.
-- - internal/httpclient/httpclient.go: HttpClient.antt.
-- - internal/middlewares, internal/cookies and internal/consts: Middlewares.antt.
-- - The route with its guards, the sessions that are served at the same time and the messages of the
--   kernels: Server.antt, as steps of a service (`Step`) and what they reach (`Reach`).
--   Server/Routes.antt has what the route does, Server/Admission.antt who is admitted, Server/Routing.antt and Server/Consumption.antt where the
--   history of a service says that messages go, Server/Races.antt two requests of one user,
--   Server/World.antt and Server/Whole.antt the service with the use case of the program, and
--   Server/Frames.antt what becomes of a block.
-- - internal/configs: Configs.antt has the sections, the store of settings and the laws of its defaults;
--   Configs/Keys.antt constants; Configs/Defaults.antt and Configs/Sections.antt `SetDefaults` and `Load` of each section,
--   Configs/Setup.antt `Load` and `SetupConfigs`.
-- - internal/logger/logger.go: Logger.antt. internal/rabbit/rabbit.go: Rabbit.antt.
--   internal/rnd/rnd.go: Random.antt. internal/metrics: Metrics.antt.
-- - internal/application, internal/routing/routing.go and cmd/api/main.go: Application.antt has `NewApp`
--   with what it calls in order, Application/Running.antt the settings of the server and the shutdown of
--   `Run`, and Application/Shutdown.antt the goroutines of `Run` as steps. Effects.antt has the actions on a world outside that these are made of.
-- Tests.antt and the modules below it have concrete inputs.
--
-- What is not code of the repository is a parameter: go/scanner, go/parser, go/format and
-- golang.org/x/tools/go/packages (`Tools`), the order in which Go ranges over a map (`RangeOrder`), the
-- container engine (`Engine`), files, automerge, `go build` and http.Get (`Host`), websockets (`Wire`),
-- net/http and the clock (`Transport`), the gRPC services (`Services`), viper and .env files (`Viper`, and
-- what is relied on of it in `Documented`), environment variables and git (`Process`), RabbitMQ (`Amqp`),
-- the random numbers and with them the jitter of a delay, the routes of the library for the metrics,
-- and the rest that the start of the service calls (`Platform`). Each works on a
-- state of the world outside; what a theorem relies on of them is among its hypotheses.
--
-- Loops are structural recursion over tokens, lines, frames or attempts. The one recursion on fuel is
-- the decimal writing of a number, with the number plus one as fuel, which is more than its digits.
-- Durations are nanoseconds; the shift of the delay between two attempts is taken modulo 2 ^ 64.
-- In Usecase.antt a mutex is a flag, and a call that has to wait for it has no result; in
-- Usecase/Locks.antt a mutex has a number, and locking, waiting and unlocking are steps. The steps of
-- the service, a request, the beginning of a session, a frame or a message of a kernel, come in any
-- order; each of them is atomic. Errors are their texts, and logging is left out.
--
-- Not modelled: how the other effects of two steps of the service mix, the text of logs, the
-- durations that are measured, and the generated gRPC code.
pub mod Prelude
pub mod Effects
pub mod Strings
pub mod Preproc
pub mod Configs
pub mod Docker
pub mod Usecase
pub mod Delivery
pub mod HttpClient
pub mod Middlewares
pub mod Server
pub mod Metrics
pub mod Logger
pub mod Rabbit
pub mod Random
pub mod Application
pub mod Tests
