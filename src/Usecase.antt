-- ===== src/Usecase.antt =====
-- internal/usecase/compile.go: kernels and the blocks that run in them. The operating system, the Go
-- toolchain, automerge and the kernels' HTTP servers are no part of the repository: `Host` is a
-- parameter, over the state `W` of the world outside.
pub mod Kernels
pub mod Frame
pub mod Blocks
pub mod Served
pub mod Launched
pub mod Compiled
pub mod Carried
pub mod Failed
pub mod Panics
pub mod Sound
pub mod Locks
use noted_runner.Prelude.{
  ℕ, ◌+◌, Bool, true, false, Option, none, some, List, [], ◌∷◌, ◌++◌, if◌then◌else◌, Text, ascii,
  lookup, insert, or_panic, Outcome, ok, err, panic,
}
use noted_runner.Strings.{itoa, replace_all}
use noted_runner.Preproc.Tools.{Tools}
use noted_runner.Preproc.Block.{KernelTypes, new_kernel_types, Block, new_block}
use noted_runner.Preproc.Scan.{parse}
use noted_runner.Preproc.Export.{RangeOrder, form_export_func}
use noted_runner.Docker
use noted_runner.Docker.{Engine, DockerClient}

pub record Host (W : Type 0) : Type 0 where
  pub engine : Engine W
  pub tools : Tools
  pub order : RangeOrder
  -- os.MkdirAll, os.ReadFile, os.WriteFile, os.Chmod
  pub mkdir_all : Text → W → Option Text × W
  pub read_file : Text → W → Outcome Text × W
  pub write_file : Text → Text → W → Option Text × W
  pub chmod : Text → W → W
  -- automerge.Load and the text at the path `text`, whose errors are passed over; none is a panic,
  -- where there is no document
  pub document_text : Text → Option Text
  -- `go build -buildmode=plugin -o out file`: none, or the text of the error and the output
  pub go_build : Text → Text → W → Option (Text × Text) × W
  -- http.Get
  pub http_get : Text → W → Option Text × W

-- A mutex is true while it is locked. The service's configuration and the HTTP client are not read
-- by the operations.
pub record Compile : Type 0 where
  pub client : DockerClient
  pub mount_path : Text
  pub kernel_prefix : Text
  pub kernel_muxes : List (Text × Bool)
  pub kernel_types : List (Text × KernelTypes)
  pub kernel_attempts : List (Text × ℕ)

unfoldable pub new_compiler_usecase : DockerClient → Text → Text → Compile
new_compiler_usecase client mount_path kernel_prefix = record {
  client = client;
  mount_path = mount_path;
  kernel_prefix = kernel_prefix;
  kernel_muxes = [];
  kernel_types = [];
  kernel_attempts = [];
}

-- the program and the world
pub record Sys (W : Type 0) : Type 0 where
  pub uc : Compile
  pub world : W

-- An action may fail or panic; what it has changed stays changed.
abbrev pub Act : Type 0 → Type 0 → Type 0
Act W A = Sys W → Outcome A × Sys W

unfoldable pub continue : {W A B : Type 0} → Outcome A × Sys W → (A → Act W B) → Outcome B × Sys W
continue (ok a, s) f = f a s
continue (err x, s) f = (err x, s)
continue (panic, s) f = (panic, s)

infixl 5 ◌>>=◌ ◌>>◌
abbrev pub ◌>>=◌ : {W A B : Type 0} → Act W A → (A → Act W B) → Act W B
◌>>=◌ m f s = continue (m s) f

abbrev pub ◌>>◌ : {W B : Type 0} → Act W (Unit {0}) → Act W B → Act W B
m >> k = m >>= λ _. k

-- an error's text or none, as an outcome
abbrev pub outcome_of : Option Text → Outcome (Unit {0})
outcome_of none = ok tt
outcome_of (some x) = err x

-- the key of a user's kernel in the maps
abbrev pub kernel_key : Text → Text → Text
kernel_key kernel_id user_id = kernel_id ++ user_id

module _ {W : Type 0} (h : Host W) where
  -- a call of the world outside that reports an error or none
  unfoldable pub outside : (W → Option Text × W) → Act W (Unit {0})
  outside f s = let (r, w) = f s.world in (outcome_of r, record s { world = w })

  unfoldable pub create_container : Text → Text → Act W Text
  create_container name kernel_id s =
      let (r, (dc, w)) = Docker.create h.engine name kernel_id (s.uc.client, s.world) in
      (r, record s { uc = record s.uc { client = dc }; world = w })

  -- `uc.kernelMuxes[key] = &sync.Mutex{}` and the new types
  unfoldable pub register : Text → Act W (Unit {0})
  register key s = (
    ok tt,
    record s {
      uc = record s.uc {
        kernel_muxes = insert key false s.uc.kernel_muxes;
        kernel_types = insert key new_kernel_types s.uc.kernel_types;
      };
    },
  )

  run_container : Text → Act W (Unit {0})
  unfolding outside
  run_container id = outside (λ w. h.engine.container_start id w)

  unfoldable pub give : {A : Type 0} → A → Act W A
  give a s = (ok a, s)

  -- `StartKernel`
  unfoldable pub start_kernel : Text → Text → Act W Text
  unfolding register create_container run_container give
  start_kernel kernel_id user_id s =
      (do
        register (kernel_key kernel_id user_id)
        id ← create_container (s.uc.kernel_prefix ++ kernel_id) kernel_id
        run_container id
        give id)
        s

  -- `att := uc.kernelAttempts[...] + 1` and its write; the result is `attempt`
  unfoldable pub next_attempt : Text → Act W Text
  next_attempt key s =
      let old = lookup key s.uc.kernel_attempts in
      let att = (elim old [ none ↦ 0 | some n ↦ n ]) + 1 in
      (
        ok (ascii "at" ++ itoa att),
        record s { uc = record s.uc { kernel_attempts = insert key att s.uc.kernel_attempts } },
      )

  unfoldable pub read_source : Text → Act W Text
  read_source path s = let (r, w) = h.read_file path s.world in (r, record s { world = w })

  pub parse_error : Outcome (Unit {0}) × Block → Outcome Block
  parse_error (ok _, b) = ok b
  parse_error (err x, b) = err (ascii "error parsing block: " ++ x)
  parse_error (panic, b) = panic

  pub parse_with : Text → Text → Text → Option KernelTypes → Act W Block
  unfolding parse_error
  parse_with key block_id text none s = (panic, s)
  parse_with key block_id text (some types) s =
      let r = parse h.tools (new_block block_id text types) in
      (
        parse_error r,
        record s { uc = record s.uc { kernel_types = insert key r.1.types s.uc.kernel_types } },
      )

  -- The block's types are the kernel's, by pointer: what `Parse` learns stays, also when it fails. A
  -- kernel with a mutex has types, since both maps get the key together; the nil pointer that would be
  -- there otherwise is taken for a panic.
  unfoldable pub parse_block : Text → Text → Text → Act W Block
  unfolding parse_with
  parse_block key block_id text s = parse_with key block_id text (lookup key s.uc.kernel_types) s

  pub build_result : Option (Text × Text) → Outcome (Unit {0})
  build_result none = ok tt
  build_result (some (x, out)) =
      err (ascii "error running go build: " ++ x ++ ascii "\nOutput: " ++ out)

  -- `go build`, and the permissions of the result
  unfoldable pub build : Text → Text → Act W (Unit {0})
  unfolding build_result
  build out file s =
      let (r, w) = h.go_build out file s.world in (build_result r, record s { world = w })

  unfoldable pub chmod_all : Text → Act W (Unit {0})
  chmod_all path s = (ok tt, record s { world = h.chmod path s.world })

  unfoldable pub read_document : Text → Act W Text
  read_document file s = (or_panic (h.document_text file), s)

  abbrev pub slash : Text → Text → Text
  slash a b = a ++ ascii "/" ++ b

  abbrev pub block_file : Text → Text
  block_file block_id = ascii "block_" ++ block_id

  abbrev pub kernel_url : Text → Text → Text → Text → Text → Text
  kernel_url prefix kernel_id block_id user_id attempt =
      ascii "http://"
      ++ prefix
      ++ kernel_id
      ++ ascii ":8080/run?block_id="
      ++ block_id
      ++ ascii "&user_id="
      ++ user_id
      ++ ascii "&attempt="
      ++ attempt

  abbrev pub plugin_path : Text → Text → Text → Text → Text → Text
  plugin_path mount kernel_id user_id block_id attempt =
      slash (slash (slash mount kernel_id) user_id)
        (block_file (replace_all block_id b'-' b'_') ++ ascii "_" ++ attempt ++ ascii ".so")

  -- the part of `RunBlock` that hands the block to its kernel
  unfoldable pub launch : Text → Text → Text → Text → Text → Text → Text → Act W (Unit {0})
  unfolding outside build chmod_all
  launch mount prefix kernel_id block_id user_id attempt code =
      let source =
        slash (slash (slash mount kernel_id) user_id) (block_file block_id) ++ ascii ".go" in
      let plugin = plugin_path mount kernel_id user_id block_id attempt in
      do
        outside (h.write_file source code)
        build plugin source
        chmod_all plugin
        outside (h.http_get (kernel_url prefix kernel_id block_id user_id attempt))

  -- the part of `RunBlock` that makes the block's source
  unfoldable pub prepare : Text → Text → Text → Text → Act W Block
  unfolding outside read_source read_document parse_block
  prepare mount kernel_id block_id user_id = do
    outside (h.mkdir_all (slash (slash mount kernel_id) user_id))
    file ← read_source (slash (slash mount kernel_id) (block_file block_id))
    text ← read_document file
    parse_block (kernel_key kernel_id user_id) block_id text

  -- `RunBlock` while it holds the mutex
  unfoldable pub run_locked : Text → Text → Text → Act W (Unit {0})
  unfolding next_attempt prepare launch form_export_func
  run_locked kernel_id block_id user_id s =
      (do
        attempt ← next_attempt (kernel_key kernel_id user_id ++ block_id)
        block ← prepare s.uc.mount_path kernel_id block_id user_id
        launch s.uc.mount_path s.uc.kernel_prefix kernel_id block_id user_id attempt
            (form_export_func h.tools h.order block attempt))
        s

  unfoldable pub set_mux : Text → Bool → Sys W → Sys W
  set_mux key b s = record s { uc = record s.uc { kernel_muxes = insert key b s.uc.kernel_muxes } }

  -- The deferred unlock runs on every way out.
  pub unlock : Text → Outcome (Unit {0}) × Sys W → Option (Outcome (Unit {0})) × Sys W
  unfolding set_mux
  unlock key (r, s) = (some r, set_mux key false s)

  pub run_with : Text → Text → Text → Option Bool → Sys W → Option (Outcome (Unit {0})) × Sys W
  unfolding unlock run_locked set_mux
  run_with kernel_id block_id user_id none s = (some panic, s)
  run_with kernel_id block_id user_id (some true) s = (none, s)
  run_with kernel_id block_id user_id (some false) s =
      let key = kernel_key kernel_id user_id in
      unlock key (run_locked kernel_id block_id user_id (set_mux key true s))

  -- `RunBlock`: none while the call waits for the mutex; a kernel that was never started has a nil
  -- mutex
  unfoldable pub run_block : Text → Text → Text → Sys W → Option (Outcome (Unit {0})) × Sys W
  unfolding run_with
  run_block kernel_id block_id user_id s =
      run_with kernel_id block_id user_id (lookup (kernel_key kernel_id user_id) s.uc.kernel_muxes)
        s

  -- `StopKernel`
  unfoldable pub stop_kernel : Text → Act W (Unit {0})
  unfolding outside
  stop_kernel id = outside (Docker.remove h.engine id)
