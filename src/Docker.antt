-- ===== src/Docker.antt =====
-- internal/docker/docker.go: the client of the container engine. The engine is no part of the
-- repository: `Engine` is a parameter, over the state `W` of the world outside.
pub mod Active
pub mod Removal
use noted_runner.Prelude.{
  ℕ, ◌/◌, Bool, Option, none, some, List, [], ◌∷◌, ◌++◌, if◌then◌else◌, Text, ascii, Outcome, ok,
  err, panic,
}
use noted_runner.Strings.{itoa}
use noted_runner.Configs.{DockerConfig}

-- what ContainerCreate is asked for
pub record CreateRequest : Type 0 where
  pub image : Text
  pub exposed_port : Text
  pub env : List Text
  pub mount_source : Text
  pub mount_target : Text
  pub network : Text
  pub name : Text

-- The calls return an error's text or none.
pub record Engine (W : Type 0) : Type 0 where
  pub container_create : CreateRequest → W → Outcome Text × W
  pub container_start : Text → W → Option Text × W
  pub container_stop : Text → W → Option Text × W
  pub container_remove : Text → W → Option Text × W
  pub client_close : W → Option Text × W
  pub is_err_connection_failed : Text → Bool

pub record DockerClient : Type 0 where
  pub config : DockerConfig
  pub active : List Text

-- what `NewDockerClient` returns where the engine answers
unfoldable pub new_docker_client : DockerConfig → DockerClient
new_docker_client config = record { config = config; active = [] }

unfoldable pub create_request : DockerConfig → Text → Text → CreateRequest
create_request c name kernel_id = record {
  image = c.image;
  exposed_port = c.app_port;
  env =
      (ascii "RMQ_ADDR=" ++ c.env.rmq_addr)
      ∷ (ascii "KERNEL_ID=" ++ kernel_id)
      ∷ (ascii "MOUNT_PATH=" ++ c.env.mount_path)
      ∷ (ascii "EXPORT_PREFIX=" ++ c.env.export_prefix)
      ∷ (ascii "BLOCK_PREFIX=" ++ c.env.block_prefix)
      ∷ (ascii "CHAN_NAME=" ++ c.env.chan_name)
      ∷ (ascii "BLOCK_TIMEOUT=" ++ itoa (c.env.block_timeout / 1_000_000_000))
      ∷ [];
  mount_source = c.volume.source;
  mount_target = c.volume.target;
  network = c.network;
  name = name;
}

-- a client and the world
abbrev pub Docked : Type 0 → Type 0
Docked W = DockerClient × W

module _ {W : Type 0} (e : Engine W) where
  unfoldable pub created : DockerClient → Outcome Text × W → Outcome Text × Docked W
  created dc (ok id, w) = (ok id, (record dc { active = dc.active ++ id ∷ [] }, w))
  created dc (err x, w) = (err x, (dc, w))
  created dc (panic, w) = (panic, (dc, w))

  unfoldable pub create : Text → Text → Docked W → Outcome Text × Docked W
  unfolding created create_request
  create name kernel_id (dc, w) =
      created dc (e.container_create (create_request dc.config name kernel_id) w)

  unfoldable pub run : Text → Docked W → Option Text × Docked W
  run id (dc, w) = let (r, w') = e.container_start id w in (r, (dc, w'))

  -- `if client.IsErrConnectionFailed(err) { return nil }; return err`
  unfoldable pub tolerate : Text → Option Text
  tolerate x = if e.is_err_connection_failed x then none else some x

  unfoldable pub removed : Option Text × W → Option Text × W
  unfolding tolerate
  removed (none, w) = (none, w)
  removed (some x, w) = (tolerate x, w)

  unfoldable pub stopped : Text → Option Text × W → Option Text × W
  unfolding removed tolerate
  stopped id (none, w) = removed (e.container_remove id w)
  stopped id (some x, w) = (tolerate x, w)

  -- `Remove`, which reads nothing of the client
  unfoldable pub remove : Text → W → Option Text × W
  unfolding stopped
  remove id w = stopped id (e.container_stop id w)

  -- the loop of `Close`
  unfoldable pub remove_all : List Text → W → W
  unfolding remove
  remove_all [] w = w
  remove_all (id ∷ ids) w = remove_all ids (remove id w).1

  unfoldable pub close : Docked W → W
  unfolding remove_all
  close (dc, w) = (e.client_close (remove_all dc.active w)).1
