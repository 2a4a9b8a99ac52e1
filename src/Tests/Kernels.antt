-- ===== src/Tests/Kernels.antt =====
-- Kernels, with a world outside that counts the calls.
use noted_runner.Prelude.{ℕ, ◌+◌, ◌≡◌, Text, refl, false, none, some, List, [], ◌∷◌, ascii, ok}
use noted_runner.Preproc.Block.{KernelTypes, new_kernel_types}
use noted_runner.Preproc.Export.Order.{recorded_order}
use noted_runner.Configs.{DockerConfig}
use noted_runner.Docker.{Engine, DockerClient, close}
use noted_runner.Docker.Active.{
  Call, create_call, run_call, remove_call, replay, stop_and_remove_each, close-replay,
}
use noted_runner.Docker.Removal.{RemovalSpec, remove-RemovalSpec}
use noted_runner.Usecase.{Host, Sys, start_kernel}
use noted_runner.Usecase.Blocks.{after, Learned, run_block-Learned}
use noted_runner.Usecase.Panics.{Readable}
use noted_runner.Preproc.Scan.{line_at}
use noted_runner.Strings.{split}
use noted_runner.Prelude.{◌≢◌}
use noted_runner.Usecase.Kernels.{Started, start_kernel-Started}
use noted_runner.Tests.{assign_tools}

abbrev engine : Engine ℕ
engine = record {
  container_create = λ r n. (ok (ascii "c"), n + 1);
  container_start = λ id n. (none, n + 1);
  container_stop = λ id n. (none, n + 1);
  container_remove = λ id n. (some (ascii "gone"), n + 1);
  client_close = λ n. (none, n + 1);
  is_err_connection_failed = λ x. false;
}

abbrev pub config : DockerConfig
config = record {
  volume = record { source = ascii "noted"; target = ascii "/mnt" };
  env = record {
    rmq_addr = ascii "rmq";
    mount_path = ascii "/mnt";
    export_prefix = ascii "Export_";
    block_prefix = ascii "block_";
    chan_name = ascii "results";
    block_timeout = 1_000_000_000;
  };
  host = ascii "host";
  image = ascii "kernel";
  network = ascii "net";
  prefix = ascii "kernel-";
  app_port = ascii "8080";
}

abbrev pub client : DockerClient
client = record { config = config; active = [] }

-- one container is created, started and removed
abbrev history : List Call
history =
    create_call (ascii "kernel-k") (ascii "k") ∷ run_call (ascii "c") ∷ remove_call (ascii "c") ∷ []

close-replay_example :
    close engine (replay engine history (client, 0)).1
    ≡ (engine.client_close (
        stop_and_remove_each engine
          (replay engine history (client, 0)).0
          (replay engine history (client, 0)).1.1)).1
close-replay_example = close-replay engine history (client, 0)

remove-RemovalSpec_example : RemovalSpec engine (ascii "c") 0
remove-RemovalSpec_example = remove-RemovalSpec engine (ascii "c") 0

abbrev pub host : Host ℕ
host = record {
  engine = engine;
  tools = assign_tools;
  order = recorded_order;
  mkdir_all = λ path n. (none, n + 1);
  read_file = λ path n. (ok [], n + 1);
  write_file = λ path text n. (none, n + 1);
  chmod = λ path n. n + 1;
  document_text = λ file. some (ascii "a := 1");
  go_build = λ out file n. (none, n + 1);
  http_get = λ url n. (none, n + 1);
}

-- user `u` has started kernel `k`
abbrev pub kernel_with : KernelTypes → Sys ℕ
kernel_with types = record {
  uc = record {
    client = client;
    mount_path = ascii "/mnt";
    kernel_prefix = ascii "kernel-";
    kernel_muxes = (ascii "ku", false) ∷ [];
    kernel_types = (ascii "ku", types) ∷ [];
    kernel_attempts = [];
  };
  world = 0;
}

abbrev running : Sys ℕ
running = kernel_with new_kernel_types

start_kernel-Started_example :
    Started host
      (ascii "k")
      (ascii "v")
      running
      (start_kernel host (ascii "k") (ascii "v") running).0
      (start_kernel host (ascii "k") (ascii "v") running).1.uc
start_kernel-Started_example = start_kernel-Started host (ascii "k") (ascii "v") running

run_block-Learned_example :
    Learned host (ascii "ku") running.uc (after host (ascii "k") (ascii "b") (ascii "u") running)
run_block-Learned_example = run_block-Learned host (ascii "k") (ascii "b") (ascii "u") running

on_line : line_at (split (ascii "a := 1") (ascii "\n")) 1 ≢ none
unfolding split line_at
on_line = λ e. cc

-- the file of any block of the kernel, whenever it is read
pub host-Readable : (block_id : Text) (w : ℕ) → Readable host (ascii "/mnt") (ascii "k") block_id w
host-Readable block_id w = record {
  rejects = λ e. cc;
  reads = λ e. cc;
  loads = λ e. (ascii "a := 1", refl, tt, (on_line, (on_line, (on_line, (on_line, tt)))));
}
