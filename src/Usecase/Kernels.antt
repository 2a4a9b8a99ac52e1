-- ===== src/Usecase/Kernels.antt =====
-- What a call of `StartKernel` changes.
use noted_runner.Prelude.{
  ◌≡◌, some, [], ◌∷◌, ◌++◌, arith, Text, Outcome, ok, lookup, lookup-insert, false, if◌then◌else◌,
  text_eq,
}
use noted_runner.Docker
use noted_runner.Docker.{Engine, DockerClient}
use noted_runner.Preproc.Block.{new_kernel_types}
use noted_runner.Usecase.{
  Host, Sys, Compile, continue, register, create_container, run_container, give, start_kernel,
  kernel_key, outside,
}

module _ {W : Type 0} (h : Host W) where
  -- What `StartKernel` leaves behind, by what the engine answers: the answers are those to the
  -- creation of a container and to the start of the container that was created.
  pub record Started (kernel_id user_id : Text) (s : Sys W) (r : Outcome Text) (new : Compile)
      : Type 0 where
    -- The kernel has a free mutex and nothing is known of it, whatever it had before.
    pub mux :
        (j : Text)
        → lookup j new.kernel_muxes ≡ (
            if text_eq (kernel_key kernel_id user_id) j
            then some false
            else lookup j s.uc.kernel_muxes)
    pub types :
        (j : Text)
        → lookup j new.kernel_types ≡ (
            if text_eq (kernel_key kernel_id user_id) j
            then some new_kernel_types
            else lookup j s.uc.kernel_types)
    pub attempts : new.kernel_attempts ≡ s.uc.kernel_attempts
    pub mount : new.mount_path ≡ s.uc.mount_path
    pub prefix : new.kernel_prefix ≡ s.uc.kernel_prefix
    -- The container that it returns is the last of the active ones.
    pub active : (id : Text) → r ≡ ok id → new.client.active ≡ s.uc.client.active ++ id ∷ []

  -- Whatever the engine answers, `StartKernel` gives the kernel a free mutex and forgets what was
  -- known of it, changes neither for any other kernel, and keeps the numbers of runs; where it
  -- returns a container, that is the one new active container.
  pub start_kernel-Started :
      (kernel_id user_id : Text) (s : Sys W)
      → Started kernel_id user_id s
          (start_kernel h kernel_id user_id s).0
          (start_kernel h kernel_id user_id s).1.uc
  unfolding start_kernel register create_container run_container give outside continue Docker.create
      Docker.created
  start_kernel-Started kernel_id user_id s = record {
    mux =
        λ j. ground (arith, lookup-insert (kernel_key kernel_id user_id) j false s.uc.kernel_muxes);
    types = λ j.
        ground (
          arith,
          lookup-insert (kernel_key kernel_id user_id) j new_kernel_types s.uc.kernel_types,
        );
    attempts = ground arith;
    mount = ground arith;
    prefix = ground arith;
    active = λ id e. ground arith;
  }
