-- ===== src/Usecase/Blocks.antt =====
-- What a call of `RunBlock` changes, on every way out of it.
use noted_runner.Prelude.{
  ℕ, ◌+◌, ◌≡◌, refl, ◌∙◌, Bool, true, false, Option, none, some, List, ◌++◌, arith, Text, lookup,
  insert, lookup-insert, if◌then◌else◌, text_eq, text_eq_iff, ascii, ap,
}
use noted_runner.Strings.{itoa}
use noted_runner.Preproc.Export.{form_export_func}
use noted_runner.Usecase.{
  Host, Sys, Compile, continue, next_attempt, prepare, run_locked, run_with, run_block, set_mux,
  kernel_key, unlock,
}
use noted_runner.Usecase.Frame.{Extends-refl, Kept, Grown, prepare-Kept, launch-Kept, Kept-continue}

-- the number of runs so far
abbrev pub runs : Text → List (Text × ℕ) → ℕ
runs key m = elim (lookup key m) [ none ↦ 0 | some n ↦ n ]

module _ {W : Type 0} (h : Host W) where
  -- the program once the run has its number
  abbrev pub numbered : Text → Sys W → Sys W
  numbered key s = record s {
    uc = record s.uc {
      kernel_attempts = insert key (runs key s.uc.kernel_attempts + 1) s.uc.kernel_attempts;
    };
  }

  numbered-Kept :
      (kernel_id block_id user_id : Text) (s : Sys W)
      → Kept
          (kernel_key kernel_id user_id)
          (numbered (kernel_key kernel_id user_id ++ block_id) s)
          (run_locked h kernel_id block_id user_id s).1
  unfolding run_locked next_attempt continue
  numbered-Kept kernel_id block_id user_id s =
      let key = kernel_key kernel_id user_id in
      let t = numbered (key ++ block_id) s in
      let attempt = ascii "at" ++ itoa (runs (key ++ block_id) s.uc.kernel_attempts + 1) in
      Kept-continue key t (prepare h s.uc.mount_path kernel_id block_id user_id t) _
        (prepare-Kept h s.uc.mount_path kernel_id block_id user_id t)
        λ b u.
          launch-Kept key h s.uc.mount_path s.uc.kernel_prefix kernel_id block_id user_id attempt
            (form_export_func h.tools h.order b attempt) u

  muxes_with :
      (kernel_id block_id user_id : Text) (s : Sys W) (m : Option Bool)
      → lookup (kernel_key kernel_id user_id) s.uc.kernel_muxes ≡ m
      → (j : Text)
      → lookup j (run_with h kernel_id block_id user_id m s).1.uc.kernel_muxes
        ≡ lookup j s.uc.kernel_muxes
  unfolding run_with unlock set_mux
  muxes_with kernel_id block_id user_id s none e j = refl
  muxes_with kernel_id block_id user_id s (some true) e j = refl
  muxes_with kernel_id block_id user_id s (some false) e j =
      let key = kernel_key kernel_id user_id in
      let locked = insert key true s.uc.kernel_muxes in
      let k = numbered-Kept kernel_id block_id user_id (set_mux h key true s) in
      ground (
        arith,
        lookup-insert key j false locked,
        lookup-insert key j true s.uc.kernel_muxes,
        text_eq_iff key j,
        k.muxes,
      )

  runs-insert :
      (key : Text) (s : Sys W) (j : Text)
      → runs j (numbered key s).uc.kernel_attempts
        ≡ (if text_eq key j then runs j s.uc.kernel_attempts + 1 else runs j s.uc.kernel_attempts)
  runs-insert key s j = ground (
    arith,
    lookup-insert key j (runs key s.uc.kernel_attempts + 1) s.uc.kernel_attempts,
    text_eq_iff key j,
  )

  -- the program after a call, whether it returned or waits
  abbrev pub after : Text → Text → Text → Sys W → Compile
  after kernel_id block_id user_id s = (run_block h kernel_id block_id user_id s).1.uc

  -- When `RunBlock` returns, with or without an error, every mutex is as it was before the call: the
  -- one it has locked is unlocked, and no other has changed.
  pub run_block-muxes :
      (kernel_id block_id user_id : Text) (s : Sys W) (j : Text)
      → lookup j (after kernel_id block_id user_id s).kernel_muxes ≡ lookup j s.uc.kernel_muxes
  unfolding run_block run_with unlock set_mux
  run_block-muxes kernel_id block_id user_id s j = muxes_with kernel_id block_id user_id s _ refl j

  attempts_with :
      (kernel_id block_id user_id : Text) (s : Sys W) (m : Option Bool)
      → m ≡ some false
      → (j : Text)
      → runs j (run_with h kernel_id block_id user_id m s).1.uc.kernel_attempts ≡ (
          if text_eq (kernel_key kernel_id user_id ++ block_id) j
          then runs j s.uc.kernel_attempts + 1
          else runs j s.uc.kernel_attempts)
  unfolding run_with unlock set_mux
  attempts_with kernel_id block_id user_id s none e j = cc
  attempts_with kernel_id block_id user_id s (some true) e j = cc
  attempts_with kernel_id block_id user_id s (some false) e j =
      let key = kernel_key kernel_id user_id in
      let t = set_mux h key true s in
      let k = numbered-Kept kernel_id block_id user_id t in
      ap (runs j) k.attempts ∙ runs-insert (key ++ block_id) t j

  -- A call of `RunBlock` for a kernel whose mutex is free adds one to the number of runs of that
  -- user's block, whatever comes of the run, and to no other number.
  pub run_block-attempts :
      (kernel_id block_id user_id : Text) (s : Sys W)
      → lookup (kernel_key kernel_id user_id) s.uc.kernel_muxes ≡ some false
      → (j : Text)
      → runs j (after kernel_id block_id user_id s).kernel_attempts ≡ (
          if text_eq (kernel_key kernel_id user_id ++ block_id) j
          then runs j s.uc.kernel_attempts + 1
          else runs j s.uc.kernel_attempts)
  unfolding run_block run_with unlock set_mux
  run_block-attempts kernel_id block_id user_id s free j =
      attempts_with kernel_id block_id user_id s _ free j

  -- what one call may change of what is known
  pub record Learned (key : Text) (old new : Compile) : Type 0 where
    pub grown : Grown key old.kernel_types new.kernel_types
    pub others :
        (j : Text) → text_eq key j ≡ false → lookup j new.kernel_types ≡ lookup j old.kernel_types
    pub client : new.client ≡ old.client
    pub mount : new.mount_path ≡ old.mount_path
    pub prefix : new.kernel_prefix ≡ old.kernel_prefix

  Learned-same : (key : Text) (c : Compile) → Learned key c c
  Learned-same key c = record {
    grown = λ t e. (t, e, Extends-refl t);
    others = λ j e. refl;
    client = refl;
    mount = refl;
    prefix = refl;
  }

  Learned-with :
      (kernel_id block_id user_id : Text) (s : Sys W) (m : Option Bool)
      → Learned (kernel_key kernel_id user_id) s.uc (run_with h kernel_id block_id user_id m s).1.uc
  unfolding run_with unlock set_mux
  Learned-with kernel_id block_id user_id s none = Learned-same (kernel_key kernel_id user_id) s.uc
  Learned-with kernel_id block_id user_id s (some true) =
      Learned-same (kernel_key kernel_id user_id) s.uc
  Learned-with kernel_id block_id user_id s (some false) =
      let k =
        numbered-Kept kernel_id block_id user_id
          (set_mux h (kernel_key kernel_id user_id) true s) in
      record {
        grown = k.grown;
        others = k.others;
        client = k.client;
        mount = k.mount;
        prefix = k.prefix;
      }

  -- Whatever comes of a call of `RunBlock`, what is known of the kernel's functions, variables and
  -- types is kept or grows, what is known of any other kernel does not change, and neither do the
  -- active containers, the path and the prefix.
  pub run_block-Learned :
      (kernel_id block_id user_id : Text) (s : Sys W)
      → Learned (kernel_key kernel_id user_id) s.uc (after kernel_id block_id user_id s)
  unfolding run_block run_with unlock set_mux
  run_block-Learned kernel_id block_id user_id s = Learned-with kernel_id block_id user_id s _
