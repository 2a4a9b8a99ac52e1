-- ===== src/Usecase/Locks.antt =====
-- internal/usecase/compile.go: the mutexes of `StartKernel` and `RunBlock`, where calls of several
-- goroutines interleave. `RunBlock` reads the map of mutexes twice: for Lock, and, once it holds the
-- lock, for the Unlock that it defers.
pub mod Exclusion
pub mod Restart
pub mod Progress
use noted_runner.Prelude.{
  ℕ, ◌+◌, ◌≡◌, Bool, true, false, Option, some, List, [], ◌∷◌, ◌++◌, ◌==◌, if◌then◌else◌, Text,
  lookup, insert,
}

-- a call of `RunBlock` for a key: the mutex that it waits for or has locked, and the one that its
-- deferred call unlocks
pub data Run : Type 0 where
  waiting : Text → ℕ → Run
  holding : Text → ℕ → Run
  inside : Text → ℕ → ℕ → Run

-- Mutexes are known by a number, `allocated` of which are made; `fatal` is Go's end of the program
-- when a mutex is unlocked that is not locked.
pub record Locks : Type 0 where
  pub kernel_muxes : List (Text × ℕ)
  pub locked : ℕ → Bool
  pub allocated : ℕ
  pub runs : List Run
  pub fatal : Bool

unfoldable pub set_locked : ℕ → Bool → (ℕ → Bool) → ℕ → Bool
set_locked m b locked n = if n == m then b else locked n

-- `uc.kernelMuxes[key] = &sync.Mutex{}`
unfoldable pub new_mutex : Text → Locks → Locks
new_mutex key s = record s {
  kernel_muxes = insert key s.allocated s.kernel_muxes;
  allocated = s.allocated + 1;
}

-- Unlock
unfoldable pub unlock : ℕ → Locks → Locks
unfolding set_locked
unlock d s =
    if s.locked d
    then record s { locked = set_locked d false s.locked }
    else record s { fatal = true }

-- The steps of `StartKernel` and `RunBlock` that concern the mutexes, with the keys for which a mutex is
-- made. A call for a key without a mutex is a nil dereference, which touches no mutex.
pub data Step (s : Locks) : List Text → Locks → Type 0 where
  start_kernel : (key : Text) → Step s (key ∷ []) (new_mutex key s)
  call :
      (key : Text) (m : ℕ)
      → lookup key s.kernel_muxes ≡ some m
      → Step s [] (record s { runs = s.runs ++ waiting key m ∷ [] })
  lock :
      (before : List Run) (key : Text) (m : ℕ) (after : List Run)
      → s.runs ≡ before ++ waiting key m ∷ after
      → s.locked m ≡ false
      → Step s []
          (record s { locked = set_locked m true s.locked; runs = before ++ holding key m ∷ after })
  defer_unlock :
      (before : List Run) (key : Text) (m d : ℕ) (after : List Run)
      → s.runs ≡ before ++ holding key m ∷ after
      → lookup key s.kernel_muxes ≡ some d
      → Step s [] (record s { runs = before ++ inside key m d ∷ after })
  leave :
      (before : List Run) (key : Text) (m d : ℕ) (after : List Run)
      → s.runs ≡ before ++ inside key m d ∷ after
      → Step s [] (unlock d (record s { runs = before ++ after }))

-- the use case before its first call
unfoldable pub no_locks : Locks
no_locks = record {
  kernel_muxes = [];
  locked = λ m. false;
  allocated = 0;
  runs = [];
  fatal = false;
}

-- What is reached, with the keys of the kernels that were started, the last one first.
pub data Reach : List Text → Locks → Type 0 where
  none_yet : Reach [] no_locks
  further :
      {history keys : List Text} {s t : Locks}
      → Reach history s
      → Step s keys t
      → Reach (keys ++ history) t
