-- ===== src/Usecase/Failed.antt =====
-- internal/usecase/compile.go: what a run that fails behind `Parse` leaves to the next run of the kernel.
use noted_runner.Prelude.{
  ◌≡◌, refl, sym, ap, subst, ◌∙◌, ◌+◌, true, false, Option, none, some, ◌++◌, Text, ascii, ok, err,
  Outcome, contains, lookup, Bool,
}
use noted_runner.Preproc.Block.{Block, KernelTypes, new_block}
use noted_runner.Preproc.Scan.Content.{content-parse}
use noted_runner.Preproc.Scan.Mentions.{mentions, no_due}
use noted_runner.Preproc.Scan.Stored.{NoVar}
use noted_runner.Preproc.Export.{reuse_line, form_export_func}
use noted_runner.Preproc.Export.Layout.{Layout}
use noted_runner.Preproc.Export.Typed.{typed_line}
use noted_runner.Preproc.Export.Carried.{variable_carried}
use noted_runner.Strings.{itoa}
use noted_runner.Usecase.{
  Host, Sys, continue, next_attempt, prepare, launch, run_locked, run_with, run_block, set_mux,
  unlock, kernel_key,
}
use noted_runner.Usecase.Blocks.{numbered, runs}
use noted_runner.Usecase.Compiled.{Compiled, prepare-Parsed, launch-types, lookup-insert_self}

module _ {W : Type 0} (h : Host W) where
  -- The mutex is locked and the run has its number: `RunBlock` in front of its first call outside.
  abbrev pub numbered_run : Text → Text → Text → Sys W → Sys W
  numbered_run kernel_id block_id user_id s =
      let key = kernel_key kernel_id user_id in numbered h (key ++ block_id) (set_mux h key true s)

  abbrev pub attempt_of : Text → Sys W → Text
  attempt_of key s = ascii "at" ++ itoa (runs key s.uc.kernel_attempts + 1)

  -- the last part of a run, with the block that was prepared
  abbrev pub launched : Text → Text → Text → Block → Sys W → Sys W → Outcome (Unit {0}) × Sys W
  launched kernel_id block_id user_id c s v =
      let attempt = attempt_of (kernel_key kernel_id user_id ++ block_id) s in
      launch h s.uc.mount_path s.uc.kernel_prefix kernel_id block_id user_id attempt
        (form_export_func h.tools h.order c attempt) v

  run_locked-launch :
      (kernel_id block_id user_id : Text) (s v : Sys W) (c : Block)
      → prepare h s.uc.mount_path kernel_id block_id user_id
          (numbered h (kernel_key kernel_id user_id ++ block_id) s)
        ≡ (ok c, v)
      → run_locked h kernel_id block_id user_id s ≡ launched kernel_id block_id user_id c s v
  unfolding run_locked next_attempt continue
  run_locked-launch kernel_id block_id user_id s v c p =
      let attempt = attempt_of (kernel_key kernel_id user_id ++ block_id) s in
      ap
        (λ (r : Outcome Block × Sys W). continue r (λ b.
          launch h s.uc.mount_path s.uc.kernel_prefix kernel_id block_id user_id attempt
            (form_export_func h.tools h.order b attempt)))
        p

  run_with-launch :
      (kernel_id block_id user_id : Text) (s v : Sys W) (c : Block) (m : Option Bool)
      → m ≡ some false
      → prepare h s.uc.mount_path kernel_id block_id user_id
          (numbered_run kernel_id block_id user_id s)
        ≡ (ok c, v)
      → ((run_with h kernel_id block_id user_id m s).0
          ≡ some (launched kernel_id block_id user_id c s v).0)
        × ((run_with h kernel_id block_id user_id m s).1.uc.kernel_types ≡ v.uc.kernel_types)
  unfolding run_with unlock set_mux
  run_with-launch kernel_id block_id user_id s v c none e p = cc
  run_with-launch kernel_id block_id user_id s v c (some true) e p = cc
  run_with-launch kernel_id block_id user_id s v c (some false) e p =
      let t = set_mux h (kernel_key kernel_id user_id) true s in
      let r = run_locked-launch kernel_id block_id user_id t v c p in
      (
        ap (λ x. some x.0) r,
        ap (λ x. x.1.uc.kernel_types) r ∙ launch-types h _ _ kernel_id block_id user_id _ _ v,
      )

  same_some : {a b : KernelTypes} → some a ≡ some b → a ≡ b
  same_some e = cc

  -- A run whose block is parsed without an error fails behind that, with the error `why`, for instance
  -- since `go build` does not accept the source: `RunBlock` returns that error. When the block has no
  -- keyword `var` and declares the variable `x`, and the next run of the kernel is without an error, of
  -- a block that mentions `x` and does not declare it, then nevertheless some type `ty` is recorded for
  -- `x`, and the source that is compiled in the next run has exactly one line that reads `x` from the map
  -- of variables and asserts the type `ty`.
  pub variable_unwritten :
      (kernel_id first_id second_id user_id x why : Text) (s v u : Sys W) (c : Block)
      (b : Compiled h kernel_id second_id user_id (run_block h kernel_id first_id user_id s).1 u)
      → lookup (kernel_key kernel_id user_id) s.uc.kernel_muxes ≡ some false
      → prepare h s.uc.mount_path kernel_id first_id user_id
          (numbered_run kernel_id first_id user_id s)
        ≡ (ok c, v)
      → (launched kernel_id first_id user_id c s v).0 ≡ err why
      → NoVar (h.tools.scan c.content)
      → contains x c.vnames ≡ true
      → contains x b.block.vnames ≡ false
      → mentions x no_due (h.tools.scan b.text) ≡ true
      → ((run_block h kernel_id first_id user_id s).0 ≡ some (err why))
        × (ty : Text) × (q : Layout h.order b.block b.attempt) × (lookup x c.types.vars ≡ some ty)
        × (contains x q.read_vars ≡ true)
        × (reuse_line (ascii "varsMap") b.block.types.vars x ≡ typed_line (ascii "varsMap") x ty)
  unfolding run_block new_block
  variable_unwritten kernel_id first_id second_id user_id x why s v u c b free prepared fails n
        declared foreign used =
      let key = kernel_key kernel_id user_id in
      let (outcome, types) = run_with-launch kernel_id first_id user_id s v c _ free prepared in
      let (text, _, p) =
        prepare-Parsed h s.uc.mount_path kernel_id first_id user_id
          (numbered_run kernel_id first_id user_id s) v c prepared in
      let first = new_block first_id text p.types in
      let same : b.types ≡ c.types = same_some (
        sym b.known ∙ (ap (lookup key) (types ∙ p.learned) ∙ lookup-insert_self h key c.types _)) in
      let content : text ≡ c.content =
        sym (content-parse h.tools first) ∙ ap (λ r. r.1.content) p.parsed in
      let (ty, _, q, typed, _, read, asserts) =
        variable_carried h.tools h.order first c (new_block second_id b.text b.types) b.block x
          b.attempt b.attempt p.parsed (subst (λ t. NoVar (h.tools.scan t)) (sym content) n) refl
          refl declared (ap (λ ts. lookup x ts.vars) same) b.parsed foreign used in
      (outcome ∙ ap some fails, ty, q, typed, read, asserts)
