-- ===== src/Usecase/Carried.antt =====
-- internal/usecase/compile.go and internal/preproc/preproc.go: a variable that one run of a kernel defines
-- and the next one uses.
use noted_runner.Prelude.{◌≡◌, refl, sym, ap, ◌∙◌, true, false, some, Text, ascii, contains, lookup}
use noted_runner.Preproc.Block.{KernelTypes, new_block}
use noted_runner.Preproc.Scan.Mentions.{mentions, no_due}
use noted_runner.Preproc.Scan.Stored.{NoVar}
use noted_runner.Preproc.Export.{reuse_line}
use noted_runner.Preproc.Export.Layout.{Layout}
use noted_runner.Preproc.Export.Typed.{typed_line}
use noted_runner.Preproc.Export.Carried.{variable_carried}
use noted_runner.Usecase.{Host, Sys}
use noted_runner.Usecase.Compiled.{Compiled}

module _ {W : Type 0} (h : Host W) where
  same_some : {a b : KernelTypes} → some a ≡ some b → a ≡ b
  same_some e = cc

  -- Two runs of one kernel without an error, the second from the state that the first has left. The
  -- first block has no keyword `var` and declares the variable `x`; the second mentions `x` and does not
  -- declare it. Then the second block is parsed on what the first has left, where some type `ty` is
  -- recorded for `x`. The source that was compiled in the first run, before its imports were cleaned,
  -- has exactly one line that writes `x` to the map of variables, and that of the second run has exactly
  -- one line that reads `x` from it, in which it asserts the type `ty`.
  pub variable_reused :
      (kernel_id first_id second_id user_id x : Text) (s t u : Sys W)
      (a : Compiled h kernel_id first_id user_id s t)
      (b : Compiled h kernel_id second_id user_id t u)
      → NoVar (h.tools.scan a.text)
      → contains x a.block.vnames ≡ true
      → contains x b.block.vnames ≡ false
      → mentions x no_due (h.tools.scan b.text) ≡ true
      → (b.types ≡ a.block.types)
        × (ty : Text) × (p : Layout h.order a.block a.attempt) × (q : Layout h.order b.block
            b.attempt)
        × (lookup x a.block.types.vars ≡ some ty)
        × (contains x p.written_vars ≡ true)
        × (contains x q.read_vars ≡ true)
        × (reuse_line (ascii "varsMap") b.block.types.vars x ≡ typed_line (ascii "varsMap") x ty)
  unfolding new_block
  variable_reused kernel_id first_id second_id user_id x s t u a b n declared foreign used =
      let same : b.types ≡ a.block.types = same_some (sym b.known ∙ a.learned) in
      let (ty, p, q, typed, written, read, asserts) =
        variable_carried h.tools h.order (new_block first_id a.text a.types) a.block
          (new_block second_id b.text b.types) b.block x a.attempt b.attempt a.parsed n refl refl
          declared (ap (λ ts. lookup x ts.vars) same) b.parsed foreign used in
      (same, ty, p, q, typed, written, read, asserts)
