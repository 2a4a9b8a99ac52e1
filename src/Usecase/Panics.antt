-- ===== src/Usecase/Panics.antt =====
-- A call of `RunBlock` for a kernel that was started returns.
use noted_runner.Prelude.{
  ◌≡◌, ◌≢◌, refl, ap, sym, ◌∙◌, ◌++◌, subst, Bool, true, false, Option, none, some, [], Text, ascii,
  Outcome, ok, err, panic, or_panic, lookup, arith,
}
use noted_runner.Strings.{split}
use noted_runner.Preproc.Tools.{other_expr}
use noted_runner.Preproc.Block.{KernelTypes, new_block}
use noted_runner.Preproc.Scan.Panics.{NamedFuncs, OnLines, parse-ne-panic}
use noted_runner.Preproc.Export.{form_export_func}
use noted_runner.Usecase.{
  Host, Sys, Act, continue, outcome_of, outside, build, build_result, chmod_all, launch, prepare,
  read_source, read_document, parse_with, parse_block, parse_error, run_locked, run_with, run_block,
  next_attempt, kernel_key, set_mux, unlock,
}

outcome_of-ne-panic : (x : Option Text) → outcome_of x ≢ panic
outcome_of-ne-panic none = λ e. cc
outcome_of-ne-panic (some x) = λ e. cc

some_text : {a b : Text} → some a ≡ some b → a ≡ b
some_text e = cc

or_panic-ok : (o : Option Text) {a : Text} → or_panic o ≡ ok a → o ≡ some a
or_panic-ok none e = cc
or_panic-ok (some a) e = cc

module _ {W : Type 0} where
  continue-ne-panic :
      {A B : Type 0} (r : Outcome A × Sys W) (f : A → Act W B)
      → r.0 ≢ panic
      → ((a : A) (t : Sys W) → r ≡ (ok a, t) → (f a t).0 ≢ panic)
      → (continue r f).0 ≢ panic
  unfolding continue
  continue-ne-panic (ok a, t) f p q = q a t refl
  continue-ne-panic (err x, t) f p q = λ e. cc
  continue-ne-panic (panic, t) f p q = λ e. p refl

  -- What a run of a block relies on, of the block's own file alone, when it is read in the world `w`: Go's
  -- parser of expressions rejects the empty text, reading the file returns, and if it is read, automerge
  -- loads a document from it whose text has its tokens on its lines, with a name behind every `func`.
  pub record Readable (h : Host W) (mount kernel_id block_id : Text) (w : W) : Type 0 where
    pub rejects : h.tools.parse_expr [] ≢ other_expr
    pub reads :
        (h.read_file
          (mount ++ ascii "/" ++ kernel_id ++ ascii "/" ++ (ascii "block_" ++ block_id))
          w).0
        ≢ panic
    pub loads :
        {file : Text}
        → (h.read_file
            (mount ++ ascii "/" ++ kernel_id ++ ascii "/" ++ (ascii "block_" ++ block_id))
            w).0
          ≡ ok file
        → (text : Text) × (h.document_text file ≡ some text)
          × NamedFuncs false (h.tools.scan text)
          × OnLines (split text (ascii "\n")) (h.tools.scan text)

  -- the world in which `RunBlock` reads the block's file: the user's directory has been made
  abbrev pub when_read : Host W → Text → Text → Text → W → W
  when_read h mount kernel_id user_id w =
      (h.mkdir_all (mount ++ ascii "/" ++ kernel_id ++ ascii "/" ++ user_id) w).1

  module _ (h : Host W) where
    build_result-ne-panic : (x : Option (Text × Text)) → build_result h x ≢ panic
    unfolding build_result
    build_result-ne-panic none = λ e. cc
    build_result-ne-panic (some x) = λ e. cc

    launch-ne-panic :
        (mount prefix kernel_id block_id user_id attempt code : Text) (s : Sys W)
        → (launch h mount prefix kernel_id block_id user_id attempt code s).0 ≢ panic
    unfolding launch outside build chmod_all
    launch-ne-panic mount prefix kernel_id block_id user_id attempt code s =
        continue-ne-panic _ _ (outcome_of-ne-panic _) λ a t e.
          continue-ne-panic _ _ (build_result-ne-panic _)
            λ b u e'. continue-ne-panic _ _ (λ x. cc) λ c v e''. outcome_of-ne-panic _

    parse_with-ne-panic :
        (key block_id text : Text) (s : Sys W) (types : KernelTypes)
        → h.tools.parse_expr [] ≢ other_expr
        → NamedFuncs false (h.tools.scan text)
        → OnLines (split text (ascii "\n")) (h.tools.scan text)
        → (parse_with h key block_id text (some types) s).0 ≢ panic
    unfolding parse_with parse_error new_block
    parse_with-ne-panic key block_id text s types rejects named on_lines =
        let fine = parse-ne-panic h.tools (new_block block_id text types) rejects named on_lines in
        ground arith

    prepare-ne-panic :
        (mount kernel_id block_id user_id : Text) (s : Sys W) {types : KernelTypes}
        → Readable h mount kernel_id block_id (when_read h mount kernel_id user_id s.world)
        → lookup (kernel_key kernel_id user_id) s.uc.kernel_types ≡ some types
        → (prepare h mount kernel_id block_id user_id s).0 ≢ panic
    unfolding prepare outside read_source read_document parse_block
    prepare-ne-panic mount kernel_id block_id user_id s {types} readable known =
        continue-ne-panic _ _ (outcome_of-ne-panic _) λ a t e.
          let here = subst (Readable h mount kernel_id block_id) (ap (λ x. x.1.world) e) readable in
          continue-ne-panic _ _ here.reads λ file u e'.
            let (text, document, named, on_lines) = here.loads (ap (λ x. x.0) e') in
            continue-ne-panic _ _ (λ p. cc)
              λ read_text v e''.
                let same : text ≡ read_text =
                  some_text (sym document ∙ or_panic-ok _ (ap (λ x. x.0) e'')) in
                let typed : lookup (kernel_key kernel_id user_id) v.uc.kernel_types ≡ some types =
                  sym (
                    ap (λ x. lookup (kernel_key kernel_id user_id) x.1.uc.kernel_types) e
                    ∙ ap (λ x. lookup (kernel_key kernel_id user_id) x.1.uc.kernel_types) e'
                    ∙ ap (λ x. lookup (kernel_key kernel_id user_id) x.1.uc.kernel_types) e'')
                  ∙ known in
                rw typed (
                  parse_with-ne-panic (kernel_key kernel_id user_id) block_id read_text v types
                    here.rejects (subst (λ z. NamedFuncs false (h.tools.scan z)) same named)
                    (subst (λ z. OnLines (split z (ascii "\n")) (h.tools.scan z)) same on_lines))

    run_locked-ne-panic :
        (kernel_id block_id user_id : Text) (s : Sys W) {types : KernelTypes}
        → Readable h s.uc.mount_path kernel_id block_id
            (when_read h s.uc.mount_path kernel_id user_id s.world)
        → lookup (kernel_key kernel_id user_id) s.uc.kernel_types ≡ some types
        → (run_locked h kernel_id block_id user_id s).0 ≢ panic
    unfolding run_locked next_attempt
    run_locked-ne-panic kernel_id block_id user_id s readable known =
        continue-ne-panic _ _ (λ x. cc)
          λ attempt t e.
            continue-ne-panic _ _
              (prepare-ne-panic s.uc.mount_path kernel_id block_id user_id t
                (subst
                  (λ w.
                    Readable h s.uc.mount_path kernel_id block_id
                      (when_read h s.uc.mount_path kernel_id user_id w))
                  (ap (λ x. x.1.world) e) readable)
                (sym (ap (λ x. lookup (kernel_key kernel_id user_id) x.1.uc.kernel_types) e)
                  ∙ known))
              λ b u e'.
                launch-ne-panic s.uc.mount_path s.uc.kernel_prefix kernel_id block_id user_id
                  attempt (form_export_func h.tools h.order b attempt) u

    panics_with :
        (kernel_id block_id user_id : Text) (s : Sys W) (m : Option Bool) {types : KernelTypes}
        → Readable h s.uc.mount_path kernel_id block_id
            (when_read h s.uc.mount_path kernel_id user_id s.world)
        → m ≢ none
        → lookup (kernel_key kernel_id user_id) s.uc.kernel_types ≡ some types
        → (run_with h kernel_id block_id user_id m s).0 ≢ some panic
    unfolding run_with unlock set_mux
    panics_with kernel_id block_id user_id s none readable p known = λ e. p refl
    panics_with kernel_id block_id user_id s (some true) readable p known = λ e. cc
    panics_with kernel_id block_id user_id s (some false) readable p known =
        let fine =
          run_locked-ne-panic kernel_id block_id user_id
            (set_mux h (kernel_key kernel_id user_id) true s) readable known in
        λ e. fine cc

    -- For a kernel that has a mutex and known types, `RunBlock` does not panic, if the block's file is
    -- readable.
    pub run_block-ne-panic :
        (kernel_id block_id user_id : Text) (s : Sys W) {types : KernelTypes}
        → Readable h s.uc.mount_path kernel_id block_id
            (when_read h s.uc.mount_path kernel_id user_id s.world)
        → lookup (kernel_key kernel_id user_id) s.uc.kernel_muxes ≢ none
        → lookup (kernel_key kernel_id user_id) s.uc.kernel_types ≡ some types
        → (run_block h kernel_id block_id user_id s).0 ≢ some panic
    unfolding run_block
    run_block-ne-panic kernel_id block_id user_id s readable p known =
        panics_with kernel_id block_id user_id s _ readable p known
