-- ===== src/Preproc/Export/Layout.antt =====
-- internal/preproc/preproc.go, `FormExportFunc`: the order of the parts of a plugin's source, before its
-- imports are cleaned.
use mathlib.Core.List.{append_assoc, append-nil}
use noted_runner.Prelude.{
  ℕ, ◌+◌, ◌≡◌, sym, ap, ◌∙◌, not, ◌&&◌, List, [], ◌∷◌, ◌++◌, Text, ascii, contains,
}
use noted_runner.Strings.{split}
use noted_runner.Preproc.Block.{
  Kind, func_name, func_body, var_decl, other, LineKinds, kinds_at, Block,
}
use noted_runner.Preproc.Export.{
  RangeOrder, emit, emit_kinds, emit_lines, export_header, map_lines, reuse_line, reuse_lines,
  store_line, store_lines, prologue, with_lines, export_source,
}
use noted_runner.Preproc.Export.Names.{Distinct, all_lines, reuse_lines_lem, store_lines_lem}
use noted_runner.Preproc.BaseCopypaste.{base_copypaste}

-- The text begins with the other one.
abbrev Extended : Text → Text → Type 0
Extended s t = (rest : Text) × (t ≡ s ++ rest)

Extended-trans : (s t u : Text) → Extended s t → Extended t u → Extended s u
Extended-trans s t u (r, e) (q, f) = (r ++ q, f ∙ (ap (λ a. a ++ q) e ∙ append_assoc s r q))

append_line :
    (t m : Text) → m ++ ascii "\t" ++ t ++ ascii "\n" ≡ m ++ (ascii "\t" ++ t ++ ascii "\n")
append_line t m =
    ap (λ a. a ++ ascii "\n") (append_assoc m (ascii "\t") t)
    ∙ append_assoc m (ascii "\t" ++ t) (ascii "\n")

Extended-emit : (text : Text) (k : Kind) (acc : Text × Text) → Extended acc.1 (emit text k acc).1
unfolding emit
Extended-emit text func_name acc = ([], sym (append-nil acc.1))
Extended-emit text func_body acc = ([], sym (append-nil acc.1))
Extended-emit text var_decl acc = (ascii "\t" ++ text ++ ascii "\n", append_line text acc.1)
Extended-emit text other acc = (ascii "\t" ++ text ++ ascii "\n", append_line text acc.1)

Extended-emit_kinds :
    (text : Text) (ks : List Kind) (acc : Text × Text) → Extended acc.1 (emit_kinds text ks acc).1
unfolding emit_kinds
Extended-emit_kinds text [] acc = ([], sym (append-nil acc.1))
Extended-emit_kinds text (k ∷ ks) acc =
    Extended-trans acc.1 (emit text k acc).1 (emit_kinds text ks (emit text k acc)).1
      (Extended-emit text k acc) (Extended-emit_kinds text ks (emit text k acc))

Extended-emit_lines :
    (order : RangeOrder) (m : LineKinds) (n : ℕ) (texts : List Text) (acc : Text × Text)
    → Extended acc.1 (emit_lines order m n texts acc).1
unfolding emit_lines
Extended-emit_lines order m n [] acc = ([], sym (append-nil acc.1))
Extended-emit_lines order m n (text ∷ texts) acc =
    let next = emit_kinds text (order n (kinds_at m n)) acc in
    Extended-trans acc.1 next.1 (emit_lines order m (n + 1) texts next).1
      (Extended-emit_kinds text (order n (kinds_at m n)) acc)
      (Extended-emit_lines order m (n + 1) texts next)

-- The source is: the common beginning with the functions of the block, the head of the exported function,
-- the lines that read functions and variables of other blocks, the other lines of the block, and the
-- lines that write the functions and the variables of the block. A name is read exactly when it is
-- listed as used and the block does not declare it, and written exactly when the block declares it; no
-- name is read or written twice.
pub record Layout (order : RangeOrder) (b : Block) (attempt : Text) : Type 0 where
  pub defs : Text
  pub body : Text
  pub read_funcs : List Text
  pub read_vars : List Text
  pub written_funcs : List Text
  pub written_vars : List Text
  pub source :
      export_source order b attempt
      ≡ defs
        ++ (export_header b attempt
            ++ map_lines b
            ++ all_lines (reuse_line (ascii "funcsMap") b.types.funcs) read_funcs
            ++ all_lines (reuse_line (ascii "varsMap") b.types.vars) read_vars
            ++ body
            ++ all_lines (store_line (ascii "funcsMap")) written_funcs
            ++ all_lines (store_line (ascii "varsMap")) written_vars)
        ++ ascii "}\n"
  pub reads_funcs :
      (f : Text) → contains f read_funcs ≡ (not (contains f b.fnames) && contains f b.reused_funcs)
  pub reads_vars :
      (x : Text) → contains x read_vars ≡ (not (contains x b.vnames) && contains x b.reused_vars)
  pub writes_funcs : (f : Text) → contains f written_funcs ≡ contains f b.fnames
  pub writes_vars : (x : Text) → contains x written_vars ≡ contains x b.vnames
  pub once :
      Distinct read_funcs × Distinct read_vars × Distinct written_funcs × Distinct written_vars

-- Every source of a plugin has this layout.
pub export_source-Layout :
    (order : RangeOrder) (b : Block) (attempt : Text) → Layout order b attempt
unfolding export_source with_lines prologue
export_source-Layout order b attempt =
    let head = export_header b attempt ++ map_lines b in
    let (fs, fe, fd, fm) =
      reuse_lines_lem (ascii "funcsMap") b.types.funcs b.fnames b.reused_funcs head in
    let (vs, ve, vd, vm) =
      reuse_lines_lem (ascii "varsMap") b.types.vars b.vnames b.reused_vars
        (reuse_lines (ascii "funcsMap") b.types.funcs b.fnames [] b.reused_funcs head) in
    let (body, be) =
      Extended-emit_lines order b.line_kinds 1 (split b.content (ascii "\n"))
        (base_copypaste, prologue b attempt) in
    let acc = with_lines order b attempt in
    let (wf, wfe, wfd, wfm) = store_lines_lem (ascii "funcsMap") b.fnames acc.1 in
    let (wv, wve, wvd, wvm) =
      store_lines_lem (ascii "varsMap") b.vnames
        (store_lines (ascii "funcsMap") [] b.fnames acc.1) in
    let reads = ve ∙ ap (λ m. m ++ all_lines (reuse_line (ascii "varsMap") b.types.vars) vs) fe in
    record {
      defs = acc.0;
      body = body;
      read_funcs = fs;
      read_vars = vs;
      written_funcs = wf;
      written_vars = wv;
      source =
          ap (λ m. acc.0 ++ m ++ ascii "}\n")
            (wve
              ∙ ap (λ m. m ++ all_lines (store_line (ascii "varsMap")) wv)
                  (wfe
                    ∙ ap (λ m. m ++ all_lines (store_line (ascii "funcsMap")) wf)
                        (be ∙ ap (λ m. m ++ body) reads)));
      reads_funcs = fm;
      reads_vars = vm;
      writes_funcs = wfm;
      writes_vars = wvm;
      once = (fd, vd, wfd, wvd);
    }
