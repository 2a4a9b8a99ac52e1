-- ===== src/Preproc/Export/Typed.antt =====
-- internal/preproc/preproc.go: how the plugin of a block gets the values of earlier blocks, from
-- `Parse` to the first lines that `FormExportFunc` writes.
use noted_runner.Prelude.{
  ◌≡◌, refl, sym, ap, ◌∙◌, true, false, none, some, List, [], ◌++◌, arith, Text, ascii, ok,
  contains, lookup, has_key,
}
use noted_runner.Strings.{split}
use noted_runner.Preproc.Tools.{Tools}
use noted_runner.Preproc.Block.{Block}
use noted_runner.Preproc.Scan.{run, start, parse}
use noted_runner.Preproc.Scan.Rules.{OnSuccess-always}
use noted_runner.Preproc.Scan.Finish.{finish-ok}
use noted_runner.Preproc.Scan.Mentions.{mentions, no_due}
use noted_runner.Preproc.Scan.Reused.{parse-mentions}
use noted_runner.Preproc.Scan.Untouched.{Untouched, Untouched-run}
use noted_runner.Preproc.Export.{RangeOrder, reuse_line}
use noted_runner.Preproc.Export.Layout.{Layout, export_source-Layout}

-- When a block is read without an error, a name that it does not declare keeps its recorded type.
pub parse-untouched :
    (t : Tools) (b c : Block) (x : Text)
    → parse t b ≡ (ok tt, c)
    → (contains x c.vnames ≡ false → lookup x c.types.vars ≡ lookup x b.types.vars)
      × (contains x c.fnames ≡ false → lookup x c.types.funcs ≡ lookup x b.types.funcs)
unfolding parse start
parse-untouched t b c x e =
    let lines = split b.content (ascii "\n") in
    let r = run t lines (t.scan b.content) (start b) in
    let (s, u, same) =
      finish-ok (Untouched x b.types) lines r c
        (OnSuccess-always (Untouched x b.types) r (
          Untouched-run x b.types t lines (t.scan b.content) (start b)
            (record { vars = λ n. refl; funcs = λ n. refl })))
        e in
    (
      λ n. ap (λ ts. lookup x ts.vars) same.types ∙ u.vars (sym (ap (contains x) same.vnames) ∙ n),
      λ n.
          ap (λ ts. lookup x ts.funcs) same.types ∙ u.funcs (sym (ap (contains x) same.fnames) ∙ n),
    )

pub has_key-lookup :
    (k v : Text) (m : List (Text × Text)) → lookup k m ≡ some v → has_key k m ≡ true
unfolding has_key
has_key-lookup k v m e = rw (has_key, e)

-- the line that reads a value of the type from a map
abbrev pub typed_line : Text → Text → Text → Text
typed_line map_name name type_text =
    ascii "\t"
    ++ name
    ++ ascii " := "
    ++ map_name
    ++ ascii "[\""
    ++ name
    ++ ascii "\"].("
    ++ type_text
    ++ ascii ")\n"

pub reuse_line-typed :
    (m name type_text : Text) (types old : List (Text × Text))
    → lookup name types ≡ lookup name old
    → lookup name old ≡ some type_text
    → reuse_line m types name ≡ typed_line m name type_text
unfolding reuse_line
reuse_line-typed m name type_text types old e k =
    ap (λ o. typed_line m name (elim o as (λ _. Text) [ none ↦ [] | some v ↦ v ])) (e ∙ k)

-- For a block that is read without an error, a variable `x` of type `ty` and a function `f` of
-- signature `sig` that the kernel knew and that the block does not declare: in the source of the plugin,
-- a line that reads `x` stands among those that read variables exactly when the block mentions `x`, in an
-- identifier that names no new function and no new type, and it asserts `ty`; a line that reads `f`
-- stands among those that read functions exactly when the block mentions `f`, and it asserts `sig`.
pub export_source-typed :
    (t : Tools) (order : RangeOrder) (b c : Block) (attempt x ty f sig : Text)
    → parse t b ≡ (ok tt, c)
    → lookup x b.types.vars ≡ some ty
    → contains x c.vnames ≡ false
    → lookup f b.types.funcs ≡ some sig
    → contains f c.fnames ≡ false
    → (p : Layout order c attempt) × (contains x p.read_vars ≡ mentions x no_due (t.scan b.content))
      × (reuse_line (ascii "varsMap") c.types.vars x ≡ typed_line (ascii "varsMap") x ty)
      × (contains f p.read_funcs ≡ mentions f no_due (t.scan b.content))
      × (reuse_line (ascii "funcsMap") c.types.funcs f ≡ typed_line (ascii "funcsMap") f sig)
export_source-typed t order b c attempt x ty f sig e kx nx kf nf =
    let p = export_source-Layout order c attempt in
    (
      p,
      ground (
        arith,
        p.reads_vars x,
        nx,
        (parse-mentions t b c x e).0 (has_key-lookup x ty b.types.vars kx),
      ),
      reuse_line-typed (ascii "varsMap") x ty c.types.vars b.types.vars
          ((parse-untouched t b c x e).0 nx) kx,
      ground (
        arith,
        p.reads_funcs f,
        nf,
        (parse-mentions t b c f e).1 (has_key-lookup f sig b.types.funcs kf),
      ),
      reuse_line-typed (ascii "funcsMap") f sig c.types.funcs b.types.funcs
          ((parse-untouched t b c f e).1 nf) kf,
    )
