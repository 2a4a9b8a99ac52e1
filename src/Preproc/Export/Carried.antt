-- ===== src/Preproc/Export/Carried.antt =====
-- internal/preproc/preproc.go: a variable on its way from the block that defines it to a later block of
-- the kernel.
use noted_runner.Prelude.{
  ◌≡◌, refl, ap, ◌∙◌, Bool, true, false, Option, none, some, List, [], arith, Text, ascii, ok,
  contains, lookup, has_key,
}
use noted_runner.Preproc.Tools.{Tools}
use noted_runner.Preproc.Block.{Block}
use noted_runner.Preproc.Scan.{parse}
use noted_runner.Preproc.Scan.Mentions.{mentions, no_due}
use noted_runner.Preproc.Scan.Reused.{parse-mentions}
use noted_runner.Preproc.Scan.Stored.{NoVar, parse_stored}
use noted_runner.Preproc.Export.{RangeOrder, reuse_line}
use noted_runner.Preproc.Export.Layout.{Layout, export_source-Layout}
use noted_runner.Preproc.Scan.Unknown.{NoDefine, parse_unknown}
use noted_runner.Preproc.Export.Typed.{
  typed_line, parse-untouched, has_key-lookup, reuse_line-typed,
}

known-lookup :
    (x : Text) (m : List (Text × Text)) → has_key x m ≡ true → (ty : Text) × (lookup x m ≡ some ty)
unfolding has_key
known-lookup x m h = found (lookup x m) refl h
  where
    found :
        (o : Option Text)
        → lookup x m ≡ o
        → (elim o as (λ _. Bool) [ none ↦ false | some v ↦ true ]) ≡ true
        → (ty : Text) × (lookup x m ≡ some ty)
    found none e k = cc
    found (some ty) e k = (ty, e)

-- A first block, new and without the keyword `var`, declares the variable `x`. When a later block starts,
-- what is recorded for `x` is what the first one has left; the later block mentions `x` and does not
-- declare it. Both are read without an error. Then some type `ty` is recorded for `x`, the source of
-- the first plugin has exactly one line that writes `x` to the map of variables, and that of the later
-- plugin has exactly one line that reads `x` from that map, in which it asserts the type `ty`.
pub variable_carried :
    (t : Tools) (order : RangeOrder) (b c d e : Block) (x first_attempt attempt : Text)
    → parse t b ≡ (ok tt, c)
    → NoVar (t.scan b.content)
    → b.vnames ≡ []
    → b.fnames ≡ []
    → contains x c.vnames ≡ true
    → lookup x d.types.vars ≡ lookup x c.types.vars
    → parse t d ≡ (ok tt, e)
    → contains x e.vnames ≡ false
    → mentions x no_due (t.scan d.content) ≡ true
    → (ty : Text) × (p : Layout order c first_attempt) × (q : Layout order e attempt) × (lookup x
          c.types.vars
        ≡ some ty)
      × (contains x p.written_vars ≡ true)
      × (contains x q.read_vars ≡ true)
      × (reuse_line (ascii "varsMap") e.types.vars x ≡ typed_line (ascii "varsMap") x ty)
variable_carried t order b c d e x first_attempt attempt first n v f declared same second foreign
      used =
    let p = export_source-Layout order c first_attempt in
    let q = export_source-Layout order e attempt in
    let known = (parse_stored t b c x first n v f).0 declared in
    let (ty, typed) = known-lookup x c.types.vars known in
    let known' = has_key-lookup x ty d.types.vars (same ∙ typed) in
    let listed = (parse-mentions t d e x second).0 known' ∙ used in
    (
      ty,
      p,
      q,
      typed,
      p.writes_vars x ∙ declared,
      q.reads_vars x ∙ ground (arith, foreign, listed),
      reuse_line-typed (ascii "varsMap") x ty e.types.vars d.types.vars
          ((parse-untouched t d e x second).0 foreign) (same ∙ typed),
    )

-- A block and a later one on what it has left of the kernel's types, both read without an error and both
-- without the token `:=`. A variable that the kernel did not know and that the first block declares,
-- as it can by `var`, is written to the map of variables by the plugin of the first block; but no line
-- of the second plugin reads it, whatever the second block mentions.
pub declared_var-unread :
    (t : Tools) (order : RangeOrder) (x first_attempt attempt : Text) (b c d e : Block)
    → parse t b ≡ (ok tt, c)
    → NoDefine (t.scan b.content)
    → has_key x b.types.vars ≡ false
    → contains x c.vnames ≡ true
    → d.types ≡ c.types
    → parse t d ≡ (ok tt, e)
    → NoDefine (t.scan d.content)
    → (p : Layout order c first_attempt) × (q : Layout order e attempt) × (contains x p.written_vars
        ≡ true)
      × (contains x q.read_vars ≡ false)
declared_var-unread t order x first_attempt attempt b c d e first n unknown declared same second m =
    let p = export_source-Layout order c first_attempt in
    let q = export_source-Layout order e attempt in
    let unread =
      (parse_unknown x t d e second m
        (ap (λ ts. has_key x ts.vars) same ∙ (parse_unknown x t b c first n unknown).0)).1 in
    (p, q, p.writes_vars x ∙ declared, q.reads_vars x ∙ ground (arith, unread))
