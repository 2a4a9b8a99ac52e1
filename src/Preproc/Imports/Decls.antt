-- ===== src/Preproc/Imports/Decls.antt =====
-- The import declarations of a file and its list of imports stay in step.
use mathlib.Core.Path.{ap₂, subst}
use noted_runner.Prelude.{
  ◌≡◌, refl, sym, Bool, false, List, [], ◌∷◌, ◌++◌, arith, Text, ◌∙◌, ap, if◌then◌else◌, All, ◌≢◌,
}
use noted_runner.Preproc.Tools.{ImportSpec, Decl, import_decl, other_decl, SourceFile, Node}
use noted_runner.Preproc.Imports.{
  is_kept, filter_specs, holds_ptr, import_decl_of, filter_decls, filter_imports,
}

-- the imports of all import declarations, in order
abbrev pub specs_of : List Decl → List ImportSpec
specs_of [] = []
specs_of (import_decl specs ∷ ds) = specs ++ specs_of ds
specs_of (other_decl n ∷ ds) = specs_of ds

-- the other declarations, in order
abbrev pub others_of : List Decl → List Node
others_of [] = []
others_of (import_decl specs ∷ ds) = others_of ds
others_of (other_decl n ∷ ds) = n ∷ others_of ds

-- no import declaration is empty
abbrev pub Solid : Decl → Type 0
Solid (import_decl specs) = specs ≢ []
Solid (other_decl n) = Unit

-- The pointers of a list of imports differ.
abbrev pub DistinctPtrs : List ImportSpec → Type 0
DistinctPtrs [] = Unit
DistinctPtrs (s ∷ ss) = All (λ (r : ImportSpec). s.ptr ≢ r.ptr) ss × DistinctPtrs ss

module _ (keep : ImportSpec → Bool) where
  filter_specs-append :
      (xs ys : List ImportSpec)
      → filter_specs keep (xs ++ ys) ≡ filter_specs keep xs ++ filter_specs keep ys
  unfolding filter_specs
  filter_specs-append [] ys = refl
  filter_specs-append (x ∷ xs) ys = ground (arith, filter_specs-append xs ys)

  holds-apart :
      (s : ImportSpec) (ss : List ImportSpec)
      → All (λ (r : ImportSpec). s.ptr ≢ r.ptr) ss
      → holds_ptr s (filter_specs keep ss) ≡ false
  unfolding holds_ptr filter_specs
  holds-apart s [] h = refl
  holds-apart s (r ∷ ss) (n, h) = ground (arith, holds-apart s ss h)

  -- an import is in the kept list exactly if the test keeps it
  abbrev Agrees : List ImportSpec → ImportSpec → Type 0
  Agrees kept s = holds_ptr s kept ≡ keep s

  agree-cons :
      (x : ImportSpec) (ss kept : List ImportSpec)
      → All (λ (r : ImportSpec). x.ptr ≢ r.ptr) ss
      → All (Agrees kept) ss
      → All (Agrees (if keep x then x ∷ kept else kept)) ss
  unfolding holds_ptr
  agree-cons x [] kept n h = tt
  agree-cons x (s ∷ ss) kept (n, ns) (h, hs) = (ground (arith, h), agree-cons x ss kept ns hs)

  agree-kept : (ss : List ImportSpec) → DistinctPtrs ss → All (Agrees (filter_specs keep ss)) ss
  unfolding holds_ptr filter_specs
  agree-kept [] d = tt
  agree-kept (s ∷ ss) (n, d) = (
    ground (arith, holds-apart s ss n),
    agree-cons s ss (filter_specs keep ss) n (agree-kept ss d),
  )

  module _ (kept : List ImportSpec) where
    filter_specs-agree :
        (ss : List ImportSpec)
        → All (Agrees kept) ss
        → filter_specs (λ s. holds_ptr s kept) ss ≡ filter_specs keep ss
    unfolding filter_specs
    filter_specs-agree [] h = refl
    filter_specs-agree (s ∷ ss) (a, h) = ground (arith, a, filter_specs-agree ss h)

    All-left : (xs ys : List ImportSpec) → All (Agrees kept) (xs ++ ys) → All (Agrees kept) xs
    All-left [] ys h = tt
    All-left (x ∷ xs) ys (a, h) = (a, All-left xs ys h)

    All-right : (xs ys : List ImportSpec) → All (Agrees kept) (xs ++ ys) → All (Agrees kept) ys
    All-right [] ys h = h
    All-right (x ∷ xs) ys (a, h) = All-right xs ys h

specs_of-import_decl_of :
    (ss : List ImportSpec) (ds : List Decl) → specs_of (import_decl_of ss ++ ds) ≡ ss ++ specs_of ds
unfolding import_decl_of
specs_of-import_decl_of [] ds = refl
specs_of-import_decl_of (s ∷ ss) ds = refl

others_of-import_decl_of :
    (ss : List ImportSpec) (ds : List Decl) → others_of (import_decl_of ss ++ ds) ≡ others_of ds
unfolding import_decl_of
others_of-import_decl_of [] ds = refl
others_of-import_decl_of (s ∷ ss) ds = refl

Solid-import_decl_of :
    (ss : List ImportSpec) (ds : List Decl) → All Solid ds → All Solid (import_decl_of ss ++ ds)
unfolding import_decl_of
Solid-import_decl_of [] ds h = h
Solid-import_decl_of (s ∷ ss) ds h = (λ e. cc, h)

module _ (keep : ImportSpec → Bool) (kept : List ImportSpec) where
  specs_of-filter_decls :
      (ds : List Decl)
      → All (λ s. holds_ptr s kept ≡ keep s) (specs_of ds)
      → specs_of (filter_decls kept ds) ≡ filter_specs keep (specs_of ds)
  unfolding filter_decls
  specs_of-filter_decls [] h = unfold filter_specs in refl
  specs_of-filter_decls (other_decl n ∷ ds) h = specs_of-filter_decls ds h
  specs_of-filter_decls (import_decl specs ∷ ds) h =
      specs_of-import_decl_of (filter_specs (λ s. holds_ptr s kept) specs) (filter_decls kept ds)
      ∙ ap₂ ◌++◌ (filter_specs-agree keep kept specs (All-left keep kept specs (specs_of ds) h))
          (specs_of-filter_decls ds (All-right keep kept specs (specs_of ds) h))
      ∙ sym (filter_specs-append keep specs (specs_of ds))

others_of-filter_decls :
    (kept : List ImportSpec) (ds : List Decl) → others_of (filter_decls kept ds) ≡ others_of ds
unfolding filter_decls
others_of-filter_decls kept [] = refl
others_of-filter_decls kept (other_decl n ∷ ds) = ap (◌∷◌ n) (others_of-filter_decls kept ds)
others_of-filter_decls kept (import_decl specs ∷ ds) =
    others_of-import_decl_of (filter_specs (λ s. holds_ptr s kept) specs) (filter_decls kept ds)
    ∙ others_of-filter_decls kept ds

Solid-filter_decls : (kept : List ImportSpec) (ds : List Decl) → All Solid (filter_decls kept ds)
unfolding filter_decls
Solid-filter_decls kept [] = tt
Solid-filter_decls kept (other_decl n ∷ ds) = (tt, Solid-filter_decls kept ds)
Solid-filter_decls kept (import_decl specs ∷ ds) =
    Solid-import_decl_of (filter_specs (λ s. holds_ptr s kept) specs) (filter_decls kept ds)
      (Solid-filter_decls kept ds)

-- If the list of imports of a file is that of its import declarations, by distinct pointers, then
-- filtering keeps it so: the declarations lose exactly the imports that the list loses, no import
-- declaration is left empty, and the other declarations stay, in their order.
pub filter_imports-decls :
    (f : SourceFile) (used : List Text)
    → specs_of f.decls ≡ f.imports
    → DistinctPtrs f.imports
    → (specs_of (filter_imports f used).decls ≡ (filter_imports f used).imports)
      × All Solid (filter_imports f used).decls
      × (others_of (filter_imports f used).decls ≡ others_of f.decls)
unfolding filter_imports
filter_imports-decls f used e d =
    let kept = filter_specs (is_kept used) f.imports in
    let agree = agree-kept (is_kept used) f.imports d in
    (
      specs_of-filter_decls (is_kept used) kept f.decls
            (subst (All (λ s. holds_ptr s kept ≡ is_kept used s)) (sym e) agree)
          ∙ ap (filter_specs (is_kept used)) e,
      Solid-filter_decls kept f.decls,
      others_of-filter_decls kept f.decls,
    )
