-- ===== src/Preproc/Imports/Kept.antt =====
-- Which imports `ClearImports` keeps.
use noted_runner.Prelude.{
  ℕ, zero, suc, ◌≡◌, refl, Bool, true, false, ◌||◌, some, List, [], ◌∷◌, ◌++◌, arith, Text, ◌∙◌, ap,
  inl, inr, get_elem?, contains, text_eq, text_eq_iff, text_eq_refl, Option-cases,
}
use noted_runner.Preproc.Tools.{
  Node, identifier, selector, compound, Nodes, nil, cons, ImportSpec, Decl, import_decl, other_decl,
  SourceFile,
}
use noted_runner.Preproc.Imports.{
  import_name, is_package_name, operand_name, ident_name, used_in, used_in_all, used_in_specs,
  used_in_decls, collect_used_names, is_import_used, is_dot_or_blank, is_kept,
}

contains-append :
    (a : Text) (xs ys : List Text) → contains a (xs ++ ys) ≡ (contains a xs || contains a ys)
unfolding contains
contains-append a [] ys = refl
contains-append a (x ∷ xs) ys = ground (arith, contains-append a xs ys)

contains-nil : (a : Text) → contains a [] ≡ false
unfolding contains
contains-nil a = refl

-- `name.sel`: the operand is the identifier
is_named : Text → Node → Bool
is_named name (identifier x) = text_eq x name
is_named name _ = false

-- Somewhere in the tree a name is selected from the identifier.
unfoldable mutual
  unfolding is_named

  pub selects : Text → Node → Bool
  selects name (identifier x) = false
  selects name (selector x sel) = is_named name x || selects name x
  selects name (compound ns) = selects_any name ns

  pub selects_any : Text → Nodes → Bool
  selects_any name nil = false
  selects_any name (cons n ns) = selects name n || selects_any name ns

unfoldable pub selects_decls : Text → List Decl → Bool
unfolding selects
selects_decls name [] = false
selects_decls name (import_decl specs ∷ ds) = selects_decls name ds
selects_decls name (other_decl n ∷ ds) = selects name n || selects_decls name ds

module _ (imps : List ImportSpec) (name : Text)
    (package_name : is_package_name imps name ≡ true) where
  ident_unused : (x : Text) → contains name (ident_name imps x) ≡ false
  unfolding contains ident_name
  ident_unused x = ground (arith, package_name, text_eq_iff x name)

  operand_used : (n : Node) → contains name (operand_name n) ≡ is_named name n
  unfolding contains operand_name is_named
  operand_used (identifier x) = ground arith
  operand_used (selector x sel) = refl
  operand_used (compound ns) = refl

  mutual
    unfolding used_in used_in_all selects selects_any

    used-selects : (n : Node) → contains name (used_in imps n) ≡ selects name n
    used-selects (identifier x) = ident_unused x
    used-selects (selector x sel) = ground (
      arith,
      contains-append name (operand_name x) (used_in imps x ++ ident_name imps sel),
      contains-append name (used_in imps x) (ident_name imps sel),
      operand_used x,
      ident_unused sel,
      used-selects x,
    )
    used-selects (compound ns) = used_all-selects ns

    used_all-selects : (ns : Nodes) → contains name (used_in_all imps ns) ≡ selects_any name ns
    used_all-selects nil = contains-nil name
    used_all-selects (cons n ns) = ground (
      arith,
      contains-append name (used_in imps n) (used_in_all imps ns),
      used-selects n,
      used_all-selects ns,
    )

  specs_used : (specs : List ImportSpec) → contains name (used_in_specs imps specs) ≡ false
  unfolding used_in_specs contains
  specs_used [] = refl
  specs_used (s ∷ specs) = elim (Option-cases s.name) [
    | inl plain ↦ rw plain (specs_used specs)
    | inr (n, e) ↦ rw e (
        contains-append name (ident_name imps n) (used_in_specs imps specs)
        ∙ rw (ident_unused n) (specs_used specs))
  ]

  decls_used : (ds : List Decl) → contains name (used_in_decls imps ds) ≡ selects_decls name ds
  unfolding used_in_decls selects_decls contains
  decls_used [] = refl
  decls_used (import_decl specs ∷ ds) =
      contains-append name (used_in_specs imps specs) (used_in_decls imps ds)
      ∙ rw (specs_used specs) (decls_used ds)
  decls_used (other_decl n ∷ ds) =
      contains-append name (used_in imps n) (used_in_decls imps ds)
      ∙ rw (used-selects n) (ap (λ b. selects name n || b) (decls_used ds))

package_name_at :
    (imps : List ImportSpec) (i : ℕ) (s : ImportSpec)
    → get_elem? imps i ≡ some s
    → is_package_name imps (import_name s) ≡ true
unfolding is_package_name
package_name_at [] i s e = cc
package_name_at (r ∷ imps) zero s e =
    let same : r ≡ s = cc e in rw same (ground (arith, text_eq_refl (import_name s)))
package_name_at (r ∷ imps) (suc i) s e = ground (arith, package_name_at imps i s)

-- `ClearImports` keeps an import of the file exactly if it is named `.` or `_`, or if somewhere in the
-- file a name is selected from the name under which the import is known.
pub is_kept-selects :
    (f : SourceFile) (i : ℕ) (s : ImportSpec)
    → get_elem? f.imports i ≡ some s
    → is_kept (collect_used_names f) s
      ≡ (is_dot_or_blank s.name || selects_decls (import_name s) f.decls)
unfolding is_kept is_import_used collect_used_names
is_kept-selects f i s e =
    let name = import_name s in
    let known = package_name_at f.imports i s e in
    ground (
      arith,
      contains-append name (ident_name f.imports f.package_name) (used_in_decls f.imports f.decls),
      ident_unused f.imports name known f.package_name,
      decls_used f.imports name known f.decls,
    )
