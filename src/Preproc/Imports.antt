-- ===== src/Preproc/Imports.antt =====
-- internal/preproc/preproc.go: `ClearImports` and its helpers. A map of used names is the list of its
-- keys; the program only asks whether a name is in it.
pub mod Decls
pub mod Kept
pub mod Paths
use noted_runner.Prelude.{
  ℕ, Bool, true, false, ◌||◌, Option, none, some, List, [], ◌∷◌, ◌++◌, ◌==◌, if◌then◌else◌,
  get_last?, Text, ascii, text_eq, contains, Outcome, ok, err, panic,
}
use noted_runner.Strings.{split, trim_byte}
use noted_runner.Preproc.Tools.{
  Node, identifier, selector, compound, Nodes, nil, cons, ImportSpec, Decl, import_decl, other_decl,
  SourceFile, Tools,
}

-- The last part of an import path between slashes; `strings.Split` returns at least one part.
unfoldable pub path_name : Text → Text
unfolding trim_byte split
path_name path = elim (get_last? (split (trim_byte b'"' path) (ascii "/"))) [
  | none ↦ []
  | some p ↦ p
]

-- the name under which an import is known in the file
unfoldable pub import_name : ImportSpec → Text
unfolding path_name
import_name imp = elim imp.name [ none ↦ path_name imp.path | some n ↦ n ]

-- `isPackageName`, over `f.Imports`
unfoldable pub is_package_name : List ImportSpec → Text → Bool
unfolding import_name
is_package_name [] name = false
is_package_name (imp ∷ imps) name = text_eq (import_name imp) name || is_package_name imps name

-- `used[node.X.Name] = true`, where the operand is an identifier
unfoldable pub operand_name : Node → List Text
operand_name (identifier x) = x ∷ []
operand_name _ = []

-- what the visit of an identifier adds
unfoldable pub ident_name : List ImportSpec → Text → List Text
ident_name imps x = if is_package_name imps x then [] else x ∷ []

-- the traversal of ast.Inspect: a selector, its operand, and the selected identifier
unfoldable mutual
  unfolding operand_name ident_name

  pub used_in : List ImportSpec → Node → List Text
  used_in imps (identifier x) = ident_name imps x
  used_in imps (selector x sel) = operand_name x ++ (used_in imps x ++ ident_name imps sel)
  used_in imps (compound ns) = used_in_all imps ns

  pub used_in_all : List ImportSpec → Nodes → List Text
  used_in_all imps nil = []
  used_in_all imps (cons n ns) = used_in imps n ++ used_in_all imps ns

-- the identifiers of import declarations are the names that the imports are given
unfoldable pub used_in_specs : List ImportSpec → List ImportSpec → List Text
unfolding ident_name
used_in_specs imps [] = []
used_in_specs imps (s ∷ ss) =
    (elim s.name [ none ↦ [] | some n ↦ ident_name imps n ]) ++ used_in_specs imps ss

unfoldable pub used_in_decls : List ImportSpec → List Decl → List Text
unfolding used_in used_in_specs
used_in_decls imps [] = []
used_in_decls imps (import_decl specs ∷ ds) = used_in_specs imps specs ++ used_in_decls imps ds
used_in_decls imps (other_decl n ∷ ds) = used_in imps n ++ used_in_decls imps ds

-- `collectUsedNames`; the file's own name is an identifier too
unfoldable pub collect_used_names : SourceFile → List Text
unfolding used_in_decls ident_name
collect_used_names f = ident_name f.imports f.package_name ++ used_in_decls f.imports f.decls

unfoldable pub is_import_used : ImportSpec → List Text → Bool
unfolding import_name
is_import_used imp used = contains (import_name imp) used

-- imports named `.` and `_` stay
unfoldable pub is_dot_or_blank : Option Text → Bool
is_dot_or_blank none = false
is_dot_or_blank (some n) = text_eq n (ascii ".") || text_eq n (ascii "_")

unfoldable pub is_kept : List Text → ImportSpec → Bool
unfolding is_dot_or_blank is_import_used
is_kept used imp = if is_dot_or_blank imp.name then true else is_import_used imp used

unfoldable pub filter_specs : (ImportSpec → Bool) → List ImportSpec → List ImportSpec
filter_specs keep [] = []
filter_specs keep (s ∷ ss) = let rest = filter_specs keep ss in if keep s then s ∷ rest else rest

-- `slices.Contains` on pointers
unfoldable pub holds_ptr : ImportSpec → List ImportSpec → Bool
holds_ptr s [] = false
holds_ptr s (r ∷ rs) = r.ptr == s.ptr || holds_ptr s rs

-- a declaration of which some imports are left
unfoldable pub import_decl_of : List ImportSpec → List Decl
import_decl_of [] = []
import_decl_of (s ∷ ss) = import_decl (s ∷ ss) ∷ []

unfoldable pub filter_decls : List ImportSpec → List Decl → List Decl
unfolding filter_specs holds_ptr import_decl_of
filter_decls imps [] = []
filter_decls imps (other_decl n ∷ ds) = other_decl n ∷ filter_decls imps ds
filter_decls imps (import_decl specs ∷ ds) =
    import_decl_of (filter_specs (λ s. holds_ptr s imps) specs) ++ filter_decls imps ds

unfoldable pub filter_imports : SourceFile → List Text → SourceFile
unfolding filter_decls is_kept
filter_imports f used =
    let kept = filter_specs (is_kept used) f.imports in
    record f { imports = kept; decls = filter_decls kept f.decls }

text_of : Outcome Text → Text
text_of (ok s) = s
text_of _ = []

clear_file : Tools → Outcome SourceFile → Text
unfolding filter_imports collect_used_names text_of
clear_file t (ok f) = text_of (t.format_node (filter_imports f (collect_used_names f)))
clear_file t _ = []

-- `ClearImports`: the empty text where the code cannot be parsed or printed
unfoldable pub clear_imports : Tools → Text → Text
unfolding clear_file
clear_imports t code = clear_file t (t.parse_file code)
