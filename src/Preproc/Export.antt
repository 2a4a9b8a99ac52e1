-- ===== src/Preproc/Export.antt =====
-- internal/preproc/preproc.go: `FormExportFunc`. Go ranges over the kinds of a line in an order of its
-- own choice, which is a parameter.
pub mod Order
pub mod Lines
pub mod Names
pub mod Layout
pub mod Typed
pub mod Carried
use noted_runner.Prelude.{
  ℕ, zero, ◌+◌, Bool, true, false, not, ◌&&◌, ◌||◌, List, [], ◌∷◌, ◌++◌, if◌then◌else◌, Text, ascii,
  contains, lookup_or_nil,
}
use noted_runner.Strings.{split, replace_all}
use noted_runner.Preproc.Tools.{Tools}
use noted_runner.Preproc.Block.{
  Kind, func_name, func_body, var_decl, other, LineKinds, kinds_at, Block,
}
use noted_runner.Preproc.BaseCopypaste.{base_copypaste}
use noted_runner.Preproc.Imports.{clear_imports}

-- `len(names) != 0`
abbrev pub is_some : List Text → Bool
is_some [] = false
is_some (x ∷ xs) = true

abbrev pub uses_funcs : Block → Bool
uses_funcs b = is_some b.fnames || is_some b.reused_funcs

abbrev pub uses_vars : Block → Bool
uses_vars b = is_some b.vnames || is_some b.reused_vars

-- the signature of the exported function
unfoldable pub export_header : Block → Text → Text
unfolding replace_all
export_header b attempt =
    ascii "func Export_block_"
    ++ replace_all b.id b'-' b'_'
    ++ ascii "_"
    ++ attempt
    ++ ascii "("
    ++ (if uses_funcs b then ascii "funcMap" else ascii "_")
    ++ ascii " *map[string]any, "
    ++ (if uses_vars b then ascii "varMap" else ascii "_")
    ++ ascii " *map[string]any){\n"

unfoldable pub map_lines : Block → Text
map_lines b =
    (if uses_funcs b then ascii "\tfuncsMap := *funcMap \n" else [])
    ++ (if uses_vars b then ascii "\tvarsMap := *varMap \n" else [])

-- `name := funcsMap["name"].(type)`
unfoldable pub reuse_line : Text → List (Text × Text) → Text → Text
reuse_line map_name types name =
    ascii "\t"
    ++ name
    ++ ascii " := "
    ++ map_name
    ++ ascii "[\""
    ++ name
    ++ ascii "\"].("
    ++ lookup_or_nil name types
    ++ ascii ")\n"

-- the loop over the names of other blocks; `placed` is the set of those that are written
unfoldable pub reuse_lines :
    Text → List (Text × Text) → List Text → List Text → List Text → Text → Text
reuse_lines map_name types declared placed [] mains = mains
reuse_lines map_name types declared placed (n ∷ ns) mains =
    let fresh = not (contains n declared) && not (contains n placed) in
    reuse_lines map_name types declared (if fresh then n ∷ placed else placed) ns
      (if fresh then mains ++ reuse_line map_name types n else mains)

-- the switch on one kind of a line: the texts are `funcDefs` and `mains`
unfoldable pub emit : Text → Kind → Text × Text → Text × Text
emit text func_name acc = (acc.0 ++ text ++ ascii "\n", acc.1)
emit text func_body acc = (acc.0 ++ text ++ ascii "\n", acc.1)
emit text var_decl acc = (acc.0, acc.1 ++ ascii "\t" ++ text ++ ascii "\n")
emit text other acc = (acc.0, acc.1 ++ ascii "\t" ++ text ++ ascii "\n")

unfoldable pub emit_kinds : Text → List Kind → Text × Text → Text × Text
unfolding emit
emit_kinds text [] acc = acc
emit_kinds text (k ∷ ks) acc = emit_kinds text ks (emit text k acc)

-- the order in which Go ranges over the kinds of a line
abbrev pub RangeOrder : Type 0
RangeOrder = ℕ → List Kind → List Kind

unfoldable pub emit_lines : RangeOrder → LineKinds → ℕ → List Text → Text × Text → Text × Text
unfolding emit_kinds
emit_lines order kinds n [] acc = acc
emit_lines order kinds n (text ∷ texts) acc =
    emit_lines order kinds (n + 1) texts (emit_kinds text (order n (kinds_at kinds n)) acc)

-- `funcsMap["name"] = name`
unfoldable pub store_line : Text → Text → Text
store_line map_name name =
    ascii "\t" ++ map_name ++ ascii "[\"" ++ name ++ ascii "\"] = " ++ name ++ ascii " \n"

-- the loop over the names that the block declares; `used` is the set of those that are written
unfoldable pub store_lines : Text → List Text → List Text → Text → Text
store_lines map_name used [] mains = mains
store_lines map_name used (n ∷ ns) mains =
    let seen = contains n used in
    store_lines map_name (if seen then used else n ∷ used) ns
      (if seen then mains else mains ++ store_line map_name n)

-- `mains` in front of the loop over the lines
unfoldable pub prologue : Block → Text → Text
unfolding export_header map_lines reuse_lines
prologue b attempt =
    let head = export_header b attempt ++ map_lines b in
    let funcs = reuse_lines (ascii "funcsMap") b.types.funcs b.fnames [] b.reused_funcs head in
    reuse_lines (ascii "varsMap") b.types.vars b.vnames [] b.reused_vars funcs

-- `funcDefs` and `mains` behind the loop over the lines
unfoldable pub with_lines : RangeOrder → Block → Text → Text × Text
unfolding prologue emit_lines split
with_lines order b attempt =
    emit_lines order b.line_kinds 1 (split b.content (ascii "\n"))
      (base_copypaste, prologue b attempt)

-- the source that is handed to `ClearImports`
unfoldable pub export_source : RangeOrder → Block → Text → Text
unfolding with_lines store_lines
export_source order b attempt =
    let acc = with_lines order b attempt in
    let funcs = store_lines (ascii "funcsMap") [] b.fnames acc.1 in
    let vars = store_lines (ascii "varsMap") [] b.vnames funcs in acc.0 ++ vars ++ ascii "}\n"

unfoldable pub form_export_func : Tools → RangeOrder → Block → Text → Text
unfolding export_source clear_imports
form_export_func t order b attempt = clear_imports t (export_source order b attempt)
