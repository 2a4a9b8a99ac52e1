-- ===== src/Preproc/Block.antt =====
-- internal/preproc/preproc.go: the state of a block and of the kernel that it runs in.
pub mod Mark
use noted_runner.Prelude.{
  ℕ, Bool, true, false, Option, none, some, List, [], ◌∷◌, ◌++◌, ◌||◌, ◌==◌, if◌then◌else◌, Text,
  ascii, contains,
}

-- Names with their types, for all the blocks of a kernel. The values are texts of Go types.
pub record KernelTypes : Type 0 where
  pub vars : List (Text × Text)
  pub funcs : List (Text × Text)
  pub types : List (Text × Text)

abbrev pub new_kernel_types : KernelTypes
new_kernel_types = record { vars = []; funcs = []; types = [] }

abbrev pub known_types : List Text
known_types =
    ascii "bool"
    ∷ ascii "string"
    ∷ ascii "byte"
    ∷ ascii "rune"
    ∷ ascii "int64"
    ∷ ascii "int32"
    ∷ ascii "int"
    ∷ ascii "float32"
    ∷ ascii "float64"
    ∷ []

-- What a line holds. The source's constants are untyped strings, converted to `Kind`.
pub data Kind : Type 0 where
  func_name func_body var_decl other : Kind

unfoldable pub same_kind : Kind → Kind → Bool
same_kind func_name func_name = true
same_kind func_body func_body = true
same_kind var_decl var_decl = true
same_kind other other = true
same_kind _ _ = false

unfoldable pub has_kind : Kind → List Kind → Bool
unfolding same_kind
has_kind k [] = false
has_kind k (j ∷ js) = same_kind j k || has_kind k js

-- `map[int]map[Kind]bool`: the kinds of each line, without repetition. The values are all `true`.
abbrev pub LineKinds : Type 0
LineKinds = List (ℕ × List Kind)

-- `b.lineKinds[line]`
unfoldable pub kinds_at : LineKinds → ℕ → List Kind
kinds_at [] line = []
kinds_at ((n, ks) ∷ m) line = if n == line then ks else kinds_at m line

-- `b.lineKinds[line][k] = true`
unfoldable pub add_kind : ℕ → Kind → LineKinds → LineKinds
unfolding has_kind
add_kind line k [] = (line, k ∷ []) ∷ []
add_kind line k ((n, ks) ∷ m) =
    if n == line
    then (n, (if has_kind k ks then ks else ks ++ k ∷ [])) ∷ m
    else (n, ks) ∷ add_kind line k m

-- `types` points to a record that the blocks of a kernel share: the caller writes it back.
pub record Block : Type 0 where
  pub content : Text
  pub line_kinds : LineKinds
  pub fnames : List Text
  pub vnames : List Text
  pub snames : List Text
  pub id : Text
  pub eface_required : Bool
  pub types : KernelTypes
  pub reused_funcs : List Text
  pub reused_vars : List Text
  pub reused_structs : List Text
  pub struct_defines : List (Text × Text)

unfoldable pub new_block : Text → Text → KernelTypes → Block
new_block id content types = record {
  content = content;
  line_kinds = [];
  fnames = [];
  vnames = [];
  snames = [];
  id = id;
  eface_required = false;
  types = types;
  reused_funcs = [];
  reused_vars = [];
  reused_structs = [];
  struct_defines = [];
}

-- `mark`, the closure of `Parse`: records the kind, and tells whether it is new on the line
unfoldable pub mark : ℕ → Kind → Block → Bool × Block
unfolding kinds_at add_kind
mark line k b = if line == 0 then (false, b) else (
  (if has_kind k (kinds_at b.line_kinds line) then false else true),
  record b { line_kinds = add_kind line k b.line_kinds },
)
