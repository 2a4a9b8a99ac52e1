-- ===== src/Preproc/LineType.antt =====
-- internal/preproc/preproc.go: `parseLineType` and `loadFuncResultType`, the types of the values on
-- the right of `:=`.
pub mod Total
pub mod Values
pub mod Signature
use noted_runner.Prelude.{
  ℕ, zero, suc, Bool, true, false, not, ◌&&◌, Option, none, some, List, [], ◌∷◌, ◌++◌, map, ltb,
  ◌==◌, if◌then◌else◌, get_last?, Text, ascii, text_eq, lookup_or_nil, Outcome, ok, err, panic,
  ◌>>=◌, or_panic,
}
use noted_runner.Strings.{
  split, split_two, split_after_two, has_prefix, has_last, trim_first, trim_last, trim_space,
  to_lower, string_of_byte,
}
use noted_runner.Preproc.Tools.{
  LitKind, int_lit, float_lit, imag_lit, char_lit, string_lit, Expr, basic_lit, other_expr,
  bad_expr, Object, func_object, odd_func, other_object, Package, Loaded, load_failed, loaded,
  Tools,
}

-- token.Token.String on the kinds of literals
unfoldable pub kind_string : LitKind → Text
kind_string int_lit = ascii "INT"
kind_string float_lit = ascii "FLOAT"
kind_string imag_lit = ascii "IMAG"
kind_string char_lit = ascii "CHAR"
kind_string string_lit = ascii "STRING"

-- the loop over the leading spaces and ampersands: a star for each ampersand
unfoldable pub stars : Text → Text
stars [] = []
stars (x ∷ xs) =
    let rest = stars xs in if x == b' ' then rest else if x == b'&' then b'*' ∷ rest else []

-- the value from the index `len(typ) + typLen` on
unfoldable pub behind_stars : Text → Text
behind_stars [] = []
behind_stars (x ∷ xs) =
    let rest = behind_stars xs in if x == b' ' then rest else if x == b'&' then rest else x ∷ xs

-- the loops that collect `string(value[i])` up to a bracket
unfoldable pub until : ℕ → Text → Text
unfolding string_of_byte
until stop [] = []
until stop (x ∷ xs) = if x == stop then [] else string_of_byte x ++ until stop xs

first_result : Text → List Text → Outcome Text
first_result func_name [] = err (ascii "function " ++ func_name ++ ascii " has no results")
first_result func_name (r ∷ rs) = ok r

result_of_object : Text → Text → Option Object → Outcome Text
result_of_object path func_name none =
    err (ascii "func " ++ func_name ++ ascii " not found in " ++ path)
result_of_object path func_name (some (func_object results)) = first_result func_name results
result_of_object path func_name (some odd_func) = err (ascii "not a function signature")
result_of_object path func_name (some other_object) = err (func_name ++ ascii " is not a function")

result_of_loaded : Text → Text → Loaded → Outcome Text
result_of_loaded path func_name (load_failed e) = err e
result_of_loaded path func_name (loaded pkgs (suc n)) = err (ascii "packages contain errors")
result_of_loaded path func_name (loaded [] zero) = err (ascii "package not found")
result_of_loaded path func_name (loaded (p ∷ ps) zero) =
    result_of_object path func_name (p.lookup_object func_name)

unfoldable pub load_func_result_type : Tools → Text → Text → Outcome Text
unfolding result_of_loaded result_of_object first_result
load_func_result_type t path func_name = result_of_loaded path func_name (t.load_packages path)

-- `typ` and what is appended to `res`, from the texts between the commas of a function's results
unfoldable pub from_parts : Text → Text → List Text → Outcome (Text × List Text)
unfolding trim_space
from_parts fname typ [] = err (ascii "can't resolve func result type for " ++ fname)
from_parts fname typ (p ∷ []) = ok (typ ++ trim_space p, [])
from_parts fname typ (p ∷ q ∷ ps) = ok ([], map trim_space (p ∷ q ∷ ps))

unfoldable pub strip_parens : Text → Text
unfolding has_prefix has_last trim_first trim_last
strip_parens s =
    if has_prefix s (ascii "(") && has_last s b')' then trim_last b')' (trim_first b'(' s) else s

from_signature : Text → Text → List Text → Outcome (Text × List Text)
unfolding from_parts strip_parens split
from_signature fname typ (_ ∷ results ∷ []) =
    from_parts fname typ (split (strip_parens results) (ascii ","))
from_signature fname typ _ = err (ascii "can't resolve func result type for " ++ fname)

-- the branch of a call of a function of the kernel
unfoldable pub local_call : List (Text × Text) → Text → Text → Outcome (Text × List Text)
unfolding from_signature split_after_two
local_call funcs fname typ =
    let sig = lookup_or_nil fname funcs in
    if text_eq sig [] then ok (typ, []) else from_signature fname typ (split_after_two sig b')')

call_type : Tools → List (Text × Text) → Text → Text → List Text → Outcome (Text × List Text)
unfolding local_call load_func_result_type
call_type t funcs fname typ (path ∷ func_name ∷ []) =
    load_func_result_type t path func_name >>= λ l. ok (typ ++ l, [])
call_type t funcs fname typ _ = local_call funcs fname typ

-- the branches on the last byte of the value
unfoldable pub typ_by_last : Tools → List (Text × Text) → Text → ℕ → Outcome (Text × List Text)
unfolding stars behind_stars until call_type split_two
typ_by_last t funcs value last =
    let typ = stars value in
    let rest = behind_stars value in
    if last == b'}'
    then ok (typ ++ until b'{' rest, [])
    else if last == b')'
    then call_type t funcs (until b'(' rest) typ (split_two (until b'(' rest) b'.')
    else ok (typ, [])

-- `if typ != "" { res = append(res, typ) }`
unfoldable pub with_typ : Text × List Text → List Text
with_typ (typ, res) = if text_eq typ [] then res else res ++ typ ∷ []

types_of_expr : Tools → List (Text × Text) → Text → Expr → Outcome (List Text)
unfolding kind_string to_lower typ_by_last with_typ
types_of_expr t funcs value (bad_expr e) = err e
types_of_expr t funcs value (basic_lit k) = ok (to_lower (kind_string k) ∷ [])
types_of_expr t funcs value other_expr =
    or_panic (get_last? value) >>= λ last. typ_by_last t funcs value last >>= λ r. ok (with_typ r)

-- one round of the loop over the values: what is appended to `res`
unfoldable pub types_of_value : Tools → List (Text × Text) → Text → Outcome (List Text)
unfolding types_of_expr
types_of_value t funcs value = types_of_expr t funcs value (t.parse_expr value)

unfoldable pub types_of_values :
    Tools → List (Text × Text) → List Text → List Text → Outcome (List Text)
unfolding types_of_value
types_of_values t funcs res [] = ok res
types_of_values t funcs res (v ∷ vs) =
    types_of_value t funcs v >>= λ r. types_of_values t funcs (res ++ r) vs

types_of_sides : Tools → List (Text × Text) → List Text → Outcome (List Text)
unfolding types_of_values split
types_of_sides t funcs (_ ∷ rhs ∷ []) = types_of_values t funcs [] (split rhs (ascii ","))
types_of_sides t funcs _ = err (ascii "not valid statement")

unfoldable pub parse_line_type : Tools → List (Text × Text) → Text → Outcome (List Text)
unfolding types_of_sides
parse_line_type t funcs total_line = types_of_sides t funcs (split total_line (ascii ":="))
