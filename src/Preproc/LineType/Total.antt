-- ===== src/Preproc/LineType/Total.antt =====
-- `parseLineType` does not index out of range.
use noted_runner.Prelude.{
  ℕ, zero, suc, refl, ◌≢◌, Option, none, some, List, [], ◌∷◌, ◌++◌, arith, Text, ascii, Outcome, ok,
  err, panic, ◌>>=◌, get_last?,
}
use noted_runner.Strings.{split}
use noted_runner.Preproc.Tools.{
  other_expr, Object, Loaded, load_failed, loaded, Tools, func_object, odd_func, other_object,
}
use noted_runner.Preproc.LineType.{
  load_func_result_type, result_of_loaded, result_of_object, first_result, from_parts,
  from_signature, local_call, call_type, typ_by_last, types_of_expr, types_of_value,
  types_of_values, types_of_sides, parse_line_type,
}

>>=-ne-panic {ℓ κ} :
    {A : Type ℓ} {B : Type κ} (m : Outcome A) (f : A → Outcome B)
    → m ≢ panic
    → ((a : A) → f a ≢ panic)
    → (m >>= f) ≢ panic
>>=-ne-panic (ok a) f h k = k a
>>=-ne-panic (err e) f h k = cc
>>=-ne-panic panic f h k = absurd (h refl)

get_last?-ne-none : (v : Text) → v ≢ [] → get_last? v ≢ none
get_last?-ne-none [] h = absurd (h refl)
get_last?-ne-none (x ∷ []) h = cc
get_last?-ne-none (x ∷ y ∷ v) h = get_last?-ne-none (y ∷ v) (cc)

first_result-ne-panic : (f : Text) (rs : List Text) → first_result f rs ≢ panic
unfolding first_result
first_result-ne-panic f [] = cc
first_result-ne-panic f (r ∷ rs) = cc

result_of_object-ne-panic : (path f : Text) (o : Option Object) → result_of_object path f o ≢ panic
unfolding result_of_object
result_of_object-ne-panic path f none = cc
result_of_object-ne-panic path f (some (func_object rs)) = first_result-ne-panic f rs
result_of_object-ne-panic path f (some odd_func) = cc
result_of_object-ne-panic path f (some other_object) = cc

result_of_loaded-ne-panic : (path f : Text) (l : Loaded) → result_of_loaded path f l ≢ panic
unfolding result_of_loaded
result_of_loaded-ne-panic path f (load_failed e) = cc
result_of_loaded-ne-panic path f (loaded pkgs (suc n)) = cc
result_of_loaded-ne-panic path f (loaded [] zero) = cc
result_of_loaded-ne-panic path f (loaded (p ∷ ps) zero) = result_of_object-ne-panic path f _

from_parts-ne-panic : (f typ : Text) (ps : List Text) → from_parts f typ ps ≢ panic
unfolding from_parts
from_parts-ne-panic f typ [] = cc
from_parts-ne-panic f typ (p ∷ []) = cc
from_parts-ne-panic f typ (p ∷ q ∷ ps) = cc

from_signature-ne-panic : (f typ : Text) (ps : List Text) → from_signature f typ ps ≢ panic
unfolding from_signature
from_signature-ne-panic f typ [] = cc
from_signature-ne-panic f typ (p ∷ []) = cc
from_signature-ne-panic f typ (p ∷ q ∷ []) = from_parts-ne-panic f typ _
from_signature-ne-panic f typ (p ∷ q ∷ r ∷ ps) = cc

local_call-ne-panic : (funcs : List (Text × Text)) (f typ : Text) → local_call funcs f typ ≢ panic
unfolding local_call
local_call-ne-panic funcs f typ = ground (arith, from_signature-ne-panic f typ _)

call_type-ne-panic :
    (t : Tools) (funcs : List (Text × Text)) (f typ : Text) (ps : List Text)
    → call_type t funcs f typ ps ≢ panic
unfolding call_type load_func_result_type
call_type-ne-panic t funcs f typ [] = local_call-ne-panic funcs f typ
call_type-ne-panic t funcs f typ (p ∷ []) = local_call-ne-panic funcs f typ
call_type-ne-panic t funcs f typ (p ∷ q ∷ []) =
    >>=-ne-panic _ _ (result_of_loaded-ne-panic p q (t.load_packages p)) (λ a. cc)
call_type-ne-panic t funcs f typ (p ∷ q ∷ r ∷ ps) = local_call-ne-panic funcs f typ

typ_by_last-ne-panic :
    (t : Tools) (funcs : List (Text × Text)) (v : Text) (last : ℕ)
    → typ_by_last t funcs v last ≢ panic
unfolding typ_by_last
typ_by_last-ne-panic t funcs v last = ground (arith, call_type-ne-panic t funcs _ _ _)

types_of_value-ne-panic :
    (t : Tools) (funcs : List (Text × Text)) (v : Text)
    → t.parse_expr [] ≢ other_expr
    → types_of_value t funcs v ≢ panic
unfolding types_of_value types_of_expr
types_of_value-ne-panic t funcs [] h = ground arith
types_of_value-ne-panic t funcs (x ∷ v) h =
    ground (arith, get_last?-ne-none (x ∷ v), typ_by_last-ne-panic t funcs (x ∷ v))

types_of_values-ne-panic :
    (t : Tools) (funcs : List (Text × Text)) (res vs : List Text)
    → t.parse_expr [] ≢ other_expr
    → types_of_values t funcs res vs ≢ panic
unfolding types_of_values
types_of_values-ne-panic t funcs res [] h = cc
types_of_values-ne-panic t funcs res (v ∷ vs) h =
    >>=-ne-panic _ _ (types_of_value-ne-panic t funcs v h)
      (λ r. types_of_values-ne-panic t funcs (res ++ r) vs h)

types_of_sides-ne-panic :
    (t : Tools) (funcs : List (Text × Text)) (ps : List Text)
    → t.parse_expr [] ≢ other_expr
    → types_of_sides t funcs ps ≢ panic
unfolding types_of_sides
types_of_sides-ne-panic t funcs [] h = cc
types_of_sides-ne-panic t funcs (p ∷ []) h = cc
types_of_sides-ne-panic t funcs (p ∷ q ∷ []) h = types_of_values-ne-panic t funcs [] _ h
types_of_sides-ne-panic t funcs (p ∷ q ∷ r ∷ ps) h = cc

-- Where the expression parser does not accept the empty text, `parse_line_type` returns types or an
-- error on every line: it never indexes a value out of range.
pub parse_line_type-ne-panic :
    (t : Tools) (funcs : List (Text × Text)) (total : Text)
    → t.parse_expr [] ≢ other_expr
    → parse_line_type t funcs total ≢ panic
unfolding parse_line_type
parse_line_type-ne-panic t funcs total h =
    types_of_sides-ne-panic t funcs (split total (ascii ":=")) h
