-- ===== src/Tests/Carried.antt =====
-- Two blocks of a kernel, `a := 1` or `var a int`, and then `a`.
use noted_runner.Prelude.{
  ◌≡◌, refl, true, false, List, [], ◌∷◌, ascii, text_eq, contains, lookup, has_key, if◌then◌else◌,
}
use noted_runner.Strings.{split, trim_space}
use noted_runner.Preproc.Tools.{kw_var, ident, semicolon, Token, Tools}
use noted_runner.Preproc.Block.{Block, new_block, new_kernel_types, mark}
use noted_runner.Preproc.Scan.{parse}
use noted_runner.Preproc.Scan.Mentions.{mentions, no_due}
use noted_runner.Preproc.Export.{reuse_line}
use noted_runner.Preproc.Export.Order.{recorded_order}
use noted_runner.Preproc.Export.Layout.{Layout}
use noted_runner.Preproc.Export.Typed.{typed_line, export_source-typed}
use noted_runner.Preproc.Export.Carried.{declared_var-unread}
use noted_runner.Tests.{token, tools_of, digit_expr, assign_tokens}

-- `a`
abbrev read_tokens : List Token
read_tokens = token ident (ascii "a") ∷ token semicolon (ascii "\n") ∷ []

-- The text `a` has the tokens above, every other text has the given ones.
abbrev pub two_blocks : List Token → Tools
two_blocks first = record (tools_of [] digit_expr) {
  scan = λ text. if text_eq text (ascii "a") then read_tokens else first;
}

abbrev pub assign_then_read : Tools
assign_then_read = two_blocks assign_tokens

abbrev assigning : Block
assigning = new_block (ascii "b1") (ascii "a := 1") new_kernel_types

abbrev pub assigned : Block
assigned = (parse assign_then_read assigning).1

abbrev reading : Block
reading = new_block (ascii "b2") (ascii "a") assigned.types

abbrev pub read_block : Block
read_block = (parse assign_then_read reading).1

-- `a`, on a kernel that knows the variable `a` and the function `f`
abbrev knowing : Block
knowing = new_block (ascii "b2") (ascii "a") (record {
  vars = (ascii "a", ascii "int") ∷ [];
  funcs = (ascii "f", ascii "func()") ∷ [];
  types = [];
})

abbrev knowing_read : Block
knowing_read = (parse assign_then_read knowing).1

export_source-typed_example :
    (p : Layout recorded_order knowing_read (ascii "at1")) × (contains (ascii "a") p.read_vars
      ≡ mentions (ascii "a") no_due read_tokens)
    × (reuse_line (ascii "varsMap") knowing_read.types.vars (ascii "a")
        ≡ typed_line (ascii "varsMap") (ascii "a") (ascii "int"))
    × (contains (ascii "f") p.read_funcs ≡ mentions (ascii "f") no_due read_tokens)
    × (reuse_line (ascii "funcsMap") knowing_read.types.funcs (ascii "f")
        ≡ typed_line (ascii "funcsMap") (ascii "f") (ascii "func()"))
unfolding parse new_block split mark contains text_eq lookup trim_space
export_source-typed_example =
    export_source-typed assign_then_read recorded_order knowing knowing_read (ascii "at1")
      (ascii "a") (ascii "int") (ascii "f") (ascii "func()") refl refl refl refl refl

-- `var a int`
abbrev var_tokens : List Token
var_tokens =
    token kw_var []
    ∷ token ident (ascii "a")
    ∷ token ident (ascii "int")
    ∷ token semicolon (ascii "\n")
    ∷ []

abbrev var_then_read : Tools
var_then_read = two_blocks var_tokens

abbrev declaring : Block
declaring = new_block (ascii "b1") (ascii "var a int") new_kernel_types

abbrev declared : Block
declared = (parse var_then_read declaring).1

abbrev unread : Block
unread = new_block (ascii "b2") (ascii "a") declared.types

declared_var-unread_example :
    (p : Layout recorded_order declared (ascii "at1")) × (q : Layout recorded_order
      (parse var_then_read unread).1
      (ascii "at1"))
    × (contains (ascii "a") p.written_vars ≡ true)
    × (contains (ascii "a") q.read_vars ≡ false)
unfolding parse new_block split mark contains text_eq has_key trim_space
declared_var-unread_example =
    declared_var-unread var_then_read recorded_order (ascii "a") (ascii "at1") (ascii "at1")
      declaring declared unread (parse var_then_read unread).1 refl
      (refl, (refl, (refl, (refl, tt)))) refl refl refl refl (refl, (refl, tt))
