-- ===== src/Tests/Values.antt =====
-- Types of values.
use noted_runner.Prelude.{List, [], ◌∷◌, Text, ascii}
use noted_runner.Preproc.Tools.{Tools, other_expr, basic_lit, float_lit}
use noted_runner.Tests.{tools_of}

abbrev other_tools : Tools
other_tools = tools_of [] (λ text. other_expr)

abbrev float_tools : Tools
float_tools = tools_of [] (λ text. basic_lit float_lit)

-- `f, g` and `h` of a kernel
abbrev funcs : List (Text × Text)
funcs =
    (ascii "f", ascii "func(int)(int,string)")
    ∷ (ascii "g", ascii "func()int")
    ∷ (ascii "h", ascii "func()")
    ∷ []
