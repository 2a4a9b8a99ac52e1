-- ===== src/Tests/Scans.antt =====
-- Blocks that are read.
use noted_runner.Prelude.{
  ◌≡◌, ◌≢◌, refl, true, none, List, [], ◌∷◌, ascii, ok, panic, text_eq, lookup, contains,
}
use noted_runner.Strings.{split}
use noted_runner.Preproc.Tools.{kw_func, ident, lparen, rparen, Token, Tools}
use noted_runner.Preproc.Block.{mark, new_kernel_types, var_decl}
use noted_runner.Preproc.LineType.{local_call, parse_line_type}
use noted_runner.Preproc.Scan.{line_at, State, done, run, start, parse, on_define}
use noted_runner.Preproc.Scan.Panics.{parse-ne-panic}
use noted_runner.Preproc.Scan.FuncLiteral.{parse_literal}
use noted_runner.Preproc.Scan.Known.{Extends, parse-Extends}
use noted_runner.Preproc.Scan.Define.{IsDefined, on_define-IsDefined}
use noted_runner.Preproc.Scan.Signature.{IsOpen}
use noted_runner.Preproc.Scan.Calls.{declared_results, signature_tokens}
use noted_runner.Tests.{token, tools_of, digit_expr, assign_tools, assign_block}

assign_ok : (parse assign_tools assign_block).0 ≡ ok tt
unfolding parse split mark parse_line_type
assign_ok = refl

on_line : line_at (split (ascii "a := 1") (ascii "\n")) 1 ≢ none
unfolding split line_at
on_line = λ e. cc

parse-ne-panic_example : (parse assign_tools assign_block).0 ≢ panic
parse-ne-panic_example =
    parse-ne-panic assign_tools assign_block (λ e. cc) tt
      (on_line, (on_line, (on_line, (on_line, tt))))

parse-Extends_example : Extends new_kernel_types (parse assign_tools assign_block).1.types
parse-Extends_example = parse-Extends assign_tools assign_block

-- `func(`
abbrev literal_tokens : List Token
literal_tokens = token kw_func [] ∷ token lparen [] ∷ []

abbrev literal_tools : Tools
literal_tools = tools_of literal_tokens digit_expr

parse_literal_example : (parse literal_tools assign_block).0 ≡ panic
unfolding run
parse_literal_example =
    parse_literal literal_tools assign_block [] (token kw_func []) (token lparen []) []
      (start assign_block) refl refl tt refl refl refl

-- behind `a` of `a := 1`
abbrev pending : State
pending =
    (run assign_tools (ascii "a := 1" ∷ []) (token ident (ascii "a") ∷ []) (start assign_block)).1

on_define-IsDefined_example :
    IsDefined pending (on_define assign_tools (ascii "a := 1" ∷ []) 1 pending).1
unfolding on_define mark parse_line_type run start split
on_define-IsDefined_example =
    on_define-IsDefined assign_tools (ascii "a := 1" ∷ []) 1 pending _ refl

-- a line that declares a variable already
abbrev taken : State
taken = record (start assign_block) {
  block = record assign_block { line_kinds = (1, var_decl ∷ []) ∷ [] };
}

-- behind `func f`
abbrev opened : State
opened = record (start assign_block) {
  func_signature_open = true;
  block = record assign_block {
    fnames = ascii "f" ∷ [];
    types = record new_kernel_types { funcs = (ascii "f", ascii "func") ∷ [] };
  };
}

opened-IsOpen : IsOpen (ascii "f") (ascii "func") opened
unfolding lookup text_eq start
opened-IsOpen = record {
  open_now = refl;
  last_name = refl;
  recorded = refl;
  not_func = refl;
  not_type = refl;
}

-- `(n int)`
abbrev params : List Token
params =
    token lparen [] ∷ token ident (ascii "n") ∷ token ident (ascii "int") ∷ token rparen [] ∷ []

declared_results_example :
    (u : State) × (run assign_tools []
        (signature_tokens 1 [] (ascii "int") (ascii "string" ∷ []))
        opened
      ≡ done u)
    × (local_call u.block.types.funcs (ascii "f") [] ≡ ok ([], ascii "int" ∷ ascii "string" ∷ []))
unfolding contains text_eq
declared_results_example =
    declared_results 1 assign_tools [] (ascii "f") [] [] (ascii "int") (ascii "string") [] opened tt
      tt (refl, (refl, tt)) opened-IsOpen
