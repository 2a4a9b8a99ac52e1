-- ===== src/Tests.antt =====
-- Concrete inputs, shared by the tests: a Go toolchain that knows a few texts, and a block.
pub mod Values
pub mod Scans
pub mod Carried
pub mod Files
pub mod Kernels
pub mod Runs
pub mod Requests
pub mod Service
pub mod Store
pub mod Startup
pub mod Locks
use noted_runner.Prelude.{
  ℕ, false, Option, none, some, List, [], ◌∷◌, Text, ascii, Outcome, ok, err,
}
use noted_runner.Preproc.Tools.{
  Tok, ident, define, semicolon, unlisted, Token, Tools, Expr, basic_lit, bad_expr, other_expr,
  int_lit, loaded,
}
use noted_runner.Preproc.Block.{Block, KernelTypes, new_kernel_types}

abbrev pub token : Tok → Text → Token
token tok lit = record { tok = tok; lit = lit; line = 1 }

-- `a := 1`
abbrev pub assign_tokens : List Token
assign_tokens =
    token ident (ascii "a")
    ∷ token define []
    ∷ token unlisted (ascii "1")
    ∷ token semicolon (ascii "\n")
    ∷ []

-- the empty text is no expression, a digit is a literal
abbrev pub digit_expr : Text → Expr
digit_expr [] = bad_expr (ascii "expected operand")
digit_expr (c ∷ s) = basic_lit int_lit

-- every text has these tokens
abbrev pub tools_of : List Token → (Text → Expr) → Tools
tools_of ks e = record {
  scan = λ text. ks;
  parse_expr = e;
  load_packages = λ path. loaded [] 0;
  parse_file = λ text. err (ascii "not parsed");
  format_node = λ f. err (ascii "not printed");
}

abbrev pub assign_tools : Tools
assign_tools = tools_of assign_tokens digit_expr

abbrev pub assign_block : Block
assign_block = record {
  content = ascii "a := 1";
  line_kinds = [];
  fnames = [];
  vnames = [];
  snames = [];
  id = ascii "b1";
  eface_required = false;
  types = new_kernel_types;
  reused_funcs = [];
  reused_vars = [];
  reused_structs = [];
  struct_defines = [];
}
