-- ===== src/Preproc/Tools.antt =====
-- What internal/preproc calls of go/scanner, go/parser, go/format and golang.org/x/tools/go/packages.
-- None of it is part of the repository: `Tools` is a parameter of the model.
use noted_runner.Prelude.{ℕ, Option, List, Text, Outcome}

-- go/token, the kinds that `Parse` looks at
pub data Tok : Type 0 where
  kw_func kw_type kw_var ident define semicolon comma : Tok
  lbrace rbrace lparen rparen unlisted : Tok

-- a token with its literal and the line of its position
pub record Token : Type 0 where
  pub tok : Tok
  pub lit : Text
  pub line : ℕ

-- ast.BasicLit.Kind
pub data LitKind : Type 0 where
  int_lit float_lit imag_lit char_lit string_lit : LitKind

-- what parser.ParseExpr returns, as far as `parseLineType` reads it
pub data Expr : Type 0 where
  basic_lit : LitKind → Expr
  other_expr : Expr
  bad_expr : Text → Expr

-- an object in the scope of a loaded package
pub data Object : Type 0 where
  -- a function whose type is a signature, with its result types
  func_object : List Text → Object
  -- a function whose type is not a signature
  odd_func : Object
  other_object : Object

pub record Package : Type 0 where
  pub lookup_object : Text → Option Object

-- packages.Load: an error, or the packages and the number that packages.PrintErrors counts
pub data Loaded : Type 0 where
  load_failed : Text → Loaded
  loaded : List Package → ℕ → Loaded

-- the syntax tree of a file: what `ast.Inspect` meets
mutual
  pub data Node : Type 0 where
    identifier : Text → Node
    -- the operand and the selected name
    selector : Node → Text → Node
    compound : Nodes → Node

  pub data Nodes : Type 0 where
    nil : Nodes
    cons : Node → Nodes → Nodes

-- *ast.ImportSpec: the pointer, the name if one is written, the quoted path
pub record ImportSpec : Type 0 where
  pub ptr : ℕ
  pub name : Option Text
  pub path : Text

pub data Decl : Type 0 where
  import_decl : List ImportSpec → Decl
  other_decl : Node → Decl

-- *ast.File
pub record SourceFile : Type 0 where
  pub package_name : Text
  pub imports : List ImportSpec
  pub decls : List Decl

pub record Tools : Type 0 where
  -- scanner.Scanner, up to token.EOF
  pub scan : Text → List Token
  pub parse_expr : Text → Expr
  pub load_packages : Text → Loaded
  pub parse_file : Text → Outcome SourceFile
  pub format_node : SourceFile → Outcome Text
