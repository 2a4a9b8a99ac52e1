-- ===== src/Preproc/Scan.antt =====
-- internal/preproc/preproc.go: `Parse`, one function for each case of its switch. What a handler has
-- changed stays changed when it fails, so the state comes back beside the outcome.
pub mod Rules
pub mod Known
pub mod Mentions
pub mod Quiet
pub mod Lists
pub mod Finish
pub mod Reused
pub mod Untouched
pub mod Unknown
pub mod Stored
pub mod Coverage
pub mod Content
pub mod Define
pub mod Signature
pub mod Calls
pub mod Panics
pub mod FuncLiteral
use noted_runner.Prelude.{
  ℕ, zero, suc, ◌+◌, ◌-◌, Bool, true, false, ◌&&◌, Option, none, some, List, [], ◌∷◌, ◌++◌, ltb,
  ◌==◌, if◌then◌else◌, length, get_elem?, get_last?, Text, ascii, text_eq, lookup_or_nil, insert,
  has_key, contains, Outcome, ok, err, panic, or_panic,
}
use noted_runner.Strings.{split, trim_space}
use noted_runner.Preproc.Tools.{
  Tok, kw_func, kw_type, kw_var, ident, define, semicolon, comma, lbrace, rbrace, lparen, rparen,
  unlisted, Token, Tools,
}
use noted_runner.Preproc.Block.{
  KernelTypes, known_types, Kind, func_name, func_body, var_decl, other, kinds_at, Block, mark,
}
use noted_runner.Preproc.LineType.{parse_line_type}

-- `identCandidate`
pub record Candidate : Type 0 where
  pub name : Text
  pub line : ℕ

-- The variables of `Parse`. A level of -1 is `none`: no depth is below it.
pub record State : Type 0 where
  pub block : Block
  pub brace_depth : ℕ
  pub func_signature_open : Bool
  pub inside_func : Bool
  pub inside_type : Bool
  pub func_level : Option ℕ
  pub type_level : Option ℕ
  pub last_was_func_keyword : Bool
  pub last_was_type_keyword : Bool
  pub c_type_name : Text
  pub in_var_decl : Bool
  pub pending_candidates : List Candidate

unfoldable pub start : Block → State
start b = record {
  block = record b { reused_funcs = []; reused_vars = [] };
  brace_depth = 0;
  func_signature_open = false;
  inside_func = false;
  inside_type = false;
  func_level = none;
  type_level = none;
  last_was_func_keyword = false;
  last_was_type_keyword = false;
  c_type_name = [];
  in_var_decl = false;
  pending_candidates = [];
}

abbrev pub Result : Type 0
Result = Outcome (Unit {0}) × State

abbrev pub done : State → Result
done s = (ok tt, s)

infixl 5 ◌then◌
abbrev pub ◌then◌ : Result → (State → Result) → Result
(ok _, s) then f = f s
(err e, s) then f = (err e, s)
(panic, s) then f = (panic, s)

abbrev pub with_types : State → KernelTypes → State
with_types s ts = record s { block = record s.block { types = ts } }

-- `b.types.funcs[name] = sig`, and the same of a type
abbrev pub set_func : Text → Text → State → State
set_func name sig s =
    with_types s (record s.block.types { funcs = insert name sig s.block.types.funcs })

abbrev pub set_type : Text → Text → State → State
set_type name text s =
    with_types s (record s.block.types { types = insert name text s.block.types.types })

-- appends to the signature of `b.fnames[len(b.fnames)-1]`
unfoldable pub extend_signature : Text → State → Result
extend_signature text s = elim (get_last? s.block.fnames) [
  | none ↦ (panic, s)
  | some f ↦ done (set_func f (lookup_or_nil f s.block.types.funcs ++ text) s)
]

-- case LPAREN, RPAREN, COMMA
unfoldable pub on_punctuation : Text → State → Result
unfolding extend_signature
on_punctuation text s = if s.func_signature_open then extend_signature text s else done s

unfoldable pub name_func : Token → State → State
name_func k s =
    let b = (mark k.line func_name s.block).1 in
    set_func k.lit (ascii "func") (record s {
      block = record b { fnames = b.fnames ++ k.lit ∷ [] };
      last_was_func_keyword = false;
    })

unfoldable pub name_type : Token → State → State
name_type k s = set_type k.lit (ascii "type") (record s {
  block = record s.block { snames = s.block.snames ++ k.lit ∷ [] };
  c_type_name = k.lit;
  last_was_type_keyword = false;
  inside_type = true;
})

unfoldable pub signature_ident : Token → State → Result
unfolding extend_signature
signature_ident k s =
    if s.func_signature_open && contains k.lit known_types then extend_signature k.lit s else done s

unfoldable pub type_ident : Token → State → Result
type_ident k s = done (
    if s.inside_type
    then set_type s.c_type_name (lookup_or_nil s.c_type_name s.block.types.types ++ k.lit) s
    else s)

-- `if ok { b.vnames = append(b.vnames, lit) }`
unfoldable pub name_var : Text → Bool × Block → Block
name_var lit (fresh, b) = if fresh then record b { vnames = b.vnames ++ lit ∷ [] } else b

unfoldable pub declared_ident : Token → State → Result
unfolding name_var
declared_ident k s = done (
    if s.in_var_decl
    then record s { block = name_var k.lit (mark k.line var_decl s.block) }
    else record s {
      pending_candidates = s.pending_candidates ++ record { name = k.lit; line = k.line } ∷ [];
    })

unfoldable pub reused_ident : Token → State → Result
reused_ident k s =
    let b = s.block in
    let vs = if has_key k.lit b.types.vars then b.reused_vars ++ k.lit ∷ [] else b.reused_vars in
    let fs = if has_key k.lit b.types.funcs then b.reused_funcs ++ k.lit ∷ [] else b.reused_funcs in
    done (record s { block = record b { reused_vars = vs; reused_funcs = fs } })

-- case IDENT
unfoldable pub on_ident : Token → State → Result
unfolding name_func name_type signature_ident type_ident declared_ident reused_ident
on_ident k s =
    if s.last_was_func_keyword
    then done (name_func k s)
    else if s.last_was_type_keyword
    then done (name_type k s)
    else (((signature_ident k s then type_ident k) then declared_ident k) then reused_ident k)

-- `lines[n-1]`
unfoldable pub line_at : List Text → ℕ → Option Text
line_at lines zero = none
line_at lines (suc n) = get_elem? lines n

-- the loop over the candidates at `:=`; the text is `totalLine`
unfoldable pub mark_candidates :
    List Text → ℕ → List Candidate → Text → State → Outcome Text × State
unfolding line_at
mark_candidates lines line [] total s = (ok total, s)
mark_candidates lines line (c ∷ cs) total s =
    let m = mark line var_decl s.block in
    let s' = record s { block = record m.1 { vnames = m.1.vnames ++ c.name ∷ [] } } in
    elim (if m.0 then or_panic (line_at lines c.line) else ok []) [
      | ok piece ↦ mark_candidates lines line cs (total ++ piece) s'
      | err e ↦ (err e, s')
      | panic ↦ (panic, s')
    ]

-- `b.types.vars[name] = tp[idx]`
unfoldable pub assign_types : List Candidate → List Text → List (Text × Text) → List (Text × Text)
assign_types (c ∷ cs) (t ∷ ts) vars = assign_types cs ts (insert c.name t vars)
assign_types _ _ vars = vars

unfoldable pub define_types : Text → Outcome (List Text) → State → Result
unfolding assign_types
define_types total (err e) s = (err e, s)
define_types total panic s = (panic, s)
define_types total (ok tp) s =
    if length tp == length s.pending_candidates
    then done
        (record (with_types s (record s.block.types {
          vars = assign_types s.pending_candidates tp s.block.types.vars;
        })) { pending_candidates = [] })
    else (err (ascii "variables decl and val don't match at line " ++ total), s)

unfoldable pub define_line : Tools → Outcome Text × State → Result
unfolding define_types
define_line t (ok total, s) = define_types total (parse_line_type t s.block.types.funcs total) s
define_line t (err e, s) = (err e, s)
define_line t (panic, s) = (panic, s)

-- case DEFINE
unfoldable pub on_define : Tools → List Text → ℕ → State → Result
unfolding mark_candidates define_line
on_define t lines line s = define_line t (mark_candidates lines line s.pending_candidates [] s)

-- case LBRACE
unfoldable pub on_lbrace : State → State
on_lbrace s =
    let depth = s.brace_depth + 1 in
    record s {
      brace_depth = depth;
      inside_func = (if s.func_signature_open then true else s.inside_func);
      func_signature_open = false;
      func_level = (if s.func_signature_open then some depth else s.func_level);
      type_level = (if s.inside_type then some depth else s.type_level);
    }

-- `braceDepth < level`
unfoldable pub is_below : ℕ → Option ℕ → Bool
is_below depth none = false
is_below depth (some level) = ltb depth level

-- case RBRACE; the depth does not fall below 0, as the source has it
unfoldable pub on_rbrace : State → State
unfolding is_below
on_rbrace s =
    let depth = s.brace_depth - 1 in
    let func_ends = s.inside_func && is_below depth s.func_level in
    let type_ends = s.inside_type && is_below depth s.type_level in
    record s {
      brace_depth = depth;
      inside_func = (if func_ends then false else s.inside_func);
      func_level = (if func_ends then none else s.func_level);
      inside_type = (if type_ends then false else s.inside_type);
      type_level = (if type_ends then none else s.type_level);
    }

-- the switch
unfoldable pub dispatch : Tools → List Text → Tok → Token → State → Result
unfolding on_ident on_define on_lbrace on_rbrace on_punctuation
dispatch t lines kw_func k s =
    done (record s { last_was_func_keyword = true; func_signature_open = true })
dispatch t lines kw_type k s = done (record s { last_was_type_keyword = true })
dispatch t lines ident k s = on_ident k s
dispatch t lines kw_var k s = done (record s { in_var_decl = true; pending_candidates = [] })
dispatch t lines define k s = on_define t lines k.line s
dispatch t lines semicolon k s =
    done (record s { in_var_decl = false; pending_candidates = []; last_was_func_keyword = false })
dispatch t lines lbrace k s = done (on_lbrace s)
dispatch t lines rbrace k s = done (on_rbrace s)
dispatch t lines lparen k s = on_punctuation (ascii "(") s
dispatch t lines rparen k s = on_punctuation (ascii ")") s
dispatch t lines comma k s = on_punctuation (ascii ",") s
dispatch t lines unlisted k s = done s

-- `if insideFunc { mark(line, KindFuncBody) }`
unfoldable pub mark_body : Token → State → State
mark_body k s = if s.inside_func then record s { block = (mark k.line func_body s.block).1 } else s

-- one round of the loop
unfoldable pub step : Tools → List Text → Token → State → Result
unfolding mark_body dispatch
step t lines k s = dispatch t lines k.tok k (mark_body k s)

-- the loop over the tokens
unfoldable pub run : Tools → List Text → List Token → State → Result
unfolding step
run t lines [] s = done s
run t lines (k ∷ ks) s = step t lines k s then run t lines ks

-- one round of the loop over the lines: a line that is not blank and that no token has marked
unfoldable pub mark_unmarked : ℕ → Text → Block → Block
mark_unmarked n text b =
    if text_eq (trim_space text) []
    then b
    else if length (kinds_at b.line_kinds n) == 0
    then (mark n other b).1
    else b

unfoldable pub mark_rest : ℕ → List Text → Block → Block
unfolding mark_unmarked
mark_rest n [] b = b
mark_rest n (text ∷ texts) b = mark_rest (n + 1) texts (mark_unmarked n text b)

unfoldable pub finish : List Text → Result → Outcome (Unit {0}) × Block
unfolding mark_rest
finish lines (ok _, s) = (ok tt, mark_rest 1 lines s.block)
finish lines (err e, s) = (err e, s.block)
finish lines (panic, s) = (panic, s.block)

unfoldable pub parse : Tools → Block → Outcome (Unit {0}) × Block
unfolding run start finish
parse t b =
    let lines = split b.content (ascii "\n") in
    finish lines (run t lines (t.scan b.content) (start b))
