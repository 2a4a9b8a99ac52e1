-- ===== src/Preproc/Scan/Unknown.antt =====
-- internal/preproc/preproc.go: only `:=` gives a variable a recorded type.
use noted_runner.Prelude.{
  ◌≡◌, refl, ap, ◌∙◌, Bool, true, false, List, [], ◌∷◌, arith, Text, ascii, ok, All, contains,
  contains-concat, has_key, text_eq_iff,
}
use noted_runner.Strings.{split}
use noted_runner.Preproc.Tools.{Tok, ident, define, comma, lparen, rparen, Token, Tools}
use noted_runner.Preproc.Block.{Block, mark, var_decl, func_body, func_name}
use noted_runner.Preproc.Block.Mark.{types-mark, reused_vars-mark}
use noted_runner.Preproc.Scan.Finish.{finish-ok}
use noted_runner.Preproc.Scan.Rules.{
  OnSuccess-always, on_ident_inv, then_inv, if_inv, if_state_inv, if_block,
}
use noted_runner.Preproc.Scan.{
  State, done, start, on_punctuation, name_func, signature_ident, type_ident, declared_ident,
  name_var, reused_ident, name_type, on_ident, extend_signature, on_lbrace, on_rbrace, dispatch,
  mark_body, step, run, parse,
}

-- a token other than `:=`
abbrev pub is_define : Tok → Bool
is_define define = true
is_define _ = false

abbrev pub NoDefine : List Token → Type 0
NoDefine ks = All (λ (k : Token). is_define k.tok ≡ false) ks

module _ (x : Text) where
  -- no type is recorded for the variable, and no use of it is listed
  abbrev IsUnknown : State → Type 0
  IsUnknown s = (has_key x s.block.types.vars ≡ false) × (contains x s.block.reused_vars ≡ false)

  IsUnknown-extend : (text : Text) (s : State) → IsUnknown s → IsUnknown (extend_signature text s).1
  unfolding extend_signature
  IsUnknown-extend text s h = ground arith

  IsUnknown-punctuation :
      (text : Text) (s : State) → IsUnknown s → IsUnknown (on_punctuation text s).1
  unfolding on_punctuation
  IsUnknown-punctuation text s h =
      if_inv IsUnknown s.func_signature_open (extend_signature text s) (done s)
        (IsUnknown-extend text s h) h

  IsUnknown-by :
      (b c : Block) (s : State)
      → c.types ≡ b.types
      → c.reused_vars ≡ b.reused_vars
      → IsUnknown (record s { block = b })
      → IsUnknown (record s { block = c })
  IsUnknown-by b c s t r h = (ap (λ ts. has_key x ts.vars) t ∙ h.0, ap (contains x) r ∙ h.1)

  IsUnknown-declared : (k : Token) (s : State) → IsUnknown s → IsUnknown (declared_ident k s).1
  unfolding declared_ident name_var
  IsUnknown-declared k s h =
      let m =
        IsUnknown-by s.block (mark k.line var_decl s.block).1 s (types-mark k.line var_decl s.block)
          (reused_vars-mark k.line var_decl s.block) h in
      if_state_inv IsUnknown s.in_var_decl
        (record s { block = name_var k.lit (mark k.line var_decl s.block) }) _
        (if_block (λ b. IsUnknown (record s { block = b })) (mark k.line var_decl s.block).0 _ _ m
          m)
        h

  IsUnknown-reused : (k : Token) (s : State) → IsUnknown s → IsUnknown (reused_ident k s).1
  unfolding reused_ident
  IsUnknown-reused k s h = (
    h.0,
    ground (arith, h.0, h.1, contains-concat x k.lit s.block.reused_vars, text_eq_iff k.lit x),
  )

  IsUnknown-ident : (k : Token) (s : State) → IsUnknown s → IsUnknown (on_ident k s).1
  unfolding name_func name_type signature_ident type_ident
  IsUnknown-ident k s h =
      on_ident_inv IsUnknown k s
        (λ e.
          IsUnknown-by s.block (mark k.line func_name s.block).1 s
            (types-mark k.line func_name s.block) (reused_vars-mark k.line func_name s.block) h)
        h (if_inv IsUnknown _ (extend_signature k.lit s) (done s) (IsUnknown-extend k.lit s h) h)
        (λ u g. if_state_inv IsUnknown u.inside_type _ u g g) (IsUnknown-declared k)
        (IsUnknown-reused k)

  IsUnknown-dispatch :
      (t : Tools) (lines : List Text) (tok : Tok) (k : Token) (s : State)
      → is_define tok ≡ false
      → IsUnknown s
      → IsUnknown (dispatch t lines tok k s).1
  unfolding dispatch on_lbrace on_rbrace
  IsUnknown-dispatch t lines ident k s e h = IsUnknown-ident k s h
  IsUnknown-dispatch t lines define k s e h = cc
  IsUnknown-dispatch t lines lparen k s e h = IsUnknown-punctuation (ascii "(") s h
  IsUnknown-dispatch t lines rparen k s e h = IsUnknown-punctuation (ascii ")") s h
  IsUnknown-dispatch t lines comma k s e h = IsUnknown-punctuation (ascii ",") s h
  IsUnknown-dispatch t lines _ k s e h = h

  IsUnknown-body : (k : Token) (s : State) → IsUnknown s → IsUnknown (mark_body k s)
  unfolding mark_body
  IsUnknown-body k s h =
      if_state_inv IsUnknown s.inside_func _ s
        (IsUnknown-by s.block (mark k.line func_body s.block).1 s
          (types-mark k.line func_body s.block) (reused_vars-mark k.line func_body s.block) h)
        h

  IsUnknown-run :
      (t : Tools) (lines : List Text) (ks : List Token) (s : State)
      → NoDefine ks
      → IsUnknown s
      → IsUnknown (run t lines ks s).1
  unfolding run step
  IsUnknown-run t lines [] s n h = h
  IsUnknown-run t lines (k ∷ ks) s n h =
      then_inv IsUnknown (step t lines k s) (run t lines ks)
        (IsUnknown-dispatch t lines k.tok k (mark_body k s) n.0 (IsUnknown-body k s h))
        λ u g. IsUnknown-run t lines ks u n.1 g

  -- A variable that is not known before a block without `:=` is not known after it, and is not listed.
  pub parse_unknown :
      (t : Tools) (b c : Block)
      → parse t b ≡ (ok tt, c)
      → NoDefine (t.scan b.content)
      → has_key x b.types.vars ≡ false
      → (has_key x c.types.vars ≡ false) × (contains x c.reused_vars ≡ false)
  unfolding parse start contains
  parse_unknown t b c e n h =
      let lines = split b.content (ascii "\n") in
      let r = run t lines (t.scan b.content) (start b) in
      let (s, u, same) =
        finish-ok IsUnknown lines r c
          (OnSuccess-always IsUnknown r
            (IsUnknown-run t lines (t.scan b.content) (start b) n (h, refl)))
          e in
      (ap (λ ts. has_key x ts.vars) same.types ∙ u.0, ap (contains x) same.reused_vars ∙ u.1)
