-- ===== src/Preproc/Scan/Content.antt =====
-- `Parse` leaves the text and the identifier of a block alone.
use noted_runner.Prelude.{
  ℕ, ◌≡◌, refl, List, [], ◌∷◌, arith, Text, Outcome, ok, err, panic, ascii, ◌∙◌, ◌+◌,
}
use noted_runner.Strings.{split}
use noted_runner.Preproc.Tools.{Tok, ident, define, comma, lparen, rparen, Token, Tools}
use noted_runner.Preproc.Block.{Block, var_decl, func_body, func_name, other}
use noted_runner.Preproc.Block.Mark.{content-mark}
use noted_runner.Preproc.Scan.Rules.{mark_candidates_inv, on_ident_inv, then_inv}
use noted_runner.Preproc.Scan.{
  State, Result, start, on_punctuation, name_func, signature_ident, type_ident, declared_ident,
  name_var, reused_ident, name_type, on_ident, extend_signature, mark_candidates, define_types,
  define_line, on_define, on_lbrace, on_rbrace, dispatch, mark_body, step, run, finish, parse,
  mark_rest, mark_unmarked,
}

module _ (c : Text) where
  Holds : State → Type 0
  Holds s = s.block.content ≡ c

  Holds-ident : (k : Token) (s : State) → Holds s → Holds (on_ident k s).1
  unfolding Holds extend_signature name_func name_type signature_ident type_ident declared_ident
      name_var reused_ident
  Holds-ident k s h =
      on_ident_inv Holds k s (λ e. ground (arith, content-mark k.line func_name s.block)) h
        (ground arith) (λ u g. ground arith)
        (λ u g. ground (arith, content-mark k.line var_decl u.block)) (λ u g. g)

  Holds-define : (t : Tools) (m : Outcome Text × State) → Holds m.1 → Holds (define_line t m).1
  unfolding define_line define_types Holds
  Holds-define t (ok total, s) h = ground arith
  Holds-define t (err e, s) h = h
  Holds-define t (panic, s) h = h

  Holds-marks :
      (lines : List Text) (line : ℕ) (s : State)
      → Holds s
      → Holds (mark_candidates lines line s.pending_candidates [] s).1
  unfolding Holds
  Holds-marks lines line s =
      mark_candidates_inv Holds line lines s.pending_candidates [] s
        λ name u g. content-mark line var_decl u.block ∙ g

  Holds-dispatch :
      (t : Tools) (lines : List Text) (tok : Tok) (k : Token) (s : State)
      → Holds s
      → Holds (dispatch t lines tok k s).1
  unfolding dispatch on_define on_lbrace on_rbrace Holds on_punctuation extend_signature
  Holds-dispatch t lines ident k s h = Holds-ident k s h
  Holds-dispatch t lines define k s h =
      Holds-define t (mark_candidates lines k.line s.pending_candidates [] s)
        (Holds-marks lines k.line s h)
  Holds-dispatch t lines lparen k s h = ground arith
  Holds-dispatch t lines rparen k s h = ground arith
  Holds-dispatch t lines comma k s h = ground arith
  Holds-dispatch t lines _ k s h = h

  Holds-step :
      (t : Tools) (lines : List Text) (k : Token) (s : State) → Holds s → Holds (step t lines k s).1
  unfolding step mark_body Holds
  Holds-step t lines k s h =
      Holds-dispatch t lines k.tok k (mark_body k s)
        (ground (arith, content-mark k.line func_body s.block))

  Holds-run :
      (t : Tools) (lines : List Text) (ks : List Token) (s : State)
      → Holds s
      → Holds (run t lines ks s).1
  unfolding run
  Holds-run t lines [] s h = h
  Holds-run t lines (k ∷ ks) s h =
      then_inv Holds (step t lines k s) (run t lines ks) (Holds-step t lines k s h)
        (λ u g. Holds-run t lines ks u g)

content-mark_unmarked :
    (n : ℕ) (text : Text) (b : Block) → (mark_unmarked n text b).content ≡ b.content
unfolding mark_unmarked
content-mark_unmarked n text b = ground (arith, content-mark n other b)

content-mark_rest :
    (n : ℕ) (texts : List Text) (b : Block) → (mark_rest n texts b).content ≡ b.content
unfolding mark_rest
content-mark_rest n [] b = refl
content-mark_rest n (text ∷ texts) b =
    content-mark_rest (n + 1) texts (mark_unmarked n text b) ∙ content-mark_unmarked n text b

content-finish : (lines : List Text) (r : Result) → (finish lines r).1.content ≡ r.1.block.content
unfolding finish
content-finish lines (ok _, s) = content-mark_rest 1 lines s.block
content-finish lines (err e, s) = refl
content-finish lines (panic, s) = refl

pub content-parse : (t : Tools) (b : Block) → (parse t b).1.content ≡ b.content
unfolding parse start Holds
content-parse t b =
    let lines = split b.content (ascii "\n") in
    content-finish lines (run t lines (t.scan b.content) (start b))
    ∙ Holds-run b.content t lines (t.scan b.content) (start b) refl
