-- ===== src/Preproc/Scan/FuncLiteral.antt =====
-- A function literal in a block that has named no function.
use noted_runner.Prelude.{
  ℕ, ◌≡◌, refl, ◌≢◌, true, false, List, [], ◌∷◌, ◌++◌, arith, Text, Outcome, ok, err, panic, All,
  ascii, if◌then◌else◌, ap, ◌∙◌,
}
use noted_runner.Strings.{split}
use noted_runner.Preproc.Tools.{Tok, kw_func, ident, define, lparen, Token, Tools}
use noted_runner.Preproc.Block.{Block, var_decl, func_body}
use noted_runner.Preproc.Block.Mark.{fnames-mark}
use noted_runner.Preproc.Scan.Rules.{mark_candidates_inv, on_ident_inv}
use noted_runner.Preproc.Scan.{
  Candidate, State, Result, done, ◌then◌, start, on_punctuation, signature_ident, type_ident,
  declared_ident, name_var, reused_ident, name_type, on_ident, mark_candidates, define_types,
  define_line, on_define, on_lbrace, on_rbrace, dispatch, mark_body, step, run, finish, parse,
  extend_signature,
}

-- No function has been named, and no signature is open.
record IsNameless (s : State) : Type 0 where
  unnamed : s.block.fnames ≡ []
  closed : s.func_signature_open ≡ false
  not_func : s.last_was_func_keyword ≡ false

IsNameless-marks :
    (lines : List Text) (line : ℕ) (cs : List Candidate) (total : Text) (s : State)
    → IsNameless s
    → IsNameless (mark_candidates lines line cs total s).1
IsNameless-marks lines line cs total s =
    mark_candidates_inv IsNameless line lines cs total s λ name u h. record {
      unnamed = fnames-mark line var_decl u.block ∙ h.unnamed;
      closed = h.closed;
      not_func = h.not_func;
    }

IsNameless-define :
    (t : Tools) (m : Outcome Text × State) → IsNameless m.1 → IsNameless (define_line t m).1
unfolding define_line define_types
IsNameless-define t (ok total, s) h = ground arith
IsNameless-define t (err e, s) h = h
IsNameless-define t (panic, s) h = h

IsNameless-ident : (k : Token) (s : State) → IsNameless s → IsNameless (on_ident k s).1
unfolding signature_ident type_ident declared_ident name_var name_type reused_ident
IsNameless-ident k s h =
    on_ident_inv IsNameless k s (λ e. absurd (cc (e, h.not_func))) (ground arith) (ground arith)
      (λ u g. ground arith) (λ u g. ground (arith, fnames-mark k.line var_decl u.block))
      (λ u g. ground arith)

IsNameless-dispatch :
    (t : Tools) (lines : List Text) (tok : Tok) (k : Token) (s : State)
    → tok ≢ kw_func
    → IsNameless s
    → IsNameless (dispatch t lines tok k s).1
unfolding dispatch on_lbrace on_rbrace on_punctuation on_define
IsNameless-dispatch t lines kw_func k s n h = absurd (n refl)
IsNameless-dispatch t lines ident k s n h = IsNameless-ident k s h
IsNameless-dispatch t lines define k s n h =
    IsNameless-define t (mark_candidates lines k.line s.pending_candidates [] s)
      (IsNameless-marks lines k.line s.pending_candidates [] s h)
IsNameless-dispatch t lines _ k s n h = ground arith

IsNameless-step :
    (t : Tools) (lines : List Text) (k : Token) (s : State)
    → k.tok ≢ kw_func
    → IsNameless s
    → IsNameless (step t lines k s).1
unfolding step mark_body
IsNameless-step t lines k s n h =
    IsNameless-dispatch t lines k.tok k (mark_body k s) n
      (ground (arith, fnames-mark k.line func_body s.block))

-- The tokens `func` and `(`: a function literal, or a method.
abbrev pub Literal : List Token → Type 0
Literal (k ∷ j ∷ ks) = (k.tok ≡ kw_func) × (j.tok ≡ lparen)
Literal _ = ⊥

then-eq-panic : (r : Result) (f : State → Result) → r.0 ≡ panic → (r then f).0 ≡ panic
then-eq-panic (ok _, s) f h = cc
then-eq-panic (err e, s) f h = cc
then-eq-panic (panic, s) f h = refl

then_of_eq :
    (r : Result) (u : State) (f : State → Result)
    → r ≡ done u
    → (f u).0 ≡ panic
    → (r then f).0 ≡ panic
then_of_eq r u f e h = rw e h

module _ (t : Tools) (lines : List Text) where
  abbrev opened : Token → State → State
  opened k s = record (mark_body k s) { last_was_func_keyword = true; func_signature_open = true }

  step_func : (k : Token) (s : State) → k.tok ≡ kw_func → step t lines k s ≡ done (opened k s)
  unfolding step dispatch
  step_func k s f = ap (λ x. dispatch t lines x k (mark_body k s)) f

  fnames-mark_body : (k : Token) (s : State) → (mark_body k s).block.fnames ≡ s.block.fnames
  unfolding mark_body
  fnames-mark_body k s = ground (arith, fnames-mark k.line func_body s.block)

  signature_open-mark_body :
      (k : Token) (s : State) → (mark_body k s).func_signature_open ≡ s.func_signature_open
  unfolding mark_body
  signature_open-mark_body k s = ground arith

  punctuation_panics :
      (text : Text) (s : State)
      → s.block.fnames ≡ []
      → s.func_signature_open ≡ true
      → (on_punctuation text s).0 ≡ panic
  unfolding on_punctuation extend_signature
  punctuation_panics text s e o = ground arith

  step_paren :
      (k : Token) (s : State)
      → k.tok ≡ lparen
      → s.block.fnames ≡ []
      → s.func_signature_open ≡ true
      → (step t lines k s).0 ≡ panic
  unfolding step dispatch
  step_paren k s p e o =
      ap (λ x. (dispatch t lines x k (mark_body k s)).0) p
      ∙ punctuation_panics (ascii "(") (mark_body k s) (fnames-mark_body k s ∙ e)
          (signature_open-mark_body k s ∙ o)

  run_literal :
      (k j : Token) (ks : List Token) (s : State)
      → k.tok ≡ kw_func
      → j.tok ≡ lparen
      → IsNameless s
      → (run t lines (k ∷ j ∷ ks) s).0 ≡ panic
  unfolding run
  run_literal k j ks s f p h =
      then_of_eq (step t lines k s) (opened k s) (run t lines (j ∷ ks)) (step_func k s f) (
        then-eq-panic (step t lines j (opened k s)) (run t lines ks)
          (step_paren j (opened k s) p (fnames-mark_body k s ∙ h.unnamed) refl))

  run_prefix :
      (pre : List Token) (k j : Token) (ks : List Token) (s u : State)
      → All (λ (i : Token). i.tok ≢ kw_func) pre
      → run t lines pre s ≡ done u
      → k.tok ≡ kw_func
      → j.tok ≡ lparen
      → IsNameless s
      → (run t lines (pre ++ k ∷ j ∷ ks) s).0 ≡ panic
  unfolding run
  run_prefix [] k j ks s u n r f p h = run_literal k j ks s f p h
  run_prefix (i ∷ pre) k j ks s u (n, ns) r f p h =
      behind (step t lines i s) r (IsNameless-step t lines i s n h)
        (λ v. run_prefix pre k j ks v u ns)
    where
      behind :
          (m : Result)
          → (m then run t lines pre) ≡ done u
          → IsNameless m.1
          → ((v : State)
              → run t lines pre v ≡ done u
              → k.tok ≡ kw_func
              → j.tok ≡ lparen
              → IsNameless v
              → (run t lines (pre ++ k ∷ j ∷ ks) v).0 ≡ panic)
          → (m then run t lines (pre ++ k ∷ j ∷ ks)).0 ≡ panic
      behind (ok _, v) e g rec = rec v e f p g
      behind (err x, v) e g rec = cc
      behind (panic, v) e g rec = cc

finish-eq-panic : (lines : List Text) (r : Result) → r.0 ≡ panic → (finish lines r).0 ≡ panic
unfolding finish
finish-eq-panic lines (ok _, s) h = cc
finish-eq-panic lines (err e, s) h = cc
finish-eq-panic lines (panic, s) h = refl

-- `parse` panics on every block, in which no function has been named yet, that holds the keyword
-- `func` followed by a parenthesis (a function literal or a method) as its first `func`, if the tokens
-- in front of it are read without an error.
pub parse_literal :
    (t : Tools) (b : Block) (pre : List Token) (k j : Token) (ks : List Token) (u : State)
    → b.fnames ≡ []
    → t.scan b.content ≡ pre ++ k ∷ j ∷ ks
    → All (λ (i : Token). i.tok ≢ kw_func) pre
    → run t (split b.content (ascii "\n")) pre (start b) ≡ done u
    → k.tok ≡ kw_func
    → j.tok ≡ lparen
    → (parse t b).0 ≡ panic
unfolding parse start
parse_literal t b pre k j ks u e sc n r f p =
    let lines = split b.content (ascii "\n") in
    finish-eq-panic lines _ (
      ap (λ l. (run t lines l (start b)).0) sc
      ∙ run_prefix t lines pre k j ks (start b) u n r f p
          (record { unnamed = e; closed = refl; not_func = refl }))
