-- ===== src/Preproc/Scan/Lists.antt =====
-- internal/preproc/preproc.go: which names one round of the loop of `Parse` lists as used.
use noted_runner.Prelude.{
  ◌≡◌, refl, Bool, true, false, ◌&&◌, ◌||◌, List, [], ◌∷◌, ◌++◌, arith, Text, ◌∙◌, ascii, contains,
  contains-concat, has_key, text_eq, text_eq_iff, if◌then◌else◌, ap, sym,
}
use noted_runner.Preproc.Tools.{
  Tok, kw_func, kw_type, kw_var, ident, define, semicolon, comma, lbrace, rbrace, lparen, rparen,
  unlisted, Token, Tools,
}
use noted_runner.Preproc.Block.{KernelTypes, func_body, func_name}
use noted_runner.Preproc.Block.Mark.{reused_vars-mark, reused_funcs-mark, types-mark}
use noted_runner.Preproc.Scan.{
  State, Result, ◌then◌, name_func, name_type, signature_ident, type_ident, declared_ident,
  reused_ident, on_ident, mark_candidates, on_define, on_lbrace, on_rbrace, dispatch, mark_body,
  step,
}
use noted_runner.Preproc.Scan.Rules.{
  then_inv, OnSuccess, OnSuccess-then, OnSuccess-always, OnSuccess-if, OnSuccess-map,
}
use noted_runner.Preproc.Scan.Known.{
  Extends, Extends-refl, Grows-signature, Grows-type, Grows-declared,
}
use noted_runner.Preproc.Scan.Mentions.{no_due, due_after, is_mention}
use noted_runner.Preproc.Scan.Quiet.{
  due_of, IsQuiet, IsQuiet-trans, IsQuiet-signature, IsQuiet-punctuation, IsQuiet-type,
  IsQuiet-declared, IsQuiet-body, IsQuiet-marks, IsQuiet-line,
}

types-body : (k : Token) (s : State) → (mark_body k s).block.types ≡ s.block.types
unfolding mark_body
types-body k s = ground (arith, types-mark k.line func_body s.block)

contains-add :
    (x lit : Text) (found : Bool) (xs : List Text)
    → contains x (if found then xs ++ lit ∷ [] else xs)
      ≡ (contains x xs || (found && text_eq lit x))
unfolding contains
contains-add x lit found xs = ground (arith, contains-concat x lit xs)

-- One round with the token: whether a name is due behind it, and that a name that is known is listed as
-- used from then on if the token mentions it.
pub record Lists (x : Text) (k : Token) (s u : State) : Type 0 where
  pub due : due_of u ≡ due_after k.tok (due_of s)
  pub vars :
      has_key x s.block.types.vars ≡ true
      → contains x u.block.reused_vars
        ≡ (contains x s.block.reused_vars || is_mention x k.tok k.lit (due_of s))
  pub funcs :
      has_key x s.block.types.funcs ≡ true
      → contains x u.block.reused_funcs
        ≡ (contains x s.block.reused_funcs || is_mention x k.tok k.lit (due_of s))

module _ (x : Text) (k : Token) (s : State) where
  -- a token that mentions nothing
  Lists-quiet :
      (u : State)
      → is_mention x k.tok k.lit (due_of s) ≡ false
      → due_of u ≡ due_after k.tok (due_of s)
      → u.block.reused_vars ≡ s.block.reused_vars
      → u.block.reused_funcs ≡ s.block.reused_funcs
      → Lists x k s u
  Lists-quiet u m d v f = record { due = d; vars = λ h. ground arith; funcs = λ h. ground arith }

  Lists-same :
      (u : State)
      → is_mention x k.tok k.lit (due_of s) ≡ false
      → due_after k.tok (due_of s) ≡ due_of s
      → IsQuiet s u
      → Lists x k s u
  Lists-same u m d q = Lists-quiet u m (q.due ∙ sym d) q.reused_vars q.reused_funcs

  Lists-reused :
      (u : State)
      → k.tok ≡ ident
      → due_of s ≡ no_due
      → IsQuiet s u
      → Extends s.block.types u.block.types
      → OnSuccess (Lists x k s) (reused_ident k u)
  unfolding reused_ident
  Lists-reused u e d q g = rw e record {
    due = ground (arith, q.due);
    vars = λ h. ground (
      arith,
      contains-add x k.lit (has_key k.lit u.block.types.vars) u.block.reused_vars,
      text_eq_iff k.lit x,
      g.vars x h,
    );
    funcs = λ h. ground (
      arith,
      contains-add x k.lit (has_key k.lit u.block.types.funcs) u.block.reused_funcs,
      text_eq_iff k.lit x,
      g.funcs x h,
    );
  }

  Lists-named_func : k.tok ≡ ident → s.last_was_func_keyword ≡ true → Lists x k s (name_func k s)
  unfolding name_func
  Lists-named_func e f =
      Lists-quiet (name_func k s) (ground (arith, e, f)) (ground (arith, e, f))
        (reused_vars-mark k.line func_name s.block) (reused_funcs-mark k.line func_name s.block)

  Lists-named_type :
      k.tok ≡ ident
      → s.last_was_func_keyword ≡ false
      → s.last_was_type_keyword ≡ true
      → Lists x k s (name_type k s)
  unfolding name_type
  Lists-named_type e f n =
      Lists-quiet (name_type k s) (ground (arith, e, f, n)) (ground (arith, e, f, n)) refl refl

  -- what the parts of the case of an identifier in front of the last one keep
  abbrev Before : State → Type 0
  Before u = IsQuiet s u × Extends s.block.types u.block.types

  Before-then :
      (r : Result) (f : State → Result)
      → ((u : State) → IsQuiet u (f u).1)
      → ((u : State)
          → Extends s.block.types u.block.types
          → Extends s.block.types (f u).1.block.types)
      → Before r.1
      → Before (r then f).1
  Before-then r f q g h =
      then_inv Before r f h (λ u b. (IsQuiet-trans s u (f u).1 b.0 (q u), g u b.1))

  Before-declared : Before ((signature_ident k s then type_ident k) then declared_ident k).1
  Before-declared =
      Before-then (signature_ident k s then type_ident k) (declared_ident k)
        (λ u. IsQuiet-declared u k) (Grows-declared s.block.types k)
        (Before-then (signature_ident k s) (type_ident k) (λ u. IsQuiet-type u k)
          (Grows-type s.block.types k)
          (IsQuiet-signature s k, Grows-signature s.block.types k s (Extends-refl s.block.types)))

  Lists-ident : k.tok ≡ ident → OnSuccess (Lists x k s) (on_ident k s)
  unfolding on_ident
  Lists-ident e = OnSuccess-if (Lists x k s) s.last_was_func_keyword _ _ (Lists-named_func e) λ f.
      OnSuccess-if (Lists x k s) s.last_was_type_keyword _ _ (Lists-named_type e f) λ n.
        OnSuccess-then (Lists x k s) Before
          ((signature_ident k s then type_ident k) then declared_ident k) (reused_ident k)
          (OnSuccess-always Before _ Before-declared)
          λ u b. Lists-reused u e (ground (arith, f, n)) b.0 b.1

  Lists-dispatch :
      (t : Tools) (lines : List Text) (tok : Tok)
      → k.tok ≡ tok
      → OnSuccess (Lists x k s) (dispatch t lines tok k s)
  unfolding dispatch on_define on_lbrace on_rbrace
  Lists-dispatch t lines ident e = Lists-ident e
  Lists-dispatch t lines define e = OnSuccess-always (Lists x k s) (on_define t lines k.line s) (
      Lists-same _ (rw e) (rw e) (
        IsQuiet-line s t (mark_candidates lines k.line s.pending_candidates [] s)
          (IsQuiet-marks s lines k.line s.pending_candidates [])))
  Lists-dispatch t lines lparen e =
      OnSuccess-always (Lists x k s) _
        (Lists-same _ (rw e) (rw e) (IsQuiet-punctuation s (ascii "(")))
  Lists-dispatch t lines rparen e =
      OnSuccess-always (Lists x k s) _
        (Lists-same _ (rw e) (rw e) (IsQuiet-punctuation s (ascii ")")))
  Lists-dispatch t lines comma e =
      OnSuccess-always (Lists x k s) _
        (Lists-same _ (rw e) (rw e) (IsQuiet-punctuation s (ascii ",")))
  Lists-dispatch t lines kw_func e = Lists-quiet _ (rw e) (rw e) refl refl
  Lists-dispatch t lines kw_type e = Lists-quiet _ (rw e) (rw e) refl refl
  Lists-dispatch t lines semicolon e = Lists-quiet _ (rw e) (rw e) refl refl
  Lists-dispatch t lines kw_var e = Lists-quiet _ (rw e) (rw e) refl refl
  Lists-dispatch t lines lbrace e = Lists-quiet _ (rw e) (rw e) refl refl
  Lists-dispatch t lines rbrace e = Lists-quiet _ (rw e) (rw e) refl refl
  Lists-dispatch t lines unlisted e = Lists-quiet _ (rw e) (rw e) refl refl

pub step-Lists :
    (x : Text) (k : Token) (s : State) (t : Tools) (lines : List Text)
    → OnSuccess (Lists x k s) (step t lines k s)
unfolding step
step-Lists x k s t lines =
    OnSuccess-map (Lists x k (mark_body k s)) (Lists x k s)
      (dispatch t lines k.tok k (mark_body k s))
      (λ u l. record {
        due = l.due ∙ ap (due_after k.tok) (IsQuiet-body s k).due;
        vars = λ h. ground (
          arith,
          ap (is_mention x k.tok k.lit) (IsQuiet-body s k).due,
          (IsQuiet-body s k).reused_vars,
          l.vars (ap (λ (ts : KernelTypes). has_key x ts.vars) (types-body k s) ∙ h),
        );
        funcs = λ h. ground (
          arith,
          ap (is_mention x k.tok k.lit) (IsQuiet-body s k).due,
          (IsQuiet-body s k).reused_funcs,
          l.funcs (ap (λ (ts : KernelTypes). has_key x ts.funcs) (types-body k s) ∙ h),
        );
      })
      (Lists-dispatch x k (mark_body k s) t lines k.tok refl)
