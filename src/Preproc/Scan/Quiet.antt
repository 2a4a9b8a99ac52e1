-- ===== src/Preproc/Scan/Quiet.antt =====
-- internal/preproc/preproc.go: the handlers of `Parse` that list no name of another block.
use noted_runner.Prelude.{ℕ, ◌≡◌, refl, List, arith, Text, Outcome, ok, err, panic, ◌∙◌}
use noted_runner.Preproc.Tools.{Token, Tools}
use noted_runner.Preproc.Block.{var_decl, func_body}
use noted_runner.Preproc.Block.Mark.{reused_vars-mark, reused_funcs-mark}
use noted_runner.Preproc.Scan.{
  Candidate, State, done, name_var, signature_ident, type_ident, declared_ident, extend_signature,
  on_punctuation, mark_candidates, define_types, define_line, mark_body,
}
use noted_runner.Preproc.Scan.Rules.{mark_candidates_inv, if_inv}
use noted_runner.Preproc.Scan.Mentions.{Due}

abbrev pub due_of : State → Due
due_of s = record { func = s.last_was_func_keyword; type_name = s.last_was_type_keyword }

-- What a handler leaves alone.
pub record IsQuiet (s u : State) : Type 0 where
  pub due : due_of u ≡ due_of s
  pub reused_vars : u.block.reused_vars ≡ s.block.reused_vars
  pub reused_funcs : u.block.reused_funcs ≡ s.block.reused_funcs

pub IsQuiet-refl : (s : State) → IsQuiet s s
IsQuiet-refl s = record { due = refl; reused_vars = refl; reused_funcs = refl }

pub IsQuiet-trans : (s u v : State) → IsQuiet s u → IsQuiet u v → IsQuiet s v
IsQuiet-trans s u v h k = record {
  due = k.due ∙ h.due;
  reused_vars = k.reused_vars ∙ h.reused_vars;
  reused_funcs = k.reused_funcs ∙ h.reused_funcs;
}

module _ (s : State) where
  pub IsQuiet-extend : (text : Text) → IsQuiet s (extend_signature text s).1
  unfolding extend_signature
  IsQuiet-extend text = ground arith

  pub IsQuiet-signature : (k : Token) → IsQuiet s (signature_ident k s).1
  unfolding signature_ident
  IsQuiet-signature k =
      if_inv (IsQuiet s) _ (extend_signature k.lit s) (done s) (IsQuiet-extend k.lit)
        (IsQuiet-refl s)

  pub IsQuiet-punctuation : (text : Text) → IsQuiet s (on_punctuation text s).1
  unfolding on_punctuation
  IsQuiet-punctuation text =
      if_inv (IsQuiet s) _ (extend_signature text s) (done s) (IsQuiet-extend text) (IsQuiet-refl s)

  pub IsQuiet-type : (k : Token) → IsQuiet s (type_ident k s).1
  unfolding type_ident
  IsQuiet-type k = ground arith

  pub IsQuiet-declared : (k : Token) → IsQuiet s (declared_ident k s).1
  unfolding declared_ident name_var
  IsQuiet-declared k =
      ground
        (arith, reused_vars-mark k.line var_decl s.block, reused_funcs-mark k.line var_decl s.block)

  pub IsQuiet-body : (k : Token) → IsQuiet s (mark_body k s)
  unfolding mark_body
  IsQuiet-body k =
      ground (
        arith,
        reused_vars-mark k.line func_body s.block,
        reused_funcs-mark k.line func_body s.block,
      )

  pub IsQuiet-marks :
      (lines : List Text) (line : ℕ) (cs : List Candidate) (total : Text)
      → IsQuiet s (mark_candidates lines line cs total s).1
  IsQuiet-marks lines line cs total =
      mark_candidates_inv (IsQuiet s) line lines cs total s
        (λ name u h. record {
          due = h.due;
          reused_vars = reused_vars-mark line var_decl u.block ∙ h.reused_vars;
          reused_funcs = reused_funcs-mark line var_decl u.block ∙ h.reused_funcs;
        })
        (IsQuiet-refl s)

  pub IsQuiet-line :
      (t : Tools) (m : Outcome Text × State) → IsQuiet s m.1 → IsQuiet s (define_line t m).1
  unfolding define_line define_types
  IsQuiet-line t (ok total, u) h = ground arith
  IsQuiet-line t (err e, u) h = h
  IsQuiet-line t (panic, u) h = h
