-- ===== src/Preproc/Scan/Untouched.antt =====
-- `Parse` changes the recorded type of no name that the block does not declare.
use noted_runner.Prelude.{
  ℕ, ◌≡◌, refl, true, false, Option, none, some, List, [], ◌∷◌, ◌++◌, arith, Text, Outcome, ok, err,
  panic, ascii, lookup, lookup-insert, contains, contains-concat, text_eq, ◌∙◌, sym, subst, length,
  ◌==◌, get_last?, lookup_or_nil, ap, Bool-cases, inl, inr,
}
use noted_runner.Preproc.Tools.{Tok, ident, define, comma, lparen, rparen, Token, Tools}
use noted_runner.Preproc.Block.{KernelTypes, Block, mark, var_decl, func_body, func_name}
use noted_runner.Preproc.Block.Mark.{types-mark, fnames-mark, vnames-mark}
use noted_runner.Preproc.Scan.Rules.{
  mark_candidates_inv, on_ident_inv, then_inv, if_inv, if_state_inv, if_block, marked,
}
use noted_runner.Preproc.Scan.Define.{IsOther, lookup-assign_ne}
use noted_runner.Preproc.Scan.{
  Candidate, State, Result, done, on_punctuation, name_func, signature_ident, type_ident,
  declared_ident, name_var, reused_ident, name_type, on_ident, extend_signature, set_func,
  mark_candidates, define_types, define_line, on_define, on_lbrace, on_rbrace, dispatch, mark_body,
  step, run,
}

contains-get_last? :
    (x f : Text) (xs : List Text)
    → contains x xs ≡ false
    → get_last? xs ≡ some f
    → text_eq f x ≡ false
unfolding contains
contains-get_last? x f [] h e = cc
contains-get_last? x f (y ∷ []) h e = ground arith
contains-get_last? x f (y ∷ z ∷ xs) h e =
    contains-get_last? x f (z ∷ xs) (unfold contains in ground arith) e

module _ (x : Text) (old : KernelTypes) where
  -- The type of the name is the old one as long as the block has not declared the name.
  pub record Untouched (s : State) : Type 0 where
    pub vars : contains x s.block.vnames ≡ false → lookup x s.block.types.vars ≡ lookup x old.vars
    pub funcs :
        contains x s.block.fnames ≡ false → lookup x s.block.types.funcs ≡ lookup x old.funcs

  Untouched-extend : (text : Text) (s : State) → Untouched s → Untouched (extend_signature text s).1
  unfolding extend_signature
  Untouched-extend text s h = extended (get_last? s.block.fnames) refl
    where
      extended :
          (o : Option Text)
          → get_last? s.block.fnames ≡ o
          → Untouched
              (elim o as (λ _. Result) [
                | none ↦ (panic, s)
                | some f ↦ done (set_func f (lookup_or_nil f s.block.types.funcs ++ text) s)
              ]).1
      extended none e = h
      extended (some f) e = record {
        vars = h.vars;
        funcs = λ n.
            lookup-insert f x (lookup_or_nil f s.block.types.funcs ++ text) s.block.types.funcs
            ∙ ground (arith, contains-get_last? x f s.block.fnames n e, h.funcs n);
      }

  Untouched-punctuation :
      (text : Text) (s : State) → Untouched s → Untouched (on_punctuation text s).1
  unfolding on_punctuation
  Untouched-punctuation text s h =
      if_inv Untouched s.func_signature_open (extend_signature text s) (done s)
        (Untouched-extend text s h) h

  Untouched-name_func : (k : Token) (s : State) → Untouched s → Untouched (name_func k s)
  unfolding name_func
  Untouched-name_func k s h = record {
    vars = λ n.
        ap (λ ts. lookup x ts.vars) (types-mark k.line func_name s.block)
        ∙ h.vars (sym (ap (contains x) (vnames-mark k.line func_name s.block)) ∙ n);
    funcs = λ n. ground (
      arith,
      n,
      ap (λ ts. lookup x ts.funcs) (types-mark k.line func_name s.block),
      ap (contains x) (fnames-mark k.line func_name s.block),
      contains-concat x k.lit (mark k.line func_name s.block).1.fnames,
      lookup-insert k.lit x (ascii "func") (mark k.line func_name s.block).1.types.funcs,
      h.funcs,
    );
  }

  -- a name that is added to the variables of the block
  Untouched-by :
      (b c : Block) (s : State)
      → c.types ≡ b.types
      → c.fnames ≡ b.fnames
      → (contains x c.vnames ≡ false → contains x b.vnames ≡ false)
      → Untouched (record s { block = b })
      → Untouched (record s { block = c })
  Untouched-by b c s t f v h = record {
    vars = λ n. ap (λ ts. lookup x ts.vars) t ∙ h.vars (v n);
    funcs = λ n. ap (λ ts. lookup x ts.funcs) t ∙ h.funcs (sym (ap (contains x) f) ∙ n);
  }

  Untouched-marked :
      (line : ℕ) (name : Text) (s : State) → Untouched s → Untouched (marked line name s)
  Untouched-marked line name s h =
      Untouched-by s.block (marked line name s).block s (types-mark line var_decl s.block)
        (fnames-mark line var_decl s.block)
        (λ n. ground (
          arith,
          n,
          contains-concat x name (mark line var_decl s.block).1.vnames,
          ap (contains x) (vnames-mark line var_decl s.block),
        ))
        h

  Untouched-declared : (k : Token) (s : State) → Untouched s → Untouched (declared_ident k s).1
  unfolding declared_ident name_var
  Untouched-declared k s h =
      if_state_inv Untouched s.in_var_decl
        (record s { block = name_var k.lit (mark k.line var_decl s.block) }) _ named
        (record { vars = h.vars; funcs = h.funcs })
    where
      unnamed : Untouched (record s { block = (mark k.line var_decl s.block).1 })
      unnamed =
          Untouched-by s.block (mark k.line var_decl s.block).1 s
            (types-mark k.line var_decl s.block) (fnames-mark k.line var_decl s.block)
            (λ n. sym (ap (contains x) (vnames-mark k.line var_decl s.block)) ∙ n) h

      named : Untouched (record s { block = name_var k.lit (mark k.line var_decl s.block) })
      named =
          if_block (λ b. Untouched (record s { block = b })) (mark k.line var_decl s.block).0 _ _
            (Untouched-marked k.line k.lit s h) unnamed

  Untouched-ident : (k : Token) (s : State) → Untouched s → Untouched (on_ident k s).1
  unfolding name_type signature_ident type_ident reused_ident
  Untouched-ident k s h =
      on_ident_inv Untouched k s (λ e. Untouched-name_func k s h)
        (record { vars = h.vars; funcs = h.funcs })
        (if_inv Untouched _ (extend_signature k.lit s) (done s) (Untouched-extend k.lit s h) h)
        (λ u g.
          if_state_inv Untouched u.inside_type _ u (record { vars = g.vars; funcs = g.funcs }) g)
        (Untouched-declared k) (λ u g. record { vars = g.vars; funcs = g.funcs })

  Untouched-marks :
      (lines : List Text) (line : ℕ) (cs : List Candidate) (total : Text) (s : State)
      → Untouched s
      → Untouched (mark_candidates lines line cs total s).1
  Untouched-marks lines line cs total s =
      mark_candidates_inv Untouched line lines cs total s (Untouched-marked line)

  Untouched-types :
      (total : Text) (r : Outcome (List Text)) (s : State)
      → Untouched s
      → (contains x s.block.vnames ≡ false → IsOther x s.pending_candidates)
      → Untouched (define_types total r s).1
  unfolding define_types
  Untouched-types total (ok tp) s h o =
      if_inv Untouched (length tp == length s.pending_candidates) _ _
        (record {
          vars =
              λ n. lookup-assign_ne x s.pending_candidates tp s.block.types.vars (o n) ∙ h.vars n;
          funcs = h.funcs;
        })
        h
  Untouched-types total (err e) s h o = h
  Untouched-types total panic s h o = h

  Untouched-line :
      (t : Tools) (m : Outcome Text × State)
      → Untouched m.1
      → ((total : Text)
          → m.0 ≡ ok total
          → contains x m.1.block.vnames ≡ false
          → IsOther x m.1.pending_candidates)
      → Untouched (define_line t m).1
  unfolding define_line
  Untouched-line t (ok total, s) h o = Untouched-types total _ s h (o total refl)
  Untouched-line t (err e, s) h o = h
  Untouched-line t (panic, s) h o = h

  declared_marks :
      (lines : List Text) (line : ℕ) (cs : List Candidate) (total : Text) (s : State)
      → contains x s.block.vnames ≡ true
      → contains x (mark_candidates lines line cs total s).1.block.vnames ≡ true
  declared_marks lines line cs total s =
      mark_candidates_inv (λ u. contains x u.block.vnames ≡ true) line lines cs total s
        λ name u h. ground (
          arith,
          h,
          contains-concat x name (mark line var_decl u.block).1.vnames,
          ap (contains x) (vnames-mark line var_decl u.block),
        )

  -- Where the marks of `:=` end, the names of the candidates are declared.
  others_cons :
      (lines : List Text) (line : ℕ) (c : Candidate) (cs : List Candidate) (total : Text)
      (s : State)
      → contains x (mark_candidates lines line cs total (marked line c.name s)).1.block.vnames
        ≡ false
      → text_eq c.name x ≡ false
  others_cons lines line c cs total s n = elim (Bool-cases (text_eq c.name x)) [
    | inl same ↦ cc (
        declared_marks lines line cs total (marked line c.name s)
          (contains-concat x c.name (mark line var_decl s.block).1.vnames ∙ ground (arith, same)))
    | inr other ↦ other
  ]

  others_piece :
      (G : Type 0) (m : Outcome Text) (f : Text → Outcome Text × State) (s : State) (p : Text)
      → ((piece : Text) → (f piece).0 ≡ ok p → contains x (f piece).1.block.vnames ≡ false → G)
      → (elim m as (λ _. Outcome Text × State) [
        | ok piece ↦ f piece
        | err e ↦ (err e, s)
        | panic ↦ (panic, s)
      ]).0
        ≡ ok p
      → contains x
          (elim m as (λ _. Outcome Text × State) [
            | ok piece ↦ f piece
            | err e ↦ (err e, s)
            | panic ↦ (panic, s)
          ]).1.block.vnames
        ≡ false
      → G
  others_piece G (ok piece) f s p k e n = k piece e n
  others_piece G (err q) f s p k e n = cc
  others_piece G panic f s p k e n = cc

  others_marks :
      (lines : List Text) (line : ℕ) (cs : List Candidate) (total : Text) (s : State) (p : Text)
      → (mark_candidates lines line cs total s).0 ≡ ok p
      → contains x (mark_candidates lines line cs total s).1.block.vnames ≡ false
      → IsOther x cs
  unfolding mark_candidates
  others_marks lines line [] total s p e n = tt
  others_marks lines line (c ∷ cs) total s p e n =
      others_piece (IsOther x (c ∷ cs)) _
        (λ piece. mark_candidates lines line cs (total ++ piece) (marked line c.name s))
        (marked line c.name s) p
        (λ piece e' n'. (
          others_cons lines line c cs (total ++ piece) s n',
          others_marks lines line cs (total ++ piece) (marked line c.name s) p e' n',
        ))
        e n

  pending_marks :
      (lines : List Text) (line : ℕ) (cs : List Candidate) (total : Text) (s : State)
      → (mark_candidates lines line cs total s).1.pending_candidates ≡ s.pending_candidates
  pending_marks lines line cs total s =
      mark_candidates_inv (λ u. u.pending_candidates ≡ s.pending_candidates) line lines cs total s
        (λ name u h. h) refl

  Untouched-define :
      (t : Tools) (lines : List Text) (line : ℕ) (s : State)
      → Untouched s
      → Untouched (on_define t lines line s).1
  unfolding on_define
  Untouched-define t lines line s h =
      Untouched-line t (mark_candidates lines line s.pending_candidates [] s)
        (Untouched-marks lines line s.pending_candidates [] s h)
        λ total e n.
          subst (IsOther x) (sym (pending_marks lines line s.pending_candidates [] s))
            (others_marks lines line s.pending_candidates [] s total e n)

  Untouched-dispatch :
      (t : Tools) (lines : List Text) (tok : Tok) (k : Token) (s : State)
      → Untouched s
      → Untouched (dispatch t lines tok k s).1
  unfolding dispatch on_lbrace on_rbrace
  Untouched-dispatch t lines ident k s h = Untouched-ident k s h
  Untouched-dispatch t lines define k s h = Untouched-define t lines k.line s h
  Untouched-dispatch t lines lparen k s h = Untouched-punctuation (ascii "(") s h
  Untouched-dispatch t lines rparen k s h = Untouched-punctuation (ascii ")") s h
  Untouched-dispatch t lines comma k s h = Untouched-punctuation (ascii ",") s h
  Untouched-dispatch t lines _ k s h = record { vars = h.vars; funcs = h.funcs }

  Untouched-body : (k : Token) (s : State) → Untouched s → Untouched (mark_body k s)
  unfolding mark_body
  Untouched-body k s h =
      if_state_inv Untouched s.inside_func _ s
        (Untouched-by s.block (mark k.line func_body s.block).1 s
          (types-mark k.line func_body s.block) (fnames-mark k.line func_body s.block)
          (λ n. sym (ap (contains x) (vnames-mark k.line func_body s.block)) ∙ n) h)
        h

  pub Untouched-run :
      (t : Tools) (lines : List Text) (ks : List Token) (s : State)
      → Untouched s
      → Untouched (run t lines ks s).1
  unfolding run step
  Untouched-run t lines [] s h = h
  Untouched-run t lines (k ∷ ks) s h =
      then_inv Untouched (step t lines k s) (run t lines ks)
        (Untouched-dispatch t lines k.tok k (mark_body k s) (Untouched-body k s h))
        λ u g. Untouched-run t lines ks u g
