-- ===== src/Preproc/Scan/Stored.antt =====
-- internal/preproc/preproc.go: what a block declares without `var` is known to the later blocks.
use noted_runner.Prelude.{
  ℕ, ◌≡◌, refl, ap, ◌∙◌, sym, subst, Bool, true, false, ◌||◌, Option, none, some, List, [], ◌∷◌,
  ◌++◌, arith, Text, Outcome, ascii, ok, err, panic, or_panic, All, contains, contains-concat,
  has_key, text_eq, text_eq→eq, if◌then◌else◌, insert, lookup-insert, ◌⊎◌, inl, inr, Bool-cases,
  get_last?, lookup_or_nil,
}
use noted_runner.Strings.{split}
use noted_runner.Preproc.Tools.{
  Tok, kw_var, ident, define, semicolon, comma, lparen, rparen, Token, Tools,
}
use noted_runner.Preproc.Block.{Block, mark, var_decl, func_body, func_name}
use noted_runner.Preproc.Block.Mark.{types-mark, vnames-mark, fnames-mark}
use noted_runner.Preproc.Scan.Define.{IsOther, IsDefined, on_define-IsDefined}
use noted_runner.Preproc.Scan.Finish.{finish-ok}
use noted_runner.Preproc.Scan.Rules.{
  OnSuccess, OnSuccess-always, OnSuccess-equation, OnSuccess-then, on_ident_inv, if_inv,
  if_state_inv, after_piece, mark_candidates_inv, marked,
}
use noted_runner.Preproc.Scan.{
  Candidate, State, Result, done, start, on_punctuation, name_func, signature_ident, type_ident,
  set_func, declared_ident, reused_ident, name_type, on_ident, extend_signature, on_lbrace,
  on_rbrace, on_define, define_line, define_types, mark_candidates, line_at, dispatch, mark_body,
  step, run, parse,
}

-- a token other than the keyword `var`
abbrev pub is_var : Tok → Bool
is_var kw_var = true
is_var _ = false

abbrev pub NoVar : List Token → Type 0
NoVar ks = All (λ (k : Token). is_var k.tok ≡ false) ks

-- A name is that of a candidate, or of none of them.
candidate-cases :
    (x : Text) (cs : List Candidate)
    → IsOther x cs ⊎ ((P : Text → Type 0) → All (λ (c : Candidate). P c.name) cs → P x)
candidate-cases x [] = inl tt
candidate-cases x (c ∷ cs) = elim (Bool-cases (text_eq c.name x)) [
  | inl same ↦ inr (λ P h. subst P (text_eq→eq c.name x same) h.0)
  | inr other ↦ elim (candidate-cases x cs) [
    | inl others ↦ inl (other, others)
    | inr found ↦ inr (λ P h. found P h.1)
  ]
]

module _ (x : Text) where
  -- Outside a declaration by `var`; the name is known if the block declares it.
  record IsStored (s : State) : Type 0 where
    outside : s.in_var_decl ≡ false
    vars : contains x s.block.vnames ≡ true → has_key x s.block.types.vars ≡ true
    funcs : contains x s.block.fnames ≡ true → has_key x s.block.types.funcs ≡ true

  has_key-insert :
      (k v : Text) (m : List (Text × Text))
      → has_key x (insert k v m) ≡ (text_eq k x || has_key x m)
  unfolding has_key
  has_key-insert k v m = ground (arith, lookup-insert k x v m)

  IsStored-extend : (text : Text) (s : State) → IsStored s → IsStored (extend_signature text s).1
  unfolding extend_signature
  IsStored-extend text s h = extended (get_last? s.block.fnames)
    where
      extended :
          (o : Option Text)
          → IsStored
              (elim o as (λ _. Result) [
                | none ↦ (panic, s)
                | some f ↦ done (set_func f (lookup_or_nil f s.block.types.funcs ++ text) s)
              ]).1
      extended none = h
      extended (some f) = record {
        outside = h.outside;
        vars = h.vars;
        funcs = λ e. ground (
          arith,
          h.funcs e,
          has_key-insert f (lookup_or_nil f s.block.types.funcs ++ text) s.block.types.funcs,
        );
      }

  IsStored-punctuation : (text : Text) (s : State) → IsStored s → IsStored (on_punctuation text s).1
  unfolding on_punctuation
  IsStored-punctuation text s h =
      if_inv IsStored s.func_signature_open (extend_signature text s) (done s)
        (IsStored-extend text s h) h

  IsStored-name_func : (k : Token) (s : State) → IsStored s → IsStored (name_func k s)
  unfolding name_func
  IsStored-name_func k s h = record {
    outside = h.outside;
    vars = λ e.
        ap (λ ts. has_key x ts.vars) (types-mark k.line func_name s.block)
        ∙ h.vars (sym (ap (contains x) (vnames-mark k.line func_name s.block)) ∙ e);
    funcs = λ e. ground (
      arith,
      e,
      ap (λ ts. has_key x ts.funcs) (types-mark k.line func_name s.block),
      ap (contains x) (fnames-mark k.line func_name s.block),
      contains-concat x k.lit (mark k.line func_name s.block).1.fnames,
      has_key-insert k.lit (ascii "func") (mark k.line func_name s.block).1.types.funcs,
      h.funcs,
    );
  }

  IsStored-declared : (k : Token) (s : State) → IsStored s → IsStored (declared_ident k s).1
  unfolding declared_ident
  IsStored-declared k s h = rw h.outside (record { outside = refl; vars = h.vars; funcs = h.funcs })

  IsStored-ident : (k : Token) (s : State) → IsStored s → IsStored (on_ident k s).1
  unfolding name_type signature_ident type_ident reused_ident
  IsStored-ident k s h =
      on_ident_inv IsStored k s (λ e. IsStored-name_func k s h)
        (record { outside = h.outside; vars = h.vars; funcs = h.funcs })
        (if_inv IsStored _ (extend_signature k.lit s) (done s) (IsStored-extend k.lit s h) h)
        (λ u g.
          if_state_inv IsStored u.inside_type _ u
            (record { outside = g.outside; vars = g.vars; funcs = g.funcs }) g)
        (IsStored-declared k)
        (λ u g. record { outside = g.outside; vars = g.vars; funcs = g.funcs })

  -- Names that are not candidates are declared behind the marks of `:=` when they were before.
  vnames_others :
      (lines : List Text) (line : ℕ) (cs : List Candidate) (total : Text) (s : State)
      → IsOther x cs
      → contains x (mark_candidates lines line cs total s).1.block.vnames
        ≡ contains x s.block.vnames
  unfolding mark_candidates
  vnames_others lines line [] total s o = refl
  vnames_others lines line (c ∷ cs) total s o =
      let m = mark line var_decl s.block in
      let added =
        contains-concat x c.name m.1.vnames
        ∙ ground (arith, o.0, ap (contains x) (vnames-mark line var_decl s.block)) in
      after_piece (λ u. contains x u.block.vnames ≡ contains x s.block.vnames) line
        (if m.0 then or_panic (line_at lines c.line) else ok [])
        (λ p. mark_candidates lines line cs (total ++ p) (marked line c.name s))
        (marked line c.name s) added
        λ p. vnames_others lines line cs (total ++ p) (marked line c.name s) o.1 ∙ added

  -- what the last part of `:=` leaves alone, and its marks but for the variables
  record SameScope (s u : State) : Type 0 where
    outside : u.in_var_decl ≡ s.in_var_decl
    fnames : u.block.fnames ≡ s.block.fnames

  SameScope-line : (t : Tools) (m : Outcome Text × State) → SameScope m.1 (define_line t m).1
  unfolding define_line define_types
  SameScope-line t (ok total, s) = ground arith
  SameScope-line t (err e, s) = record { outside = refl; fnames = refl }
  SameScope-line t (panic, s) = record { outside = refl; fnames = refl }

  vnames-line :
      (t : Tools) (m : Outcome Text × State) → (define_line t m).1.block.vnames ≡ m.1.block.vnames
  unfolding define_line define_types
  vnames-line t (ok total, s) = ground arith
  vnames-line t (err e, s) = refl
  vnames-line t (panic, s) = refl

  SameScope-marks :
      (lines : List Text) (line : ℕ) (cs : List Candidate) (total : Text) (s : State)
      → SameScope s (mark_candidates lines line cs total s).1
  SameScope-marks lines line cs total s =
      mark_candidates_inv (SameScope s) line lines cs total s
        (λ name u h. record {
          outside = h.outside;
          fnames = fnames-mark line var_decl u.block ∙ h.fnames;
        })
        (record { outside = refl; fnames = refl })

  IsStored-defined :
      (s u : State)
      → IsDefined s u
      → SameScope s u
      → (IsOther x s.pending_candidates → contains x u.block.vnames ≡ contains x s.block.vnames)
      → IsStored s
      → IsStored u
  unfolding has_key
  IsStored-defined s u d c v h = record {
    outside = c.outside ∙ h.outside;
    vars = λ e. elim (candidate-cases x s.pending_candidates) [
      | inl others ↦
          ap (λ o. elim o as (λ _. Bool) [ none ↦ false | some w ↦ true ]) (d.frame x others)
          ∙ h.vars (sym (v others) ∙ e)
      | inr found ↦ found (λ n. has_key n u.block.types.vars ≡ true) d.known
    ];
    funcs = λ e. ap (has_key x) d.same_funcs ∙ h.funcs (sym (ap (contains x) c.fnames) ∙ e);
  }

  IsStored-define :
      (t : Tools) (lines : List Text) (line : ℕ) (s : State)
      → IsStored s
      → OnSuccess IsStored (on_define t lines line s)
  unfolding on_define
  IsStored-define t lines line s h =
      let m = mark_candidates lines line s.pending_candidates [] s in
      let c = SameScope-marks lines line s.pending_candidates [] s in
      let l = SameScope-line t m in
      OnSuccess-equation IsStored (define_line t m) λ u e.
        IsStored-defined s u (on_define-IsDefined t lines line s u e)
          (subst (SameScope s) (ap (λ r. r.1) e)
            (record { outside = l.outside ∙ c.outside; fnames = l.fnames ∙ c.fnames }))
          (λ o.
            ap (λ r. contains x r.1.block.vnames) (sym e)
            ∙ (ap (contains x) (vnames-line t m)
                ∙ vnames_others lines line s.pending_candidates [] s o))
          h

  IsStored-dispatch :
      (t : Tools) (lines : List Text) (tok : Tok) (k : Token) (s : State)
      → is_var tok ≡ false
      → IsStored s
      → OnSuccess IsStored (dispatch t lines tok k s)
  unfolding dispatch on_lbrace on_rbrace
  IsStored-dispatch t lines ident k s e h = OnSuccess-always IsStored _ (IsStored-ident k s h)
  IsStored-dispatch t lines define k s e h = IsStored-define t lines k.line s h
  IsStored-dispatch t lines kw_var k s e h = cc
  IsStored-dispatch t lines lparen k s e h =
      OnSuccess-always IsStored _ (IsStored-punctuation (ascii "(") s h)
  IsStored-dispatch t lines rparen k s e h =
      OnSuccess-always IsStored _ (IsStored-punctuation (ascii ")") s h)
  IsStored-dispatch t lines comma k s e h =
      OnSuccess-always IsStored _ (IsStored-punctuation (ascii ",") s h)
  IsStored-dispatch t lines semicolon k s e h = record {
    outside = refl;
    vars = h.vars;
    funcs = h.funcs;
  }
  IsStored-dispatch t lines _ k s e h = record {
    outside = h.outside;
    vars = h.vars;
    funcs = h.funcs;
  }

  IsStored-body : (k : Token) (s : State) → IsStored s → IsStored (mark_body k s)
  unfolding mark_body
  IsStored-body k s h = ground (
    arith,
    h.vars,
    h.funcs,
    h.outside,
    types-mark k.line func_body s.block,
    fnames-mark k.line func_body s.block,
    vnames-mark k.line func_body s.block,
  )

  run-IsStored :
      (t : Tools) (lines : List Text) (ks : List Token) (s : State)
      → NoVar ks
      → IsStored s
      → OnSuccess IsStored (run t lines ks s)
  unfolding run step
  run-IsStored t lines [] s n h = h
  run-IsStored t lines (k ∷ ks) s n h =
      OnSuccess-then IsStored IsStored (step t lines k s) (run t lines ks)
        (IsStored-dispatch t lines k.tok k (mark_body k s) n.0 (IsStored-body k s h))
        λ u g. run-IsStored t lines ks u n.1 g

-- When a block without the keyword `var` that has no names yet is read without an error, every
-- variable and every function that it declares is known to the kernel from then on.
pub parse_stored :
    (t : Tools) (b c : Block) (x : Text)
    → parse t b ≡ (ok tt, c)
    → NoVar (t.scan b.content)
    → b.vnames ≡ []
    → b.fnames ≡ []
    → (contains x c.vnames ≡ true → has_key x c.types.vars ≡ true)
      × (contains x c.fnames ≡ true → has_key x c.types.funcs ≡ true)
unfolding parse start contains
parse_stored t b c x e n v f =
    let lines = split b.content (ascii "\n") in
    let fresh : IsStored x (start b) = record { outside = refl; vars = λ m. cc; funcs = λ m. cc } in
    let (s, u, same) =
      finish-ok (IsStored x) lines (run t lines (t.scan b.content) (start b)) c
        (run-IsStored x t lines (t.scan b.content) (start b) n fresh) e in
    (
      λ m. ap (λ ts. has_key x ts.vars) same.types ∙ u.vars (sym (ap (contains x) same.vnames) ∙ m),
      λ m.
          ap (λ ts. has_key x ts.funcs) same.types
          ∙ u.funcs (sym (ap (contains x) same.fnames) ∙ m),
    )
