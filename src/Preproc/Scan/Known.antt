-- ===== src/Preproc/Scan/Known.antt =====
-- What `Parse` knows of a kernel is never forgotten.
use noted_runner.Prelude.{
  ℕ, ◌+◌, ◌≡◌, refl, true, Option, none, some, List, [], ◌∷◌, ◌++◌, arith, Text, Outcome, ok, err,
  panic, ascii, insert, lookup-insert, has_key, ◌∙◌, length, ◌==◌, get_last?, lookup_or_nil,
}
use noted_runner.Strings.{split}
use noted_runner.Preproc.Tools.{Tok, ident, define, comma, lparen, rparen, Token, Tools}
use noted_runner.Preproc.Block.{KernelTypes, Block, mark, var_decl, func_body, func_name, other}
use noted_runner.Preproc.Block.Mark.{types-mark}
use noted_runner.Preproc.Scan.Rules.{
  mark_candidates_inv, on_ident_inv, then_inv, if_inv, if_state_inv,
}
use noted_runner.Preproc.Scan.{
  Candidate, State, Result, done, start, on_punctuation, name_func, signature_ident, type_ident,
  declared_ident, name_var, reused_ident, name_type, on_ident, extend_signature, set_func,
  mark_candidates, define_types, define_line, on_define, on_lbrace, on_rbrace, dispatch, mark_body,
  step, run, finish, parse, assign_types, mark_rest, mark_unmarked,
}

-- Every name with a type in the first map has one in the second.
abbrev pub Keeps : List (Text × Text) → List (Text × Text) → Type 0
Keeps m m' = (k : Text) → has_key k m ≡ true → has_key k m' ≡ true

-- The known functions, variables and types of a kernel only grow.
pub record Extends (old new : KernelTypes) : Type 0 where
  pub funcs : Keeps old.funcs new.funcs
  pub vars : Keeps old.vars new.vars
  pub types : Keeps old.types new.types

pub Extends-refl : (ts : KernelTypes) → Extends ts ts
Extends-refl ts = record { funcs = λ k e. e; vars = λ k e. e; types = λ k e. e }

pub Keeps-insert :
    (old m : List (Text × Text)) (k v : Text) → Keeps old m → Keeps old (insert k v m)
unfolding has_key
Keeps-insert old m k v h j e = ground (arith, h j e, lookup-insert k j v m)

Keeps-assign :
    (old : List (Text × Text)) (cs : List Candidate) (ts : List Text) (m : List (Text × Text))
    → Keeps old m
    → Keeps old (assign_types cs ts m)
unfolding assign_types
Keeps-assign old [] ts m h = h
Keeps-assign old (c ∷ cs) [] m h = h
Keeps-assign old (c ∷ cs) (t ∷ ts) m h =
    Keeps-assign old cs ts (insert c.name t m) (Keeps-insert old m c.name t h)

types-name_var : (k : Token) (b : Block) → (name_var k.lit (mark k.line var_decl b)).types ≡ b.types
unfolding name_var
types-name_var k b = ground (arith, types-mark k.line var_decl b)

module _ (old : KernelTypes) where
  abbrev pub Grows : State → Type 0
  Grows s = Extends old s.block.types

  grows_types : {new new' : KernelTypes} → new' ≡ new → Extends old new → Extends old new'
  grows_types e h = rw e h

  grows_func :
      (k v : Text) (ts : KernelTypes)
      → Extends old ts
      → Extends old (record ts { funcs = insert k v ts.funcs })
  grows_func k v ts h = record {
    funcs = Keeps-insert old.funcs ts.funcs k v h.funcs;
    vars = h.vars;
    types = h.types;
  }

  grows_type :
      (k v : Text) (ts : KernelTypes)
      → Extends old ts
      → Extends old (record ts { types = insert k v ts.types })
  grows_type k v ts h = record {
    funcs = h.funcs;
    vars = h.vars;
    types = Keeps-insert old.types ts.types k v h.types;
  }

  Grows-extend : (text : Text) (s : State) → Grows s → Grows (extend_signature text s).1
  unfolding extend_signature
  Grows-extend text s h = grows_by (get_last? s.block.fnames)
    where
      grows_by :
          (o : Option Text)
          → Grows
              (elim o as (λ _. Result) [
                | none ↦ (panic, s)
                | some f ↦ done (set_func f (lookup_or_nil f s.block.types.funcs ++ text) s)
              ]).1
      grows_by none = h
      grows_by (some f) = grows_func f _ s.block.types h

  Grows-punctuation : (text : Text) (s : State) → Grows s → Grows (on_punctuation text s).1
  unfolding on_punctuation
  Grows-punctuation text s h =
      if_inv Grows s.func_signature_open (extend_signature text s) (done s) (Grows-extend text s h)
        h

  pub Grows-signature : (k : Token) (s : State) → Grows s → Grows (signature_ident k s).1
  unfolding signature_ident
  Grows-signature k s h =
      if_inv Grows _ (extend_signature k.lit s) (done s) (Grows-extend k.lit s h) h

  pub Grows-type : (k : Token) (s : State) → Grows s → Grows (type_ident k s).1
  unfolding type_ident
  Grows-type k s h = if_state_inv Grows s.inside_type _ s (grows_type _ _ s.block.types h) h

  pub Grows-declared : (k : Token) (s : State) → Grows s → Grows (declared_ident k s).1
  unfolding declared_ident
  Grows-declared k s h =
      if_state_inv Grows s.in_var_decl
        (record s { block = name_var k.lit (mark k.line var_decl s.block) })
        (record s {
          pending_candidates = s.pending_candidates ++ record { name = k.lit; line = k.line } ∷ [];
        })
        (grows_types (types-name_var k s.block) h) h

  Grows-ident : (k : Token) (s : State) → Grows s → Grows (on_ident k s).1
  unfolding name_func name_type reused_ident
  Grows-ident k s h =
      on_ident_inv Grows k s
        (λ e.
          grows_func k.lit (ascii "func") (mark k.line func_name s.block).1.types
            (grows_types (types-mark k.line func_name s.block) h))
        (grows_type k.lit _ s.block.types h) (Grows-signature k s h) (Grows-type k)
        (Grows-declared k) (λ u g. g)

  Grows-marks :
      (lines : List Text) (line : ℕ) (cs : List Candidate) (total : Text) (s : State)
      → Grows s
      → Grows (mark_candidates lines line cs total s).1
  Grows-marks lines line cs total s =
      mark_candidates_inv Grows line lines cs total s
        λ name u g. grows_types (types-mark line var_decl u.block) g

  Grows-define_types :
      (total : Text) (r : Outcome (List Text)) (s : State)
      → Grows s
      → Grows (define_types total r s).1
  unfolding define_types
  Grows-define_types total (ok tp) s h =
      if_inv Grows (length tp == length s.pending_candidates) _ _
        (record {
          funcs = h.funcs;
          vars = Keeps-assign old.vars s.pending_candidates tp s.block.types.vars h.vars;
          types = h.types;
        })
        h
  Grows-define_types total (err e) s h = h
  Grows-define_types total panic s h = h

  Grows-define : (t : Tools) (m : Outcome Text × State) → Grows m.1 → Grows (define_line t m).1
  unfolding define_line
  Grows-define t (ok total, s) h = Grows-define_types total _ s h
  Grows-define t (err e, s) h = h
  Grows-define t (panic, s) h = h

  Grows-dispatch :
      (t : Tools) (lines : List Text) (tok : Tok) (k : Token) (s : State)
      → Grows s
      → Grows (dispatch t lines tok k s).1
  unfolding dispatch on_define on_lbrace on_rbrace
  Grows-dispatch t lines ident k s h = Grows-ident k s h
  Grows-dispatch t lines define k s h =
      Grows-define t (mark_candidates lines k.line s.pending_candidates [] s)
        (Grows-marks lines k.line s.pending_candidates [] s h)
  Grows-dispatch t lines lparen k s h = Grows-punctuation (ascii "(") s h
  Grows-dispatch t lines rparen k s h = Grows-punctuation (ascii ")") s h
  Grows-dispatch t lines comma k s h = Grows-punctuation (ascii ",") s h
  Grows-dispatch t lines _ k s h = h

  pub Grows-step :
      (t : Tools) (lines : List Text) (k : Token) (s : State) → Grows s → Grows (step t lines k s).1
  unfolding step mark_body
  Grows-step t lines k s h =
      Grows-dispatch t lines k.tok k (mark_body k s) (
        if_state_inv Grows s.inside_func _ s (grows_types (types-mark k.line func_body s.block) h)
          h)

  Grows-run :
      (t : Tools) (lines : List Text) (ks : List Token) (s : State)
      → Grows s
      → Grows (run t lines ks s).1
  unfolding run
  Grows-run t lines [] s h = h
  Grows-run t lines (k ∷ ks) s h =
      then_inv Grows (step t lines k s) (run t lines ks) (Grows-step t lines k s h)
        (λ u g. Grows-run t lines ks u g)

types-mark_unmarked : (n : ℕ) (text : Text) (b : Block) → (mark_unmarked n text b).types ≡ b.types
unfolding mark_unmarked
types-mark_unmarked n text b = ground (arith, types-mark n other b)

types-mark_rest : (n : ℕ) (texts : List Text) (b : Block) → (mark_rest n texts b).types ≡ b.types
unfolding mark_rest
types-mark_rest n [] b = refl
types-mark_rest n (text ∷ texts) b =
    types-mark_rest (n + 1) texts (mark_unmarked n text b) ∙ types-mark_unmarked n text b

finish-types : (lines : List Text) (r : Result) → (finish lines r).1.types ≡ r.1.block.types
unfolding finish
finish-types lines (ok _, s) = types-mark_rest 1 lines s.block
finish-types lines (err e, s) = refl
finish-types lines (panic, s) = refl

-- Whether `parse` succeeds, fails or panics, every function, variable and type that the kernel knew
-- before is still known after it.
pub parse-Extends : (t : Tools) (b : Block) → Extends b.types (parse t b).1.types
unfolding parse start
parse-Extends t b =
    let lines = split b.content (ascii "\n") in
    let r = run t lines (t.scan b.content) (start b) in
    grows_types b.types (finish-types lines r)
      (Grows-run b.types t lines (t.scan b.content) (start b) (Extends-refl b.types))
