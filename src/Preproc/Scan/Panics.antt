-- ===== src/Preproc/Scan/Panics.antt =====
-- When `Parse` can index out of range, and when it does.
use noted_runner.Prelude.{
  ℕ, ◌≡◌, refl, ◌≢◌, Bool, true, false, Option, none, some, List, [], ◌∷◌, ◌++◌, arith, Text,
  Outcome, ok, err, panic, get_last?, All, ascii, ap, All-append, or_panic, if◌then◌else◌, ◌&&◌,
  length, ◌==◌, get_last?-append,
}
use noted_runner.Strings.{split}
use noted_runner.Preproc.Tools.{
  Tok, kw_func, kw_type, kw_var, ident, define, semicolon, comma, lbrace, rbrace, lparen, rparen,
  unlisted, Token, Tools, other_expr,
}
use noted_runner.Preproc.Block.{Block, mark, var_decl, func_name, func_body}
use noted_runner.Preproc.Block.Mark.{fnames-mark}
use noted_runner.Preproc.LineType.Total.{parse_line_type-ne-panic}
use noted_runner.Preproc.Scan.{
  Candidate, State, Result, done, ◌then◌, start, line_at, extend_signature, on_punctuation,
  name_func, name_type, signature_ident, type_ident, declared_ident, reused_ident, on_ident,
  name_var, assign_types, mark_candidates, define_types, define_line, on_define, on_lbrace,
  on_rbrace, dispatch, mark_body, step, run, finish, parse,
}

abbrev is_func : Tok → Bool
is_func kw_func = true
is_func _ = false

-- Every keyword `func` is followed at once by an identifier. The flag says that the keyword has just
-- been read.
abbrev pub NamedFuncs : Bool → List Token → Type 0
NamedFuncs true [] = Unit
NamedFuncs true (k ∷ ks) = (k.tok ≡ ident) × NamedFuncs false ks
NamedFuncs false [] = Unit
NamedFuncs false (k ∷ ks) = NamedFuncs (is_func k.tok) ks

-- Every token stands on a line of the text.
abbrev pub OnLines : List Text → List Token → Type 0
OnLines lines ks = All (λ k. line_at lines k.line ≢ none) ks

-- Between two tokens: an open signature has its function's name, and the candidates are on lines.
pub record IsReady (lines : List Text) (just_func : Bool) (s : State) : Type 0 where
  pub flag : s.last_was_func_keyword ≡ just_func
  pub named : s.func_signature_open ≡ true → just_func ≡ false → get_last? s.block.fnames ≢ none
  pub on_lines : All (λ (c : Candidate). line_at lines c.line ≢ none) s.pending_candidates

-- what a handler keeps, unless it returns an error
Readies : List Text → Bool → Result → Type 0
Readies lines b (ok _, s) = IsReady lines b s
Readies lines b (err e, s) = Unit
Readies lines b (panic, s) = ⊥

get_last?-concat : (xs : List Text) (x : Text) → get_last? (xs ++ x ∷ []) ≢ none
get_last?-concat xs x h = cc (get_last?-append xs x)

module _ (lines : List Text) where
  readies : {b : Bool} {s : State} → IsReady lines b s → Readies lines b (done s)
  unfolding Readies
  readies h = h

  Readies-err : (b : Bool) (e : Text) (s : State) → Readies lines b (err e, s)
  unfolding Readies
  Readies-err b e s = tt

  IsReady-name :
      (k : Token) (s : State) → IsReady lines true s → IsReady lines false (name_func k s)
  unfolding name_func
  IsReady-name k s h = record {
    flag = refl;
    named = λ _ _. get_last?-concat (mark k.line func_name s.block).1.fnames k.lit;
    on_lines = h.on_lines;
  }

  IsReady-type :
      (k : Token) (s : State) → IsReady lines false s → IsReady lines false (name_type k s)
  unfolding name_type
  IsReady-type k s h = record { flag = h.flag; named = h.named; on_lines = h.on_lines }

  ready_extend :
      (text : Text) (s : State)
      → IsReady lines false s
      → get_last? s.block.fnames ≢ none
      → Readies lines false (extend_signature text s)
  unfolding extend_signature Readies
  ready_extend text s h n = ground (arith, n)

  Readies-if :
      (b c : Bool) (r q : Result)
      → (c ≡ true → Readies lines b r)
      → (c ≡ false → Readies lines b q)
      → Readies lines b (if c then r else q)
  Readies-if b true r q hr hq = hr refl
  Readies-if b false r q hr hq = hq refl

  IsReady-if :
      (b c : Bool) (s u : State)
      → IsReady lines b s
      → IsReady lines b u
      → IsReady lines b (if c then s else u)
  IsReady-if b true s u h k = h
  IsReady-if b false s u h k = k

  and_left : (c d : Bool) → (c && d) ≡ true → c ≡ true
  and_left true d h = refl
  and_left false d h = cc

  ready_signature :
      (k : Token) (s : State) → IsReady lines false s → Readies lines false (signature_ident k s)
  unfolding signature_ident
  ready_signature k s h =
      Readies-if false _ _ _ (λ o. ready_extend k.lit s h (h.named (and_left _ _ o) refl))
        (λ _. readies h)

  ready_punctuation :
      (text : Text) (s : State)
      → IsReady lines false s
      → Readies lines false (on_punctuation text s)
  unfolding on_punctuation
  ready_punctuation text s h =
      Readies-if false _ _ _ (λ o. ready_extend text s h (h.named o refl)) (λ _. readies h)

  Readies-then :
      (b : Bool) (r : Result) (f : State → Result)
      → Readies lines false r
      → ((s : State) → IsReady lines false s → Readies lines b (f s))
      → Readies lines b (r then f)
  unfolding Readies
  Readies-then b (ok _, s) f h k = k s h
  Readies-then b (err e, s) f h k = tt
  Readies-then b (panic, s) f h k = h

  ready_type_ident :
      (k : Token) (s : State) → IsReady lines false s → Readies lines false (type_ident k s)
  unfolding type_ident
  ready_type_ident k s h = readies (
      IsReady-if false s.inside_type _ s
        (record { flag = h.flag; named = h.named; on_lines = h.on_lines }) h)

  fnames-name_var :
      (lit : Text) (line : ℕ) (b : Block) → (name_var lit (mark line var_decl b)).fnames ≡ b.fnames
  unfolding name_var
  fnames-name_var lit line b = ground (arith, fnames-mark line var_decl b)

  ready_declared :
      (k : Token) (s : State)
      → line_at lines k.line ≢ none
      → IsReady lines false s
      → Readies lines false (declared_ident k s)
  unfolding declared_ident
  ready_declared k s l h = readies (
      IsReady-if false s.in_var_decl _ _
        (record {
          flag = h.flag;
          named = λ o _. rw (fnames-name_var k.lit k.line s.block) (h.named o refl);
          on_lines = h.on_lines;
        })
        (record {
          flag = h.flag;
          named = h.named;
          on_lines =
              All-append (λ (c : Candidate). line_at lines c.line ≢ none) s.pending_candidates _
                h.on_lines (l, tt);
        }))

  ready_reused :
      (k : Token) (s : State) → IsReady lines false s → Readies lines false (reused_ident k s)
  unfolding reused_ident
  ready_reused k s h = readies (record { flag = h.flag; named = h.named; on_lines = h.on_lines })

  ready_ident :
      (b : Bool) (k : Token) (s : State)
      → line_at lines k.line ≢ none
      → IsReady lines b s
      → Readies lines false (on_ident k s)
  unfolding on_ident
  ready_ident true k s l h =
      Readies-if false s.last_was_func_keyword _ _ (λ _. readies (IsReady-name k s h))
        (λ e. absurd (cc (e, h.flag)))
  ready_ident false k s l h =
      Readies-if false s.last_was_func_keyword _ _ (λ e. absurd (cc (e, h.flag)))
        (λ _.
          Readies-if false s.last_was_type_keyword _ _ (λ _. readies (IsReady-type k s h))
            (λ _.
              Readies-then false _ (reused_ident k)
                (Readies-then false _ (declared_ident k)
                  (Readies-then false _ (type_ident k) (ready_signature k s h) (ready_type_ident k))
                  (λ u. ready_declared k u l))
                (ready_reused k)))

module _ (t : Tools) (lines : List Text) (rejects : t.parse_expr [] ≢ other_expr) where
  piece_ok :
      (fresh : Bool) (o : Option Text)
      → o ≢ none
      → (p : Text) × ((if fresh then or_panic o else ok []) ≡ ok p)
  piece_ok true none n = absurd (n refl)
  piece_ok true (some p) n = (p, refl)
  piece_ok false o n = ([], refl)

  abbrev IsMarked : Outcome Text × State → Type 0
  IsMarked (r, s) = (r ≢ panic) × IsReady lines false s

  ready_marks :
      (line : ℕ) (cs : List Candidate) (total : Text) (s : State)
      → All (λ (c : Candidate). line_at lines c.line ≢ none) cs
      → IsReady lines false s
      → IsMarked (mark_candidates lines line cs total s)
  unfolding mark_candidates
  ready_marks line [] total s on h = (λ e. cc, h)
  ready_marks line (c ∷ cs) total s (l, on) h =
      let m = mark line var_decl s.block in
      let u = record s { block = record m.1 { vnames = m.1.vnames ++ c.name ∷ [] } } in
      let ready : IsReady lines false u = record {
        flag = h.flag;
        named = λ o e. rw (fnames-mark line var_decl s.block) (h.named o e);
        on_lines = h.on_lines;
      } in
      let (p, e) = piece_ok m.0 (line_at lines c.line) l in
      rw (mark_candidates, e) (ready_marks line cs (total ++ p) u on ready)

  ready_define_types :
      (total : Text) (r : Outcome (List Text)) (s : State)
      → r ≢ panic
      → IsReady lines false s
      → Readies lines false (define_types total r s)
  unfolding define_types
  ready_define_types total (ok tp) s n h =
      let b = s.block in
      let vars = assign_types s.pending_candidates tp b.types.vars in
      let u = record s {
        block = record b { types = record b.types { vars = vars } };
        pending_candidates = [];
      } in
      Readies-if lines false (length tp == length s.pending_candidates) (done u)
        (err (ascii "variables decl and val don't match at line " ++ total), s)
        (λ _. readies lines (record { flag = h.flag; named = h.named; on_lines = tt }))
        (λ _. Readies-err lines _ _ _)
  ready_define_types total (err e) s n h = Readies-err lines false e s
  ready_define_types total panic s n h = absurd (n refl)

  ready_define_line :
      (m : Outcome Text × State) → IsMarked m → Readies lines false (define_line t m)
  unfolding define_line Readies
  ready_define_line (ok total, s) (n, h) =
      ready_define_types total _ s (parse_line_type-ne-panic t s.block.types.funcs total rejects) h
  ready_define_line (err e, s) (n, h) = tt
  ready_define_line (panic, s) (n, h) = absurd (n refl)

  ready_dispatch :
      (tok : Tok) (k : Token) (s : State)
      → line_at lines k.line ≢ none
      → IsReady lines false s
      → Readies lines (is_func tok) (dispatch t lines tok k s)
  unfolding dispatch on_define on_lbrace on_rbrace
  ready_dispatch kw_func k s l h =
      readies lines (record { flag = refl; named = λ _ e. cc; on_lines = h.on_lines })
  ready_dispatch kw_type k s l h =
      readies lines (record { flag = h.flag; named = h.named; on_lines = h.on_lines })
  ready_dispatch kw_var k s l h =
      readies lines (record { flag = h.flag; named = h.named; on_lines = tt })
  ready_dispatch ident k s l h = ready_ident lines false k s l h
  ready_dispatch define k s l h =
      ready_define_line (mark_candidates lines k.line s.pending_candidates [] s)
        (ready_marks k.line s.pending_candidates [] s h.on_lines h)
  ready_dispatch semicolon k s l h =
      readies lines (record { flag = refl; named = h.named; on_lines = tt })
  ready_dispatch comma k s l h = ready_punctuation lines _ s h
  ready_dispatch lbrace k s l h =
      readies lines (record { flag = h.flag; named = λ e. cc; on_lines = h.on_lines })
  ready_dispatch rbrace k s l h =
      readies lines (record { flag = h.flag; named = h.named; on_lines = h.on_lines })
  ready_dispatch lparen k s l h = ready_punctuation lines _ s h
  ready_dispatch rparen k s l h = ready_punctuation lines _ s h
  ready_dispatch unlisted k s l h = readies lines h

  IsReady-body :
      (b : Bool) (k : Token) (s : State) → IsReady lines b s → IsReady lines b (mark_body k s)
  unfolding mark_body
  IsReady-body b k s h =
      IsReady-if lines b s.inside_func _ s
        (record {
          flag = h.flag;
          named = λ o e. rw (fnames-mark k.line func_body s.block) (h.named o e);
          on_lines = h.on_lines;
        })
        h

  ready_step :
      (b : Bool) (k : Token) (s : State)
      → (b ≡ true → k.tok ≡ ident)
      → line_at lines k.line ≢ none
      → IsReady lines b s
      → Readies lines (is_func k.tok) (step t lines k s)
  unfolding step
  ready_step false k s i l h = ready_dispatch k.tok k (mark_body k s) l (IsReady-body false k s h)
  ready_step true k s i l h =
      rw (i refl)
        (unfold dispatch in ready_ident lines true k (mark_body k s) l (IsReady-body true k s h))

  then-ne-panic :
      (b : Bool) (r : Result) (f : State → Result)
      → Readies lines b r
      → ((s : State) → IsReady lines b s → (f s).0 ≢ panic)
      → (r then f).0 ≢ panic
  unfolding Readies
  then-ne-panic b (ok _, s) f h k = k s h
  then-ne-panic b (err e, s) f h k = cc
  then-ne-panic b (panic, s) f h k = absurd h

  ready_run :
      (b : Bool) (ks : List Token) (s : State)
      → NamedFuncs b ks
      → OnLines lines ks
      → IsReady lines b s
      → (run t lines ks s).0 ≢ panic
  unfolding run
  ready_run false [] s n l h = λ e. cc
  ready_run true [] s n l h = λ e. cc
  ready_run false (k ∷ ks) s n (l, ls) h =
      then-ne-panic (is_func k.tok) _ (run t lines ks) (ready_step false k s (λ e. cc) l h)
        (λ u r. ready_run (is_func k.tok) ks u n ls r)
  ready_run true (k ∷ ks) s (i, n) (l, ls) h =
      then-ne-panic false _ (run t lines ks)
        (rw (ap is_func i) at (ready_step true k s (λ _. i) l h))
        (λ u r. ready_run false ks u n ls r)

IsReady-start : (lines : List Text) (b : Block) → IsReady lines false (start b)
unfolding start
IsReady-start lines b = record { flag = refl; named = λ e _. cc; on_lines = tt }

finish-ne-panic : (lines : List Text) (r : Result) → r.0 ≢ panic → (finish lines r).0 ≢ panic
unfolding finish
finish-ne-panic lines (ok _, s) h = cc
finish-ne-panic lines (err e, s) h = cc
finish-ne-panic lines (panic, s) h = h

-- `parse` returns, with success or an error, on every block whose tokens stand on its lines and in
-- which every keyword `func` is followed by a name, if the expression parser rejects the empty text.
pub parse-ne-panic :
    (t : Tools) (b : Block)
    → t.parse_expr [] ≢ other_expr
    → NamedFuncs false (t.scan b.content)
    → OnLines (split b.content (ascii "\n")) (t.scan b.content)
    → (parse t b).0 ≢ panic
unfolding parse
parse-ne-panic t b rejects named on =
    let lines = split b.content (ascii "\n") in
    finish-ne-panic lines _ (
      ready_run t lines rejects false (t.scan b.content) (start b) named on (IsReady-start lines b))
