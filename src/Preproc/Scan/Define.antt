-- ===== src/Preproc/Scan/Define.antt =====
-- The case of `:=`.
use mathlib.Core.Path.{subst}
use noted_runner.Prelude.{
  ℕ, ◌≡◌, refl, sym, true, false, List, [], ◌∷◌, arith, Text, Outcome, ok, err, panic, ◌∙◌, length,
  ◌==◌, All, lookup, insert, lookup-insert, has_key, text_eq, text_eq_refl, ap, Bool-cases, inl,
  inr, ==_iff,
}
use noted_runner.Preproc.Tools.{Tools}
use noted_runner.Preproc.Block.{Block, var_decl, has_kind, kinds_at}
use noted_runner.Preproc.Block.Mark.{types-mark}
use noted_runner.Preproc.Scan.Rules.{mark_candidates_inv}
use noted_runner.Preproc.Scan.{
  Candidate, State, done, mark_candidates, assign_types, define_types, define_line, on_define,
}

-- no candidate has the name
abbrev pub IsOther : Text → List Candidate → Type 0
IsOther a cs = All (λ (c : Candidate). text_eq c.name a ≡ false) cs

pub lookup-assign_ne :
    (a : Text) (cs : List Candidate) (ts : List Text) (m : List (Text × Text))
    → IsOther a cs
    → lookup a (assign_types cs ts m) ≡ lookup a m
unfolding assign_types
lookup-assign_ne a [] ts m h = refl
lookup-assign_ne a (c ∷ cs) [] m h = refl
lookup-assign_ne a (c ∷ cs) (t ∷ ts) m (n, h) =
    lookup-assign_ne a cs ts (insert c.name t m) h ∙ ground (arith, n, lookup-insert c.name a t m)

has_key-assign :
    (a : Text) (cs : List Candidate) (ts : List Text) (m : List (Text × Text))
    → has_key a m ≡ true
    → has_key a (assign_types cs ts m) ≡ true
unfolding assign_types
has_key-assign a [] ts m h = h
has_key-assign a (c ∷ cs) [] m h = h
has_key-assign a (c ∷ cs) (t ∷ ts) m h =
    has_key-assign a cs ts (insert c.name t m)
      (unfold has_key in ground (arith, h, lookup-insert c.name a t m))

knows-assign :
    (cs : List Candidate) (ts : List Text) (m : List (Text × Text))
    → length ts ≡ length cs
    → All (λ (c : Candidate). has_key c.name (assign_types cs ts m) ≡ true) cs
unfolding assign_types
knows-assign [] ts m e = tt
knows-assign (c ∷ cs) [] m e = absurd (omega arith)
knows-assign (c ∷ cs) (t ∷ ts) m e = (
  has_key-assign c.name cs ts (insert c.name t m)
      (unfold has_key in ground (arith, text_eq_refl c.name, lookup-insert c.name c.name t m)),
  knows-assign cs ts (insert c.name t m) (omega arith),
)

-- what `:=` has achieved when it succeeds
pub record IsDefined (s u : State) : Type 0 where
  pub known : All (λ (c : Candidate). has_key c.name u.block.types.vars ≡ true) s.pending_candidates
  pub frame :
      (a : Text)
      → IsOther a s.pending_candidates
      → lookup a u.block.types.vars ≡ lookup a s.block.types.vars
  pub same_funcs : u.block.types.funcs ≡ s.block.types.funcs
  pub cleared : u.pending_candidates ≡ []

abbrev defined : List Text → State → State
defined tp s =
    let ts = s.block.types in
    record s {
      block = record s.block {
        types = record ts { vars = assign_types s.pending_candidates tp ts.vars };
      };
      pending_candidates = [];
    }

defined_state :
    (total : Text) (tp : List Text) (s u : State)
    → (length tp == length s.pending_candidates) ≡ true
    → define_types total (ok tp) s ≡ done u
    → defined tp s ≡ u
unfolding define_types
defined_state total tp s u fits e = cc (rw fits at e)

define_types-IsDefined :
    (total : Text) (r : Outcome (List Text)) (s u : State)
    → define_types total r s ≡ done u
    → IsDefined s u
unfolding define_types
define_types-IsDefined total (ok tp) s u e =
    elim (Bool-cases (length tp == length s.pending_candidates)) [
      | inl fits ↦ subst (IsDefined s) (defined_state total tp s u fits e) (record {
        known =
            knows-assign s.pending_candidates tp s.block.types.vars
              ((==_iff (length tp) (length s.pending_candidates)).0 fits);
        frame = λ a h. lookup-assign_ne a s.pending_candidates tp s.block.types.vars h;
        same_funcs = refl;
        cleared = refl;
      })
      | inr differs ↦ cc (rw differs at e)
    ]
define_types-IsDefined total (err x) s u e = cc
define_types-IsDefined total panic s u e = cc

-- Two states that differ in no more than what the marks of `:=` change.
record IsMarkOf (s u : State) : Type 0 where
  pending : u.pending_candidates ≡ s.pending_candidates
  types : u.block.types ≡ s.block.types

IsMarkOf-marks :
    (lines : List Text) (line : ℕ) (s : State)
    → IsMarkOf s (mark_candidates lines line s.pending_candidates [] s).1
IsMarkOf-marks lines line s =
    mark_candidates_inv (IsMarkOf s) line lines s.pending_candidates [] s
      (λ name u h. record {
        pending = h.pending;
        types = types-mark line var_decl u.block ∙ h.types;
      })
      (record { pending = refl; types = refl })

IsDefined-of_mark : (s v u : State) → IsMarkOf s v → IsDefined v u → IsDefined s u
IsDefined-of_mark s v u m d = record {
  known =
      subst (λ l. All (λ (c : Candidate). has_key c.name u.block.types.vars ≡ true) l) m.pending
        d.known;
  frame =
      λ a h. d.frame a (subst (IsOther a) (sym m.pending) h) ∙ ap (λ ts. lookup a ts.vars) m.types;
  same_funcs = d.same_funcs ∙ ap (λ ts. ts.funcs) m.types;
  cleared = d.cleared;
}

define_line-IsDefined :
    (t : Tools) (m : Outcome Text × State) (s u : State)
    → IsMarkOf s m.1
    → define_line t m ≡ done u
    → IsDefined s u
unfolding define_line
define_line-IsDefined t (ok total, v) s u m e =
    IsDefined-of_mark s v u m (define_types-IsDefined total _ v u e)
define_line-IsDefined t (err x, v) s u m e = cc
define_line-IsDefined t (panic, v) s u m e = cc

-- When `:=` succeeds, every candidate is a known variable, the other variables and all functions have
-- the types that they had, and no candidate is left.
pub on_define-IsDefined :
    (t : Tools) (lines : List Text) (line : ℕ) (s u : State)
    → on_define t lines line s ≡ done u
    → IsDefined s u
unfolding on_define
on_define-IsDefined t lines line s u e =
    define_line-IsDefined t (mark_candidates lines line s.pending_candidates [] s) s u
      (IsMarkOf-marks lines line s) e

-- The line has a variable declaration already.
abbrev pub IsTaken : ℕ → State → Type 0
IsTaken line s = has_kind var_decl (kinds_at s.block.line_kinds line) ≡ true
