-- ===== src/Preproc/Scan/Signature.antt =====
-- The signature that `Parse` records of a function, and what a call of the function makes of it.
use mathlib.Core.List.{append_assoc, append-nil}
use mathlib.Core.Path.{subst}
use noted_runner.Prelude.{
  ◌≡◌, refl, sym, Bool, true, false, some, List, [], ◌∷◌, ◌++◌, arith, Text, ascii, if◌then◌else◌,
  ◌∙◌, All, lookup, lookup-insert, text_eq_refl, ap, get_last?, contains, Bool-cases, inl, inr,
}
use noted_runner.Preproc.Tools.{Tok, ident, comma, lparen, rparen, unlisted, Tools, Token}
use noted_runner.Preproc.Block.{known_types, func_body, var_decl}
use noted_runner.Preproc.Block.Mark.{fnames-mark, types-mark}
use noted_runner.Preproc.Scan.{
  State, Result, done, ◌then◌, extend_signature, set_func, on_punctuation, signature_ident,
  type_ident, declared_ident, name_var, reused_ident, on_ident, dispatch, mark_body, step, run,
}

-- what a token adds to the open signature
abbrev pub piece : Tok → Text → Text
piece lparen lit = ascii "("
piece rparen lit = ascii ")"
piece comma lit = ascii ","
piece ident lit = if contains lit known_types then lit else []
piece _ lit = []

-- the tokens that leave a signature open and name nothing
abbrev pub staying : Tok → Bool
staying lparen = true
staying rparen = true
staying comma = true
staying ident = true
staying unlisted = true
staying _ = false

abbrev pub pieces : List Token → Text
pieces [] = []
pieces (k ∷ ks) = piece k.tok k.lit ++ pieces ks

-- The signature of `f`, the last function named, is open, and `sig` is recorded.
pub record IsOpen (f sig : Text) (s : State) : Type 0 where
  pub open_now : s.func_signature_open ≡ true
  pub last_name : get_last? s.block.fnames ≡ some f
  pub recorded : lookup f s.block.types.funcs ≡ some sig
  pub not_func : s.last_was_func_keyword ≡ false
  pub not_type : s.last_was_type_keyword ≡ false

-- the state behind a token
abbrev pub Reaches : Text → Text → Result → Type 0
Reaches f sig r = (u : State) × (r ≡ done u) × IsOpen f sig u

module _ (f : Text) where
  open_extend :
      (sig text : Text) (s : State)
      → IsOpen f sig s
      → Reaches f (sig ++ text) (extend_signature text s)
  unfolding extend_signature
  open_extend sig text s h = (
    set_func f (sig ++ text) s,
    ground (arith, h.last_name, h.recorded),
    record {
      open_now = h.open_now;
      last_name = h.last_name;
      recorded =
          ground (arith, lookup-insert f f (sig ++ text) s.block.types.funcs, text_eq_refl f);
      not_func = h.not_func;
      not_type = h.not_type;
    },
  )

  Reaches-then :
      (sig sig' : Text) (r : Result) (g : State → Result)
      → Reaches f sig r
      → ((u : State) → IsOpen f sig u → Reaches f sig' (g u))
      → Reaches f sig' (r then g)
  Reaches-then sig sig' r g (u, e, h) k = let (v, e', h') = k u h in (v, rw e e', h')

  open_signature :
      (sig : Text) (k : Token) (s : State)
      → IsOpen f sig s
      → Reaches f (sig ++ piece ident k.lit) (signature_ident k s)
  unfolding signature_ident
  open_signature sig k s h = elim (Bool-cases (contains k.lit known_types)) [
    | inl known ↦ subst (Reaches f (sig ++ piece ident k.lit)) (ground (arith, known, h.open_now)) (
        subst (λ t. Reaches f (sig ++ t) (extend_signature k.lit s)) (ground (arith, known))
          (open_extend sig k.lit s h))
    | inr foreign ↦ (
      s,
      ground (arith, foreign, h.open_now),
      subst (λ t. IsOpen f t s)
          (sym (append-nil sig) ∙ ap (λ t. sig ++ t) (ground (arith, foreign))) h,
    )
  ]

  open_type : (sig : Text) (k : Token) (s : State) → IsOpen f sig s → Reaches f sig (type_ident k s)
  unfolding type_ident
  open_type sig k s h = (_, refl, ground (arith, h.open_now))

  open_declared :
      (sig : Text) (k : Token) (s : State) → IsOpen f sig s → Reaches f sig (declared_ident k s)
  unfolding declared_ident name_var
  open_declared sig k s h = (
    _,
    refl,
    ground (
      arith,
      h.open_now,
      fnames-mark k.line var_decl s.block,
      types-mark k.line var_decl s.block,
    ),
  )

  open_reused :
      (sig : Text) (k : Token) (s : State) → IsOpen f sig s → Reaches f sig (reused_ident k s)
  unfolding reused_ident
  open_reused sig k s h = (_, refl, ground (arith, h.open_now))

  open_ident :
      (sig : Text) (k : Token) (s : State)
      → IsOpen f sig s
      → Reaches f (sig ++ piece ident k.lit) (on_ident k s)
  unfolding on_ident
  open_ident sig k s h =
      let sig' = sig ++ piece ident k.lit in
      subst (Reaches f sig') (ground (arith, h.not_func, h.not_type)) (
        Reaches-then sig' sig' ((signature_ident k s then type_ident k) then declared_ident k)
          (reused_ident k)
          (Reaches-then sig' sig' (signature_ident k s then type_ident k) (declared_ident k)
            (Reaches-then sig' sig' (signature_ident k s) (type_ident k) (open_signature sig k s h)
              (open_type sig' k))
            (open_declared sig' k))
          (open_reused sig' k))

  open_punctuation :
      (sig text : Text) (s : State)
      → IsOpen f sig s
      → Reaches f (sig ++ text) (on_punctuation text s)
  unfolding on_punctuation
  open_punctuation sig text s h =
      subst (Reaches f (sig ++ text)) (ground (arith, h.open_now)) (open_extend sig text s h)

  IsOpen-body : (sig : Text) (k : Token) (s : State) → IsOpen f sig s → IsOpen f sig (mark_body k s)
  unfolding mark_body
  IsOpen-body sig k s h =
      ground (
        arith,
        h.open_now,
        fnames-mark k.line func_body s.block,
        types-mark k.line func_body s.block,
      )

  open_dispatch :
      (t : Tools) (lines : List Text) (sig : Text) (tok : Tok) (k : Token) (s : State)
      → staying tok ≡ true
      → IsOpen f sig s
      → Reaches f (sig ++ piece tok k.lit) (dispatch t lines tok k s)
  unfolding dispatch
  open_dispatch t lines sig lparen k s e h = open_punctuation sig (ascii "(") s h
  open_dispatch t lines sig rparen k s e h = open_punctuation sig (ascii ")") s h
  open_dispatch t lines sig comma k s e h = open_punctuation sig (ascii ",") s h
  open_dispatch t lines sig ident k s e h = open_ident sig k s h
  open_dispatch t lines sig unlisted k s e h =
      (s, refl, subst (λ x. IsOpen f x s) (sym (append-nil sig)) h)
  open_dispatch t lines sig _ k s e h = cc

  -- While the tokens of a signature are read, exactly its parentheses, its commas and the names of the
  -- known types are appended to the recorded text: stars, brackets, parameter names and other types
  -- leave no trace.
  pub run-IsOpen :
      (t : Tools) (lines : List Text) (ks : List Token) (sig : Text) (s : State)
      → All (λ (k : Token). staying k.tok ≡ true) ks
      → IsOpen f sig s
      → Reaches f (sig ++ pieces ks) (run t lines ks s)
  unfolding run step
  run-IsOpen t lines [] sig s a h = (s, refl, subst (λ x. IsOpen f x s) (sym (append-nil sig)) h)
  run-IsOpen t lines (k ∷ ks) sig s (a, as_) h =
      let sig' = sig ++ piece k.tok k.lit in
      subst (λ x. Reaches f x (run t lines (k ∷ ks) s))
        (append_assoc sig (piece k.tok k.lit) (pieces ks))
        (Reaches-then sig' (sig' ++ pieces ks) (step t lines k s) (run t lines ks)
          (open_dispatch t lines sig k.tok k (mark_body k s) a (IsOpen-body sig k s h))
          (λ u g. run-IsOpen t lines ks sig' u as_ g))
