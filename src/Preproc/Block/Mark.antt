-- ===== src/Preproc/Block/Mark.antt =====
-- `mark` and the map from lines to kinds.
use noted_runner.Prelude.{ℕ, ◌≡◌, refl, true, List, [], ◌∷◌, ◌++◌, arith, ◌==◌, if◌then◌else◌}
use noted_runner.Preproc.Block.{
  Kind, func_name, func_body, var_decl, other, same_kind, has_kind, LineKinds, kinds_at, add_kind,
  Block, mark,
}

module _ (line : ℕ) (k : Kind) (b : Block) where
  pub content-mark : (mark line k b).1.content ≡ b.content
  unfolding mark
  content-mark = ground arith

  pub fnames-mark : (mark line k b).1.fnames ≡ b.fnames
  unfolding mark
  fnames-mark = ground arith

  pub vnames-mark : (mark line k b).1.vnames ≡ b.vnames
  unfolding mark
  vnames-mark = ground arith

  pub types-mark : (mark line k b).1.types ≡ b.types
  unfolding mark
  types-mark = ground arith

  pub reused_vars-mark : (mark line k b).1.reused_vars ≡ b.reused_vars
  unfolding mark
  reused_vars-mark = ground arith

  pub reused_funcs-mark : (mark line k b).1.reused_funcs ≡ b.reused_funcs
  unfolding mark
  reused_funcs-mark = ground arith

  pub line_kinds-mark :
      (mark line k b).1.line_kinds
      ≡ (if line == 0 then b.line_kinds else add_kind line k b.line_kinds)
  unfolding mark
  line_kinds-mark = ground arith

pub same_kind_refl : (k : Kind) → same_kind k k ≡ true
unfolding same_kind
same_kind_refl func_name = refl
same_kind_refl func_body = refl
same_kind_refl var_decl = refl
same_kind_refl other = refl

has_kind-concat : (k : Kind) (ks : List Kind) → has_kind k (ks ++ k ∷ []) ≡ true
unfolding has_kind
has_kind-concat k [] = ground (arith, same_kind_refl k)
has_kind-concat k (j ∷ js) = ground (arith, has_kind-concat k js)

has_kind-append :
    (k : Kind) (ks js : List Kind) → has_kind k ks ≡ true → has_kind k (ks ++ js) ≡ true
unfolding has_kind
has_kind-append k [] js h = cc
has_kind-append k (i ∷ ks) js h = ground (arith, has_kind-append k ks js)

-- A kind that is added to a line is there, and no kind is lost from any line.
pub has_kind-add_kind :
    (line : ℕ) (k : Kind) (m : LineKinds) → has_kind k (kinds_at (add_kind line k m) line) ≡ true
unfolding kinds_at add_kind
has_kind-add_kind line k [] = ground (arith, same_kind_refl k)
has_kind-add_kind line k ((n, ks) ∷ m) =
    ground (arith, has_kind-add_kind line k m, has_kind-concat k ks)

pub has_kind-add_kind_mono :
    (line n : ℕ) (k j : Kind) (m : LineKinds)
    → has_kind j (kinds_at m n) ≡ true
    → has_kind j (kinds_at (add_kind line k m) n) ≡ true
unfolding kinds_at add_kind
has_kind-add_kind_mono line n k j [] h = ground arith
has_kind-add_kind_mono line n k j ((i, ks) ∷ m) h =
    ground (arith, has_kind-add_kind_mono line n k j m, has_kind-append j ks (k ∷ []))
