-- ===== src/Preproc/LineType/Values.antt =====
-- The types that `parseLineType` finds for single values.
use mathlib.Core.List.{append_assoc}
use noted_runner.Prelude.{
  ℕ, zero, suc, ◌<◌, ◌≡◌, refl, ◌≢◌, true, some, List, [], ◌∷◌, ◌++◌, arith, Text, ok,
  if◌then◌else◌, get_last?, get_last?-append, ◌==◌, All, ascii, text_eq, contains, ◌⊎◌, inl, inr,
  ◌↔◌,
}
use noted_runner.Preproc.Tools.{
  other_expr, basic_lit, Tools, LitKind, int_lit, string_lit, float_lit, imag_lit, char_lit,
}
use noted_runner.Preproc.Block.{known_types}
use noted_runner.Preproc.LineType.{
  stars, behind_stars, until, typ_by_last, types_of_expr, types_of_value, with_typ,
}

-- an ASCII text without the byte
abbrev pub IsPlain : ℕ → Text → Type 0
IsPlain stop s = All (λ x. (x < 128) × (x ≢ stop)) s

until_plain : (stop : ℕ) (s rest : Text) → IsPlain stop s → until stop (s ++ stop ∷ rest) ≡ s
unfolding until
until_plain stop [] rest h = ground arith
until_plain stop (x ∷ xs) rest (p, h) = ground (arith, until_plain stop xs rest h)

last_brace : (s t : Text) (a c : ℕ) → get_last? (s ++ a ∷ (t ++ c ∷ [])) ≡ some c
last_brace s t a c = rw (← append_assoc s (a ∷ t) (c ∷ [])) (get_last?-append (s ++ a ∷ t) c)

abbrev pub replicate : ℕ → ℕ → Text
replicate zero a = []
replicate (suc n) a = a ∷ replicate n a

abbrev pub count : ℕ → Text → ℕ
count a [] = 0
count a (x ∷ xs) = let rest = count a xs in if x == a then suc rest else rest

-- only spaces and ampersands
abbrev pub IsPrefixRun : Text → Type 0
IsPrefixRun s = All (λ x. (x ≡ b' ') ⊎ (x ≡ b'&')) s

stars-append :
    (p : Text) (c : ℕ) (s : Text)
    → IsPrefixRun p
    → c ≢ b' '
    → c ≢ b'&'
    → (stars (p ++ c ∷ s) ≡ replicate (count b'&' p) b'*') × (behind_stars (p ++ c ∷ s) ≡ c ∷ s)
unfolding stars behind_stars
stars-append [] c s h n m = ground arith
stars-append (x ∷ p) c s (inl e, h) n m = ground (arith, stars-append p c s h n m)
stars-append (x ∷ p) c s (inr e, h) n m = ground (arith, stars-append p c s h n m)

-- a composite literal: leading spaces and ampersands, a type name, and what stands in braces
abbrev pub composite : Text → ℕ → Text → Text → Text
composite p c name body = p ++ c ∷ (name ++ b'{' ∷ (body ++ b'}' ∷ []))

append-ne-nil : (s : Text) (c : ℕ) (t : Text) → (s ++ c ∷ t) ≢ []
append-ne-nil [] c t = cc
append-ne-nil (x ∷ s) c t = cc

with_typ_single : (s : Text) (c : ℕ) (t : Text) → with_typ (s ++ c ∷ t, []) ≡ (s ++ c ∷ t) ∷ []
unfolding with_typ text_eq
with_typ_single [] c t = refl
with_typ_single (x ∷ s) c t = refl

-- The recorded type of a composite literal is the name in front of the brace with a star for each
-- ampersand, for an ASCII type name that begins with neither a space nor an ampersand and has no
-- brace, whatever stands between the braces.
pub types_of_value-composite :
    (t : Tools) (funcs : List (Text × Text)) (p : Text) (c : ℕ) (name body : Text)
    → IsPrefixRun p
    → c ≢ b' '
    → c ≢ b'&'
    → IsPlain b'{' (c ∷ name)
    → t.parse_expr (composite p c name body) ≡ other_expr
    → types_of_value t funcs (composite p c name body)
      ≡ ok ((replicate (count b'&' p) b'*' ++ c ∷ name) ∷ [])
unfolding types_of_value types_of_expr typ_by_last
types_of_value-composite t funcs p c name body run ns na plain e =
    let (st, behind) = stars-append p c (name ++ b'{' ∷ (body ++ b'}' ∷ [])) run ns na in
    let last : get_last? (composite p c name body) ≡ some b'}' =
      rw (← append_assoc p (c ∷ name) (b'{' ∷ (body ++ b'}' ∷ [])))
        (last_brace (p ++ c ∷ name) body b'{' b'}') in
    ground (
      arith,
      e,
      st,
      behind,
      last,
      until_plain b'{' (c ∷ name) (body ++ b'}' ∷ []) plain,
      with_typ_single (replicate (count b'&' p) b'*') c name,
    )

-- A literal has the lower case name of its token kind as its type; this is one of the known types
-- exactly for integer and string literals, so that the types recorded for floating-point, imaginary
-- and character literals are no Go types.
pub types_of_value-literal :
    (t : Tools) (funcs : List (Text × Text)) (value : Text) (k : LitKind)
    → t.parse_expr value ≡ basic_lit k
    → (name : Text) × (types_of_value t funcs value ≡ ok (name ∷ []))
      × ((contains name known_types ≡ true) ↔ ((k ≡ int_lit) ⊎ (k ≡ string_lit)))
unfolding types_of_value types_of_expr contains text_eq
types_of_value-literal t funcs value int_lit e = (ascii "int", ground (arith, e), ground arith)
types_of_value-literal t funcs value float_lit e = (ascii "float", ground (arith, e), ground arith)
types_of_value-literal t funcs value imag_lit e = (ascii "imag", ground (arith, e), ground arith)
types_of_value-literal t funcs value char_lit e = (ascii "char", ground (arith, e), ground arith)
types_of_value-literal t funcs value string_lit e =
    (ascii "string", ground (arith, e), ground arith)

-- A value that is neither a literal nor ends in a brace or a parenthesis, such as a variable, a sum
-- or `true`, contributes no type unless an ampersand stands in front of it.
pub types_of_value-bare :
    (t : Tools) (funcs : List (Text × Text)) (c : ℕ) (s : Text) (last : ℕ)
    → t.parse_expr (c ∷ s) ≡ other_expr
    → get_last? (c ∷ s) ≡ some last
    → last ≢ b'}'
    → last ≢ b')'
    → stars (c ∷ s) ≡ []
    → types_of_value t funcs (c ∷ s) ≡ ok []
unfolding types_of_value types_of_expr typ_by_last with_typ text_eq
types_of_value-bare t funcs c s last e l nb np ns = ground arith
