-- ===== src/Preproc/LineType/Signature.antt =====
-- The result types of a call are read back from the signature that `Parse` has written.
use mathlib.Core.List.{append-nil}
use noted_runner.Prelude.{
  ℕ, ◌≡◌, refl, true, false, some, List, [], ◌∷◌, ◌++◌, map, arith, Text, ok, get_last?-append, ap,
  ◌∙◌, All, ascii, text_eq, lookup, contains, contains-All, ◌⊎◌, inl, inr,
}
use noted_runner.Strings.{split, trim_first, trim_last, trim_space, has_prefix, has_last}
use noted_runner.Strings.Laws.{Lacks, join, split-join, split_after_two-append}
use noted_runner.Preproc.Block.{known_types}
use noted_runner.Preproc.LineType.{local_call, from_signature, from_parts, strip_parens}

abbrev pub IsKnown : Text → Type 0
IsKnown r = contains r known_types ≡ true

-- what the decoder needs of a type's text
record IsClean (r : Text) : Type 0 where
  commas : Lacks b',' r
  trimmed : trim_space r ≡ r
  opening : has_prefix r (ascii "(") ≡ false

clean : {r : Text} → trim_space r ≡ r → has_prefix r (ascii "(") ≡ false → Lacks b',' r → IsClean r
clean t p c = record { commas = c; trimmed = t; opening = p }

known_types-IsClean : All IsClean known_types
unfolding trim_space has_prefix
known_types-IsClean = (
  clean refl refl (omega arith),
  (
    clean refl refl (omega arith),
    (
      clean refl refl (omega arith),
      (
        clean refl refl (omega arith),
        (
          clean refl refl (omega arith),
          (
            clean refl refl (omega arith),
            (
              clean refl refl (omega arith),
              (clean refl refl (omega arith), (clean refl refl (omega arith), tt)),
            ),
          ),
        ),
      ),
    ),
  ),
)

IsKnown-IsClean : (r : Text) → IsKnown r → IsClean r
IsKnown-IsClean r h = contains-All IsClean r known_types known_types-IsClean h

commas_of_known : (rs : List Text) → All IsKnown rs → All (Lacks b',') rs
commas_of_known [] h = tt
commas_of_known (r ∷ rs) (k, h) = ((IsKnown-IsClean r k).commas, commas_of_known rs h)

trim_of_known : (rs : List Text) → All IsKnown rs → map trim_space rs ≡ rs
trim_of_known [] h = refl
trim_of_known (r ∷ rs) (k, h) = cc ((IsKnown-IsClean r k).trimmed, trim_of_known rs h)

trim_last-append : (c : ℕ) (s : Text) → trim_last c (s ++ c ∷ []) ≡ s
unfolding trim_last
trim_last-append c [] = ground arith
trim_last-append c (x ∷ []) = ground arith
trim_last-append c (x ∷ y ∷ s) = cc (trim_last-append c (y ∷ s))

strip_parens-append : (s : Text) → strip_parens (b'(' ∷ (s ++ b')' ∷ [])) ≡ s
unfolding strip_parens has_prefix has_last trim_first
strip_parens-append s = ground (arith, get_last?-append (b'(' ∷ s) b')', trim_last-append b')' s)

strip_parens_known : (r : Text) → IsKnown r → strip_parens r ≡ r
unfolding strip_parens
strip_parens_known r k = ground (arith, (IsKnown-IsClean r k).opening)

-- `func(params)` followed by the text of the results
abbrev pub signature : Text → Text → Text
signature params results = ascii "func(" ++ (params ++ b')' ∷ results)

module _ (funcs : List (Text × Text)) (fname typ params : Text) (no_close : Lacks b')' params) where
  local_call-signature :
      (results : Text)
      → lookup fname funcs ≡ some (signature params results)
      → local_call funcs fname typ ≡ from_parts fname typ (split (strip_parens results) (ascii ","))
  unfolding local_call from_signature text_eq
  local_call-signature results e = ground (
    arith,
    e,
    split_after_two-append b')' (ascii "func(" ++ params) results
        (omega arith, (omega arith, (omega arith, (omega arith, (omega arith, no_close))))),
  )

  -- A call of a function whose recorded signature has several known result types in parentheses
  -- contributes these types, in order, and a star in front of it is dropped.
  pub local_call-several :
      (r q : Text) (rs : List Text)
      → All IsKnown (r ∷ q ∷ rs)
      → lookup fname funcs ≡ some (signature params (b'(' ∷ (join b',' r (q ∷ rs) ++ b')' ∷ [])))
      → local_call funcs fname typ ≡ ok ([], r ∷ q ∷ rs)
  unfolding from_parts
  local_call-several r q rs h e =
      local_call-signature _ e
      ∙ rw
          (
            strip_parens-append (join b',' r (q ∷ rs)),
            split-join b',' r (q ∷ rs) (commas_of_known (r ∷ q ∷ rs) h),
          )
          (ap (λ l. ok ([], l)) (trim_of_known (r ∷ q ∷ rs) h))

  -- A call of a function with one known result type, with or without parentheses, contributes it
  -- behind the stars of the value.
  pub local_call-single :
      (r results : Text)
      → IsKnown r
      → (results ≡ r) ⊎ (results ≡ b'(' ∷ (r ++ b')' ∷ []))
      → lookup fname funcs ≡ some (signature params results)
      → local_call funcs fname typ ≡ ok (typ ++ r, [])
  unfolding from_parts
  local_call-single r results k (inl same) e =
      local_call-signature results e
      ∙ rw (same, strip_parens_known r k, split-join b',' r [] (commas_of_known (r ∷ []) (k, tt)))
          (ap (λ l. ok (typ ++ l, [])) (IsKnown-IsClean r k).trimmed)
  local_call-single r results k (inr wrapped) e =
      local_call-signature results e
      ∙ rw (wrapped, strip_parens-append r, split-join b',' r [] (commas_of_known (r ∷ []) (k, tt)))
          (ap (λ l. ok (typ ++ l, [])) (IsKnown-IsClean r k).trimmed)

  -- A call of a function with no results contributes nothing but the stars of the value.
  pub local_call-no_results :
      lookup fname funcs ≡ some (signature params []) → local_call funcs fname typ ≡ ok (typ, [])
  unfolding from_parts strip_parens split trim_space has_prefix
  local_call-no_results e = local_call-signature [] e ∙ ap (λ l. ok (l, [])) (append-nil typ)
