-- ===== src/Preproc/Scan/Calls.antt =====
-- A function that a block declares, and a call of it on the right of `:=`.
use mathlib.Core.List.{append_assoc, append-nil}
use noted_runner.Prelude.{
  ℕ, ◌≡◌, refl, sym, true, some, List, [], ◌∷◌, ◌++◌, Text, ok, ascii, ◌∙◌, All, All-append, ap,
}
use noted_runner.Strings.Laws.{Lacks, join}
use noted_runner.Preproc.Tools.{Tok, ident, comma, lparen, rparen, Tools, Token}
use noted_runner.Preproc.LineType.{local_call}
use noted_runner.Preproc.LineType.Signature.{IsKnown, signature, local_call-several}
use noted_runner.Preproc.Scan.{State, done, run}
use noted_runner.Preproc.Scan.Signature.{piece, staying, pieces, IsOpen, run-IsOpen}

pieces-append : (ks js : List Token) → pieces (ks ++ js) ≡ pieces ks ++ pieces js
pieces-append [] js = refl
pieces-append (k ∷ ks) js =
    ap (λ t. piece k.tok k.lit ++ t) (pieces-append ks js)
    ∙ sym (append_assoc (piece k.tok k.lit) (pieces ks) (pieces js))

module _ (line : ℕ) where
  abbrev pub mark_of : Tok → Token
  mark_of tok = record { tok = tok; lit = []; line = line }

  abbrev pub name_of : Text → Token
  name_of lit = record { tok = ident; lit = lit; line = line }

  -- the result types between their parentheses
  abbrev pub result_tokens : Text → List Text → List Token
  result_tokens r [] = name_of r ∷ []
  result_tokens r (q ∷ rs) = name_of r ∷ mark_of comma ∷ result_tokens q rs

  -- what stands behind the name of the function, up to its body
  abbrev pub signature_tokens : List Token → Text → List Text → List Token
  signature_tokens params r rs =
      mark_of lparen
      ∷ (params ++ mark_of rparen ∷ mark_of lparen ∷ (result_tokens r rs ++ mark_of rparen ∷ []))

  pieces-result_tokens :
      (r : Text) (rs : List Text)
      → All IsKnown (r ∷ rs)
      → pieces (result_tokens r rs) ≡ join b',' r rs
  pieces-result_tokens r [] (k, h) = rw k (append-nil r)
  pieces-result_tokens r (q ∷ rs) (k, h) = rw (k, pieces-result_tokens q rs h)

  staying-result_tokens :
      (r : Text) (rs : List Text) → All (λ (k : Token). staying k.tok ≡ true) (result_tokens r rs)
  staying-result_tokens r [] = (refl, tt)
  staying-result_tokens r (q ∷ rs) = (refl, (refl, staying-result_tokens q rs))

  pieces-signature_tokens :
      (params : List Token) (r : Text) (rs : List Text)
      → All IsKnown (r ∷ rs)
      → ascii "func" ++ pieces (signature_tokens params r rs)
        ≡ signature (pieces params) (b'(' ∷ (join b',' r rs ++ b')' ∷ []))
  pieces-signature_tokens params r rs h =
      ap (λ t. ascii "func(" ++ t)
        (pieces-append params
            (mark_of rparen ∷ mark_of lparen ∷ (result_tokens r rs ++ mark_of rparen ∷ []))
          ∙ rw (
            pieces-append (result_tokens r rs) (mark_of rparen ∷ []),
            pieces-result_tokens r rs h,
          ))

  -- Where the signature of a function is open and the tokens of a result list of two or more known
  -- types follow, up to the token before the body, a call of the function on the right of `:=`
  -- contributes exactly these types, in their order. The tokens of the parameters are parentheses,
  -- commas, identifiers and tokens that the scan does not list, so no brace, `func`, `type`, `var`,
  -- `:=` or `;` is among them, and no parenthesis closes there.
  pub declared_results :
      (t : Tools) (lines : List Text) (f typ : Text) (params : List Token) (r q : Text)
      (rs : List Text) (s : State)
      → All (λ (k : Token). staying k.tok ≡ true) params
      → Lacks b')' (pieces params)
      → All IsKnown (r ∷ q ∷ rs)
      → IsOpen f (ascii "func") s
      → (u : State) × (run t lines (signature_tokens params r (q ∷ rs)) s ≡ done u)
        × (local_call u.block.types.funcs f typ ≡ ok ([], r ∷ q ∷ rs))
  declared_results t lines f typ params r q rs s stay lacks known o =
      let toks = signature_tokens params r (q ∷ rs) in
      let tail_stay =
        All-append (λ (k : Token). staying k.tok ≡ true) (result_tokens r (q ∷ rs))
          (mark_of rparen ∷ []) (staying-result_tokens r (q ∷ rs)) (refl, tt) in
      let all_stay =
        All-append (λ (k : Token). staying k.tok ≡ true) params _ stay (refl, (refl, tail_stay)) in
      let (u, e, h) = run-IsOpen f t lines toks (ascii "func") s (refl, all_stay) o in
      (
        u,
        e,
        local_call-several u.block.types.funcs f typ (pieces params) lacks r q rs known
            (h.recorded ∙ ap some (pieces-signature_tokens params r (q ∷ rs) known)),
      )
