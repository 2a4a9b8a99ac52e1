-- ===== src/Preproc/Imports/Paths.antt =====
-- Imports without an alias, by their paths.
use mathlib.Core.List.{reverse, reverse-cons, reverse-append, reverse-reverse}
use noted_runner.Prelude.{
  ℕ, ◌≡◌, ◌≢◌, refl, ap, ◌∙◌, none, some, List, [], ◌∷◌, ◌++◌, arith, Text, ascii, All-append,
  get_elem?, get_last?-append, ◌==◌, ◌||◌, Bool-cases, inl, inr,
}
use noted_runner.Strings.{split, trim_left_byte, trim_byte}
use noted_runner.Strings.Laws.{Lacks, split-join}
use noted_runner.Preproc.Tools.{ImportSpec, SourceFile}
use noted_runner.Preproc.Imports.{
  import_name, path_name, collect_used_names, is_dot_or_blank, is_kept,
}
use noted_runner.Preproc.Imports.Kept.{is_kept-selects, selects_decls}

Lacks-reverse : (c : ℕ) (s : Text) → Lacks c s → Lacks c (reverse s)
Lacks-reverse c [] h = tt
Lacks-reverse c (x ∷ xs) (p, h) =
    rw (reverse-cons x xs)
      (All-append (λ (y : ℕ). y ≢ c) (reverse xs) (x ∷ []) (Lacks-reverse c xs h) (p, tt))

trim_left_byte-lacking : (c : ℕ) (s : Text) → Lacks c s → trim_left_byte c s ≡ s
unfolding trim_left_byte
trim_left_byte-lacking c [] h = refl
trim_left_byte-lacking c (x ∷ xs) (p, h) = ground arith

trim_left_byte-first : (c : ℕ) (s : Text) → trim_left_byte c (c ∷ s) ≡ trim_left_byte c s
unfolding trim_left_byte
trim_left_byte-first c s = ground arith

-- the text between two bytes that it does not contain
trim_byte-quoted :
    (c x : ℕ) (s : Text) → Lacks c (x ∷ s) → trim_byte c (c ∷ (x ∷ s) ++ c ∷ []) ≡ x ∷ s
unfolding trim_byte
trim_byte-quoted c x s (p, h) =
    let back = reverse (x ∷ s) in
    let front : trim_left_byte c (c ∷ (x ∷ s) ++ c ∷ []) ≡ (x ∷ s) ++ c ∷ [] = ground arith in
    ap (λ l. reverse (trim_left_byte c (reverse l))) front
    ∙ ap (λ l. reverse (trim_left_byte c l)) (reverse-append (x ∷ s) (c ∷ []))
    ∙ ap reverse (
        trim_left_byte-first c back
        ∙ trim_left_byte-lacking c back (Lacks-reverse c (x ∷ s) (p, h)))
    ∙ reverse-reverse (x ∷ s)

-- The last part is the name, and there are others before it.
EndsIn : Text → List Text → Type 0
EndsIn name parts = (p : Text) × (ps : List Text) × (parts ≡ (p ∷ ps) ++ name ∷ [])

split-EndsIn :
    (dir name : Text) → Lacks b'/' name → EndsIn name (split (dir ++ b'/' ∷ name) (ascii "/"))
unfolding split EndsIn
split-EndsIn [] name h = ([], [], ap (λ l. [] ∷ l) (split-join b'/' name [] (h, tt)))
split-EndsIn (x ∷ dir) name h =
    let (p, ps, e) = split-EndsIn dir name h in
    elim (Bool-cases (x == b'/')) [
      | inl slash ↦ ([], p ∷ ps, ground (arith, slash, e))
      | inr other ↦ (x ∷ p, ps, ground (arith, other, e))
    ]

-- an import without an alias, of the path `dir/name` between quotes
pub record IsPath (dir name : Text) (s : ImportSpec) : Type 0 where
  pub unnamed : s.name ≡ none
  pub quoted : s.path ≡ b'"' ∷ (dir ++ b'/' ∷ name) ++ b'"' ∷ []
  pub no_quote : Lacks b'"' (dir ++ b'/' ∷ name)
  pub no_slash : Lacks b'/' name

trim-path :
    (dir name : Text)
    → Lacks b'"' (dir ++ b'/' ∷ name)
    → trim_byte b'"' (b'"' ∷ (dir ++ b'/' ∷ name) ++ b'"' ∷ []) ≡ dir ++ b'/' ∷ name
trim-path [] name h = trim_byte-quoted b'"' b'/' name h
trim-path (x ∷ dir) name h = trim_byte-quoted b'"' x (dir ++ b'/' ∷ name) h

import_name-IsPath : (dir name : Text) (s : ImportSpec) → IsPath dir name s → import_name s ≡ name
unfolding import_name path_name EndsIn
import_name-IsPath dir name s i =
    let trimmed = trim-path dir name i.no_quote in
    let (p, ps, parts) = split-EndsIn dir name i.no_slash in
    let last = get_last?-append (p ∷ ps) name in
    rw (import_name, i.unnamed, path_name, i.quoted, trimmed, parts, last) refl

-- Two imports of a file without an alias, of the paths `dir/name` and `other/name`, are both kept by
-- `ClearImports` exactly if somewhere in the file a name is selected from `name`, so that one use keeps
-- both, although a file may not import two packages under one name.
pub is_kept_both :
    (f : SourceFile) (i j : ℕ) (s r : ImportSpec) (dir other name : Text)
    → get_elem? f.imports i ≡ some s
    → get_elem? f.imports j ≡ some r
    → IsPath dir name s
    → IsPath other name r
    → (is_kept (collect_used_names f) s ≡ selects_decls name f.decls)
      × (is_kept (collect_used_names f) r ≡ selects_decls name f.decls)
unfolding is_dot_or_blank
is_kept_both f i j s r dir other name here there p q = (kept i s dir here p, kept j r other there q)
  where
    kept :
        (k : ℕ) (x : ImportSpec) (d : Text)
        → get_elem? f.imports k ≡ some x
        → IsPath d name x
        → is_kept (collect_used_names f) x ≡ selects_decls name f.decls
    kept k x d at path =
        is_kept-selects f k x at
        ∙ ap (λ n. is_dot_or_blank n || selects_decls (import_name x) f.decls) path.unnamed
        ∙ ap (λ n. selects_decls n f.decls) (import_name-IsPath d name x path)
