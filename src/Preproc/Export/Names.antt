-- ===== src/Preproc/Export/Names.antt =====
-- The lines of the plugin that carry names between blocks: each name once.
use noted_runner.Prelude.{
  ◌≡◌, sym, Bool, true, false, not, ◌&&◌, List, [], ◌∷◌, ◌++◌, arith, Text, ◌∙◌, contains,
  text_eq_iff, text_eq_refl, if◌then◌else◌, Bool-cases, inl, inr,
}
use mathlib.Core.List.{append_assoc, append-nil}
use noted_runner.Preproc.Export.{reuse_line, reuse_lines, store_line, store_lines}

-- no name twice
abbrev pub Distinct : List Text → Type 0
Distinct [] = Unit
Distinct (n ∷ ns) = (contains n ns ≡ false) × Distinct ns

abbrev pub all_lines : (Text → Text) → List Text → Text
all_lines line [] = []
all_lines line (n ∷ ns) = line n ++ all_lines line ns

-- The names that pass a test, each at its first occurrence, without those in `seen`.
fresh_names : (Text → Bool) → List Text → List Text → List Text
fresh_names ok_name seen [] = []
fresh_names ok_name seen (n ∷ ns) =
    let fresh = ok_name n && not (contains n seen) in
    let rest = fresh_names ok_name (if fresh then n ∷ seen else seen) ns in
    if fresh then n ∷ rest else rest

module _ (p : Text → Bool) where
  mem-fresh_names :
      (a : Text) (seen ns : List Text)
      → contains a (fresh_names p seen ns) ≡ (p a && (not (contains a seen) && contains a ns))
  unfolding fresh_names contains
  mem-fresh_names a seen [] = ground arith
  mem-fresh_names a seen (n ∷ ns) =
      ground (arith, text_eq_iff n a, mem-fresh_names a (n ∷ seen) ns, mem-fresh_names a seen ns)

  new-fresh_names :
      (n : Text) (seen ns : List Text) → contains n (fresh_names p (n ∷ seen) ns) ≡ false
  unfolding contains
  new-fresh_names n seen ns = ground (arith, mem-fresh_names n (n ∷ seen) ns, text_eq_refl n)

  Distinct-fresh_names : (seen ns : List Text) → Distinct (fresh_names p seen ns)
  unfolding fresh_names
  Distinct-fresh_names seen [] = tt
  Distinct-fresh_names seen (n ∷ ns) = elim (Bool-cases (p n && not (contains n seen))) [
    | inl fresh ↦ rw fresh (new-fresh_names n seen ns, Distinct-fresh_names (n ∷ seen) ns)
    | inr stale ↦ rw stale (Distinct-fresh_names seen ns)
  ]

abbrev always : Text → Bool
always n = true

store_lines-fresh :
    (m : Text) (used ns : List Text) (mains : Text)
    → store_lines m used ns mains ≡ mains ++ all_lines (store_line m) (fresh_names always used ns)
unfolding store_lines fresh_names
store_lines-fresh m used [] mains = sym (append-nil mains)
store_lines-fresh m used (n ∷ ns) mains = elim (Bool-cases (contains n used)) [
  | inl seen ↦ rw seen (store_lines-fresh m used ns mains)
  | inr fresh ↦ rw fresh (
      store_lines-fresh m (n ∷ used) ns (mains ++ store_line m n)
      ∙ append_assoc mains (store_line m n) _)
]

-- the names of other blocks
abbrev foreign : List Text → Text → Bool
foreign declared n = not (contains n declared)

reuse_lines-fresh :
    (m : Text) (types : List (Text × Text)) (declared placed ns : List Text) (mains : Text)
    → reuse_lines m types declared placed ns mains
      ≡ mains ++ all_lines (reuse_line m types) (fresh_names (foreign declared) placed ns)
unfolding reuse_lines fresh_names
reuse_lines-fresh m types declared placed [] mains = sym (append-nil mains)
reuse_lines-fresh m types declared placed (n ∷ ns) mains =
    elim (Bool-cases (not (contains n declared) && not (contains n placed))) [
      | inl fresh ↦ rw fresh (
          reuse_lines-fresh m types declared (n ∷ placed) ns (mains ++ reuse_line m types n)
          ∙ append_assoc mains (reuse_line m types n) _)
      | inr stale ↦ rw stale (reuse_lines-fresh m types declared placed ns mains)
    ]

-- The plugin stores every name that the block declares, and no other, in exactly one line each.
pub store_lines_lem :
    (m : Text) (names : List Text) (mains : Text)
    → (ns : List Text) × (store_lines m [] names mains ≡ mains ++ all_lines (store_line m) ns)
      × Distinct ns
      × ((a : Text) → contains a ns ≡ contains a names)
unfolding contains
store_lines_lem m names mains = (
  fresh_names always [] names,
  store_lines-fresh m [] names mains,
  Distinct-fresh_names always [] names,
  λ a. mem-fresh_names always a [] names,
)

-- The plugin reads every name of an earlier block that the block uses and does not declare itself, and
-- no other name, in exactly one line each.
pub reuse_lines_lem :
    (m : Text) (types : List (Text × Text)) (declared reused : List Text) (mains : Text)
    → (ns : List Text) × (reuse_lines m types declared [] reused mains
        ≡ mains ++ all_lines (reuse_line m types) ns)
      × Distinct ns
      × ((a : Text) → contains a ns ≡ (not (contains a declared) && contains a reused))
unfolding contains
reuse_lines_lem m types declared reused mains = (
  fresh_names (foreign declared) [] reused,
  reuse_lines-fresh m types declared [] reused mains,
  Distinct-fresh_names (foreign declared) [] reused,
  λ a. mem-fresh_names (foreign declared) a [] reused,
)
