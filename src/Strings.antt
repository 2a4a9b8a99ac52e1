-- ===== src/Strings.antt =====
-- The functions of Go's standard package `strings` that the program calls, and the conversions
-- `string(b)` of a byte and `strconv.Itoa`, over the bytes of a text.
pub mod Laws
use mathlib.Core.Option
use mathlib.Core.List.{reverse, foldr}
use noted_runner.Prelude.{
  ℕ, zero, suc, ◌+◌, ◌-◌, ◌*◌, ◌/◌, ◌%◌, Bool, true, false, ◌&&◌, ◌||◌, Option, none, some, List,
  [], ◌∷◌, ◌++◌, map, ltb, leb, ◌==◌, if◌then◌else◌, length, get_last?, Text, ascii, text_eq,
}

-- strings.HasPrefix
unfoldable pub has_prefix : Text → Text → Bool
has_prefix s [] = true
has_prefix [] (y ∷ ys) = false
has_prefix (x ∷ xs) (y ∷ ys) = x == y && has_prefix xs ys

-- strings.HasSuffix, for a suffix of one byte
unfoldable pub has_last : Text → ℕ → Bool
has_last s c = elim (get_last? s) [ none ↦ false | some x ↦ x == c ]

-- strings.Contains
unfoldable pub contains_text : Text → Text → Bool
unfolding has_prefix
contains_text [] t = text_eq t []
contains_text (x ∷ xs) t = has_prefix (x ∷ xs) t || contains_text xs t

-- one more byte in front of the first part
unfoldable pub cons_head : ℕ → List Text → List Text
cons_head x [] = (x ∷ []) ∷ []
cons_head x (p ∷ ps) = (x ∷ p) ∷ ps

-- strings.Split at a separator that is not empty; the number counts the bytes of a separator that
-- are still to be passed over
unfoldable pub split_from : Text → ℕ → Text → List Text
unfolding has_prefix cons_head
split_from sep k [] = [] ∷ []
split_from sep (suc k) (x ∷ xs) = split_from sep k xs
split_from sep zero (x ∷ xs) =
    let here = has_prefix (x ∷ xs) sep in
    let rest = split_from sep (if here then length sep - 1 else 0) xs in
    if here then [] ∷ rest else cons_head x rest

unfoldable pub split : Text → Text → List Text
unfolding split_from
split s sep = split_from sep 0 s

-- the text before and behind the first occurrence of a byte
unfoldable pub cut : ℕ → Text → Option (Text × Text)
cut c [] = none
cut c (x ∷ xs) = if x == c then some ([], xs) else Option.map (λ p. (x ∷ p.0, p.1)) (cut c xs)

-- strings.SplitN(s, sep, 2) and strings.SplitAfterN(s, sep, 2) at a separator of one byte
unfoldable pub split_two : Text → ℕ → List Text
unfolding cut
split_two s c = elim (cut c s) [ none ↦ s ∷ [] | some (a, b) ↦ a ∷ b ∷ [] ]

unfoldable pub split_after_two : Text → ℕ → List Text
unfolding cut
split_after_two s c = elim (cut c s) [ none ↦ s ∷ [] | some (a, b) ↦ (a ++ c ∷ []) ∷ b ∷ [] ]

-- strings.TrimPrefix and strings.TrimSuffix at one byte
unfoldable pub trim_first : ℕ → Text → Text
trim_first c [] = []
trim_first c (x ∷ xs) = if x == c then xs else x ∷ xs

unfoldable pub trim_last : ℕ → Text → Text
trim_last c [] = []
trim_last c (x ∷ []) = if x == c then [] else x ∷ []
trim_last c (x ∷ y ∷ xs) = x ∷ trim_last c (y ∷ xs)

-- strings.Trim at a set of one byte
unfoldable pub trim_left_byte : ℕ → Text → Text
trim_left_byte c [] = []
trim_left_byte c (x ∷ xs) = let rest = trim_left_byte c xs in if x == c then rest else x ∷ xs

unfoldable pub trim_byte : ℕ → Text → Text
unfolding trim_left_byte
trim_byte c s = reverse (trim_left_byte c (reverse (trim_left_byte c s)))

unfoldable pub is_ascii_space : ℕ → Bool
is_ascii_space c = c == b' ' || leb 9 c && leb c 13

-- the three bytes of U+1680, U+2000 to U+200A, U+2028, U+2029, U+202F, U+205F and U+3000
unfoldable pub is_wide_space : ℕ → ℕ → ℕ → Bool
is_wide_space a b c =
    a == 0xe1 && b == 0x9a && c == 0x80
    || a == 0xe2 && b == 0x80 && (leb 0x80 c && leb c 0x8a || c == 0xa8 || c == 0xa9 || c == 0xaf)
    || a == 0xe2 && b == 0x81 && c == 0x9f
    || a == 0xe3 && b == 0x80 && c == 0x80

-- the number of bytes of the white space character that a text begins with, 0 if it begins with none
unfoldable pub space_width : Text → ℕ
unfolding is_ascii_space is_wide_space
space_width [] = 0
space_width (a ∷ []) = if is_ascii_space a then 1 else 0
space_width (a ∷ b ∷ []) =
    if is_ascii_space a then 1 else if a == 0xc2 && (b == 0x85 || b == 0xa0) then 2 else 0
space_width (a ∷ b ∷ c ∷ s) =
    if is_ascii_space a
    then 1
    else if a == 0xc2 && (b == 0x85 || b == 0xa0)
    then 2
    else if is_wide_space a b c
    then 3
    else 0

-- the same from the end, on the reversed text
unfoldable pub last_space_width : Text → ℕ
unfolding is_ascii_space is_wide_space
last_space_width [] = 0
last_space_width (a ∷ []) = if is_ascii_space a then 1 else 0
last_space_width (a ∷ b ∷ []) =
    if is_ascii_space a then 1 else if b == 0xc2 && (a == 0x85 || a == 0xa0) then 2 else 0
last_space_width (a ∷ b ∷ c ∷ s) =
    if is_ascii_space a
    then 1
    else if b == 0xc2 && (a == 0x85 || a == 0xa0)
    then 2
    else if is_wide_space c b a
    then 3
    else 0

unfoldable pub trim_left_by : (Text → ℕ) → ℕ → Text → Text
trim_left_by width k [] = []
trim_left_by width (suc k) (x ∷ xs) = trim_left_by width k xs
trim_left_by width zero (x ∷ xs) = elim (width (x ∷ xs)) [
  | zero ↦ x ∷ xs
  | suc k ↦ trim_left_by width k xs
]

-- strings.TrimSpace
unfoldable pub trim_space : Text → Text
unfolding trim_left_by space_width last_space_width
trim_space s = reverse (trim_left_by last_space_width 0 (reverse (trim_left_by space_width 0 s)))

-- strings.ToLower on ASCII
unfoldable pub to_lower : Text → Text
to_lower = map (λ c. if leb b'A' c && leb c b'Z' then c + 32 else c)

-- strings.ReplaceAll of one byte by one byte
unfoldable pub replace_all : Text → ℕ → ℕ → Text
replace_all s a b = map (λ c. if c == a then b else c) s

-- `string(b)` of a byte: the UTF-8 encoding of the code point with the byte's number
unfoldable pub string_of_byte : ℕ → Text
string_of_byte b = if ltb b 128 then b ∷ [] else (0xc0 + b / 64) ∷ (0x80 + b % 64) ∷ []

itoa_fuel : ℕ → ℕ → Text
itoa_fuel zero n = []
itoa_fuel (suc f) n =
    let more = itoa_fuel f (n / 10) in
    if ltb n 10 then (b'0' + n) ∷ [] else more ++ (b'0' + n % 10) ∷ []

-- strconv.Itoa of a number that is not negative; a number has at most as many digits as its value
-- and one
unfoldable pub itoa : ℕ → Text
unfolding itoa_fuel
itoa n = itoa_fuel (suc n) n
