-- ===== src/Text.antt =====
-- Go strings as lists of bytes, with the functions of Go's package strings that the program calls.
-- Spaces and letter cases are those of ASCII.
pub mod Laws
pub mod Utf8
use Prim.Native.Char.{code}
use sobs.Prelude.Int.{ℤ, pos, negsuc}
use sobs.Prelude.{
  ℕ, zero, suc, ◌+◌, ◌-◌, ◌*◌, ◌/◌, ◌%◌, String, Bool, true, false, ◌&&◌, ◌||◌, Option, none, some,
  List, [], ◌∷◌, ◌++◌, map, leb, ltb, ◌==◌, if◌then◌else◌, is_some, is_nil, length, drop,
}

abbrev pub Text : Type 0
Text = List ℕ

abbrev codes : String → Text
codes String.[] = []
codes (String.◌∷◌ c s) = code c ∷ codes s

-- A string literal.
unfoldable pub lit : String → Text
lit s = codes s

unfoldable pub text_eq : Text → Text → Bool
text_eq [] [] = true
text_eq (a ∷ s) (b ∷ t) = a == b && text_eq s t
text_eq _ _ = false

-- strings.CutPrefix
unfoldable pub cut_prefix : Text → Text → Option Text
cut_prefix s [] = some s
cut_prefix [] (p ∷ ps) = none
cut_prefix (c ∷ s) (p ∷ ps) = let rest = cut_prefix s ps in if c == p then rest else none

unfoldable pub has_prefix : Text → Text → Bool
unfolding cut_prefix
has_prefix s p = is_some (cut_prefix s p)

-- strings.CutSuffix
unfoldable pub cut_suffix : Text → Text → Option Text
unfolding text_eq
cut_suffix [] p = if text_eq [] p then some [] else none
cut_suffix (c ∷ s) p =
    let rest = cut_suffix s p in
    if text_eq (c ∷ s) p then some [] else elim rest [ none ↦ none | some r ↦ some (c ∷ r) ]

unfoldable pub has_suffix : Text → Text → Bool
unfolding cut_suffix
has_suffix s p = is_some (cut_suffix s p)

-- strings.TrimLeft and TrimRight, with the cutset as a test
unfoldable pub trim_left : (ℕ → Bool) → Text → Text
trim_left p [] = []
trim_left p (c ∷ s) = let rest = trim_left p s in if p c then rest else c ∷ s

unfoldable pub trim_right : (ℕ → Bool) → Text → Text
trim_right p [] = []
trim_right p (c ∷ s) = let rest = trim_right p s in if is_nil rest && p c then [] else c ∷ rest

unfoldable pub trim : (ℕ → Bool) → Text → Text
unfolding trim_left trim_right
trim p s = trim_right p (trim_left p s)

unfoldable pub is_space : ℕ → Bool
is_space c = c == 32 || (leb 9 c && leb c 13)

unfoldable pub trim_space : Text → Text
unfolding trim is_space
trim_space s = trim is_space s

unfoldable pub lower_byte : ℕ → ℕ
lower_byte c = if leb 65 c && leb c 90 then c + 32 else c

unfoldable pub to_lower : Text → Text
unfolding lower_byte
to_lower s = map lower_byte s

unfoldable pub upper_byte : ℕ → ℕ
upper_byte c = if leb 97 c && leb c 122 then c - 32 else c

unfoldable pub to_upper : Text → Text
unfolding upper_byte
to_upper s = map upper_byte s

-- strings.Index; `none` is -1
unfoldable pub index : Text → Text → Option ℕ
unfolding has_prefix
index [] sub = if is_nil sub then some 0 else none
index (c ∷ s) sub =
    let rest = index s sub in
    if has_prefix (c ∷ s) sub then some 0 else elim rest [ none ↦ none | some i ↦ some (suc i) ]

unfoldable pub contains : Text → Text → Bool
unfolding index
contains s sub = is_some (index s sub)

abbrev pub on_head : ℕ → List Text → List Text
on_head c [] = (c ∷ []) ∷ []
on_head c (x ∷ xs) = (c ∷ x) ∷ xs

-- strings.Split at a separator of one byte
unfoldable pub split : ℕ → Text → List Text
split sep [] = [] ∷ []
split sep (c ∷ s) = let rest = split sep s in if c == sep then [] ∷ rest else on_head c rest

unfoldable pub join : Text → List Text → Text
join sep [] = []
join sep (x ∷ []) = x
join sep (x ∷ y ∷ xs) = x ++ (sep ++ join sep (y ∷ xs))

-- The text before the first occurrence of a byte, or all of it.
unfoldable pub before_byte : ℕ → Text → Text
before_byte sep [] = []
before_byte sep (c ∷ s) = let rest = before_byte sep s in if c == sep then [] else c ∷ rest

-- strings.Cut at a byte: the text behind its first occurrence
unfoldable pub after_byte : ℕ → Text → Text
after_byte sep [] = []
after_byte sep (c ∷ s) = let rest = after_byte sep s in if c == sep then s else rest

-- s[:strings.LastIndexByte(s, sep)], or all of it where the byte does not occur
unfoldable pub before_last_byte : ℕ → Text → Option Text
before_last_byte sep [] = none
before_last_byte sep (c ∷ s) =
    let rest = before_last_byte sep s in
    elim rest [ some r ↦ some (c ∷ r) | none ↦ if c == sep then some [] else none ]

unfoldable pub member : Text → List Text → Bool
unfolding text_eq
member s [] = false
member s (x ∷ xs) = text_eq s x || member s xs

-- strconv.Itoa of a number that is not negative; one digit for each unit of fuel
decimal_loop : ℕ → ℕ → Text → Text
decimal_loop zero n out = out
decimal_loop (suc f) n out =
    let rest = decimal_loop f (n / 10) ((48 + n % 10) ∷ out) in
    if ltb n 10 then (48 + n) ∷ out else rest

unfoldable pub decimal : ℕ → Text
unfolding decimal_loop
decimal n = decimal_loop (suc n) n []

-- strconv.Itoa
unfoldable pub itoa : ℤ → Text
unfolding decimal
itoa (pos n) = decimal n
itoa (negsuc n) = b'-' ∷ decimal (suc n)

-- strings.Split at a separator of one byte or more; the number counts the separator's bytes that are
-- still to be passed over.
unfoldable pub split_from : Text → ℕ → Text → List Text
split_from sep skip [] = [] ∷ []
split_from sep (suc skip) (c ∷ s) = split_from sep skip s
split_from sep zero (c ∷ s) =
    let after = split_from sep (length sep - 1) s in
    let rest = split_from sep zero s in
    if has_prefix (c ∷ s) sep then [] ∷ after else on_head c rest

unfoldable pub split_on : Text → Text → List Text
unfolding split_from has_prefix
split_on sep s = split_from sep 0 s

-- Go's order of strings.
unfoldable pub text_lt : Text → Text → Bool
text_lt [] [] = false
text_lt [] (d ∷ t) = true
text_lt (c ∷ s) [] = false
text_lt (c ∷ s) (d ∷ t) = let rest = text_lt s t in if c == d then rest else ltb c d
