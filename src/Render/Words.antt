-- ===== src/Render/Words.antt =====
-- The text helpers of go/internal/render/parse.go and eval.go that the parser calls.
use sobs.Prelude.{
  ℕ, suc, Bool, false, not, ◌&&◌, ◌||◌, Option, none, some, List, [], ◌∷◌, map, ◌==◌, if◌then◌else◌,
  from_option,
}
use sobs.Prelude.Int.{ℤ, pos, negsuc, ◌-ℤ◌}
use sobs.Text.{Text, cut_prefix, has_prefix, cut_suffix, trim_space, split}
use sobs.Text.{on_head}

-- strings.TrimPrefix
unfoldable pub trim_prefix : Text → Text → Text
unfolding cut_prefix
trim_prefix s p = from_option s (cut_prefix s p)

-- What a tag says behind its keyword.
unfoldable pub argument : Text → Text → Text
unfolding trim_prefix
argument text kw = trim_space (trim_prefix text kw)

unfoldable pub until_blank : Text → Text
until_blank [] = []
until_blank (c ∷ s) = let rest = until_blank s in if c == 32 || c == 9 then [] else c ∷ rest

unfoldable pub first_word : Text → Text
unfolding until_blank
first_word s = until_blank (trim_space s)

unfoldable pub split_vars : Text → List Text
split_vars s = map trim_space (split b',' s)

abbrev is_quote : ℕ → Bool
is_quote c = c == b'"' || c == 39

-- The text between two equal quotes, or none.
between_quotes : Text → Option Text
between_quotes [] = none
between_quotes (c ∷ s) = if is_quote c then cut_suffix s (c ∷ []) else none

unfoldable pub unquote : Text → Text
unfolding between_quotes
unquote s = from_option (trim_space s) (between_quotes (trim_space s))

abbrev zero_depth : ℤ → Bool
zero_depth (pos n) = n == 0
zero_depth (negsuc n) = false

-- The quote that is open behind a byte; 0 for none.
quote_after : ℕ → ℕ → ℕ
quote_after q c = if q == 0 then if is_quote c then c else 0 else if c == q then 0 else q

-- A bracket counts outside quotes; `o` and `e` tell an opening and a closing bracket.
depth_after : (ℕ → Bool) → (ℕ → Bool) → ℕ → ℤ → ℕ → ℤ
depth_after o e q d c =
    if not (q == 0) || is_quote c
    then d
    else if o c
    then d -ℤ negsuc 0
    else if e c
    then d -ℤ pos 1
    else d

-- A byte outside quotes and brackets that is none of these itself.
top_level : (ℕ → Bool) → (ℕ → Bool) → ℕ → ℤ → ℕ → Bool
top_level o e q d c = q == 0 && not (is_quote c) && not (o c) && not (e c) && zero_depth d

abbrev opens_split : ℕ → Bool
opens_split c = c == b'(' || c == b'[' || c == b'{'

abbrev closes_split : ℕ → Bool
closes_split c = c == b')' || c == b']' || c == b'}'

unfoldable pub split_top_from : ℕ → ℤ → ℕ → Text → List Text
unfolding quote_after depth_after top_level
split_top_from q d sep [] = [] ∷ []
split_top_from q d sep (c ∷ s) =
    let rest =
      split_top_from (quote_after q c) (depth_after opens_split closes_split q d c) sep s in
    if top_level opens_split closes_split q d c && c == sep then [] ∷ rest else on_head c rest

unfoldable pub split_top : Text → ℕ → List Text
unfolding split_top_from
split_top s sep = split_top_from 0 (pos 0) sep s

abbrev opens_assign : ℕ → Bool
opens_assign c = c == b'(' || c == b'['

abbrev closes_assign : ℕ → Bool
closes_assign c = c == b')' || c == b']'

-- An `=` that is part of no comparison: the byte before it (0 at the front) and the text behind it.
lone_equals : ℕ → Text → Bool
lone_equals before s =
    not (before == b'=' || before == b'!' || before == b'<' || before == b'>')
    && not (has_prefix s (b'=' ∷ []))

-- The index of a top-level `=`; `none` is -1. The first argument is the byte before the text.
unfoldable pub top_level_assign_from : ℕ → ℕ → ℤ → Text → Option ℕ
unfolding quote_after depth_after top_level lone_equals
top_level_assign_from before q d [] = none
top_level_assign_from before q d (c ∷ s) =
    let rest =
      top_level_assign_from c (quote_after q c) (depth_after opens_assign closes_assign q d c) s in
    if c == b'=' && top_level opens_assign closes_assign q d c && lone_equals before s
    then some 0
    else elim rest [ none ↦ none | some i ↦ some (suc i) ]

unfoldable pub top_level_assign : Text → Option ℕ
unfolding top_level_assign_from
top_level_assign s = top_level_assign_from 0 0 (pos 0) s

-- strings.IndexByte and LastIndexByte; `none` is -1.
unfoldable pub index_byte : ℕ → Text → Option ℕ
index_byte b [] = none
index_byte b (c ∷ s) =
    let rest = index_byte b s in
    if c == b then some 0 else elim rest [ none ↦ none | some i ↦ some (suc i) ]

unfoldable pub last_index_byte : ℕ → Text → Option ℕ
last_index_byte b [] = none
last_index_byte b (c ∷ s) = elim (last_index_byte b s) [
  | some i ↦ some (suc i)
  | none ↦ if c == b then some 0 else none
]
