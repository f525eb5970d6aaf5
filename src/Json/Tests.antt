-- ===== src/Json/Tests.antt =====
-- A text with a quote and a letter outside ASCII, an object, and a list of keys.
use sobs.Prelude.{ℕ, ◌≤◌, ◌<◌, ◌≡◌, true, List, [], ◌∷◌, All}
use sobs.Text.{Text, lit}
use sobs.Json.{str, Fields, field, no_fields}
use sobs.Json.Encode.{encode_string, sort_strings}
use sobs.Json.Objects.{SetsKey, set-SetsKey}
use sobs.Json.Ascii.{encode_string-IsPlain}
use sobs.Json.Sorting.{Ascending, occurrences, sort_strings-IsSorting}

encode_string-IsPlain_example :
    All (λ c. (0x20 ≤ c) × (c < 0x80)) (encode_string true (b'"' ∷ 0xc3 ∷ 0xa9 ∷ []))
encode_string-IsPlain_example = encode_string-IsPlain (b'"' ∷ 0xc3 ∷ 0xa9 ∷ [])

abbrev one_field : Fields ℕ
one_field = field (lit "b") (str (lit "x")) no_fields

set-SetsKey_example : SetsKey one_field (lit "a") (str (lit "y"))
set-SetsKey_example = set-SetsKey one_field (lit "a") (str (lit "y"))

abbrev three_keys : List Text
three_keys = lit "b" ∷ lit "a" ∷ lit "b" ∷ []

sort_strings-IsSorting_example :
    Ascending (sort_strings three_keys)
    × ((s : Text) → occurrences s (sort_strings three_keys) ≡ occurrences s three_keys)
sort_strings-IsSorting_example = sort_strings-IsSorting three_keys
