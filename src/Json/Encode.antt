-- ===== src/Json/Encode.antt =====
-- The encoder: values, objects, arrays and strings.
use sobs.Prelude.{
  ℕ, zero, suc, ◌+◌, ◌-◌, ◌/◌, ◌%◌, Bool, true, false, not, ◌||◌, List, [], ◌∷◌, ◌++◌, map, ltb,
  leb, ◌==◌, if◌then◌else◌, is_nil,
}
use sobs.Text.{text_lt, Text, lit, text_eq, join, itoa}
use sobs.Text.Utf8.{runes, encode_rune}
use sobs.Json.{
  null, boolean, number, str, int, float, object, array, no_fields, field, no_items, item, item,
  field, array, object, float, int, str, number, boolean, Json, Fields, Items, keys, Options,
  Floats, encode_float,
}

unfoldable pub hex_digit : ℕ → ℕ
hex_digit d = if ltb d 10 then 48 + d else 87 + d

-- `\u%04x` of a number below 0x10000
unfoldable pub unicode_escape : ℕ → Text
unfolding hex_digit
unicode_escape r =
    92
    ∷ b'u'
    ∷ hex_digit (r / 4096)
    ∷ hex_digit ((r / 256) % 16)
    ∷ hex_digit ((r / 16) % 16)
    ∷ hex_digit (r % 16)
    ∷ []

unfoldable pub utf16_pair : ℕ → ℕ × ℕ
utf16_pair r = let s = r - 0x10000 in (0xd800 + s / 1024, 0xdc00 + s % 1024)

-- The body of the loop over the runes.
unfoldable pub escape_rune : Bool → ℕ → Text
unfolding unicode_escape utf16_pair encode_rune
escape_rune ensure_ascii r =
    if r == b'"'
    then 92 ∷ b'"' ∷ []
    else if r == 92
    then 92 ∷ 92 ∷ []
    else if r == 10
    then 92 ∷ b'n' ∷ []
    else if r == 13
    then 92 ∷ b'r' ∷ []
    else if r == 9
    then 92 ∷ b't' ∷ []
    else if r == 8
    then 92 ∷ b'b' ∷ []
    else if r == 12
    then 92 ∷ b'f' ∷ []
    else if ltb r 0x20
    then unicode_escape r
    else if ltb r 0x80 || not ensure_ascii
    then encode_rune r
    else if leb r 0xffff
    then unicode_escape r
    else unicode_escape (utf16_pair r).0 ++ unicode_escape (utf16_pair r).1

unfoldable pub escape_runes : Bool → List ℕ → Text
unfolding escape_rune
escape_runes ensure_ascii [] = []
escape_runes ensure_ascii (r ∷ rs) = escape_rune ensure_ascii r ++ escape_runes ensure_ascii rs

unfoldable pub encode_string : Bool → Text → Text
unfolding escape_runes
encode_string ensure_ascii s = b'"' ∷ (escape_runes ensure_ascii (runes s) ++ b'"' ∷ [])

-- One pass of the inner loop: the key moves down while its neighbour is greater. The keys before it
-- stand nearest first.
unfoldable pub sink : Text → List Text → List Text
sink x [] = x ∷ []
sink x (y ∷ ys) = let rest = sink x ys in if text_lt x y then y ∷ rest else x ∷ y ∷ ys

unfoldable pub sort_loop : List Text → List Text → List Text
unfolding sink
sort_loop done [] = done
sort_loop done (x ∷ xs) = sort_loop (sink x done) xs

unfoldable pub onto : List Text → List Text → List Text
onto [] ys = ys
onto (x ∷ xs) ys = onto xs (x ∷ ys)

unfoldable pub sort_strings : List Text → List Text
unfolding sort_loop onto
sort_strings s = onto (sort_loop [] s) []

unfoldable pub repeat : ℕ → Text → Text
repeat zero s = []
repeat (suc n) s = s ++ repeat n s

unfoldable pub newline_indent : Options → ℕ → Text
unfolding repeat
newline_indent opts level = if is_nil opts.indent then [] else 10 ∷ repeat level opts.indent

-- The entries of a bracket, each on its line, parted by the separator.
unfoldable pub enclose : Options → ℕ → ℕ → ℕ → List Text → Text
unfolding newline_indent
enclose opts depth open_byte close_byte [] = open_byte ∷ close_byte ∷ []
enclose opts depth open_byte close_byte (e ∷ es) =
    open_byte
    ∷ (join opts.item_sep (map (λ x. newline_indent opts (suc depth) ++ x) (e ∷ es))
        ++ (newline_indent opts depth ++ close_byte ∷ []))

-- `o.vals[k]`, of the values as they are written.
unfoldable pub written : List (Text × Text) → Text → Text
written [] k = []
written ((k', v) ∷ vs) k = let rest = written vs k in if text_eq k' k then v else rest

unfoldable pub entries : Options → List (Text × Text) → List Text → List Text
unfolding written encode_string
entries opts vs [] = []
entries opts vs (k ∷ ks) =
    (encode_string opts.ensure_ascii k ++ (opts.key_sep ++ written vs k)) ∷ entries opts vs ks

module _ {F : Type 0} (fl : Floats F) (opts : Options) where
  unfoldable mutual
    pub encode_value : ℕ → Json F → Text
    encode_value depth null = lit "null"
    encode_value depth (boolean true) = lit "true"
    encode_value depth (boolean false) = lit "false"
    encode_value depth (number x) = x
    encode_value depth (str x) = encode_string opts.ensure_ascii x
    encode_value depth (int x) = itoa x
    encode_value depth (float x) = encode_float fl x
    encode_value depth (object o) = enclose opts depth b'{' b'}' (
        entries opts (encode_fields (suc depth) o)
          (if opts.sort_keys then sort_strings (keys o) else keys o))
    encode_value depth (array a) = enclose opts depth b'[' b']' (encode_items (suc depth) a)

    pub encode_fields : ℕ → Fields F → List (Text × Text)
    encode_fields depth no_fields = []
    encode_fields depth (field k v o) = (k, encode_value depth v) ∷ encode_fields depth o

    pub encode_items : ℕ → Items F → List Text
    encode_items depth no_items = []
    encode_items depth (item v a) = encode_value depth v ∷ encode_items depth a

  unfoldable pub encode : Json F → Text
  unfolding encode_value
  encode v = encode_value 0 v ++ (if opts.trailing_nl then 10 ∷ [] else [])
