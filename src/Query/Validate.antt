-- ===== src/Query/Validate.antt =====
-- The validation itself: go/cmd/sobs/sql_validate.go. What package regexp finds with the file's four
-- patterns is the argument `Scans`; the allowlist is built from the configuration elsewhere.
pub mod Safe
pub mod Tests
use sobs.Prelude.{
  ℕ, zero, suc, ◌+◌, ◌-◌, ◌*◌, ◌/◌, ◌%◌, ◌≤◌, ◌<◌, ◌≡◌, refl, sym, ap, ap₂, ◌∙◌, subst, ◌≢◌, ◌↔◌,
  ◌⊎◌, inl, inr, Bool, true, false, not, ◌&&◌, ◌||◌, false≢true, Option, none, some, List, [], ◌∷◌,
  ◌++◌, map, append_assoc, append-nil, arith, ltb, leb, ◌==◌, if◌then◌else◌, ltb→lt, ==_iff,
  Bool-cases, Option-cases, is_some, from_option, length, get_elem?, take, drop, is_nil, keep_if,
  all_of, All, length-append, length-take, take-append-drop,
}
use sobs.Text.{
  Text, lit, text_eq, cut_prefix, has_prefix, cut_suffix, has_suffix, trim_left, trim_right, trim,
  is_space, trim_space, lower_byte, to_lower, to_upper, index, contains, split, join, before_byte,
  after_byte, before_last_byte, member, decimal, itoa, split_on,
}
use sobs.Query.Difflib.{get_close_matches}

-- Whether unsafeSQLPatterns matches, and the first groups of all matches of the other three patterns.
pub record Scans : Type 0 where
  pub unsafe_match : Text → Bool
  pub cte_aliases : Text → List Text
  pub array_joins : Text → List Text
  pub table_refs : Text → List Text

abbrev pub safe_sql_prefixes : List Text
safe_sql_prefixes =
    lit "select" ∷ lit "explain" ∷ lit "show" ∷ lit "describe" ∷ lit "desc" ∷ lit "with" ∷ []

-- strings.Fields(s)[0] of a text that begins with no space
unfoldable pub first_field : Text → Text
first_field [] = []
first_field (c ∷ s) = let rest = first_field s in if is_space c then [] else c ∷ rest

unfoldable pub lower_capture_set : List Text → List Text
lower_capture_set captures = map to_lower captures

-- parts[0] and parts[len(parts)-1]
first_part : List Text → Text
first_part [] = []
first_part (p ∷ _) = p

last_part : List Text → Text
last_part [] = []
last_part (p ∷ []) = p
last_part (_ ∷ p ∷ ps) = last_part (p ∷ ps)

unfoldable pub database_of : Text → Text
unfolding first_part
database_of ref =
    let parts = split b'.' ref in if ltb 1 (length parts) then first_part parts else lit "default"

unfoldable pub table_of : Text → Text
unfolding last_part
table_of ref = last_part (split b'.' ref)

-- One round of the loop over the references: whether it blocks.
unfoldable pub ref_blocked : List Text → List Text → Text → Bool
unfolding lower_capture_set
ref_blocked allowed excluded ref =
    let ref_lower = to_lower ref in
    let db_name = database_of ref_lower in
    if member ref_lower excluded
    then false
    else if text_eq db_name (lit "system")
    then false
    else if not (text_eq db_name (lit "default"))
    then true
    else not (member (table_of ref_lower) allowed)

first_blocked : List Text → List Text → List Text → Text
first_blocked allowed excluded [] = []
first_blocked allowed excluded (ref ∷ refs) =
    let rest = first_blocked allowed excluded refs in
    if ref_blocked allowed excluded ref then ref else rest

unfoldable pub check_table_refs : Scans → List Text → Text → Text
unfolding first_blocked lower_capture_set
check_table_refs sc allowed sql =
    first_blocked allowed
      (lower_capture_set (sc.cte_aliases sql) ++ lower_capture_set (sc.array_joins sql))
      (sc.table_refs sql)

unfoldable pub suggest_allowed_table_names : List Text → Text → ℕ → List Text
suggest_allowed_table_names allowed blocked_ref max_suggestions =
    let table_name = table_of (to_lower blocked_ref) in
    if is_nil table_name
    then []
    else get_close_matches table_name allowed max_suggestions (record { num = 45; den = 100 })

-- The message for a blocked reference; the text "…" of the second message is three bytes of UTF-8.
unfoldable pub blocked_message : List Text → Text → Text
blocked_message allowed blocked =
    let suggestions = suggest_allowed_table_names allowed blocked 5 in
    let suggestion_text =
      if is_nil suggestions
      then []
      else lit " Closest allowed names: " ++ (join (lit ", ") suggestions ++ lit ".") in
    lit "Access to table or view '"
    ++ (blocked
        ++ (lit
              "' is not permitted. Only approved observability tables may be queried via the Query page. Allowed tables: "
            ++ (join (lit ", ") allowed
                ++ (lit "."
                    ++ (suggestion_text
                        ++ lit
                            " If this is a valid custom table/view, add it via SOBS_QUERY_ALLOWED_TABLES.")))))

abbrev pub keyword_message : Text
keyword_message =
    lit
      "SQL statement contains a disallowed write or DDL keyword (INSERT, UPDATE, DELETE, DROP, CREATE, TRUNCATE, "
    ++ (0xe2 ∷ 0x80 ∷ 0xa6 ∷ lit ").")

-- The empty text means that the statement may run; `allowed` is the sorted allowlist.
unfoldable pub validate_sql : Scans → List Text → Text → Text
unfolding first_field blocked_message
validate_sql sc allowed sql =
    let stripped = trim_space sql in
    let first_token = to_lower (first_field stripped) in
    let blocked = check_table_refs sc allowed stripped in
    if is_nil stripped
    then lit "SQL statement is empty."
    else if not (member first_token safe_sql_prefixes)
    then lit "Only read-only SQL is allowed (SELECT, EXPLAIN, SHOW, DESCRIBE, WITH). Got: '"
      ++ (to_upper first_token ++ lit "'.")
    else if sc.unsafe_match stripped
    then keyword_message
    else if is_nil blocked
    then []
    else blocked_message allowed blocked
