-- ===== src/Masking/Patterns.antt =====
-- The masking patterns of go/cmd/sobs/masking.go and output_mask.go: validation, loading, activity.
use sobs.Prelude.{
  ℕ, Bool, ◌||◌, Option, none, some, List, [], ◌∷◌, ◌++◌, ltb, if◌then◌else◌, length, drop, is_nil,
}
use sobs.Text.{Text, lit, trim_space, contains, join, member, split_on}

-- What the regular expression engines do. `compile_error` is the error of compileUserRegex, `replacer`
-- the replacement by the mask of a pattern that compiles; the others are the four expressions of
-- masking.go: two tests, the inline flags that are found, and the groups without their names.
pub record Engine : Type 0 where
  pub compile_error : Text → Option Text
  pub replacer : Text → Option (Text → Text)
  pub has_nested_quantifier : Text → Bool
  pub has_ambiguous_altern : Text → Bool
  pub inline_flags : Text → Text
  pub unname_groups : Text → Text

abbrev pub default_sensitive_patterns : List Text
default_sensitive_patterns =
    lit "\\b[A-Za-z0-9._%+\\-]+@[A-Za-z0-9.\\-]+\\.[A-Za-z]{2,}\\b"
    ∷ lit "\\beyJ[A-Za-z0-9\\-_]+\\.[A-Za-z0-9\\-_]+\\.[A-Za-z0-9\\-_]*\\b"
    ∷ lit "(?i)bearer\\s+[A-Za-z0-9\\-_.~+/]+=*"
    ∷ lit "\\bAKIA[0-9A-Z]{16}\\b"
    ∷ lit "\\b\\d{3}-\\d{2}-\\d{4}\\b"
    ∷ lit "\\b4[0-9]{12}(?:[0-9]{3})?\\b"
    ∷ lit "\\b5[1-5][0-9]{14}\\b"
    ∷ lit "\\b3[47][0-9]{13}\\b"
    ∷ lit "\\b6(?:011|5[0-9]{2})[0-9]{12}\\b"
    ∷ lit
        "-----BEGIN (?:RSA |EC |DSA |OPENSSH )?PRIVATE KEY-----[\\s\\S]+?-----END (?:RSA |EC |DSA |OPENSSH )?PRIVATE KEY-----"
    ∷ lit
        "(?i)(?:password|passwd|pwd|secret|api[_\\-]?key|auth[_\\-]?token|access[_\\-]?token)\\s*[=:]\\s*['\"]?[A-Za-z0-9\\-_.~+/!@#$%^&*]{6,}['\"]?"
    ∷ lit "(?i)(?:Authorization|X-Api-Key|X-Auth-Token)\\s*:\\s*[^\\r\\n]+"
    ∷ []

abbrev pub max_custom_masking_pattern_length : ℕ
max_custom_masking_pattern_length = 512

pub data PatternError : Type 0 where
  pattern_required : PatternError
  no_compile : Text → PatternError
  too_long : PatternError
  backreference : PatternError
  nested_quantifiers : PatternError
  quantified_alternation : PatternError
  lookbehind : PatternError

pub data Verdict : Type 0 where
  accepted : Text → Verdict
  rejected : PatternError → Verdict

-- strings.ReplaceAll of a text that is not empty
unfoldable pub replace_text : Text → Text → Text → Text
replace_text old new s = join new (split_on old s)

unfoldable pub has_backreference : Text → Bool
has_backreference s = contains s (lit "\\1") || contains s (lit "\\2") || contains s (lit "\\3")

module _ (engine : Engine) where
  open engine use {
    compile_error, replacer, has_nested_quantifier, has_ambiguous_altern, inline_flags,
    unname_groups,
  }

  -- The pattern as the screenshot helper sees it.
  unfoldable pub js_pattern : Text → Text
  unfolding replace_text
  js_pattern s =
      let flagless = drop (length (inline_flags s)) s in
      unname_groups
        (replace_text (lit "\\Z") (lit "$") (replace_text (lit "\\A") (lit "^") flagless))

  unfoldable pub has_lookbehind : Text → Bool
  unfolding js_pattern
  has_lookbehind s = contains (js_pattern s) (lit "(?<=") || contains (js_pattern s) (lit "(?<!")

  -- The checks behind the compilation.
  unfoldable pub check_pattern : Text → Verdict
  unfolding has_backreference has_lookbehind
  check_pattern s =
      if ltb max_custom_masking_pattern_length (length s)
      then rejected too_long
      else if has_backreference s
      then rejected backreference
      else if has_nested_quantifier s
      then rejected nested_quantifiers
      else if has_ambiguous_altern s
      then rejected quantified_alternation
      else if has_lookbehind s
      then rejected lookbehind
      else accepted s

  unfoldable pub validate_custom_masking_pattern : Text → Verdict
  unfolding check_pattern
  validate_custom_masking_pattern raw =
      let normalized = trim_space raw in
      if is_nil normalized then rejected pattern_required else elim (compile_error normalized) [
        | some e ↦ rejected (no_compile e)
        | none ↦ check_pattern normalized
      ]

  -- The loop of loadMaskingCustomPatterns; the first argument is what it has seen.
  unfoldable pub valid_patterns : List Text → List Text → List Text
  unfolding validate_custom_masking_pattern member
  valid_patterns seen [] = []
  valid_patterns seen (v ∷ vs) = elim (validate_custom_masking_pattern v) [
    | rejected e ↦ valid_patterns seen vs
    | accepted p ↦
        let rest = valid_patterns (if member p seen then seen else p ∷ seen) vs in
        if member p seen then rest else p ∷ rest
  ]

  unfoldable pub load_masking_custom_patterns : List Text → List Text
  unfolding valid_patterns
  load_masking_custom_patterns stored = valid_patterns [] stored

  unfoldable pub effective_pattern_active : List Text → Text → Bool
  unfolding load_masking_custom_patterns
  effective_pattern_active stored p =
      member p default_sensitive_patterns || member p (load_masking_custom_patterns stored)

  unfoldable pub replacers : List Text → List Text → List (Text → Text)
  unfolding effective_pattern_active
  replacers stored [] = []
  replacers stored (p ∷ ps) =
      let rest = replacers stored ps in
      if effective_pattern_active stored p
      then elim (replacer p) [ none ↦ rest | some f ↦ f ∷ rest ]
      else rest

  unfoldable pub active_mask_patterns : List Text → List (Text → Text)
  unfolding replacers
  active_mask_patterns stored =
      replacers stored default_sensitive_patterns
      ++ replacers stored (load_masking_custom_patterns stored)
