-- ===== src/Query/Regex/Tests.antt =====
-- A search in the errors with a scope whose every key is set.
use sobs.Prelude.{List, ℕ, ◌≡◌, refl, true, false, some, [], ◌∷◌, is_some}
use sobs.Text.{Text, lit, decimal}
use sobs.Store.Params.{Param, FloatFormat, inline_params}
use sobs.Query.Regex.{regex_validate_source_for_path, validate_regex_query}
use sobs.Query.Regex.Fit.{marks}
use sobs.Query.Regex.Sample.{validate_regex_query-inlines}

abbrev whole : FloatFormat ℕ
whole = record {
  is_nan = λ f. false;
  is_pos_inf = λ f. false;
  is_neg_inf = λ f. false;
  format = decimal;
}

abbrev errors_sql : Text
errors_sql = lit "SELECT * FROM otel_logs WHERE SeverityText = 'ERROR?'"

abbrev path : Text
path = lit "/api/errors/validate-regex"

errors_sql-closed : marks 0 errors_sql ≡ some 0
unfolding lit marks
errors_sql-closed = refl

abbrev sample : Text × List (Param ℕ)
sample =
    validate_regex_query (λ s. s) (λ key. lit "x") (regex_validate_source_for_path errors_sql path)
      (lit "time.*out" ∷ []) []

validate_regex_query-inlines_example : is_some (inline_params whole sample.0 sample.1) ≡ true
validate_regex_query-inlines_example =
    validate_regex_query-inlines whole errors_sql errors_sql-closed (λ s. s) (λ key. lit "x") path
      (lit "time.*out" ∷ []) []
