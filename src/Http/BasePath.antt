-- ===== src/Http/BasePath.antt =====
-- go/cmd/sobs/basepath.go: the base path that a reverse proxy puts in front of the application.
pub mod Normal
pub mod Strip
pub mod Tests
use sobs.Prelude.{
  ℕ, Bool, true, false, ◌&&◌, ◌||◌, not, Option, none, some, List, [], ◌∷◌, ◌++◌, ◌==◌, is_nil,
  from_option, if◌then◌else◌,
}
use sobs.Text.{Text, lit, text_eq, has_prefix, cut_prefix, cut_suffix, trim_space}
use sobs.Http.{Request}

abbrev pub slash : ℕ
slash = b'/'

abbrev starts_with_slash : Text → Bool
starts_with_slash [] = false
starts_with_slash (c ∷ _) = c == slash

-- repeatedSlashes.ReplaceAllString(s, "/")
unfoldable pub collapse_slashes : Text → Text
collapse_slashes [] = []
collapse_slashes (c ∷ s) =
    let rest = collapse_slashes s in if c == slash && starts_with_slash rest then rest else c ∷ rest

-- len(v) < 2 || v[0] != '/' || v[1] == '/' || v[1] == '\\'
unfoldable pub is_unsafe : Text → Bool
is_unsafe (a ∷ b ∷ _) = not (a == slash) || (b == slash || b == 92)
is_unsafe _ = true

abbrev is_root : Text → Bool
is_root v = is_nil v || text_eq v (slash ∷ [])

trim_slash : Text → Text
trim_slash v = from_option v (cut_suffix v (slash ∷ []))

unfoldable pub normalize_base_path : Text → Text
unfolding collapse_slashes is_unsafe trim_slash
normalize_base_path value =
    let v = collapse_slashes (trim_space value) in
    let rooted = if has_prefix v (slash ∷ []) then v else slash ∷ v in
    let trimmed = trim_slash rooted in
    if is_root v
    then []
    else if is_unsafe rooted
    then []
    else if is_root trimmed
    then []
    else trimmed

-- `configured` is s.cfg.BasePath.
unfoldable pub effective_base_path : Text → Request → Text
effective_base_path configured r =
    let fwd = normalize_base_path (r.header (lit "X-Forwarded-Prefix")) in
    if is_nil fwd then configured else fwd

with_path : Text → Text → Request → Request
with_path base new_path r = record r {
  path = new_path;
  raw_path =
      if is_nil r.raw_path
      then r.raw_path
      else if text_eq r.raw_path base
      then slash ∷ []
      else from_option r.raw_path (cut_prefix r.raw_path base);
}

unfoldable pub apply_base_path : Text → Request → Request
unfolding with_path
apply_base_path configured r =
    let base = effective_base_path configured r in
    if is_nil base
    then r
    else if text_eq r.path base
    then with_path base (slash ∷ []) r
    else if has_prefix r.path (base ++ slash ∷ [])
    then with_path base (from_option r.path (cut_prefix r.path base)) r
    else r
