-- ===== src/Http/BasePath/Normal.antt =====
-- What a normalised base path looks like.
use sobs.Prelude.{
  ◌++◌, if◌then◌else◌, inr, inl, ◌⊎◌, ◌≢◌, Option-cases, arith, ◌≡◌, refl, Bool, true, false,
}
use sobs.Text.{Text, has_suffix, has_prefix, cut_suffix, text_eq, trim_space, cut_prefix}
use sobs.Http.BasePath.{
  is_root, [], ◌∷◌, slash, collapse_slashes, is_unsafe, starts_with_slash, trim_slash,
  normalize_base_path,
}
use sobs.Text.Laws.{cut_suffix-eq-some}

-- No two slashes stand side by side.
abbrev pub HasNoDouble : Text → Type 0
HasNoDouble [] = Unit
HasNoDouble (a ∷ s) = (a ≡ slash → starts_with_slash s ≡ false) × HasNoDouble s

-- A slash, then a byte that is neither a slash nor a backslash.
abbrev pub IsRooted : Text → Type 0
IsRooted (a ∷ b ∷ s) = (a ≡ slash) × (b ≢ slash) × (b ≢ 92)
IsRooted _ = ⊥

collapse_slashes-HasNoDouble : (s : Text) → HasNoDouble (collapse_slashes s)
unfolding collapse_slashes
collapse_slashes-HasNoDouble [] = tt
collapse_slashes-HasNoDouble (c ∷ s) = ground (arith, collapse_slashes-HasNoDouble s)

is_unsafe-IsRooted : (v : Text) → is_unsafe v ≡ false → IsRooted v
unfolding is_unsafe
is_unsafe-IsRooted [] h = cc
is_unsafe-IsRooted (a ∷ []) h = cc
is_unsafe-IsRooted (a ∷ b ∷ s) h = ground arith

abbrev one_slash : Text
one_slash = slash ∷ []

HasNoDouble-init :
    (r : Text) → HasNoDouble (r ++ one_slash) → HasNoDouble r × (has_suffix r one_slash ≡ false)
unfolding has_suffix cut_suffix text_eq
HasNoDouble-init [] n = (tt, refl)
HasNoDouble-init (c ∷ []) n = ground arith
HasNoDouble-init (c ∷ d ∷ r) n = ground (arith, HasNoDouble-init (d ∷ r))

IsRooted-init : (r : Text) → IsRooted (r ++ one_slash) → IsRooted r
IsRooted-init [] h = h
IsRooted-init (a ∷ []) h = omega arith
IsRooted-init (a ∷ b ∷ r) h = h

pub record IsBasePath (v : Text) : Type 0 where
  pub rooted : IsRooted v
  pub no_double : HasNoDouble v
  pub no_last : has_suffix v one_slash ≡ false

trim_slash-IsBasePath : (v : Text) → IsRooted v → HasNoDouble v → IsBasePath (trim_slash v)
unfolding trim_slash
trim_slash-IsBasePath v rooted n = elim (Option-cases (cut_suffix v one_slash)) [
  | inl e ↦ rw e (record { rooted = rooted; no_double = n; no_last = unfold has_suffix in rw e })
  | inr (r, e) ↦
      let whole = cut_suffix-eq-some v one_slash r e in
      let (no_double, no_last) = HasNoDouble-init r (rw whole at n) in
      rw e (record {
        rooted = IsRooted-init r (rw whole at rooted);
        no_double = no_double;
        no_last = no_last;
      })
]

has_prefix-slash : (v : Text) → has_prefix v one_slash ≡ starts_with_slash v
unfolding has_prefix cut_prefix
has_prefix-slash [] = refl
has_prefix-slash (c ∷ v) = ground arith

rooted-HasNoDouble :
    (v : Text) → HasNoDouble v → HasNoDouble (if has_prefix v one_slash then v else slash ∷ v)
rooted-HasNoDouble v n = ground (arith, has_prefix-slash v)

empty_or :
    (b : Bool) (v : Text)
    → (b ≡ false → (v ≡ []) ⊎ IsBasePath v)
    → ((if b then [] else v) ≡ []) ⊎ IsBasePath (if b then [] else v)
empty_or true v h = inl refl
empty_or false v h = h refl

-- A normalised base path is empty, or it begins with one slash and a byte that is no slash and no
-- backslash, has no two slashes side by side, and does not end in a slash.
pub normalize_base_path-IsBasePath :
    (value : Text) → (normalize_base_path value ≡ []) ⊎ IsBasePath (normalize_base_path value)
unfolding normalize_base_path
normalize_base_path-IsBasePath value =
    let v : Text = collapse_slashes (trim_space value) in
    let rooted : Text = if has_prefix v one_slash then v else slash ∷ v in
    let trimmed = trim_slash rooted in
    let checked : Text = if is_root trimmed then [] else trimmed in
    empty_or (is_root v) (if is_unsafe rooted then [] else checked) λ _.
      empty_or (is_unsafe rooted) checked λ safe. empty_or (is_root trimmed) trimmed λ _. inr (
        trim_slash-IsBasePath rooted (is_unsafe-IsRooted rooted safe)
          (rooted-HasNoDouble v (collapse_slashes-HasNoDouble (trim_space value))))
