-- ===== src/Ingest/Versions.antt =====
-- The versions of the rows of a batch.
use sobs.Prelude.{
  ℕ, zero, suc, ◌+◌, ◌≡◌, refl, sym, ap, ap₂, ◌∙◌, List, [], ◌∷◌, ◌++◌, map, arith, length,
  length-append,
}
use sobs.Text.{Text}
use sobs.Json.{Json, Fields}
use sobs.Ingest.{Tools, TagRow, rows_from, tag_rows, match_rules, subject_of, record_id}

-- Numbers one after the other.
unfoldable pub count_from : ℕ → ℕ → List ℕ
count_from n zero = []
count_from n (suc m) = n ∷ count_from (suc n) m

plus_suc : (n a : ℕ) → n + suc a ≡ suc n + a
plus_suc n a = omega arith

suc_plus : (a b : ℕ) → suc (a + b) ≡ suc a + b
suc_plus a b = omega arith

count_from-append : (n a b : ℕ) → count_from n a ++ count_from (n + a) b ≡ count_from n (a + b)
unfolding count_from
count_from-append n zero b = ap₂ count_from (omega arith) (omega arith)
count_from-append n (suc a) b =
    ap (λ l. n ∷ l)
      (ap (λ m. count_from (suc n) a ++ count_from m b) (plus_suc n a)
        ∙ count_from-append (suc n) a b)
    ∙ ap (count_from n) (suc_plus a b)

rows_from-versions :
    (rt id : Text) (n : ℕ) (tags : List (Text × Text))
    → map (λ t. t.version) (rows_from rt id n tags) ≡ count_from n (length tags)
unfolding rows_from count_from
rows_from-versions rt id n [] = refl
rows_from-versions rt id n (t ∷ tags) = ap (λ l. n ∷ l) (rows_from-versions rt id (suc n) tags)

map-append :
    (xs ys : List TagRow)
    → map (λ t. t.version) (xs ++ ys) ≡ map (λ t. t.version) xs ++ map (λ t. t.version) ys
map-append [] ys = refl
map-append (x ∷ xs) ys = ap (λ l. x.version ∷ l) (map-append xs ys)

length-rows_from :
    (rt id : Text) (n : ℕ) (tags : List (Text × Text))
    → length (rows_from rt id n tags) ≡ length tags
unfolding rows_from
length-rows_from rt id n [] = refl
length-rows_from rt id n (t ∷ tags) = ap (λ l. suc l) (length-rows_from rt id (suc n) tags)

versions-append :
    (n m : ℕ) (xs ys : List TagRow)
    → map (λ t. t.version) xs ≡ count_from n m
    → length xs ≡ m
    → map (λ t. t.version) ys ≡ count_from (n + m) (length ys)
    → map (λ t. t.version) (xs ++ ys) ≡ count_from n (length (xs ++ ys))
versions-append n m xs ys hx hl hy =
    map-append xs ys
    ∙ ap₂ (λ a b. a ++ b) hx hy
    ∙ count_from-append n m (length ys)
    ∙ ap (count_from n) (sym (length-append xs ys ∙ ap (λ l. l + length ys) hl))

-- The rows of a batch, over all its records, have the versions from the given one on, one after the
-- other.
pub tag_rows-versions :
    {F : Type 0} (tools : Tools F) (rt : Text) (rules : List (Json F)) (n : ℕ)
    (rows : List (Fields F))
    → map (λ t. t.version) (tag_rows tools rt rules n rows)
      ≡ count_from n (length (tag_rows tools rt rules n rows))
unfolding tag_rows count_from
tag_rows-versions tools rt rules n [] = refl
tag_rows-versions tools rt rules n (row ∷ rows) =
    let tags = match_rules tools rt (subject_of tools row) [] rules in
    versions-append n (length tags) (rows_from rt (record_id tools rt row) n tags)
      (tag_rows tools rt rules (n + length tags) rows)
      (rows_from-versions rt (record_id tools rt row) n tags)
      (length-rows_from rt (record_id tools rt row) n tags)
      (tag_rows-versions tools rt rules (n + length tags) rows)
