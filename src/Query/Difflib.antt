-- ===== src/Query/Difflib.antt =====
-- The port of Python's difflib in go/cmd/sobs/sql_validate.go: the longest matching block of two
-- texts, the total of the matching blocks, and the closest matches of a word. The float64 ratio
-- 2 M / (|a| + |b|) is kept as the pair of its numerator and denominator.
pub mod Rows
pub mod Blocks
pub mod Total
pub mod Sorted
pub mod Ranks
pub mod Close
pub mod Tests
use sobs.Prelude.{
  ℕ, zero, suc, ◌+◌, ◌-◌, ◌*◌, ◌/◌, ◌%◌, ◌≤◌, ◌<◌, ◌≡◌, refl, sym, ap, ap₂, ◌∙◌, subst, ◌≢◌, ◌↔◌,
  ◌⊎◌, inl, inr, Bool, true, false, not, ◌&&◌, ◌||◌, false≢true, Option, none, some, List, [], ◌∷◌,
  ◌++◌, map, append_assoc, append-nil, arith, ltb, leb, ◌==◌, if◌then◌else◌, ltb→lt, ==_iff,
  Bool-cases, Option-cases, is_some, from_option, length, get_elem?, take, drop, is_nil, keep_if,
  all_of, All, length-append, length-take, take-append-drop,
}
use sobs.Text.Utf8.{runes}
use sobs.Text.{
  text_lt, Text, lit, text_eq, cut_prefix, has_prefix, cut_suffix, has_suffix, trim_left,
  trim_right, trim, is_space, trim_space, lower_byte, to_lower, to_upper, index, contains, split,
  join, before_byte, after_byte, before_last_byte, member, decimal, itoa, split_on,
}

-- A matching block: where it begins in each text, and its length.
pub record Block : Type 0 where
  pub i : ℕ
  pub j : ℕ
  pub size : ℕ

-- A part of each text that is still to be compared.
pub record Box : Type 0 where
  pub alo : ℕ
  pub ahi : ℕ
  pub blo : ℕ
  pub bhi : ℕ

-- `b2j[c]`: the positions of a byte, in order, counted from the given one.
unfoldable pub positions : ℕ → ℕ → Text → List ℕ
positions from c [] = []
positions from c (d ∷ s) =
    let rest = positions (suc from) c s in if d == c then from ∷ rest else rest

-- `j2len`: a map with 0 for a missing key.
abbrev pub Lengths : Type 0
Lengths = ℕ → ℕ

unfoldable pub store : Lengths → ℕ → ℕ → Lengths
store len j k n = if n == j then k else len n

-- `j2len[j-1]`
unfoldable pub before : Lengths → ℕ → ℕ
before len zero = 0
before len (suc j) = len j

unfoldable pub better : ℕ → ℕ → ℕ → Block → Block
better i j k best =
    if ltb best.size k then record { i = suc i - k; j = suc j - k; size = k } else best

-- The inner loop: the positions of the byte at `i`, with the row under construction and the best block.
unfoldable pub scan_row : ℕ → ℕ → ℕ → Lengths → List ℕ → Lengths → Block → Lengths × Block
scan_row i blo bhi j2len [] new best = (new, best)
scan_row i blo bhi j2len (j ∷ js) new best =
    let k = suc (before j2len j) in
    let skipped = scan_row i blo bhi j2len js new best in
    let taken = scan_row i blo bhi j2len js (store new j k) (better i j k best) in
    if ltb j blo then skipped else if leb bhi j then (new, best) else taken

positions_at : Text → Text → ℕ → List ℕ
unfolding positions
positions_at a b i = elim (get_elem? a i) [ none ↦ [] | some c ↦ positions 0 c b ]

-- The outer loop, by the rounds that are left.
unfoldable pub scan_rows : Text → Text → ℕ → ℕ → ℕ → ℕ → Lengths → Block → Block
unfolding scan_row better store before positions_at
scan_rows a b blo bhi zero i j2len best = best
scan_rows a b blo bhi (suc rounds) i j2len best =
    let (new, best') = scan_row i blo bhi j2len (positions_at a b i) (λ j. 0) best in
    scan_rows a b blo bhi rounds (suc i) new best'

-- a[i] == b[j], where both are in range
unfoldable pub same_at : Text → Text → ℕ → ℕ → Bool
same_at a b i j = elim (get_elem? a i) [
  | none ↦ false
  | some c ↦ elim (get_elem? b j) [ none ↦ false | some d ↦ c == d ]
]

-- `for besti > alo && bestj > blo && a[besti-1] == b[bestj-1]`
unfoldable pub extend_back : Text → Text → ℕ → ℕ → ℕ → ℕ → ℕ → Block
extend_back a b alo blo (suc i) (suc j) size =
    let longer = extend_back a b alo blo i j (suc size) in
    if ltb alo (suc i) && (ltb blo (suc j) && same_at a b i j)
    then longer
    else record { i = suc i; j = suc j; size = size }
extend_back a b alo blo i j size = record { i = i; j = j; size = size }

-- `for besti+bestsize < ahi && bestj+bestsize < bhi && a[…] == b[…]`; the rounds are the bytes of `a`
-- that are left before `ahi`.
unfoldable pub extend_forward : Text → Text → ℕ → ℕ → Block → Block
extend_forward a b bhi zero m = m
extend_forward a b bhi (suc rounds) m =
    let longer = extend_forward a b bhi rounds (record m { size = suc m.size }) in
    if ltb (m.j + m.size) bhi && same_at a b (m.i + m.size) (m.j + m.size) then longer else m

unfoldable pub find_longest_match : Text → Text → Box → Block
unfolding scan_rows extend_back extend_forward
find_longest_match a b q =
    let best =
      scan_rows a b q.blo q.bhi (q.ahi - q.alo) q.alo (λ j. 0)
        (record { i = q.alo; j = q.blo; size = 0 }) in
    let m = extend_back a b q.alo q.blo best.i best.j best.size in
    extend_forward a b q.bhi (q.ahi - (m.i + m.size)) m

-- What is pushed for a block: the part before it, then the part behind it.
unfoldable pub push_boxes : Box → Block → List Box → List Box
push_boxes q m queue =
    let left : Box = record { alo = q.alo; ahi = m.i; blo = q.blo; bhi = m.j } in
    let right : Box = record { alo = m.i + m.size; ahi = q.ahi; blo = m.j + m.size; bhi = q.bhi } in
    let queue1 = if ltb q.alo m.i && ltb q.blo m.j then left ∷ queue else queue in
    if ltb (m.i + m.size) q.ahi && ltb (m.j + m.size) q.bhi then right ∷ queue1 else queue1

-- The work list, its top first. `none` means that the fuel ran out.
unfoldable pub blocks_loop : Text → Text → ℕ → List Box → ℕ → Option ℕ
unfolding push_boxes
blocks_loop a b fuel [] total = some total
blocks_loop a b zero (q ∷ queue) total = none
blocks_loop a b (suc fuel) (q ∷ queue) total =
    let m = find_longest_match a b q in
    let skipped = blocks_loop a b fuel queue total in
    let taken = blocks_loop a b fuel (push_boxes q m queue) (total + m.size) in
    if ltb 0 m.size then taken else skipped

unfoldable pub matching_blocks_total : Text → Text → Option ℕ
unfolding blocks_loop
matching_blocks_total a b =
    blocks_loop a b (2 * length a + 1)
      (record { alo = 0; ahi = length a; blo = 0; bhi = length b } ∷ []) 0

-- The ratio as a fraction.
pub record Ratio : Type 0 where
  pub num : ℕ
  pub den : ℕ

unfoldable pub sequence_ratio : Text → Text → Ratio
sequence_ratio a b =
    let total = length a + length b in
    if total == 0
    then record { num = 1; den = 1 }
    else record { num = 2 * from_option 0 (matching_blocks_total a b); den = total }

abbrev pub ratio_lt : Ratio → Ratio → Bool
ratio_lt r q = ltb (r.num * q.den) (q.num * r.den)

pub record Candidate : Type 0 where
  pub ratio : Ratio
  pub x : Text

-- The order of the sort: the higher ratio first, and the greater name among equal ratios.
unfoldable pub comes_first : Candidate → Candidate → Bool
comes_first c d =
    if ratio_lt d.ratio c.ratio
    then true
    else if ratio_lt c.ratio d.ratio
    then false
    else text_lt d.x c.x

unfoldable pub insert_candidate : Candidate → List Candidate → List Candidate
insert_candidate c [] = c ∷ []
insert_candidate c (d ∷ ds) =
    let rest = insert_candidate c ds in if comes_first c d then c ∷ d ∷ ds else d ∷ rest

-- sort.Slice: the order is strict on candidates of different names, so every sort gives this list.
unfoldable pub sort_candidates : List Candidate → List Candidate
unfolding insert_candidate
sort_candidates [] = []
sort_candidates (c ∷ cs) = insert_candidate c (sort_candidates cs)

-- The candidates of at least the cutoff, in the order of the possibilities.
unfoldable pub candidates : Text → Ratio → List Text → List Candidate
candidates word cutoff [] = []
candidates word cutoff (x ∷ xs) =
    let r = sequence_ratio (runes x) (runes word) in
    let rest = candidates word cutoff xs in
    if ratio_lt r cutoff then rest else record { ratio = r; x = x } ∷ rest

unfoldable pub names : List Candidate → List Text
names cs = map (λ c. c.x) cs

unfoldable pub get_close_matches : Text → List Text → ℕ → Ratio → List Text
unfolding candidates sort_candidates names
get_close_matches word possibilities n cutoff =
    names (take n (sort_candidates (candidates word cutoff possibilities)))
