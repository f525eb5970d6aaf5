-- ===== src/Query/Difflib/Blocks.antt =====
-- The block that the search finds lies in its box and holds the same bytes of both texts.
use sobs.Prelude.{
  ℕ, zero, suc, ◌+◌, ◌-◌, ◌≤◌, ◌<◌, ◌≡◌, refl, inl, Bool, true, false, ◌&&◌, arith, ltb,
  if◌then◌else◌,
}
use sobs.Text.{Text}
use sobs.Query.Difflib.{Block, Box, same_at, extend_back, extend_forward, find_longest_match}
use sobs.Query.Difflib.Rows.{Common, IsBlock, RowOk, scan_rows-IsBlock}

Common-front :
    (a b : Text) (i j k : ℕ)
    → Common a b (suc i) (suc j) k
    → same_at a b i j ≡ true
    → Common a b i j (suc k)
Common-front a b i j zero h s = (tt, ground arith)
Common-front a b i j (suc k) h s = (Common-front a b i j k h.0 s, ground (arith, h.1))

extend_back-IsBlock :
    (a b : Text) (q : Box) (i j size : ℕ)
    → IsBlock a b q (record { i = i; j = j; size = size })
    → IsBlock a b q (extend_back a b q.alo q.blo i j size)
unfolding extend_back
extend_back-IsBlock a b q zero j size blk = blk
extend_back-IsBlock a b q (suc i) zero size blk = blk
extend_back-IsBlock a b q (suc i) (suc j) size blk =
    by_test (ltb q.alo (suc i) && (ltb q.blo (suc j) && same_at a b i j)) (λ h. ground arith)
      (extend_back-IsBlock a b q i j (suc size))
  where
    by_test :
        (t : Bool)
        → (t ≡ true → (q.alo ≤ i) × (q.blo ≤ j) × (same_at a b i j ≡ true))
        → (IsBlock a b q (record { i = i; j = j; size = suc size })
            → IsBlock a b q (extend_back a b q.alo q.blo i j (suc size)))
        → IsBlock a b q (
            if t
            then extend_back a b q.alo q.blo i j (suc size)
            else record { i = suc i; j = suc j; size = size })
    by_test true h next = next (record {
      low_i = (h refl).0;
      low_j = (h refl).1;
      high_i = omega (arith, blk.high_i);
      high_j = omega (arith, blk.high_j);
      common = Common-front a b i j size blk.common (h refl).2;
    })
    by_test false h next = blk

extend_forward-IsBlock :
    (a b : Text) (q : Box) (rounds : ℕ) (m : Block)
    → m.i + m.size + rounds ≤ q.ahi
    → IsBlock a b q m
    → IsBlock a b q (extend_forward a b q.bhi rounds m)
unfolding extend_forward
extend_forward-IsBlock a b q zero m hr blk = blk
extend_forward-IsBlock a b q (suc rounds) m hr blk =
    by_test (ltb (m.j + m.size) q.bhi && same_at a b (m.i + m.size) (m.j + m.size))
      (λ h. ground arith)
      (extend_forward-IsBlock a b q rounds (record m { size = suc m.size }) (omega arith))
  where
    by_test :
        (t : Bool)
        → (t ≡ true → (m.j + m.size < q.bhi) × (same_at a b (m.i + m.size) (m.j + m.size) ≡ true))
        → (IsBlock a b q (record m { size = suc m.size })
            → IsBlock a b q (extend_forward a b q.bhi rounds (record m { size = suc m.size })))
        → IsBlock a b q
            (if t then extend_forward a b q.bhi rounds (record m { size = suc m.size }) else m)
    by_test true h next = next (record {
      low_i = blk.low_i;
      low_j = blk.low_j;
      high_i = omega (arith, hr);
      high_j = omega (arith, (h refl).0);
      common = (blk.common, (h refl).1);
    })
    by_test false h next = blk

-- In a box whose ends are in order, the block that the search returns lies within the box in both
-- texts, and its stretches of the two texts hold the same bytes.
pub find_longest_match-IsBlock :
    (a b : Text) (q : Box)
    → q.alo ≤ q.ahi
    → q.blo ≤ q.bhi
    → IsBlock a b q (find_longest_match a b q)
unfolding find_longest_match RowOk
find_longest_match-IsBlock a b q ha hb =
    let start : IsBlock a b q (record { i = q.alo; j = q.blo; size = 0 }) = record {
      low_i = omega arith;
      low_j = omega arith;
      high_i = omega arith;
      high_j = omega arith;
      common = tt;
    } in
    let best =
      scan_rows-IsBlock a b q (q.ahi - q.alo) q.alo (λ j. 0)
        (record { i = q.alo; j = q.blo; size = 0 }) (omega arith) (omega arith) (λ j. inl refl)
        start in
    let back = extend_back-IsBlock a b q _ _ _ best in
    extend_forward-IsBlock a b q _ _ (omega (arith, back.high_i)) back
