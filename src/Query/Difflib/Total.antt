-- ===== src/Query/Difflib/Total.antt =====
-- The work list of the matching blocks ends within its fuel, and its total is bounded by both texts.
use sobs.Prelude.{
  ℕ, zero, suc, ◌+◌, ◌-◌, ◌*◌, ◌≤◌, ◌<◌, ◌≡◌, refl, Bool, true, false, ◌&&◌, Option, some, List, [],
  ◌∷◌, arith, ltb, if◌then◌else◌, ltb→lt, length, All,
}
use sobs.Text.{Text}
use sobs.Query.Difflib.{
  Block, Box, find_longest_match, push_boxes, blocks_loop, matching_blocks_total, sequence_ratio,
}
use sobs.Query.Difflib.Blocks.{find_longest_match-IsBlock}
use sobs.Query.Difflib.Rows.{IsBlock}

IsBox : Box → Type 0
IsBox q = (q.alo ≤ q.ahi) × (q.blo ≤ q.bhi)

-- What the boxes of the work list span in each text, and the rounds that they can take.
abbrev span_a : List Box → ℕ
span_a [] = 0
span_a (q ∷ qs) = (q.ahi - q.alo) + span_a qs

abbrev span_b : List Box → ℕ
span_b [] = 0
span_b (q ∷ qs) = (q.bhi - q.blo) + span_b qs

abbrev rounds : List Box → ℕ
rounds [] = 0
rounds (q ∷ qs) = suc (2 * (q.ahi - q.alo)) + rounds qs

-- A work list that replaces a box and its block, behind the rest of the list.
record Shrinks (q : Box) (m : Block) (rest queue : List Box) : Type 0 where
  boxes : All IsBox queue
  in_a : span_a queue + m.size ≤ (q.ahi - q.alo) + span_a rest
  in_b : span_b queue + m.size ≤ (q.bhi - q.blo) + span_b rest
  fewer : rounds queue < suc (2 * (q.ahi - q.alo)) + rounds rest

push_boxes-Shrinks :
    (a b : Text) (q : Box) (m : Block) (rest : List Box)
    → IsBlock a b q m
    → 0 < m.size
    → All IsBox rest
    → Shrinks q m rest (push_boxes q m rest)
unfolding push_boxes IsBox
push_boxes-Shrinks a b q m rest blk pos ok =
    by_tests (ltb q.alo m.i && ltb q.blo m.j) (ltb (m.i + m.size) q.ahi && ltb (m.j + m.size) q.bhi)
  where
    by_tests :
        (t u : Bool)
        → Shrinks q m rest (
            let queue1 =
              if t
              then record { alo = q.alo; ahi = m.i; blo = q.blo; bhi = m.j } ∷ rest
              else rest in
            if u
            then record { alo = m.i + m.size; ahi = q.ahi; blo = m.j + m.size; bhi = q.bhi }
              ∷ queue1
            else queue1)
    by_tests true true = record {
      boxes = ((blk.high_i, blk.high_j), ((blk.low_i, blk.low_j), ok));
      in_a = omega (arith, blk.low_i, blk.high_i);
      in_b = omega (arith, blk.low_j, blk.high_j);
      fewer = omega (arith, blk.low_i, blk.high_i);
    }
    by_tests true false = record {
      boxes = ((blk.low_i, blk.low_j), ok);
      in_a = omega (arith, blk.low_i, blk.high_i);
      in_b = omega (arith, blk.low_j, blk.high_j);
      fewer = omega (arith, blk.low_i, blk.high_i);
    }
    by_tests false true = record {
      boxes = ((blk.high_i, blk.high_j), ok);
      in_a = omega (arith, blk.low_i, blk.high_i);
      in_b = omega (arith, blk.low_j, blk.high_j);
      fewer = omega (arith, blk.low_i, blk.high_i);
    }
    by_tests false false = record {
      boxes = ok;
      in_a = omega (arith, blk.low_i, blk.high_i);
      in_b = omega (arith, blk.low_j, blk.high_j);
      fewer = omega (arith, blk.low_i, blk.high_i);
    }

-- The result of a work list whose total so far is given.
record Ends (queue : List Box) (total : ℕ) (r : Option ℕ) : Type 0 where
  found : ℕ
  result : r ≡ some found
  in_a : found ≤ total + span_a queue
  in_b : found ≤ total + span_b queue

blocks_loop-Ends :
    (a b : Text) (fuel : ℕ) (queue : List Box) (total : ℕ)
    → All IsBox queue
    → rounds queue ≤ fuel
    → Ends queue total (blocks_loop a b fuel queue total)
unfolding blocks_loop IsBox
blocks_loop-Ends a b fuel [] total ok h = record {
  found = total;
  result = refl;
  in_a = omega arith;
  in_b = omega arith;
}
blocks_loop-Ends a b zero (q ∷ queue) total ok h = absurd (omega arith)
blocks_loop-Ends a b (suc fuel) (q ∷ queue) total ok h =
    by_test (ltb 0 m.size) (λ e. ltb→lt 0 m.size e)
      (blocks_loop-Ends a b fuel queue total ok.1 (omega arith))
      (λ pos.
        let s =
          push_boxes-Shrinks a b q m queue (find_longest_match-IsBlock a b q ok.0.0 ok.0.1) pos
            ok.1 in
        blocks_loop-Ends a b fuel (push_boxes q m queue) (total + m.size) s.boxes
          (omega (arith, s.fewer)))
  where
    m : Block
    m = find_longest_match a b q

    by_test :
        (t : Bool)
        → (t ≡ true → 0 < m.size)
        → Ends queue total (blocks_loop a b fuel queue total)
        → (0 < m.size
            → Ends
                (push_boxes q m queue)
                (total + m.size)
                (blocks_loop a b fuel (push_boxes q m queue) (total + m.size)))
        → Ends (q ∷ queue) total (
            if t
            then blocks_loop a b fuel (push_boxes q m queue) (total + m.size)
            else blocks_loop a b fuel queue total)
    by_test true pos skipped taken =
        let s =
          push_boxes-Shrinks a b q m queue (find_longest_match-IsBlock a b q ok.0.0 ok.0.1)
            (pos refl) ok.1 in
        let e = taken (pos refl) in
        record {
          found = e.found;
          result = e.result;
          in_a = omega (arith, e.in_a, s.in_a);
          in_b = omega (arith, e.in_b, s.in_b);
        }
    by_test false pos skipped taken = record {
      found = skipped.found;
      result = skipped.result;
      in_a = omega (arith, skipped.in_a);
      in_b = omega (arith, skipped.in_b);
    }

-- The loop ends within its fuel with a total, which exceeds the length of neither text.
pub matching_blocks_total-bounded :
    (a b : Text) → (m : ℕ) × (matching_blocks_total a b ≡ some m) × (m ≤ length a) × (m ≤ length b)
unfolding matching_blocks_total IsBox
matching_blocks_total-bounded a b =
    let whole : Box = record { alo = 0; ahi = length a; blo = 0; bhi = length b } in
    let e =
      blocks_loop-Ends a b (2 * length a + 1) (whole ∷ []) 0 ((omega arith, omega arith), tt)
        (omega arith) in
    (e.found, e.result, omega (arith, e.in_a), omega (arith, e.in_b))

-- The numerator of the ratio of two texts is at most its denominator, which is not 0.
pub sequence_ratio-bounded :
    (a b : Text)
    → ((sequence_ratio a b).num ≤ (sequence_ratio a b).den) × (0 < (sequence_ratio a b).den)
unfolding sequence_ratio
sequence_ratio-bounded a b = let (m, h, ha, hb) = matching_blocks_total-bounded a b in ground arith
