-- ===== src/BlockMap/Scan/Merge.antt =====
-- `BlockMapMerge` of src/frisbee.redux/utils.c: the blocks of the map that it changes, and its result.
use frisbee.Base.{
  ℕ, zero, suc, ◌+◌, ◌*◌, ◌/◌, ◌%◌, ◌≤◌, ◌<◌, ◌≡◌, Bool, true, false, ◌&&◌, ◌||◌, not,
}
use frisbee.Base.{arith, if◌then◌else◌, ◌==◌, leb, get_or, set, test_bit, test_bit_zero, set_bit}
use frisbee.Base.{
  test_bit_ones, set_bit-lt, test_bit-set_bit, ◌∙◌, ap, ap₂, inl, inr, Bool-cases, get_or-set,
}
use frisbee.BlockMap.{BlockMap, max_chunk_size}
use frisbee.BlockMap.Bits.{bit_at, in_range, IsMap, set-IsMap, count_if, count_if_ext, count_if-add}
use frisbee.BlockMap.Bits.{count_if-shift, count_if-none, gained}
use frisbee.BlockMap.Scan.{merge_byte, merge_loop, merge}

abbrev byte_gain : ℕ → ℕ → ℕ → Bool
byte_gain f t k = gained (test_bit t) (test_bit f) k

record ByteMerged (f t bit left did : ℕ) (r : ℕ × ℕ) : Type 0 where
  byte : r.0 < 256
  bits : (j : ℕ) → j < 8 → test_bit r.0 j ≡ (test_bit t j || leb bit j && test_bit f j)
  total : r.1 ≡ did + count_if (byte_gain f t) bit left

merge_byte-ByteMerged :
    (left bit f t did : ℕ)
    → bit + left ≡ 8
    → t < 256
    → ByteMerged f t bit left did (merge_byte left bit f t did)
unfolding merge_byte count_if
merge_byte-ByteMerged zero bit f t did e ht = record {
  byte = ht;
  bits = λ j l. ground arith;
  total = omega arith;
}
merge_byte-ByteMerged (suc left) bit f t did e ht =
    let hit = test_bit f bit && not (test_bit t bit) in
    let t' = if hit then set_bit t bit else t in
    let small : t' < 256 = ground (arith, set_bit-lt t bit ht (omega arith)) in
    let did' = if hit then did + 1 else did in
    let later : (k : ℕ) → bit + 1 ≤ k → k < bit + 1 + left → byte_gain f t' k ≡ byte_gain f t k =
      λ k lo hi. ground (arith, test_bit-set_bit t bit k) in
    let ih = merge_byte-ByteMerged left (bit + 1) f t' did' (omega arith) small in
    record {
      byte = ih.byte;
      bits = λ j l. ground (arith, ih.bits j l, test_bit-set_bit t bit j);
      total =
          ground
            (arith, ih.total, count_if_ext (byte_gain f t') (byte_gain f t) (bit + 1) left later);
    }

record Merged (from to : BlockMap) (i rounds did : ℕ) (r : BlockMap × ℕ) : Type 0 where
  shape : IsMap r.0
  blocks : (b : ℕ) → b < 1024 → bit_at r.0 b ≡ (bit_at to b || leb (i * 8) b && bit_at from b)
  total : r.1 ≡ did + count_if (gained (bit_at to) (bit_at from)) (i * 8) (rounds * 8)

-- The gain over the byte at `i`.
gain_at :
    (from to : BlockMap) (i : ℕ)
    → count_if (gained (bit_at to) (bit_at from)) (i * 8) 8
      ≡ count_if (byte_gain (get_or from i 0) (get_or to i 0)) 0 8
gain_at from to i =
    ap (λ p. count_if (gained (bit_at to) (bit_at from)) p 8) {x = i * 8} {y = i * 8 + 0}
      (omega arith)
    ∙ count_if-shift (gained (bit_at to) (bit_at from)) (i * 8) 0 8
    ∙ count_if_ext _ (byte_gain (get_or from i 0) (get_or to i 0)) 0 8
        (λ k lo hi. ground (arith, place i k))
  where
    place : (i k : ℕ) → k < 8 → ((i * 8 + k) / 8 ≡ i) × ((i * 8 + k) % 8 ≡ k)
    place i k h = omega arith

gain_split :
    (from to : BlockMap) (i rounds : ℕ)
    → count_if (gained (bit_at to) (bit_at from)) (i * 8) (suc rounds * 8)
      ≡ count_if (byte_gain (get_or from i 0) (get_or to i 0)) 0 8
        + count_if (gained (bit_at to) (bit_at from)) ((i + 1) * 8) (rounds * 8)
gain_split from to i rounds =
    let g = gained (bit_at to) (bit_at from) in
    let sizes : suc rounds * 8 ≡ 8 + rounds * 8 = omega arith in
    let places : i * 8 + 8 ≡ (i + 1) * 8 = omega arith in
    ap (λ n. count_if g (i * 8) n) sizes
    ∙ count_if-add g (i * 8) 8 (rounds * 8)
    ∙ ap₂ ◌+◌ (gain_at from to i) (ap (λ p. count_if g p (rounds * 8)) places)

-- A pair of bytes that the loop passes over has nothing to gain.
skipped_gain : (f t k : ℕ) → k < 8 → (f == 0 || t == 255 || f == t) ≡ true → byte_gain f t k ≡ false
skipped_gain f t k h e = ground (arith, test_bit_zero k h, test_bit_ones k h)

skipped_count : (f t : ℕ) → (f == 0 || t == 255 || f == t) ≡ true → count_if (byte_gain f t) 0 8 ≡ 0
skipped_count f t e =
    count_if_ext (byte_gain f t) (λ k. false) 0 8 (λ k lo hi. skipped_gain f t k hi e)
    ∙ count_if-none 0 8

Merged-skip :
    (from to : BlockMap) (i rounds did : ℕ) {r : BlockMap × ℕ}
    → (get_or from i 0 == 0 || get_or to i 0 == 255 || get_or from i 0 == get_or to i 0) ≡ true
    → Merged from to (i + 1) rounds did r
    → Merged from to i (suc rounds) did r
Merged-skip from to i rounds did e h = record {
  shape = h.shape;
  blocks =
      λ b l. ground (arith, h.blocks b l, skipped_gain (get_or from i 0) (get_or to i 0) (b % 8));
  total = omega (
    arith,
    h.total,
    gain_split from to i rounds,
    skipped_count (get_or from i 0) (get_or to i 0) e,
  );
}

module _ (from to : BlockMap) (i did : ℕ) (inside : i < 128) (ht : IsMap to)
    (m : ByteMerged
      (get_or from i 0)
      (get_or to i 0)
      0
      8
      did
      (merge_byte 8 0 (get_or from i 0) (get_or to i 0) did)) where
  abbrev stored : BlockMap
  stored = set to i (merge_byte 8 0 (get_or from i 0) (get_or to i 0) did).0

  stored-IsMap : IsMap stored
  stored-IsMap = set-IsMap to i _ m.byte ht

  bit_at-stored : (b : ℕ) → bit_at stored b ≡ (bit_at to b || in_range (i * 8) 8 b && bit_at from b)
  bit_at-stored b = ground (
    arith,
    ht.size,
    get_or-set to i (b / 8) (merge_byte 8 0 (get_or from i 0) (get_or to i 0) did).0 0,
    m.bits (b % 8),
  )

  Merged-step :
      (rounds : ℕ) {r : BlockMap × ℕ}
      → Merged from stored (i + 1) rounds (merge_byte 8 0 (get_or from i 0) (get_or to i 0) did).1 r
      → Merged from to i (suc rounds) did r
  Merged-step rounds h = record {
    shape = h.shape;
    blocks = λ b l. ground (arith, h.blocks b l, bit_at-stored b);
    total = omega (
      arith,
      h.total,
      m.total,
      gain_split from to i rounds,
      count_if_ext (gained (bit_at stored) (bit_at from)) (gained (bit_at to) (bit_at from))
          ((i + 1) * 8) (rounds * 8) (λ b lo hi. ground (arith, bit_at-stored b)),
    );
  }

merge_loop-Merged :
    (rounds : ℕ) (from to : BlockMap) (i did : ℕ)
    → i + rounds ≡ 128
    → IsMap from
    → IsMap to
    → Merged from to i rounds did (merge_loop rounds from to i did)
unfolding merge_loop count_if
merge_loop-Merged zero from to i did e hf ht = record {
  shape = ht;
  blocks = λ b l. ground arith;
  total = omega arith;
}
merge_loop-Merged (suc rounds) from to i did e hf ht =
    let f = get_or from i 0 in
    let t = get_or to i 0 in
    elim (Bool-cases (f == 0 || t == 255 || f == t)) [
      | inl skip ↦
          rw (skip, merge_loop)
            (Merged-skip from to i rounds did skip
              (merge_loop-Merged rounds from to (i + 1) did (omega arith) hf ht))
      | inr work ↦
          let inside : i < 128 = omega arith in
          let m = merge_byte-ByteMerged 8 0 f t did (omega arith) (ht.bytes i) in
          rw (work, merge_loop)
            (Merged-step from to i did inside ht m rounds (
              merge_loop-Merged rounds from (stored from to i did inside ht m) (i + 1)
                (merge_byte 8 0 f t did).1 (omega arith) hf
                (stored-IsMap from to i did inside ht m)))
    ]

-- `BlockMapMerge` makes `to` the union of the two maps, and returns the number of blocks of the
-- chunk that it gained.
pub merge_lem :
    (from to : BlockMap)
    → IsMap from
    → IsMap to
    → ((b : ℕ) → b < max_chunk_size → bit_at (merge from to).0 b ≡ (bit_at to b || bit_at from b))
      × ((merge from to).1 ≡ count_if (gained (bit_at to) (bit_at from)) 0 max_chunk_size)
unfolding merge
merge_lem from to hf ht =
    let h = merge_loop-Merged 128 from to 0 0 (omega arith) hf ht in
    (λ b l. ground (arith, h.blocks b l), h.total ∙ omega arith)

pub merge-IsMap : (from to : BlockMap) → IsMap from → IsMap to → IsMap (merge from to).0
unfolding merge
merge-IsMap from to hf ht = let h = merge_loop-Merged 128 from to 0 0 (omega arith) hf ht in h.shape
