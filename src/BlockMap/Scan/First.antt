-- ===== src/BlockMap/Scan/First.antt =====
-- `BlockMapFirst` of src/frisbee.redux/utils.c: the block that it finds.
use frisbee.Base.{ℕ, zero, suc, ◌+◌, ◌*◌, ◌/◌, ◌%◌, ◌≤◌, ◌<◌, ◌≡◌, true, false}
use frisbee.Base.{arith, ltb, get_or, test_bit, test_bit_zero, none, some}
use frisbee.Base.{inl, inr, Bool-cases, Option-cases, byte_zero, ◌≢◌}
use frisbee.BlockMap.{BlockMap, max_chunk_size, map_bytes}
use frisbee.BlockMap.Bits.{bit_at, IsMap}
use frisbee.BlockMap.Scan.{skip_zero, first_bit, first}

-- The search skips bytes of zeros only, and stops at the end or at another byte.
pub record Skipped (m : BlockMap) (lo hi i : ℕ) : Type 0 where
  pub from : lo ≤ i
  pub to : i ≤ hi
  pub zeros : (j : ℕ) → lo ≤ j → j < i → get_or m j 0 ≡ 0
  pub stops : i < hi → get_or m i 0 ≢ 0

pub skip_zero-Skipped :
    (rounds : ℕ) (m : BlockMap) (i hi : ℕ) → i + rounds ≡ hi → Skipped m i hi (skip_zero rounds m i)
unfolding skip_zero
skip_zero-Skipped zero m i hi e = record {
  from = omega arith;
  to = omega arith;
  zeros = λ j lo h. absurd (omega arith);
  stops = λ h. absurd (omega arith);
}
skip_zero-Skipped (suc rounds) m i hi e =
    let ih = skip_zero-Skipped rounds m (i + 1) hi (omega arith) in
    record {
      from = ground (arith, ih.from);
      to = ground (arith, ih.to);
      zeros = λ j lo h. ground (arith, ih.zeros j);
      stops = λ h z. ground (arith, ih.stops);
    }

-- The blocks below the first byte that is not skipped are not in the map.
pub Skipped-bit_at :
    {m : BlockMap} {hi i : ℕ} → Skipped m 0 hi i → (b : ℕ) → b < i * 8 → bit_at m b ≡ false
Skipped-bit_at s b h = ground (arith, s.zeros (b / 8), test_bit_zero (b % 8))

first_bit-some :
    (left val bit r : ℕ)
    → first_bit left val bit ≡ some r
    → (bit ≤ r) × (r < bit + left) × (test_bit val r ≡ true)
unfolding first_bit
first_bit-some zero val bit r e = ground arith
first_bit-some (suc left) val bit r e = ground (arith, first_bit-some left val (bit + 1) r)

first_bit-below :
    (left val bit r k : ℕ)
    → first_bit left val bit ≡ some r
    → bit ≤ k
    → k < r
    → test_bit val k ≡ false
unfolding first_bit
first_bit-below zero val bit r k e lo hi = ground arith
first_bit-below (suc left) val bit r k e lo hi =
    ground (arith, first_bit-below left val (bit + 1) r k)

first_bit-none :
    (left val bit k : ℕ)
    → first_bit left val bit ≡ none
    → bit ≤ k
    → k < bit + left
    → test_bit val k ≡ false
unfolding first_bit
first_bit-none zero val bit k e lo hi = absurd (omega arith)
first_bit-none (suc left) val bit k e lo hi = ground (arith, first_bit-none left val (bit + 1) k)

-- A byte that is not zero has a first bit.
first_bit-found : (val : ℕ) → val < 256 → val ≢ 0 → (r : ℕ) × (first_bit 8 val 0 ≡ some r)
first_bit-found val small ne = elim (Option-cases (first_bit 8 val 0)) [
  | inl e ↦ absurd (ne (byte_zero val small (λ k l. first_bit-none 8 val 0 k e (omega arith) l)))
  | inr found ↦ found
]

-- What the value of `BlockMapFirst` says of the map.
pub record IsFirst (m : BlockMap) (r : ℕ) : Type 0 where
  pub in_chunk : r ≤ max_chunk_size
  pub below : (b : ℕ) → b < r → bit_at m b ≡ false
  pub here : r < max_chunk_size → bit_at m r ≡ true

IsFirst-at_end : (m : BlockMap) (i : ℕ) → 128 ≤ i → Skipped m 0 128 i → IsFirst m (i * 8)
IsFirst-at_end m i end s = record {
  in_chunk = omega (arith, s.to);
  below = λ b l. Skipped-bit_at s b l;
  here = λ l. absurd (omega arith);
}

IsFirst-at :
    (m : BlockMap) (i bit : ℕ)
    → IsMap m
    → i < 128
    → Skipped m 0 128 i
    → first_bit 8 (get_or m i 0) 0 ≡ some bit
    → IsFirst m (i * 8 + bit)
IsFirst-at m i bit h inside s e = record {
  in_chunk = omega (arith, first_bit-some 8 (get_or m i 0) 0 bit e);
  below = λ b l. ground (
    arith,
    Skipped-bit_at s b,
    first_bit-some 8 (get_or m i 0) 0 bit e,
    first_bit-below 8 (get_or m i 0) 0 bit (b % 8) e,
  );
  here = λ l. ground (arith, first_bit-some 8 (get_or m i 0) 0 bit e);
}

-- `BlockMapFirst` returns the least block of the map, or the chunk size if the map is empty.
pub first-IsFirst : (m : BlockMap) → IsMap m → IsFirst m (first m)
unfolding first
first-IsFirst m h =
    let i = skip_zero 128 m 0 in
    let s : Skipped m 0 128 i = skip_zero-Skipped 128 m 0 128 (omega arith) in
    elim (Bool-cases (ltb i map_bytes)) [
      | inl e ↦
          let found = first_bit-found (get_or m i 0) (h.bytes i) (s.stops (ground arith)) in
          rw (e, found.1) (IsFirst-at m i found.0 h (ground arith) s found.1)
      | inr e ↦ rw e (IsFirst-at_end m i (ground arith) s)
    ]
