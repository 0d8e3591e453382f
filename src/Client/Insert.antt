-- ===== src/Client/Insert.antt =====
-- The buffer of src/frisbee.redux/client.c that takes a block in, or is set up for a chunk: its map and
-- its count.
use frisbee.Base.{ℕ, ◌+◌, ◌-◌, ◌≤◌, ◌<◌, ◌≡◌, true, false, ◌&&◌, List, ◌∙◌}
use frisbee.Base.{arith, refl, ap, ◌==◌, Bool-cases, inl, inr, replicate}
use frisbee.BlockMap.{max_chunk_size, map_bytes, alloc}
use frisbee.BlockMap.Bits.{
  bit_at, IsMap, blocks_in, count_if-add, count_if-le, count_if-none, count_if_ext, in_range,
}
use frisbee.BlockMap.Update.{alloc_lem, alloc-IsMap, bit_at-replicate_zero, replicate-IsMap}
use frisbee.WorkQueue.Valid.{count_if-full, count_if-parts, count_if-in_range}
use frisbee.Sizes.{chunk_size}
use frisbee.Client.{Settings}
use frisbee.Client.Valid.{IsPart}

-- The sizes are those of an image.
pub record IsSettings (s : Settings) : Type 0 where
  pub last : s.sizes.last_chunk < max_chunk_size

pub chunk_size_bounds :
    (s : Settings) (k : ℕ)
    → IsSettings s
    → (0 < chunk_size s.sizes k) × (chunk_size s.sizes k ≤ max_chunk_size)
unfolding chunk_size
chunk_size_bounds s k h = (ground arith, ground arith)

-- A map with no block past `size` has at most `size` blocks.
blocks_in-inside :
    (m : List ℕ) (size : ℕ)
    → size ≤ max_chunk_size
    → ((b : ℕ) → bit_at m b ≡ true → b < max_chunk_size → b < size)
    → blocks_in m 0 max_chunk_size ≡ blocks_in m 0 size
blocks_in-inside m size h inside =
    let split : max_chunk_size ≡ size + (max_chunk_size - size) = omega arith in
    ap (λ n. blocks_in m 0 n) split
    ∙ count_if-add (bit_at m) 0 size (max_chunk_size - size)
    ∙ omega (
      arith,
      count_if_ext (bit_at m) (λ b. false) (0 + size) (max_chunk_size - size)
          (λ b lo hi. elim (Bool-cases (bit_at m b)) [
            | inl e ↦ absurd (omega (arith, inside b e (omega arith)))
            | inr e ↦ e
          ]),
      count_if-none (0 + size) (max_chunk_size - size),
    )

new_at :
    (m : List ℕ) (block b : ℕ)
    → IsMap m
    → block < max_chunk_size
    → (alloc m block).1 ≡ 0
    → (bit_at m b && in_range block 1 b) ≡ false
new_at m block b h l new = elim (Bool-cases (block == b)) [
  | inl same ↦
      let e : block ≡ b = ground arith in
      let none_yet : bit_at m block ≡ false = ground (arith, (alloc_lem m block b h l).0) in
      rw⁻¹ e (rw none_yet refl)
  | inr other ↦ ground arith
]

-- A block that the map has not joins it.
blocks_in-alloc :
    (m : List ℕ) (block : ℕ)
    → IsMap m
    → block < max_chunk_size
    → (alloc m block).1 ≡ 0
    → blocks_in (alloc m block).0 0 max_chunk_size ≡ blocks_in m 0 max_chunk_size + 1
blocks_in-alloc m block h l new =
    count_if-parts (bit_at (alloc m block).0) (bit_at m) (in_range block 1) 0 max_chunk_size
      (λ b lo hi. ground (arith, (alloc_lem m block b h l).1)) (λ b lo hi. new_at m block b h l new)
    ∙ ap (λ c. blocks_in m 0 max_chunk_size + c) (count_if-in_range block 1 (omega arith))

module _ (size left block : ℕ) (m : List ℕ) (p : IsPart size left m) (small : size ≤ max_chunk_size)
    (l : block < size) (new : (alloc m block).1 ≡ 0) where
  store-inside : (b : ℕ) → bit_at (alloc m block).0 b ≡ true → b < max_chunk_size → b < size
  store-inside b e h = elim (Bool-cases (block == b)) [
    | inl same ↦ ground arith
    | inr other ↦ p.inside b (ground (arith, (alloc_lem m block b p.shape (omega arith)).1)) h
  ]

  pub store-left : 0 < left
  store-left = omega (
    arith,
    p.counted,
    blocks_in-alloc m block p.shape (omega arith) new,
    blocks_in-inside (alloc m block).0 size small store-inside,
    count_if-le (bit_at (alloc m block).0) 0 size,
  )

  pub store-IsPart : IsPart size (left - 1) (alloc m block).0
  store-IsPart = record {
    shape = alloc-IsMap m block p.shape;
    inside = store-inside;
    counted =
        omega (arith, p.counted, store-left, blocks_in-alloc m block p.shape (omega arith) new);
  }

-- With no block missing the map has all of them.
pub IsPart-whole :
    (size left : ℕ) (m : List ℕ) (x : ℕ)
    → size ≤ max_chunk_size
    → IsPart size left m
    → left ≡ 0
    → x < size
    → bit_at m x ≡ true
IsPart-whole size left m x small p z l =
    count_if-full (bit_at m) 0 size x
      (omega (arith, blocks_in-inside m size small p.inside, p.counted)) (omega arith) (omega arith)

pub zeros-IsPart : (size : ℕ) → IsPart size size (replicate map_bytes 0)
zeros-IsPart size = record {
  shape = replicate-IsMap 0 (omega arith);
  inside = λ b e l. absurd (ground (arith, bit_at-replicate_zero map_bytes b));
  counted = omega (
    arith,
    count_if_ext (bit_at (replicate map_bytes 0)) (λ b. false) 0 max_chunk_size
        (λ b lo hi. bit_at-replicate_zero map_bytes b),
    count_if-none 0 max_chunk_size,
  );
}
