-- ===== src/BlockMap/Scan/Count.antt =====
-- `BlockMapIsAlloc` of src/frisbee.redux/utils.c as a count of blocks.
use frisbee.Base.{
  ℕ, zero, suc, ◌+◌, ◌-◌, ◌*◌, ◌/◌, ◌%◌, ◌≤◌, ◌<◌, ◌≡◌, ◌∙◌, Bool, true, false, refl,
}
use frisbee.Base.{
  arith, ◌&&◌, if◌then◌else◌, ◌==◌, ltb, get_or, test_bit, test_bit_ones, test_bit_zero,
}
use frisbee.Base.{ap, ap₂, ◌⊎◌, inl, inr, sym}
use frisbee.BlockMap.{BlockMap}
use frisbee.BlockMap.Bits.{
  bit_at, count_if, count_if_ext, count_if-none, count_if-all, count_if-add, blocks_in,
}
use frisbee.BlockMap.Scan.{is_alloc_loop, is_alloc, whole_byte, round_did, round_size}

byte_of : (b i : ℕ) → i * 8 ≤ b → b < i * 8 + 8 → b / 8 ≡ i
byte_of b i lo hi = omega arith

blocks_in-suc :
    (m : BlockMap) (i off count : ℕ)
    → off < 8
    → 0 < count
    → blocks_in m (i * 8 + off) count
      ≡ (if test_bit (get_or m i 0) off then 1 else 0) + blocks_in m (i * 8 + (off + 1)) (count - 1)
unfolding count_if
blocks_in-suc m i off zero h pos = absurd (omega arith)
blocks_in-suc m i off (suc n) h pos = ground arith

-- A byte of zeros or of ones is counted at once.
blocks_in-whole :
    (m : BlockMap) (i v c : ℕ)
    → get_or m i 0 ≡ v
    → (v ≡ 0) × (c ≡ 0) ⊎ (v ≡ 255) × (c ≡ 8)
    → blocks_in m (i * 8) 8 ≡ c
blocks_in-whole m i v c e (inl (z, d)) =
    count_if_ext (bit_at m) (λ b. false) (i * 8) 8
      (λ b lo hi. ground (arith, test_bit_zero (b % 8), byte_of b i lo hi))
    ∙ count_if-none (i * 8) 8
    ∙ sym d
blocks_in-whole m i v c e (inr (o, d)) =
    count_if_ext (bit_at m) (λ b. true) (i * 8) 8
      (λ b lo hi. ground (arith, test_bit_ones (b % 8), byte_of b i lo hi))
    ∙ count_if-all (i * 8) 8
    ∙ sym d

blocks_in-byte :
    (m : BlockMap) (i c count : ℕ)
    → (get_or m i 0 ≡ 0) × (c ≡ 0) ⊎ (get_or m i 0 ≡ 255) × (c ≡ 8)
    → 8 ≤ count
    → blocks_in m (i * 8 + 0) count ≡ c + blocks_in m ((i + 1) * 8 + 0) (count - 8)
blocks_in-byte m i c count h many =
    ap₂ (λ p n. blocks_in m p n) {x = i * 8 + 0} (omega arith) (omega arith)
    ∙ count_if-add (bit_at m) (i * 8) 8 (count - 8)
    ∙ ap₂ ◌+◌ (blocks_in-whole m i (get_or m i 0) c refl h)
        (ap (λ p. blocks_in m p (count - 8)) (omega arith))

blocks_in-zero : (m : BlockMap) (i off count : ℕ) → count ≡ 0 → blocks_in m (i * 8 + off) count ≡ 0
unfolding count_if
blocks_in-zero m i off count e = rw e

blocks_in-end :
    (m : BlockMap) (i count : ℕ)
    → blocks_in m (i * 8 + (0 + 8)) count ≡ blocks_in m ((i + 1) * 8 + 0) count
blocks_in-end m i count = ap (λ p. blocks_in m p count) (omega arith)

-- A round counts the blocks that it takes.
round_counts :
    (m : BlockMap) (i off val count : ℕ)
    → off < 8
    → val ≡ get_or m i 0
    → 0 < count
    → blocks_in m (i * 8 + off) count
      ≡ round_did off val count
        + blocks_in m (i * 8 + (off + round_size off val count)) (count - round_size off val count)
unfolding round_did round_size whole_byte
round_counts m i off val count h e pos = ground (
  arith,
  blocks_in-suc m i off count,
  blocks_in-byte m i 0 count,
  blocks_in-byte m i 8 count,
  blocks_in-end m i (count - 8),
)

-- Going on to the next byte changes no position.
move_keeps :
    (m : BlockMap) (i off count : ℕ) (move : Bool)
    → (move ≡ true → off ≡ 8)
    → blocks_in m ((if move then i + 1 else i) * 8 + (if move then 0 else off)) count
      ≡ blocks_in m (i * 8 + off) count
move_keeps m i off count true h = ap (λ p. blocks_in m p count) (omega (arith, h refl))
move_keeps m i off count false h = refl

round_fits : (off val count : ℕ) → off < 8 → off + round_size off val count ≤ 8
unfolding round_size whole_byte
round_fits off val count h = ground arith

round_pos : (off val count : ℕ) → 1 ≤ round_size off val count
unfolding round_size
round_pos off val count = ground arith

is_alloc_loop_lem :
    (fuel : ℕ) (m : BlockMap) (i off val did count : ℕ)
    → count ≤ fuel
    → (count ≡ 0) ⊎ (off < 8) × (val ≡ get_or m i 0)
    → is_alloc_loop fuel m i off val did count ≡ did + blocks_in m (i * 8 + off) count
unfolding is_alloc_loop
is_alloc_loop_lem zero m i off val did count f h = ground (arith, blocks_in-zero m i off count)
is_alloc_loop_lem (suc fuel) m i off val did count f h =
    let did' = did + round_did off val count in
    let count' = count - round_size off val count in
    let off' = off + round_size off val count in
    let move = off' == 8 && ltb 0 count' in
    ground (
      arith,
      blocks_in-zero m i off count,
      round_pos off val count,
      round_fits off val count,
      round_counts m i off val count,
      move_keeps m i off' count' move,
      is_alloc_loop_lem fuel m (if move then i + 1 else i) (if move then 0 else off')
          (if move then get_or m (i + 1) 0 else val) did' count',
    )

-- `BlockMapIsAlloc` on a range returns the number of blocks of the range that are in the map.
pub is_alloc_lem :
    (m : BlockMap) (block count : ℕ) → is_alloc m block count ≡ blocks_in m block count
unfolding is_alloc
is_alloc_lem m block count =
    let start : block / 8 * 8 + block % 8 ≡ block = omega arith in
    is_alloc_loop_lem count m (block / 8) (block % 8) (get_or m (block / 8) 0) 0 count (omega arith)
      (inr (omega arith, refl))
    ∙ ap (λ p. 0 + blocks_in m p count) start
    ∙ omega arith
