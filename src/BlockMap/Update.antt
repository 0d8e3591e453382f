-- ===== src/BlockMap/Update.antt =====
-- What `BlockMapAdd`, `BlockMapClear`, `BlockMapInit`, `BlockMapAlloc` and `BlockMapInvert` do to
-- the set of blocks.
use frisbee.Base.{
  ℕ, zero, suc, ◌+◌, ◌-◌, ◌*◌, ◌/◌, ◌%◌, ◌≤◌, ◌<◌, ◌≡◌, ◌∙◌, Bool, true, false, refl, map,
}
use frisbee.Base.{
  arith, Bool-cases, inl, inr, if◌then◌else◌, ◌==◌, length, get_or, set, replicate, length-set, not,
  [], ◌∷◌,
}
use frisbee.Base.{
  length-replicate, length-map, invert_byte-lt, invert_byte-invert_byte, ap₂, get_or-replicate,
  test_bit, set_bit, clear_bit, invert_byte,
}
use frisbee.Base.{set_bit-lt, clear_bit-lt, test_bit_ones, test_bit_zero, test_bit-invert_byte}
use frisbee.BlockMap.{
  BlockMap, max_chunk_size, map_bytes, add_loop, add, clear_loop, clear, init, alloc, invert,
}
use frisbee.BlockMap.Bits.{bit_at, in_range, IsBytes, set-IsBytes, bit_at-set_ones, bit_at-set_bit}
use frisbee.BlockMap.Bits.{bit_at-set_zero, bit_at-clear_bit, IsMap, set-IsMap}

if_same : (b : Bool) → (if b then true else false) ≡ b
if_same true = refl
if_same false = refl

add_loop_lem :
    (fuel : ℕ) (m : BlockMap) (i off count : ℕ)
    → count ≤ fuel
    → off < 8
    → i * 8 + off + count ≤ 8 * length m
    → IsBytes m
    → (b : ℕ)
    → bit_at (add_loop fuel m i off count) b
      ≡ (if in_range (i * 8 + off) count b then true else bit_at m b)
unfolding add_loop
add_loop_lem zero m i off count f o fits bytes b = ground arith
add_loop_lem (suc fuel) m i off count f o fits bytes b =
    let v : ℕ = set_bit (get_or m i 0) off in
    let v_ok : v < 256 = set_bit-lt (get_or m i 0) off (bytes i) o in
    ground (
      arith,
      length-set m i 255,
      length-set m i v,
      (λ (inside : i < length m). bit_at-set_ones m i bytes inside b),
      (λ (inside : i < length m). bit_at-set_bit m i bytes inside off o b),
      (λ (p : count - 8 ≤ fuel) (q : (i + 1) * 8 + off + (count - 8) ≤ 8 * length (set m i 255)).
          add_loop_lem fuel (set m i 255) (i + 1) off (count - 8) p o q
            (set-IsBytes m i 255 (omega arith) bytes) b),
      (λ (p : count - 1 ≤ fuel) (q : (i + 1) * 8 + 0 + (count - 1) ≤ 8 * length (set m i v)).
          add_loop_lem fuel (set m i v) (i + 1) 0 (count - 1) p (omega arith) q
            (set-IsBytes m i v v_ok bytes) b),
      (λ (p : count - 1 ≤ fuel) (r : off + 1 < 8)
            (q : i * 8 + (off + 1) + (count - 1) ≤ 8 * length (set m i v)).
          add_loop_lem fuel (set m i v) i (off + 1) (count - 1) p r q (set-IsBytes m i v v_ok bytes)
            b),
    )

clear_loop_lem :
    (fuel : ℕ) (m : BlockMap) (i off count : ℕ)
    → count ≤ fuel
    → off < 8
    → i * 8 + off + count ≤ 8 * length m
    → IsBytes m
    → (b : ℕ)
    → bit_at (clear_loop fuel m i off count) b
      ≡ (if in_range (i * 8 + off) count b then false else bit_at m b)
unfolding clear_loop
clear_loop_lem zero m i off count f o fits bytes b = ground arith
clear_loop_lem (suc fuel) m i off count f o fits bytes b =
    let v : ℕ = clear_bit (get_or m i 0) off in
    let v_ok : v < 256 = clear_bit-lt (get_or m i 0) off (bytes i) o in
    ground (
      arith,
      length-set m i 0,
      length-set m i v,
      (λ (inside : i < length m). bit_at-set_zero m i bytes inside b),
      (λ (inside : i < length m). bit_at-clear_bit m i bytes inside off o b),
      (λ (p : count - 8 ≤ fuel) (q : (i + 1) * 8 + off + (count - 8) ≤ 8 * length (set m i 0)).
          clear_loop_lem fuel (set m i 0) (i + 1) off (count - 8) p o q
            (set-IsBytes m i 0 (omega arith) bytes) b),
      (λ (p : count - 1 ≤ fuel) (q : (i + 1) * 8 + 0 + (count - 1) ≤ 8 * length (set m i v)).
          clear_loop_lem fuel (set m i v) (i + 1) 0 (count - 1) p (omega arith) q
            (set-IsBytes m i v v_ok bytes) b),
      (λ (p : count - 1 ≤ fuel) (r : off + 1 < 8)
            (q : i * 8 + (off + 1) + (count - 1) ≤ 8 * length (set m i v)).
          clear_loop_lem fuel (set m i v) i (off + 1) (count - 1) p r q
            (set-IsBytes m i v v_ok bytes) b),
    )

add_loop-IsMap :
    (fuel : ℕ) (m : BlockMap) (i off count : ℕ)
    → off < 8
    → IsMap m
    → IsMap (add_loop fuel m i off count)
unfolding add_loop
add_loop-IsMap zero m i off count o h = h
add_loop-IsMap (suc fuel) m i off count o h =
    let v : ℕ = set_bit (get_or m i 0) off in
    let v_ok : v < 256 = set_bit-lt (get_or m i 0) off (h.bytes i) o in
    ground (
      arith,
      add_loop-IsMap fuel (set m i 255) (i + 1) off (count - 8) o
          (set-IsMap m i 255 (omega arith) h),
      add_loop-IsMap fuel (set m i v) (i + 1) 0 (count - 1) (omega arith) (set-IsMap m i v v_ok h),
      (λ (r : off + 1 < 8).
          add_loop-IsMap fuel (set m i v) i (off + 1) (count - 1) r (set-IsMap m i v v_ok h)),
    )

clear_loop-IsMap :
    (fuel : ℕ) (m : BlockMap) (i off count : ℕ)
    → off < 8
    → IsMap m
    → IsMap (clear_loop fuel m i off count)
unfolding clear_loop
clear_loop-IsMap zero m i off count o h = h
clear_loop-IsMap (suc fuel) m i off count o h =
    let v : ℕ = clear_bit (get_or m i 0) off in
    let v_ok : v < 256 = clear_bit-lt (get_or m i 0) off (h.bytes i) o in
    ground (
      arith,
      clear_loop-IsMap fuel (set m i 0) (i + 1) off (count - 8) o (set-IsMap m i 0 (omega arith) h),
      clear_loop-IsMap fuel (set m i v) (i + 1) 0 (count - 1) (omega arith)
          (set-IsMap m i v v_ok h),
      (λ (r : off + 1 < 8).
          clear_loop-IsMap fuel (set m i v) i (off + 1) (count - 1) r (set-IsMap m i v v_ok h)),
    )

-- `BlockMapAdd` on a range inside the chunk adds exactly the blocks of the range.
pub bit_at-add :
    (m : BlockMap) (block count b : ℕ)
    → IsMap m
    → block + count ≤ max_chunk_size
    → bit_at (add m block count) b ≡ (if in_range block count b then true else bit_at m b)
unfolding add
bit_at-add m block count b h fits = ground (
  arith,
  h.size,
  add_loop_lem count m (block / 8) (block % 8) count (omega arith) (omega arith)
      (omega (arith, h.size)) h.bytes b,
)

pub add-IsMap : (m : BlockMap) (block count : ℕ) → IsMap m → IsMap (add m block count)
unfolding add
add-IsMap m block count h = add_loop-IsMap count m (block / 8) (block % 8) count (omega arith) h

-- `BlockMapClear` on a range inside the chunk removes exactly the blocks of the range.
pub bit_at-clear :
    (m : BlockMap) (block count b : ℕ)
    → IsMap m
    → block + count ≤ max_chunk_size
    → bit_at (clear m block count) b ≡ (if in_range block count b then false else bit_at m b)
unfolding clear
bit_at-clear m block count b h fits = ground (
  arith,
  h.size,
  clear_loop_lem count m (block / 8) (block % 8) count (omega arith) (omega arith)
      (omega (arith, h.size)) h.bytes b,
)

pub clear-IsMap : (m : BlockMap) (block count : ℕ) → IsMap m → IsMap (clear m block count)
unfolding clear
clear-IsMap m block count h = clear_loop-IsMap count m (block / 8) (block % 8) count (omega arith) h

get_or-replicate-lt : (n v i : ℕ) → v < 256 → get_or (replicate n v) i 0 < 256
get_or-replicate-lt n v i h = ground (arith, get_or-replicate {A = ℕ} n v i 0)

pub bit_at-replicate_zero : (n b : ℕ) → bit_at (replicate n 0) b ≡ false
bit_at-replicate_zero n b =
    ground (arith, get_or-replicate {A = ℕ} n 0 (b / 8) 0, test_bit_zero (b % 8) (omega arith))

bit_at-replicate_ones : (n b : ℕ) → b < n * 8 → bit_at (replicate n 255) b ≡ true
bit_at-replicate_ones n b h =
    ground (arith, get_or-replicate {A = ℕ} n 255 (b / 8) 0, test_bit_ones (b % 8) (omega arith))

pub replicate-IsMap : (v : ℕ) → v < 256 → IsMap (replicate map_bytes v)
replicate-IsMap v h = record {
  size = length-replicate map_bytes v;
  bytes = λ i. get_or-replicate-lt map_bytes v i h;
}

pub init-IsMap : (block count : ℕ) → IsMap (init block count)
unfolding init
init-IsMap block count = elim (Bool-cases (count == max_chunk_size)) [
  | inl e ↦ rw e (replicate-IsMap 255 (omega arith))
  | inr e ↦ rw e (add-IsMap (replicate map_bytes 0) block count (replicate-IsMap 0 (omega arith)))
]

-- `BlockMapInit` on a range inside the chunk makes the map of exactly that range.
pub bit_at-init :
    (block count b : ℕ)
    → b < max_chunk_size
    → block + count ≤ max_chunk_size
    → bit_at (init block count) b ≡ in_range block count b
unfolding init
bit_at-init block count b small fits = elim (Bool-cases (count == max_chunk_size)) [
  | inl e ↦ rw e (bit_at-replicate_ones map_bytes b small ∙ ground arith)
  | inr e ↦ rw e (
      bit_at-add (replicate map_bytes 0) block count b (replicate-IsMap 0 (omega arith)) fits
      ∙ rw (bit_at-replicate_zero map_bytes b) (if_same (in_range block count b)))
]

-- `BlockMapAlloc` on a block of the chunk returns whether the block was in the map, and adds it.
pub alloc_lem :
    (m : BlockMap) (block b : ℕ)
    → IsMap m
    → block < max_chunk_size
    → ((alloc m block).1 ≡ (if bit_at m block then 1 else 0))
      × (bit_at (alloc m block).0 b ≡ (if block == b then true else bit_at m b))
unfolding alloc
alloc_lem m block b h fits = (
  ground arith,
  ground (
    arith,
    bit_at-set_bit m (block / 8) h.bytes (omega (arith, h.size)) (block % 8) (omega arith) b,
  ),
)

pub alloc-IsMap : (m : BlockMap) (block : ℕ) → IsMap m → IsMap (alloc m block).0
unfolding alloc
alloc-IsMap m block h = ground (
  arith,
  set-IsMap m (block / 8) (set_bit (get_or m (block / 8) 0) (block % 8))
      (set_bit-lt (get_or m (block / 8) 0) (block % 8) (h.bytes (block / 8)) (omega arith)) h,
)

bit_at-map_invert :
    (m : BlockMap) (i k : ℕ)
    → i < length m
    → k < 8
    → ((j : ℕ) → get_or m j 0 < 256)
    → test_bit (get_or (map invert_byte m) i 0) k ≡ not (test_bit (get_or m i 0) k)
bit_at-map_invert [] i k h hk bytes = absurd (omega arith)
bit_at-map_invert (x ∷ m) zero k h hk bytes = test_bit-invert_byte x k (bytes 0) hk
bit_at-map_invert (x ∷ m) (suc i) k h hk bytes =
    bit_at-map_invert m i k (omega arith) hk (λ j. bytes (suc j))

-- `BlockMapInvert` gives the map of the blocks of the chunk that are not in the old map.
pub bit_at-invert :
    (m : BlockMap) (b : ℕ) → IsMap m → b < max_chunk_size → bit_at (invert m) b ≡ not (bit_at m b)
unfolding invert
bit_at-invert m b h small =
    bit_at-map_invert m (b / 8) (b % 8) (omega (arith, h.size)) (omega arith) h.bytes

get_or-map_invert : (m : BlockMap) (i : ℕ) → get_or (map invert_byte m) i 0 < 256
get_or-map_invert [] i = omega arith
get_or-map_invert (x ∷ m) zero = invert_byte-lt x
get_or-map_invert (x ∷ m) (suc i) = get_or-map_invert m i

pub invert-IsMap : (m : BlockMap) → IsMap m → IsMap (invert m)
unfolding invert
invert-IsMap m h = record {
  size = length-map m invert_byte ∙ h.size;
  bytes = λ i. get_or-map_invert m i;
}

map_invert_twice :
    (m : BlockMap) → ((i : ℕ) → get_or m i 0 < 256) → map invert_byte (map invert_byte m) ≡ m
map_invert_twice [] h = refl
map_invert_twice (x ∷ m) h =
    ap₂ ◌∷◌ (invert_byte-invert_byte x (h 0)) (map_invert_twice m (λ i. h (suc i)))

-- To invert a map twice gives it back.
pub invert-invert : (m : BlockMap) → IsMap m → invert (invert m) ≡ m
unfolding invert
invert-invert m h = map_invert_twice m h.bytes
