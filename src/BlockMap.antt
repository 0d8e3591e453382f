-- ===== src/BlockMap.antt =====
-- The block map of a chunk: src/frisbee.redux/utils.c, `BlockMapInit` to `BlockMapInvert`, over the
-- `BlockMap_t` of src/frisbee.redux/decls.h. A map is the list of its bytes, each a bit pattern
-- below 256; `char` is signed, so that `~0` and a byte of ones compare equal. The asserts on
-- `block` and `count` are the hypotheses of the theorems.
pub mod Bits
pub mod Update
pub mod Scan
use frisbee.Base.{
  ℕ, zero, suc, ◌+◌, ◌-◌, ◌*◌, ◌/◌, ◌%◌, List, [], ◌∷◌, Bool, true, false, ◌&&◌, ◌||◌,
}
use frisbee.Base.{if◌then◌else◌, ◌==◌, leb, ltb, map, get_or, set, replicate, Option, some, none}
use frisbee.Base.{test_bit, set_bit, clear_bit, invert_byte}

abbrev pub max_chunk_size : ℕ
max_chunk_size = 1024

abbrev pub char_bit : ℕ
char_bit = 8

abbrev pub map_bytes : ℕ
map_bytes = 128

abbrev pub BlockMap : Type 0
BlockMap = List ℕ

-- The loop of `BlockMapAdd`; each round takes at least one from `count`, which bounds the rounds.
unfoldable pub add_loop : ℕ → BlockMap → ℕ → ℕ → ℕ → BlockMap
add_loop zero m i off count = m
add_loop (suc fuel) m i off count = elim (count == 0) [
  | true ↦ m
  | false ↦ elim (off == 0 && leb char_bit count) [
    | true ↦ add_loop fuel (set m i 255) (i + 1) off (count - char_bit)
    | false ↦ elim (off + 1 == char_bit) [
      | true ↦ add_loop fuel (set m i (set_bit (get_or m i 0) off)) (i + 1) 0 (count - 1)
      | false ↦ add_loop fuel (set m i (set_bit (get_or m i 0) off)) i (off + 1) (count - 1)
    ]
  ]
]

unfoldable pub add : BlockMap → ℕ → ℕ → BlockMap
add m block count = add_loop count m (block / char_bit) (block % char_bit) count

unfoldable pub init : ℕ → ℕ → BlockMap
init block count =
    if count == max_chunk_size
    then replicate map_bytes 255
    else add (replicate map_bytes 0) block count

unfoldable pub clear_loop : ℕ → BlockMap → ℕ → ℕ → ℕ → BlockMap
clear_loop zero m i off count = m
clear_loop (suc fuel) m i off count = elim (count == 0) [
  | true ↦ m
  | false ↦ elim (off == 0 && leb char_bit count) [
    | true ↦ clear_loop fuel (set m i 0) (i + 1) off (count - char_bit)
    | false ↦ elim (off + 1 == char_bit) [
      | true ↦ clear_loop fuel (set m i (clear_bit (get_or m i 0) off)) (i + 1) 0 (count - 1)
      | false ↦ clear_loop fuel (set m i (clear_bit (get_or m i 0) off)) i (off + 1) (count - 1)
    ]
  ]
]

unfoldable pub clear : BlockMap → ℕ → ℕ → BlockMap
clear m block count = clear_loop count m (block / char_bit) (block % char_bit) count

-- Marks the block as allocated; the result beside the map is the old value.
unfoldable pub alloc : BlockMap → ℕ → BlockMap × ℕ
alloc m block =
    let i = block / char_bit in
    let off = block % char_bit in
    if test_bit (get_or m i 0) off then (m, 1) else (set m i (set_bit (get_or m i 0) off), 0)

unfoldable pub invert : BlockMap → BlockMap
invert m = map invert_byte m
