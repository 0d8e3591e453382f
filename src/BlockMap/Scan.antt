-- ===== src/BlockMap/Scan.antt =====
-- The functions that scan a block map: src/frisbee.redux/utils.c, `BlockMapExtract`,
-- `BlockMapIsAlloc`, `BlockMapMerge`, `BlockMapFirst` and `BlockMapApply`. A loop over the bytes
-- recurs on the rounds left, `rounds`, and one over the bits of a byte on `left`.
pub mod Count
pub mod Extract
pub mod Merge
pub mod First
pub mod Runs
pub mod Apply
use frisbee.Base.{ℕ, zero, suc, ◌+◌, ◌-◌, ◌*◌, ◌/◌, ◌%◌, Bool, true, false, ◌&&◌, ◌||◌, not}
use frisbee.Base.{if◌then◌else◌, ◌==◌, leb, ltb, get_or, set, Option, some, none}
use frisbee.Base.{test_bit, set_bit, clear_bit}
use frisbee.BlockMap.{BlockMap, max_chunk_size, char_bit, map_bytes}

-- `BlockMapIsAlloc`: the test for a byte that is counted at once.
unfoldable pub whole_byte : ℕ → ℕ → ℕ → Bool
whole_byte off val count = off == 0 && leb char_bit count && (val == 0 || val == 255)

-- How many of the blocks that a round takes are in the map, and how many it takes.
unfoldable pub round_did : ℕ → ℕ → ℕ → ℕ
round_did off val count =
    if whole_byte off val count
    then (if val == 0 then 0 else char_bit)
    else (if test_bit val off then 1 else 0)

unfoldable pub round_size : ℕ → ℕ → ℕ → ℕ
round_size off val count = if whole_byte off val count then char_bit else 1

-- `val` is the byte at `i`; the next one is read only while blocks are left.
unfoldable pub is_alloc_loop : ℕ → BlockMap → ℕ → ℕ → ℕ → ℕ → ℕ → ℕ
is_alloc_loop zero m i off val did count = did
is_alloc_loop (suc fuel) m i off val did count =
    let did' = did + round_did off val count in
    let count' = count - round_size off val count in
    let off' = off + round_size off val count in
    let move = off' == char_bit && ltb 0 count' in
    let rest =
      is_alloc_loop fuel m (if move then i + 1 else i) (if move then 0 else off')
        (if move then get_or m (i + 1) 0 else val) did' count' in
    if count == 0 then did else rest

unfoldable pub is_alloc : BlockMap → ℕ → ℕ → ℕ
is_alloc m block count =
    is_alloc_loop count m (block / char_bit) (block % char_bit) (get_or m (block / char_bit) 0) 0
      count

-- What `BlockMapExtract` has after a byte: `ended` is its return out of the loops.
pub record Scan : Type 0 where
  pub blocks : BlockMap
  pub block : ℕ
  pub count : ℕ
  pub ended : Bool

unfoldable pub extract_byte : ℕ → BlockMap → ℕ → ℕ → ℕ → ℕ → Scan
extract_byte zero m i bit block count = record {
  blocks = m;
  block = block;
  count = count;
  ended = false;
}
extract_byte (suc left) m i bit block count = elim (test_bit (get_or m i 0) bit) [
  | true ↦
      extract_byte left (set m i (clear_bit (get_or m i 0) bit)) i (bit + 1)
        (if count == 0 then i * char_bit + bit else block) (count + 1)
  | false ↦ elim (ltb 0 count) [
    | true ↦ record { blocks = m; block = block; count = count; ended = true }
    | false ↦ elim (get_or m i 0 == 0) [
      | true ↦ record { blocks = m; block = block; count = count; ended = false }
      | false ↦ extract_byte left m i (bit + 1) block count
    ]
  ]
]

unfoldable pub extract_loop : ℕ → BlockMap → ℕ → ℕ → ℕ → Scan
extract_loop zero m i block count = record {
  blocks = m;
  block = block;
  count = count;
  ended = false;
}
extract_loop (suc rounds) m i block count =
    let s = extract_byte char_bit m i 0 block count in
    elim s.ended [ true ↦ s | false ↦ extract_loop rounds s.blocks (i + 1) s.block s.count ]

-- The rounds of the search for the first byte that is not zero, and what the search stops at.
unfoldable pub skip_zero : ℕ → BlockMap → ℕ → ℕ
skip_zero zero m i = i
skip_zero (suc rounds) m i = elim (get_or m i 0 == 0) [
  | true ↦ skip_zero rounds m (i + 1)
  | false ↦ i
]

-- `start` is what the call writes through `blockp`: nothing when no block is extracted.
pub record Extracted : Type 0 where
  pub blocks : BlockMap
  pub start : Option ℕ
  pub count : ℕ

unfoldable pub extract : BlockMap → Extracted
extract m =
    let i = skip_zero map_bytes m 0 in
    let s = extract_loop (map_bytes - i) m i 0 0 in
    record {
      blocks = s.blocks;
      start = if ltb 0 s.count then some s.block else none;
      count = s.count;
    }

-- `BlockMapMerge`: the bytes of `from` and `to` at one index, then all of them.
unfoldable pub merge_byte : ℕ → ℕ → ℕ → ℕ → ℕ → ℕ × ℕ
merge_byte zero bit f t did = (t, did)
merge_byte (suc left) bit f t did =
    let hit = test_bit f bit && not (test_bit t bit) in
    merge_byte left (bit + 1) f (if hit then set_bit t bit else t) (if hit then did + 1 else did)

unfoldable pub merge_loop : ℕ → BlockMap → BlockMap → ℕ → ℕ → BlockMap × ℕ
merge_loop zero from to i did = (to, did)
merge_loop (suc rounds) from to i did =
    let f = get_or from i 0 in
    let t = get_or to i 0 in
    let r = merge_byte char_bit 0 f t did in
    elim (f == 0 || t == 255 || f == t) [
      | true ↦ merge_loop rounds from to (i + 1) did
      | false ↦ merge_loop rounds from (set to i r.0) (i + 1) r.1
    ]

-- The new `tomap` beside the number of blocks that it gained.
unfoldable pub merge : BlockMap → BlockMap → BlockMap × ℕ
merge from to = merge_loop map_bytes from to 0 0

unfoldable pub first_bit : ℕ → ℕ → ℕ → Option ℕ
first_bit zero val bit = none
first_bit (suc left) val bit = elim (test_bit val bit) [
  | true ↦ some bit
  | false ↦ first_bit left val (bit + 1)
]

unfoldable pub first : BlockMap → ℕ
first m =
    let i = skip_zero map_bytes m 0 in
    let block = i * char_bit in
    if ltb i map_bytes
    then elim (first_bit char_bit (get_or m i 0) 0) [ some bit ↦ block + bit | none ↦ block ]
    else block

-- `BlockMapApply`. The callback takes the chunk, the block, the count and the state behind `arg`;
-- it returns whether its result is not zero. `none` is the null pointer.
abbrev pub Callback : Type 0 → Type 0
Callback S = Option (ℕ → ℕ → ℕ → S → Bool × S)

abbrev pub call : {S : Type 0} → Callback S → ℕ → ℕ → ℕ → S → Bool × S
call none chunk block count s = (false, s)
call (some f) chunk block count s = f chunk block count s

pub record Walk (S : Type 0) : Type 0 where
  pub block : ℕ
  pub count : ℕ
  pub did : ℕ
  pub state : S
  pub stopped : Bool

module _ {S : Type 0} (func : Callback S) (chunk : ℕ) where
  -- `func` is called on the run that the walk has, if it has one.
  unfoldable pub finish_run : Walk S → Walk S
  finish_run w =
      let r = call func chunk w.block w.count w.state in
      elim (ltb 0 w.count) [
        | true ↦ record w { count = 0; did = w.did + w.count; state = r.1; stopped = r.0 }
        | false ↦ w
      ]

  -- `val` is an `int`: its bits above the byte never matter before the loop is over.
  unfoldable pub apply_byte : ℕ → ℕ → ℕ → ℕ → Walk S → Walk S
  apply_byte zero i bit val w = w
  apply_byte (suc left) i bit val w = elim (test_bit val bit) [
    | true ↦ apply_byte left i (bit + 1) (clear_bit val bit) (record w {
      block = if w.count == 0 then i * char_bit + bit else w.block;
      count = w.count + 1;
    })
    | false ↦
        let w' = finish_run w in
        elim (w'.stopped || val == 0) [ true ↦ w' | false ↦ apply_byte left i (bit + 1) val w' ]
  ]

  unfoldable pub apply_loop : ℕ → BlockMap → ℕ → Walk S → Walk S
  apply_loop zero m i w = finish_run w
  apply_loop (suc rounds) m i w =
      let w' = apply_byte char_bit i 0 (get_or m i 0) w in
      elim w'.stopped [ true ↦ w' | false ↦ apply_loop rounds m (i + 1) w' ]

  -- The blocks processed, beside the state that the callback leaves.
  unfoldable pub apply : BlockMap → S → ℕ × S
  apply m s =
      let w =
        apply_loop map_bytes m 0
          (record { block = 0; count = 0; did = 0; state = s; stopped = false }) in
      (w.did, w.state)
