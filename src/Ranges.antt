-- ===== src/Ranges.antt =====
-- The free and the valid sector ranges of src/imagezip/imagezip.c: `addskip`, `addvalid`,
-- `sortrange`, `mergeranges`, `mergeskips`, `makeranges`, `sectinranges`. A linked list is a list
-- here, changed as the code changes the links; `malloc` succeeds (the code exits where it fails).
-- The build is the one without `WITH_HASHALIGN`, `USE_HACKSORT`, `TEST_RANGEMAP` and `DOHISTO`.
pub mod Sort
pub mod Merge
pub mod Make
pub mod Skips
use frisbee.Base.{
  ℕ, zero, suc, ◌+◌, ◌-◌, ◌^◌, Bool, true, false, ◌&&◌, ◌||◌, not, List, [], ◌∷◌, ◌++◌,
}
use frisbee.Base.{if◌then◌else◌, ◌==◌, ltb, length, Option, some, none, add64, sub64}

pub record SectRange : Type 0 where
  pub start : ℕ
  pub size : ℕ
  pub content : ℕ

-- The globals `skips`, `numskips`, `ranges` and `numranges`.
pub record Lists : Type 0 where
  pub skips : List SectRange
  pub num_skips : ℕ
  pub valid : List SectRange
  pub num_ranges : ℕ

abbrev pub range_of : ℕ → ℕ → SectRange
range_of start size = record { start = start; size = size; content = 0 }

unfoldable pub add_skip : ℕ → ℕ → Lists → Lists
add_skip start size l = record l {
  skips = range_of start size ∷ l.skips;
  num_skips = l.num_skips + 1;
}

unfoldable pub add_valid : ℕ → ℕ → Lists → Lists
add_valid start size l = record l {
  valid = l.valid ++ range_of start size ∷ [];
  num_ranges = l.num_ranges + 1;
}

-- `rangecmp`, none where it is null.
abbrev pub Compare : Type 0
Compare = Option (SectRange → SectRange → Bool)

-- The test for a swap of two neighbours.
unfoldable pub out_of_order : Compare → SectRange → SectRange → Bool
out_of_order none a b = ltb b.start a.start
out_of_order (some f) a b = ltb b.start a.start || f a b

-- A pass over the list with `x` at hand: the list it leaves, and `changed`.
unfoldable pub bubble : Compare → SectRange → List SectRange → List SectRange × Bool
bubble f x [] = (x ∷ [], false)
bubble f x (y ∷ rest) = elim (out_of_order f x y) [
  | true ↦ let r = bubble f x rest in (y ∷ r.0, true)
  | false ↦ let r = bubble f y rest in (x ∷ r.0, r.1)
]

unfoldable pub pass : Compare → List SectRange → List SectRange × Bool
pass f [] = ([], false)
pass f (x ∷ rest) = bubble f x rest

-- `none` is a loop that is not over after `fuel` passes.
unfoldable pub sort_loop : ℕ → Compare → List SectRange → Option (List SectRange)
sort_loop zero f rs = none
sort_loop (suc fuel) f rs =
    let r = pass f rs in elim r.1 [ true ↦ sort_loop fuel f r.0 | false ↦ some r.0 ]

-- Passes that are enough where `rangecmp` is null.
unfoldable pub passes : List SectRange → ℕ
passes [] = 1
passes (x ∷ rest) = length rest + passes rest

-- The list with contiguous ranges combined, beside the number of entries freed; `x` is at hand.
unfoldable pub merge_from : SectRange → List SectRange → List SectRange × ℕ
merge_from x [] = (x ∷ [], 0)
merge_from x (y ∷ rest) = elim (add64 x.start x.size == y.start) [
  | true ↦ let r = merge_from (record x { size = add64 x.size y.size }) rest in (r.0, r.1 + 1)
  | false ↦ let r = merge_from y rest in (x ∷ r.0, r.1)
]

unfoldable pub merge_ranges : List SectRange → List SectRange × ℕ
merge_ranges [] = ([], 0)
merge_ranges (x ∷ rest) = merge_from x rest

-- `sortrange`; the result of `mergeranges` is dropped.
unfoldable pub sort_range : ℕ → Bool → Compare → List SectRange → Option (List SectRange)
sort_range fuel domerge f [] = some []
sort_range fuel domerge f (x ∷ rest) = elim (sort_loop fuel f (x ∷ rest)) [
  | none ↦ none
  | some rs ↦ some (if domerge then (merge_ranges rs).0 else rs)
]

-- The pass that culls ranges smaller than `frangesize`, which is positive: what stays, and what
-- goes, which the code zeroes through `addfixupfunc` where `zerofrange` says so.
unfoldable pub cull : ℕ → List SectRange → List SectRange × List SectRange
cull limit [] = ([], [])
cull limit (x ∷ rest) =
    let r = cull limit rest in
    elim (ltb x.size limit) [ true ↦ (r.0, x ∷ r.1) | false ↦ (x ∷ r.0, r.1) ]

pub record Merged : Type 0 where
  pub kept : List SectRange
  pub culled : List SectRange
  pub freed : ℕ

-- `mergeskips`, for `frangesize` zero or positive.
unfoldable pub merge_skips : ℕ → ℕ → List SectRange → Option Merged
merge_skips fuel limit skips = elim (sort_range fuel false none skips) [
  | none ↦ none
  | some rs ↦
      let m = merge_ranges rs in
      let c = if limit == 0 then (m.0, []) else cull limit m.0 in
      some (record { kept = c.0; culled = c.1; freed = m.1 + length c.1 })
]

abbrev pub uint32_max : ℕ
uint32_max = 2 ^ 32 - 1

-- Where `makeranges` is: the offset, `need64`, and the lists.
pub record Making : Type 0 where
  pub offset : ℕ
  pub need64 : Bool
  pub lists : Lists

abbrev pub add_gap : ℕ → ℕ → Lists → Lists
add_gap offset size l = if ltb 0 size then add_valid offset size l else l

unfoldable pub make_loop : List SectRange → Making → Making
make_loop [] w = w
make_loop (skip ∷ rest) w =
    let size = sub64 skip.start w.offset in
    make_loop rest (record {
      offset = add64 skip.start skip.size;
      need64 = w.need64 || ltb uint32_max w.offset || ltb uint32_max size;
      lists = add_gap w.offset size w.lists;
    })

-- The last piece; `maxsec` is zero where the end of the device is not known.
unfoldable pub make_last : ℕ → Making → Making
make_last maxsec w = elim (maxsec == 0) [
  | true ↦ record w { lists = add_valid w.offset 0 w.lists }
  | false ↦
      let size = sub64 maxsec w.offset in
      if size == 0 then w else record w {
        need64 = w.need64 || ltb uint32_max maxsec || ltb uint32_max size;
        lists = add_valid w.offset size w.lists;
      }
]

-- `makeranges`: the lists it leaves, and what it writes through `need64p`. The skips are freed; the
-- global goes on pointing to them.
unfoldable pub make_ranges : ℕ → ℕ → Lists → Lists × Bool
make_ranges minsec maxsec l =
    let w =
      make_last maxsec
        (make_loop l.skips (record { offset = minsec; need64 = false; lists = l })) in
    (w.lists, w.need64)

unfoldable pub sect_in_ranges : List SectRange → ℕ
sect_in_ranges [] = 0
sect_in_ranges (x ∷ rest) = add64 x.size (sect_in_ranges rest)
