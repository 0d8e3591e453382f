-- ===== src/Rangemap.antt =====
-- The range map of src/imagezip/libndz/rangemap.c and rangemap.h: the allocated address ranges of a
-- disk as a sorted list, each with an opaque pointer, and a hint where to start the next search.
-- The singly linked list is a list here, and a pointer to its k-th link (`head.next` for 0, else the
-- `next` of the range before) is the number k. Pointers to ranges are positions in the list. The
-- null pointer of `data` is 0. A failed `calloc` is the argument `mem`, false. The `STATS` counters
-- of searches are left out.
pub mod Chain
pub mod Search
pub mod Place
pub mod Alloc
pub mod Update
pub mod Dealloc
pub mod Query
pub mod Iterate
pub use frisbee.Base.{word, add64, sub64}
use frisbee.Base.{
  ℕ, zero, suc, ◌+◌, ◌-◌, ◌^◌, ◌%◌, Bool, true, false, ◌&&◌, ◌||◌, not, List, [], ◌∷◌, ◌++◌,
}
use frisbee.Base.{
  if◌then◌else◌, ◌==◌, leb, ltb, get_elem?, set, take, drop, length, Option, some, none,
}

pub record Range : Type 0 where
  pub start : ℕ
  pub end : ℕ
  pub content : ℕ

pub record Rangemap : Type 0 where
  pub ranges : List Range
  pub hint : ℕ
  pub loaddr : ℕ
  pub hiaddr : ℕ
  pub gen : ℕ
  pub entries : ℕ
  pub sectors : ℕ

pub data Status : Type 0 where
  ok einval ebusy enomem : Status

unfoldable pub init : ℕ → ℕ → Rangemap
init lo hi = record {
  ranges = [];
  hint = 0;
  loaddr = lo;
  hiaddr = hi;
  gen = 1;
  entries = 0;
  sectors = 0;
}

-- What a search returns: the range with the address, the range before it, and the new hint.
pub record Found : Type 0 where
  pub range : Option ℕ
  pub prev : Option ℕ
  pub at : ℕ

-- The range before link `k`, if there is one.
abbrev pub before : ℕ → Option ℕ
before zero = none
before (suc k) = some k

-- The loop of `ndz_rangemap_lookup` over the ranges from link `k` on; `old` is the link before.
unfoldable pub lookup_loop : ℕ → ℕ → Option ℕ → List Range → Found
lookup_loop addr k old [] = record { range = none; prev = before k; at = k }
lookup_loop addr k old (r ∷ rest) = elim (leb addr r.end) [
  | true ↦ elim (ltb addr r.start) [
    | true ↦ record { range = none; prev = before k; at = elim old [ some o ↦ o | none ↦ k ] }
    | false ↦ record { range = some k; prev = before k; at = k }
  ]
  | false ↦ elim rest [
    | [] ↦ record { range = none; prev = some k; at = k }
    | _ ∷ _ ↦ lookup_loop addr (k + 1) (some k) rest
  ]
]

-- The search from the first link. On an empty list the loop is not entered.
unfoldable pub lookup_start : ℕ → List Range → Found
lookup_start addr [] = record { range = none; prev = none; at = 0 }
lookup_start addr (r ∷ rest) = lookup_loop addr 0 none (r ∷ rest)

-- The search from the hint, unless it is at the end or after the address.
unfoldable pub lookup_from : ℕ → List Range → ℕ → List Range → Found
lookup_from addr all k [] = lookup_start addr all
lookup_from addr all k (r ∷ rest) =
    if ltb addr r.start then lookup_start addr all else lookup_loop addr k none (r ∷ rest)

unfoldable pub lookup : Rangemap → ℕ → Found
lookup map addr = lookup_from addr map.ranges map.hint (drop map.hint map.ranges)
