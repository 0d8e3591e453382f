-- ===== src/Rangemap/Dealloc.antt =====
-- `ndz_rangemap_dealloc`: every outcome, and what it leaves.
pub mod Laws
use frisbee.Base.{ℕ, zero, suc, ◌+◌, ◌-◌, ◌%◌, ◌≤◌, ◌<◌, ◌≡◌, ◌≢◌, Bool, true, false, List, [], ◌∷◌}
use frisbee.Base.{arith, refl, sym, subst, ◌∙◌, ap, inl, inr, ◌⊎◌, Bool-cases, ◌&&◌, ◌||◌}
use frisbee.Base.{
  if◌then◌else◌, ◌==◌, leb, ltb, get_elem?, set, take, drop, length, Option, some, none,
}
use frisbee.Rangemap.{Range, Rangemap, word, add64, sub64, Status, ok, einval, ebusy, enomem}
use frisbee.Rangemap.Chain.{Chain, Chain-le, Chain-IsAt, IsAt, Splice, holder, holds, total, within}
use frisbee.Rangemap.Chain.{Splice-Chain, Splice-holder, Splice-old, Splice-length, Splice-total}
use frisbee.Rangemap.Place.{set-Splice, remove_at-Splice, split-Splice, position-next}
use frisbee.Rangemap.Search.{position, hit, hint_of}
use frisbee.Rangemap.Update.{
  insert_at, remove_at, dealloc_at, dealloc_found, dealloc_search, dealloc, unaccount, is_bad,
  last_addr,
}
use frisbee.Rangemap.Alloc.{IsValid}
use frisbee.Rangemap.Alloc.Cases.{get_elem?-lt, range_small}
use frisbee.Rangemap.Alloc.Laws.{hint-IsValid, hit-le, search_at, lookup_at, size_of_span}

-- The addresses from `addr` to `eaddr`, all held by plain ranges, are taken out of `rs`.
pub record Shrunk (lo hi : ℕ) (rs rs' : List Range) (addr eaddr : ℕ) : Type 0 where
  pub chain : Chain lo hi rs'
  pub contents : (a : ℕ) → holder rs' a ≡ (if within addr eaddr a then none else holder rs a)
  pub were : (a : ℕ) → within addr eaddr a ≡ true → holder rs a ≡ some 0
  pub size : total rs' + (eaddr - addr + 1) ≡ total rs

module _ (lo hi : ℕ) (rs : List Range) (addr eaddr i : ℕ) (r : Range) (order : addr ≤ eaddr)
    (e : get_elem? rs i ≡ some r) (whole : Chain lo hi rs) (plain : r.content ≡ 0)
    (from : r.start ≤ addr) (to : eaddr ≤ r.end) where
  pub all-Shrunk :
      r.start ≡ addr
      → r.end ≡ eaddr
      → Shrunk lo hi rs (remove_at i rs) addr eaddr × (length (remove_at i rs) + 1 ≡ length rs)
  unfolding holder total
  all-Shrunk es ee =
      let s = remove_at-Splice rs i r (Chain-IsAt lo hi i rs r whole e) in
      (
        record {
          chain = Splice-Chain s;
          contents = λ a. ground (arith, Splice-holder s a, Splice-old s a);
          were = λ a w. ground (arith, Splice-old s a);
          size = omega (arith, Splice-total s);
        },
        omega (arith, Splice-length s),
      )

  pub head-Shrunk :
      r.start ≡ addr
      → eaddr < r.end
      → let rs' = set rs i (record r { start = eaddr + 1 }) in
        Shrunk lo hi rs rs' addr eaddr × (length rs' ≡ length rs)
  unfolding holder total
  head-Shrunk es lt =
      let at = Chain-IsAt lo hi i rs r whole e in
      let s =
        set-Splice rs i r.start (r.end + 1) r (record r { start = eaddr + 1 }) e at at.left at.right
          (omega arith, at.good, omega arith) (omega arith, omega arith, omega arith) in
      (
        record {
          chain = Splice-Chain s;
          contents = λ a. ground (arith, Splice-holder s a, Splice-old s a);
          were = λ a w. ground (arith, Splice-old s a);
          size = omega (arith, Splice-total s);
        },
        omega (arith, Splice-length s),
      )

  pub tail-Shrunk :
      r.start < addr
      → r.end ≡ eaddr
      → let rs' = set rs i (record r { end = addr - 1 }) in
        Shrunk lo hi rs rs' addr eaddr × (length rs' ≡ length rs)
  unfolding holder total
  tail-Shrunk lt ee =
      let at = Chain-IsAt lo hi i rs r whole e in
      let s =
        set-Splice rs i r.start (r.end + 1) r (record r { end = addr - 1 }) e at at.left at.right
          (omega arith, at.good, omega arith) (omega arith, omega arith, omega arith) in
      (
        record {
          chain = Splice-Chain s;
          contents = λ a. ground (arith, Splice-holder s a, Splice-old s a);
          were = λ a w. ground (arith, Splice-old s a);
          size = omega (arith, Splice-total s);
        },
        omega (arith, Splice-length s),
      )

  pub middle-Shrunk :
      r.start < addr
      → eaddr < r.end
      → let rs' =
          insert_at
            (suc i)
            (record { start = eaddr + 1; end = r.end; content = 0 })
            (set rs i (record r { end = addr - 1 })) in
        Shrunk lo hi rs rs' addr eaddr × (length rs' ≡ length rs + 1)
  unfolding holder total
  middle-Shrunk lt gt =
      let at = Chain-IsAt lo hi i rs r whole e in
      let s =
        split-Splice rs i r (record r { end = addr - 1 })
          (record { start = eaddr + 1; end = r.end; content = 0 }) e at
          (omega arith, omega arith, (omega arith, omega arith, omega arith)) in
      (
        record {
          chain = Splice-Chain s;
          contents = λ a. ground (arith, Splice-holder s a, Splice-old s a);
          were = λ a w. ground (arith, Splice-old s a);
          size = omega (arith, Splice-total s);
        },
        omega (arith, Splice-length s),
      )

-- A successful deallocation: the addresses were held by plain ranges, and are free now.
pub record IsDealloc (m m' : Rangemap) (addr eaddr : ℕ) : Type 0 where
  pub were : (a : ℕ) → within addr eaddr a ≡ true → holder m.ranges a ≡ some 0
  pub valid : IsValid m'
  pub contents :
      (a : ℕ) → holder m'.ranges a ≡ (if within addr eaddr a then none else holder m.ranges a)
  pub bounds : (m'.loaddr ≡ m.loaddr) × (m'.hiaddr ≡ m.hiaddr)
  pub changed : m'.gen ≡ add64 m.gen 1

-- All that `ndz_rangemap_dealloc` can do within the bounds of the map. No range alone covers the
-- addresses, or the one that does has data, or there is no memory to split it, which a plain range
-- that reaches past the addresses on both sides needs.
pub data DeallocOutcome (m : Rangemap) (addr eaddr : ℕ) (mem : Bool) (r : Status × Rangemap)
    : Type 0 where
  done :
      r.0 ≡ ok
      → IsDealloc m r.1 addr eaddr
      → (i : ℕ) (q : Range) → get_elem? m.ranges i ≡ some q
      → q.start ≤ addr
      → eaddr ≤ q.end
      → q.content ≡ 0
      → DeallocOutcome m addr eaddr mem r
  uncovered :
      r.0 ≡ einval
      → r.1.ranges ≡ m.ranges
      → IsValid r.1
      → ((i : ℕ) (q : Range) → get_elem? m.ranges i ≡ some q → (addr < q.start) ⊎ (q.end < eaddr))
      → DeallocOutcome m addr eaddr mem r
  busy :
      r.0 ≡ ebusy
      → r.1.ranges ≡ m.ranges
      → IsValid r.1
      → (i : ℕ) (q : Range) → get_elem? m.ranges i ≡ some q
      → q.start ≤ addr
      → eaddr ≤ q.end
      → q.content ≢ 0
      → DeallocOutcome m addr eaddr mem r
  starved :
      r.0 ≡ enomem
      → r.1.ranges ≡ m.ranges
      → IsValid r.1
      → mem ≡ false
      → (i : ℕ) (q : Range) → get_elem? m.ranges i ≡ some q
      → q.start < addr
      → eaddr < q.end
      → q.content ≡ 0
      → DeallocOutcome m addr eaddr mem r
