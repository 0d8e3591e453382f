-- ===== src/Rangemap/Alloc/Outcome.antt =====
-- `ndz_rangemap_alloc`: every outcome, and what it leaves.
use frisbee.Base.{ℕ, zero, suc, ◌+◌, ◌-◌, ◌%◌, ◌≤◌, ◌<◌, ◌≡◌, Bool, true, false, ◌∷◌}
use frisbee.Base.{arith, refl, subst, inl, inr, Bool-cases, take-append-drop, ◌&&◌, ◌||◌}
use frisbee.Base.{if◌then◌else◌, ◌==◌, get_elem?, take, drop, Option, some, none}
use frisbee.Rangemap.{Range, Rangemap, word, add64, before, Status, ok, einval, enomem}
use frisbee.Rangemap.Chain.{Chain, Chain-IsAt, holder, holder-append, holder_outside, holds, within}
use frisbee.Rangemap.Search.{position}
use frisbee.Rangemap.Place.{position-left, position-before, position-le, drop-Chain}
use frisbee.Rangemap.Update.{
  extend_prev, extend_next, alloc_merge, alloc_new, alloc_at, abuts_prev, abuts_next, is_plain,
  overlaps_next, account,
}
use frisbee.Rangemap.Update.{link_after, range_at}
use frisbee.Rangemap.Alloc.{IsValid}
use frisbee.Rangemap.Alloc.Cases.{SameKind, Placed, range_small, new-Placed, next-Placed}
use frisbee.Rangemap.Alloc.Cases.{join-Placed, prev-Placed}

-- The test under which the code extends a range instead of making one.
abbrev merges : ℕ → Option Range → Option Range → ℕ → ℕ → Bool
merges c r next addr eaddr =
    c == 0 && (abuts_prev r addr && is_plain r || abuts_next next eaddr && is_plain next)

module _ (m : Rangemap) (v : IsValid m) (addr eaddr c : ℕ) (order : addr ≤ eaddr)
    (low : m.loaddr ≤ addr) (high : eaddr ≤ m.hiaddr) where
  merge_prev :
      (p : ℕ) (r : Range) (next : Option Range)
      → get_elem? m.ranges p ≡ some r
      → get_elem? m.ranges (suc p) ≡ next
      → overlaps_next next eaddr ≡ false
      → merges c (some r) next addr eaddr ≡ true
      → r.end + 1 ≡ addr
      → Chain (eaddr + 1) (m.hiaddr + 1) (drop (suc p) m.ranges)
      → Placed m (extend_prev m (suc p) r next eaddr) addr eaddr c
  merge_prev p r none e f apart t abut right =
      prev-Placed m v addr eaddr c order low high p r none e f (ground arith) abut refl right
  merge_prev p r (some n) e f apart t abut right = elim (Bool-cases (add64 eaddr 1 == n.start)) [
    | inl meets ↦
        join-Placed m v addr eaddr c order low high p r n e f (ground arith) (ground arith) abut
          (ground arith) (ground arith)
    | inr gap ↦
        prev-Placed m v addr eaddr c order low high p r (some n) e f (ground arith) abut gap right
  ]

  merge-Placed :
      (i : ℕ) (r next : Option Range)
      → range_at m.ranges (before i) ≡ r
      → get_elem? m.ranges i ≡ next
      → overlaps_next next eaddr ≡ false
      → merges c r next addr eaddr ≡ true
      → ((q : Range) → r ≡ some q → q.end < addr)
      → Chain m.loaddr addr (take i m.ranges)
      → Chain (eaddr + 1) (m.hiaddr + 1) (drop i m.ranges)
      → Placed m (alloc_merge m i r next addr eaddr) addr eaddr c
  unfolding alloc_merge
  merge-Placed i none none e f apart t past left right = absurd (ground arith)
  merge-Placed i none (some n) e f apart t past left right =
      next-Placed m v addr eaddr c order low high i n f (ground arith) (ground arith) (ground arith)
        left
  merge-Placed zero (some r) next e f apart t past left right = absurd (ground arith)
  merge-Placed (suc p) (some r) next e f apart t past left right =
      elim (Bool-cases (add64 r.end 1 == addr)) [
        | inl abut ↦
            rw (abut, alloc_merge)
              (merge_prev p r next e f apart t (ground (arith, past r refl, v.small)) right)
        | inr gap ↦ rw (gap, alloc_merge) (merge_rest next f apart t gap)
      ]
    where
      merge_rest :
          (next : Option Range)
          → get_elem? m.ranges (suc p) ≡ next
          → overlaps_next next eaddr ≡ false
          → merges c (some r) next addr eaddr ≡ true
          → (add64 r.end 1 == addr) ≡ false
          → Placed m (extend_next m (suc p) next addr eaddr) addr eaddr c
      merge_rest none f apart t gap = absurd (ground arith)
      merge_rest (some n) f apart t gap =
          next-Placed m v addr eaddr c order low high (suc p) n f (ground arith) (ground arith)
            (ground arith) left

link_after-before : (i : ℕ) → link_after (before i) ≡ i
link_after-before zero = refl
link_after-before (suc i) = refl

-- A successful allocation: the addresses were free, and now they and the old ones are allocated.
pub record IsAlloc (m m' : Rangemap) (addr eaddr size c : ℕ) : Type 0 where
  pub free : (a : ℕ) → within addr eaddr a ≡ true → holds m.ranges a ≡ false
  pub valid : IsValid m'
  pub covers : (a : ℕ) → holds m'.ranges a ≡ (within addr eaddr a || holds m.ranges a)
  pub contents :
      SameKind m.ranges addr eaddr c
      → (a : ℕ) → holder m'.ranges a ≡ (if within addr eaddr a then some c else holder m.ranges a)
  pub bounds : (m'.loaddr ≡ m.loaddr) × (m'.hiaddr ≡ m.hiaddr)
  pub changed : m'.gen ≡ add64 m.gen 1

-- All that `ndz_rangemap_alloc` can do within the bounds of the map.
pub data AllocOutcome (m : Rangemap) (addr eaddr size c : ℕ) (mem : Bool) (r : Status × Rangemap)
    : Type 0 where
  done : r.0 ≡ ok → IsAlloc m r.1 addr eaddr size c → AllocOutcome m addr eaddr size c mem r
  taken :
      r.0 ≡ einval
      → r.1.ranges ≡ m.ranges
      → IsValid r.1
      → (a : ℕ) → within addr eaddr a ≡ true
      → holds m.ranges a ≡ true
      → AllocOutcome m addr eaddr size c mem r
  starved :
      r.0 ≡ enomem
      → r.1.ranges ≡ m.ranges
      → IsValid r.1
      → mem ≡ false
      → ((a : ℕ) → within addr eaddr a ≡ true → holds m.ranges a ≡ false)
      → AllocOutcome m addr eaddr size c mem r

module _ (m : Rangemap) (v : IsValid m) (addr eaddr c : ℕ) (order : addr ≤ eaddr)
    (low : m.loaddr ≤ addr) (high : eaddr ≤ m.hiaddr) where
  Placed-IsAlloc :
      (size : ℕ) (m' : Rangemap)
      → Placed m m' addr eaddr c
      → size % word ≡ (eaddr - addr + 1) % word
      → ((a : ℕ) → within addr eaddr a ≡ true → holds m.ranges a ≡ false)
      → IsAlloc m (account m' size) addr eaddr size c
  Placed-IsAlloc size m' p e free = record {
    free = free;
    valid = record {
      chain = rw (p.bounds.0, p.bounds.1) p.grown.chain;
      small = omega (arith, p.bounds, v.small);
      hinted = p.hinted;
      counted = p.counted;
      measured = ground (arith, p.bounds, p.grown.size, v.measured);
    };
    covers = p.grown.covers;
    contents = p.grown.contents;
    bounds = (p.bounds.0, p.bounds.1);
    changed = ground (arith, p.bounds);
  }

  -- The addresses lie in a gap of the list.
  gap_free :
      (i a : ℕ)
      → Chain m.loaddr addr (take i m.ranges)
      → Chain (eaddr + 1) (m.hiaddr + 1) (drop i m.ranges)
      → within addr eaddr a ≡ true
      → holds m.ranges a ≡ false
  gap_free i a left right h =
      subst (λ rs. holds rs a ≡ false) (take-append-drop i m.ranges)
        (ground (
          arith,
          holder-append (take i m.ranges) (drop i m.ranges) a,
          holder_outside m.loaddr addr (take i m.ranges) a left,
          holder_outside (eaddr + 1) (m.hiaddr + 1) (drop i m.ranges) a right,
        ))

  pub holds_at :
      (i a : ℕ) (r : Range)
      → get_elem? m.ranges i ≡ some r
      → r.start ≤ a
      → a ≤ r.end
      → holds m.ranges a ≡ true
  unfolding holder
  holds_at i a r e from to =
      let at = Chain-IsAt m.loaddr (m.hiaddr + 1) i m.ranges r v.chain e in
      ground (
        arith,
        at.split,
        holder-append (take i m.ranges) (r ∷ drop (suc i) m.ranges) a,
        holder_outside m.loaddr r.start (take i m.ranges) a at.left,
      )

  -- The next range is in the way.
  taken-AllocOutcome :
      (size : ℕ) (mem : Bool) (i : ℕ) (next : Option Range)
      → get_elem? m.ranges i ≡ next
      → ((n : Range) → next ≡ some n → addr < n.start)
      → overlaps_next next eaddr ≡ true
      → AllocOutcome m addr eaddr size c mem (einval, m)
  taken-AllocOutcome size mem i none e miss t = absurd (ground arith)
  taken-AllocOutcome size mem i (some n) e miss t =
      let small = range_small m v addr eaddr c order low high i n e in
      taken refl refl v n.start (ground (arith, miss n refl))
        (holds_at i n.start n e (omega arith) small.0)

  pub alloc_at-AllocOutcome :
      (i size : ℕ) (mem : Bool)
      → i ≡ position addr m.ranges
      → ((n : Range) → get_elem? m.ranges i ≡ some n → addr < n.start)
      → size % word ≡ (eaddr - addr + 1) % word
      → AllocOutcome m addr eaddr size c mem (alloc_at m (before i) addr eaddr size c mem)
  unfolding alloc_at
  alloc_at-AllocOutcome i size mem at miss e =
      let r = range_at m.ranges (before i) in
      let next = get_elem? m.ranges i in
      let left : Chain m.loaddr addr (take i m.ranges) =
        rw at (position-left addr m.loaddr (m.hiaddr + 1) m.ranges low v.chain) in
      rw (link_after-before i) (elim (Bool-cases (overlaps_next next eaddr)) [
        | inl clash ↦ rw (clash, alloc_at) (taken-AllocOutcome size mem i next refl miss clash)
        | inr apart ↦
            let right : Chain (eaddr + 1) (m.hiaddr + 1) (drop i m.ranges) =
              drop-Chain i m.loaddr (m.hiaddr + 1) (eaddr + 1) m.ranges v.chain (omega arith)
                (λ n f. after n next f apart) in
            let free = λ (a : ℕ). gap_free i a left right in
            elim (Bool-cases (merges c r next addr eaddr)) [
              | inl joins ↦
                  rw (apart, joins, alloc_at)
                    (done refl (
                      Placed-IsAlloc size (alloc_merge m i r next addr eaddr)
                        (merge-Placed m v addr eaddr c order low high i r next refl refl apart joins
                          (past i at) left right)
                        e free))
              | inr fresh ↦ elim (Bool-cases mem) [
                | inl given ↦
                    rw (apart, fresh, given, alloc_at)
                      (done refl (
                        Placed-IsAlloc size (alloc_new m i addr eaddr c)
                          (new-Placed m v addr eaddr c order low high i
                            (rw at (position-le addr m.ranges)) left right)
                          e free))
                | inr refused ↦ rw (apart, fresh, refused, alloc_at) (starved refl refl v refl free)
              ]
            ]
      ])
    where
      after :
          (n : Range) (next : Option Range)
          → next ≡ some n
          → overlaps_next next eaddr ≡ false
          → eaddr + 1 ≤ n.start
      after n none f apart = absurd (ground arith)
      after n (some x) f apart = ground arith

      past :
          (i : ℕ)
          → i ≡ position addr m.ranges
          → (q : Range) → range_at m.ranges (before i) ≡ some q
          → q.end < addr
      past zero at q f = absurd (ground arith)
      past (suc p) at q f = position-before addr p m.ranges q at f
