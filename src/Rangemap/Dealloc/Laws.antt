-- ===== src/Rangemap/Dealloc/Laws.antt =====
-- `ndz_rangemap_dealloc` as its callers see it.
use frisbee.Base.{ℕ, zero, suc, ◌+◌, ◌-◌, ◌%◌, ◌≤◌, ◌<◌, ◌≡◌, Bool, false, List, [], ◌∷◌}
use frisbee.Base.{arith, refl, inl, inr, Bool-cases}
use frisbee.Base.{◌==◌, leb, ltb, get_elem?, set, length, Option, some, none}
use frisbee.Rangemap.{Range, Rangemap, word, add64, sub64, Status, ok, einval}
use frisbee.Rangemap.Chain.{Chain, Chain-le, Chain-IsAt}
use frisbee.Rangemap.Place.{position-next, position-le}
use frisbee.Rangemap.Search.{position, hit, hint_of}
use frisbee.Rangemap.Update.{
  insert_at, remove_at, dealloc_at, dealloc_found, dealloc_search, dealloc, unaccount, is_bad,
  last_addr,
}
use frisbee.Rangemap.Alloc.{IsValid}
use frisbee.Rangemap.Alloc.Cases.{get_elem?-lt, range_small}
use frisbee.Rangemap.Alloc.Laws.{hint-IsValid, hit-le, search_at, lookup_at, size_of_span}
use frisbee.Rangemap.Dealloc.{Shrunk, all-Shrunk, head-Shrunk, tail-Shrunk, middle-Shrunk}
use frisbee.Rangemap.Dealloc.{IsDealloc, DeallocOutcome, done, uncovered, busy, starved}

module _ (m : Rangemap) (v : IsValid m) (addr eaddr size : ℕ) (order : addr ≤ eaddr)
    (low : m.loaddr ≤ addr) (high : eaddr ≤ m.hiaddr) (fits : size < word)
    (span : size % word ≡ (eaddr - addr + 1) % word) where
  -- The counters of a map whose ranges have shrunk.
  Shrunk-IsDealloc :
      (rs' : List Range) (hint entries : ℕ)
      → Shrunk m.loaddr (m.hiaddr + 1) m.ranges rs' addr eaddr
      → hint ≤ length rs'
      → entries ≡ length rs' % word
      → let m' : Rangemap = record m { ranges = rs'; hint = hint; entries = entries } in
        IsDealloc m (unaccount m' size) addr eaddr
  Shrunk-IsDealloc rs' hint entries s h e = record {
    were = s.were;
    valid = record {
      chain = s.chain;
      small = v.small;
      hinted = h;
      counted = e;
      measured = ground (arith, s.size, v.measured);
    };
    contents = s.contents;
    bounds = (refl, refl);
    changed = refl;
  }

  freed :
      (i : ℕ) (r : Range) (mem : Bool) (m' : Rangemap)
      → get_elem? m.ranges i ≡ some r
      → r.content ≡ 0
      → r.start ≤ addr
      → eaddr ≤ r.end
      → IsDealloc m m' addr eaddr
      → DeallocOutcome m addr eaddr mem (ok, m')
  freed i r mem m' e plain from to d = done refl d i r e from to plain

  dealloc_at-DeallocOutcome :
      (i : ℕ) (r : Range) (mem : Bool)
      → get_elem? m.ranges i ≡ some r
      → r.content ≡ 0
      → r.start ≤ addr
      → eaddr ≤ r.end
      → DeallocOutcome m addr eaddr mem (dealloc_at m i r addr eaddr size mem)
  unfolding dealloc_at
  dealloc_at-DeallocOutcome i r mem e plain from to =
      let inside = get_elem?-lt i m.ranges r e in
      let small = range_small m v addr eaddr 0 order low high i r e in
      elim (Bool-cases (r.start == addr)) [
        | inl es ↦ elim (Bool-cases (r.end == eaddr)) [
          | inl ee ↦
              let (s, l) =
                all-Shrunk m.loaddr (m.hiaddr + 1) m.ranges addr eaddr i r order e v.chain plain
                  from to (ground arith) (ground arith) in
              rw (es, ee, dealloc_at)
                (freed i r _ _ e plain from to (
                  Shrunk-IsDealloc (remove_at i m.ranges) i (sub64 m.entries 1) s (omega (arith, l))
                    (ground (arith, l, v.counted))))
          | inr more ↦
              let (s, l) =
                head-Shrunk m.loaddr (m.hiaddr + 1) m.ranges addr eaddr i r order e v.chain plain
                  from to (ground arith) (ground arith) in
              let next : add64 eaddr 1 ≡ eaddr + 1 = ground (arith, small) in
              rw (es, more, dealloc_at, next)
                (freed i r _ _ e plain from to (
                  Shrunk-IsDealloc (set m.ranges i (record r { start = eaddr + 1 })) i m.entries s
                    (omega (arith, l)) (ground (arith, l, v.counted))))
        ]
        | inr inner ↦
            let before : sub64 addr 1 ≡ addr - 1 = ground (arith, small) in
            elim (Bool-cases (r.end == eaddr)) [
              | inl ee ↦
                  let (s, l) =
                    tail-Shrunk m.loaddr (m.hiaddr + 1) m.ranges addr eaddr i r order e v.chain
                      plain from to (ground arith) (ground arith) in
                  rw (inner, ee, dealloc_at, before)
                    (freed i r _ _ e plain from to (
                      Shrunk-IsDealloc (set m.ranges i (record r { end = addr - 1 })) i m.entries s
                        (omega (arith, l)) (ground (arith, l, v.counted))))
              | inr more ↦ elim (Bool-cases mem) [
                | inl given ↦
                    let (s, l) =
                      middle-Shrunk m.loaddr (m.hiaddr + 1) m.ranges addr eaddr i r order e v.chain
                        plain from to (ground arith) (ground arith) in
                    let next : add64 eaddr 1 ≡ eaddr + 1 = ground (arith, small) in
                    rw (inner, more, given, dealloc_at, before, next)
                      (freed i r _ _ e plain from to (
                        Shrunk-IsDealloc
                          (insert_at (suc i)
                            (record { start = eaddr + 1; end = r.end; content = 0 })
                            (set m.ranges i (record r { end = addr - 1 })))
                          (suc i) (add64 m.entries 1) s (omega (arith, l))
                          (ground (arith, l, v.counted))))
                | inr none_left ↦
                    rw (inner, more, none_left, dealloc_at)
                      (starved refl refl v refl i r e (ground arith) (ground arith) plain)
              ]
            ]
      ]

  found-DeallocOutcome :
      (i : ℕ) (r : Range) (mem : Bool)
      → get_elem? m.ranges i ≡ some r
      → r.start ≤ addr
      → addr ≤ r.end
      → ((j : ℕ) (q : Range)
          → get_elem? m.ranges j ≡ some q
          → q.start ≤ addr
          → addr ≤ q.end
          → q ≡ r)
      → DeallocOutcome m addr eaddr mem
          (dealloc_found m i (get_elem? m.ranges i) addr eaddr size mem)
  unfolding dealloc_found
  found-DeallocOutcome i r mem e from here only = elim (Bool-cases (ltb r.end eaddr)) [
    | inl over ↦
        rw (e, over, dealloc_found) (uncovered refl refl v (λ j q f. ground (arith, only j q)))
    | inr to ↦ elim (Bool-cases (r.content == 0)) [
      | inl plain ↦
          rw (e, to, plain, dealloc_found)
            (dealloc_at-DeallocOutcome i r mem e (ground arith) from (ground arith))
      | inr full ↦
          rw (e, to, full, dealloc_found)
            (busy refl refl v i r e from (ground arith) (λ z. ground arith))
    ]
  ]

-- Moving the hint first makes no difference to an outcome.
from_hint :
    (m : Rangemap) (h : ℕ) {addr eaddr : ℕ} {mem : Bool} {r : Status × Rangemap}
    → DeallocOutcome (record m { hint = h }) addr eaddr mem r
    → DeallocOutcome m addr eaddr mem r
from_hint m h (done e x i q f a b c) =
    done e
      (record {
        were = x.were;
        valid = x.valid;
        contents = x.contents;
        bounds = x.bounds;
        changed = x.changed;
      })
      i q f a b c
from_hint m h (uncovered e l v f) = uncovered e l v f
from_hint m h (busy e l v i q f a b c) = busy e l v i q f a b c
from_hint m h (starved e l v n i q f a b c) = starved e l v n i q f a b c

-- Only the range where the search stops can hold the address.
only_here :
    (lo hi addr : ℕ) (rs : List Range) (j : ℕ) (q : Range)
    → Chain lo hi rs
    → get_elem? rs j ≡ some q
    → q.start ≤ addr
    → addr ≤ q.end
    → get_elem? rs (position addr rs) ≡ some q
unfolding position
only_here lo hi addr [] j q c e a b = absurd (ground arith)
only_here lo hi addr (r ∷ rs) zero q c e a b = ground arith
only_here lo hi addr (r ∷ rs) (suc j) q c e a b =
    let after = Chain-IsAt (r.end + 1) hi j rs q c.2 e in
    let past : r.end < addr = omega (arith, Chain-le _ _ _ after.left) in
    let count : position addr (r ∷ rs) ≡ suc (position addr rs) = ground arith in
    rw count (only_here (r.end + 1) hi addr rs j q c.2 e a b)

search-DeallocOutcome :
    (m : Rangemap) (addr eaddr size : ℕ) (mem : Bool) (r : Option Range)
    → IsValid m
    → addr ≤ eaddr
    → m.loaddr ≤ addr
    → eaddr ≤ m.hiaddr
    → size < word
    → size % word ≡ (eaddr - addr + 1) % word
    → get_elem? m.ranges (position addr m.ranges) ≡ r
    → DeallocOutcome m addr eaddr mem (elim (hit addr (position addr m.ranges) r) [
      | none ↦ (einval, m)
      | some i ↦ dealloc_found m i (get_elem? m.ranges i) addr eaddr size mem
    ])
search-DeallocOutcome m addr eaddr size mem none v order low high fits span e =
    uncovered refl refl v
      (λ j q f. ground (arith, only_here m.loaddr (m.hiaddr + 1) addr m.ranges j q v.chain f))
search-DeallocOutcome m addr eaddr size mem (some r) v order low high fits span e =
    elim (Bool-cases (leb r.start addr)) [
      | inl here ↦ rw here (
          found-DeallocOutcome m v addr eaddr size order low high fits span (position addr m.ranges)
            r mem e (ground arith) (position-next addr m.ranges r e)
            (λ j q f a b.
              ground (arith, only_here m.loaddr (m.hiaddr + 1) addr m.ranges j q v.chain f)))
      | inr miss ↦ rw miss (
          uncovered refl refl v (λ j q f.
            ground (arith, only_here m.loaddr (m.hiaddr + 1) addr m.ranges j q v.chain f)))
    ]

at_search-DeallocOutcome :
    (m : Rangemap) (addr eaddr size : ℕ) (mem : Bool)
    → IsValid m
    → addr ≤ eaddr
    → m.loaddr ≤ addr
    → eaddr ≤ m.hiaddr
    → size < word
    → size % word ≡ (eaddr - addr + 1) % word
    → DeallocOutcome m addr eaddr mem (dealloc_search m (search_at m addr) addr eaddr size mem)
unfolding dealloc_search
at_search-DeallocOutcome m addr eaddr size mem v order low high fits span =
    let i = position addr m.ranges in
    let r = get_elem? m.ranges i in
    let h = hint_of (hit addr i r) i in
    let m' : Rangemap = record m { hint = h } in
    let v' : IsValid m' =
      hint-IsValid m h v (hit-le addr i r (length m.ranges) (position-le addr m.ranges)) in
    from_hint m h (search-DeallocOutcome m' addr eaddr size mem r v' order low high fits span refl)

-- Within the bounds of a valid map, a deallocation does one of four things. It succeeds: then one
-- plain range held all the addresses, the map stays valid, exactly these addresses become free and
-- the others keep their data. Or no range alone holds them all, and the result is EINVAL; or the
-- range that does has data, and it is EBUSY; or the range that does is plain and reaches past them
-- on both sides, there is no memory to split it, and it is ENOMEM.
-- In these three cases the ranges stay as they are.
pub dealloc-DeallocOutcome :
    (m : Rangemap) (addr size : ℕ) (mem : Bool)
    → IsValid m
    → addr < word
    → size < word
    → is_bad m addr (last_addr addr size) ≡ false
    → DeallocOutcome m addr (last_addr addr size) mem (dealloc m addr size mem)
unfolding dealloc
dealloc-DeallocOutcome m addr size mem v a s good =
    let eaddr = last_addr addr size in
    let order : addr ≤ eaddr = ground arith in
    rw (good, dealloc, lookup_at m addr v)
      (at_search-DeallocOutcome m addr eaddr size mem v order (ground arith) (ground arith) s
        (size_of_span addr size a s order))
