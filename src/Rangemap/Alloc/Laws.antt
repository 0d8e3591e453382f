-- ===== src/Rangemap/Alloc/Laws.antt =====
-- `ndz_rangemap_alloc` as its callers see it.
use frisbee.Base.{ℕ, ◌+◌, ◌-◌, ◌%◌, ◌≤◌, ◌<◌, ◌≡◌, Bool, false}
use frisbee.Base.{arith, refl, ◌∙◌, ap, inl, inr, Bool-cases}
use frisbee.Base.{leb, get_elem?, length, Option, some, none}
use frisbee.Rangemap.{Range, Rangemap, word, Status, einval, Found, before, lookup}
use frisbee.Rangemap.Search.{position, hit, hint_of, lookup_lem}
use frisbee.Rangemap.Place.{position-le, position-next}
use frisbee.Rangemap.Update.{alloc, alloc_found, alloc_at, is_bad, last_addr}
use frisbee.Rangemap.Alloc.{IsValid}
use frisbee.Rangemap.Alloc.Outcome.{
  AllocOutcome, done, taken, starved, alloc_at-AllocOutcome, holds_at,
}

pub hit-le : (addr i : ℕ) (r : Option Range) (n : ℕ) → i ≤ n → hint_of (hit addr i r) i ≤ n
hit-le addr i none n h = omega arith
hit-le addr i (some r) n h = ground arith

-- The hint that a search leaves is a link of the list.
pub lookup-hint : (m : Rangemap) (addr : ℕ) → IsValid m → (lookup m addr).at ≤ length m.ranges
lookup-hint m addr v = rw (lookup_lem m addr v.chain) (
    hit-le addr (0 + position addr m.ranges) (get_elem? m.ranges (position addr m.ranges))
      (length m.ranges) (omega (arith, position-le addr m.ranges)))

pub hint-IsValid :
    (m : Rangemap) (h : ℕ) → IsValid m → h ≤ length m.ranges → IsValid (record m { hint = h })
hint-IsValid m h v l = record {
  chain = v.chain;
  small = v.small;
  hinted = l;
  counted = v.counted;
  measured = v.measured;
}

pub size_of_span :
    (addr size : ℕ)
    → addr < word
    → size < word
    → addr ≤ last_addr addr size
    → size % word ≡ (last_addr addr size - addr + 1) % word
size_of_span addr size a s h = omega arith

-- The call after the search, for what the search found at the link where it stopped.
searched :
    (m : Rangemap) (addr eaddr size c : ℕ) (mem : Bool) (r : Option Range)
    → IsValid m
    → addr ≤ eaddr
    → m.loaddr ≤ addr
    → eaddr ≤ m.hiaddr
    → size % word ≡ (eaddr - addr + 1) % word
    → get_elem? m.ranges (position addr m.ranges) ≡ r
    → AllocOutcome m addr eaddr size c mem (elim (hit addr (position addr m.ranges) r) [
      | some _ ↦ (einval, m)
      | none ↦ alloc_at m (before (position addr m.ranges)) addr eaddr size c mem
    ])
searched m addr eaddr size c mem none v order low high e f =
    alloc_at-AllocOutcome m v addr eaddr c order low high (position addr m.ranges) size mem refl
      (λ n g. absurd (ground arith)) e
searched m addr eaddr size c mem (some r) v order low high e f =
    elim (Bool-cases (leb r.start addr)) [
      | inl here ↦ rw here (
          taken refl refl v addr (ground arith) (
            holds_at m v addr eaddr c order low high (position addr m.ranges) addr r f
              (ground arith) (position-next addr m.ranges r f)))
      | inr miss ↦ rw miss (
          alloc_at-AllocOutcome m v addr eaddr c order low high (position addr m.ranges) size mem
            refl (λ n g. ground arith) e)
    ]

-- What the search returns, in the words of `position`.
abbrev pub search_at : Rangemap → ℕ → Found
search_at m addr =
    let i = position addr m.ranges in
    let h = hit addr i (get_elem? m.ranges i) in
    record { range = h; prev = before i; at = hint_of h i }

pub lookup_at : (m : Rangemap) (addr : ℕ) → IsValid m → lookup m addr ≡ search_at m addr
lookup_at m addr v =
    let i = position addr m.ranges in
    let e : 0 + i ≡ i = omega arith in
    lookup_lem m addr v.chain
    ∙ ap
        (λ k.
          let f : Found = record {
            range = hit addr k (get_elem? m.ranges i);
            prev = before k;
            at = hint_of (hit addr k (get_elem? m.ranges i)) k;
          } in
          f)
        e

-- Moving the hint first makes no difference to an outcome.
from_hint :
    (m : Rangemap) (h : ℕ) {addr eaddr size c : ℕ} {mem : Bool} {r : Status × Rangemap}
    → AllocOutcome (record m { hint = h }) addr eaddr size c mem r
    → AllocOutcome m addr eaddr size c mem r
from_hint m h (done e x) = done e (record {
  free = x.free;
  valid = x.valid;
  covers = x.covers;
  contents = x.contents;
  bounds = x.bounds;
  changed = x.changed;
})
from_hint m h (taken e l v a w t) = taken e l v a w t
from_hint m h (starved e l v n f) = starved e l v n f

-- The call after the search, with what the search returns in the words of `position`.
found-AllocOutcome :
    (m : Rangemap) (addr eaddr size c : ℕ) (mem : Bool)
    → IsValid m
    → addr ≤ eaddr
    → m.loaddr ≤ addr
    → eaddr ≤ m.hiaddr
    → size % word ≡ (eaddr - addr + 1) % word
    → AllocOutcome m addr eaddr size c mem (alloc_found m (search_at m addr) addr eaddr size c mem)
unfolding alloc_found
found-AllocOutcome m addr eaddr size c mem v order low high e =
    let i = position addr m.ranges in
    let r = get_elem? m.ranges i in
    let m' : Rangemap = record m { hint = hint_of (hit addr i r) i } in
    let v' : IsValid m' =
      hint-IsValid m (hint_of (hit addr i r) i) v
        (hit-le addr i r (length m.ranges) (position-le addr m.ranges)) in
    from_hint m (hint_of (hit addr i r) i)
      (searched m' addr eaddr size c mem r v' order low high e refl)

-- Within the bounds of a valid map, an allocation does one of three things. It succeeds: then no
-- address of the range was allocated, the map stays valid and gains exactly the range, and, unless
-- the range joins a plain range to one that has data, every address keeps its data. Or an address
-- of the range is allocated already and the result is EINVAL; or there is no memory, and the result
-- is ENOMEM. In both cases the ranges stay as they are.
pub alloc-AllocOutcome :
    (m : Rangemap) (addr size c : ℕ) (mem : Bool)
    → IsValid m
    → addr < word
    → size < word
    → is_bad m addr (last_addr addr size) ≡ false
    → AllocOutcome m addr (last_addr addr size) size c mem (alloc m addr size c mem)
unfolding alloc
alloc-AllocOutcome m addr size c mem v a s good =
    let eaddr = last_addr addr size in
    let order : addr ≤ eaddr = ground arith in
    rw (good, alloc, lookup_at m addr v)
      (found-AllocOutcome m addr eaddr size c mem v order (ground arith) (ground arith)
        (size_of_span addr size a s order))
