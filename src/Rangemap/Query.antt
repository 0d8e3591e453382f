-- ===== src/Rangemap/Query.antt =====
-- `ndz_rangemap_first`, `ndz_rangemap_last`, `ndz_rangemap_entries`, `ndz_rangemap_sectors` and
-- `ndz_rangemap_overlap` of src/imagezip/libndz/rangemap.c.
use frisbee.Base.{ℕ, zero, suc, ◌+◌, ◌%◌, ◌≤◌, ◌<◌, ◌≡◌, true, false, List, [], ◌∷◌, refl, sym}
use frisbee.Base.{
  arith, if◌then◌else◌, leb, ltb, get_elem?, drop, length, Option, some, none, ap, ◌∙◌, word,
  Bool-cases, inl, inr,
}
use frisbee.Rangemap.{Range, Rangemap, Found, lookup, before}
use frisbee.Rangemap.Update.{last_addr, link_after}
use frisbee.Rangemap.Chain.{Chain, holder, holds, within, total, is_some, holder_outside}
use frisbee.Rangemap.Search.{position, hit, hint_of}
use frisbee.Rangemap.Place.{position-next, position-before}
use frisbee.Rangemap.Alloc.{IsValid}
use frisbee.Rangemap.Alloc.Laws.{lookup_at}

unfoldable pub first : Rangemap → Option ℕ
first map = elim map.ranges [ [] ↦ none | _ ∷ _ ↦ some 0 ]

-- The loop of `ndz_rangemap_last` at range `k`, with the ranges after it.
unfoldable pub last_loop : ℕ → List Range → ℕ
last_loop k [] = k
last_loop k (r ∷ rest) = last_loop (k + 1) rest

unfoldable pub last_from : List Range → ℕ → List Range → Option ℕ
last_from (r ∷ rest) hint all = some (last_loop hint rest)
last_from [] hint [] = none
last_from [] hint (r ∷ rest) = some (last_loop 0 rest)

unfoldable pub last : Rangemap → Option ℕ
last map = last_from (drop map.hint map.ranges) map.hint map.ranges

unfoldable pub entries_of : Rangemap → ℕ
entries_of map = map.entries

unfoldable pub sectors_of : Rangemap → ℕ
sectors_of map = map.sectors

abbrev pub if_overlaps : ℕ → ℕ → Option Range → Option ℕ
if_overlaps eaddr i none = none
if_overlaps eaddr i (some r) = if ltb eaddr r.start then none else some i

-- The range that overlaps, and the map with the hint of the search.
unfoldable pub overlap_found : Rangemap → ℕ → Found → Option ℕ × Rangemap
overlap_found map eaddr f = elim f.range [
  | some i ↦ (some i, record map { hint = f.at })
  | none ↦
      let i = link_after f.prev in
      (if_overlaps eaddr i (get_elem? map.ranges i), record map { hint = f.at })
]

unfoldable pub overlap : Rangemap → ℕ → ℕ → Option ℕ × Rangemap
overlap map addr size = overlap_found map (last_addr addr size) (lookup map addr)

length-drop_cons :
    (k : ℕ) (rs : List Range) (r : Range) (rest : List Range)
    → drop k rs ≡ r ∷ rest
    → k + length rest + 1 ≡ length rs
length-drop_cons zero [] r rest e = absurd (ground arith)
length-drop_cons zero (x ∷ rs) r rest e = ground (arith, ap length e)
length-drop_cons (suc k) [] r rest e = absurd (ground arith)
length-drop_cons (suc k) (x ∷ rs) r rest e = omega (arith, length-drop_cons k rs r rest e)

last_loop-length : (k : ℕ) (rs : List Range) → last_loop k rs ≡ k + length rs
unfolding last_loop
last_loop-length k [] = omega arith
last_loop-length k (r ∷ rest) = omega (arith, last_loop-length (k + 1) rest)

before_suc : (n k : ℕ) → k + 1 ≡ n → before n ≡ some k
before_suc zero k e = absurd (omega arith)
before_suc (suc n) k e = ap some (omega arith)

last_from-before :
    (rest : List Range) (hint : ℕ) (all : List Range)
    → drop hint all ≡ rest
    → last_from rest hint all ≡ before (length all)
unfolding last_from
last_from-before [] hint [] e = refl
last_from-before [] hint (r ∷ rest) e =
    ap some (last_loop-length 0 rest ∙ omega arith)
    ∙ sym (before_suc (suc (length rest)) (length rest) (omega arith))
last_from-before (r ∷ rest) hint all e = sym (
    before_suc (length all) (last_loop hint rest)
      (omega (arith, last_loop-length hint rest, length-drop_cons hint all r rest e)))

-- On a valid map, `ndz_rangemap_last` is the last position of the list, wherever the hint is, the
-- number of entries is the length of the list, and the number of sectors is that of the addresses
-- held, both modulo 2^64.
pub queries_lem :
    (map : Rangemap)
    → IsValid map
    → (last map ≡ before (length map.ranges))
      × (entries_of map ≡ length map.ranges % word)
      × (sectors_of map ≡ total map.ranges % word)
unfolding last entries_of sectors_of
queries_lem map v =
    (last_from-before (drop map.hint map.ranges) map.hint map.ranges refl, v.counted, v.measured)

-- What the search for an overlap with the addresses from `addr` to `eaddr` comes to: no range holds
-- one of them; or the range found does, and the one before it ends before them.
pub data OverlapOutcome (rs : List Range) (addr eaddr : ℕ) (o : Option ℕ) : Type 0 where
  apart :
      o ≡ none
      → ((a : ℕ) → within addr eaddr a ≡ true → holds rs a ≡ false)
      → OverlapOutcome rs addr eaddr o
  meets :
      (i : ℕ) (r : Range)
      → o ≡ some i
      → get_elem? rs i ≡ some r
      → r.start ≤ eaddr
      → addr ≤ r.end
      → ((p : ℕ) (q : Range) → suc p ≡ i → get_elem? rs p ≡ some q → q.end < addr)
      → OverlapOutcome rs addr eaddr o

-- No range holds an address from `addr` to `eaddr`, if the first that ends at `addr` or later
-- starts after `eaddr`.
none-within :
    (addr eaddr lo hi : ℕ) (rs : List Range) (a : ℕ)
    → Chain lo hi rs
    → ((r : Range) → get_elem? rs (position addr rs) ≡ some r → eaddr < r.start)
    → within addr eaddr a ≡ true
    → holder rs a ≡ none
unfolding holder position
none-within addr eaddr lo hi [] a c h w = refl
none-within addr eaddr lo hi (r ∷ rs) a c h w = elim (Bool-cases (ltb r.end addr)) [
  | inl past ↦
      let count : position addr (r ∷ rs) ≡ suc (position addr rs) = rw past in
      let ih = none-within addr eaddr (r.end + 1) hi rs a c.2 (λ n e. h n (rw count e)) w in
      ground (arith, ih)
  | inr here ↦
      let count : position addr (r ∷ rs) ≡ 0 = rw here in
      let after : eaddr < r.start = h r (rw count refl) in
      ground (arith, after, c.1, holder_outside (r.end + 1) hi rs a c.2)
]

search-OverlapOutcome :
    (m : Rangemap) (addr eaddr : ℕ) (o : Option Range)
    → IsValid m
    → addr ≤ eaddr
    → get_elem? m.ranges (position addr m.ranges) ≡ o
    → let i = position addr m.ranges in
      OverlapOutcome m.ranges addr eaddr
        (elim (hit addr i o) [ some k ↦ some k | none ↦ if_overlaps eaddr i o ])
search-OverlapOutcome m addr eaddr none v order e = apart refl (λ a w. ap is_some (
    none-within addr eaddr m.loaddr (m.hiaddr + 1) m.ranges a v.chain (λ r h. absurd (ground arith))
      w))
search-OverlapOutcome m addr eaddr (some r) v order e =
    let reach : addr ≤ r.end = position-next addr m.ranges r e in
    elim (Bool-cases (leb r.start addr)) [
      | inl inside ↦ rw inside (
          meets (position addr m.ranges) r refl e (ground arith) reach
            (λ p q s h. position-before addr p m.ranges q s h))
      | inr later ↦ elim (Bool-cases (ltb eaddr r.start)) [
        | inl clear ↦
            rw (later, clear)
              (apart refl (λ a w. ap is_some (
                none-within addr eaddr m.loaddr (m.hiaddr + 1) m.ranges a v.chain
                  (λ n h. let same : r ≡ n = ground arith in rw⁻¹ same (ground arith)) w)))
        | inr meet ↦
            rw (later, meet)
              (meets (position addr m.ranges) r refl e (ground arith) reach
                (λ p q s h. position-before addr p m.ranges q s h))
      ]
    ]

link_after-before : (i : ℕ) → link_after (before i) ≡ i
link_after-before zero = refl
link_after-before (suc i) = refl

overlap_found-elim :
    (m : Rangemap) (addr eaddr : ℕ) (o : Option Range)
    → get_elem? m.ranges (position addr m.ranges) ≡ o
    → (overlap_found m eaddr (record {
      range = hit addr (position addr m.ranges) o;
      prev = before (position addr m.ranges);
      at = hint_of (hit addr (position addr m.ranges) o) (position addr m.ranges);
    })).0
      ≡ (elim (hit addr (position addr m.ranges) o) [
        | some k ↦ some k
        | none ↦ if_overlaps eaddr (position addr m.ranges) o
      ])
unfolding overlap_found
overlap_found-elim m addr eaddr none e = rw (link_after-before (position addr m.ranges), e)
overlap_found-elim m addr eaddr (some r) e = elim (Bool-cases (leb r.start addr)) [
  | inl inside ↦ rw inside
  | inr later ↦ rw (later, link_after-before (position addr m.ranges), e)
]

-- On a valid map, `ndz_rangemap_overlap` of a range that does not wrap around returns no range just
-- where no address of the range is held; else it returns the first range that holds one.
pub overlap-OverlapOutcome :
    (m : Rangemap) (addr size : ℕ)
    → IsValid m
    → addr ≤ last_addr addr size
    → OverlapOutcome m.ranges addr (last_addr addr size) (overlap m addr size).0
unfolding overlap
overlap-OverlapOutcome m addr size v order =
    let o = get_elem? m.ranges (position addr m.ranges) in
    rw (lookup_at m addr v, overlap_found-elim m addr (last_addr addr size) o refl)
      (search-OverlapOutcome m addr (last_addr addr size) o v order refl)
