-- ===== src/Rangemap/Search.antt =====
-- `ndz_rangemap_lookup` of src/imagezip/libndz/rangemap.c, beside a search of the whole list.
use frisbee.Base.{ℕ, zero, suc, ◌+◌, ◌-◌, ◌≤◌, ◌≡◌, true, false, List, [], ◌∷◌}
use frisbee.Base.{arith, refl, sym, subst, ◌∙◌, inl, inr, ◌⊎◌, Bool-cases}
use frisbee.Base.{if◌then◌else◌, leb, ltb, get_elem?, drop, Option, some, none}
use frisbee.Rangemap.Chain.{Chain}
use frisbee.Rangemap.{
  Range, Rangemap, Found, before, lookup_loop, lookup_start, lookup_from, lookup,
}

-- How many ranges, from the first on, end before `addr`.
unfoldable pub position : ℕ → List Range → ℕ
position addr [] = 0
position addr (r ∷ rs) = if ltb r.end addr then suc (position addr rs) else 0

-- The position `i`, if the range there holds `addr`.
abbrev pub hit : ℕ → ℕ → Option Range → Option ℕ
hit addr i none = none
hit addr i (some r) = if leb r.start addr then some i else none

-- The hint after a search that stops at link `i`.
abbrev pub hint_of : Option ℕ → ℕ → ℕ
hint_of none i = i - 1
hint_of (some k) i = k

-- The result of a search of the ranges from link `k` on, in the words of `position`.
abbrev pub found_from : ℕ → ℕ → List Range → Found
found_from addr k rs =
    let i = position addr rs in
    let h = hit addr (k + i) (get_elem? rs i) in
    record { range = h; prev = before (k + i); at = hint_of h (k + i) }

found_at : ℕ → ℕ → Option Range → Found
found_at addr i r = let h = hit addr i r in record { range = h; prev = before i; at = hint_of h i }

found_stop :
    (addr k : ℕ) (r : Range) (rs : List Range)
    → leb addr r.end ≡ true
    → found_from addr k (r ∷ rs) ≡ found_at addr k (some r)
unfolding position found_at
found_stop addr k r rs e =
    let pos : ltb r.end addr ≡ false = ground arith in
    let here : k + 0 ≡ k = omega arith in rw (pos, position, here)

found_go :
    (addr k : ℕ) (r : Range) (rs : List Range)
    → leb addr r.end ≡ false
    → found_from addr k (r ∷ rs) ≡ found_from addr (k + 1) rs
unfolding position
found_go addr k r rs e =
    let pos : ltb r.end addr ≡ true = ground arith in
    let next : k + suc (position addr rs) ≡ k + 1 + position addr rs = omega arith in
    rw (pos, position, next)

old_hint : (k : ℕ) (old : Option ℕ) → old ≡ before k → elim old [ some o ↦ o | none ↦ k ] ≡ k - 1
old_hint zero old e = rw e (omega arith)
old_hint (suc k) old e = rw e (omega arith)

loop_stop :
    (addr k : ℕ) (old : Option ℕ) (r : Range) (rs : List Range)
    → (old ≡ before k) ⊎ (r.start ≤ addr)
    → leb addr r.end ≡ true
    → lookup_loop addr k old (r ∷ rs) ≡ found_from addr k (r ∷ rs)
unfolding lookup_loop found_at
loop_stop addr k old r rs h stop =
    rw (found_stop addr k r rs stop, stop, lookup_loop) (ground (arith, old_hint k old))

before-add-one : (k : ℕ) → before (k + 1) ≡ some k
before-add-one k = let e : k + 1 ≡ suc k = omega arith in rw e

lookup_loop-found_from :
    (addr k : ℕ) (old : Option ℕ) (r : Range) (rs : List Range)
    → (old ≡ before k) ⊎ (r.start ≤ addr)
    → lookup_loop addr k old (r ∷ rs) ≡ found_from addr k (r ∷ rs)
unfolding lookup_loop position
lookup_loop-found_from addr k old r [] h = elim (Bool-cases (leb addr r.end)) [
  | inl stop ↦ loop_stop addr k old r [] h stop
  | inr go ↦
      let z : k + 1 + 0 ≡ k + 1 = omega arith in
      let p : k + 1 - 1 ≡ k = omega arith in
      rw (found_go addr k r [] go, go, lookup_loop, z, before-add-one k, p)
]
lookup_loop-found_from addr k old r (r' ∷ rs) h = elim (Bool-cases (leb addr r.end)) [
  | inl stop ↦ loop_stop addr k old r (r' ∷ rs) h stop
  | inr go ↦
      rw (found_go addr k r (r' ∷ rs) go, go, lookup_loop)
        (lookup_loop-found_from addr (k + 1) (some k) r' rs (inl (sym (before-add-one k))))
]

lookup_start-found_from : (addr : ℕ) (rs : List Range) → lookup_start addr rs ≡ found_from addr 0 rs
unfolding lookup_start position
lookup_start-found_from addr [] = refl
lookup_start-found_from addr (r ∷ rs) = lookup_loop-found_from addr 0 none r rs (inl refl)

-- The ranges before one that starts at or before `addr` end before it.
position-drop :
    (addr k lo hi : ℕ) (rs : List Range) (r : Range) (rest : List Range)
    → Chain lo hi rs
    → drop k rs ≡ r ∷ rest
    → r.start ≤ addr
    → (position addr rs ≡ k + position addr (r ∷ rest))
      × (lo ≤ r.start)
      × (get_elem? rs (position addr rs) ≡ get_elem? (r ∷ rest) (position addr (r ∷ rest)))
unfolding position
position-drop addr zero lo hi rs r rest c e s =
    let c' : Chain lo hi (r ∷ rest) = subst (λ l. Chain lo hi l) e c in
    rw e (omega arith, c'.0, refl)
position-drop addr (suc k) lo hi [] r rest c e s = absurd (ground arith)
position-drop addr (suc k) lo hi (x ∷ rs) r rest c e s =
    let ih = position-drop addr k (x.end + 1) hi rs r rest c.2 e s in
    let past : ltb x.end addr ≡ true = ground (arith, ih.1) in
    let count : position addr (x ∷ rs) ≡ suc (position addr rs) = rw past in
    rw count (omega (arith, ih.0), omega (arith, ih.1), ih.2)

-- From a hint at a range that starts at or before `addr`, the loop finds what it finds from the
-- first range.
lookup_from-found_from :
    (addr k lo hi : ℕ) (rs rest : List Range)
    → Chain lo hi rs
    → drop k rs ≡ rest
    → lookup_from addr rs k rest ≡ found_from addr 0 rs
unfolding lookup_from
lookup_from-found_from addr k lo hi rs [] c e = lookup_start-found_from addr rs
lookup_from-found_from addr k lo hi rs (r ∷ rest) c e = elim (Bool-cases (ltb addr r.start)) [
  | inl after ↦ rw (after, lookup_from) (lookup_start-found_from addr rs)
  | inr by ↦
      let d = position-drop addr k lo hi rs r rest c e (ground arith) in
      let i : k + position addr (r ∷ rest) ≡ 0 + position addr rs = omega (arith, d.0) in
      rw (by, lookup_from)
        (lookup_loop-found_from addr k none r rest (inr (ground arith)) ∙ rw (← d.2, i))
]

-- On a well-formed list, `ndz_rangemap_lookup` returns what the search of the whole list from its
-- first range returns, whatever link the hint is at: the range that holds the address, the range
-- before it, and the hint that follows.
pub lookup_lem :
    (map : Rangemap) (addr : ℕ)
    → Chain map.loaddr (map.hiaddr + 1) map.ranges
    → lookup map addr ≡ found_from addr 0 map.ranges
unfolding lookup
lookup_lem map addr c =
    lookup_from-found_from addr map.hint map.loaddr (map.hiaddr + 1) map.ranges
      (drop map.hint map.ranges) c refl
