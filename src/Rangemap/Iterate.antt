-- ===== src/Rangemap/Iterate.antt =====
-- `ndz_rangemap_iterate` of src/imagezip/libndz/rangemap.c. The function that it calls gets the map, the
-- position of the current range and a state of its own, and may change the map. A loop that has no
-- fuel left gives `none`.
use frisbee.Base.{
  ℕ, zero, suc, ◌+◌, ◌≤◌, ◌<◌, ◌≡◌, true, false, List, [], ◌∷◌, Option, some, none, ℤ, pos, eq_int,
}
use frisbee.Base.{
  arith, refl, sym, ap, subst, if◌then◌else◌, ◌==◌, leb, ltb, get_elem?, Bool-cases, inl, inr,
  Option-cases,
}
use frisbee.Rangemap.{Range, Rangemap, Found, before, lookup}
use frisbee.Rangemap.Chain.{Chain, Chain-le}
use frisbee.Rangemap.Search.{position, hit, lookup_lem}

-- The link after the range of a search, or after the one before it, or the first.
abbrev pub link_after : Option ℕ → Option ℕ → ℕ
link_after (some j) prev = suc j
link_after none (some p) = suc p
link_after none none = 0

module _ {S : Type 0} (ifunc : Rangemap → ℕ → S → ℤ × Rangemap × S) where
  -- Where the loop goes on: behind the current range, found again if the map has changed.
  abbrev pub next_link : Rangemap → ℕ → ℕ → Rangemap → ℕ
  next_link map k addr map' =
      if map.gen == map'.gen
      then suc k
      else link_after (lookup map' addr).range (lookup map' addr).prev

  unfoldable pub iterate_loop : ℕ → ℕ → Rangemap → S → Option (ℤ × Rangemap × S)
  iterate_loop zero k map s = none
  iterate_loop (suc fuel) k map s = elim (get_elem? map.ranges k) [
    | none ↦ some (pos 0, map, s)
    | some r ↦
        let t = ifunc map k s in
        let n = next_link map k r.end t.1 in
        elim (eq_int t.0 (pos 0)) [
          | false ↦ some t
          | true ↦ iterate_loop fuel n (record t.1 { hint = n }) t.2
        ]
  ]

  unfoldable pub iterate : ℕ → Rangemap → S → Option (ℤ × Rangemap × S)
  iterate fuel map s = iterate_loop fuel 0 (record map { hint = 0 }) s

-- The ranges are in order and the hint is free.
abbrev pub IsOrdered : Rangemap → Type 0
IsOrdered map = Chain map.loaddr (map.hiaddr + 1) map.ranges

position-end :
    (addr : ℕ) (rs : List Range) (r : Range)
    → get_elem? rs (position addr rs) ≡ some r
    → addr ≤ r.end
unfolding position
position-end addr [] r e = absurd (ground arith)
position-end addr (x ∷ rs) r e = elim (Bool-cases (ltb x.end addr)) [
  | inl over ↦ position-end addr rs r (ground (arith, over))
  | inr here ↦ let same : x ≡ r = ground (arith, here) in rw⁻¹ same (ground arith)
]

chain-at :
    (lo hi k : ℕ) (rs : List Range) (r : Range)
    → Chain lo hi rs
    → get_elem? rs k ≡ some r
    → (lo ≤ r.start) × (r.start ≤ r.end) × (r.end < hi)
chain-at lo hi k [] r c e = absurd (ground arith)
chain-at lo hi zero (x ∷ rs) r c e =
    let same : x ≡ r = ground arith in
    rw⁻¹ same (c.0, c.1, omega (arith, Chain-le (x.end + 1) hi rs c.2))
chain-at lo hi (suc k) (x ∷ rs) r c e =
    let h = chain-at (x.end + 1) hi k rs r c.2 e in (omega (arith, h.0, c.0, c.1), h.1, h.2)

chain-next :
    (lo hi k : ℕ) (rs : List Range) (r r' : Range)
    → Chain lo hi rs
    → get_elem? rs k ≡ some r
    → get_elem? rs (suc k) ≡ some r'
    → r.end < r'.end
chain-next lo hi k [] r r' c e e' = absurd (ground arith)
chain-next lo hi zero (x ∷ rs) r r' c e e' =
    let same : x ≡ r = ground arith in
    let h = chain-at (x.end + 1) hi 0 rs r' c.2 e' in rw⁻¹ same (omega (arith, h.0, h.1))
chain-next lo hi (suc k) (x ∷ rs) r r' c e e' = chain-next (x.end + 1) hi k rs r r' c.2 e e'

link_after-before : (p : ℕ) → link_after none (before p) ≡ p
link_after-before zero = refl
link_after-before (suc p) = refl

-- The range that the loop goes on with after a search ends behind the address.
found_later :
    (lo hi addr : ℕ) (rs : List Range) (r : Range) (q : Option Range)
    → Chain lo hi rs
    → get_elem? rs (position addr rs) ≡ q
    → get_elem? rs (link_after (hit addr (position addr rs) q) (before (position addr rs))) ≡ some r
    → addr < r.end
found_later lo hi addr rs r none c e l =
    absurd (ground (arith, link_after-before (position addr rs), l, e))
found_later lo hi addr rs r (some q) c e l = elim (Bool-cases (leb q.start addr)) [
  | inl holds ↦
      let after : get_elem? rs (suc (position addr rs)) ≡ some r = ground (arith, l, holds) in
      omega (arith, position-end addr rs q e, chain-next lo hi (position addr rs) rs q r c e after)
  | inr free ↦
      let back = link_after-before (position addr rs) in
      let here : get_elem? rs (position addr rs) ≡ some r = ground (arith, l, free, back) in
      let same : q ≡ r = ground (arith, here, e) in
      let order = chain-at lo hi (position addr rs) rs r c here in
      let start : q.start ≡ r.start = ap (λ (x : Range). x.start) same in
      ground (arith, free, order.1, start)
]

zero_plus : (n : ℕ) → 0 + n ≡ n
zero_plus n = omega arith

search_later :
    (map : Rangemap) (addr : ℕ) (r : Range)
    → IsOrdered map
    → get_elem? map.ranges (link_after (lookup map addr).range (lookup map addr).prev) ≡ some r
    → addr < r.end
search_later map addr r c e =
    found_later map.loaddr (map.hiaddr + 1) addr map.ranges r
      (get_elem? map.ranges (position addr map.ranges)) c refl
      (subst
        (λ n.
          get_elem? map.ranges
            (link_after (hit addr n (get_elem? map.ranges (position addr map.ranges))) (before n))
          ≡ some r)
        (zero_plus (position addr map.ranges))
        (subst (λ (f : Found). get_elem? map.ranges (link_after f.range f.prev) ≡ some r)
          (lookup_lem map addr c) e))

-- A function that keeps the ranges in order and the bound, and counts its changes of the ranges in `gen`.
pub record IsVisitor {S : Type 0} (ifunc : Rangemap → ℕ → S → ℤ × Rangemap × S) : Type 0 where
  pub ordered : (map : Rangemap) (k : ℕ) (s : S) → IsOrdered map → IsOrdered (ifunc map k s).1
  pub bound : (map : Rangemap) (k : ℕ) (s : S) → (ifunc map k s).1.hiaddr ≡ map.hiaddr
  pub counted :
      (map : Rangemap) (k : ℕ) (s : S)
      → map.gen ≡ (ifunc map k s).1.gen
      → (ifunc map k s).1.ranges ≡ map.ranges

module _ {S : Type 0} (ifunc : Rangemap → ℕ → S → ℤ × Rangemap × S) (good : IsVisitor ifunc) where
  next_later :
      (map : Rangemap) (k : ℕ) (s : S) (r r' : Range)
      → IsOrdered map
      → get_elem? map.ranges k ≡ some r
      → get_elem? (ifunc map k s).1.ranges (next_link ifunc map k r.end (ifunc map k s).1) ≡ some r'
      → r.end < r'.end
  next_later map k s r r' c e l = elim (Bool-cases (map.gen == (ifunc map k s).1.gen)) [
    | inl same ↦
        let kept = good.counted map k s (ground (arith, same)) in
        let n : next_link ifunc map k r.end (ifunc map k s).1 ≡ suc k = rw same refl in
        let after : get_elem? map.ranges (suc k) ≡ some r' =
          subst (λ l. get_elem? l (suc k) ≡ some r') kept
            (subst (λ j. get_elem? (ifunc map k s).1.ranges j ≡ some r') n l) in
        chain-next map.loaddr (map.hiaddr + 1) k map.ranges r r' c e after
    | inr changed ↦
        let found = lookup (ifunc map k s).1 r.end in
        let n : next_link ifunc map k r.end (ifunc map k s).1 ≡ link_after found.range found.prev =
          rw changed refl in
        search_later (ifunc map k s).1 r.end r' (good.ordered map k s c)
          (subst (λ j. get_elem? (ifunc map k s).1.ranges j ≡ some r') n l)
  ]

  loop_over :
      (fuel k : ℕ) (map : Rangemap) (s : S)
      → get_elem? map.ranges k ≡ none
      → iterate_loop ifunc (suc fuel) k map s ≡ some (pos 0, map, s)
  unfolding iterate_loop
  loop_over fuel k map s e = simp (iterate_loop, e) refl

  loop_stops :
      (fuel k : ℕ) (map : Rangemap) (s : S) (r : Range)
      → get_elem? map.ranges k ≡ some r
      → eq_int (ifunc map k s).0 (pos 0) ≡ false
      → iterate_loop ifunc (suc fuel) k map s ≡ some (ifunc map k s)
  unfolding iterate_loop
  loop_stops fuel k map s r e d = simp (iterate_loop, e, d) refl

  loop_goes_on :
      (fuel k : ℕ) (map : Rangemap) (s : S) (r : Range)
      → get_elem? map.ranges k ≡ some r
      → eq_int (ifunc map k s).0 (pos 0) ≡ true
      → iterate_loop ifunc (suc fuel) k map s
        ≡ iterate_loop ifunc fuel
            (next_link ifunc map k r.end (ifunc map k s).1)
            (record (ifunc map k s).1 { hint = next_link ifunc map k r.end (ifunc map k s).1 })
            (ifunc map k s).2
  unfolding iterate_loop
  loop_goes_on fuel k map s r e d = simp (iterate_loop, e, d) refl

  abbrev Ends : Option (ℤ × Rangemap × S) → Type 0
  Ends o = (t : ℤ × Rangemap × S) × (o ≡ some t)

  loop-Ends :
      (fuel k : ℕ) (map : Rangemap) (s : S)
      → IsOrdered map
      → 0 < fuel
      → ((r : Range) → get_elem? map.ranges k ≡ some r → map.hiaddr + 1 < fuel + r.end)
      → Ends (iterate_loop ifunc fuel k map s)
  loop-Ends zero k map s c p h = absurd (omega (arith, p))
  loop-Ends (suc fuel) k map s c p h = elim (Option-cases (get_elem? map.ranges k)) [
    | inl e ↦ ((pos 0, map, s), loop_over fuel k map s e)
    | inr (r, e) ↦ elim (Bool-cases (eq_int (ifunc map k s).0 (pos 0))) [
      | inr stop ↦ (ifunc map k s, loop_stops fuel k map s r e stop)
      | inl on ↦
          let n = next_link ifunc map k r.end (ifunc map k s).1 in
          let small = (chain-at map.loaddr (map.hiaddr + 1) k map.ranges r c e).2 in
          subst Ends (sym (loop_goes_on fuel k map s r e on)) (
            loop-Ends fuel n (record (ifunc map k s).1 { hint = n }) (ifunc map k s).2
              (good.ordered map k s c) (omega (arith, h r e, small))
              (λ r' l. omega (arith, h r e, good.bound map k s, next_later map k s r r' c e l)))
    ]
  ]

  -- Called with a function that keeps the ranges in order and the bound of the map, and changes
  -- `gen` with the ranges, the iteration ends, even where that function adds and removes ranges: it
  -- does so within `hiaddr + 2` rounds of its loop.
  pub iterate_lem :
      (map : Rangemap) (s : S)
      → IsOrdered map
      → (t : ℤ × Rangemap × S) × (iterate ifunc (map.hiaddr + 2) map s ≡ some t)
  unfolding iterate
  iterate_lem map s c =
      loop-Ends (map.hiaddr + 2) 0 (record map { hint = 0 }) s c (omega arith) (λ r e. omega arith)
