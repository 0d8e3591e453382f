-- ===== src/Rangemap/Alloc/Cases.antt =====
-- The outcomes of `ndz_rangemap_alloc` once the search has found the address free.
use frisbee.Base.{ℕ, zero, suc, ◌+◌, ◌-◌, ◌%◌, ◌≤◌, ◌<◌, ◌≡◌, true, false, List, [], ◌∷◌}
use frisbee.Base.{arith, refl, ◌⊎◌}
use frisbee.Base.{if◌then◌else◌, ◌==◌, get_elem?, set, take, drop, length, Option, some, none}
use frisbee.Rangemap.{Range, Rangemap, word, add64}
use frisbee.Rangemap.Chain.{Chain, Chain-le, Chain-IsAt}
use frisbee.Rangemap.Update.{extend_prev, extend_next, alloc_new}
use frisbee.Rangemap.Update.{abuts_next}
use frisbee.Rangemap.Alloc.{IsValid, Grown, new-Grown, prev-Grown, join-Grown, next-Grown}

-- Where the new addresses fill the gap between two ranges, both of these are plain or neither is.
abbrev pub SameKind : List Range → ℕ → ℕ → ℕ → Type 0
SameKind rs addr eaddr c =
    (p : ℕ) (r n : Range)
    → c ≡ 0
    → get_elem? rs p ≡ some r
    → get_elem? rs (suc p) ≡ some n
    → r.end + 1 ≡ addr
    → eaddr + 1 ≡ n.start
    → (r.content == 0) ≡ (n.content == 0)

-- The map after an allocation, before the counters of addresses and of changes are updated.
pub record Placed (m m' : Rangemap) (addr eaddr c : ℕ) : Type 0 where
  pub bounds :
      (m'.loaddr ≡ m.loaddr) × (m'.hiaddr ≡ m.hiaddr) × (m'.sectors ≡ m.sectors) × (m'.gen ≡ m.gen)
  pub hinted : m'.hint ≤ length m'.ranges
  pub counted : m'.entries ≡ length m'.ranges % word
  pub grown :
      Grown (SameKind m.ranges addr eaddr c) m.loaddr (m.hiaddr + 1) m.ranges m'.ranges addr eaddr c

pub get_elem?-lt : (i : ℕ) (rs : List Range) (r : Range) → get_elem? rs i ≡ some r → i < length rs
get_elem?-lt i [] r e = absurd (ground arith)
get_elem?-lt zero (x ∷ rs) r e = omega arith
get_elem?-lt (suc i) (x ∷ rs) r e = omega (arith, get_elem?-lt i rs r e)

Grown-under :
    {P Q : Type 0} {lo hi addr eaddr c : ℕ} {rs rs' : List Range}
    → (Q → P)
    → Grown P lo hi rs rs' addr eaddr c
    → Grown Q lo hi rs rs' addr eaddr c
Grown-under f g = record {
  chain = g.chain;
  covers = g.covers;
  contents = λ q a. g.contents (f q) a;
  size = g.size;
}

module _ (m : Rangemap) (v : IsValid m) (addr eaddr c : ℕ) (order : addr ≤ eaddr)
    (low : m.loaddr ≤ addr) (high : eaddr ≤ m.hiaddr) where
  -- The range at a link lies in the bounds, so its addresses are words.
  pub range_small :
      (i : ℕ) (r : Range) → get_elem? m.ranges i ≡ some r → (r.start ≤ r.end) × (r.end < word)
  range_small i r e =
      let at = Chain-IsAt m.loaddr (m.hiaddr + 1) i m.ranges r v.chain e in
      (at.good, omega (arith, Chain-le _ _ _ at.right, v.small))

  pub new-Placed :
      (i : ℕ)
      → i ≤ length m.ranges
      → Chain m.loaddr addr (take i m.ranges)
      → Chain (eaddr + 1) (m.hiaddr + 1) (drop i m.ranges)
      → Placed m (alloc_new m i addr eaddr c) addr eaddr c
  unfolding alloc_new
  new-Placed i inside left right =
      let (g, l) = new-Grown m.loaddr (m.hiaddr + 1) m.ranges addr eaddr c order i left right in
      record {
        bounds = (refl, refl, refl, refl);
        hinted = omega (arith, l);
        counted = ground (arith, l, v.counted);
        grown = Grown-under (λ q. tt) g;
      }

  pub next-Placed :
      (i : ℕ) (n : Range)
      → get_elem? m.ranges i ≡ some n
      → n.content ≡ c
      → eaddr < n.start
      → add64 eaddr 1 ≡ n.start
      → Chain m.loaddr addr (take i m.ranges)
      → Placed m (extend_next m i (some n) addr eaddr) addr eaddr c
  unfolding extend_next
  next-Placed i n e plain after abut left =
      let small = range_small i n e in
      let follows : eaddr + 1 ≡ n.start = omega (arith, small) in
      let (g, l) =
        next-Grown m.loaddr (m.hiaddr + 1) m.ranges addr eaddr c order i n e follows v.chain left in
      let test : (add64 eaddr 1 == n.start) ≡ true = ground arith in
      rw (test, extend_next)
        (record {
          bounds = (refl, refl, refl, refl);
          hinted = omega (arith, l, get_elem?-lt i m.ranges n e);
          counted = ground (arith, l, v.counted);
          grown = Grown-under (λ q. plain) g;
        })

  -- The new addresses fill the gap after the range before: the two neighbours are joined.
  pub join-Placed :
      (p : ℕ) (r n : Range)
      → get_elem? m.ranges p ≡ some r
      → get_elem? m.ranges (suc p) ≡ some n
      → c ≡ 0
      → (r.content ≡ 0) ⊎ (n.content ≡ 0)
      → r.end + 1 ≡ addr
      → eaddr < n.start
      → add64 eaddr 1 ≡ n.start
      → Placed m (extend_prev m (suc p) r (some n) eaddr) addr eaddr c
  unfolding extend_prev
  join-Placed p r n e f z plain abut after next =
      let small = range_small (suc p) n f in
      let follows : eaddr + 1 ≡ n.start = omega (arith, small) in
      let (g, l) =
        join-Grown m.loaddr (m.hiaddr + 1) m.ranges addr eaddr c order p r n e f abut follows
          v.chain in
      let test : (add64 eaddr 1 == n.start) ≡ true = ground arith in
      let inside = get_elem?-lt (suc p) m.ranges n f in
      let back : suc p - 1 ≡ p = omega arith in
      rw (test, extend_prev, back)
        (record {
          bounds = (refl, refl, refl, refl);
          hinted = ground (arith, l, inside);
          counted = ground (arith, l, v.counted);
          grown =
              Grown-under
                (λ same. let k = same p r n z e f abut follows in (ground arith, ground arith)) g;
        })

  -- The range before is extended, and does not reach the next one.
  pub prev-Placed :
      (p : ℕ) (r : Range) (next : Option Range)
      → get_elem? m.ranges p ≡ some r
      → get_elem? m.ranges (suc p) ≡ next
      → r.content ≡ c
      → r.end + 1 ≡ addr
      → abuts_next next eaddr ≡ false
      → Chain (eaddr + 1) (m.hiaddr + 1) (drop (suc p) m.ranges)
      → Placed m (extend_prev m (suc p) r next eaddr) addr eaddr c
  unfolding extend_prev
  prev-Placed p r next e f plain abut apart right =
      let (g, l) =
        prev-Grown m.loaddr (m.hiaddr + 1) m.ranges addr eaddr c order p r e abut v.chain right in
      let inside = get_elem?-lt p m.ranges r e in
      rw (plain_extension next apart) (record {
        bounds = (refl, refl, refl, refl);
        hinted = ground (arith, l, inside, v.hinted);
        counted = ground (arith, l, v.counted);
        grown = Grown-under (λ same. plain) g;
      })
    where
      plain_extension :
          (next : Option Range)
          → abuts_next next eaddr ≡ false
          → extend_prev m (suc p) r next eaddr ≡ record m {
            ranges = set m.ranges p (record r { end = eaddr });
            hint = if m.hint == p then m.hint else suc p;
          }
      plain_extension none h = ground arith
      plain_extension (some n) h = ground arith
