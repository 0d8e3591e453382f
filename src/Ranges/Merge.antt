-- ===== src/Ranges/Merge.antt =====
-- `mergeranges` of src/imagezip/imagezip.c and the cull of small ranges: the sectors held before and after.
use frisbee.Base.{ℕ, ◌+◌, ◌%◌, ◌≤◌, ◌<◌, ◌≡◌, ◌≢◌, Bool, false, ◌&&◌, ◌||◌, List, [], ◌∷◌}
use frisbee.Base.{◌==◌, ltb, leb, length, refl, arith, Bool-cases, inl, inr, word}
use frisbee.Ranges.{SectRange, merge_from, merge_ranges, cull}

-- Whether a range of the list holds the sector.
unfoldable pub held : List SectRange → ℕ → Bool
held [] a = false
held (x ∷ rest) a = leb x.start a && ltb a (x.start + x.size) || held rest a

-- The sectors of the ranges, without wrap-around.
unfoldable pub sectors : List SectRange → ℕ
sectors [] = 0
sectors (x ∷ rest) = x.size + sectors rest

-- No range wraps around.
abbrev pub Fits : List SectRange → Type 0
Fits [] = Unit {0}
Fits (x ∷ rest) = (x.start + x.size < word) × Fits rest

-- No range ends where the next one starts.
abbrev pub Apart : List SectRange → Type 0
Apart [] = Unit {0}
Apart (x ∷ []) = Unit {0}
Apart (x ∷ y ∷ rest) = (x.start + x.size ≢ y.start) × Apart (y ∷ rest)

-- What the merge of `rs` comes to.
pub record IsMerge (rs : List SectRange) (r : List SectRange × ℕ) : Type 0 where
  pub same : (a : ℕ) → held r.0 a ≡ held rs a
  pub total : sectors r.0 ≡ sectors rs
  pub freed : length r.0 + r.1 ≡ length rs
  pub fits : Fits r.0
  pub apart : Apart r.0

-- The merge starts with the start of the range at hand.
abbrev Starts : ℕ → List SectRange → Type 0
Starts s [] = ⊥
Starts s (x ∷ rest) = x.start ≡ s

Apart-cons :
    (x : SectRange) (s : ℕ) (rs : List SectRange)
    → Starts s rs
    → x.start + x.size ≢ s
    → Apart rs
    → Apart (x ∷ rs)
Apart-cons x s [] h d a = absurd h
Apart-cons x s (y ∷ rest) h d a = ((λ e. d (omega (arith, e, h))), a)

merge_from-IsMerge :
    (x : SectRange) (rs : List SectRange)
    → Fits (x ∷ rs)
    → IsMerge (x ∷ rs) (merge_from x rs) × Starts x.start (merge_from x rs).0
unfolding merge_from held sectors
merge_from-IsMerge x [] f =
    (record { same = λ a. refl; total = refl; freed = refl; fits = f; apart = tt }, refl)
merge_from-IsMerge x (y ∷ rest) f = elim (Bool-cases ((x.start + x.size) % word == y.start)) [
  | inl e ↦
      let at_once : x.start + x.size ≡ y.start = ground (arith, f.0) in
      let size : (x.size + y.size) % word ≡ x.size + y.size = ground (arith, f.1.0) in
      let x' : SectRange = record x { size = x.size + y.size } in
      let ih = merge_from-IsMerge x' rest (omega (arith, f.1.0), f.1.1) in
      rw (e, merge_from, size)
        (
          record {
            same = λ a. ground (arith, ih.0.same a);
            total = omega (arith, ih.0.total);
            freed = omega (arith, ih.0.freed);
            fits = ih.0.fits;
            apart = ih.0.apart;
          },
          ih.1,
        )
  | inr e ↦
      let ih = merge_from-IsMerge y rest f.1 in
      rw (e, merge_from)
        (
          record {
            same = λ a. ground (arith, ih.0.same a);
            total = omega (arith, ih.0.total);
            freed = omega (arith, ih.0.freed);
            fits = (f.0, ih.0.fits);
            apart =
                Apart-cons x y.start (merge_from y rest).0 ih.1 (ground (arith, f.0)) ih.0.apart;
          },
          refl,
        )
]

-- On ranges that do not wrap around, `mergeranges` keeps the sectors held and their number, returns
-- how many entries it freed, and leaves no range that ends where the next one starts.
pub merge_ranges-IsMerge : (rs : List SectRange) → Fits rs → IsMerge rs (merge_ranges rs)
unfolding merge_ranges held
merge_ranges-IsMerge [] f = record {
  same = λ a. refl;
  total = refl;
  freed = refl;
  fits = tt;
  apart = tt;
}
merge_ranges-IsMerge (x ∷ rest) f = (merge_from-IsMerge x rest f).0

-- Whether all the ranges have, or all have not, `limit` sectors.
abbrev pub AllLarge : ℕ → List SectRange → Type 0
AllLarge limit [] = Unit {0}
AllLarge limit (x ∷ rest) = (limit ≤ x.size) × AllLarge limit rest

abbrev pub AllSmall : ℕ → List SectRange → Type 0
AllSmall limit [] = Unit {0}
AllSmall limit (x ∷ rest) = (x.size < limit) × AllSmall limit rest

pub record IsCull (limit : ℕ) (rs : List SectRange) (r : List SectRange × List SectRange)
    : Type 0 where
  pub same : (a : ℕ) → (held r.0 a || held r.1 a) ≡ held rs a
  pub total : sectors r.0 + sectors r.1 ≡ sectors rs
  pub large : AllLarge limit r.0
  pub small : AllSmall limit r.1

-- The cull of `mergeskips` parts the ranges in those that have `frangesize` sectors and those that
-- have not; together they hold the sectors that the list held.
pub cull-IsCull : (limit : ℕ) (rs : List SectRange) → IsCull limit rs (cull limit rs)
unfolding cull held sectors
cull-IsCull limit [] = record { same = λ a. refl; total = refl; large = tt; small = tt }
cull-IsCull limit (x ∷ rest) =
    let ih = cull-IsCull limit rest in
    elim (Bool-cases (ltb x.size limit)) [
      | inl e ↦
          rw (e, cull)
            (record {
              same = λ a. ground (arith, ih.same a);
              total = omega (arith, ih.total);
              large = ih.large;
              small = (ground arith, ih.small);
            })
      | inr e ↦
          rw (e, cull)
            (record {
              same = λ a. ground (arith, ih.same a);
              total = omega (arith, ih.total);
              large = (ground arith, ih.large);
              small = ih.small;
            })
    ]
