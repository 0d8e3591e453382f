-- ===== src/Ranges/Skips.antt =====
-- `mergeskips` of src/imagezip/imagezip.c: the sort, the merge and the cull together.
use frisbee.Base.{
  ℕ, ◌+◌, ◌≡◌, Bool, false, ◌&&◌, ◌||◌, List, [], ◌∷◌, refl, sym, ◌∙◌, arith, leb, ltb,
}
use frisbee.Base.{some, none, length, word, Bool-cases, inl, inr, ◌==◌, if◌then◌else◌}
use frisbee.Ranges.{SectRange, Merged, merge_ranges, cull, sort_range, passes, merge_skips}
use frisbee.Ranges.Merge.{held, Fits, IsMerge, merge_ranges-IsMerge, cull-IsCull}
use frisbee.Ranges.Sort.{count_by, sort_range-IsSort}

abbrev holds_sector : ℕ → SectRange → Bool
holds_sector a x = leb x.start a && ltb a (x.start + x.size)

abbrev wraps : SectRange → Bool
wraps x = leb word (x.start + x.size)

held-count_by : (rs : List SectRange) (a : ℕ) → held rs a ≡ ltb 0 (count_by (holds_sector a) rs)
unfolding held count_by
held-count_by [] a = ground arith
held-count_by (x ∷ rest) a = ground (arith, held-count_by rest a)

Fits-none : (rs : List SectRange) → count_by wraps rs ≡ 0 → Fits rs
unfolding count_by
Fits-none [] h = tt
Fits-none (x ∷ rest) h = (ground arith, Fits-none rest (ground arith))

count_by-Fits : (rs : List SectRange) → Fits rs → count_by wraps rs ≡ 0
unfolding count_by
count_by-Fits [] f = refl
count_by-Fits (x ∷ rest) f = ground (arith, f.0, count_by-Fits rest f.1)

-- What is left of the free ranges, and what is given up.
pub record IsMergeSkips (limit : ℕ) (rs : List SectRange) (m : Merged) : Type 0 where
  pub same : (a : ℕ) → (held m.kept a || held m.culled a) ≡ held rs a
  pub culled : limit ≡ 0 → m.culled ≡ []

merged-IsMergeSkips :
    (limit : ℕ) (rs rs' : List SectRange)
    → ((a : ℕ) → held rs' a ≡ held rs a)
    → IsMerge rs' (merge_ranges rs')
    → let m = merge_ranges rs' in
      let c = if limit == 0 then (m.0, []) else cull limit m.0 in
      IsMergeSkips limit rs (record { kept = c.0; culled = c.1; freed = m.1 + length c.1 })
unfolding held
merged-IsMergeSkips limit rs rs' same m = elim (Bool-cases (limit == 0)) [
  | inl z ↦ rw z (record { same = λ a. ground (arith, m.same a, same a); culled = λ e. refl })
  | inr p ↦
      let c = cull-IsCull limit (merge_ranges rs').0 in
      rw p
        (record { same = λ a. c.same a ∙ m.same a ∙ same a; culled = λ e. absurd (ground arith) })
]

merge_skips-sorted :
    (fuel limit : ℕ) (rs rs' : List SectRange)
    → sort_range fuel false none rs ≡ some rs'
    → let m = merge_ranges rs' in
      let c = if limit == 0 then (m.0, []) else cull limit m.0 in
      merge_skips fuel limit rs
      ≡ some (record { kept = c.0; culled = c.1; freed = m.1 + length c.1 })
unfolding merge_skips
merge_skips-sorted fuel limit rs rs' e = rw (e, merge_skips)

-- For free ranges that do not wrap around, `mergeskips` ends within `passes` rounds of the sort; the
-- ranges kept and the ranges culled hold just the sectors that were free, and without a smallest
-- size nothing is culled.
pub merge_skips-IsMergeSkips :
    (limit : ℕ) (rs : List SectRange)
    → Fits rs
    → (m : Merged) × (merge_skips (passes rs) limit rs ≡ some m) × IsMergeSkips limit rs m
merge_skips-IsMergeSkips limit rs f =
    let s = sort_range-IsSort rs in
    let fits : Fits s.0 = Fits-none s.0 (s.2.same wraps ∙ count_by-Fits rs f) in
    let same : (a : ℕ) → held s.0 a ≡ held rs a =
      λ a. held-count_by s.0 a ∙ rw (s.2.same (holds_sector a)) (sym (held-count_by rs a)) in
    let m = merge_ranges s.0 in
    let c = if limit == 0 then (m.0, []) else cull limit m.0 in
    (
      record { kept = c.0; culled = c.1; freed = m.1 + length c.1 },
      merge_skips-sorted (passes rs) limit rs s.0 s.1,
      merged-IsMergeSkips limit rs s.0 same (merge_ranges-IsMerge s.0 fits),
    )
