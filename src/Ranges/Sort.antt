-- ===== src/Ranges/Sort.antt =====
-- `sortrange` of src/imagezip/imagezip.c with no `rangecmp`: its loop and its list.
use frisbee.Base.{ℕ, zero, suc, ◌+◌, ◌≤◌, ◌<◌, ◌≡◌, Bool, true, false, List, [], ◌∷◌, ◌∙◌}
use frisbee.Base.{if◌then◌else◌, ltb, length, refl, ap, arith, Bool-cases, inl, inr, some, none}
use frisbee.Ranges.{SectRange, out_of_order, bubble, pass, sort_loop, passes, sort_range}

-- How many ranges of the list the test `p` holds for.
unfoldable pub count_by : (SectRange → Bool) → List SectRange → ℕ
count_by p [] = 0
count_by p (x ∷ rest) = (if p x then 1 else 0) + count_by p rest

-- The starts do not fall.
abbrev pub Sorted : List SectRange → Type 0
Sorted [] = Unit {0}
Sorted (x ∷ []) = Unit {0}
Sorted (x ∷ y ∷ rest) = (x.start ≤ y.start) × Sorted (y ∷ rest)

-- The pairs of ranges that are in the wrong order.
abbrev starts_below : SectRange → SectRange → Bool
starts_below x y = ltb y.start x.start

unfoldable inversions : List SectRange → ℕ
inversions [] = 0
inversions (x ∷ rest) = count_by (starts_below x) rest + inversions rest

bubble-count_by :
    (p : SectRange → Bool) (x : SectRange) (rs : List SectRange)
    → count_by p (bubble none x rs).0 ≡ count_by p (x ∷ rs)
unfolding bubble count_by out_of_order
bubble-count_by p x [] = refl
bubble-count_by p x (y ∷ rest) = elim (Bool-cases (ltb y.start x.start)) [
  | inl e ↦ rw (e, bubble) (omega (arith, bubble-count_by p x rest))
  | inr e ↦ rw (e, bubble) (omega (arith, bubble-count_by p y rest))
]

-- A pass that changes nothing leaves the list as it is, and the list is sorted.
bubble_unchanged :
    (x : SectRange) (rs : List SectRange)
    → (bubble none x rs).1 ≡ false
    → ((bubble none x rs).0 ≡ x ∷ rs) × Sorted (x ∷ rs)
unfolding bubble out_of_order
bubble_unchanged x [] = λ h. (refl, tt)
bubble_unchanged x (y ∷ rest) = elim (Bool-cases (ltb y.start x.start)) [
  | inl e ↦ rw (e, bubble) (λ h. absurd (ground arith))
  | inr e ↦
      rw (e, bubble) (λ h. let ih = bubble_unchanged y rest h in (rw ih.0, (ground arith, ih.1)))
]

-- A pass takes away at least one inversion, unless it changes nothing.
bubble-inversions :
    (x : SectRange) (rs : List SectRange)
    → inversions (bubble none x rs).0 + (if (bubble none x rs).1 then 1 else 0)
      ≤ inversions (x ∷ rs)
unfolding bubble out_of_order inversions count_by
bubble-inversions x [] = omega arith
bubble-inversions x (y ∷ rest) = elim (Bool-cases (ltb y.start x.start)) [
  | inl e ↦
      rw (e, bubble)
        (ground (arith, bubble-inversions x rest, bubble-count_by (starts_below y) x rest))
  | inr e ↦
      rw (e, bubble)
        (ground (arith, bubble-inversions y rest, bubble-count_by (starts_below x) y rest))
]

count_by-le : (p : SectRange → Bool) (rs : List SectRange) → count_by p rs ≤ length rs
unfolding count_by
count_by-le p [] = omega arith
count_by-le p (x ∷ rest) = ground (arith, count_by-le p rest)

inversions-passes : (rs : List SectRange) → inversions rs < passes rs
unfolding inversions passes
inversions-passes [] = omega arith
inversions-passes (x ∷ rest) =
    omega (arith, count_by-le (starts_below x) rest, inversions-passes rest)

-- What a sort of `rs` comes to.
pub record IsSort (rs rs' : List SectRange) : Type 0 where
  pub sorted : Sorted rs'
  pub same : (p : SectRange → Bool) → count_by p rs' ≡ count_by p rs

abbrev Sorts : ℕ → List SectRange → Type 0
Sorts fuel rs = (rs' : List SectRange) × (sort_loop fuel none rs ≡ some rs') × IsSort rs rs'

sort_loop-changed :
    (fuel : ℕ) (x : SectRange) (rest : List SectRange)
    → (bubble none x rest).1 ≡ true
    → sort_loop (suc fuel) none (x ∷ rest) ≡ sort_loop fuel none (bubble none x rest).0
unfolding sort_loop pass
sort_loop-changed fuel x rest e = rw (e, sort_loop)

sort_loop-unchanged :
    (fuel : ℕ) (x : SectRange) (rest : List SectRange)
    → (bubble none x rest).1 ≡ false
    → (bubble none x rest).0 ≡ x ∷ rest
    → sort_loop (suc fuel) none (x ∷ rest) ≡ some (x ∷ rest)
unfolding sort_loop pass
sort_loop-unchanged fuel x rest e s = rw (e, sort_loop) (ap some s)

sort_range-sorted :
    (fuel : ℕ) (x : SectRange) (rest rs' : List SectRange)
    → sort_loop fuel none (x ∷ rest) ≡ some rs'
    → sort_range fuel false none (x ∷ rest) ≡ some rs'
unfolding sort_range
sort_range-sorted fuel x rest rs' h = rw (h, sort_range)

sort_loop-Sorts : (fuel : ℕ) (rs : List SectRange) → inversions rs < fuel → Sorts fuel rs
unfolding sort_loop pass
sort_loop-Sorts zero rs h = absurd (omega arith)
sort_loop-Sorts (suc fuel) [] h = ([], refl, record { sorted = tt; same = λ p. refl })
sort_loop-Sorts (suc fuel) (x ∷ rest) h =
    let less = bubble-inversions x rest in
    elim (Bool-cases (bubble none x rest).1) [
      | inl e ↦
          let few : inversions (bubble none x rest).0 < fuel = ground (arith, less) in
          let ih = sort_loop-Sorts fuel (bubble none x rest).0 few in
          (
            ih.0,
            sort_loop-changed fuel x rest e ∙ ih.1,
            record { sorted = ih.2.sorted; same = λ p. ih.2.same p ∙ bubble-count_by p x rest },
          )
      | inr e ↦
          let s = bubble_unchanged x rest e in
          (
            x ∷ rest,
            sort_loop-unchanged fuel x rest e s.0,
            record { sorted = s.1; same = λ p. refl },
          )
    ]

-- With no `rangecmp` and no merge, `sortrange` ends within `passes` rounds of its loop, leaves the
-- list sorted by start, and has in it the ranges that were there, each as often as before.
pub sort_range-IsSort :
    (rs : List SectRange)
    → (rs' : List SectRange) × (sort_range (passes rs) false none rs ≡ some rs') × IsSort rs rs'
unfolding sort_range
sort_range-IsSort [] = ([], refl, record { sorted = tt; same = λ p. refl })
sort_range-IsSort (x ∷ rest) =
    let s = sort_loop-Sorts (passes (x ∷ rest)) (x ∷ rest) (inversions-passes (x ∷ rest)) in
    (s.0, sort_range-sorted (passes (x ∷ rest)) x rest s.0 s.1, s.2)
