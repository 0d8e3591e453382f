-- ===== src/Tests/Iteration.antt =====
-- The theorem on the iteration over a range map, with a function that removes the first range.
use frisbee.Base.{ℕ, ◌+◌, ◌≡◌, List, [], ◌∷◌, refl, arith, some, ℤ, pos, drop}
use frisbee.Rangemap.{Range, Rangemap}
use frisbee.Rangemap.Chain.{Chain}
use frisbee.Rangemap.Iterate.{iterate, IsVisitor, iterate_lem}

-- It also counts its calls.
abbrev remove_first : Rangemap → ℕ → ℕ → ℤ × Rangemap × ℕ
remove_first map k calls =
    (pos 0, record map { ranges = drop 1 map.ranges; gen = map.gen + 1 }, calls + 1)

rest-Chain : (lo hi : ℕ) (rs : List Range) → Chain lo hi rs → Chain lo hi (drop 1 rs)
rest-Chain lo hi [] c = c
rest-Chain lo hi (r ∷ []) c = omega (arith, c.0, c.1, c.2)
rest-Chain lo hi (r ∷ x ∷ rs) c = (omega (arith, c.0, c.1, c.2.0), c.2.1, c.2.2)

remove_first-IsVisitor : IsVisitor remove_first
remove_first-IsVisitor = record {
  ordered = λ map k calls c. rest-Chain map.loaddr (map.hiaddr + 1) map.ranges c;
  bound = λ map k calls. refl;
  counted = λ map k calls e. absurd (omega (arith, e));
}

abbrev three : Rangemap
three = record {
  ranges =
      record { start = 1; end = 2; content = 0 }
      ∷ record { start = 4; end = 6; content = 3 }
      ∷ record { start = 8; end = 8; content = 0 }
      ∷ [];
  hint = 0;
  loaddr = 0;
  hiaddr = 9;
  gen = 1;
  entries = 3;
  sectors = 6;
}

iterate_lem_example :
    (t : ℤ × Rangemap × ℕ) × (iterate remove_first (three.hiaddr + 2) three 0 ≡ some t)
iterate_lem_example =
    iterate_lem remove_first remove_first-IsVisitor three 0 (
      omega arith,
      omega arith,
      (omega arith, omega arith, (omega arith, omega arith, omega arith)),
    )
