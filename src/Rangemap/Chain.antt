-- ===== src/Rangemap/Chain.antt =====
-- Lists of ranges in order: what holds an address, and how a list is taken apart and put together.
use frisbee.Base.{ℕ, zero, suc, ◌+◌, ◌-◌, ◌≤◌, ◌<◌, ◌≡◌, Bool, true, false, List, [], ◌∷◌, ◌++◌}
use frisbee.Base.{arith, refl, subst, ap, ◌⊎◌, ◌&&◌, length-append}
use frisbee.Base.{if◌then◌else◌, leb, ltb, get_elem?, take, drop, length, Option, some, none}
use frisbee.Rangemap.{Range}

-- The ranges lie between `lo` and `hi`, `hi` excluded, in order, and do not overlap.
abbrev pub Chain : ℕ → ℕ → List Range → Type 0
Chain lo hi [] = lo ≤ hi
Chain lo hi (r ∷ rs) = (lo ≤ r.start) × (r.start ≤ r.end) × Chain (r.end + 1) hi rs

-- What the range that holds the address is associated with.
unfoldable pub holder : List Range → ℕ → Option ℕ
holder [] a = none
holder (r ∷ rs) a = if leb r.start a && leb a r.end then some r.content else holder rs a

-- How many addresses the ranges hold.
unfoldable pub total : List Range → ℕ
total [] = 0
total (r ∷ rs) = r.end - r.start + 1 + total rs

abbrev pub or_else : Option ℕ → Option ℕ → Option ℕ
or_else none o = o
or_else (some c) o = some c

-- Whether a range holds the address.
abbrev pub is_some : Option ℕ → Bool
is_some none = false
is_some (some c) = true

abbrev pub holds : List Range → ℕ → Bool
holds rs a = is_some (holder rs a)

-- Whether `a` is one of the addresses from `addr` to `eaddr`.
abbrev pub within : ℕ → ℕ → ℕ → Bool
within addr eaddr a = leb addr a && leb a eaddr

pub Chain-le : (lo hi : ℕ) (rs : List Range) → Chain lo hi rs → lo ≤ hi
Chain-le lo hi [] c = c
Chain-le lo hi (r ∷ rs) c = omega (arith, Chain-le (r.end + 1) hi rs c.2)

pub Chain-append :
    (lo mid hi : ℕ) (xs ys : List Range)
    → Chain lo mid xs
    → Chain mid hi ys
    → Chain lo hi (xs ++ ys)
Chain-append lo mid hi [] [] c d = omega arith
Chain-append lo mid hi [] (r ∷ ys) c d = (omega arith, d.1, d.2)
Chain-append lo mid hi (r ∷ xs) ys c d = (c.0, c.1, Chain-append (r.end + 1) mid hi xs ys c.2 d)

pub holder-append :
    (xs ys : List Range) (a : ℕ) → holder (xs ++ ys) a ≡ or_else (holder xs a) (holder ys a)
unfolding holder
holder-append [] ys a = refl
holder-append (r ∷ xs) ys a = ground (arith, holder-append xs ys a)

pub holder_outside :
    (lo hi : ℕ) (rs : List Range) (a : ℕ)
    → Chain lo hi rs
    → (a < lo) ⊎ (hi ≤ a)
    → holder rs a ≡ none
unfolding holder
holder_outside lo hi [] a c h = refl
holder_outside lo hi (r ∷ rs) a c h =
    ground (arith, Chain-le (r.end + 1) hi rs c.2, holder_outside (r.end + 1) hi rs a c.2)

pub total-append : (xs ys : List Range) → total (xs ++ ys) ≡ total xs + total ys
unfolding total
total-append [] ys = omega arith
total-append (r ∷ xs) ys = omega (arith, total-append xs ys)

-- The parts of a list at the range behind link `i`.
pub record IsAt (lo hi : ℕ) (rs : List Range) (i : ℕ) (r : Range) : Type 0 where
  pub left : Chain lo r.start (take i rs)
  pub good : r.start ≤ r.end
  pub right : Chain (r.end + 1) hi (drop (suc i) rs)
  pub split : rs ≡ take i rs ++ r ∷ drop (suc i) rs

pub Chain-IsAt :
    (lo hi i : ℕ) (rs : List Range) (r : Range)
    → Chain lo hi rs
    → get_elem? rs i ≡ some r
    → IsAt lo hi rs i r
Chain-IsAt lo hi i [] r c e = absurd (ground arith)
Chain-IsAt lo hi zero (x ∷ rs) r c e =
    let same : x ≡ r = ground arith in
    subst (λ y. IsAt lo hi (x ∷ rs) zero y) same
      (record { left = c.0; good = c.1; right = c.2; split = refl })
Chain-IsAt lo hi (suc i) (x ∷ rs) r c e =
    let ih = Chain-IsAt (x.end + 1) hi i rs r c.2 e in
    record {
      left = (c.0, c.1, ih.left);
      good = ih.good;
      right = ih.right;
      split = ap (λ l. x ∷ l) ih.split;
    }

-- A list with the part `old` in the middle replaced by `new`.
pub record Splice (lo m n hi : ℕ) (xs old new ys rs rs' : List Range) : Type 0 where
  pub left : Chain lo m xs
  pub was : Chain m n old
  pub is : Chain m n new
  pub right : Chain n hi ys
  pub old_list : rs ≡ xs ++ (old ++ ys)
  pub new_list : rs' ≡ xs ++ (new ++ ys)

module _ {lo m n hi : ℕ} {xs old new ys rs rs' : List Range}
    (s : Splice lo m n hi xs old new ys rs rs') where
  pub Splice-Chain : Chain lo hi rs'
  Splice-Chain =
      rw s.new_list
        (Chain-append lo m hi xs (new ++ ys) s.left (Chain-append m n hi new ys s.is s.right))

  -- Outside the middle nothing changes.
  pub Splice-holder :
      (a : ℕ) → holder rs' a ≡ (if leb m a && ltb a n then holder new a else holder rs a)
  Splice-holder a = ground (
    arith,
    s.old_list,
    s.new_list,
    holder-append xs (old ++ ys) a,
    holder-append old ys a,
    holder-append xs (new ++ ys) a,
    holder-append new ys a,
    holder_outside lo m xs a s.left,
    holder_outside m n old a s.was,
    holder_outside m n new a s.is,
    holder_outside n hi ys a s.right,
  )

  pub Splice-old : (a : ℕ) → leb m a && ltb a n ≡ true → holder rs a ≡ holder old a
  Splice-old a h = ground (
    arith,
    s.old_list,
    holder-append xs (old ++ ys) a,
    holder-append old ys a,
    holder_outside lo m xs a s.left,
    holder_outside n hi ys a s.right,
  )

  pub Splice-length : length rs' + length old ≡ length rs + length new
  Splice-length =
      rw (s.old_list, s.new_list)
        (omega (
          arith,
          length-append xs (old ++ ys),
          length-append old ys,
          length-append xs (new ++ ys),
          length-append new ys,
        ))

  pub Splice-total : total rs' + total old ≡ total rs + total new
  Splice-total =
      rw (s.old_list, s.new_list)
        (omega (
          arith,
          total-append xs (old ++ ys),
          total-append old ys,
          total-append xs (new ++ ys),
          total-append new ys,
        ))
