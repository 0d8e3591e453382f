-- ===== src/Base/Bits.antt =====
-- The bits of a byte under the masks `1 << k`, by tables over every byte and bit.
use Prim.Native.Nat.{ℕ, zero, suc, ◌-◌, ◌^◌, ◌<◌, bit_and, bit_or}
use mathlib.Core.Path.{◌≡◌, refl, ap}
use mathlib.Core.Bool.{Bool, true, false, ◌&&◌, ◌||◌, not}
use native.Mathlib.Omega.{arith}
use frisbee.Base.Tests.{◌==◌, ltb, if◌then◌else◌}

-- Whether the test passes on each number under the bound: a table that evaluation fills.
passes_under : ℕ → (ℕ → Bool) → Bool
passes_under zero test = true
passes_under (suc bound) test = if test bound then passes_under bound test else false

-- A table that passes says so of each of its entries.
passes_under-entry :
    (bound : ℕ) (test : ℕ → Bool) (entry : ℕ)
    → passes_under bound test ≡ true
    → entry < bound
    → test entry ≡ true
unfolding passes_under
passes_under-entry zero test entry filled small = absurd (omega arith)
passes_under-entry (suc bound) test entry filled small =
    ground (arith, passes_under-entry bound test entry)

-- `(x & (1 << k)) != 0`
unfoldable pub test_bit : ℕ → ℕ → Bool
test_bit x k = not (bit_and x (2 ^ k) == 0)

-- `x | (1 << k)`
unfoldable pub set_bit : ℕ → ℕ → ℕ
set_bit x k = bit_or x (2 ^ k)

-- `x & ~(1 << k)` on a byte
unfoldable pub clear_bit : ℕ → ℕ → ℕ
clear_bit x k = bit_and x (255 - 2 ^ k)

bool_eq : Bool → Bool → Bool
bool_eq true b = b
bool_eq false b = not b

bool_eq_sound : (a b : Bool) → bool_eq a b ≡ true → a ≡ b
unfolding bool_eq
bool_eq_sound a b h = ground arith

table₂ : (ℕ → ℕ → Bool) → Bool
unfolding passes_under
table₂ p = passes_under 256 (λ x. passes_under 8 (λ k. p x k))

table₂_sound : (p : ℕ → ℕ → Bool) → table₂ p ≡ true → (x k : ℕ) → x < 256 → k < 8 → p x k ≡ true
unfolding table₂
table₂_sound p h x k hx hk =
    passes_under-entry 8 (λ k. p x k) k
      (passes_under-entry 256 (λ x. passes_under 8 (λ k. p x k)) x h hx) hk

table₃ : (ℕ → ℕ → ℕ → Bool) → Bool
unfolding passes_under
table₃ p = passes_under 256 (λ x. passes_under 8 (λ k. passes_under 8 (λ j. p x k j)))

table₃_sound :
    (p : ℕ → ℕ → ℕ → Bool)
    → table₃ p ≡ true
    → (x k j : ℕ) → x < 256
    → k < 8
    → j < 8
    → p x k j ≡ true
unfolding table₃
table₃_sound p h x k j hx hk hj =
    passes_under-entry 8 (λ j. p x k j) j
      (passes_under-entry 8 (λ k. passes_under 8 (λ j. p x k j)) k
        (passes_under-entry 256 (λ x. passes_under 8 (λ k. passes_under 8 (λ j. p x k j))) x h hx)
        hk)
      hj

set_table :
    table₃ (λ x k j. bool_eq (test_bit (set_bit x k) j) (if k == j then true else test_bit x j))
    ≡ true
unfolding table₃ test_bit set_bit bool_eq
set_table = refl

pub test_bit-set_bit :
    (x k j : ℕ)
    → x < 256
    → k < 8
    → j < 8
    → test_bit (set_bit x k) j ≡ (if k == j then true else test_bit x j)
test_bit-set_bit x k j hx hk hj = bool_eq_sound _ _ (table₃_sound _ set_table x k j hx hk hj)

clear_table :
    table₃ (λ x k j. bool_eq (test_bit (clear_bit x k) j) (if k == j then false else test_bit x j))
    ≡ true
unfolding table₃ test_bit clear_bit bool_eq
clear_table = refl

pub test_bit-clear_bit :
    (x k j : ℕ)
    → x < 256
    → k < 8
    → j < 8
    → test_bit (clear_bit x k) j ≡ (if k == j then false else test_bit x j)
test_bit-clear_bit x k j hx hk hj = bool_eq_sound _ _ (table₃_sound _ clear_table x k j hx hk hj)

range_table : table₂ (λ x k. ltb (set_bit x k) 256 && ltb (clear_bit x k) 256) ≡ true
unfolding table₂ set_bit clear_bit
range_table = refl

pub set_bit-lt : (x k : ℕ) → x < 256 → k < 8 → set_bit x k < 256
set_bit-lt x k hx hk = ground (arith, table₂_sound _ range_table x k hx hk)

pub clear_bit-lt : (x k : ℕ) → x < 256 → k < 8 → clear_bit x k < 256
clear_bit-lt x k hx hk = ground (arith, table₂_sound _ range_table x k hx hk)

ends_table : passes_under 8 (λ k. test_bit 255 k && not (test_bit 0 k)) ≡ true
unfolding passes_under test_bit
ends_table = refl

pub test_bit_ones : (k : ℕ) → k < 8 → test_bit 255 k ≡ true
test_bit_ones k h = ground (arith, passes_under-entry 8 _ k ends_table h)

pub test_bit_zero : (k : ℕ) → k < 8 → test_bit 0 k ≡ false
test_bit_zero k h = ground (arith, passes_under-entry 8 _ k ends_table h)

-- `~x` on a byte
unfoldable pub invert_byte : ℕ → ℕ
invert_byte x = 255 - x

invert_table : table₂ (λ x k. bool_eq (test_bit (invert_byte x) k) (not (test_bit x k))) ≡ true
unfolding table₂ test_bit invert_byte bool_eq
invert_table = refl

pub test_bit-invert_byte :
    (x k : ℕ) → x < 256 → k < 8 → test_bit (invert_byte x) k ≡ not (test_bit x k)
test_bit-invert_byte x k hx hk = bool_eq_sound _ _ (table₂_sound _ invert_table x k hx hk)

pub invert_byte-lt : (x : ℕ) → invert_byte x < 256
unfolding invert_byte
invert_byte-lt x = omega arith

pub invert_byte-invert_byte : (x : ℕ) → x < 256 → invert_byte (invert_byte x) ≡ x
unfolding invert_byte
invert_byte-invert_byte x h = omega arith

-- The bits of a byte determine it.
some_table : passes_under 256 (λ x. x == 0 || not (passes_under 8 (λ k. not (test_bit x k)))) ≡ true
unfolding passes_under test_bit
some_table = refl

passes_under_complete :
    (n : ℕ) (p : ℕ → Bool) → ((k : ℕ) → k < n → p k ≡ true) → passes_under n p ≡ true
unfolding passes_under
passes_under_complete zero p h = refl
passes_under_complete (suc n) p h =
    ground (arith, h n, passes_under_complete n p (λ k l. h k (omega arith)))

-- A byte with no bit set is zero.
pub byte_zero : (x : ℕ) → x < 256 → ((k : ℕ) → k < 8 → test_bit x k ≡ false) → x ≡ 0
byte_zero x hx h =
    let none_set : passes_under 8 (λ k. not (test_bit x k)) ≡ true =
      passes_under_complete 8 (λ k. not (test_bit x k)) (λ k l. ap not (h k l)) in
    ground (
      arith,
      none_set,
      passes_under-entry 256 (λ x. x == 0 || not (passes_under 8 (λ k. not (test_bit x k)))) x
          some_table hx,
    )
