-- ===== src/BlockMap/Bits.antt =====
-- A block map read as a set of blocks, and what a write to one of its bytes does to that set.
use frisbee.Base.{
  ℕ, zero, suc, ◌+◌, ◌*◌, ◌/◌, ◌%◌, ◌<◌, ◌≤◌, ◌≡◌, refl, ap, List, Bool, true, false, ◌&&◌, ◌||◌,
  not,
}
use frisbee.Base.{
  arith, if◌then◌else◌, ◌==◌, leb, ltb, length, get_or, set, get_or-set, length-set, ◌∙◌,
}
use frisbee.Base.{test_bit, set_bit, clear_bit, test_bit-set_bit, test_bit-clear_bit}
use frisbee.Base.{test_bit_ones, test_bit_zero}

-- Whether block `b` is in the map.
abbrev pub bit_at : List ℕ → ℕ → Bool
bit_at m b = test_bit (get_or m (b / 8) 0) (b % 8)

-- Whether `b` is one of the `count` blocks from `block` on.
abbrev pub in_range : ℕ → ℕ → ℕ → Bool
in_range block count b = leb block b && ltb b (block + count)

abbrev pub IsBytes : List ℕ → Type 0
IsBytes m = (i : ℕ) → get_or m i 0 < 256

-- A `BlockMap_t`: 128 bytes.
pub record IsMap (m : List ℕ) : Type 0 where
  pub size : length m ≡ 128
  pub bytes : (i : ℕ) → get_or m i 0 < 256

pub set-IsBytes : (m : List ℕ) (i v : ℕ) → v < 256 → IsBytes m → IsBytes (set m i v)
set-IsBytes m i v hv h j = ground (arith, get_or-set m i j v 0, h j)

pub set-IsMap : (m : List ℕ) (i v : ℕ) → v < 256 → IsMap m → IsMap (set m i v)
set-IsMap m i v hv h = record {
  size = length-set m i v ∙ h.size;
  bytes = set-IsBytes m i v hv h.bytes;
}

module _ (m : List ℕ) (i : ℕ) (bytes : IsBytes m) (inside : i < length m) where
  pub bit_at-set_ones :
      (b : ℕ) → bit_at (set m i 255) b ≡ (if in_range (i * 8) 8 b then true else bit_at m b)
  bit_at-set_ones b = ground (arith, get_or-set m i (b / 8) 255 0, test_bit_ones (b % 8))

  pub bit_at-set_zero :
      (b : ℕ) → bit_at (set m i 0) b ≡ (if in_range (i * 8) 8 b then false else bit_at m b)
  bit_at-set_zero b = ground (arith, get_or-set m i (b / 8) 0 0, test_bit_zero (b % 8))

  pub bit_at-set_bit :
      (off : ℕ)
      → off < 8
      → (b : ℕ)
      → bit_at (set m i (set_bit (get_or m i 0) off)) b
        ≡ (if i * 8 + off == b then true else bit_at m b)
  bit_at-set_bit off h b = ground (
    arith,
    get_or-set m i (b / 8) (set_bit (get_or m i 0) off) 0,
    test_bit-set_bit (get_or m i 0) off (b % 8),
    bytes i,
  )

  pub bit_at-clear_bit :
      (off : ℕ)
      → off < 8
      → (b : ℕ)
      → bit_at (set m i (clear_bit (get_or m i 0) off)) b
        ≡ (if i * 8 + off == b then false else bit_at m b)
  bit_at-clear_bit off h b = ground (
    arith,
    get_or-set m i (b / 8) (clear_bit (get_or m i 0) off) 0,
    test_bit-clear_bit (get_or m i 0) off (b % 8),
    bytes i,
  )

-- How many of the `n` numbers from `p` on pass the test.
unfoldable pub count_if : (ℕ → Bool) → ℕ → ℕ → ℕ
count_if f p zero = 0
count_if f p (suc n) = (if f p then 1 else 0) + count_if f (p + 1) n

-- The number of blocks of the map among the `count` blocks from `block` on.
abbrev pub blocks_in : List ℕ → ℕ → ℕ → ℕ
blocks_in m block count = count_if (bit_at m) block count

count_if_at : (f : ℕ → Bool) (n m p : ℕ) → n ≡ m → count_if f p n ≡ count_if f p m
count_if_at f n m p e = rw e

pub count_if-add :
    (f : ℕ → Bool) (p m n : ℕ) → count_if f p (m + n) ≡ count_if f p m + count_if f (p + m) n
unfolding count_if
count_if-add f p zero n = ground arith
count_if-add f p (suc m) n =
    count_if_at f (suc m + n) (suc (m + n)) p (omega arith)
    ∙ omega (arith, count_if-add f (p + 1) m n, ap (λ q. count_if f q n) (next p m))
  where
    next : (p m : ℕ) → p + 1 + m ≡ p + suc m
    next p m = omega arith

-- Counting looks only at the range.
pub count_if_ext :
    (f g : ℕ → Bool) (p n : ℕ)
    → ((b : ℕ) → p ≤ b → b < p + n → f b ≡ g b)
    → count_if f p n ≡ count_if g p n
unfolding count_if
count_if_ext f g p zero h = refl
count_if_ext f g p (suc n) h =
    let rest : (b : ℕ) → p + 1 ≤ b → b < p + 1 + n → f b ≡ g b =
      λ b lo hi. h b (omega arith) (omega arith) in
    rw (h p (omega arith) (omega arith), count_if_ext f g (p + 1) n rest)

pub count_if-none : (p n : ℕ) → count_if (λ b. false) p n ≡ 0
unfolding count_if
count_if-none p zero = refl
count_if-none p (suc n) = omega (arith, count_if-none (p + 1) n)

pub count_if-all : (p n : ℕ) → count_if (λ b. true) p n ≡ n
unfolding count_if
count_if-all p zero = refl
count_if-all p (suc n) = omega (arith, count_if-all (p + 1) n)

pub count_if-le : (f : ℕ → Bool) (p n : ℕ) → count_if f p n ≤ n
unfolding count_if
count_if-le f p zero = omega arith
count_if-le f p (suc n) = ground (arith, count_if-le f (p + 1) n)

pub count_if-shift :
    (f : ℕ → Bool) (p q n : ℕ) → count_if f (p + q) n ≡ count_if (λ k. f (p + k)) q n
unfolding count_if
count_if-shift f p q zero = refl
count_if-shift f p q (suc n) =
    ap (λ r. (if f (p + q) then 1 else 0) + count_if f r n) (next p q)
    ∙ ap (λ c. (if f (p + q) then 1 else 0) + c) (count_if-shift f p (q + 1) n)
  where
    next : (p q : ℕ) → p + q + 1 ≡ p + (q + 1)
    next p q = omega arith

-- What `g` adds to `f`.
abbrev pub gained : (ℕ → Bool) → (ℕ → Bool) → ℕ → Bool
gained f g b = g b && not (f b)

pub count_if-or :
    (f g : ℕ → Bool) (p n : ℕ)
    → count_if (λ b. f b || g b) p n ≡ count_if f p n + count_if (gained f g) p n
unfolding count_if
count_if-or f g p zero = omega arith
count_if-or f g p (suc n) = ground (arith, count_if-or f g (p + 1) n)
