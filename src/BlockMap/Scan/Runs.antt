-- ===== src/BlockMap/Scan/Runs.antt =====
-- The maximal runs of a set of blocks, the reference for `BlockMapApply`.
use frisbee.Base.{
  ℕ, zero, suc, ◌+◌, ◌-◌, ◌*◌, ◌/◌, ◌%◌, ◌≤◌, ◌<◌, ◌≡◌, Bool, true, false, ◌&&◌, ◌||◌,
}
use frisbee.Base.{arith, if◌then◌else◌, ◌==◌, ltb, get_or, test_bit, test_bit_zero}
use frisbee.Base.{refl, ◌∙◌, sym, ap, ap₂, inl, inr, ◌⊎◌, Bool-cases, List, [], ◌∷◌}
use frisbee.BlockMap.{BlockMap, max_chunk_size}
use frisbee.BlockMap.Bits.{bit_at, in_range}

-- The run of `count` blocks from `block` on, if there is one, before the others.
unfoldable pub close : ℕ → ℕ → List (ℕ × ℕ) → List (ℕ × ℕ)
close block count rs = if ltb 0 count then (block, count) ∷ rs else rs

-- The maximal runs of `f` from `p` on, `n` blocks far, after a run of `count` blocks from `block`
-- that ends at `p`.
unfoldable pub runs : (ℕ → Bool) → ℕ → ℕ → ℕ → ℕ → List (ℕ × ℕ)
runs f zero p block count = close block count []
runs f (suc n) p block count = elim (f p) [
  | true ↦ runs f n (p + 1) (if count == 0 then p else block) (count + 1)
  | false ↦ close block count (runs f n (p + 1) block 0)
]

abbrev pub covered : List (ℕ × ℕ) → ℕ → Bool
covered [] b = false
covered ((start, count) ∷ rs) b = in_range start count b || covered rs b

-- The runs are not empty, in order, from `lo` on, and a gap parts each from the next.
abbrev pub Separated : ℕ → List (ℕ × ℕ) → Type 0
Separated lo [] = Unit {0}
Separated lo ((start, count) ∷ rs) = (lo ≤ start) × (0 < count) × Separated (start + count + 1) rs

covered-close :
    (block count : ℕ) (rs : List (ℕ × ℕ)) (b : ℕ)
    → covered (close block count rs) b ≡ (in_range block count b || covered rs b)
unfolding close
covered-close block count rs b = ground arith

range-grow :
    (p block count n b : ℕ) (q : Bool)
    → (count ≡ 0) ⊎ (block + count ≡ p)
    → (b ≡ p → q ≡ true)
    → (in_range (if count == 0 then p else block) (count + 1) b || in_range (p + 1) n b && q)
      ≡ (in_range block count b || in_range p (suc n) b && q)
range-grow p block count n b true e h = ground arith
range-grow p block count n b false e h = ground arith

range-shrink :
    (p block n b : ℕ) (q : Bool)
    → (b ≡ p → q ≡ false)
    → (in_range block 0 b || in_range (p + 1) n b && q) ≡ (in_range p (suc n) b && q)
range-shrink p block n b true h = ground arith
range-shrink p block n b false h = ground arith

-- The runs cover the blocks of `f`, and no other.
covered-runs :
    (f : ℕ → Bool) (n p block count b : ℕ)
    → (count ≡ 0) ⊎ (block + count ≡ p)
    → covered (runs f n p block count) b ≡ (in_range block count b || in_range p n b && f b)
unfolding runs
covered-runs f zero p block count b e = covered-close block count [] b ∙ ground arith
covered-runs f (suc n) p block count b e = elim (Bool-cases (f p)) [
  | inl hit ↦
      rw (hit, runs)
        (covered-runs f n (p + 1) (if count == 0 then p else block) (count + 1) b (ground arith)
          ∙ range-grow p block count n b (f b) e (λ q. ap f q ∙ hit))
  | inr miss ↦
      rw (miss, runs)
        (covered-close block count (runs f n (p + 1) block 0) b
          ∙ ap (λ c. in_range block count b || c)
              (covered-runs f n (p + 1) block 0 b (inl refl)
                ∙ range-shrink p block n b (f b) (λ q. ap f q ∙ miss)))
]

-- Where a list of runs that goes on with the given run starts.
abbrev from : ℕ → ℕ → ℕ → ℕ
from p block count = if count == 0 then p else block

Separated-weaken : {lo lo' : ℕ} (rs : List (ℕ × ℕ)) → lo' ≤ lo → Separated lo rs → Separated lo' rs
Separated-weaken [] h s = tt
Separated-weaken ((b, c) ∷ rs) h s = (omega arith, s.1, s.2)

pub close_none : (block count : ℕ) (rs : List (ℕ × ℕ)) → count ≡ 0 → close block count rs ≡ rs
unfolding close
close_none block count rs h = ground arith

pub close_some :
    (block count : ℕ) (rs : List (ℕ × ℕ)) → 0 < count → close block count rs ≡ (block, count) ∷ rs
unfolding close
close_some block count rs h = ground arith

Separated-close :
    (p block count : ℕ) (rs : List (ℕ × ℕ))
    → (count ≡ 0) ⊎ (block + count ≡ p)
    → Separated (p + 1) rs
    → Separated (from p block count) (close block count rs)
Separated-close p block count rs e h = elim (Bool-cases (count == 0)) [
  | inl z ↦ rw (close_none block count rs (ground arith)) (Separated-weaken rs (ground arith) h)
  | inr pos ↦
      rw (close_some block count rs (ground arith))
        (ground arith, ground arith, Separated-weaken rs (ground arith) h)
]

Separated-runs :
    (f : ℕ → Bool) (n p block count : ℕ)
    → (count ≡ 0) ⊎ (block + count ≡ p)
    → Separated (from p block count) (runs f n p block count)
unfolding runs
Separated-runs f zero p block count e = Separated-close p block count [] e tt
Separated-runs f (suc n) p block count e = elim (Bool-cases (f p)) [
  | inl hit ↦
      rw (hit, runs)
        (Separated-weaken (runs f n (p + 1) (if count == 0 then p else block) (count + 1))
          (ground arith)
          (Separated-runs f n (p + 1) (if count == 0 then p else block) (count + 1) (ground arith)))
  | inr miss ↦
      rw (miss, runs)
        (Separated-close p block count (runs f n (p + 1) block 0) e
          (Separated-runs f n (p + 1) block 0 (inl refl)))
]

-- A stretch with no block of `f` makes no run.
runs_skip :
    (f : ℕ → Bool) (k n p block : ℕ)
    → ((b : ℕ) → p ≤ b → b < p + k → f b ≡ false)
    → runs f (k + n) p block 0 ≡ runs f n (p + k) block 0
unfolding runs
runs_skip f zero n p block h = ap₂ (λ k q. runs f k q block 0) (omega arith) (omega arith)
runs_skip f (suc k) n p block h =
    ap (λ k. runs f k p block 0) {x = suc k + n} {y = suc (k + n)} (omega arith)
    ∙ rw (h p (omega arith) (omega arith), runs)
        (rw (close_none block 0 (runs f (k + n) (p + 1) block 0) refl) (
          runs_skip f k n (p + 1) block (λ b lo hi. h b (omega arith) (omega arith))
          ∙ ap (λ q. runs f n q block 0) (omega arith)))

-- The rest of a byte that has no bit left makes no run.
pub rest_skip :
    (f : ℕ → Bool) (left n i bit val block : ℕ)
    → bit + suc left ≡ 8
    → val ≡ 0
    → ((j : ℕ) → bit ≤ j → j < 8 → test_bit val j ≡ f (i * 8 + j))
    → runs f (left + n) (i * 8 + (bit + 1)) block 0 ≡ runs f n ((i + 1) * 8) block 0
rest_skip f left n i bit val block e z same =
    runs_skip f left n (i * 8 + (bit + 1)) block (λ b lo hi.
      let place : b ≡ i * 8 + (b - i * 8) = omega arith in
      ap f place
      ∙ sym (same (b - i * 8) (omega arith) (omega arith))
      ∙ ap (λ v. test_bit v (b - i * 8)) z
      ∙ test_bit_zero (b - i * 8) (omega arith))
    ∙ ap (λ q. runs f n q block 0) (omega arith)

pub byte_bit : (m : BlockMap) (i j : ℕ) → j < 8 → test_bit (get_or m i 0) j ≡ bit_at m (i * 8 + j)
byte_bit m i j h =
    let place : (i * 8 + j) / 8 ≡ i = omega arith in
    let off : (i * 8 + j) % 8 ≡ j = omega arith in rw (place, off)

pub runs_hit :
    (f : ℕ → Bool) (n m p q block count : ℕ)
    → n ≡ suc m
    → q ≡ p + 1
    → f p ≡ true
    → runs f n p block count ≡ runs f m q (if count == 0 then p else block) (count + 1)
unfolding runs
runs_hit f n m p q block count en eq hit = rw (en, eq, hit, runs)

pub runs_miss :
    (f : ℕ → Bool) (n m p q block count : ℕ)
    → n ≡ suc m
    → q ≡ p + 1
    → f p ≡ false
    → runs f n p block count ≡ close block count (runs f m q block 0)
unfolding runs
runs_miss f n m p q block count en eq miss = rw (en, eq, miss, runs)

-- The runs that the calls are made on cover exactly the blocks of the map, are not empty and come
-- in order, with a gap after each.
pub runs_exact :
    (f : ℕ → Bool)
    → ((b : ℕ) → b < max_chunk_size → covered (runs f max_chunk_size 0 0 0) b ≡ f b)
      × Separated 0 (runs f max_chunk_size 0 0 0)
runs_exact f = (
  λ b l. covered-runs f max_chunk_size 0 0 0 b (inl refl) ∙ ground arith,
  Separated-weaken (runs f max_chunk_size 0 0 0) (omega arith)
      (Separated-runs f max_chunk_size 0 0 0 (inl refl)),
)
