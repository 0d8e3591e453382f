-- ===== src/WorkQueue/Valid.antt =====
-- What a queue has to satisfy, what it holds, and the counts that both rest on.
use frisbee.Base.{
  ℕ, zero, suc, ◌+◌, ◌-◌, ◌≤◌, ◌<◌, ◌≡◌, Bool, true, false, ◌&&◌, ◌||◌, not, List, [], ◌∷◌, ◌++◌, ℤ,
}
use frisbee.Base.{arith, refl, ap, ◌∙◌, length, eq_int, is_negative}
use frisbee.BlockMap.{max_chunk_size}
use frisbee.BlockMap.Bits.{
  bit_at, in_range, IsMap, count_if, count_if_ext, count_if-le, count_if-none, blocks_in, gained,
}
use frisbee.BlockMap.Bits.{count_if-or, count_if-all, count_if-add}
use frisbee.WorkQueue.{Elem, Queue}

-- The element of a request has a map of `nblocks` blocks, and at least one. Of a join reply nothing
-- is asked.
pub record IsElem (e : Elem) : Type 0 where
  pub shape : is_negative e.chunk ≡ false → IsMap e.blockmap
  pub counted : is_negative e.chunk ≡ false → e.nblocks ≡ blocks_in e.blockmap 0 max_chunk_size
  pub work : is_negative e.chunk ≡ false → 0 < e.nblocks

abbrev pub AllElems : List Elem → Type 0
AllElems [] = Unit {0}
AllElems (e ∷ rest) = IsElem e × AllElems rest

pub record IsQueue (q : Queue) : Type 0 where
  pub counted : q.size ≡ length q.elems
  pub elements : AllElems q.elems

-- Whether the element asks for block `b` of chunk `c`.
abbrev pub wants : Elem → ℤ → ℕ → Bool
wants e c b = not (is_negative e.chunk) && (eq_int e.chunk c && bit_at e.blockmap b)

-- Whether some element does.
unfoldable pub pending : List Elem → ℤ → ℕ → Bool
pending [] c b = false
pending (e ∷ rest) c b = wants e c b || pending rest c b

pub AllElems-append : (xs ys : List Elem) → AllElems xs → AllElems ys → AllElems (xs ++ ys)
AllElems-append [] ys a b = b
AllElems-append (e ∷ xs) ys a b = (a.0, AllElems-append xs ys a.1 b)

pub pending-append :
    (xs ys : List Elem) (c : ℤ) (b : ℕ)
    → pending (xs ++ ys) c b ≡ (pending xs c b || pending ys c b)
unfolding pending
pending-append [] ys c b = refl
pending-append (e ∷ xs) ys c b = ground (arith, pending-append xs ys c b)

-- A range that is counted in full is in the set.
pub count_if-full : (f : ℕ → Bool) (p n b : ℕ) → count_if f p n ≡ n → p ≤ b → b < p + n → f b ≡ true
unfolding count_if
count_if-full f p zero b e lo hi = absurd (omega arith)
count_if-full f p (suc n) b e lo hi = ground (
  arith,
  count_if-le f (p + 1) n,
  (λ (e' : count_if f (p + 1) n ≡ n) (lo' : p + 1 ≤ b) (hi' : b < p + 1 + n).
      count_if-full f (p + 1) n b e' lo' hi'),
  (λ (here : p ≡ b). ap f here),
)

-- A set that is the disjoint union of two has as many members as both.
pub count_if-parts :
    (f g h : ℕ → Bool) (p n : ℕ)
    → ((b : ℕ) → p ≤ b → b < p + n → f b ≡ (g b || h b))
    → ((b : ℕ) → p ≤ b → b < p + n → (g b && h b) ≡ false)
    → count_if f p n ≡ count_if g p n + count_if h p n
count_if-parts f g h p n union disjoint =
    count_if_ext f (λ b. g b || h b) p n union
    ∙ count_if-or g h p n
    ∙ ap (λ c. count_if g p n + c)
        (count_if_ext (gained g h) h p n (λ b lo hi. ground (arith, disjoint b lo hi)))

count_if-in_range_at :
    (block count p n : ℕ)
    → p ≤ block
    → block + count ≤ p + n
    → count_if (in_range block count) p n ≡ count
count_if-in_range_at block count p n lo hi =
    let f = in_range block count in
    let before = block - p in
    let after = p + n - (block + count) in
    let size : n ≡ before + (count + after) = omega arith in
    let at : p + before ≡ block = omega arith in
    ap (λ k. count_if f p k) size
    ∙ count_if-add f p before (count + after)
    ∙ ap (λ q. count_if f p before + count_if f q (count + after)) at
    ∙ ap (λ c. count_if f p before + c) (count_if-add f block count after)
    ∙ omega (
      arith,
      count_if_ext f (λ b. false) p before (λ b l h. ground arith),
      count_if-none p before,
      count_if_ext f (λ b. true) block count (λ b l h. ground arith),
      count_if-all block count,
      count_if_ext f (λ b. false) (block + count) after (λ b l h. ground arith),
      count_if-none (block + count) after,
    )

pub count_if-in_range :
    (block count : ℕ)
    → block + count ≤ max_chunk_size
    → count_if (in_range block count) 0 max_chunk_size ≡ count
count_if-in_range block count h =
    count_if-in_range_at block count 0 max_chunk_size (omega arith) (omega arith)
