-- ===== src/Client/Outcome.antt =====
-- The blocks of a chunk that the client misses, and the outcomes of `GotBlock`.
use frisbee.Base.{ℕ, zero, suc, ◌+◌, ◌≤◌, ◌≡◌, Bool, true, false, ◌&&◌, ◌||◌, List, [], ◌∷◌, ◌∙◌}
use frisbee.Base.{
  arith, refl, ap, if◌then◌else◌, get_elem?, set, some, Bool-cases, inl, inr, get_elem?-set_self,
}
use frisbee.BlockMap.Bits.{bit_at}
use frisbee.Sizes.{chunk_size}
use frisbee.Client.{Settings, Buffer, Client, chunk_at, is_dubious}
use frisbee.Client.Valid.{IsClient, IsKept, collecting, collects, one_if}
use frisbee.Client.Turns.{IsCollecting, its_chunk, get_elem?-lt, collecting-at}
use frisbee.Client.Search.{is_empty, none_in}
use frisbee.Client.Receive.{store}

-- The blocks that the buffers of the chunk miss.
unfoldable pub left : ℕ → List Buffer → ℕ
left k [] = 0
left k (b ∷ rest) = (if collects k b then b.block_count else 0) + left k rest

-- The blocks of the chunk that the client has still to receive.
unfoldable pub missing : Settings → Client → ℕ → ℕ
missing s c k =
    if (chunk_at c k).done
    then 0
    else if (chunk_at c k).seen
    then left k c.buffers
    else chunk_size s.sizes k

-- Whether a buffer that collects the chunk has the block.
unfoldable pub gathered : ℕ → ℕ → List Buffer → Bool
gathered k block [] = false
gathered k block (b ∷ rest) = collects k b && bit_at b.blockmap block || gathered k block rest

-- Whether the block was received: its chunk is done, or a buffer that collects the chunk has it.
abbrev pub has : Client → ℕ → ℕ → Bool
has c k block = (chunk_at c k).done || gathered k block c.buffers

gathered-none : (k block : ℕ) (l : List Buffer) → collecting k l ≡ 0 → gathered k block l ≡ false
unfolding gathered collecting
gathered-none k block [] e = refl
gathered-none k block (x ∷ l) e = elim (Bool-cases (collects k x)) [
  | inl hit ↦ absurd (ground (arith, hit))
  | inr miss ↦ ground (arith, miss, gathered-none k block l (ground (arith, miss)))
]

gathered-at :
    (k block : ℕ) (l : List Buffer) (i : ℕ) (b : Buffer)
    → get_elem? l i ≡ some b
    → collects k b ≡ true
    → collecting k l ≡ 1
    → gathered k block l ≡ bit_at b.blockmap block
unfolding gathered collecting
gathered-at k block [] i b here hit one = absurd (ground arith)
gathered-at k block (x ∷ l) zero b here hit one =
    let same : x ≡ b = ground arith in
    let was : collects k x ≡ true = ap (collects k) same ∙ hit in
    ground (
      arith,
      was,
      gathered-none k block l (ground (arith, was)),
      ap (λ (y : Buffer). bit_at y.blockmap block) same,
    )
gathered-at k block (x ∷ l) (suc i) b here hit one =
    let more : 1 ≤ collecting k l = omega (arith, collecting-at k l i b here, ap one_if hit) in
    let other : collects k x ≡ false = ground (arith, more) in
    ground (arith, other, gathered-at k block l i b here hit (omega (arith, more)))

pub has-IsCollecting :
    (s : Settings) (c : Client) (k i block : ℕ) (b : Buffer)
    → IsClient s c
    → IsCollecting c k i b
    → has c k block ≡ bit_at b.blockmap block
has-IsCollecting s c k i block b v h =
    let own = its_chunk s c k i b v h in
    rw own.1 (gathered-at k block c.buffers i b h.here (rw (h.live, h.holds) (ground arith)) own.2)

-- A chunk that no buffer collects has no block.
pub has-new :
    {s : Settings} (c : Client) (k block : ℕ)
    → IsClient s c
    → (chunk_at c k).done ≡ false
    → (chunk_at c k).seen ≡ false
    → has c k block ≡ false
has-new c k block v d e = rw d (gathered-none k block c.buffers (v.tracked k ∙ ground (arith, e)))

left-none : (k : ℕ) (l : List Buffer) → collecting k l ≡ 0 → left k l ≡ 0
unfolding left collecting
left-none k [] e = refl
left-none k (x ∷ l) e = elim (Bool-cases (collects k x)) [
  | inl hit ↦ absurd (ground (arith, hit))
  | inr miss ↦ ground (arith, miss, left-none k l (ground (arith, miss)))
]

left-at :
    (k : ℕ) (l : List Buffer) (i : ℕ) (b : Buffer)
    → get_elem? l i ≡ some b
    → collects k b ≡ true
    → collecting k l ≡ 1
    → left k l ≡ b.block_count
unfolding left collecting
left-at k [] i b here hit one = absurd (ground arith)
left-at k (x ∷ l) zero b here hit one =
    let same : x ≡ b = ground arith in
    let was : collects k x ≡ true = ap (collects k) same ∙ hit in
    ground (arith, was, left-none k l (ground (arith, was)), same)
left-at k (x ∷ l) (suc i) b here hit one =
    let more : 1 ≤ collecting k l = omega (arith, collecting-at k l i b here, ap one_if hit) in
    let other : collects k x ≡ false = ground (arith, more) in
    ground (arith, other, left-at k l i b here hit (omega (arith, more)))

-- A chunk that is collected misses what its buffer misses.
pub missing-IsCollecting :
    (s : Settings) (c : Client) (k i : ℕ) (b : Buffer)
    → IsClient s c
    → IsCollecting c k i b
    → missing s c k ≡ b.block_count
unfolding missing
missing-IsCollecting s c k i b v h =
    let own = its_chunk s c k i b v h in
    rw (own.0, own.1) (left-at k c.buffers i b h.here (rw (h.live, h.holds) (ground arith)) own.2)

-- What comes of a block of chunk `k`. A block that is not needed is of a chunk that is done, or one
-- that its buffer has, or there is no room: then no buffer is empty, and none is dubious where the
-- block is the first of its chunk. A block that is needed was not received before and is now, and the
-- chunk has one less to receive.
pub data GotOutcome (s : Settings) (k block : ℕ) (c : Client) : Bool × Client → Type 0 where
  done_already : (chunk_at c k).done ≡ true → GotOutcome s k block c (false, c)
  duplicate :
      (i : ℕ) (b : Buffer)
      → IsCollecting c k i b
      → bit_at b.blockmap block ≡ true
      → GotOutcome s k block c (false, c)
  no_buffer :
      (c' : Client)
      → collecting k c.buffers ≡ 0
      → none_in is_empty c.buffers ≡ true
      → (block ≡ 0 → none_in is_dubious c.buffers ≡ true)
      → c'.chunks ≡ c.chunks
      → c'.buffers ≡ c.buffers
      → GotOutcome s k block c (false, c')
  needed :
      (c' : Client)
      → has c k block ≡ false
      → has c' k block ≡ true
      → missing s c' k + 1 ≡ missing s c k
      → GotOutcome s k block c (true, c')

abbrev pub Got : Settings → ℕ → ℕ → Client → Bool × Client → Type 0
Got s k block c r = GotOutcome s k block c r × IsClient s r.1 × IsKept c r.1

pub stored-IsCollecting :
    (s : Settings) (c : Client) (k i block : ℕ) (payload : List ℕ) (b : Buffer)
    → IsCollecting c k i b
    → IsCollecting
        (record c { buffers = set c.buffers i (store s block payload b) })
        k
        i
        (store s block payload b)
unfolding store
stored-IsCollecting s c k i block payload b h = record {
  here =
      get_elem?-set_self c.buffers i (store s block payload b) (get_elem?-lt c.buffers i b h.here);
  live = h.live;
  holds = h.holds;
}

pub missing-done :
    (s : Settings) (c : Client) (k : ℕ) → (chunk_at c k).done ≡ true → missing s c k ≡ 0
unfolding missing
missing-done s c k e = rw e refl

pub missing-new :
    (s : Settings) (c : Client) (k : ℕ)
    → (chunk_at c k).done ≡ false
    → (chunk_at c k).seen ≡ false
    → missing s c k ≡ chunk_size s.sizes k
unfolding missing
missing-new s c k d e = rw (d, e) refl
