-- ===== src/Client/Asks.antt =====
-- What the client asks for, and when it asks again: `RequestMissing`, `RequestRedoTime`, and the list
-- of chunks to ask for.
use frisbee.Base.{
  ℕ, zero, suc, ◌+◌, ◌-◌, ◌%◌, ◌^◌, ◌<◌, ◌≤◌, ◌≡◌, ◌≢◌, Bool, false, not, ◌&&◌, List, [], ◌∷◌, ◌++◌,
}
use frisbee.Base.{
  arith, refl, ap, ◌∙◌, ◌==◌, ltb, leb, if◌then◌else◌, get_or, set, length, get_or-set, length-set,
  Option, some, none, Bool-cases, inl, inr,
}
use native.Mathlib.Nat.{mod-lt}
use frisbee.BlockMap.{BlockMap, max_chunk_size, invert}
use frisbee.BlockMap.Bits.{bit_at, IsMap}
use frisbee.BlockMap.Update.{bit_at-invert, bit_at-clear, invert-IsMap}
use frisbee.Sizes.{chunk_size}
use frisbee.Client.{
  Settings, Buffer, Client, ask_partial, chunk_at, find_active, promote, stamp_partial,
  request_stamp, redo_time, missing_map, requested, request_missing, send,
}
use frisbee.Client.Valid.{one_if}
use frisbee.Client.Insert.{IsSettings, chunk_size_bounds}
use frisbee.Client.Steps.{count_of}
use frisbee.Client.Threads.{numbered, shuffle, startup}

-- The map of what is missing: the blocks of the chunk that are not in the map.
bit_at-missing_map :
    (size : ℕ) (map : BlockMap) (x : ℕ)
    → IsMap map
    → size ≤ max_chunk_size
    → x < max_chunk_size
    → bit_at (missing_map size map) x ≡ (ltb x size && not (bit_at map x))
unfolding missing_map
bit_at-missing_map size map x h le small = elim (Bool-cases (ltb size max_chunk_size)) [
  | inl part ↦
      rw (part, missing_map)
        (bit_at-clear (invert map) size (max_chunk_size - size) x (invert-IsMap map h) (omega arith)
          ∙ ground (arith, bit_at-invert map x h small))
  | inr all ↦ rw (all, missing_map) (ground (arith, bit_at-invert map x h small))
]

promote-sent : (i : ℕ) (b : Buffer) (c : Client) → (promote i b c).sent ≡ c.sent
unfolding promote
promote-sent i b c = ground arith

stamp_partial-sent :
    (now : ℕ) (got : Bool) (k block count : ℕ) (o : Option (ℕ × Buffer)) (c : Client)
    → (stamp_partial now got k block count o c).1.sent ≡ c.sent
unfolding stamp_partial
stamp_partial-sent now got k block count none c = refl
stamp_partial-sent now got k block count (some (i, b)) c = ground (arith, promote-sent i b c)

request_stamp-sent :
    (s : Settings) (now : ℕ) (got : Bool) (k block count : ℕ) (c : Client)
    → (request_stamp s now got k block count c).1.sent ≡ c.sent
unfolding request_stamp
request_stamp-sent s now got k block count c =
    ground (arith, stamp_partial-sent now got k block count (find_active k 0 c.buffers) c)

-- The request for the rest of a chunk is one packet more, whose map has the blocks of the chunk that
-- are not in the map given, and no other.
pub request_missing_lem :
    (s : Settings) (now k : ℕ) (map : BlockMap) (c : Client)
    → IsSettings s
    → IsMap map
    → (asked : BlockMap) × ((request_missing s now k map c).sent
        ≡ c.sent ++ ask_partial k (chunk_at c k).ours asked ∷ [])
      × ((x : ℕ)
          → x < max_chunk_size
          → bit_at asked x ≡ (ltb x (chunk_size s.sizes k) && not (bit_at map x)))
unfolding request_missing requested
request_missing_lem s now k map c ok h =
    let size = chunk_size s.sizes k in
    let p = ask_partial k (chunk_at c k).ours (missing_map size map) in
    (
      missing_map size map,
      request_stamp-sent s now false k 0 size (send c p),
      λ x l. bit_at-missing_map size map x h (chunk_size_bounds s k ok).1 l,
    )

-- A chunk that was asked for at some time, with a delay set: it is due again exactly from the delay
-- on while the age is below 2^31 microseconds. From there to 2^32 it is not due.
pub redo_time_lem :
    (s : Settings) (now k : ℕ) (c : Client)
    → (chunk_at c k).lastreq ≢ 0
    → s.redo_delay ≢ 0
    → (chunk_at c k).lastreq ≤ now
    → now < 2 ^ 64
    → (now - (chunk_at c k).lastreq < 2 ^ 31
        → redo_time s now k c ≡ leb s.redo_delay (now - (chunk_at c k).lastreq))
      × (2 ^ 31 ≤ now - (chunk_at c k).lastreq
          → now - (chunk_at c k).lastreq < 2 ^ 32
          → redo_time s now k c ≡ false)
unfolding redo_time
redo_time_lem s now k c asked delay past small = (λ young. ground arith, λ old young. ground arith)

count_of-set :
    (k : ℕ) (l : List ℕ) (i v : ℕ)
    → i < length l
    → count_of k (set l i v) + one_if (get_or l i 0 == k) ≡ count_of k l + one_if (v == k)
unfolding count_of
count_of-set k [] i v h = absurd (omega arith)
count_of-set k (x ∷ l) zero v h = omega arith
count_of-set k (x ∷ l) (suc i) v h = omega (arith, count_of-set k l i v (omega arith))

-- An exchange of two entries.
count_of-exchange :
    (k : ℕ) (l : List ℕ) (i j : ℕ)
    → i < length l
    → j < length l
    → count_of k (set (set l j (get_or l i 0)) i (get_or l j 0)) ≡ count_of k l
count_of-exchange k l i j hi hj =
    let a = get_or l i 0 in
    let same : get_or (set l j a) i 0 ≡ a = ground (arith, get_or-set l j i a 0) in
    ground (
      arith,
      same,
      count_of-set k (set l j a) i (get_or l j 0) (rw (length-set l j a) hi),
      count_of-set k l j a hj,
    )

count_of-shuffle :
    (n k : ℕ) (randoms : List (ℕ × ℕ)) (l : List ℕ)
    → 0 < n
    → length l ≡ n
    → count_of k (shuffle n randoms l) ≡ count_of k l
unfolding shuffle
count_of-shuffle n k [] l pos e = refl
count_of-shuffle n k ((r1, r2) ∷ rest) l pos e =
    let l' = set (set l (r2 % n) (get_or l (r1 % n) 0)) (r1 % n) (get_or l (r2 % n) 0) in
    let len : length l' ≡ n =
      length-set (set l (r2 % n) (get_or l (r1 % n) 0)) (r1 % n) (get_or l (r2 % n) 0)
      ∙ length-set l (r2 % n) (get_or l (r1 % n) 0)
      ∙ e in
    count_of-shuffle n k rest l' pos len
    ∙ count_of-exchange k l (r1 % n) (r2 % n) (rw e (mod-lt r1 pos)) (rw e (mod-lt r2 pos))

count_of-numbered :
    (k i n : ℕ) → count_of k (numbered i n) ≡ (if leb i k && ltb k (i + n) then 1 else 0)
unfolding numbered count_of
count_of-numbered k i zero = ground arith
count_of-numbered k i (suc n) = ground (arith, count_of-numbered k (i + 1) n)

length-numbered : (i n : ℕ) → length (numbered i n) ≡ n
unfolding numbered
length-numbered i zero = refl
length-numbered i (suc n) = ap suc (length-numbered (i + 1) n)

-- The list of requests of an image with some chunk has each of its chunks once, whatever the random
-- numbers.
pub request_list_lem :
    (n k : ℕ) (randoms : List (ℕ × ℕ)) (raw : List Buffer)
    → 0 < n
    → count_of k (startup n randoms raw).request_list ≡ (if ltb k n then 1 else 0)
unfolding startup
request_list_lem n k randoms raw pos =
    count_of-shuffle n k randoms (numbered 0 n) pos (length-numbered 0 n)
    ∙ count_of-numbered k 0 n
    ∙ ground arith
