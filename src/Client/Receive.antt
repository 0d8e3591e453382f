-- ===== src/Client/Receive.antt =====
-- The client takes a block in: `GotBlock` of src/frisbee.redux/client.c; and writes a chunk out: the
-- loop of `ChunkerStartup`, which looks for a full buffer and frees it after the write. Which message
-- takes a block in is said by `receive` in Client/Threads.antt. The numbers of the chunks written are
-- logged; the bytes written, the wait for a buffer, the exit on an error of the child, and the count
-- of bytes to decompress are left out.
use frisbee.Base.{ℕ, ◌+◌, ◌-◌, Bool, true, false, List, [], ◌∷◌, Option, some, none}
use frisbee.Base.{if◌then◌else◌, ◌==◌, get_elem?, set, take, replicate}
use frisbee.BlockMap.{map_bytes, alloc}
use frisbee.Sizes.{chunk_size, block_size}
use frisbee.Client.{
  Settings, Buffer, Client, BufState, empty, filling, full, dubious, is_full, chunk_at,
  request_chunk,
}

-- What the search of the cache stops at: the buffer of the chunk, or its end, with the first empty
-- and the first dubious buffer on the way.
pub data Slot : Type 0 where
  taken : ℕ → Buffer → Slot
  absent : Option ℕ → Option (ℕ × Buffer) → Slot

abbrev pub or_first : {A : Type 0} → Option A → A → Option A
or_first none a = some a
or_first (some b) a = some b

unfoldable pub scan_buffers : ℕ → ℕ → Option ℕ → Option (ℕ × Buffer) → List Buffer → Slot
scan_buffers k i free dub [] = absent free dub
scan_buffers k i free dub (b ∷ rest) = elim b.state [
  | full ↦ scan_buffers k (i + 1) free dub rest
  | empty ↦ scan_buffers k (i + 1) (or_first free i) dub rest
  | filling ↦ elim (b.this_chunk == k) [
    | true ↦ taken i b
    | false ↦ scan_buffers k (i + 1) free dub rest
  ]
  | dubious ↦ elim (b.this_chunk == k) [
    | true ↦ taken i b
    | false ↦ scan_buffers k (i + 1) free (or_first dub (i, b)) rest
  ]
]

-- `chunk == lastnoroomchunk`
abbrev pub is_chunk : ℕ → Option ℕ → Bool
is_chunk k none = false
is_chunk k (some j) = j == k

-- No buffer for the block.
unfoldable pub no_room : ℕ → Client → Client
no_room k c =
    if is_chunk k c.no_room_chunk
    then record c { no_room_blocks = c.no_room_blocks + 1 }
    else record c { no_room_chunk = some k; no_room_blocks = 1 }

-- The dubious buffer is emptied, and its chunk not seen.
unfoldable pub toss : ℕ → Buffer → Client → Client
toss d b c =
    let ch = chunk_at c b.this_chunk in
    record c {
      chunks = set c.chunks b.this_chunk (record ch { seen = false; lastreq = 0 });
      buffers = set c.buffers d (record b { state = empty });
      no_room_chunk = none;
      in_progress = c.in_progress - 1;
    }

-- The new buffer of a chunk.
abbrev pub fresh : Settings → ℕ → BufState → Buffer → Buffer
fresh s k state b = record b {
  this_chunk = k;
  state = state;
  block_count = chunk_size s.sizes k;
  blockmap = replicate map_bytes 0;
}

abbrev pub start_state : ℕ → Client → BufState
start_state k c = if is_chunk k c.no_room_chunk then dubious else filling

unfoldable pub start : Settings → ℕ → ℕ → Buffer → Client → Client
start s k i b c = record c {
  chunks = set c.chunks k (record (chunk_at c k) { seen = true });
  buffers = set c.buffers i (fresh s k (start_state k c) b);
  no_room_chunk = none;
  no_room_blocks = 0;
  in_progress = c.in_progress + 1;
}

-- The last step for a chunk that has all its blocks, before the next request.
unfoldable pub complete : ℕ → ℕ → Buffer → Client → Client
complete k i b c = record c {
  chunks = set c.chunks k (record (chunk_at c k) { done = true });
  buffers = set c.buffers i (record b { state = full });
  in_progress = c.in_progress - 1;
  received = c.received + 1;
}

-- The buffer with the block in it.
unfoldable pub store : Settings → ℕ → List ℕ → Buffer → Buffer
store s block payload b = record b {
  block_count = b.block_count - 1;
  blockmap = (alloc b.blockmap block).0;
  blocks = set b.blocks block (take (block_size s.sizes b.this_chunk block) payload);
}

-- The second half of `GotBlock`, on the buffer of the chunk.
unfoldable pub insert : Settings → ℕ → ℕ → ℕ → List ℕ → ℕ → Buffer → Client → Bool × Client
insert s now k block payload i b c =
    let b' = store s block payload b in
    if (alloc b.blockmap block).1 == 0
    then if b'.block_count == 0
      then (true, request_chunk s now false (complete k i b' c))
      else (true, record c { buffers = set c.buffers i b' })
    else (false, c)

-- A block of a chunk for which a free buffer was found.
abbrev pub insert_new : Settings → ℕ → ℕ → ℕ → List ℕ → ℕ → Option Buffer → Client → Bool × Client
insert_new s now k block payload i none c = (false, c)
insert_new s now k block payload i (some b) c =
    insert s now k block payload i (fresh s k (start_state k c) b) (start s k i b c)

unfoldable pub at_slot : Settings → ℕ → ℕ → ℕ → List ℕ → Slot → Client → Bool × Client
at_slot s now k block payload (taken i b) c = insert s now k block payload i b c
at_slot s now k block payload (absent (some i) dub) c =
    insert_new s now k block payload i (get_elem? c.buffers i) c
at_slot s now k block payload (absent none none) c = (false, no_room k c)
at_slot s now k block payload (absent none (some (d, b))) c =
    if block == 0
    then insert_new s now k block payload d (some (record b { state = empty })) (toss d b c)
    else (false, no_room k c)

-- The result is whether the block was needed.
unfoldable pub got_block : Settings → ℕ → ℕ → ℕ → List ℕ → Client → Bool × Client
got_block s now k block payload c =
    if (chunk_at c k).done
    then (false, c)
    else at_slot s now k block payload (scan_buffers k 0 none none c.buffers) c

-- The first full buffer is written and freed; `none` where there is none.
unfoldable pub write_from : List Buffer → Option (ℕ × List Buffer)
write_from [] = none
write_from (b ∷ rest) = elim (is_full b.state) [
  | true ↦ some (b.this_chunk, record b { state = empty } ∷ rest)
  | false ↦ elim (write_from rest) [ none ↦ none | some (k, rest') ↦ some (k, b ∷ rest') ]
]

unfoldable pub write_chunk : Client → Option (ℕ × Client)
write_chunk c = elim (write_from c.buffers) [
  | none ↦ none
  | some (k, bufs) ↦ some (k, record c { buffers = bufs })
]
