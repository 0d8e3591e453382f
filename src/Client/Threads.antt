-- ===== src/Client/Threads.antt =====
-- The client's two threads, src/frisbee.redux/client.c: `ChunkerStartup`, which sets the client up and
-- writes chunks until it has written all, and `ClientRecvThread`, which takes packets in. A step of one
-- is taken at a time. Random numbers are arguments. The packets have passed the packet check, and
-- blocks come from the server. Of a chunk that is written the number is kept; its bytes, the writes to
-- the disk and the exit where the receive thread has failed (`child_error`) are left out.
use frisbee.Base.{ℕ, zero, suc, ◌+◌, ◌%◌, ◌<◌, Bool, true, false, List, [], ◌∷◌, some, none}
use frisbee.Base.{get_or, set, map, length, replicate}
use frisbee.BlockMap.{BlockMap}
use frisbee.BlockMap.Bits.{IsMap}
use frisbee.BlockMap.Scan.{apply}
use frisbee.Sizes.{chunk_size}
use frisbee.Client.{Settings, Buffer, Client, empty, blank, request_stamp, request_chunk}
use frisbee.Client.Receive.{got_block, write_chunk}

-- `ChunkRequestList[i] = i`
unfoldable pub numbered : ℕ → ℕ → List ℕ
numbered i zero = []
numbered i (suc n) = i ∷ numbered (i + 1) n

-- The random exchanges of entries, one for each pair of random numbers.
unfoldable pub shuffle : ℕ → List (ℕ × ℕ) → List ℕ → List ℕ
shuffle n [] l = l
shuffle n ((r1, r2) ∷ rest) l =
    let c1 = r1 % n in
    let c2 = r2 % n in shuffle n rest (set (set l c2 (get_or l c1 0)) c1 (get_or l c2 0))

abbrev pub emptied : Buffer → Buffer
emptied b = record b { state = empty }

-- The client before its first step; `raw` is the memory of the buffers.
unfoldable pub startup : ℕ → List (ℕ × ℕ) → List Buffer → Client
startup n randoms raw = record {
  chunks = replicate n blank;
  buffers = map emptied raw;
  request_list = shuffle n randoms (numbered 0 n);
  no_room_chunk = none;
  no_room_blocks = 0;
  in_progress = 0;
  received = 0;
  sent = [];
}

pub data Event : Type 0 where
  -- A block from the server.
  block_message : ℕ → ℕ → List ℕ → Event
  -- The requests of another client, for a range and for the blocks of a map.
  request_message : ℕ → ℕ → ℕ → Event
  prequest_message : ℕ → BlockMap → Event

-- A message is handled; the result beside the client is whether the idle counter starts again.
unfoldable pub receive : Settings → ℕ → Event → Client → Bool × Client
receive s now (block_message k block payload) c =
    let r = got_block s now k block payload c in (r.0, (request_stamp s now true k block 1 r.1).1)
receive s now (request_message k block count) c = request_stamp s now false k block count c
receive s now (prequest_message k map) c =
    (false, (apply (some (request_stamp s now false)) k map c).1)

-- The client, with the chunks written so far and the number of those to come, `chunkcount`.
pub record World : Type 0 where
  pub client : Client
  pub written : List ℕ
  pub to_write : ℕ

abbrev pub begin : ℕ → List (ℕ × ℕ) → List Buffer → World
begin n randoms raw = record { client = startup n randoms raw; written = []; to_write = n }

-- A round of the main loop: the world stays as it is while there is nothing to write.
unfoldable pub write_round : World → World
write_round w = elim w.to_write [
  | zero ↦ w
  | suc left ↦ elim (write_chunk w.client) [
    | none ↦ w
    | some (k, c) ↦ record { client = c; written = k ∷ w.written; to_write = left }
  ]
]

-- A block is one of its chunk; a map is one of the chunk's size.
abbrev pub IsEvent : Settings → Client → Event → Type 0
IsEvent s c (block_message k block payload) = (k < length c.chunks) × (block < chunk_size s.sizes k)
IsEvent s c (request_message k block count) = Unit {0}
IsEvent s c (prequest_message k map) = IsMap map

-- A step of one of the threads.
pub data Step (s : Settings) : World → World → Type 0 where
  receives :
      (now : ℕ) (e : Event) (w : World)
      → IsEvent s w.client e
      → Step s w (record w { client = (receive s now e w.client).1 })
  times_out :
      (now : ℕ) (w : World) → Step s w (record w { client = request_chunk s now true w.client })
  writes : (w : World) → Step s w (write_round w)

pub data Reach (s : Settings) : World → World → Type 0 where
  stay : (w : World) → Reach s w w
  after : (w w' w'' : World) → Reach s w w' → Step s w' w'' → Reach s w w''
