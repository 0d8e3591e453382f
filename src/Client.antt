-- ===== src/Client.antt =====
-- The chunk buffers of the client, src/frisbee.redux/client.c: the descriptors `Chunks`, the cache
-- `ChunkBuffer`, and the functions that ask for blocks: `RequestStamp`, `RequestRedoTime`,
-- `RequestMissing`, `RequestRange`, `RequestChunk`. The build is the one without `PASSIVE`,
-- `OLD_SCHOOL`, `STATS` and `TRACE_EVENTS`. The packets sent are a log. A step of a
-- thread finds one time of day, however often it asks; in microseconds, it is the argument `now`. Numbers of chunks
-- and buffers are those that the packet check and the loops bound.
pub mod Receive
pub mod Valid
pub mod Requests
pub mod Rounds
pub mod Insert
pub mod Turns
pub mod Search
pub mod Kept
pub mod Outcome
pub mod Got
pub mod Slots
pub mod Write
pub mod Threads
pub mod Steps
pub mod Begin
pub mod Reach
pub mod Finish
pub mod Asks
pub mod Loop
pub mod Pace
use frisbee.Base.{
  ℕ, zero, suc, ◌+◌, ◌-◌, ◌%◌, ◌^◌, Bool, true, false, ◌&&◌, ◌||◌, not, List, [], ◌∷◌, ◌++◌,
}
use frisbee.Base.{
  if◌then◌else◌, ◌==◌, leb, ltb, get_elem?, get_or, set, length, replicate, Option, some, none,
  sub64,
}
use frisbee.BlockMap.{BlockMap, max_chunk_size, map_bytes, clear, invert}
use frisbee.BlockMap.Scan.{is_alloc}
use frisbee.Sizes.{Sizes, chunk_size}

-- `Chunk_t`
pub record Chunk : Type 0 where
  pub lastreq : ℕ
  pub ours : Bool
  pub seen : Bool
  pub done : Bool

abbrev pub blank : Chunk
blank = record { lastreq = 0; ours = false; seen = false; done = false }

pub data BufState : Type 0 where
  empty filling full dubious : BufState

-- `ChunkBuffer_t`
pub record Buffer : Type 0 where
  pub this_chunk : ℕ
  pub state : BufState
  pub block_count : ℕ
  pub blockmap : BlockMap
  pub blocks : List (List ℕ)

-- `msg.request`, and `msg.prequest`, whose retries are the bit `ours`.
pub data Request : Type 0 where
  ask_range : ℕ → ℕ → ℕ → Request
  ask_partial : ℕ → Bool → BlockMap → Request

-- The image's sizes, `redodelay`, `maxinprogress` and `maxreadahead`.
pub record Settings : Type 0 where
  pub sizes : Sizes
  pub redo_delay : ℕ
  pub max_in_progress : ℕ
  pub max_read_ahead : ℕ

-- The file's variables, with the static ones of `GotBlock`; `none` is the chunk -1.
pub record Client : Type 0 where
  pub chunks : List Chunk
  pub buffers : List Buffer
  pub request_list : List ℕ
  pub no_room_chunk : Option ℕ
  pub no_room_blocks : ℕ
  pub in_progress : ℕ
  pub received : ℕ
  pub sent : List Request

abbrev pub chunk_at : Client → ℕ → Chunk
chunk_at c k = get_or c.chunks k blank

abbrev pub put_chunk : Client → ℕ → Chunk → Client
put_chunk c k ch = record c { chunks = set c.chunks k ch }

abbrev pub send : Client → Request → Client
send c p = record c { sent = c.sent ++ p ∷ [] }

abbrev pub is_active : BufState → Bool
is_active filling = true
is_active dubious = true
is_active empty = false
is_active full = false

abbrev pub is_dubious : BufState → Bool
is_dubious dubious = true
is_dubious empty = false
is_dubious filling = false
is_dubious full = false

abbrev pub is_full : BufState → Bool
is_full full = true
is_full empty = false
is_full filling = false
is_full dubious = false

-- The buffer that the chunk is collected in, from buffer `i` on.
unfoldable pub find_active : ℕ → ℕ → List Buffer → Option (ℕ × Buffer)
find_active k i [] = none
find_active k i (b ∷ rest) =
    if b.this_chunk == k && is_active b.state then some (i, b) else find_active k (i + 1) rest

-- `lastreq` has 61 bits.
abbrev pub stamp : ℕ → ℕ → Client → Client
stamp now k c = put_chunk c k (record (chunk_at c k) { lastreq = now % 2 ^ 61 })

-- A dubious buffer becomes one that is filling.
unfoldable pub promote : ℕ → Buffer → Client → Client
promote i b c =
    if is_dubious b.state
    then record c { buffers = set c.buffers i (record b { state = filling }) }
    else c

-- A request for part of a chunk that is being collected; `got` is the last argument of the code.
unfoldable pub stamp_partial : ℕ → Bool → ℕ → ℕ → ℕ → Option (ℕ × Buffer) → Client → Bool × Client
stamp_partial now got k block count none c = (false, c)
stamp_partial now got k block count (some (i, b)) c =
    if is_alloc b.blockmap block count == count
    then (false, c)
    else (true, stamp now k (if got then c else promote i b c))

unfoldable pub request_stamp : Settings → ℕ → Bool → ℕ → ℕ → ℕ → Client → Bool × Client
request_stamp s now got k block count c =
    let ch = chunk_at c k in
    if s.redo_delay == 0 || ch.done
    then (false, c)
    else if block == 0 && count == chunk_size s.sizes k || not ch.seen
    then (true, stamp now k c)
    else stamp_partial now got k block count (find_active k 0 c.buffers) c

-- `(int)(curtime - lastreq) >= redodelay`: the low 32 bits of the age, as a signed number.
unfoldable pub redo_time : Settings → ℕ → ℕ → Client → Bool
redo_time s now k c =
    let last = (chunk_at c k).lastreq in
    let age = sub64 now last % 2 ^ 32 in
    last == 0 || s.redo_delay == 0 || ltb age (2 ^ 31) && leb s.redo_delay age

-- What is missing of a chunk of `size` blocks.
unfoldable pub missing_map : ℕ → BlockMap → BlockMap
missing_map size map =
    if ltb size max_chunk_size then clear (invert map) size (max_chunk_size - size) else invert map

-- The last steps of a request: the stamp, and `ours`.
unfoldable pub requested : Settings → ℕ → ℕ → ℕ → ℕ → Client → Client
requested s now k block count c =
    let c' = (request_stamp s now false k block count c).1 in
    put_chunk c' k (record (chunk_at c' k) { ours = true })

unfoldable pub request_missing : Settings → ℕ → ℕ → BlockMap → Client → Client
request_missing s now k map c =
    let size = chunk_size s.sizes k in
    requested s now k 0 size (send c (ask_partial k (chunk_at c k).ours (missing_map size map)))

unfoldable pub request_range : Settings → ℕ → ℕ → ℕ → ℕ → Client → Client
request_range s now k block count c =
    if (chunk_at c k).ours
    then request_missing s now k
        (if block == 0 && count == chunk_size s.sizes k
          then replicate map_bytes 0
          else clear (replicate map_bytes 255) block count)
        c
    else requested s now k block count (send c (ask_range k block count))

-- The first loop of `RequestChunk`, with its counts of buffers.
pub record Tally : Type 0 where
  pub client : Client
  pub empty_bufs : ℕ
  pub filling_bufs : ℕ

abbrev pub promote_at : ℕ → Option Buffer → Client → Client
promote_at i none c = c
promote_at i (some b) c = promote i b c

unfoldable pub request_unfinished : Settings → ℕ → Bool → ℕ → Buffer → Client → Client
request_unfinished s now timed_out i b c =
    if timed_out || redo_time s now b.this_chunk c
    then (let c' = request_missing s now b.this_chunk b.blockmap c in
        promote_at i (get_elem? c'.buffers i) c')
    else c

unfoldable pub visit : Settings → ℕ → Bool → ℕ → Option Buffer → Tally → Tally
visit s now timed_out i none t = t
visit s now timed_out i (some b) t = elim b.state [
  | empty ↦ record t { empty_bufs = t.empty_bufs + 1 }
  | full ↦ t
  | _ ↦ record t {
    client = request_unfinished s now timed_out i b t.client;
    filling_bufs = t.filling_bufs + 1;
  }
]

unfoldable pub visit_from : Settings → ℕ → Bool → ℕ → ℕ → Tally → Tally
visit_from s now timed_out zero i t = t
visit_from s now timed_out (suc rounds) i t =
    visit_from s now timed_out rounds (i + 1)
      (visit s now timed_out i (get_elem? t.client.buffers i) t)

-- The read-ahead loop, with `most` requests to make and `j` made.
unfoldable pub read_ahead : Settings → ℕ → Bool → ℕ → ℕ → List ℕ → Client → Client
read_ahead s now timed_out most j [] c = c
read_ahead s now timed_out most j (k ∷ rest) c = elim (ltb j most) [
  | false ↦ c
  | true ↦ elim (chunk_at c k).seen [
    | true ↦ read_ahead s now timed_out most j rest c
    | false ↦ read_ahead s now timed_out most (j + 1) rest (
        if timed_out || redo_time s now k c
        then request_range s now k 0 (chunk_size s.sizes k) c
        else c)
  ]
]

abbrev pub at_most : ℕ → ℕ → ℕ
at_most a b = if ltb b a then b else a

unfoldable pub request_chunk : Settings → ℕ → Bool → Client → Client
request_chunk s now timed_out c =
    let t =
      visit_from s now timed_out (length c.buffers) 0
        (record { client = c; empty_bufs = 0; filling_bufs = 0 }) in
    if t.empty_bufs == 0 || leb s.max_in_progress t.filling_bufs
    then t.client
    else read_ahead s now timed_out (at_most s.max_read_ahead t.empty_bufs) 0 t.client.request_list
        t.client
