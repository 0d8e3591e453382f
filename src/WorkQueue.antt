-- ===== src/WorkQueue.antt =====
-- The work queue of src/frisbee.redux/server.c: `WorkQueueEnqueueJoin`, `WorkQueueEnqueueChunk`,
-- `WorkQueueDequeue`, `ClientEnqueueMap`, `ClientRequest` and `ClientPartialRequest`. Each function
-- holds the queue's lock while it works, so that each is one step here. The queue is the list of its
-- elements, the head first; `calloc` succeeds (the server exits where it fails). Statistics, events
-- and logs are left out, and so is the wait on an empty queue.
pub mod Valid
pub mod Enqueue
pub mod Dequeue
pub mod Request
use frisbee.Base.{
  ℕ, zero, suc, ◌+◌, ◌-◌, ◌%◌, Bool, true, false, ◌&&◌, ◌||◌, not, List, [], ◌∷◌, ◌++◌,
}
use frisbee.Base.{
  if◌then◌else◌, ◌==◌, leb, ltb, Option, some, none, ℤ, pos, negsuc, neg, is_negative,
}
use frisbee.Base.{eq_int, get_or, set, replicate}
use frisbee.BlockMap.{BlockMap, max_chunk_size, map_bytes, init}
use frisbee.BlockMap.Scan.{first, merge, is_alloc, extract}

-- `WQelem_t`. A join reply has the version negated for its chunk and the client for its blocks.
pub record Elem : Type 0 where
  pub chunk : ℤ
  pub nblocks : ℕ
  pub blockmap : BlockMap

-- `WorkQ`, `WorkQSize`, `WorkChunk`, `WorkBlock` and `WorkCount`.
pub record Queue : Type 0 where
  pub elems : List Elem
  pub size : ℕ
  pub work_chunk : ℤ
  pub work_block : ℕ
  pub work_count : ℕ

unfoldable pub enqueue_join : ℕ → ℕ → Queue → Queue
enqueue_join vers clientid q = record q {
  elems =
      record { chunk = neg vers; nblocks = clientid; blockmap = replicate map_bytes 0 } ∷ q.elems;
  size = q.size + 1;
}

-- What is sent now is the head of the queue, and the request reaches into it.
unfoldable pub in_progress : Queue → ℤ → BlockMap → Bool
in_progress q chunk map = eq_int chunk q.work_chunk && ltb (first map) (q.work_block + q.work_count)

-- The merge of a request into an element of its chunk.
unfoldable pub merge_elem : BlockMap → ℕ → Elem → Elem
merge_elem map count e = elim (e.nblocks == max_chunk_size) [
  | true ↦ e
  | false ↦ elim (count == max_chunk_size) [
    | true ↦ record e { blockmap = map; nblocks = e.nblocks + (max_chunk_size - e.nblocks) }
    | false ↦ let r = merge map e.blockmap in record e { blockmap = r.0; nblocks = e.nblocks + r.1 }
  ]
]

-- The search from the tail for an element that the request can be merged into; `is_head` says that
-- the list starts at the head of the queue.
unfoldable pub merge_into : Queue → ℤ → BlockMap → ℕ → Bool → List Elem → Option (List Elem)
merge_into q chunk map count is_head [] = none
merge_into q chunk map count is_head (e ∷ rest) = elim (merge_into q chunk map count false rest) [
  | some rest' ↦ some (e ∷ rest')
  | none ↦
      if eq_int e.chunk chunk && not (is_head && in_progress q chunk map)
      then some (merge_elem map count e ∷ rest)
      else none
]

abbrev pub elem_of : ℤ → ℕ → BlockMap → Elem
elem_of chunk count map = record { chunk = chunk; nblocks = count; blockmap = map }

-- Whether the request was queued, beside the queue.
unfoldable pub enqueue_chunk : ℤ → BlockMap → ℕ → Queue → Bool × Queue
enqueue_chunk chunk map count q =
    if count == 0
    then (false, q)
    else if count == max_chunk_size && eq_int chunk q.work_chunk && count == q.work_count
    then (false, q)
    else elim (merge_into q chunk map count true q.elems) [
      | some elems ↦ (false, record q { elems = elems })
      | none ↦
          (true, record q { elems = q.elems ++ elem_of chunk count map ∷ []; size = q.size + 1 })
    ]

-- What a dequeue hands out: a join reply, or a run of blocks. `block` is `none` where nothing is
-- written through `blockp`.
pub record Work : Type 0 where
  pub chunk : ℤ
  pub block : Option ℕ
  pub count : ℕ

abbrev pub or_zero : Option ℕ → ℕ
or_zero none = 0
or_zero (some b) = b

-- The run taken from the element at the head of the queue, and the element that is left.
unfoldable pub take_run : Elem → Option ℕ × ℕ × Elem
take_run e =
    if e.nblocks == max_chunk_size
    then (some 0, max_chunk_size, record e { nblocks = e.nblocks - max_chunk_size })
    else let x = extract e.blockmap in
      (x.start, x.count, record e { blockmap = x.blocks; nblocks = e.nblocks - x.count })

-- An element with no blocks left is removed.
unfoldable pub put_back : Elem → List Elem → Queue → Queue
put_back e rest q =
    if e.nblocks == 0
    then record q { elems = rest; size = q.size - 1 }
    else record q { elems = e ∷ rest }

unfoldable pub dequeue : Queue → Option Work × Queue
dequeue q = elim q.elems [
  | [] ↦ (none, record q { work_chunk = negsuc 0 })
  | e ∷ rest ↦ elim (is_negative e.chunk) [
    | true ↦ (
      some (record { chunk = e.chunk; block = none; count = e.nblocks }),
      record q { elems = rest; size = q.size - 1 },
    )
    | false ↦
        let t = take_run e in
        (
          some (record { chunk = e.chunk; block = t.0; count = t.1 }),
          record (put_back t.2 rest q) {
            work_chunk = e.chunk;
            work_block = or_zero t.0;
            work_count = t.1;
          },
        )
  ]
]

-- The server around the queue: `blockslost`, `clientretries` and `lostmap`, none where that is not
-- allocated; its entries are bytes.
pub record Server : Type 0 where
  pub queue : Queue
  pub blocks_lost : ℕ
  pub client_retries : ℕ
  pub lost_map : Option (List ℕ)

abbrev pub count_lost : Bool → ℕ → Option (List ℕ) → Option (List ℕ)
count_lost true chunk (some m) = some (set m chunk ((get_or m chunk 0 + 1) % 256))
count_lost _ chunk m = m

-- `ClientEnqueueMap`; the packet check has bounded the chunk.
unfoldable pub client_enqueue_map : ℕ → BlockMap → ℕ → Bool → Server → Server
client_enqueue_map chunk map count is_retry s =
    let r = enqueue_chunk (pos chunk) map count s.queue in
    record {
      queue = r.1;
      blocks_lost = if count == max_chunk_size then s.blocks_lost else s.blocks_lost + count;
      client_retries = if is_retry then s.client_retries + 1 else s.client_retries;
      lost_map = count_lost (is_retry && r.0) chunk s.lost_map;
    }

-- `ClientRequest`, for fields that are not negative.
unfoldable pub client_request : ℕ → ℕ → ℕ → Server → Server
client_request chunk block count s =
    if leb max_chunk_size block
      || count == 0
      || ltb max_chunk_size count
      || ltb max_chunk_size (block + count)
    then s
    else client_enqueue_map chunk (init block count) count false s

-- `ClientPartialRequest`; `retries` counts the client's earlier requests.
unfoldable pub client_partial_request : ℕ → BlockMap → ℕ → Server → Server
client_partial_request chunk map retries s =
    let count = is_alloc map 0 max_chunk_size in
    if count == 0 then s else client_enqueue_map chunk map count (ltb 0 retries) s
