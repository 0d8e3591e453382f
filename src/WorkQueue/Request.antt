-- ===== src/WorkQueue/Request.antt =====
-- `ClientRequest` and `ClientPartialRequest` of src/frisbee.redux/server.c: what they enqueue.
use frisbee.Base.{
  ℕ, ◌+◌, ◌≤◌, ◌<◌, ◌≡◌, Bool, true, false, ◌||◌, sym, ◌∙◌, refl, arith, ltb, leb, ◌==◌, pos,
}
use frisbee.Base.{if◌then◌else◌, pos-is_negative}
use frisbee.BlockMap.{BlockMap, max_chunk_size, init}
use frisbee.BlockMap.Bits.{bit_at, in_range, IsMap, count_if_ext, blocks_in}
use frisbee.BlockMap.Update.{bit_at-init, init-IsMap}
use frisbee.BlockMap.Scan.Count.{is_alloc_lem}
use frisbee.WorkQueue.{
  Server, enqueue_chunk, client_enqueue_map, client_request, client_partial_request,
}
use frisbee.WorkQueue.Valid.{IsQueue, count_if-in_range}
use frisbee.WorkQueue.Enqueue.{IsRequest, IsEnqueue, enqueue_chunk-IsEnqueue}

pub init-IsRequest :
    (chunk block count : ℕ)
    → block + count ≤ max_chunk_size
    → IsRequest (pos chunk) (init block count) count
init-IsRequest chunk block count h = record {
  in_image = pos-is_negative chunk;
  shape = init-IsMap block count;
  counted = sym (
      count_if_ext (bit_at (init block count)) (in_range block count) 0 max_chunk_size
        (λ b lo hi. bit_at-init block count b (omega arith) h)
      ∙ count_if-in_range block count h);
}

-- What a request packet leaves: the queue is what enqueueing its map makes of it.
pub record IsServed (s s' : Server) (chunk : ℕ) (map : BlockMap) (count : ℕ) : Type 0 where
  pub queued : IsEnqueue s.queue (pos chunk) map count (enqueue_chunk (pos chunk) map count s.queue)
  pub queue : s'.queue ≡ (enqueue_chunk (pos chunk) map count s.queue).1
  pub lost : s'.blocks_lost ≡ s.blocks_lost + (if count == max_chunk_size then 0 else count)

client_enqueue_map-IsServed :
    (chunk : ℕ) (map : BlockMap) (count : ℕ) (is_retry : Bool) (s : Server)
    → IsQueue s.queue
    → IsRequest (pos chunk) map count
    → 0 < count
    → IsServed s (client_enqueue_map chunk map count is_retry s) chunk map count
unfolding client_enqueue_map
client_enqueue_map-IsServed chunk map count is_retry s h r p = record {
  queued = enqueue_chunk-IsEnqueue s.queue (pos chunk) map count h r p;
  queue = refl;
  lost = ground arith;
}

-- A request for a range of blocks inside the chunk enqueues a map of exactly these blocks, with the
-- queue well-formed, and counts them as lost unless they are the whole chunk.
pub client_request-IsServed :
    (chunk block count : ℕ) (s : Server)
    → IsQueue s.queue
    → 0 < count
    → block + count ≤ max_chunk_size
    → (map : BlockMap) × ((b : ℕ) → b < max_chunk_size → bit_at map b ≡ in_range block count b)
      × IsServed s (client_request chunk block count s) chunk map count
unfolding client_request
client_request-IsServed chunk block count s h p fits =
    let pass : leb max_chunk_size block
          || count == 0
          || ltb max_chunk_size count
          || ltb max_chunk_size (block + count)
        ≡ false =
      ground arith in
    (
      init block count,
      (λ b l. bit_at-init block count b l fits),
      rw (pass, client_request)
          (client_enqueue_map-IsServed chunk (init block count) count false s h
            (init-IsRequest chunk block count fits) p),
    )

-- A partial request with a map of some blocks enqueues exactly these blocks, with the queue
-- well-formed; one with an empty map changes nothing.
pub client_partial_request-IsServed :
    (chunk : ℕ) (map : BlockMap) (retries : ℕ) (s : Server)
    → IsQueue s.queue
    → IsMap map
    → (0 < blocks_in map 0 max_chunk_size
        → IsServed s
            (client_partial_request chunk map retries s)
            chunk
            map
            (blocks_in map 0 max_chunk_size))
      × (blocks_in map 0 max_chunk_size ≡ 0 → client_partial_request chunk map retries s ≡ s)
unfolding client_partial_request
client_partial_request-IsServed chunk map retries s h m =
    let count = blocks_in map 0 max_chunk_size in
    (
      (λ p.
          let n : (count == 0) ≡ false = ground arith in
          rw (is_alloc_lem map 0 max_chunk_size, n)
            (client_enqueue_map-IsServed chunk map count (ltb 0 retries) s h
              (record { in_image = pos-is_negative chunk; shape = m; counted = refl }) p)),
      (λ z.
          let n : (count == 0) ≡ true = ground arith in rw (is_alloc_lem map 0 max_chunk_size, n)),
    )
