-- ===== src/Client/Got.antt =====
-- A block for the buffer that collects its chunk: the second half of `GotBlock`.
use frisbee.Base.{ℕ, ◌-◌, ◌<◌, ◌≡◌, true, false, List, ◌∙◌}
use frisbee.Base.{
  arith, refl, sym, ap, subst, ◌==◌, set, Bool-cases, ◌⊎◌, ◌≢◌, inl, inr, get_or-set,
}
use frisbee.BlockMap.{alloc, max_chunk_size}
use frisbee.BlockMap.Bits.{bit_at}
use frisbee.BlockMap.Update.{alloc_lem}
use frisbee.Sizes.{chunk_size}
use frisbee.Client.{Settings, Buffer, Client, blank, chunk_at, request_chunk}
use frisbee.Client.Valid.{
  IsClient, IsAsking-IsClient, IsKept-trans, IsKept-same, IsAsking-IsKept, AllBuffers-at,
}
use frisbee.Client.Rounds.{request_chunk-IsAsking}
use frisbee.Client.Insert.{IsSettings, chunk_size_bounds}
use frisbee.Client.Turns.{
  IsCollecting, its_descriptor, stored_left, stored-IsClient, complete-IsClient,
}
use frisbee.Client.Kept.{complete-IsKept, stored-IsKept}
use frisbee.Client.Receive.{insert, store, complete}
use frisbee.Client.Outcome.{
  Got, duplicate, needed, missing, missing-IsCollecting, missing-done, has, has-IsCollecting,
  stored-IsCollecting,
}

-- A block for the buffer that collects its chunk.
module _ (s : Settings) (ok : IsSettings s) (now : ℕ) (c : Client) (k i block : ℕ)
    (payload : List ℕ) (b : Buffer) (v : IsClient s c) (h : IsCollecting c k i b)
    (inside : block < chunk_size s.sizes k) where
  before : missing s c k ≡ b.block_count
  before = missing-IsCollecting s c k i b v h

  had_it : has c k block ≡ bit_at b.blockmap block
  had_it = has-IsCollecting s c k i block b v h

  fits_in : block < max_chunk_size
  fits_in = omega (arith, (chunk_size_bounds s k ok).1)

  stored_bit : bit_at (store s block payload b).blockmap block ≡ true
  unfolding store
  stored_bit =
      let shape = ((AllBuffers-at s c.buffers i b v.buffers h.here).part h.live).shape in
      ground (arith, (alloc_lem b.blockmap block block shape fits_in).1)

  finish_done : (chunk_at (complete k i (store s block payload b) c) k).done ≡ true
  unfolding complete
  finish_done = ground (
    arith,
    its_descriptor s c k i b v h,
    get_or-set c.chunks k k (record (chunk_at c k) { done = true }) blank,
  )

  stored_count : (store s block payload b).block_count ≡ b.block_count - 1
  unfolding store
  stored_count = refl

  module _ (new : (alloc b.blockmap block).1 ≡ 0) where
    insert_last :
        b.block_count - 1 ≡ 0
        → insert s now k block payload i b c
          ≡ (true, request_chunk s now false (complete k i (store s block payload b) c))
    unfolding insert
    insert_last last = rw (new, insert, stored_count, last) refl

    insert_more :
        0 < b.block_count - 1
        → insert s now k block payload i b c
          ≡ (true, record c { buffers = set c.buffers i (store s block payload b) })
    unfolding insert
    insert_more more =
        let open_yet : (b.block_count - 1 == 0) ≡ false = ground arith in
        rw (new, insert, stored_count, open_yet) refl

    some_left : 0 < b.block_count
    some_left = stored_left s ok c k i block payload b v h inside new

    not_before : has c k block ≡ false
    not_before =
        let shape = ((AllBuffers-at s c.buffers i b v.buffers h.here).part h.live).shape in
        had_it ∙ ground (arith, new, (alloc_lem b.blockmap block block shape fits_in).0)

    last-Got :
        b.block_count - 1 ≡ 0
        → Got s k block c
            (true, request_chunk s now false (complete k i (store s block payload b) c))
    last-Got last =
        let c' = complete k i (store s block payload b) c in
        let asks = request_chunk-IsAsking s now false c' in
        let all = missing-done s (request_chunk s now false c') k (asks.done k ∙ finish_done) in
        (
          needed (request_chunk s now false c') not_before
              (ground (arith, asks.done k, finish_done))
              (omega (arith, all, before, last, some_left)),
          IsAsking-IsClient s c' (request_chunk s now false c') asks
              (complete-IsClient s ok c k i block payload b v h inside new last),
          IsKept-trans c c' (request_chunk s now false c')
              (complete-IsKept s c k i block payload b v h)
              (IsAsking-IsKept s c' (request_chunk s now false c') asks),
        )

    more-Got :
        0 < b.block_count - 1
        → Got s k block c (true, record c { buffers = set c.buffers i (store s block payload b) })
    more-Got more =
        let b' = store s block payload b in
        let c' : Client = record c { buffers = set c.buffers i b' } in
        let v' = stored-IsClient s ok c k i block payload b v h inside new more in
        let collects' = stored-IsCollecting s c k i block payload b h in
        let after = missing-IsCollecting s c' k i b' v' collects' in
        (
          needed c' not_before (has-IsCollecting s c' k i block b' v' collects' ∙ stored_bit)
              (omega (arith, after, before, stored_count, some_left)),
          v',
          stored-IsKept s c k i block payload b h,
        )

    pub insert_new_true : (insert s now k block payload i b c).0 ≡ true
    insert_new_true = elim (Bool-cases (b.block_count - 1 == 0)) [
      | inl last ↦ ap (λ r. r.0) (insert_last (ground arith))
      | inr more ↦ ap (λ r. r.0) (insert_more (ground arith))
    ]

    pub insert_new_block : Got s k block c (insert s now k block payload i b c)
    insert_new_block = elim (Bool-cases (b.block_count - 1 == 0)) [
      | inl last ↦
          subst (Got s k block c) (sym (insert_last (ground arith))) (last-Got (ground arith))
      | inr more ↦
          subst (Got s k block c) (sym (insert_more (ground arith))) (more-Got (ground arith))
    ]

  insert_old : (alloc b.blockmap block).1 ≢ 0 → insert s now k block payload i b c ≡ (false, c)
  unfolding insert
  insert_old old = ground (arith, old)

  small_block : block < max_chunk_size
  small_block = omega (arith, (chunk_size_bounds s k ok).1)

  -- The bit that `BlockMapAlloc` returns.
  old_bit :
      ((alloc b.blockmap block).1 ≡ 0)
      ⊎ (((alloc b.blockmap block).1 ≢ 0) × (bit_at b.blockmap block ≡ true))
  old_bit =
      let shape = ((AllBuffers-at s c.buffers i b v.buffers h.here).part h.live).shape in
      elim (Bool-cases (bit_at b.blockmap block)) [
        | inl e ↦ inr (ground (arith, (alloc_lem b.blockmap block block shape small_block).0), e)
        | inr e ↦ inl (ground (arith, (alloc_lem b.blockmap block block shape small_block).0))
      ]

  pub insert-Got : Got s k block c (insert s now k block payload i b c)
  insert-Got = elim old_bit [
    | inl new ↦ insert_new_block new
    | inr (old, e) ↦
        subst (Got s k block c) (sym (insert_old old))
          (duplicate i b h e, v, IsKept-same c c refl refl)
  ]
