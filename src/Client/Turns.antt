-- ===== src/Client/Turns.antt =====
-- The turns of a chunk's life in src/frisbee.redux/client.c: a buffer is set up, takes a block in, is
-- complete, is given up, or is written. The well-formedness of the client after each.
use frisbee.Base.{ℕ, zero, suc, ◌+◌, ◌-◌, ◌≤◌, ◌<◌, ◌≡◌, true, false, ◌&&◌, not, List, [], ◌∷◌, ◌∙◌}
use frisbee.Base.{
  arith, refl, ap, subst, get_elem?-set_self, ◌==◌, ltb, get_or-set, get_elem?, set, length, Option,
  some, none, Bool-cases, inl, inr,
}
use frisbee.BlockMap.{alloc}
use frisbee.Sizes.{chunk_size}
use frisbee.Client.{
  Settings, Chunk, Buffer, Client, empty, full, dubious, blank, chunk_at, is_active,
}
use frisbee.Client.Valid.{
  IsClient, IsPart, IsBuffer, collecting, collects, active, one_if, collecting-set, active-set,
  count_done-set, AllBuffers-set, AllBuffers-at,
}
use frisbee.Client.Requests.{get_or-beyond}
use frisbee.Client.Insert.{
  IsSettings, chunk_size_bounds, store-IsPart, store-left, IsPart-whole, zeros-IsPart,
}
use frisbee.Client.Receive.{store, complete, start, toss, fresh, start_state, is_chunk}

pub get_elem?-lt : (l : List Buffer) (i : ℕ) (b : Buffer) → get_elem? l i ≡ some b → i < length l
get_elem?-lt [] i b e = absurd (ground arith)
get_elem?-lt (x ∷ l) zero b e = omega arith
get_elem?-lt (x ∷ l) (suc i) b e = omega (arith, get_elem?-lt l i b e)

pub collecting-at :
    (k : ℕ) (l : List Buffer) (i : ℕ) (b : Buffer)
    → get_elem? l i ≡ some b
    → one_if (collects k b) ≤ collecting k l
unfolding collecting
collecting-at k [] i b e = absurd (ground arith)
collecting-at k (x ∷ l) zero b e = let same : x ≡ b = ground arith in rw same (omega arith)
collecting-at k (x ∷ l) (suc i) b e = omega (arith, collecting-at k l i b e)

active-at :
    (l : List Buffer) (i : ℕ) (b : Buffer)
    → get_elem? l i ≡ some b
    → one_if (is_active b.state) ≤ active l
unfolding active
active-at [] i b e = absurd (ground arith)
active-at (x ∷ l) zero b e = let same : x ≡ b = ground arith in rw same (omega arith)
active-at (x ∷ l) (suc i) b e = omega (arith, active-at l i b e)

-- A buffer at `i` that collects chunk `k`, which has a descriptor.
pub record IsCollecting (c : Client) (k i : ℕ) (b : Buffer) : Type 0 where
  pub here : get_elem? c.buffers i ≡ some b
  pub live : is_active b.state ≡ true
  pub holds : b.this_chunk ≡ k

module _ (s : Settings) (c : Client) (k i : ℕ) (b : Buffer) (v : IsClient s c)
    (h : IsCollecting c k i b) where
  collects_it : collects k b ≡ true
  collects_it = rw (h.live, h.holds) (ground arith)

  pub its_chunk :
      ((chunk_at c k).seen ≡ true) × ((chunk_at c k).done ≡ false) × (collecting k c.buffers ≡ 1)
  its_chunk =
      let some_one : 1 ≤ collecting k c.buffers =
        omega (arith, collecting-at k c.buffers i b h.here, ap one_if collects_it) in
      (
        ground (arith, some_one, v.tracked k),
        ground (arith, some_one, v.tracked k),
        ground (arith, some_one, v.tracked k),
      )

  pub its_descriptor : k < length c.chunks
  its_descriptor = elim (Bool-cases (ltb k (length c.chunks))) [
    | inl e ↦ ground arith
    | inr e ↦ absurd (ground (arith, its_chunk.0, get_or-beyond c.chunks k))
  ]

  -- Another buffer of the same chunk and kind in its place.
  replace-IsClient :
      (b' : Buffer)
      → is_active b'.state ≡ true
      → b'.this_chunk ≡ k
      → IsBuffer s b'
      → IsClient s (record c { buffers = set c.buffers i b' })
  replace-IsClient b' live' holds' good = record {
    tracked = λ j.
        let same : collects j b' ≡ collects j b = rw (live', holds', h.live, h.holds) refl in
        omega (arith, collecting-set j c.buffers i b b' h.here, ap one_if same) ∙ v.tracked j;
    finished = v.finished;
    buffers = AllBuffers-set s c.buffers i b' v.buffers good;
    progress = ground (arith, v.progress, active-set c.buffers i b b' h.here, h.live, live');
    counted = v.counted;
  }

  -- A buffer that is taken away from the chunk, which is given up or done.
  release-IsClient :
      (b' : Buffer) (ch : Chunk) (room : Option ℕ) (n : ℕ)
      → is_active b'.state ≡ false
      → IsBuffer s b'
      → (ch.seen && not ch.done) ≡ false
      → (ch.done ≡ true → ch.seen ≡ true)
      → n ≡ c.received + one_if ch.done
      → IsClient s (record c {
        chunks = set c.chunks k ch;
        buffers = set c.buffers i b';
        no_room_chunk = room;
        in_progress = c.in_progress - 1;
        received = n;
      })
  release-IsClient b' ch room n idle good over both count = record {
    tracked = λ j.
        let gone : collects j b' ≡ false = rw idle (ground arith) in
        let was : collects j b ≡ (k == j) = rw (h.live, h.holds) refl in
        ground (
          arith,
          its_chunk,
          its_descriptor,
          collecting-set j c.buffers i b b' h.here,
          gone,
          was,
          v.tracked j,
          get_or-set c.chunks k j ch blank,
        );
    finished = λ j. ground (arith, v.finished j, get_or-set c.chunks k j ch blank);
    buffers = AllBuffers-set s c.buffers i b' v.buffers good;
    progress = ground (arith, v.progress, active-set c.buffers i b b' h.here, h.live, idle);
    counted =
        ground (arith, count, v.counted, count_done-set c.chunks k ch, its_chunk, its_descriptor);
  }

-- A buffer that is not collecting is set up for a chunk that is not seen.
module _ (s : Settings) (ok : IsSettings s) (c : Client) (k i : ℕ) (b : Buffer) (v : IsClient s c)
    (here : get_elem? c.buffers i ≡ some b) (idle : is_active b.state ≡ false)
    (new : (chunk_at c k).seen ≡ false) (known : k < length c.chunks) where
  start_state-is_active : is_active (start_state k c) ≡ true
  start_state-is_active = elim (Bool-cases (is_chunk k c.no_room_chunk)) [
    | inl e ↦ rw e refl
    | inr e ↦ rw e refl
  ]

  fresh-IsBuffer : IsBuffer s (fresh s k (start_state k c) b)
  fresh-IsBuffer = record {
    part = λ e. zeros-IsPart (chunk_size s.sizes k);
    unfinished = λ e. (chunk_size_bounds s k ok).0;
    whole = λ e. absurd (ground (arith, start_state-is_active, ap is_active e));
  }

  pub start-IsCollecting : IsCollecting (start s k i b c) k i (fresh s k (start_state k c) b)
  unfolding start
  start-IsCollecting = record {
    here =
        get_elem?-set_self c.buffers i (fresh s k (start_state k c) b)
          (get_elem?-lt c.buffers i b here);
    live = start_state-is_active;
    holds = refl;
  }

  pub start-IsClient : IsClient s (start s k i b c)
  unfolding start
  start-IsClient =
      let b' = fresh s k (start_state k c) b in
      let ch : Chunk = record (chunk_at c k) { seen = true } in
      let undone : (chunk_at c k).done ≡ false = ground (arith, v.finished k, new) in
      record {
        tracked = λ j.
            let was : collects j b ≡ false = rw idle refl in
            let is : collects j b' ≡ (k == j) = rw start_state-is_active refl in
            ground (
              arith,
              collecting-set j c.buffers i b b' here,
              was,
              is,
              v.tracked j,
              v.tracked k,
              new,
              undone,
              known,
              get_or-set c.chunks k j ch blank,
            );
        finished = λ j. ground (arith, v.finished j, get_or-set c.chunks k j ch blank);
        buffers = AllBuffers-set s c.buffers i b' v.buffers fresh-IsBuffer;
        progress =
            ground
              (arith, v.progress, active-set c.buffers i b b' here, idle, start_state-is_active);
        counted = ground (arith, v.counted, count_done-set c.chunks k ch, known, undone);
      }

-- A dubious buffer is given up.
pub toss-IsClient :
    (s : Settings) (c : Client) (d : ℕ) (b : Buffer)
    → IsClient s c
    → get_elem? c.buffers d ≡ some b
    → b.state ≡ dubious
    → IsClient s (toss d b c)
unfolding toss
toss-IsClient s c d b v here e =
    let live : is_active b.state ≡ true = rw e refl in
    let h : IsCollecting c b.this_chunk d b = record { here = here; live = live; holds = refl } in
    let ch : Chunk = record (chunk_at c b.this_chunk) { seen = false; lastreq = 0 } in
    let own = its_chunk s c b.this_chunk d b v h in
    release-IsClient s c b.this_chunk d b v h (record b { state = empty }) ch none c.received refl
      (record {
        part = λ f. absurd (ground arith);
        unfinished = λ f. absurd (ground arith);
        whole = λ f. absurd (ground arith);
      })
      refl (λ f. absurd (ground (arith, own.1))) (ground (arith, own.1))

-- A buffer that has the block it needed: it collects on, or it is complete.
module _ (s : Settings) (ok : IsSettings s) (c : Client) (k i block : ℕ) (payload : List ℕ)
    (b : Buffer) (v : IsClient s c) (h : IsCollecting c k i b)
    (inside : block < chunk_size s.sizes k) (new : (alloc b.blockmap block).1 ≡ 0) where
  blocks_so_far : IsPart (chunk_size s.sizes k) b.block_count b.blockmap
  blocks_so_far =
      let p = (AllBuffers-at s c.buffers i b v.buffers h.here).part h.live in
      subst (λ j. IsPart (chunk_size s.sizes j) b.block_count b.blockmap) h.holds p

  stored-IsPart : IsPart (chunk_size s.sizes k) (b.block_count - 1) (alloc b.blockmap block).0
  stored-IsPart =
      store-IsPart (chunk_size s.sizes k) b.block_count block b.blockmap blocks_so_far
        (chunk_size_bounds s k ok).1 inside new

  pub stored_left : 0 < b.block_count
  stored_left =
      store-left (chunk_size s.sizes k) b.block_count block b.blockmap blocks_so_far
        (chunk_size_bounds s k ok).1 inside new

  pub stored-IsClient :
      0 < b.block_count - 1
      → IsClient s (record c { buffers = set c.buffers i (store s block payload b) })
  unfolding store
  stored-IsClient more =
      replace-IsClient s c k i b v h (store s block payload b) h.live h.holds (record {
        part = λ e. rw h.holds stored-IsPart;
        unfinished = λ e. more;
        whole = λ e. absurd (ground (arith, h.live, ap is_active e));
      })

  pub complete-IsClient :
      b.block_count - 1 ≡ 0 → IsClient s (complete k i (store s block payload b) c)
  unfolding store complete
  complete-IsClient last =
      let own = its_chunk s c k i b v h in
      let ch : Chunk = record (chunk_at c k) { done = true } in
      release-IsClient s c k i b v h (record (store s block payload b) { state = full }) ch
        c.no_room_chunk (c.received + 1) refl
        (record {
          part = λ f. absurd (ground arith);
          unfinished = λ f. absurd (ground arith);
          whole = λ f x l.
              IsPart-whole (chunk_size s.sizes k) (b.block_count - 1) (alloc b.blockmap block).0 x
                (chunk_size_bounds s k ok).1 stored-IsPart last (rw⁻¹ h.holds l);
        })
        (ground arith) (λ f. own.0) (omega arith)
