-- ===== src/Client/Kept.antt =====
-- The turns of a chunk's life in src/frisbee.redux/client.c: full buffers beside chunks that are done.
use frisbee.Base.{
  ℕ, ◌≡◌, true, false, List, arith, refl, ◌==◌, get_or-set, length, length-set, get_elem?, set,
  some, Bool-cases, inl, inr,
}
use frisbee.Client.{
  Settings, Chunk, Buffer, Client, BufState, empty, filling, full, dubious, blank, chunk_at,
  is_active, is_full,
}
use frisbee.Client.Valid.{IsClient, IsKept, keeps, held-set, active-not_full}
use frisbee.Client.Turns.{IsCollecting, its_chunk, its_descriptor}
use frisbee.Client.Receive.{store, complete, start, toss, fresh, start_state, is_chunk}

start_state-not_full : (k : ℕ) (c : Client) → is_full (start_state k c) ≡ false
start_state-not_full k c = elim (Bool-cases (is_chunk k c.no_room_chunk)) [
  | inl e ↦ rw e refl
  | inr e ↦ rw e refl
]

-- A buffer takes the place of another, and neither is full.
set-IsKept :
    (c c' : Client) (i : ℕ) (b b' : Buffer)
    → get_elem? c.buffers i ≡ some b
    → is_full b.state ≡ false
    → is_full b'.state ≡ false
    → c'.buffers ≡ set c.buffers i b'
    → ((j : ℕ) → (chunk_at c' j).done ≡ (chunk_at c j).done)
    → length c'.chunks ≡ length c.chunks
    → IsKept c c'
set-IsKept c c' i b b' here e e' same dones size = record {
  balance = λ j. rw (same, dones j) (ground (arith, held-set j c.buffers i b b' here, e, e'));
  size = size;
}

pub start-IsKept :
    (s : Settings) (k i : ℕ) (b : Buffer) (c : Client)
    → get_elem? c.buffers i ≡ some b
    → is_full b.state ≡ false
    → IsKept c (start s k i b c)
unfolding start
start-IsKept s k i b c here e =
    set-IsKept c (start s k i b c) i b (fresh s k (start_state k c) b) here e
      (start_state-not_full k c) refl
      (λ j. ground (arith, get_or-set c.chunks k j (record (chunk_at c k) { seen = true }) blank))
      (length-set c.chunks k (record (chunk_at c k) { seen = true }))

pub toss-IsKept :
    (d : ℕ) (b : Buffer) (c : Client)
    → get_elem? c.buffers d ≡ some b
    → is_full b.state ≡ false
    → IsKept c (toss d b c)
unfolding toss
toss-IsKept d b c here e =
    set-IsKept c (toss d b c) d b (record b { state = empty }) here e refl refl
      (λ j. ground (
        arith,
        get_or-set c.chunks b.this_chunk j
            (record (chunk_at c b.this_chunk) { seen = false; lastreq = 0 }) blank,
      ))
      (length-set c.chunks b.this_chunk
        (record (chunk_at c b.this_chunk) { seen = false; lastreq = 0 }))

collecting-not_full : (b : Buffer) → is_active b.state ≡ true → is_full b.state ≡ false
collecting-not_full b live = go b.state live
  where
    go : (st : BufState) → is_active st ≡ true → is_full st ≡ false
    go filling e = refl
    go dubious e = refl
    go empty e = refl
    go full e = absurd (ground arith)

pub stored-IsKept :
    (s : Settings) (c : Client) (k i block : ℕ) (payload : List ℕ) (b : Buffer)
    → IsCollecting c k i b
    → IsKept c (record c { buffers = set c.buffers i (store s block payload b) })
unfolding store
stored-IsKept s c k i block payload b h =
    let idle = collecting-not_full b h.live in
    set-IsKept c (record c { buffers = set c.buffers i (store s block payload b) }) i b
      (store s block payload b) h.here idle idle refl (λ j. refl) refl

pub complete-IsKept :
    (s : Settings) (c : Client) (k i block : ℕ) (payload : List ℕ) (b : Buffer)
    → IsClient s c
    → IsCollecting c k i b
    → IsKept c (complete k i (store s block payload b) c)
unfolding store complete
complete-IsKept s c k i block payload b v h =
    let b' : Buffer = record (store s block payload b) { state = full } in
    let ch : Chunk = record (chunk_at c k) { done = true } in
    record {
      balance = λ j.
          let new : keeps j b' ≡ (k == j) = rw h.holds refl in
          ground (
            arith,
            new,
            its_chunk s c k i b v h,
            its_descriptor s c k i b v h,
            held-set j c.buffers i b b' h.here,
            active-not_full b j h.live,
            get_or-set c.chunks k j ch blank,
          );
      size = length-set c.chunks k ch;
    }
