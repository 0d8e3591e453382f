-- ===== src/Client/Slots.antt =====
-- `GotBlock` as a whole: the outcome for a block that arrives, with every buffer it may go to.
use frisbee.Base.{ℕ, ◌+◌, ◌<◌, ◌≡◌, Bool, true, false, List, ◌∙◌}
use frisbee.Base.{
  arith, refl, sym, subst, ◌==◌, get_elem?, length, some, none, Bool-cases, inl, inr,
  get_elem?-set_self, replicate, get_or-set, length-set,
}
use frisbee.BlockMap.{alloc, max_chunk_size, map_bytes}
use frisbee.BlockMap.Update.{alloc_lem, bit_at-replicate_zero, replicate-IsMap}
use frisbee.Sizes.{chunk_size}
use frisbee.Client.{
  Settings, Buffer, Client, empty, dubious, blank, chunk_at, is_active, is_full, is_dubious,
}
use frisbee.Client.Valid.{IsClient, IsKept, IsKept-trans, IsKept-same, collecting}
use frisbee.Client.Requests.{IsFoundAt}
use frisbee.Client.Insert.{IsSettings, chunk_size_bounds}
use frisbee.Client.Turns.{get_elem?-lt, start-IsCollecting, start-IsClient, toss-IsClient}
use frisbee.Client.Kept.{start-IsKept, toss-IsKept}
use frisbee.Client.Search.{some-none, is_empty, none_in, IsSlot, scan_buffers-IsSlot}
use frisbee.Client.Receive.{
  Slot, taken, absent, scan_buffers, at_slot, insert, insert_new, start, toss, no_room, fresh,
  start_state, got_block, is_chunk,
}
use frisbee.Client.Outcome.{
  Got, done_already, duplicate, no_buffer, needed, missing, missing-IsCollecting, missing-new, has,
  has-new,
}
use frisbee.Client.Got.{insert-Got, insert_new_true, insert_new_block}

Got-needed :
    (s : Settings) (k block : ℕ) (c c' : Client) (r : Bool × Client)
    → missing s c k ≡ missing s c' k
    → has c k block ≡ false
    → r.0 ≡ true
    → IsKept c c'
    → Got s k block c' r
    → Got s k block c r
Got-needed s k block c c' r e u t q (done_already d, v, w) = absurd (ground arith)
Got-needed s k block c c' r e u t q (duplicate i b h x, v, w) = absurd (ground arith)
Got-needed s k block c c' r e u t q (no_buffer d z n m o p, v, w) = absurd (ground arith)
Got-needed s k block c c' r e u t q (needed d x y m, v, w) =
    (needed d u y (m ∙ sym e), v, IsKept-trans c c' d q w)

zeros_new : (block : ℕ) → block < max_chunk_size → (alloc (replicate map_bytes 0) block).1 ≡ 0
zeros_new block small = ground (
  arith,
  (alloc_lem (replicate map_bytes 0) block block (replicate-IsMap 0 (omega arith)) small).0,
  bit_at-replicate_zero map_bytes block,
)

not_seen :
    {s : Settings} (c : Client)
    → IsClient s c
    → (k : ℕ) → (chunk_at c k).seen ≡ false
    → (chunk_at c k).done ≡ false
not_seen c v k new = ground (arith, v.finished k, new)

found-here : (k i : ℕ) (b : Buffer) (l : List Buffer) → IsFoundAt k 0 i b l → get_elem? l i ≡ some b
found-here k i b l f = let place : i ≡ f.steps = omega (arith, f.place) in rw place f.here

abbrev GotNew : Settings → ℕ → ℕ → Client → Bool × Client → Type 0
GotNew s k block c r = (r.0 ≡ true) × Got s k block c r

unchanged :
    {s : Settings} (c c' : Client)
    → c'.chunks ≡ c.chunks
    → c'.buffers ≡ c.buffers
    → c'.in_progress ≡ c.in_progress
    → c'.received ≡ c.received
    → IsClient s c
    → IsClient s c'
unchanged {s} c c' e f g h v = record {
  tracked = λ k. rw (e, f) (v.tracked k);
  finished = λ k. rw e (v.finished k);
  buffers = rw f v.buffers;
  progress = rw (g, f) v.progress;
  counted = rw (h, e) v.counted;
}

toss-at :
    (c : Client) (d : ℕ) (b : Buffer)
    → get_elem? c.buffers d ≡ some b
    → get_elem? (toss d b c).buffers d ≡ some (record b { state = empty })
unfolding toss
toss-at c d b here =
    get_elem?-set_self c.buffers d (record b { state = empty }) (get_elem?-lt c.buffers d b here)

toss-seen :
    (c : Client) (k d : ℕ) (b : Buffer)
    → (chunk_at c k).seen ≡ false
    → (chunk_at (toss d b c) k).seen ≡ false
unfolding toss
toss-seen c k d b new = ground (
  arith,
  get_or-set c.chunks b.this_chunk k
      (record (chunk_at c b.this_chunk) { seen = false; lastreq = 0 }) blank,
)

toss-length :
    (c : Client) (k d : ℕ) (b : Buffer) → k < length c.chunks → k < length (toss d b c).chunks
unfolding toss
toss-length c k d b l =
    rw
      (length-set c.chunks b.this_chunk
        (record (chunk_at c b.this_chunk) { seen = false; lastreq = 0 }))
      l

-- The first block of a chunk goes into a buffer that is not collecting.
module _ (s : Settings) (ok : IsSettings s) (now k block : ℕ) (payload : List ℕ)
    (inside : block < chunk_size s.sizes k) where
  new_block_inside : block < max_chunk_size
  new_block_inside = omega (arith, (chunk_size_bounds s k ok).1)

  insert_new-Got :
      (c : Client) (i : ℕ) (b : Buffer)
      → IsClient s c
      → get_elem? c.buffers i ≡ some b
      → is_active b.state ≡ false
      → is_full b.state ≡ false
      → (chunk_at c k).seen ≡ false
      → k < length c.chunks
      → GotNew s k block c (insert_new s now k block payload i (some b) c)
  insert_new-Got c i b v here idle whole new known =
      let c' = start s k i b c in
      let b' = fresh s k (start_state k c) b in
      let v' = start-IsClient s ok c k i b v here idle new known in
      let h = start-IsCollecting s ok c k i b v here idle new known in
      let zero_bit = zeros_new block new_block_inside in
      let t = insert_new_true s ok now c' k i block payload b' v' h inside zero_bit in
      (
        t,
        Got-needed s k block c c' (insert s now k block payload i b' c')
            (missing-new s c k (not_seen c v k new) new
              ∙ sym (missing-IsCollecting s c' k i b' v' h))
            (has-new c k block v (not_seen c v k new) new) t (start-IsKept s k i b c here whole)
            (insert_new_block s ok now c' k i block payload b' v' h inside zero_bit),
      )

  -- There is no buffer.
  no_room-Got :
      (c : Client)
      → IsClient s c
      → collecting k c.buffers ≡ 0
      → none_in is_empty c.buffers ≡ true
      → (block ≡ 0 → none_in is_dubious c.buffers ≡ true)
      → Got s k block c (false, no_room k c)
  unfolding no_room
  no_room-Got c v z e d = elim (Bool-cases (is_chunk k c.no_room_chunk)) [
    | inl again ↦
        let c' : Client = record c { no_room_blocks = c.no_room_blocks + 1 } in
        let same : no_room k c ≡ c' = rw again refl in
        subst (λ x. Got s k block c (false, x)) (sym same)
          (
            no_buffer c' z e d refl refl,
            unchanged c c' refl refl refl refl v,
            IsKept-same c c' refl refl,
          )
    | inr first ↦
        let c' : Client = record c { no_room_chunk = some k; no_room_blocks = 1 } in
        let same : no_room k c ≡ c' = rw first refl in
        subst (λ x. Got s k block c (false, x)) (sym same)
          (
            no_buffer c' z e d refl refl,
            unchanged c c' refl refl refl refl v,
            IsKept-same c c' refl refl,
          )
  ]

  -- The dubious buffer is given up for the chunk.
  toss-Got :
      (c : Client) (d : ℕ) (b : Buffer)
      → IsClient s c
      → get_elem? c.buffers d ≡ some b
      → b.state ≡ dubious
      → (chunk_at c k).seen ≡ false
      → k < length c.chunks
      → Got s k block c
          (insert_new s now k block payload d (some (record b { state = empty })) (toss d b c))
  toss-Got c d b v here e new known =
      let c' = toss d b c in
      let v' = toss-IsClient s c d b v here e in
      let new' = toss-seen c k d b new in
      let b' : Buffer = record b { state = empty } in
      let r = insert_new s now k block payload d (some b') c' in
      let got =
        insert_new-Got c' d b' v' (toss-at c d b here) refl refl new' (toss-length c k d b known) in
      Got-needed s k block c c' r
        (missing-new s c k (not_seen c v k new) new
          ∙ sym (missing-new s c' k (not_seen c' v' k new') new'))
        (has-new c k block v (not_seen c v k new) new) got.0 (toss-IsKept d b c here (rw e refl))
        got.1

  not_collected :
      (c : Client)
      → IsClient s c
      → (chunk_at c k).done ≡ false
      → collecting k c.buffers ≡ 0
      → (chunk_at c k).seen ≡ false
  not_collected c v undone z = ground (arith, v.tracked k, undone, z)

  at_slot-Got :
      (c : Client) (r : Slot)
      → IsClient s c
      → k < length c.chunks
      → (chunk_at c k).done ≡ false
      → IsSlot k 0 c.buffers none none r
      → Got s k block c (at_slot s now k block payload r c)
  unfolding at_slot
  at_slot-Got c (taken i b) v known undone (f, e) =
      insert-Got s ok now c k i block payload b v
        (record {
          here = found-here k i b c.buffers f;
          live = ground (arith, e);
          holds = ground (arith, e);
        })
        inside
  at_slot-Got c (absent (some i) dub) v known undone (z, inl h, g) = absurd (ground arith)
  at_slot-Got c (absent (some i) dub) v known undone (z, inr (b, f, e), g) =
      let here = found-here k i b c.buffers f in
      rw here
        (insert_new-Got c i b v here (rw e refl) (rw e refl) (not_collected c v undone z) known).1
  at_slot-Got c (absent none none) v known undone (z, (p, n), (q, m)) = no_room-Got c v z n (λ x. m)
  at_slot-Got c (absent none (some (d, b))) v known undone (z, (p, n), inl h) =
      absurd (some-none (d, b) (sym h))
  at_slot-Got c (absent none (some (d, b))) v known undone (z, (p, n), inr (f, e)) =
      let new = not_collected c v undone z in
      elim (Bool-cases (block == 0)) [
        | inl first ↦
            rw (first, at_slot) (toss-Got c d b v (found-here k d b c.buffers f) e new known)
        | inr later ↦ rw (later, at_slot) (no_room-Got c v z n (λ x. absurd (ground arith)))
      ]

  -- `GotBlock` keeps the client well-formed, and its result is right.
  pub got_block-Got :
      (c : Client)
      → IsClient s c
      → k < length c.chunks
      → Got s k block c (got_block s now k block payload c)
  unfolding got_block
  got_block-Got c v known = elim (Bool-cases (chunk_at c k).done) [
    | inl over ↦ rw (over, got_block) (done_already over, v, IsKept-same c c refl refl)
    | inr undone ↦
        rw (undone, got_block)
          (at_slot-Got c (scan_buffers k 0 none none c.buffers) v known undone
            (scan_buffers-IsSlot k 0 none none c.buffers))
  ]
