-- ===== src/WorkQueue/Dequeue.antt =====
-- `WorkQueueDequeue` of src/frisbee.redux/server.c: what it hands out, and what it leaves in the queue.
use frisbee.Base.{
  ℕ, zero, suc, ◌+◌, ◌-◌, ◌≤◌, ◌<◌, ◌≡◌, Bool, true, false, ◌&&◌, ◌||◌, not, List, [], ◌∷◌, ℤ,
  negsuc,
}
use frisbee.Base.{
  arith, refl, ap, ◌∙◌, sym, subst, ◌==◌, ltb, length, eq_int, is_negative, Bool-cases, inl, inr,
  Option, none, some,
}
use frisbee.BlockMap.{BlockMap, max_chunk_size}
use frisbee.BlockMap.Bits.{
  bit_at, in_range, IsMap, count_if, count_if_ext, count_if-none, blocks_in,
}
use frisbee.BlockMap.Scan.{Extracted, extract}
use frisbee.BlockMap.Scan.Extract.{IsExtraction, extract-IsExtraction}
use frisbee.WorkQueue.{Elem, Queue, Work, take_run, put_back, dequeue, or_zero}
use frisbee.WorkQueue.Valid.{
  IsElem, AllElems, IsQueue, pending, count_if-full, count_if-parts, count_if-in_range,
}

-- What is left of the element that a run is taken from: nothing, or an element.
pub record IsRun (e : Elem) (t : Option ℕ × ℕ × Elem) : Type 0 where
  pub chunk : t.2.chunk ≡ e.chunk
  pub written : t.0 ≡ some (or_zero t.0)
  pub some_blocks : 0 < t.1
  pub in_chunk : or_zero t.0 + t.1 ≤ max_chunk_size
  pub asked :
      (b : ℕ)
      → b < max_chunk_size
      → bit_at e.blockmap b
        ≡ ((ltb 0 t.2.nblocks && bit_at t.2.blockmap b) || in_range (or_zero t.0) t.1 b)
  pub good : 0 < t.2.nblocks → IsElem t.2
  pub removed :
      0 < t.2.nblocks
      → (b : ℕ) → b < max_chunk_size
      → in_range (or_zero t.0) t.1 b ≡ true
      → bit_at t.2.blockmap b ≡ false
  pub counts : t.2.nblocks + t.1 ≡ e.nblocks

-- The run that is extracted from a map of some blocks.
record IsTaken (m : BlockMap) (x : Extracted) (block : ℕ) : Type 0 where
  start : x.start ≡ some block
  some_blocks : 0 < x.count
  in_chunk : block + x.count ≤ max_chunk_size
  shape : IsMap x.blocks
  parts :
      (b : ℕ) → b < max_chunk_size → bit_at m b ≡ (bit_at x.blocks b || in_range block x.count b)
  removed :
      (b : ℕ) → b < max_chunk_size → in_range block x.count b ≡ true → bit_at x.blocks b ≡ false
  counts : blocks_in m 0 max_chunk_size ≡ blocks_in x.blocks 0 max_chunk_size + x.count

-- The run of a map that is not empty has a block.
run_some :
    (m : BlockMap) (x : Extracted) (block : ℕ)
    → IsExtraction m x block
    → 0 < blocks_in m 0 max_chunk_size
    → 0 < x.count
run_some m x block h pos = elim (Bool-cases (x.count == 0)) [
  | inl z ↦ absurd (
      omega (
        arith,
        pos,
        count_if_ext (bit_at m) (λ b. false) 0 max_chunk_size
            (λ b lo hi. h.first_run.before b (omega arith) (inl (ground arith)) ∙ ground arith),
        count_if-none 0 max_chunk_size,
      ))
  | inr p ↦ ground arith
]

run_parts :
    (m : BlockMap) (x : Extracted) (block : ℕ)
    → IsExtraction m x block
    → 0 < x.count
    → (b : ℕ) → b < max_chunk_size
    → bit_at m b ≡ (bit_at x.blocks b || in_range block x.count b)
run_parts m x block h p b l = elim (Bool-cases (in_range block x.count b)) [
  | inl hit ↦ h.first_run.before b l (inr (ground arith)) ∙ ground arith
  | inr miss ↦ ground (arith, h.first_run.cleared b)
]

taken :
    (m : BlockMap) (x : Extracted) (block : ℕ)
    → IsExtraction m x block
    → 0 < blocks_in m 0 max_chunk_size
    → IsTaken m x block
taken m x block h pos =
    let p = run_some m x block h pos in
    let inside = h.first_run.in_chunk p in
    record {
      start = h.start ∙ ground (arith, p);
      some_blocks = p;
      in_chunk = inside;
      shape = h.first_run.shape;
      parts = run_parts m x block h p;
      removed = λ b l hit. ground (arith, h.first_run.cleared b);
      counts =
          count_if-parts (bit_at m) (bit_at x.blocks) (in_range block x.count) 0 max_chunk_size
            (λ b lo hi. run_parts m x block h p b (omega arith))
            (λ b lo hi. ground (arith, h.first_run.cleared b))
          ∙ ap (λ c. blocks_in x.blocks 0 max_chunk_size + c)
              (count_if-in_range block x.count inside);
    }

count_if-hit : (f : ℕ → Bool) (p n b : ℕ) → f b ≡ true → p ≤ b → b < p + n → 0 < count_if f p n
unfolding count_if
count_if-hit f p zero b hit lo hi = absurd (omega arith)
count_if-hit f p (suc n) b hit lo hi = ground (
  arith,
  (λ (here : p ≡ b). ap f here),
  (λ (lo' : p + 1 ≤ b) (hi' : b < p + 1 + n). count_if-hit f (p + 1) n b hit lo' hi'),
)

-- A map that is counted as empty asks for nothing.
no_block_left :
    (m : BlockMap) (n b : ℕ)
    → n ≡ blocks_in m 0 max_chunk_size
    → b < max_chunk_size
    → bit_at m b ≡ (ltb 0 n && bit_at m b)
no_block_left m n b e l = elim (Bool-cases (bit_at m b)) [
  | inl hit ↦
      ground (arith, count_if-hit (bit_at m) 0 max_chunk_size b hit (omega arith) (omega arith))
  | inr miss ↦ ground arith
]

part-IsRun :
    (e : Elem) (block : ℕ)
    → IsElem e
    → is_negative e.chunk ≡ false
    → IsTaken e.blockmap (extract e.blockmap) block
    → let x = extract e.blockmap in
      IsRun e (x.start, x.count, record e { blockmap = x.blocks; nblocks = e.nblocks - x.count })
part-IsRun e block h live t =
    let x = extract e.blockmap in
    let left : e.nblocks - x.count ≡ blocks_in x.blocks 0 max_chunk_size =
      omega (arith, h.counted live, t.counts) in
    record {
      chunk = refl;
      written = rw t.start;
      some_blocks = t.some_blocks;
      in_chunk = rw t.start t.in_chunk;
      asked = λ b l. rw t.start (
          t.parts b l
          ∙ ap (λ p. p || in_range block x.count b)
              (no_block_left x.blocks (e.nblocks - x.count) b left l));
      good = λ p. record { shape = λ l. t.shape; counted = λ l. left; work = λ l. p };
      removed = λ p b l. rw t.start (t.removed b l);
      counts = omega (arith, h.counted live, t.counts);
    }

take_run-IsRun : (e : Elem) → IsElem e → is_negative e.chunk ≡ false → IsRun e (take_run e)
unfolding take_run
take_run-IsRun e h live = elim (Bool-cases (e.nblocks == max_chunk_size)) [
  | inl full ↦
      rw (full, take_run)
        (record {
          chunk = refl;
          written = refl;
          some_blocks = omega arith;
          in_chunk = omega arith;
          asked = λ b l.
              let all : bit_at e.blockmap b ≡ true =
                count_if-full (bit_at e.blockmap) 0 max_chunk_size b
                  (sym (h.counted live) ∙ ground arith) (omega arith) (omega arith) in
              ground (arith, all);
          good = λ p. absurd (ground arith);
          removed = λ p. absurd (ground arith);
          counts = ground arith;
        })
  | inr part ↦
      let x = extract-IsExtraction e.blockmap (h.shape live) in
      let t : IsTaken e.blockmap (extract e.blockmap) x.0 =
        taken e.blockmap (extract e.blockmap) x.0 x.1
          (omega (arith, h.counted live, h.work live)) in
      rw (part, take_run) (part-IsRun e x.0 h live t)
]

-- What is left of the head after its run is taken: nothing, if the run was all its blocks, or an
-- element of the same chunk at the head that asks for all blocks but those of the run. All blocks of
-- the run were asked for.
pub data HeadOutcome (e : Elem) (rest : List Elem) (block count : ℕ) (elems : List Elem)
    : Type 0 where
  used_up :
      elems ≡ rest
      → e.nblocks ≡ count
      → ((b : ℕ) → b < max_chunk_size → bit_at e.blockmap b ≡ in_range block count b)
      → HeadOutcome e rest block count elems
  remains :
      (e' : Elem)
      → elems ≡ e' ∷ rest
      → e'.chunk ≡ e.chunk
      → e'.nblocks + count ≡ e.nblocks
      → ((b : ℕ) → b < max_chunk_size → in_range block count b ≡ true → bit_at e.blockmap b ≡ true)
      → ((b : ℕ)
          → b < max_chunk_size
          → bit_at e'.blockmap b ≡ (bit_at e.blockmap b && not (in_range block count b)))
      → HeadOutcome e rest block count elems

-- What a dequeue does to a well-formed queue: there was nothing, a join reply is handed out, or a
-- run of blocks is.
pub data DequeueOutcome (q : Queue) (r : Option Work × Queue) : Type 0 where
  idle : q.elems ≡ [] → r.0 ≡ none → r.1.elems ≡ [] → r.1.work_chunk ≡ negsuc 0 → DequeueOutcome q r
  join :
      (e : Elem) (rest : List Elem) (w : Work)
      → q.elems ≡ e ∷ rest
      → r.0 ≡ some w
      → is_negative w.chunk ≡ true
      → w.chunk ≡ e.chunk
      → w.count ≡ e.nblocks
      → r.1.elems ≡ rest
      → ((c : ℤ) (b : ℕ) → pending r.1.elems c b ≡ pending q.elems c b)
      → r.1.size + 1 ≡ q.size
      → DequeueOutcome q r
  run :
      (e : Elem) (rest : List Elem) (w : Work) (block : ℕ)
      → q.elems ≡ e ∷ rest
      → r.0 ≡ some w
      → is_negative w.chunk ≡ false
      → w.chunk ≡ e.chunk
      → w.block ≡ some block
      → 0 < w.count
      → block + w.count ≤ max_chunk_size
      → HeadOutcome e rest block w.count r.1.elems
      → (r.1.work_chunk ≡ w.chunk) × (r.1.work_block ≡ block) × (r.1.work_count ≡ w.count)
      → ((c : ℤ) (b : ℕ)
          → b < max_chunk_size
          → pending q.elems c b
            ≡ (pending r.1.elems c b || eq_int w.chunk c && in_range block w.count b))
      → DequeueOutcome q r

put_back-IsQueue :
    (e : Elem) (rest : List Elem) (q : Queue)
    → q.size ≡ suc (length rest)
    → (0 < e.nblocks → IsElem e)
    → AllElems rest
    → IsQueue (put_back e rest q)
unfolding put_back
put_back-IsQueue e rest q s h all = elim (Bool-cases (e.nblocks == 0)) [
  | inl z ↦ rw (z, put_back) (record { counted = omega (arith, s); elements = all })
  | inr p ↦ rw (p, put_back) (record { counted = s; elements = (h (ground arith), all) })
]

pending-put_back :
    (e : Elem) (rest : List Elem) (q : Queue) (c : ℤ) (b : ℕ)
    → is_negative e.chunk ≡ false
    → pending (put_back e rest q).elems c b
      ≡ (eq_int e.chunk c && (ltb 0 e.nblocks && bit_at e.blockmap b) || pending rest c b)
unfolding put_back pending
pending-put_back e rest q c b live = elim (Bool-cases (e.nblocks == 0)) [
  | inl z ↦ rw (z, put_back) (ground arith)
  | inr p ↦ rw (p, put_back, live) (ground arith)
]

dequeue_elems-IsQueue :
    (q : Queue) (elems : List Elem) → q.elems ≡ elems → IsQueue q → IsQueue (dequeue q).1
unfolding dequeue
dequeue_elems-IsQueue q [] e h =
    rw (e, dequeue) (record { counted = h.counted; elements = h.elements })
dequeue_elems-IsQueue q (x ∷ rest) e h =
    let size : q.size ≡ suc (length rest) = h.counted ∙ ap length e in
    let all : AllElems (x ∷ rest) = subst AllElems e h.elements in
    elim (Bool-cases (is_negative x.chunk)) [
      | inl joins ↦
          rw (e, dequeue, joins) (record { counted = omega (arith, size); elements = all.1 })
      | inr live ↦
          let t = take_run-IsRun x all.0 live in
          let p = put_back-IsQueue (take_run x).2 rest q size t.good all.1 in
          rw (e, dequeue, live) (record { counted = p.counted; elements = p.elements })
    ]

-- A dequeue keeps a well-formed queue well-formed: its size is the number of elements, and every
-- request in it has a map with as many blocks as it says, and at least one.
pub dequeue-IsQueue : (q : Queue) → IsQueue q → IsQueue (dequeue q).1
dequeue-IsQueue q h = dequeue_elems-IsQueue q q.elems refl h

run_pending :
    (x : Elem) (rest : List Elem) (q : Queue) (c : ℤ) (b : ℕ)
    → is_negative x.chunk ≡ false
    → IsRun x (take_run x)
    → b < max_chunk_size
    → pending (x ∷ rest) c b ≡ (
        pending (put_back (take_run x).2 rest q).elems c b
        || eq_int x.chunk c && in_range (or_zero (take_run x).0) (take_run x).1 b)
unfolding pending
run_pending x rest q c b live t l =
    let live' : is_negative (take_run x).2.chunk ≡ false = ap is_negative t.chunk ∙ live in
    rw (live, pending-put_back (take_run x).2 rest q c b live', t.chunk, t.asked b l) (ground arith)

take_run-HeadOutcome :
    (e : Elem) (rest : List Elem) (q : Queue) (t : Option ℕ × ℕ × Elem)
    → IsRun e t
    → HeadOutcome e rest (or_zero t.0) t.1 (put_back t.2 rest q).elems
unfolding put_back
take_run-HeadOutcome e rest q t h = elim (Bool-cases (t.2.nblocks == 0)) [
  | inl z ↦
      rw (z, put_back)
        (used_up refl (ground (arith, h.counts)) (λ b l. h.asked b l ∙ ground (arith, z)))
  | inr p ↦
      rw (p, put_back)
        (remains t.2 refl h.chunk h.counts (λ b l hit. h.asked b l ∙ ground (arith, hit))
          (λ b l. ground (arith, h.asked b l, h.removed (ground arith) b l)))
]

dequeue_elems-DequeueOutcome :
    (q : Queue) (elems : List Elem) → q.elems ≡ elems → IsQueue q → DequeueOutcome q (dequeue q)
unfolding dequeue pending
dequeue_elems-DequeueOutcome q [] e h = rw (dequeue, e) (idle refl refl e refl)
dequeue_elems-DequeueOutcome q (x ∷ rest) e h =
    let size : q.size ≡ suc (length rest) = h.counted ∙ ap length e in
    let all : AllElems (x ∷ rest) = subst AllElems e h.elements in
    elim (Bool-cases (is_negative x.chunk)) [
      | inl joins ↦
          rw (dequeue, e, joins)
            (join x rest (record { chunk = x.chunk; block = none; count = x.nblocks }) refl refl
              joins refl refl refl (λ c b. rw joins) (omega (arith, size)))
      | inr live ↦
          let t = take_run-IsRun x all.0 live in
          rw (dequeue, e, live)
            (run x rest (record { chunk = x.chunk; block = (take_run x).0; count = (take_run x).1 })
              (or_zero (take_run x).0) refl refl live refl t.written t.some_blocks t.in_chunk
              (take_run-HeadOutcome x rest q (take_run x) t) (refl, refl, refl)
              (λ c b l. run_pending x rest q c b live t l))
    ]

-- On a well-formed queue, a dequeue hands out nothing, if the queue is empty; or the join reply at
-- the head, which it removes, and what is asked for stays the same; or a run of at least one block of
-- the head, inside its chunk. Then the head asked for all blocks of the run; it is removed if it
-- asked for no other, and otherwise stays the head and asks for exactly its other blocks. The
-- elements after the head stay as they are. The run is recorded as the work in progress, and an empty
-- queue as none.
pub dequeue-DequeueOutcome : (q : Queue) → IsQueue q → DequeueOutcome q (dequeue q)
dequeue-DequeueOutcome q h = dequeue_elems-DequeueOutcome q q.elems refl h
