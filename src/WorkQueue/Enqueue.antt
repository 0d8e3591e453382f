-- ===== src/WorkQueue/Enqueue.antt =====
-- `WorkQueueEnqueueChunk` of src/frisbee.redux/server.c: the queue that it leaves, and what is asked for then.
use frisbee.Base.{
  ℕ, ◌+◌, ◌-◌, ◌≤◌, ◌<◌, ◌≡◌, Bool, true, false, ◌&&◌, ◌||◌, not, List, [], ◌∷◌, ◌++◌, ℤ,
}
use frisbee.Base.{
  arith, refl, ap, ◌∙◌, sym, subst, if◌then◌else◌, ◌==◌, length, eq_int, eq_int-eq, is_negative,
  Bool-cases, inl, inr, Option, none, some, Option-cases, length-append,
}
use frisbee.BlockMap.{BlockMap, max_chunk_size}
use frisbee.BlockMap.Bits.{bit_at, IsMap, count_if-or, count_if-le, count_if_ext, blocks_in}
use frisbee.BlockMap.Scan.{merge}
use frisbee.BlockMap.Scan.Merge.{merge_lem, merge-IsMap}
use frisbee.WorkQueue.{Elem, Queue, merge_elem, merge_into, in_progress, elem_of, enqueue_chunk}
use frisbee.WorkQueue.Valid.{
  IsElem, AllElems, IsQueue, wants, pending, count_if-full, AllElems-append, pending-append,
}

-- A request that is queued: a map of `count` blocks of a chunk.
pub record IsRequest (chunk : ℤ) (map : BlockMap) (count : ℕ) : Type 0 where
  pub in_image : is_negative chunk ≡ false
  pub shape : IsMap map
  pub counted : count ≡ blocks_in map 0 max_chunk_size

-- What the merge of a request into an element of its chunk comes to.
record IsMergedElem (e e' : Elem) (map : BlockMap) : Type 0 where
  good : IsElem e'
  chunk : e'.chunk ≡ e.chunk
  blocks :
      (b : ℕ) → b < max_chunk_size → bit_at e'.blockmap b ≡ (bit_at e.blockmap b || bit_at map b)

blocks_in-merge :
    (map to : BlockMap)
    → IsMap map
    → IsMap to
    → blocks_in (merge map to).0 0 max_chunk_size ≡ blocks_in to 0 max_chunk_size + (merge map to).1
blocks_in-merge map to hm ht =
    let m = merge_lem map to hm ht in
    count_if_ext (bit_at (merge map to).0) (λ b. bit_at to b || bit_at map b) 0 max_chunk_size
      (λ b lo hi. m.0 b (omega arith))
    ∙ count_if-or (bit_at to) (bit_at map) 0 max_chunk_size
    ∙ ap (λ c. blocks_in to 0 max_chunk_size + c) (sym m.1)

merge_elem-IsMergedElem :
    (map : BlockMap) (count : ℕ) (e : Elem)
    → IsElem e
    → is_negative e.chunk ≡ false
    → IsMap map
    → count ≡ blocks_in map 0 max_chunk_size
    → IsMergedElem e (merge_elem map count e) map
unfolding merge_elem
merge_elem-IsMergedElem map count e h live hm counted =
    elim (Bool-cases (e.nblocks == max_chunk_size)) [
      | inl full ↦
          rw (full, merge_elem)
            (record {
              good = h;
              chunk = refl;
              blocks = λ b l.
                  let all : bit_at e.blockmap b ≡ true =
                    count_if-full (bit_at e.blockmap) 0 max_chunk_size b
                      (sym (h.counted live) ∙ ground arith) (omega arith) (omega arith) in
                  ground (arith, all);
            })
      | inr part ↦ elim (Bool-cases (count == max_chunk_size)) [
        | inl whole ↦
            let bound : e.nblocks ≤ max_chunk_size =
              omega (arith, h.counted live, count_if-le (bit_at e.blockmap) 0 max_chunk_size) in
            let size : e.nblocks + (max_chunk_size - e.nblocks) ≡ max_chunk_size =
              omega (arith, bound) in
            rw (part, whole, merge_elem)
              (record {
                good = record {
                  shape = λ l. hm;
                  counted = λ l. size ∙ ground (arith, counted);
                  work = λ l. ground (arith, size);
                };
                chunk = refl;
                blocks = λ b l.
                    let all : bit_at map b ≡ true =
                      count_if-full (bit_at map) 0 max_chunk_size b (sym counted ∙ ground arith)
                        (omega arith) (omega arith) in
                    ground (arith, all);
              })
        | inr some_blocks ↦
            rw (part, some_blocks, merge_elem)
              (record {
                good = record {
                  shape = λ l. merge-IsMap map e.blockmap hm (h.shape live);
                  counted = λ l.
                      ap (λ c. c + (merge map e.blockmap).1) (h.counted live)
                      ∙ sym (blocks_in-merge map e.blockmap hm (h.shape live));
                  work = λ l. ground (arith, h.work live);
                };
                chunk = refl;
                blocks = (merge_lem map e.blockmap hm (h.shape live)).0;
              })
      ]
    ]

-- What a search for an element that takes the request comes to.
record IsMergedInto (chunk : ℤ) (map : BlockMap) (l l' : List Elem) : Type 0 where
  elements : AllElems l'
  size : length l' ≡ length l
  adds :
      (c : ℤ) (b : ℕ)
      → b < max_chunk_size
      → pending l' c b ≡ (pending l c b || eq_int chunk c && bit_at map b)

abbrev Into : ℤ → BlockMap → List Elem → Option (List Elem) → Type 0
Into chunk map l none = Unit {0}
Into chunk map l (some l') = IsMergedInto chunk map l l'

wants_merged :
    (e e' : Elem) (chunk : ℤ) (map : BlockMap) (c : ℤ) (b : ℕ)
    → IsMergedElem e e' map
    → e.chunk ≡ chunk
    → is_negative chunk ≡ false
    → b < max_chunk_size
    → wants e' c b ≡ (wants e c b || eq_int chunk c && bit_at map b)
wants_merged e e' chunk map c b m same live l =
    rw (m.chunk, same, live, m.blocks b l) (ground arith)

Into-here :
    (chunk : ℤ) (map : BlockMap) (count : ℕ) (e : Elem) (rest : List Elem)
    → IsRequest chunk map count
    → AllElems (e ∷ rest)
    → e.chunk ≡ chunk
    → IsMergedInto chunk map (e ∷ rest) (merge_elem map count e ∷ rest)
unfolding pending
Into-here chunk map count e rest r h same =
    let live : is_negative e.chunk ≡ false = rw same r.in_image in
    let m = merge_elem-IsMergedElem map count e h.0 live r.shape r.counted in
    record {
      elements = (m.good, h.1);
      size = refl;
      adds = λ c b l.
          ground (arith, wants_merged e (merge_elem map count e) chunk map c b m same r.in_image l);
    }

Into-later :
    (chunk : ℤ) (map : BlockMap) (e : Elem) (rest rest' : List Elem)
    → IsElem e
    → IsMergedInto chunk map rest rest'
    → IsMergedInto chunk map (e ∷ rest) (e ∷ rest')
unfolding pending
Into-later chunk map e rest rest' h m = record {
  elements = (h, m.elements);
  size = omega (arith, m.size);
  adds = λ c b l. ground (arith, m.adds c b l);
}

merge_into-Into :
    (q : Queue) (chunk : ℤ) (map : BlockMap) (count : ℕ) (is_head : Bool) (l : List Elem)
    → IsRequest chunk map count
    → AllElems l
    → Into chunk map l (merge_into q chunk map count is_head l)
unfolding merge_into
merge_into-Into q chunk map count is_head [] r h = tt
merge_into-Into q chunk map count is_head (e ∷ rest) r h =
    let ih = merge_into-Into q chunk map count false rest r h.1 in
    elim (Option-cases (merge_into q chunk map count false rest)) [
      | inr (rest', found) ↦
          let m : IsMergedInto chunk map rest rest' = subst (λ o. Into chunk map rest o) found ih in
          rw (found, merge_into) (Into-later chunk map e rest rest' h.0 m)
      | inl missing ↦
          elim (Bool-cases (eq_int e.chunk chunk && not (is_head && in_progress q chunk map))) [
            | inl here ↦
                rw (missing, here, merge_into)
                  (Into-here chunk map count e rest r h (eq_int-eq e.chunk chunk (ground arith)))
            | inr skip ↦ rw (missing, skip, merge_into) tt
          ]
    ]

-- The request is for the whole chunk that is being sent.
abbrev pub being_sent : Queue → ℤ → ℕ → Bool
being_sent q chunk count =
    count == max_chunk_size && eq_int chunk q.work_chunk && count == q.work_count

-- What a request leaves of the queue.
pub record IsEnqueue (q : Queue) (chunk : ℤ) (map : BlockMap) (count : ℕ) (r : Bool × Queue)
    : Type 0 where
  pub valid : IsQueue r.1
  pub adds :
      being_sent q chunk count ≡ false
      → (c : ℤ) (b : ℕ) → b < max_chunk_size
      → pending r.1.elems c b ≡ (pending q.elems c b || eq_int chunk c && bit_at map b)
  pub keeps : being_sent q chunk count ≡ true → r.1.elems ≡ q.elems
  pub grows : r.1.size ≡ q.size + (if r.0 then 1 else 0)

elem_of-IsElem :
    (chunk : ℤ) (map : BlockMap) (count : ℕ)
    → IsRequest chunk map count
    → (count == 0) ≡ false
    → IsElem (elem_of chunk count map)
elem_of-IsElem chunk map count r n = record {
  shape = λ l. r.shape;
  counted = λ l. r.counted;
  work = λ l. ground arith;
}

pending-elem_of :
    (chunk : ℤ) (map : BlockMap) (count : ℕ) (c : ℤ) (b : ℕ)
    → is_negative chunk ≡ false
    → pending (elem_of chunk count map ∷ []) c b ≡ (eq_int chunk c && bit_at map b)
unfolding pending
pending-elem_of chunk map count c b live = rw live (ground arith)

IsEnqueue-tail :
    (q : Queue) (chunk : ℤ) (map : BlockMap) (count : ℕ)
    → IsQueue q
    → IsRequest chunk map count
    → (count == 0) ≡ false
    → being_sent q chunk count ≡ false
    → IsEnqueue q chunk map count
        (true, record q { elems = q.elems ++ elem_of chunk count map ∷ []; size = q.size + 1 })
IsEnqueue-tail q chunk map count h r n idle = record {
  valid = record {
    counted = omega (arith, h.counted, length-append q.elems (elem_of chunk count map ∷ []));
    elements =
        AllElems-append q.elems (elem_of chunk count map ∷ []) h.elements
          (elem_of-IsElem chunk map count r n, tt);
  };
  adds = λ i c b l.
      pending-append q.elems (elem_of chunk count map ∷ []) c b
      ∙ ap (λ p. pending q.elems c b || p) (pending-elem_of chunk map count c b r.in_image);
  keeps = λ i. absurd (ground arith);
  grows = refl;
}

IsEnqueue-merged :
    (q : Queue) (chunk : ℤ) (map : BlockMap) (count : ℕ) (l : List Elem)
    → IsQueue q
    → IsMergedInto chunk map q.elems l
    → being_sent q chunk count ≡ false
    → IsEnqueue q chunk map count (false, record q { elems = l })
IsEnqueue-merged q chunk map count l h m idle = record {
  valid = record { counted = omega (arith, h.counted, m.size); elements = m.elements };
  adds = λ i c b s. m.adds c b s;
  keeps = λ i. absurd (ground arith);
  grows = omega arith;
}

-- A request for blocks of a chunk keeps the queue well-formed, whether it is queued, merged or
-- dropped. Afterwards the queue asks for what it asked for before and for the blocks of the request,
-- unless that is for the whole chunk which is being sent: then the queue stays as it is. The size
-- grows by one where the result is that the request was queued.
pub enqueue_chunk-IsEnqueue :
    (q : Queue) (chunk : ℤ) (map : BlockMap) (count : ℕ)
    → IsQueue q
    → IsRequest chunk map count
    → 0 < count
    → IsEnqueue q chunk map count (enqueue_chunk chunk map count q)
unfolding enqueue_chunk
enqueue_chunk-IsEnqueue q chunk map count h r some_asked =
    let n : (count == 0) ≡ false = ground arith in
    let m = merge_into-Into q chunk map count true q.elems r h.elements in
    elim (Bool-cases (being_sent q chunk count)) [
      | inl sent ↦
          rw (n, sent, enqueue_chunk)
            (record {
              valid = h;
              adds = λ i. absurd (ground arith);
              keeps = λ i. refl;
              grows = omega arith;
            })
      | inr idle ↦ elim (Option-cases (merge_into q chunk map count true q.elems)) [
        | inl missing ↦
            rw (n, idle, missing, enqueue_chunk) (IsEnqueue-tail q chunk map count h r n idle)
        | inr (l, found) ↦
            rw (n, idle, found, enqueue_chunk)
              (IsEnqueue-merged q chunk map count l h
                (subst (λ o. Into chunk map q.elems o) found m) idle)
      ]
    ]
