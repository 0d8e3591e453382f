-- ===== src/Client/Rounds.antt =====
-- `RequestChunk` of src/frisbee.redux/client.c: what it leaves of chunks and buffers.
use frisbee.Base.{ℕ, zero, suc, ◌+◌, ◌≡◌, Bool, true, false, ◌||◌, List, [], ◌∷◌}
use frisbee.Base.{
  refl, if◌then◌else◌, ◌==◌, leb, ltb, get_elem?, length, Option, some, none, Bool-cases, inl, inr,
}
use frisbee.Sizes.{chunk_size}
use frisbee.Client.{
  Settings, Buffer, Client, Tally, BufState, empty, filling, full, dubious, chunk_at, redo_time,
  request_missing, request_range, promote_at, request_unfinished, visit, visit_from, read_ahead,
  request_chunk, at_most,
}
use frisbee.Client.Valid.{IsAsking, IsAsking-refl, IsAsking-trans}
use frisbee.Client.Requests.{promote-IsAsking, request_missing-IsAsking, request_range-IsAsking}

promote_at-IsAsking :
    (s : Settings) (i : ℕ) (o : Option Buffer) (c : Client)
    → get_elem? c.buffers i ≡ o
    → IsAsking s c (promote_at i o c)
promote_at-IsAsking s i none c e = IsAsking-refl s c
promote_at-IsAsking s i (some b) c e = promote-IsAsking s i b c e

request_unfinished-IsAsking :
    (s : Settings) (now : ℕ) (timed_out : Bool) (i : ℕ) (b : Buffer) (c : Client)
    → IsAsking s c (request_unfinished s now timed_out i b c)
unfolding request_unfinished
request_unfinished-IsAsking s now timed_out i b c =
    let c' = request_missing s now b.this_chunk b.blockmap c in
    elim (Bool-cases (timed_out || redo_time s now b.this_chunk c)) [
      | inl due ↦
          rw (due, request_unfinished)
            (IsAsking-trans s c c' (promote_at i (get_elem? c'.buffers i) c')
              (request_missing-IsAsking s now b.this_chunk b.blockmap c)
              (promote_at-IsAsking s i (get_elem? c'.buffers i) c' refl))
      | inr early ↦ rw (early, request_unfinished) (IsAsking-refl s c)
    ]

visit_state-IsAsking :
    (s : Settings) (now : ℕ) (timed_out : Bool) (i : ℕ) (b : Buffer) (t : Tally) (st : BufState)
    → b.state ≡ st
    → IsAsking s t.client (visit s now timed_out i (some b) t).client
unfolding visit
visit_state-IsAsking s now timed_out i b t empty e = rw (visit, e) (IsAsking-refl s t.client)
visit_state-IsAsking s now timed_out i b t full e = rw (visit, e) (IsAsking-refl s t.client)
visit_state-IsAsking s now timed_out i b t filling e =
    rw (visit, e) (request_unfinished-IsAsking s now timed_out i b t.client)
visit_state-IsAsking s now timed_out i b t dubious e =
    rw (visit, e) (request_unfinished-IsAsking s now timed_out i b t.client)

visit-IsAsking :
    (s : Settings) (now : ℕ) (timed_out : Bool) (i : ℕ) (o : Option Buffer) (t : Tally)
    → IsAsking s t.client (visit s now timed_out i o t).client
unfolding visit
visit-IsAsking s now timed_out i none t = IsAsking-refl s t.client
visit-IsAsking s now timed_out i (some b) t =
    visit_state-IsAsking s now timed_out i b t b.state refl

visit_from-IsAsking :
    (s : Settings) (now : ℕ) (timed_out : Bool) (rounds i : ℕ) (t : Tally)
    → IsAsking s t.client (visit_from s now timed_out rounds i t).client
unfolding visit_from
visit_from-IsAsking s now timed_out zero i t = IsAsking-refl s t.client
visit_from-IsAsking s now timed_out (suc rounds) i t =
    let t' = visit s now timed_out i (get_elem? t.client.buffers i) t in
    IsAsking-trans s t.client t'.client (visit_from s now timed_out rounds (i + 1) t').client
      (visit-IsAsking s now timed_out i (get_elem? t.client.buffers i) t)
      (visit_from-IsAsking s now timed_out rounds (i + 1) t')

ahead-IsAsking :
    (s : Settings) (now : ℕ) (b : Bool) (k count : ℕ) (c : Client)
    → IsAsking s c (if b then request_range s now k 0 count c else c)
ahead-IsAsking s now true k count c = request_range-IsAsking s now k 0 count c
ahead-IsAsking s now false k count c = IsAsking-refl s c

read_ahead-IsAsking :
    (s : Settings) (now : ℕ) (timed_out : Bool) (most j : ℕ) (l : List ℕ) (c : Client)
    → IsAsking s c (read_ahead s now timed_out most j l c)
unfolding read_ahead
read_ahead-IsAsking s now timed_out most j [] c = IsAsking-refl s c
read_ahead-IsAsking s now timed_out most j (k ∷ rest) c = elim (Bool-cases (ltb j most)) [
  | inr enough ↦ rw (enough, read_ahead) (IsAsking-refl s c)
  | inl more ↦ elim (Bool-cases (chunk_at c k).seen) [
    | inl seen ↦ rw (more, seen, read_ahead) (read_ahead-IsAsking s now timed_out most j rest c)
    | inr new ↦
        let due = timed_out || redo_time s now k c in
        let c' = if due then request_range s now k 0 (chunk_size s.sizes k) c else c in
        rw (more, new, read_ahead)
          (IsAsking-trans s c c' (read_ahead s now timed_out most (j + 1) rest c')
            (ahead-IsAsking s now due k (chunk_size s.sizes k) c)
            (read_ahead-IsAsking s now timed_out most (j + 1) rest c'))
  ]
]

pub request_chunk-IsAsking :
    (s : Settings) (now : ℕ) (timed_out : Bool) (c : Client)
    → IsAsking s c (request_chunk s now timed_out c)
unfolding request_chunk
request_chunk-IsAsking s now timed_out c =
    let t0 : Tally = record { client = c; empty_bufs = 0; filling_bufs = 0 } in
    let t = visit_from s now timed_out (length c.buffers) 0 t0 in
    let first = visit_from-IsAsking s now timed_out (length c.buffers) 0 t0 in
    elim (Bool-cases (t.empty_bufs == 0 || leb s.max_in_progress t.filling_bufs)) [
      | inl busy ↦ rw (busy, request_chunk) first
      | inr room ↦
          let most = at_most s.max_read_ahead t.empty_bufs in
          let l = t.client.request_list in
          rw (room, request_chunk)
            (IsAsking-trans s c t.client (read_ahead s now timed_out most 0 l t.client) first
              (read_ahead-IsAsking s now timed_out most 0 l t.client))
    ]
