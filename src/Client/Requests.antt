-- ===== src/Client/Requests.antt =====
-- The functions of src/frisbee.redux/client.c that ask for blocks: what they leave of chunks and buffers.
use frisbee.Base.{ℕ, zero, suc, ◌+◌, ◌≤◌, ◌≡◌, Bool, true, false, ◌&&◌, ◌||◌, not, List, [], ◌∷◌}
use frisbee.Base.{
  arith, refl, ap, if◌then◌else◌, ◌==◌, get_or, get_or-set, length-set, get_elem?, length, Option,
  some, none, Bool-cases, inl, inr,
}
use frisbee.Sizes.{chunk_size}
use frisbee.BlockMap.{BlockMap, map_bytes, clear}
use frisbee.BlockMap.Scan.{is_alloc}
use frisbee.Base.{◌%◌, replicate}
use frisbee.Client.{
  Settings, Chunk, Buffer, Client, Request, BufState, empty, filling, full, dubious, blank,
  chunk_at, put_chunk, send, ask_partial, ask_range, missing_map, is_active, is_dubious,
  find_active, stamp, promote, stamp_partial, request_stamp, requested, request_missing,
  request_range,
}
use frisbee.Client.Valid.{
  IsAsking, IsAsking-refl, IsAsking-trans, one_if, count_done-set, collecting-set, active-set,
  held-set, active-not_full, AllBuffers-set, AllBuffers-at, IsBuffer,
}

pub get_or-beyond : (l : List Chunk) (k : ℕ) → length l ≤ k → get_or l k blank ≡ blank
get_or-beyond [] k h = refl
get_or-beyond (x ∷ l) zero h = absurd (omega arith)
get_or-beyond (x ∷ l) (suc k) h = get_or-beyond l k (omega arith)

dubious-is_active : (st : BufState) → is_dubious st ≡ true → is_active st ≡ true
dubious-is_active dubious d = refl
dubious-is_active empty d = absurd (ground arith)
dubious-is_active filling d = absurd (ground arith)
dubious-is_active full d = absurd (ground arith)

-- A descriptor that keeps `seen` and `done`.
put_chunk-IsAsking :
    (s : Settings) (c : Client) (k : ℕ) (ch : Chunk)
    → ch.seen ≡ (chunk_at c k).seen
    → ch.done ≡ (chunk_at c k).done
    → IsAsking s c (put_chunk c k ch)
put_chunk-IsAsking s c k ch e d = record {
  seen = λ j. ground (arith, get_or-set c.chunks k j ch blank);
  done = λ j. ground (arith, get_or-set c.chunks k j ch blank);
  collects = λ j. refl;
  fulls = λ j. refl;
  actives = refl;
  dones = ground (arith, count_done-set c.chunks k ch, get_or-beyond c.chunks k);
  size = length-set c.chunks k ch;
  progress = refl;
  received = refl;
  buffers = λ a. a;
}

send-IsAsking : (s : Settings) (c : Client) (p : Request) → IsAsking s c (send c p)
send-IsAsking s c p = record {
  seen = λ k. refl;
  done = λ k. refl;
  collects = λ k. refl;
  fulls = λ k. refl;
  actives = refl;
  dones = refl;
  size = refl;
  progress = refl;
  received = refl;
  buffers = λ a. a;
}

filling-IsBuffer :
    (s : Settings) (b : Buffer)
    → is_dubious b.state ≡ true
    → IsBuffer s b
    → IsBuffer s (record b { state = filling })
filling-IsBuffer s b d h =
    let live : is_active b.state ≡ true = dubious-is_active b.state d in
    record {
      part = λ e. h.part live;
      unfinished = λ e. h.unfinished live;
      whole = λ e. absurd (ground arith);
    }

pub promote-IsAsking :
    (s : Settings) (i : ℕ) (b : Buffer) (c : Client)
    → get_elem? c.buffers i ≡ some b
    → IsAsking s c (promote i b c)
unfolding promote
promote-IsAsking s i b c e = elim (Bool-cases (is_dubious b.state)) [
  | inr other ↦ rw other (IsAsking-refl s c)
  | inl d ↦
      let live : is_active b.state ≡ true = dubious-is_active b.state d in
      let b' : Buffer = record b { state = filling } in
      rw d (record {
        seen = λ k. refl;
        done = λ k. refl;
        collects = λ k. ground (arith, collecting-set k c.buffers i b b' e);
        fulls =
            λ k. omega (arith, held-set k c.buffers i b b' e, ap one_if (active-not_full b k live));
        actives = ground (arith, active-set c.buffers i b b' e);
        dones = refl;
        size = refl;
        progress = refl;
        received = refl;
        buffers = λ a.
            AllBuffers-set s c.buffers i b' a
              (filling-IsBuffer s b d (AllBuffers-at s c.buffers i b a e));
      })
]

-- What the search for a collecting buffer found, from buffer `i` on.
pub record IsFoundAt (k i j : ℕ) (b : Buffer) (l : List Buffer) : Type 0 where
  pub steps : ℕ
  pub place : j ≡ i + steps
  pub here : get_elem? l steps ≡ some b

pub IsFoundAt-later :
    (k i j : ℕ) (b x : Buffer) (l : List Buffer)
    → IsFoundAt k (i + 1) j b l
    → IsFoundAt k i j b (x ∷ l)
IsFoundAt-later k i j b x l f = record {
  steps = suc f.steps;
  place = omega (arith, f.place);
  here = f.here;
}

abbrev Finds : ℕ → ℕ → List Buffer → Option (ℕ × Buffer) → Type 0
Finds k i l none = Unit {0}
Finds k i l (some (j, b)) = IsFoundAt k i j b l

Finds-later :
    (k i : ℕ) (x : Buffer) (l : List Buffer) (o : Option (ℕ × Buffer))
    → Finds k (i + 1) l o
    → Finds k i (x ∷ l) o
Finds-later k i x l none f = tt
Finds-later k i x l (some (j, b)) f = IsFoundAt-later k i j b x l f

find_active-Finds : (k i : ℕ) (l : List Buffer) → Finds k i l (find_active k i l)
unfolding find_active
find_active-Finds k i [] = tt
find_active-Finds k i (x ∷ l) = elim (Bool-cases (x.this_chunk == k && is_active x.state)) [
  | inl hit ↦ rw (hit, find_active) (record { steps = 0; place = omega arith; here = refl })
  | inr miss ↦
      rw (miss, find_active)
        (Finds-later k i x l (find_active k (i + 1) l) (find_active-Finds k (i + 1) l))
]

stamp-IsAsking : (s : Settings) (now k : ℕ) (c : Client) → IsAsking s c (stamp now k c)
stamp-IsAsking s now k c =
    put_chunk-IsAsking s c k (record (chunk_at c k) { lastreq = now % 2305843009213693952 }) refl
      refl

stamp_partial-IsAsking :
    (s : Settings) (now : ℕ) (got : Bool) (k block count : ℕ) (o : Option (ℕ × Buffer)) (c : Client)
    → Finds k 0 c.buffers o
    → IsAsking s c (stamp_partial now got k block count o c).1
unfolding stamp_partial
stamp_partial-IsAsking s now got k block count none c f = IsAsking-refl s c
stamp_partial-IsAsking s now got k block count (some (i, b)) c f =
    let place : i ≡ f.steps = omega (arith, f.place) in
    let here : get_elem? c.buffers i ≡ some b = rw place f.here in
    elim (Bool-cases (is_alloc b.blockmap block count == count)) [
      | inl all ↦ rw (all, stamp_partial) (IsAsking-refl s c)
      | inr some_missing ↦ elim (Bool-cases got) [
        | inl g ↦ rw (some_missing, g, stamp_partial) (stamp-IsAsking s now k c)
        | inr g ↦
            rw (some_missing, g, stamp_partial)
              (IsAsking-trans s c (promote i b c) (stamp now k (promote i b c))
                (promote-IsAsking s i b c here) (stamp-IsAsking s now k (promote i b c)))
      ]
    ]

pub request_stamp-IsAsking :
    (s : Settings) (now : ℕ) (got : Bool) (k block count : ℕ) (c : Client)
    → IsAsking s c (request_stamp s now got k block count c).1
unfolding request_stamp
request_stamp-IsAsking s now got k block count c =
    elim (Bool-cases (s.redo_delay == 0 || (chunk_at c k).done)) [
      | inl quiet ↦ rw (quiet, request_stamp) (IsAsking-refl s c)
      | inr on ↦
          elim (Bool-cases
            (block == 0 && count == chunk_size s.sizes k || not (chunk_at c k).seen)) [
              | inl whole ↦ rw (on, whole, request_stamp) (stamp-IsAsking s now k c)
              | inr part ↦
                  rw (on, part, request_stamp)
                    (stamp_partial-IsAsking s now got k block count (find_active k 0 c.buffers) c
                      (find_active-Finds k 0 c.buffers))
            ]
    ]

requested-IsAsking :
    (s : Settings) (now k block count : ℕ) (c : Client)
    → IsAsking s c (requested s now k block count c)
unfolding requested
requested-IsAsking s now k block count c =
    let c' = (request_stamp s now false k block count c).1 in
    IsAsking-trans s c c' (put_chunk c' k (record (chunk_at c' k) { ours = true }))
      (request_stamp-IsAsking s now false k block count c)
      (put_chunk-IsAsking s c' k (record (chunk_at c' k) { ours = true }) refl refl)

-- A packet is sent, and then the request is noted.
sent-IsAsking :
    (s : Settings) (now k block count : ℕ) (p : Request) (c : Client)
    → IsAsking s c (requested s now k block count (send c p))
sent-IsAsking s now k block count p c =
    IsAsking-trans s c (send c p) (requested s now k block count (send c p)) (send-IsAsking s c p)
      (requested-IsAsking s now k block count (send c p))

pub request_missing-IsAsking :
    (s : Settings) (now k : ℕ) (map : BlockMap) (c : Client)
    → IsAsking s c (request_missing s now k map c)
unfolding request_missing
request_missing-IsAsking s now k map c =
    sent-IsAsking s now k 0 (chunk_size s.sizes k)
      (ask_partial k (chunk_at c k).ours (missing_map (chunk_size s.sizes k) map)) c

pub request_range-IsAsking :
    (s : Settings) (now k block count : ℕ) (c : Client)
    → IsAsking s c (request_range s now k block count c)
unfolding request_range
request_range-IsAsking s now k block count c = elim (Bool-cases (chunk_at c k).ours) [
  | inl again ↦
      rw (again, request_range)
        (request_missing-IsAsking s now k
          (if block == 0 && count == chunk_size s.sizes k
            then replicate map_bytes 0
            else clear (replicate map_bytes 255) block count)
          c)
  | inr first ↦
      rw (first, request_range) (sent-IsAsking s now k block count (ask_range k block count) c)
]
