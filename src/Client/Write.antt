-- ===== src/Client/Write.antt =====
-- The main thread writes a full buffer out: what the loop of `ChunkerStartup` does to the cache.
use frisbee.Base.{
  ℕ, suc, ◌+◌, ◌≡◌, true, false, List, [], ◌∷◌, arith, refl, ap, get_elem?, set, ◌==◌, ◌<◌,
  Bool-cases, inl, inr, Option, some, none,
}
use frisbee.BlockMap.Bits.{bit_at}
use frisbee.Sizes.{chunk_size}
use frisbee.Client.{
  is_active, Settings, Buffer, Client, BufState, empty, filling, full, dubious, is_full,
}
use frisbee.Client.Valid.{
  IsClient, held, collecting-set, active-set, held-set, keeps, AllBuffers-set, AllBuffers-at,
  one_if, collects,
}
use frisbee.Client.Search.{none_in}
use frisbee.Client.Receive.{write_from, write_chunk}

-- The buffer that is written, and the cache after it.
pub record IsWritten (k : ℕ) (l l' : List Buffer) : Type 0 where
  pub at : ℕ
  pub buffer : Buffer
  pub here : get_elem? l at ≡ some buffer
  pub ready : buffer.state ≡ full
  pub holds : buffer.this_chunk ≡ k
  pub after : l' ≡ set l at (record buffer { state = empty })

-- The result of the search: a full buffer, or there is none.
abbrev pub WriteOutcome : List Buffer → Option (ℕ × List Buffer) → Type 0
WriteOutcome l none = none_in is_full l ≡ true
WriteOutcome l (some (k, l')) = IsWritten k l l'

write_state-WriteOutcome :
    (b : Buffer) (rest : List Buffer) (r : Option (ℕ × List Buffer))
    → is_full b.state ≡ false
    → WriteOutcome rest r
    → WriteOutcome (b ∷ rest) (elim r [ none ↦ none | some (k, rest') ↦ some (k, b ∷ rest') ])
unfolding none_in
write_state-WriteOutcome b rest none e h = rw (e, h) refl
write_state-WriteOutcome b rest (some (k, rest')) e h = record {
  at = suc h.at;
  buffer = h.buffer;
  here = h.here;
  ready = h.ready;
  holds = h.holds;
  after = ap (λ l. b ∷ l) h.after;
}

is_full-state : (st : BufState) → is_full st ≡ true → st ≡ full
is_full-state full e = refl
is_full-state empty e = absurd (ground arith)
is_full-state filling e = absurd (ground arith)
is_full-state dubious e = absurd (ground arith)

pub write_from-WriteOutcome : (l : List Buffer) → WriteOutcome l (write_from l)
unfolding write_from none_in
write_from-WriteOutcome [] = refl
write_from-WriteOutcome (b ∷ rest) = elim (Bool-cases (is_full b.state)) [
  | inl e ↦
      rw (e, write_from)
        (record {
          at = 0;
          buffer = b;
          here = refl;
          ready = is_full-state b.state e;
          holds = refl;
          after = refl;
        })
  | inr e ↦
      rw (e, write_from)
        (write_state-WriteOutcome b rest (write_from rest) e (write_from-WriteOutcome rest))
]

-- What the write does to the client.
module _ (s : Settings) (c : Client) (k : ℕ) (l : List Buffer) (v : IsClient s c)
    (h : IsWritten k c.buffers l) where
  abbrev freed : Buffer
  freed = record h.buffer { state = empty }

  idle : is_active h.buffer.state ≡ false
  idle = rw h.ready refl

  pub freed-held : (j : ℕ) → held j l + one_if (k == j) ≡ held j c.buffers
  freed-held j =
      let was : keeps j h.buffer ≡ (k == j) = rw (h.ready, h.holds) refl in
      rw h.after (ground (arith, was, held-set j c.buffers h.at h.buffer freed h.here))

  pub freed-IsClient : IsClient s (record c { buffers = l })
  freed-IsClient = record {
    tracked = λ j.
        let was : collects j h.buffer ≡ false = rw idle refl in
        rw h.after
          (ground (arith, was, v.tracked j, collecting-set j c.buffers h.at h.buffer freed h.here));
    finished = v.finished;
    buffers = rw h.after (
        AllBuffers-set s c.buffers h.at freed v.buffers (record {
          part = λ e. absurd (ground arith);
          unfinished = λ e. absurd (ground arith);
          whole = λ e. absurd (ground arith);
        }));
    progress =
        rw h.after
          (ground (arith, v.progress, idle, active-set c.buffers h.at h.buffer freed h.here));
    counted = v.counted;
  }

  -- The chunk that is written has all its blocks.
  written_whole : (x : ℕ) → x < chunk_size s.sizes k → bit_at h.buffer.blockmap x ≡ true
  written_whole x l =
      (AllBuffers-at s c.buffers h.at h.buffer v.buffers h.here).whole h.ready x (rw h.holds l)

-- A write is of a chunk that a full buffer holds whole, and frees that buffer.
pub record WritesWhole (s : Settings) (c : Client) (k : ℕ) (c' : Client) : Type 0 where
  pub at : ℕ
  pub buffer : Buffer
  pub here : get_elem? c.buffers at ≡ some buffer
  pub ready : buffer.state ≡ full
  pub holds : buffer.this_chunk ≡ k
  pub whole : (x : ℕ) → x < chunk_size s.sizes k → bit_at buffer.blockmap x ≡ true
  pub after : c' ≡ record c { buffers = set c.buffers at (record buffer { state = empty }) }

abbrev pub WriteChunkOutcome : Settings → Client → Option (ℕ × Client) → Type 0
WriteChunkOutcome s c none = none_in is_full c.buffers ≡ true
WriteChunkOutcome s c (some (k, c')) = WritesWhole s c k c'

write_chunk_state :
    (s : Settings) (c : Client) (r : Option (ℕ × List Buffer))
    → IsClient s c
    → WriteOutcome c.buffers r
    → WriteChunkOutcome s c
        (elim r [ none ↦ none | some (k, bufs) ↦ some (k, record c { buffers = bufs }) ])
write_chunk_state s c none v h = h
write_chunk_state s c (some (k, l)) v h = record {
  at = h.at;
  buffer = h.buffer;
  here = h.here;
  ready = h.ready;
  holds = h.holds;
  whole = written_whole s c k l v h;
  after = ap (λ (x : List Buffer). record c { buffers = x }) h.after;
}

-- The main thread of a well-formed client writes a chunk that a full buffer holds with all its blocks, and frees the buffer;
-- it writes none only if no buffer is full.
pub write_chunk-WriteChunkOutcome :
    (s : Settings) (c : Client) → IsClient s c → WriteChunkOutcome s c (write_chunk c)
unfolding write_chunk
write_chunk-WriteChunkOutcome s c v =
    write_chunk_state s c (write_from c.buffers) v (write_from-WriteOutcome c.buffers)
