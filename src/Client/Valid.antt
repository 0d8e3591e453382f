-- ===== src/Client/Valid.antt =====
-- What the client's variables have to satisfy between two steps, and what a step that only asks for
-- blocks leaves alone.
use frisbee.Base.{ℕ, zero, suc, ◌+◌, ◌<◌, ◌≡◌, Bool, true, false, ◌&&◌, not, List, [], ◌∷◌, ◌∙◌}
use frisbee.Base.{
  arith, refl, sym, ap, if◌then◌else◌, ◌==◌, ltb, get_or, get_elem?, set, length, some,
}
use frisbee.BlockMap.{max_chunk_size}
use frisbee.BlockMap.Bits.{bit_at, IsMap, blocks_in}
use frisbee.Sizes.{chunk_size}
use frisbee.Client.{
  Settings, Chunk, Buffer, Client, BufState, empty, filling, full, dubious, blank, chunk_at,
  is_active, is_full,
}

abbrev pub one_if : Bool → ℕ
one_if b = if b then 1 else 0

-- Whether the buffer collects blocks of the chunk.
abbrev pub collects : ℕ → Buffer → Bool
collects k b = is_active b.state && b.this_chunk == k

-- The buffers that collect blocks of the chunk, and of any chunk.
unfoldable pub collecting : ℕ → List Buffer → ℕ
collecting k [] = 0
collecting k (b ∷ rest) = one_if (collects k b) + collecting k rest

unfoldable pub active : List Buffer → ℕ
active [] = 0
active (b ∷ rest) = one_if (is_active b.state) + active rest

-- The full buffers of the chunk.
abbrev pub keeps : ℕ → Buffer → Bool
keeps k b = is_full b.state && b.this_chunk == k

unfoldable pub held : ℕ → List Buffer → ℕ
held k [] = 0
held k (b ∷ rest) = one_if (keeps k b) + held k rest

unfoldable pub count_done : List Chunk → ℕ
count_done [] = 0
count_done (c ∷ rest) = one_if c.done + count_done rest

-- The map has the blocks received: none past the end of the chunk, and `left` are missing.
pub record IsPart (size left : ℕ) (map : List ℕ) : Type 0 where
  pub shape : IsMap map
  pub inside : (b : ℕ) → bit_at map b ≡ true → b < max_chunk_size → b < size
  pub counted : left + blocks_in map 0 max_chunk_size ≡ size

-- A buffer that collects a chunk misses a block; a full one has them all.
pub record IsBuffer (s : Settings) (b : Buffer) : Type 0 where
  pub part :
      is_active b.state ≡ true → IsPart (chunk_size s.sizes b.this_chunk) b.block_count b.blockmap
  pub unfinished : is_active b.state ≡ true → 0 < b.block_count
  pub whole :
      b.state ≡ full → (x : ℕ) → x < chunk_size s.sizes b.this_chunk → bit_at b.blockmap x ≡ true

abbrev pub AllBuffers : Settings → List Buffer → Type 0
AllBuffers s [] = Unit {0}
AllBuffers s (b ∷ rest) = IsBuffer s b × AllBuffers s rest

-- A chunk that is seen and not done has one buffer that collects it, and no other chunk has one. The
-- counters of chunks in progress and of chunks received are right.
pub record IsClient (s : Settings) (c : Client) : Type 0 where
  pub tracked :
      (k : ℕ) → collecting k c.buffers ≡ one_if ((chunk_at c k).seen && not (chunk_at c k).done)
  pub finished : (k : ℕ) → (chunk_at c k).done ≡ true → (chunk_at c k).seen ≡ true
  pub buffers : AllBuffers s c.buffers
  pub progress : c.in_progress ≡ active c.buffers
  pub counted : c.received ≡ count_done c.chunks

pub collecting-set :
    (k : ℕ) (l : List Buffer) (i : ℕ) (b b' : Buffer)
    → get_elem? l i ≡ some b
    → collecting k (set l i b') + one_if (collects k b) ≡ collecting k l + one_if (collects k b')
unfolding collecting
collecting-set k [] i b b' e = absurd (ground arith)
collecting-set k (x ∷ l) zero b b' e = let same : x ≡ b = ground arith in rw same (omega arith)
collecting-set k (x ∷ l) (suc i) b b' e = omega (arith, collecting-set k l i b b' e)

pub active-set :
    (l : List Buffer) (i : ℕ) (b b' : Buffer)
    → get_elem? l i ≡ some b
    → active (set l i b') + one_if (is_active b.state) ≡ active l + one_if (is_active b'.state)
unfolding active
active-set [] i b b' e = absurd (ground arith)
active-set (x ∷ l) zero b b' e = let same : x ≡ b = ground arith in rw same (omega arith)
active-set (x ∷ l) (suc i) b b' e = omega (arith, active-set l i b b' e)

pub held-set :
    (k : ℕ) (l : List Buffer) (i : ℕ) (b b' : Buffer)
    → get_elem? l i ≡ some b
    → held k (set l i b') + one_if (keeps k b) ≡ held k l + one_if (keeps k b')
unfolding held
held-set k [] i b b' e = absurd (ground arith)
held-set k (x ∷ l) zero b b' e = let same : x ≡ b = ground arith in rw same (omega arith)
held-set k (x ∷ l) (suc i) b b' e = omega (arith, held-set k l i b b' e)

pub active-not_full : (b : Buffer) (k : ℕ) → is_active b.state ≡ true → keeps k b ≡ false
active-not_full b k live = go b.state live
  where
    go : (st : BufState) → is_active st ≡ true → (is_full st && b.this_chunk == k) ≡ false
    go filling e = refl
    go dubious e = refl
    go empty e = refl
    go full e = absurd (ground arith)

-- A full buffer more is a chunk more that is done: those two go together.
pub record IsKept (c c' : Client) : Type 0 where
  pub balance :
      (k : ℕ)
      → held k c'.buffers + one_if (chunk_at c k).done
        ≡ held k c.buffers + one_if (chunk_at c' k).done
  pub size : length c'.chunks ≡ length c.chunks

pub IsKept-same : (c c' : Client) → c'.chunks ≡ c.chunks → c'.buffers ≡ c.buffers → IsKept c c'
IsKept-same c c' e f = record { balance = λ k. rw (e, f) refl; size = ap length e }

pub IsKept-trans : (c c' c'' : Client) → IsKept c c' → IsKept c' c'' → IsKept c c''
IsKept-trans c c' c'' p q = record {
  balance = λ k. omega (arith, p.balance k, q.balance k);
  size = q.size ∙ p.size;
}

pub count_done-set :
    (l : List Chunk) (k : ℕ) (ch : Chunk)
    → count_done (set l k ch) + one_if (get_or l k blank).done
      ≡ count_done l + (if ltb k (length l) then one_if ch.done else 0)
unfolding count_done
count_done-set [] k ch = ground arith
count_done-set (x ∷ l) zero ch = ground arith
count_done-set (x ∷ l) (suc k) ch = ground (arith, count_done-set l k ch)

pub AllBuffers-set :
    (s : Settings) (l : List Buffer) (i : ℕ) (b : Buffer)
    → AllBuffers s l
    → IsBuffer s b
    → AllBuffers s (set l i b)
AllBuffers-set s [] i b a h = tt
AllBuffers-set s (x ∷ l) zero b a h = (h, a.1)
AllBuffers-set s (x ∷ l) (suc i) b a h = (a.0, AllBuffers-set s l i b a.1 h)

pub AllBuffers-at :
    (s : Settings) (l : List Buffer) (i : ℕ) (b : Buffer)
    → AllBuffers s l
    → get_elem? l i ≡ some b
    → IsBuffer s b
AllBuffers-at s [] i b a e = absurd (ground arith)
AllBuffers-at s (x ∷ l) zero b a e = let same : x ≡ b = ground arith in rw⁻¹ same a.0
AllBuffers-at s (x ∷ l) (suc i) b a e = AllBuffers-at s l i b a.1 e

-- What a step that only asks for blocks leaves as it was.
pub record IsAsking (s : Settings) (c c' : Client) : Type 0 where
  pub seen : (k : ℕ) → (chunk_at c' k).seen ≡ (chunk_at c k).seen
  pub done : (k : ℕ) → (chunk_at c' k).done ≡ (chunk_at c k).done
  pub collects : (k : ℕ) → collecting k c'.buffers ≡ collecting k c.buffers
  pub fulls : (k : ℕ) → held k c'.buffers ≡ held k c.buffers
  pub actives : active c'.buffers ≡ active c.buffers
  pub dones : count_done c'.chunks ≡ count_done c.chunks
  pub size : length c'.chunks ≡ length c.chunks
  pub progress : c'.in_progress ≡ c.in_progress
  pub received : c'.received ≡ c.received
  pub buffers : AllBuffers s c.buffers → AllBuffers s c'.buffers

pub IsAsking-refl : (s : Settings) (c : Client) → IsAsking s c c
IsAsking-refl s c = record {
  seen = λ k. refl;
  done = λ k. refl;
  collects = λ k. refl;
  fulls = λ k. refl;
  actives = refl;
  dones = refl;
  size = refl;
  progress = refl;
  received = refl;
  buffers = λ a. a;
}

pub IsAsking-trans :
    (s : Settings) (c c' c'' : Client) → IsAsking s c c' → IsAsking s c' c'' → IsAsking s c c''
IsAsking-trans s c c' c'' p q = record {
  seen = λ k. q.seen k ∙ p.seen k;
  done = λ k. q.done k ∙ p.done k;
  collects = λ k. q.collects k ∙ p.collects k;
  fulls = λ k. q.fulls k ∙ p.fulls k;
  actives = q.actives ∙ p.actives;
  dones = q.dones ∙ p.dones;
  size = q.size ∙ p.size;
  progress = q.progress ∙ p.progress;
  received = q.received ∙ p.received;
  buffers = λ a. q.buffers (p.buffers a);
}

pub IsAsking-IsClient :
    (s : Settings) (c c' : Client) → IsAsking s c c' → IsClient s c → IsClient s c'
IsAsking-IsClient s c c' a v = record {
  tracked = λ k. rw (a.seen k, a.done k) (a.collects k ∙ v.tracked k);
  finished = λ k. rw (a.seen k, a.done k) (v.finished k);
  buffers = a.buffers v.buffers;
  progress = a.progress ∙ v.progress ∙ sym a.actives;
  counted = a.received ∙ v.counted ∙ sym a.dones;
}

pub IsAsking-IsKept : (s : Settings) (c c' : Client) → IsAsking s c c' → IsKept c c'
IsAsking-IsKept s c c' a = record {
  balance = λ k. omega (arith, a.fulls k, ap one_if (a.done k));
  size = a.size;
}
