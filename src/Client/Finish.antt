-- ===== src/Client/Finish.antt =====
-- The end of the main loop of `ChunkerStartup`, src/frisbee.redux/client.c: how often each chunk was
-- written, and the rounds up to the end.
use frisbee.Base.{ℕ, zero, suc, ◌+◌, ◌<◌, ◌≤◌, ◌≡◌, true, false, List, [], ◌∷◌, Option, some, none}
use frisbee.Base.{
  arith, ltb, refl, sym, ap, subst, ◌==◌, if◌then◌else◌, length, Bool-cases, inl, inr,
}
use frisbee.Client.Search.{none_in}
use frisbee.Client.{is_full, Settings, Buffer, chunk_at}
use frisbee.Client.Valid.{held, one_if}
use frisbee.Client.Requests.{get_or-beyond}
use frisbee.Client.Insert.{IsSettings}
use frisbee.Client.Receive.{write_from}
use frisbee.Client.Write.{WriteOutcome, write_from-WriteOutcome}
use frisbee.Client.Threads.{World, begin, write_round, Reach}
use frisbee.Client.Steps.{count_of, IsWorld}
use frisbee.Client.Reach.{Reach-IsWorld, write_round-IsWorld, round_writes}

-- How many of the list's entries are below `n`, counted by value.
sum_to : ℕ → List ℕ → ℕ
sum_to zero l = 0
sum_to (suc n) l = count_of n l + sum_to n l

sum_to-nil : (n : ℕ) → sum_to n [] ≡ 0
unfolding sum_to count_of
sum_to-nil zero = refl
sum_to-nil (suc n) = omega (arith, sum_to-nil n)

sum_to-cons : (n x : ℕ) (l : List ℕ) → sum_to n (x ∷ l) ≡ (if ltb x n then 1 else 0) + sum_to n l
unfolding sum_to count_of
sum_to-cons zero x l = ground arith
sum_to-cons (suc n) x l = ground (arith, sum_to-cons n x l)

sum_to-length : (n : ℕ) (l : List ℕ) → ((k : ℕ) → n ≤ k → count_of k l ≡ 0) → sum_to n l ≡ length l
unfolding count_of
sum_to-length n [] h = sum_to-nil n
sum_to-length n (x ∷ l) h =
    let small : ltb x n ≡ true = ground (arith, h x) in
    ground (arith, small, sum_to-cons n x l, sum_to-length n l (λ k e. omega (arith, h k e)))

sum_to-le : (n : ℕ) (l : List ℕ) → ((k : ℕ) → count_of k l ≤ 1) → sum_to n l ≤ n
unfolding sum_to
sum_to-le zero l h = omega arith
sum_to-le (suc n) l h = omega (arith, h n, sum_to-le n l h)

sum_to-tight :
    (n : ℕ) (l : List ℕ)
    → ((k : ℕ) → count_of k l ≤ 1)
    → sum_to n l ≡ n
    → (k : ℕ) → k < n
    → count_of k l ≡ 1
unfolding sum_to
sum_to-tight zero l h e k small = absurd (omega arith)
sum_to-tight (suc n) l h e k small = elim (Bool-cases (k == n)) [
  | inl same ↦ let is : k ≡ n = ground arith in rw is (omega (arith, e, h n, sum_to-le n l h))
  | inr other ↦ sum_to-tight n l h (omega (arith, e, h n, sum_to-le n l h)) k (ground arith)
]

sum_to-all : (n : ℕ) (l : List ℕ) → ((k : ℕ) → k < n → count_of k l ≡ 1) → sum_to n l ≡ n
unfolding sum_to
sum_to-all zero l h = refl
sum_to-all (suc n) l h = omega (arith, h n (omega arith), sum_to-all n l (λ k e. h k (omega arith)))

module _ (s : Settings) (n : ℕ) (w : World) (h : IsWorld s n w) where
  at_most_once : (k : ℕ) → count_of k w.written ≤ 1
  at_most_once k = ground (arith, h.once k)

  none_beyond : (k : ℕ) → n ≤ k → count_of k w.written ≡ 0
  none_beyond k e = ground (arith, h.once k, h.known, get_or-beyond w.client.chunks k)

  -- With no chunk to come, each chunk of the image was written once.
  written_once : w.to_write ≡ 0 → (k : ℕ) → k < n → count_of k w.written ≡ 1
  written_once over =
      sum_to-tight n w.written at_most_once
        (omega (arith, sum_to-length n w.written none_beyond, h.rounds, over))

  -- With all chunks done and no full buffer, no chunk is to come.
  nothing_left :
      ((k : ℕ) → k < n → (chunk_at w.client k).done ≡ true)
      → ((k : ℕ) → held k w.client.buffers ≡ 0)
      → w.to_write ≡ 0
  nothing_left dones e =
      let all =
        sum_to-all n w.written (λ k l. omega (arith, h.once k, e k, ap one_if (dones k l))) in
      omega (arith, all, sum_to-length n w.written none_beyond, h.rounds)

none_full-held : (k : ℕ) (l : List Buffer) → none_in is_full l ≡ true → held k l ≡ 0
unfolding none_in held
none_full-held k [] e = refl
none_full-held k (b ∷ l) e =
    let idle : is_full b.state ≡ false = ground arith in
    ground (arith, idle, none_full-held k l (ground arith))

-- A round that finds all chunks done writes one, while some are to come.
module _ (s : Settings) (n : ℕ) (w : World) (h : IsWorld s n w)
    (dones : (k : ℕ) → k < n → (chunk_at w.client k).done ≡ true) (left : ℕ)
    (more : w.to_write ≡ suc left) where
  abbrev IsOneWritten : World → Type 0
  IsOneWritten w' = (w'.to_write ≡ left) × (w'.client.chunks ≡ w.client.chunks)

  one_written :
      (r : Option (ℕ × List Buffer))
      → write_from w.client.buffers ≡ r
      → WriteOutcome w.client.buffers r
      → IsOneWritten (write_round w)
  one_written none e t =
      absurd
        (omega (arith, more, nothing_left s n w h dones (λ k. none_full-held k w.client.buffers t)))
  one_written (some (k, l)) e t =
      subst IsOneWritten (sym (round_writes w left k l more e)) (refl, refl)

  write_round-IsOneWritten : IsOneWritten (write_round w)
  write_round-IsOneWritten =
      one_written (write_from w.client.buffers) refl (write_from-WriteOutcome w.client.buffers)

-- The rounds of the main loop with no packet in between.
unfoldable pub write_rounds : ℕ → World → World
write_rounds zero w = w
write_rounds (suc m) w = write_rounds m (write_round w)

write_rounds-over :
    (s : Settings) (n m : ℕ) (w : World)
    → IsWorld s n w
    → ((k : ℕ) → k < n → (chunk_at w.client k).done ≡ true)
    → w.to_write ≡ m
    → ((write_rounds m w).to_write ≡ 0) × IsWorld s n (write_rounds m w)
unfolding write_rounds
write_rounds-over s n zero w h dones e = (e, h)
write_rounds-over s n (suc m) w h dones e =
    let r = write_round-IsOneWritten s n w h dones m e in
    write_rounds-over s n m (write_round w) (write_round-IsWorld s n w h)
      (λ k l. rw r.1 (dones k l)) r.0

-- In a state that the client's threads reach from the start, with blocks that are blocks of their
-- chunk, with no chunk left to write, so that the main loop ends, each chunk of the image has been
-- written once.
pub Reach-written_once :
    (s : Settings) (n : ℕ) (randoms : List (ℕ × ℕ)) (raw : List Buffer) (w : World)
    → IsSettings s
    → Reach s (begin n randoms raw) w
    → w.to_write ≡ 0
    → (k : ℕ) → k < n
    → count_of k w.written ≡ 1
Reach-written_once s n randoms raw w ok r =
    written_once s n w (Reach-IsWorld s n randoms raw w ok r)

-- In a state that the client's threads reach from the start, with blocks that are blocks of their
-- chunk, and in which all chunks are done, the main loop comes to its end: in as many rounds as chunks are left to write it
-- writes them, so that each chunk of the image has been written once.
pub write_rounds_lem :
    (s : Settings) (n : ℕ) (randoms : List (ℕ × ℕ)) (raw : List Buffer) (w : World)
    → IsSettings s
    → Reach s (begin n randoms raw) w
    → ((k : ℕ) → k < n → (chunk_at w.client k).done ≡ true)
    → ((write_rounds w.to_write w).to_write ≡ 0)
      × ((k : ℕ) → k < n → count_of k (write_rounds w.to_write w).written ≡ 1)
write_rounds_lem s n randoms raw w ok r dones =
    let over =
      write_rounds-over s n w.to_write w (Reach-IsWorld s n randoms raw w ok r) dones refl in
    (over.0, written_once s n (write_rounds w.to_write w) over.1 over.0)
