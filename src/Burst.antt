-- ===== src/Burst.antt =====
-- The dynamic rate of the server: `calcburst` of src/frisbee.redux/server.c, called once for each burst.
-- The product with `MULT_DECREASE`, a floating-point number, is a parameter. The time of day and the
-- counts of retries are arguments.
use frisbee.Base.{
  ℕ, zero, suc, ◌+◌, ◌-◌, ◌≤◌, ◌<◌, ◌≡◌, ◌≢◌, Bool, true, false, ◌||◌, List, [], ◌∷◌, Option, some,
  none,
}
use frisbee.Base.{arith, refl, if◌then◌else◌, ◌==◌, ltb, ◌⊎◌, get_or, Bool-cases, inl, inr}
use frisbee.Clock.{Time, past_time, add_usec}

-- `LOSS_INTERVAL`, in microseconds.
abbrev pub loss_interval : ℕ
loss_interval = 500000

-- `burstsize`, `lostmap`, and the static variables of `calcburst`.
pub record Burst : Type 0 where
  pub burst_size : ℕ
  pub lost_map : Option (List ℕ)
  pub last_send_retries : ℕ
  pub last_client_retries : ℕ
  pub bursts : ℕ
  pub next_stamp : Time

-- The loop over the lost chunks: how many, and the map without them.
unfoldable pub count_lost_chunks : List ℕ → ℕ
count_lost_chunks [] = 0
count_lost_chunks (x ∷ rest) = let n = count_lost_chunks rest in if x == 0 then n else n + 1

unfoldable pub clear_lost : List ℕ → List ℕ
clear_lost [] = []
clear_lost (x ∷ rest) = 0 ∷ clear_lost rest

unfoldable pub lost_chunks : Option (List ℕ) → ℕ
lost_chunks none = 0
lost_chunks (some l) = count_lost_chunks l

abbrev pub reset_lost : Option (List ℕ) → Option (List ℕ)
reset_lost none = none
reset_lost (some l) = some (clear_lost l)

abbrev pub had_loss : ℕ → Burst → Bool
had_loss send_retries b = ltb b.last_send_retries send_retries || ltb 0 (lost_chunks b.lost_map)

-- Sends had to be repeated since the last time, or a chunk is marked as lost.
abbrev pub IsLoss : ℕ → Burst → Type 0
IsLoss send_retries b =
    (b.last_send_retries < send_retries)
    ⊎ ((l : List ℕ) × (i : ℕ) × (b.lost_map ≡ some l) × (get_or l i 0 ≢ 0))

count_lost_chunks-pos : (l : List ℕ) (i : ℕ) → get_or l i 0 ≢ 0 → 0 < count_lost_chunks l
unfolding count_lost_chunks
count_lost_chunks-pos [] i h = absurd (h refl)
count_lost_chunks-pos (x ∷ l) zero h = ground (arith, h)
count_lost_chunks-pos (x ∷ l) (suc i) h = ground (arith, count_lost_chunks-pos l i h)

lost_entry : (l : List ℕ) → 0 < count_lost_chunks l → (i : ℕ) × (get_or l i 0 ≢ 0)
unfolding count_lost_chunks
lost_entry [] h = absurd (omega (arith, h))
lost_entry (x ∷ l) h = elim (Bool-cases (x == 0)) [
  | inl z ↦ let r = lost_entry l (ground (arith, h, z)) in (suc r.0, r.1)
  | inr p ↦ (0, λ e. ground (arith, e, p))
]

IsLoss-had_loss :
    (send_retries : ℕ) (b : Burst) → IsLoss send_retries b → had_loss send_retries b ≡ true
unfolding lost_chunks
IsLoss-had_loss send_retries b (inl more) = ground (arith, more)
IsLoss-had_loss send_retries b (inr (l, i, e, h)) =
    rw e (ground (arith, count_lost_chunks-pos l i h))

lost_chunks-IsLoss :
    (send_retries : ℕ) (b : Burst) (o : Option (List ℕ))
    → b.lost_map ≡ o
    → 0 < lost_chunks o
    → IsLoss send_retries b
unfolding lost_chunks
lost_chunks-IsLoss send_retries b none e h = absurd (omega (arith, h))
lost_chunks-IsLoss send_retries b (some l) e h = let r = lost_entry l h in inr (l, r.0, e, r.1)

none-had_loss :
    (send_retries : ℕ) (b : Burst) → ¬ IsLoss send_retries b → had_loss send_retries b ≡ false
none-had_loss send_retries b n = elim (Bool-cases (had_loss send_retries b)) [
  | inr fine ↦ fine
  | inl loss ↦ elim (Bool-cases (ltb b.last_send_retries send_retries)) [
    | inl more ↦ absurd (n (inl (ground arith)))
    | inr same ↦
        absurd (n (lost_chunks-IsLoss send_retries b b.lost_map refl (ground (arith, loss, same))))
  ]
]

module _ (decrease : ℕ → ℕ) (max_burst : ℕ) where
  unfoldable pub slower : ℕ → ℕ
  slower size =
      if ltb 1 size
      then (let d = decrease size in
          let d' = if d == size then d - 1 else d in if ltb d' 1 then 1 else d')
      else size

  unfoldable pub faster : ℕ → ℕ
  faster size =
      if ltb size max_burst
      then (if ltb max_burst (size + 1) then max_burst else size + 1)
      else size

  -- What happens when the interval has passed.
  unfoldable pub adjust : ℕ → ℕ → Burst → Burst
  adjust client_retries send_retries b = record b {
    burst_size = if had_loss send_retries b then slower b.burst_size else faster b.burst_size;
    lost_map = reset_lost b.lost_map;
    last_send_retries = send_retries;
    last_client_retries = client_retries;
    bursts = 0;
    next_stamp = add_usec b.next_stamp loss_interval;
  }

  unfoldable pub calc_burst : Time → ℕ → ℕ → Burst → Burst
  calc_burst now client_retries send_retries b =
      if b.next_stamp.sec == 0
      then record b { next_stamp = add_usec now loss_interval }
      else if past_time now b.next_stamp
      then adjust client_retries send_retries (record b { bursts = b.bursts + 1 })
      else record b { bursts = b.bursts + 1 }

  -- Bursts, each with the time and the retries so far.
  unfoldable pub calc_bursts : List (Time × ℕ × ℕ) → Burst → Burst
  calc_bursts [] b = b
  calc_bursts ((now, client_retries, send_retries) ∷ rest) b =
      calc_bursts rest (calc_burst now client_retries send_retries b)

  slower-bounds :
      (size : ℕ)
      → ((n : ℕ) → decrease n ≤ n)
      → 1 ≤ size
      → (1 ≤ slower size) × (slower size ≤ size) × (slower size ≡ size → size ≡ 1)
  unfolding slower
  slower-bounds size down pos =
      (ground (arith, down size), ground (arith, down size), λ e. ground (arith, down size, e))

  calc_burst-bounds :
      (now : Time) (client_retries send_retries : ℕ) (b : Burst)
      → ((n : ℕ) → decrease n ≤ n)
      → 1 ≤ b.burst_size
      → b.burst_size ≤ max_burst
      → (1 ≤ (calc_burst now client_retries send_retries b).burst_size)
        × ((calc_burst now client_retries send_retries b).burst_size ≤ max_burst)
  unfolding calc_burst adjust faster
  calc_burst-bounds now client_retries send_retries b down pos small = (
    ground (arith, slower-bounds b.burst_size down pos),
    ground (arith, slower-bounds b.burst_size down pos),
  )

  -- With a multiplication that does not increase, the burst stays from 1 to its maximum.
  pub calc_bursts-bounds :
      (l : List (Time × ℕ × ℕ)) (b : Burst)
      → ((n : ℕ) → decrease n ≤ n)
      → 1 ≤ b.burst_size
      → b.burst_size ≤ max_burst
      → (1 ≤ (calc_bursts l b).burst_size) × ((calc_bursts l b).burst_size ≤ max_burst)
  unfolding calc_bursts
  calc_bursts-bounds [] b down pos small = (pos, small)
  calc_bursts-bounds ((now, client_retries, send_retries) ∷ rest) b down pos small =
      let h = calc_burst-bounds now client_retries send_retries b down pos small in
      calc_bursts-bounds rest (calc_burst now client_retries send_retries b) down h.0 h.1

  clear_lost-count : (l : List ℕ) → count_lost_chunks (clear_lost l) ≡ 0
  unfolding clear_lost count_lost_chunks
  clear_lost-count [] = refl
  clear_lost-count (x ∷ l) = ground (arith, clear_lost-count l)

  reset_lost-count : (o : Option (List ℕ)) → lost_chunks (reset_lost o) ≡ 0
  unfolding lost_chunks
  reset_lost-count none = refl
  reset_lost-count (some l) = clear_lost-count l

  -- When the interval has passed, a loss makes the burst smaller, unless it is 1; without one it grows
  -- by 1 up to its maximum. A loss is a retry of a send since the last time, or an entry of the map of
  -- lost chunks that is not 0; afterwards there is neither.
  pub calc_burst_lem :
      (now : Time) (client_retries send_retries : ℕ) (b : Burst)
      → ((n : ℕ) → decrease n ≤ n)
      → 1 ≤ b.burst_size
      → b.burst_size ≤ max_burst
      → b.next_stamp.sec ≢ 0
      → past_time now b.next_stamp ≡ true
      → let b' = calc_burst now client_retries send_retries b in
        (IsLoss send_retries b → (b'.burst_size < b.burst_size) ⊎ (b.burst_size ≡ 1))
        × (¬ IsLoss send_retries b
            → b'.burst_size ≡ (if b.burst_size == max_burst then max_burst else b.burst_size + 1))
        × (¬ IsLoss send_retries b')
  unfolding calc_burst adjust faster
  calc_burst_lem now client_retries send_retries b down pos small started passed = (
    (λ l.
        let loss = IsLoss-had_loss send_retries b l in
        ground (arith, slower-bounds b.burst_size down pos, loss, started, passed)),
    (λ n. let fine = none-had_loss send_retries b n in ground (arith, fine, started, passed)),
    λ l.
        let b' = calc_burst now client_retries send_retries b in
        let over : had_loss send_retries b' ≡ false =
          ground (arith, reset_lost-count b.lost_map, started, passed) in
        absurd (ground (arith, over, IsLoss-had_loss send_retries b' l)),
  )
