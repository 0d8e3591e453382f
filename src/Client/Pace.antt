-- ===== src/Client/Pace.antt =====
-- The counters of the client's receive loop.
use frisbee.Base.{
  ℕ, ◌+◌, ◌*◌, ◌≤◌, ◌<◌, ◌≡◌, ◌≢◌, Bool, true, false, ◌&&◌, not, List, [], ◌∷◌, Option, some, none,
}
use frisbee.Base.{arith, refl, ◌==◌, ◌∙◌, ap, subst, map, leb, length, Bool-cases, inl, inr}
use frisbee.Client.{Settings, Client, request_chunk}
use frisbee.Client.Loop.{
  timeout_hz, Pace, Receiver, ready, gives_up, count_down, keep_alive, slow_down, idle, silent,
  Received, bad_packet, stray_block, ignored, message, handle, heard, Round, no_packet, packet,
  round, run,
}

-- The bounds of the counters of the receive loop.
pub record IsReceiver (p : Pace) (r : Receiver) : Type 0 where
  pub slow : r.back_off ≤ timeout_hz
  pub idles : r.idle_counter ≤ p.idle_timer + timeout_hz + 1

keep_alive-IsReceiver :
    (p : Pace) (failed : Bool) (r : Receiver) → IsReceiver p r → IsReceiver p (keep_alive failed r)
unfolding keep_alive
keep_alive-IsReceiver p failed r h = record {
  slow = ground (arith, h.slow);
  idles = ground (arith, h.idles);
}

count_down-IsReceiver : (p : Pace) (r : Receiver) → IsReceiver p r → IsReceiver p (count_down p r)
count_down-IsReceiver p r h = record {
  slow = ground (arith, h.slow);
  idles = ground (arith, h.idles);
}

slow_down-IsReceiver :
    (p : Pace) (r : Receiver)
    → r.back_off ≤ timeout_hz
    → r.idle_counter ≡ p.idle_timer
    → IsReceiver p (slow_down r)
unfolding slow_down
slow_down-IsReceiver p r h e = record { slow = ground (arith, h); idles = ground (arith, h, e) }

idle-IsReceiver :
    (s : Settings) (p : Pace) (now : ℕ) (r : Receiver)
    → IsReceiver p r
    → IsReceiver p (idle s p now r)
unfolding idle
idle-IsReceiver s p now r h = elim (Bool-cases (leb r.idle_counter 1)) [
  | inl due ↦
      rw (due, idle)
        (slow_down-IsReceiver p
          (record r { client = request_chunk s now true r.client; idle_counter = p.idle_timer })
          h.slow refl)
  | inr early ↦ rw (early, idle) (record { slow = h.slow; idles = omega (arith, h.idles) })
]

silent_on :
    (s : Settings) (p : Pace) (now : ℕ) (failed : Bool) (r : Receiver)
    → gives_up p r ≡ false
    → silent s p now failed r ≡ some (idle s p now (keep_alive failed (count_down p r)))
unfolding silent
silent_on s p now failed r e = rw (e, silent) refl

keep_alive-st_counter :
    (failed : Bool) (r : Receiver) → (keep_alive failed r).st_counter ≡ r.st_counter
unfolding keep_alive
keep_alive-st_counter failed r = ground arith

idle-st_counter :
    (s : Settings) (p : Pace) (now : ℕ) (r : Receiver) → (idle s p now r).st_counter ≡ r.st_counter
unfolding idle slow_down
idle-st_counter s p now r = ground arith

abbrev pub ends : Option Receiver → Bool
ends none = true
ends (some r) = false

abbrev pub quiet : ℕ × Bool → Round
quiet (now, failed) = no_packet now failed

abbrev pub silence : Settings → Pace → List (ℕ × Bool) → Receiver → Option Receiver
silence s p l r = run s p (map quiet l) r

module _ (s : Settings) (p : Pace) (now : ℕ) (failed : Bool) (rest : List (ℕ × Bool))
    (r : Receiver) where
  silence_end : gives_up p r ≡ true → silence s p ((now, failed) ∷ rest) r ≡ none
  unfolding run round silent
  silence_end e = rw (run, round, silent, e) refl

  silence_on :
      gives_up p r ≡ false
      → silence s p ((now, failed) ∷ rest) r
        ≡ silence s p rest (idle s p now (keep_alive failed (count_down p r)))
  unfolding run round silent
  silence_on e = rw (run, round, silent, e) refl

  next_counter :
      (idle s p now (keep_alive failed (count_down p r))).st_counter ≡ (count_down p r).st_counter
  next_counter =
      idle-st_counter s p now (keep_alive failed (count_down p r))
      ∙ keep_alive-st_counter failed (count_down p r)

-- A thread that hears nothing ends in exactly the round that its counter of the server's time names,
-- counted from the next one; without a timeout it does not end.
pub silence_lem :
    (s : Settings) (p : Pace) (l : List (ℕ × Bool)) (r : Receiver)
    → 0 < r.st_counter
    → ends (silence s p l r) ≡ (not (p.server_timeout == 0) && leb r.st_counter (length l))
unfolding run round
silence_lem s p [] r h = ground arith
silence_lem s p ((now, failed) ∷ rest) r h = elim (Bool-cases (gives_up p r)) [
  | inl e ↦ rw (silence_end s p now failed rest r e) (ground (arith, e))
  | inr e ↦
      let r' = idle s p now (keep_alive failed (count_down p r)) in
      let c = next_counter s p now failed rest r in
      let pos : 0 < r'.st_counter = ground (arith, c, e) in
      rw (silence_on s p now failed rest r e) (silence_lem s p rest r' pos ∙ ground (arith, c, e))
]

heard-IsReceiver :
    (s : Settings) (p : Pace) (now : ℕ) (x : Received) (r : Receiver)
    → IsReceiver p r
    → IsReceiver p (heard s p now x r)
unfolding heard handle
heard-IsReceiver s p now (message e) r h = record {
  slow = ground (arith, h.slow);
  idles = ground (arith, h.idles);
}
heard-IsReceiver s p now bad_packet r h = record { slow = h.slow; idles = h.idles }
heard-IsReceiver s p now stray_block r h = record { slow = h.slow; idles = h.idles }
heard-IsReceiver s p now ignored r h = record { slow = h.slow; idles = h.idles }

abbrev pub IsReceiverIf : Pace → Option Receiver → Type 0
IsReceiverIf p none = Unit {0}
IsReceiverIf p (some r) = IsReceiver p r

round-IsReceiverIf :
    (s : Settings) (p : Pace) (t : Round) (r : Receiver)
    → IsReceiver p r
    → IsReceiverIf p (round s p t r)
unfolding round silent
round-IsReceiverIf s p (packet now x) r h = heard-IsReceiver s p now x r h
round-IsReceiverIf s p (no_packet now failed) r h = elim (Bool-cases (gives_up p r)) [
  | inl stop ↦ rw (stop, round, silent) tt
  | inr on ↦
      rw (on, round, silent)
        (idle-IsReceiver s p now (keep_alive failed (count_down p r))
          (keep_alive-IsReceiver p failed (count_down p r) (count_down-IsReceiver p r h)))
]

next-IsReceiverIf :
    (s : Settings) (p : Pace) (rest : List Round) (o : Option Receiver)
    → IsReceiverIf p o
    → ((r : Receiver) → IsReceiver p r → IsReceiverIf p (run s p rest r))
    → IsReceiverIf p (elim o [ none ↦ none | some r' ↦ run s p rest r' ])
next-IsReceiverIf s p rest none h f = tt
next-IsReceiverIf s p rest (some r) h f = f r h

run_from-IsReceiverIf :
    (s : Settings) (p : Pace) (l : List Round) (r : Receiver)
    → IsReceiver p r
    → IsReceiverIf p (run s p l r)
unfolding run
run_from-IsReceiverIf s p [] r h = h
run_from-IsReceiverIf s p (t ∷ rest) r h =
    next-IsReceiverIf s p rest (round s p t r) (round-IsReceiverIf s p t r h)
      (λ r' k. run_from-IsReceiverIf s p rest r' k)

-- In the rounds without a packet the thread ends, or the client stays as it is until `RequestChunk`
-- is called for it.
pub data AskOutcome (s : Settings) (p : Pace) : List (ℕ × Bool) → Receiver → Type 0 where
  thread_ends :
      (now : ℕ) (failed : Bool) (rest : List (ℕ × Bool)) (r : Receiver)
      → round s p (no_packet now failed) r ≡ none
      → AskOutcome s p ((now, failed) ∷ rest) r
  asks :
      (now : ℕ) (failed : Bool) (rest : List (ℕ × Bool)) (r r' : Receiver)
      → round s p (no_packet now failed) r ≡ some r'
      → r'.client ≡ request_chunk s now true r.client
      → AskOutcome s p ((now, failed) ∷ rest) r
  waits :
      (now : ℕ) (failed : Bool) (rest : List (ℕ × Bool)) (r r' : Receiver)
      → round s p (no_packet now failed) r ≡ some r'
      → r'.client ≡ r.client
      → AskOutcome s p rest r'
      → AskOutcome s p ((now, failed) ∷ rest) r

slow_down-client : (r : Receiver) → (slow_down r).client ≡ r.client
unfolding slow_down
slow_down-client r = ground arith

module _ (s : Settings) (p : Pace) (now : ℕ) (r : Receiver) where
  idle_asks :
      leb r.idle_counter 1 ≡ true → (idle s p now r).client ≡ request_chunk s now true r.client
  unfolding idle
  idle_asks due =
      rw (due, idle)
        (slow_down-client
          (record r { client = request_chunk s now true r.client; idle_counter = p.idle_timer }))

  idle_waits :
      leb r.idle_counter 1 ≡ false
      → ((idle s p now r).client ≡ r.client) × ((idle s p now r).idle_counter + 1 ≡ r.idle_counter)
  unfolding idle
  idle_waits early = rw (early, idle) (refl, ground arith)

before_idle :
    (p : Pace) (failed : Bool) (r : Receiver)
    → ((keep_alive failed (count_down p r)).client ≡ r.client)
      × ((keep_alive failed (count_down p r)).idle_counter ≡ r.idle_counter)
unfolding keep_alive
before_idle p failed r = (ground arith, ground arith)

silence-AskOutcome :
    (s : Settings) (p : Pace) (l : List (ℕ × Bool)) (r : Receiver)
    → r.idle_counter ≤ length l
    → 1 ≤ length l
    → AskOutcome s p l r
unfolding round silent
silence-AskOutcome s p [] r h pos = absurd (omega (arith, pos))
silence-AskOutcome s p ((now, failed) ∷ rest) r h pos = elim (Bool-cases (gives_up p r)) [
  | inl stop ↦ thread_ends now failed rest r (rw (stop, round, silent) refl)
  | inr on ↦
      let r' = keep_alive failed (count_down p r) in
      let same = before_idle p failed r in
      let next : round s p (no_packet now failed) r ≡ some (idle s p now r') =
        rw (on, round, silent) refl in
      elim (Bool-cases (leb r'.idle_counter 1)) [
        | inl due ↦
            asks now failed rest r (idle s p now r') next
              (idle_asks s p now r' due ∙ ap (request_chunk s now true) same.0)
        | inr early ↦
            let w = idle_waits s p now r' early in
            waits now failed rest r (idle s p now r') next (w.0 ∙ same.0) (
              silence-AskOutcome s p rest (idle s p now r') (omega (arith, w.1, same.1, h))
                (ground (arith, w.1, same.1, h, early)))
      ]
]

run_some-AskOutcome :
    (s : Settings) (p : Pace) (o : Option Receiver) (r : Receiver) (l : List (ℕ × Bool))
    → IsReceiverIf p o
    → o ≡ some r
    → p.idle_timer + timeout_hz + 1 ≤ length l
    → AskOutcome s p l r
run_some-AskOutcome s p none r l h e long = absurd (ground arith)
run_some-AskOutcome s p (some x) r l h e long =
    let same : x ≡ r = ground arith in
    let h' : IsReceiver p r = subst (IsReceiver p) same h in
    silence-AskOutcome s p l r (omega (arith, h'.idles, long)) (omega (arith, long))

-- Whatever rounds a receive thread has behind it, with packets or without, in the next
-- `idle_timer + timeout_hz + 1` rounds without a packet it ends or calls `RequestChunk`, which finds
-- the client as it was before these rounds.
pub run-AskOutcome :
    (s : Settings) (p : Pace) (keepalive : ℕ) (c : Client) (before : List Round) (r : Receiver)
    (l : List (ℕ × Bool))
    → run s p before (ready p keepalive c) ≡ some r
    → p.idle_timer + timeout_hz + 1 ≤ length l
    → AskOutcome s p l r
run-AskOutcome s p keepalive c before r l e long =
    run_some-AskOutcome s p (run s p before (ready p keepalive c)) r l
      (run_from-IsReceiverIf s p before (ready p keepalive c)
        (record { slow = omega arith; idles = omega arith }))
      e long

-- Every packet that arrives, of any sender and kind and also a bad one, starts the server's time again.
pub heard_lem :
    (s : Settings) (p : Pace) (now : ℕ) (x : Received) (r : Receiver)
    → p.server_timeout ≢ 0
    → (heard s p now x r).st_counter ≡ p.server_timeout * timeout_hz
unfolding heard handle
heard_lem s p now (message e) r h = ground arith
heard_lem s p now bad_packet r h = ground arith
heard_lem s p now stray_block r h = ground arith
heard_lem s p now ignored r h = ground arith
