-- ===== src/Client/Begin.antt =====
-- The client as `ChunkerStartup` sets it up.
use frisbee.Base.{ℕ, zero, suc, ◌≡◌, List, [], ◌∷◌}
use frisbee.Base.{arith, refl, sym, get_or, map, replicate, length-replicate}
use frisbee.Client.{Settings, Buffer, blank}
use frisbee.Client.Valid.{held, collecting, active, count_done, AllBuffers}
use frisbee.Client.Write.{}
use frisbee.Client.Threads.{emptied, startup, begin}
use frisbee.Client.Steps.{count_of, IsWorld}

empties-collecting : (k : ℕ) (raw : List Buffer) → collecting k (map emptied raw) ≡ 0
unfolding collecting
empties-collecting k [] = refl
empties-collecting k (b ∷ raw) = omega (arith, empties-collecting k raw)

empties-held : (k : ℕ) (raw : List Buffer) → held k (map emptied raw) ≡ 0
unfolding held
empties-held k [] = refl
empties-held k (b ∷ raw) = omega (arith, empties-held k raw)

empties-active : (raw : List Buffer) → active (map emptied raw) ≡ 0
unfolding active
empties-active [] = refl
empties-active (b ∷ raw) = omega (arith, empties-active raw)

empties-AllBuffers : (s : Settings) (raw : List Buffer) → AllBuffers s (map emptied raw)
empties-AllBuffers s [] = tt
empties-AllBuffers s (b ∷ raw) = (
  record {
    part = λ e. absurd (ground arith);
    unfinished = λ e. absurd (ground arith);
    whole = λ e. absurd (ground arith);
  },
  empties-AllBuffers s raw,
)

blank-count_done : (n : ℕ) → count_done (replicate n blank) ≡ 0
unfolding count_done
blank-count_done zero = refl
blank-count_done (suc n) = omega (arith, blank-count_done n)

blank-at : (n k : ℕ) → get_or (replicate n blank) k blank ≡ blank
blank-at zero k = refl
blank-at (suc n) zero = refl
blank-at (suc n) (suc k) = blank-at n k

pub begin-IsWorld :
    (s : Settings) (n : ℕ) (randoms : List (ℕ × ℕ)) (raw : List Buffer)
    → IsWorld s n (begin n randoms raw)
unfolding startup count_of
begin-IsWorld s n randoms raw = record {
  client = record {
    tracked = λ k. rw (blank-at n k) (empties-collecting k raw);
    finished = λ k. rw (blank-at n k) (λ e. absurd (ground arith));
    buffers = empties-AllBuffers s raw;
    progress = sym (empties-active raw);
    counted = sym (blank-count_done n);
  };
  once = λ k. rw (blank-at n k) (omega (arith, empties-held k raw));
  rounds = omega arith;
  known = length-replicate n blank;
}
