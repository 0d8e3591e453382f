-- ===== src/Client/Reach.antt =====
-- What holds in every state that the client's threads reach.
use frisbee.Base.{ℕ, zero, suc, ◌≡◌, true, List, ◌∷◌, Option, some, none}
use frisbee.Base.{arith, refl, sym, subst}
use frisbee.Client.{Settings, Buffer, request_chunk}
use frisbee.Client.Valid.{}
use frisbee.Client.Rounds.{request_chunk-IsAsking}
use frisbee.Client.Insert.{IsSettings}
use frisbee.Client.Receive.{write_chunk, write_from}
use frisbee.Client.Write.{
  IsWritten, WriteOutcome, write_from-WriteOutcome, freed-held, freed-IsClient,
}
use frisbee.Client.Threads.{
  receive, World, begin, write_round, Step, receives, times_out, writes, Reach, stay, after,
}
use frisbee.Client.Steps.{count_of, IsWorld, asking-IsNext, receive-IsNext, next-IsWorld}
use frisbee.Client.Begin.{begin-IsWorld}

-- The chunk that a round writes.
written-IsWorld :
    (s : Settings) (n : ℕ) (w : World) (left k : ℕ) (l : List Buffer)
    → IsWorld s n w
    → w.to_write ≡ suc left
    → IsWritten k w.client.buffers l
    → IsWorld s n (record {
      client = record w.client { buffers = l };
      written = k ∷ w.written;
      to_write = left;
    })
unfolding count_of
written-IsWorld s n w left k l h more t = record {
  client = freed-IsClient s w.client k l h.client t;
  once = λ j. omega (arith, h.once j, freed-held s w.client k l h.client t j);
  rounds = omega (arith, h.rounds, more);
  known = h.known;
}

module _ (w : World) where
  round_over : w.to_write ≡ 0 → write_round w ≡ w
  unfolding write_round
  round_over e = simp (write_round, e) refl

  round_idle :
      (left : ℕ) → w.to_write ≡ suc left → write_from w.client.buffers ≡ none → write_round w ≡ w
  unfolding write_round write_chunk
  round_idle left e d = simp (write_round, write_chunk, e, d) refl

  pub round_writes :
      (left k : ℕ) (l : List Buffer)
      → w.to_write ≡ suc left
      → write_from w.client.buffers ≡ some (k, l)
      → write_round w ≡ record {
        client = record w.client { buffers = l };
        written = k ∷ w.written;
        to_write = left;
      }
  unfolding write_round write_chunk
  round_writes left k l e d = simp (write_round, write_chunk, e, d) refl

pub write_round-IsWorld :
    (s : Settings) (n : ℕ) (w : World) → IsWorld s n w → IsWorld s n (write_round w)
write_round-IsWorld s n w h =
    go w.to_write refl (write_from w.client.buffers) refl (write_from-WriteOutcome w.client.buffers)
  where
    go :
        (m : ℕ)
        → w.to_write ≡ m
        → (r : Option (ℕ × List Buffer)) → write_from w.client.buffers ≡ r
        → WriteOutcome w.client.buffers r
        → IsWorld s n (write_round w)
    go zero e r d t = subst (IsWorld s n) (sym (round_over w e)) h
    go (suc left) e none d t = subst (IsWorld s n) (sym (round_idle w left e d)) h
    go (suc left) e (some (k, l)) d t =
        subst (IsWorld s n) (sym (round_writes w left k l e d))
          (written-IsWorld s n w left k l h e t)

Step-IsWorld :
    (s : Settings) (n : ℕ) (w w' : World)
    → IsSettings s
    → IsWorld s n w
    → Step s w w'
    → IsWorld s n w'
Step-IsWorld s n _ _ ok h (receives now e w k) =
    next-IsWorld s n w (receive s now e w.client).1 h
      (receive-IsNext s now e w.client ok h.client k)
Step-IsWorld s n _ _ ok h (times_out now w) =
    next-IsWorld s n w (request_chunk s now true w.client) h (
      asking-IsNext s w.client (request_chunk s now true w.client) h.client
        (request_chunk-IsAsking s now true w.client))
Step-IsWorld s n _ _ ok h (writes w) = write_round-IsWorld s n w h

Reach-IsWorld_from :
    (s : Settings) (n : ℕ) (w w' : World)
    → IsSettings s
    → IsWorld s n w
    → Reach s w w'
    → IsWorld s n w'
Reach-IsWorld_from s n _ _ ok h (stay w) = h
Reach-IsWorld_from s n _ _ ok h (after w m w' r t) =
    Step-IsWorld s n m w' ok (Reach-IsWorld_from s n w m ok h r) t

-- In every state that the client's threads reach from the start, with blocks that are blocks of their
-- chunk, the client is well-formed, and a chunk has been written once or is in one full buffer if it
-- is done, and neither if it is not.
pub Reach-IsWorld :
    (s : Settings) (n : ℕ) (randoms : List (ℕ × ℕ)) (raw : List Buffer) (w : World)
    → IsSettings s
    → Reach s (begin n randoms raw) w
    → IsWorld s n w
Reach-IsWorld s n randoms raw w ok r =
    Reach-IsWorld_from s n (begin n randoms raw) w ok (begin-IsWorld s n randoms raw) r
