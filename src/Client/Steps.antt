-- ===== src/Client/Steps.antt =====
-- The invariant of the client's two threads, src/frisbee.redux/client.c.
use frisbee.Base.{ℕ, ◌+◌, ◌≡◌, true, false, List, [], ◌∷◌, ◌∙◌, some}
use frisbee.Base.{arith, ◌==◌, map, length, Bool-cases, inl, inr}
use frisbee.BlockMap.{BlockMap, max_chunk_size}
use frisbee.BlockMap.Bits.{IsMap, bit_at}
use frisbee.BlockMap.Scan.{apply}
use frisbee.BlockMap.Scan.Runs.{runs}
use frisbee.BlockMap.Scan.Apply.{call_all, apply_lem}
use frisbee.Client.{Settings, Client, chunk_at, request_stamp}
use frisbee.Client.Valid.{
  IsClient, IsAsking, IsAsking-refl, IsAsking-trans, IsAsking-IsClient, IsAsking-IsKept, IsKept,
  IsKept-trans, held, one_if,
}
use frisbee.Client.Requests.{request_stamp-IsAsking}
use frisbee.Client.Insert.{IsSettings}
use frisbee.Client.Slots.{got_block-Got}
use frisbee.Client.Receive.{got_block}
use frisbee.Client.Write.{}
use frisbee.Client.Threads.{
  Event, block_message, request_message, prequest_message, receive, World, IsEvent,
}

-- How often the number is in the list.
unfoldable pub count_of : ℕ → List ℕ → ℕ
count_of k [] = 0
count_of k (x ∷ rest) = one_if (x == k) + count_of k rest

-- A chunk that is done has been written, or a full buffer holds it; another has not.
pub record IsWorld (s : Settings) (n : ℕ) (w : World) : Type 0 where
  pub client : IsClient s w.client
  pub once :
      (k : ℕ) → count_of k w.written + held k w.client.buffers ≡ one_if (chunk_at w.client k).done
  pub rounds : w.to_write + length w.written ≡ n
  pub known : length w.client.chunks ≡ n

call_all-IsAsking :
    (s : Settings) (now k : ℕ) (rs : List (ℕ × ℕ)) (did : ℕ) (c : Client)
    → IsAsking s c (call_all (some (request_stamp s now false)) k rs did c).1
unfolding call_all
call_all-IsAsking s now k [] did c = IsAsking-refl s c
call_all-IsAsking s now k ((start, count) ∷ rs) did c =
    let r = request_stamp s now false k start count c in
    let first = request_stamp-IsAsking s now false k start count c in
    elim (Bool-cases r.0) [
      | inl stop ↦ rw (stop, call_all) first
      | inr on ↦
          rw (on, call_all)
            (IsAsking-trans s c r.1
              (call_all (some (request_stamp s now false)) k rs (did + count) r.1).1 first
              (call_all-IsAsking s now k rs (did + count) r.1))
    ]

prequest-IsAsking :
    (s : Settings) (now k : ℕ) (map : BlockMap) (c : Client)
    → IsMap map
    → IsAsking s c (apply (some (request_stamp s now false)) k map c).1
prequest-IsAsking s now k map c h =
    rw (apply_lem (some (request_stamp s now false)) k map c h)
      (call_all-IsAsking s now k (runs (bit_at map) max_chunk_size 0 0 0) 0 c)

-- The client after a step of the receive thread: well-formed, and as many chunks full as done.
abbrev pub IsNext : Settings → Client → Client → Type 0
IsNext s c c' = IsClient s c' × IsKept c c'

pub asking-IsNext : (s : Settings) (c c' : Client) → IsClient s c → IsAsking s c c' → IsNext s c c'
asking-IsNext s c c' v a = (IsAsking-IsClient s c c' a v, IsAsking-IsKept s c c' a)

pub receive-IsNext :
    (s : Settings) (now : ℕ) (e : Event) (c : Client)
    → IsSettings s
    → IsClient s c
    → IsEvent s c e
    → IsNext s c (receive s now e c).1
unfolding receive
receive-IsNext s now (block_message k block payload) c ok v (known, inside) =
    let r = got_block s now k block payload c in
    let got = got_block-Got s ok now k block payload inside c v known in
    let c' = (request_stamp s now true k block 1 r.1).1 in
    let next = asking-IsNext s r.1 c' got.1 (request_stamp-IsAsking s now true k block 1 r.1) in
    (next.0, IsKept-trans c r.1 c' got.2 next.1)
receive-IsNext s now (request_message k block count) c ok v h =
    asking-IsNext s c (request_stamp s now false k block count c).1 v
      (request_stamp-IsAsking s now false k block count c)
receive-IsNext s now (prequest_message k map) c ok v h =
    asking-IsNext s c (apply (some (request_stamp s now false)) k map c).1 v
      (prequest-IsAsking s now k map c h)

pub next-IsWorld :
    (s : Settings) (n : ℕ) (w : World) (c : Client)
    → IsWorld s n w
    → IsNext s w.client c
    → IsWorld s n (record w { client = c })
next-IsWorld s n w c h (v, q) = record {
  client = v;
  once = λ k. omega (arith, h.once k, q.balance k);
  rounds = h.rounds;
  known = q.size ∙ h.known;
}
