-- ===== src/Client/Loop.antt =====
-- The loop of `ClientRecvThread`, src/frisbee.redux/client.c: its counters, what a round without a
-- packet does, and what a packet does. The counters are never negative where they are read, and the
-- code compares them with 0 after it takes one off. Whether the keep-alive could be sent is an
-- argument. Progress requests are left out.
use frisbee.Base.{
  ℕ, ◌+◌, ◌-◌, ◌*◌, ◌/◌, Bool, true, false, ◌&&◌, not, List, [], ◌∷◌, Option, some, none,
}
use frisbee.Base.{if◌then◌else◌, ◌==◌, leb, ltb}
use frisbee.Client.{Settings, Client, request_chunk}
use frisbee.Client.Threads.{Event, block_message, request_message, prequest_message, receive}

abbrev pub timeout_hz : ℕ
timeout_hz = 1000000 / 30000

-- `servertimo` and `idletimer`.
pub record Pace : Type 0 where
  pub server_timeout : ℕ
  pub idle_timer : ℕ

pub record Receiver : Type 0 where
  pub idle_counter : ℕ
  pub back_off : ℕ
  pub keepalive : ℕ
  pub ka_counter : ℕ
  pub st_counter : ℕ
  pub client : Client

abbrev pub ready : Pace → ℕ → Client → Receiver
ready p keepalive c = record {
  idle_counter = 1;
  back_off = 0;
  keepalive = keepalive;
  ka_counter = if keepalive == 0 then 0 else 1;
  st_counter = p.server_timeout * timeout_hz;
  client = c;
}

-- `servertimo && --STCounter <= 0`
abbrev pub gives_up : Pace → Receiver → Bool
gives_up p r = not (p.server_timeout == 0) && leb r.st_counter 1

abbrev pub count_down : Pace → Receiver → Receiver
count_down p r = if p.server_timeout == 0 then r else record r { st_counter = r.st_counter - 1 }

unfoldable pub keep_alive : Bool → Receiver → Receiver
keep_alive failed r =
    if r.ka_counter == 1
    then (let k = if failed then 0 else r.keepalive in
        record r { keepalive = k; ka_counter = k * timeout_hz })
    else if ltb 1 r.ka_counter
    then record r { ka_counter = r.ka_counter - 1 }
    else r

-- The rate of requests to a server that does not answer.
unfoldable pub slow_down : Receiver → Receiver
slow_down r =
    let b = r.back_off + 1 in
    if r.back_off == 0 then record r { back_off = b } else record r {
      idle_counter = r.idle_counter + b;
      back_off = if ltb timeout_hz b then timeout_hz else b;
    }

unfoldable pub idle : Settings → Pace → ℕ → Receiver → Receiver
idle s p now r =
    if leb r.idle_counter 1
    then slow_down
        (record r { client = request_chunk s now true r.client; idle_counter = p.idle_timer })
    else record r { idle_counter = r.idle_counter - 1 }

-- A round in which no packet came; `none` is the end of the thread.
unfoldable pub silent : Settings → Pace → ℕ → Bool → Receiver → Option Receiver
silent s p now failed r =
    if gives_up p r then none else some (idle s p now (keep_alive failed (count_down p r)))

-- What a round may get: a packet that fails the check, a block of another server, a message, or one
-- that is not for the client.
pub data Received : Type 0 where
  bad_packet stray_block ignored : Received
  message : Event → Received

-- A packet shows that the server is there.
abbrev pub alive : Pace → Receiver → Receiver
alive p r = record r {
  st_counter = if p.server_timeout == 0 then r.st_counter else p.server_timeout * timeout_hz;
  ka_counter = if r.keepalive == 0 then r.ka_counter else r.keepalive * timeout_hz;
}

abbrev pub is_block : Event → Bool
is_block (block_message k block payload) = true
is_block (request_message k block count) = false
is_block (prequest_message k map) = false

unfoldable pub handle : Settings → Pace → ℕ → Event → Receiver → Receiver
handle s p now e r =
    let t = receive s now e r.client in
    record r {
      back_off = if is_block e then 0 else r.back_off;
      idle_counter = if t.0 then p.idle_timer else r.idle_counter;
      client = t.1;
    }

unfoldable pub heard : Settings → Pace → ℕ → Received → Receiver → Receiver
heard s p now (message e) r = handle s p now e (alive p r)
heard s p now bad_packet r = alive p r
heard s p now stray_block r = alive p r
heard s p now ignored r = alive p r

-- A round of the loop, with the time, and the fate of the keep-alive or the packet.
pub data Round : Type 0 where
  no_packet : ℕ → Bool → Round
  packet : ℕ → Received → Round

unfoldable pub round : Settings → Pace → Round → Receiver → Option Receiver
round s p (no_packet now failed) r = silent s p now failed r
round s p (packet now x) r = some (heard s p now x r)

unfoldable pub run : Settings → Pace → List Round → Receiver → Option Receiver
run s p [] r = some r
run s p (t ∷ rest) r = elim (round s p t r) [ none ↦ none | some r' ↦ run s p rest r' ]
