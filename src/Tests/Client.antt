-- ===== src/Tests/Client.antt =====
-- The theorems on the client at concrete inputs: an image of one block.
use frisbee.Base.{
  ℕ, zero, suc, ◌-◌, ◌^◌, ◌<◌, ◌≤◌, ◌≡◌, true, false, not, ◌&&◌, List, Bool, some, [], ◌∷◌, ◌++◌,
  refl, arith, test_bit, length, if◌then◌else◌, ◌==◌, ltb, leb,
}
use frisbee.BlockMap.{BlockMap, max_chunk_size, init, alloc}
use frisbee.BlockMap.Bits.{bit_at}
use frisbee.BlockMap.Update.{init-IsMap}
use frisbee.Sizes.{init_sizes, chunk_size}
use frisbee.Client.{
  Settings, Buffer, empty, chunk_at, ask_partial, request_missing, redo_time, request_stamp,
  request_chunk, visit, visit_from, read_ahead,
}
use frisbee.Client.Insert.{IsSettings}
use frisbee.Client.Receive.{
  got_block, write_chunk, write_from, scan_buffers, at_slot, insert, start, store, complete,
}
use frisbee.Client.Write.{WriteChunkOutcome, write_chunk-WriteChunkOutcome}
use frisbee.Client.Threads.{
  block_message, request_message, receive, World, begin, startup, write_round, receives, writes,
  Reach, stay, after,
}
use frisbee.Client.Steps.{count_of, IsWorld}
use frisbee.Client.Reach.{Reach-IsWorld}
use frisbee.Client.Finish.{Reach-written_once, write_rounds, write_rounds_lem}
use frisbee.Client.Asks.{request_missing_lem, redo_time_lem, request_list_lem}
use frisbee.Client.Loop.{
  Pace, Receiver, ready, run, no_packet, round, silent, idle, keep_alive, slow_down,
}
use frisbee.Client.Pace.{AskOutcome, run-AskOutcome, ends, silence, silence_lem}

abbrev settings : Settings
settings = record {
  sizes = init_sizes 1024;
  redo_delay = 1000000;
  max_in_progress = 4;
  max_read_ahead = 2;
}

settings-IsSettings : IsSettings settings
unfolding init_sizes
settings-IsSettings = record { last = omega arith }

abbrev memory : Buffer
memory = record { this_chunk = 7; state = empty; block_count = 3; blockmap = []; blocks = [] ∷ [] }

-- The client asks, gets the block, and writes the chunk.
abbrev first_world : World
first_world = begin 1 ((5, 9) ∷ []) (memory ∷ [])

abbrev asked : World
asked = record first_world {
  client = (receive settings 100 (request_message 0 0 1) first_world.client).1;
}

abbrev arrived : World
arrived = record asked {
  client = (receive settings 2000 (block_message 0 0 (8 ∷ [])) asked.client).1;
}

arrival_inside : 0 < chunk_size settings.sizes 0
unfolding chunk_size init_sizes
arrival_inside = omega arith

known : 0 < length asked.client.chunks
unfolding startup receive request_stamp chunk_size init_sizes
known = omega arith

arrived-Reach : Reach settings first_world arrived
arrived-Reach =
    after first_world asked arrived
      (after first_world first_world asked (stay first_world)
        (receives 100 (request_message 0 0 1) first_world tt))
      (receives 2000 (block_message 0 0 (8 ∷ [])) asked (known, arrival_inside))

arrived-IsWorld : IsWorld settings 1 arrived
arrived-IsWorld =
    Reach-IsWorld settings 1 ((5, 9) ∷ []) (memory ∷ []) arrived settings-IsSettings arrived-Reach

Reach-IsWorld_example : IsWorld settings 1 arrived
Reach-IsWorld_example =
    Reach-IsWorld settings 1 ((5, 9) ∷ []) (memory ∷ []) arrived settings-IsSettings arrived-Reach

write_chunk-WriteChunkOutcome_example :
    WriteChunkOutcome settings arrived.client (write_chunk arrived.client)
write_chunk-WriteChunkOutcome_example =
    write_chunk-WriteChunkOutcome settings arrived.client arrived-IsWorld.client

written_all : (write_round arrived).to_write ≡ 0
unfolding startup receive request_stamp chunk_size init_sizes write_round write_chunk write_from
    got_block scan_buffers at_slot insert start store complete request_chunk visit visit_from
    read_ahead alloc test_bit
written_all = refl

Reach-written_once_example : count_of 0 (write_round arrived).written ≡ 1
Reach-written_once_example =
    Reach-written_once settings 1 ((5, 9) ∷ []) (memory ∷ []) (write_round arrived)
      settings-IsSettings
      (after first_world arrived (write_round arrived) arrived-Reach (writes arrived)) written_all 0
      (omega arith)

all_done : (k : ℕ) → k < 1 → (chunk_at arrived.client k).done ≡ true
unfolding startup receive request_stamp chunk_size init_sizes got_block scan_buffers at_slot insert
    start store complete request_chunk visit visit_from read_ahead alloc test_bit
all_done zero h = refl
all_done (suc k) h = absurd (omega arith)

write_rounds_lem_example :
    ((write_rounds arrived.to_write arrived).to_write ≡ 0)
    × ((k : ℕ) → k < 1 → count_of k (write_rounds arrived.to_write arrived).written ≡ 1)
write_rounds_lem_example =
    write_rounds_lem settings 1 ((5, 9) ∷ []) (memory ∷ []) arrived settings-IsSettings
      arrived-Reach all_done

-- Blocks 3 to 7 of the one block are received.
abbrev few : BlockMap
few = init 3 5

request_missing_lem_example :
    (asked_for : BlockMap) × ((request_missing settings 100 0 few asked.client).sent
      ≡ asked.client.sent ++ ask_partial 0 (chunk_at asked.client 0).ours asked_for ∷ [])
    × ((x : ℕ)
        → x < max_chunk_size
        → bit_at asked_for x ≡ (ltb x (chunk_size settings.sizes 0) && not (bit_at few x)))
request_missing_lem_example =
    request_missing_lem settings 100 0 few asked.client settings-IsSettings (init-IsMap 3 5)

asked_at : (chunk_at asked.client 0).lastreq ≡ 100
unfolding startup receive request_stamp chunk_size init_sizes
asked_at = refl

redo_time_lem_example :
    (3000000100 - (chunk_at asked.client 0).lastreq < 2 ^ 31
      → redo_time settings 3000000100 0 asked.client
        ≡ leb settings.redo_delay (3000000100 - (chunk_at asked.client 0).lastreq))
    × (2 ^ 31 ≤ 3000000100 - (chunk_at asked.client 0).lastreq
        → 3000000100 - (chunk_at asked.client 0).lastreq < 2 ^ 32
        → redo_time settings 3000000100 0 asked.client ≡ false)
redo_time_lem_example =
    redo_time_lem settings 3000000100 0 asked.client (λ e. absurd (omega (arith, e, asked_at)))
      (λ e. absurd (omega (arith, e))) (omega (arith, asked_at)) (omega arith)

request_list_lem_example :
    count_of 2 (startup 4 ((5, 9) ∷ (3, 6) ∷ []) (memory ∷ [])).request_list
    ≡ (if ltb 2 4 then 1 else 0)
request_list_lem_example = request_list_lem 4 2 ((5, 9) ∷ (3, 6) ∷ []) (memory ∷ []) (omega arith)

abbrev pace : Pace
pace = record { server_timeout = 1; idle_timer = 5 }

abbrev receiver : Receiver
receiver = ready pace 0 asked.client

silence_lem_example :
    ends (silence settings pace ((1, false) ∷ (2, true) ∷ []) receiver)
    ≡ (not (pace.server_timeout == 0) && leb receiver.st_counter 2)
silence_lem_example = silence_lem settings pace ((1, false) ∷ (2, true) ∷ []) receiver (omega arith)

-- Forty rounds without a packet.
abbrev quiet_rounds : ℕ → List (ℕ × Bool)
quiet_rounds zero = []
quiet_rounds (suc n) = (n, false) ∷ quiet_rounds n

still_on :
    run settings pace (no_packet 5 false ∷ []) (ready pace 0 asked.client)
    ≡ some (record {
      idle_counter = 5;
      back_off = 1;
      keepalive = 0;
      ka_counter = 0;
      st_counter = 32;
      client = request_chunk settings 5 true asked.client;
    })
unfolding run round silent idle keep_alive slow_down
still_on = refl

run-AskOutcome_example : AskOutcome settings pace (quiet_rounds 40) (record {
  idle_counter = 5;
  back_off = 1;
  keepalive = 0;
  ka_counter = 0;
  st_counter = 32;
  client = request_chunk settings 5 true asked.client;
})
run-AskOutcome_example =
    run-AskOutcome settings pace 0 asked.client (no_packet 5 false ∷ [])
      (record {
        idle_counter = 5;
        back_off = 1;
        keepalive = 0;
        ka_counter = 0;
        st_counter = 32;
        client = request_chunk settings 5 true asked.client;
      })
      (quiet_rounds 40) still_on (omega arith)
