-- ===== src/Tests.antt =====
-- The theorems at concrete inputs.
mod Client
mod Daemons
mod Iteration
use frisbee.Base.{
  ℕ, ◌+◌, ◌*◌, ◌%◌, ◌≤◌, ◌<◌, ◌≡◌, true, false, ◌||◌, ◌&&◌, not, refl, List, [], ◌∷◌, arith, none,
  some, pos, length, if◌then◌else◌, ◌==◌, ltb, leb, word,
}
use frisbee.BlockMap.{BlockMap, max_chunk_size, add, clear, init, alloc, invert}
use frisbee.BlockMap.Bits.{bit_at, in_range, IsMap, blocks_in, count_if, gained}
use frisbee.BlockMap.Update.{
  bit_at-add, bit_at-clear, bit_at-init, alloc_lem, bit_at-invert, init-IsMap,
}
use frisbee.BlockMap.Scan.{is_alloc, extract, merge, first, apply, Callback}
use frisbee.BlockMap.Scan.Count.{is_alloc_lem}
use frisbee.BlockMap.Scan.First.{IsFirst, first-IsFirst}
use frisbee.BlockMap.Scan.Extract.{IsExtraction, extract-IsExtraction}
use frisbee.BlockMap.Scan.Merge.{merge_lem}
use frisbee.BlockMap.Scan.Runs.{runs}
use frisbee.BlockMap.Scan.Apply.{call_all, apply_lem}
use frisbee.Rangemap.{Rangemap, lookup, before}
use frisbee.Rangemap.Chain.{total}
use frisbee.Rangemap.Search.{found_from, lookup_lem}
use frisbee.Rangemap.Update.{last_addr}
use frisbee.Rangemap.Update
use frisbee.Rangemap.Alloc.{IsValid}
use frisbee.Rangemap.Alloc.Outcome.{AllocOutcome}
use frisbee.Rangemap.Alloc.Laws.{alloc-AllocOutcome}
use frisbee.Rangemap.Dealloc.{DeallocOutcome}
use frisbee.Rangemap.Dealloc.Laws.{dealloc-DeallocOutcome}
use frisbee.Rangemap.Query.{
  last, entries_of, sectors_of, overlap, OverlapOutcome, overlap-OverlapOutcome, queries_lem,
}
use frisbee.Ranges.{SectRange, Lists, make_ranges, merge_ranges, cull, sort_range, passes}
use frisbee.Ranges.{Merged, merge_skips}
use frisbee.Ranges.Skips.{IsMergeSkips, merge_skips-IsMergeSkips}
use frisbee.Ranges.Merge.{held, IsMerge, IsCull, merge_ranges-IsMerge, cull-IsCull}
use frisbee.Ranges.Sort.{IsSort, sort_range-IsSort}
use frisbee.Ranges.Make.{held-make_ranges}
use frisbee.WorkQueue.{
  Queue, Server, enqueue_chunk, dequeue, client_request, client_partial_request,
}
use frisbee.WorkQueue.Valid.{IsQueue}
use frisbee.WorkQueue.Enqueue.{IsEnqueue, enqueue_chunk-IsEnqueue}
use frisbee.WorkQueue.Dequeue.{DequeueOutcome, dequeue-DequeueOutcome, dequeue-IsQueue}
use frisbee.WorkQueue.Request.{
  IsServed, init-IsRequest, client_request-IsServed, client_partial_request-IsServed,
}
use frisbee.Clients.{find_from, Table, client_join, client_leave}
use frisbee.Clients.Report.{Report, is_bad, client_report, says_lost, is_some, client_report_lem}
use frisbee.Clients.Laws.{IsTable, in_use, client_join-IsTable, client_leave-IsTable}
use frisbee.Sizes.{
  init_sizes, chunk_size, chunk_bytes, block_size, chunk_size_lem, chunk_bytes_lem, block_size_lem,
  rest_up_to, left_from, block_bytes, chunk_blocks,
}
use frisbee.Clock.{
  Time, IsTime, micros, million, past_time, add_time, sub_time, add_usec, past_time_lem,
  add_time_lem, sub_time_lem, sub_time-add_time, add_usec_lem,
}
use frisbee.Packet.{
  Packet, Message, ask, request, packet_valid, IsAsk, packet_valid-IsAsk, message_valid, outside,
  reaches_past,
}

-- Blocks 3 to 7.
abbrev few : BlockMap
few = init 3 5

few-IsMap : IsMap few
few-IsMap = init-IsMap 3 5

is_alloc_lem_example : is_alloc few 2 20 ≡ blocks_in few 2 20
is_alloc_lem_example = is_alloc_lem few 2 20

extract-IsExtraction_example : (block : ℕ) × IsExtraction few (extract few) block
extract-IsExtraction_example = extract-IsExtraction few few-IsMap

merge_lem_example :
    ((b : ℕ)
      → b < max_chunk_size
      → bit_at (merge few (init 6 4)).0 b ≡ (bit_at (init 6 4) b || bit_at few b))
    × ((merge few (init 6 4)).1
        ≡ count_if (gained (bit_at (init 6 4)) (bit_at few)) 0 max_chunk_size)
merge_lem_example = merge_lem few (init 6 4) few-IsMap (init-IsMap 6 4)

-- Adds up the blocks, and stops at a run from block 500 on.
abbrev adder : Callback ℕ
adder = some (λ chunk block count s. (leb 500 block, s + count))

apply_lem_example :
    apply adder 7 few 0 ≡ call_all adder 7 (runs (bit_at few) max_chunk_size 0 0 0) 0 0
apply_lem_example = apply_lem adder 7 few 0 few-IsMap

-- Two ranges, the second with data, and the hint at the end.
abbrev disk : Rangemap
disk = record {
  ranges =
      record { start = 10; end = 19; content = 0 }
      ∷ record { start = 30; end = 39; content = 5 }
      ∷ [];
  hint = 2;
  loaddr = 0;
  hiaddr = 1000;
  gen = 3;
  entries = 2;
  sectors = 20;
}

disk-IsValid : IsValid disk
unfolding total
disk-IsValid = record {
  chain = (omega arith, omega arith, (omega arith, omega arith, omega arith));
  small = omega arith;
  hinted = omega arith;
  counted = refl;
  measured = refl;
}

lookup_lem_example : lookup disk 15 ≡ found_from 15 0 disk.ranges
lookup_lem_example = lookup_lem disk 15 disk-IsValid.chain

alloc-AllocOutcome_example :
    AllocOutcome disk 20 (last_addr 20 5) 5 0 true (Update.alloc disk 20 5 0 true)
alloc-AllocOutcome_example =
    alloc-AllocOutcome disk 20 5 0 true disk-IsValid (omega arith) (omega arith) refl

dealloc-DeallocOutcome_example :
    DeallocOutcome disk 12 (last_addr 12 3) true (Update.dealloc disk 12 3 true)
dealloc-DeallocOutcome_example =
    dealloc-DeallocOutcome disk 12 3 true disk-IsValid (omega arith) (omega arith) refl

overlap-OverlapOutcome_example :
    OverlapOutcome disk.ranges 15 (last_addr 15 30) (overlap disk 15 30).0
overlap-OverlapOutcome_example = overlap-OverlapOutcome disk 15 30 disk-IsValid (omega arith)

-- Free ranges: two that touch, and one apart.
abbrev free : List SectRange
free =
    record { start = 8; size = 4; content = 0 }
    ∷ record { start = 12; size = 2; content = 0 }
    ∷ record { start = 20; size = 1; content = 0 }
    ∷ []

abbrev input : Lists
input = record { skips = free; num_skips = 3; valid = []; num_ranges = 0 }

held-make_ranges_example :
    held (make_ranges 2 50 input).0.valid 14
    ≡ (held input.valid 14 || leb 2 14 && ltb 14 50 && not (held input.skips 14))
held-make_ranges_example =
    held-make_ranges 2 50 input 14 (omega arith, (omega arith, (omega arith, omega arith)))
      (λ e. absurd (omega (arith, e))) (omega arith)

merge_ranges-IsMerge_example : IsMerge free (merge_ranges free)
merge_ranges-IsMerge_example =
    merge_ranges-IsMerge free (omega arith, (omega arith, (omega arith, tt)))

merge_skips-IsMergeSkips_example :
    (m : Merged) × (merge_skips (passes free) 3 free ≡ some m) × IsMergeSkips 3 free m
merge_skips-IsMergeSkips_example =
    merge_skips-IsMergeSkips 3 free (omega arith, (omega arith, (omega arith, tt)))

sort_range-IsSort_example :
    (rs' : List SectRange) × (sort_range (passes free) false none free ≡ some rs') × IsSort free rs'
sort_range-IsSort_example = sort_range-IsSort free

-- A request for blocks 3 to 7 of chunk 2 is queued, and nothing is sent yet.
abbrev queue : Queue
queue = record {
  elems = record { chunk = pos 2; nblocks = 5; blockmap = init 3 5 } ∷ [];
  size = 1;
  work_chunk = pos 9;
  work_block = 0;
  work_count = 0;
}

queue-IsQueue : IsQueue queue
queue-IsQueue =
    let r = init-IsRequest 2 3 5 (omega arith) in
    record {
      counted = refl;
      elements =
          (record { shape = λ l. r.shape; counted = λ l. r.counted; work = λ l. omega arith }, tt);
    }

enqueue_chunk-IsEnqueue_example :
    IsEnqueue queue (pos 2) (init 6 4) 4 (enqueue_chunk (pos 2) (init 6 4) 4 queue)
enqueue_chunk-IsEnqueue_example =
    enqueue_chunk-IsEnqueue queue (pos 2) (init 6 4) 4 queue-IsQueue
      (init-IsRequest 2 6 4 (omega arith)) (omega arith)

dequeue-DequeueOutcome_example : DequeueOutcome queue (dequeue queue)
dequeue-DequeueOutcome_example = dequeue-DequeueOutcome queue queue-IsQueue

dequeue-IsQueue_example : IsQueue (dequeue queue).1
dequeue-IsQueue_example = dequeue-IsQueue queue queue-IsQueue

abbrev server : Server
server = record { queue = queue; blocks_lost = 0; client_retries = 0; lost_map = none }

client_request-IsServed_example :
    (map : BlockMap) × ((b : ℕ) → b < max_chunk_size → bit_at map b ≡ in_range 6 4 b)
    × IsServed server (client_request 2 6 4 server) 2 map 4
client_request-IsServed_example =
    client_request-IsServed 2 6 4 server queue-IsQueue (omega arith) (omega arith)

client_partial_request-IsServed_example :
    (0 < blocks_in few 0 max_chunk_size
      → IsServed server
          (client_partial_request 4 few 1 server)
          4
          few
          (blocks_in few 0 max_chunk_size))
    × (blocks_in few 0 max_chunk_size ≡ 0 → client_partial_request 4 few 1 server ≡ server)
client_partial_request-IsServed_example =
    client_partial_request-IsServed 4 few 1 server queue-IsQueue few-IsMap

-- A client, and a free entry before another.
abbrev table : Table
table = record {
  clients =
      record { id = 11; ip = 21; lastseq = 4 }
      ∷ record { id = 0; ip = 0; lastseq = 0 }
      ∷ record { id = 13; ip = 23; lastseq = 1 }
      ∷ [];
  max_num = 3;
  active = 2;
  total = 3;
}

table-IsTable : IsTable table
unfolding in_use
table-IsTable = record {
  bounded = omega arith;
  counted = refl;
  clean = ((λ e. absurd (omega (arith, e))), ((λ e. refl), ((λ e. absurd (omega (arith, e))), tt)));
}

client_join-IsTable_example : IsTable (client_join 15 25 table)
client_join-IsTable_example =
    client_join-IsTable 15 25 table (λ e. absurd (omega (arith, e)))
      (λ e. absurd (omega (arith, e))) table-IsTable

client_leave-IsTable_example : IsTable (client_leave 13 table)
client_leave-IsTable_example =
    client_leave-IsTable 13 table (λ e. absurd (omega (arith, e))) table-IsTable

-- An image of a chunk and three blocks.
second_chunk : 1 < (init_sizes 1051648).total_chunks
unfolding init_sizes
second_chunk = omega arith

last_block : 1 * chunk_blocks + 2 < (init_sizes 1051648).total_blocks
unfolding init_sizes
last_block = omega arith

chunk_bytes_lem_example :
    chunk_bytes (init_sizes 1051648) 1
      + (if 1051648 % block_bytes == 0 && ltb (left_from 1051648 1) 1048576 then block_bytes else 0)
    ≡ (if ltb 1047552 (left_from 1051648 1) then 1048576 else left_from 1051648 1)
chunk_bytes_lem_example = chunk_bytes_lem 1051648 1 second_chunk

abbrev early : Time
early = record { sec = 3; usec = 900000 }

abbrev late : Time
late = record { sec = 7; usec = 200000 }

early-IsTime : IsTime early
early-IsTime = record { carried = omega arith; small = omega arith }

late-IsTime : IsTime late
late-IsTime = record { carried = omega arith; small = omega arith }

sub_time-add_time_example :
    (micros (add_time late early) ≡ micros late + micros early)
    × ((add_time late early).usec < million)
    × (sub_time (add_time late early) early ≡ late)
sub_time-add_time_example = sub_time-add_time late early late-IsTime early-IsTime

-- Every message is sixteen bytes.
abbrev sixteen : Message → ℕ
sixteen m = 16

abbrev packet : Packet
packet = record {
  kind = request;
  message = ask;
  datalen = 16;
  chunk = pos 4;
  first_block = pos 1000;
  count = pos 24;
}

packet_ok : packet_valid sixteen packet 5 ≡ true
unfolding packet_valid message_valid outside reaches_past
packet_ok = refl

packet_valid-IsAsk_example : IsAsk packet 5 × (sixteen ask ≤ packet.datalen)
packet_valid-IsAsk_example = packet_valid-IsAsk sixteen packet 5 packet_ok refl

abbrev first_report : Report
first_report = record {
  is_reply = true;
  datalen = 8;
  srcip = 21;
  client_id = 11;
  who = 0;
  when = 50;
  what = 0;
  seq = 65535;
}

abbrev next_report : Report
next_report = record first_report { seq = 0; when = 60 }

first_fine : is_bad 40 first_report ≡ false
unfolding is_bad
first_fine = refl

next_fine : is_bad 40 next_report ≡ false
unfolding is_bad
next_fine = refl

client_report_lem_example :
    says_lost (client_report 40 next_report (client_report 40 first_report table).1).0
    ≡ (is_some (find_from 11 0 table.clients) && 65535 == 65535)
client_report_lem_example =
    client_report_lem 40 first_report next_report table first_fine next_fine refl (omega arith) refl
