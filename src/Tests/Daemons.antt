-- ===== src/Tests/Daemons.antt =====
-- The theorems on the barrier daemon and on the server's rate at concrete inputs.
use frisbee.Base.{
  ℕ, ◌+◌, ◌<◌, ◌≤◌, ◌≡◌, ◌⊎◌, true, false, [], ◌∷◌, ◌++◌, refl, arith, some, none, pos, negsuc,
  if◌then◌else◌, ◌==◌, map, ◌*◌, ◌/◌,
}
use frisbee.Clock.{Time, past_time}
use frisbee.Barriers.{
  add_int, larger, is_zero, Waiter, Barrier, barrier_wait, other_kind, BarrierReq, Daemon,
  handle_request, remove_tcpclient, clear_barriers, server_error_sighup, waiter_of, find_barrier,
}
use frisbee.Barriers.Laws.{one_if, total, waiting, waiters_of, total-handle_request}
use frisbee.Barriers.Leave.{remove_tcpclient_lem}
use frisbee.Barriers.Cross.{
  answer_to, handle_request-sent, all_waiters, waits_on, clear_barriers-sent,
}
use frisbee.Burst.{Burst, calc_burst, calc_bursts, calc_bursts-bounds, calc_burst_lem, IsLoss}

abbrev master : Waiter
master = record { count = pos 1; sock = 5; istcp = true; error = pos 0; ipaddr = 10 }

-- The master waits at barrier 3 for one client.
abbrev barrier : Barrier
barrier = record { name = 3; count = pos 1; error = pos 0; waiters = master ∷ [] }

abbrev daemon : Daemon
daemon = record {
  allbarriers = barrier ∷ [];
  tcpsockets = λ s. if s == 5 then some 3 else none;
  sent = [];
}

abbrev comes : BarrierReq
comes = record { name = 3; request = barrier_wait; nowait = false; count = pos 0; error = pos 7 }

abbrev strange : BarrierReq
strange = record { name = 4; request = other_kind; nowait = false; count = pos 0; error = pos 0 }

total-handle_request_example :
    (total 5 (handle_request 6 11 true strange daemon).1
      ≡ total 5 daemon
        + (if (handle_request 6 11 true strange daemon).0 then 0 else one_if (6 == 5)))
    × ((handle_request 6 11 true strange daemon).0 ≡ true
        → ((handle_request 6 11 true strange daemon).1.sent ≡ daemon.sent)
          × (waiting 5 (handle_request 6 11 true strange daemon).1.allbarriers
              ≡ waiting 5 daemon.allbarriers))
total-handle_request_example = total-handle_request 5 6 11 true strange daemon

found : find_barrier 3 daemon.allbarriers ≡ some barrier
unfolding find_barrier
found = refl

handle_request-sent_example :
    (is_zero (add_int barrier.count (negsuc 0)) ≡ true
      → (handle_request 6 11 true comes daemon).1.sent
        ≡ daemon.sent
          ++ map
              (answer_to (larger comes.error barrier.error))
              (barrier.waiters ++ waiter_of 6 11 true (negsuc 0) comes ∷ []))
    × (is_zero (add_int barrier.count (negsuc 0)) ≡ false
        → (handle_request 6 11 true comes daemon).1.sent ≡ daemon.sent)
handle_request-sent_example = handle_request-sent 6 11 true comes barrier daemon refl found

clear_barriers-sent_example :
    ((clear_barriers daemon).sent
      ≡ daemon.sent ++ map (answer_to server_error_sighup) (all_waiters daemon.allbarriers))
    × ((clear_barriers daemon).allbarriers ≡ [])
    × ((s : ℕ)
        → (clear_barriers daemon).tcpsockets s
          ≡ (if waits_on s (all_waiters daemon.allbarriers) then none else daemon.tcpsockets s))
clear_barriers-sent_example = clear_barriers-sent daemon

one_waits : 0 < waiters_of 5 barrier.waiters
unfolding waiters_of
one_waits = omega arith

remove_tcpclient_lem_example :
    (waiting 5 (remove_tcpclient 5 daemon).allbarriers + one_if (5 == 5)
      ≡ waiting 5 daemon.allbarriers)
    × ((remove_tcpclient 5 daemon).sent ≡ daemon.sent)
remove_tcpclient_lem_example = remove_tcpclient_lem 5 5 3 barrier daemon refl found one_waits

-- Nine tenths, rounded down; chunk 1 is lost, and the interval has passed.
abbrev less : ℕ → ℕ
less n = n * 9 / 10

abbrev burst : Burst
burst = record {
  burst_size = 8;
  lost_map = some (0 ∷ 1 ∷ []);
  last_send_retries = 2;
  last_client_retries = 0;
  bursts = 3;
  next_stamp = record { sec = 100; usec = 5 };
}

abbrev now : Time
now = record { sec = 101; usec = 0 }

less-down : (n : ℕ) → less n ≤ n
less-down n = omega arith

passed : past_time now burst.next_stamp ≡ true
unfolding past_time
passed = refl

calc_bursts-bounds_example :
    (1 ≤ (calc_bursts less 16 ((now, 4, 2) ∷ []) burst).burst_size)
    × ((calc_bursts less 16 ((now, 4, 2) ∷ []) burst).burst_size ≤ 16)
calc_bursts-bounds_example =
    calc_bursts-bounds less 16 ((now, 4, 2) ∷ []) burst less-down (omega arith) (omega arith)

calc_burst_lem_example :
    (IsLoss 2 burst
      → ((calc_burst less 16 now 4 2 burst).burst_size < burst.burst_size) ⊎ (burst.burst_size ≡ 1))
    × (¬ IsLoss 2 burst
        → (calc_burst less 16 now 4 2 burst).burst_size
          ≡ (if burst.burst_size == 16 then 16 else burst.burst_size + 1))
    × (¬ IsLoss 2 (calc_burst less 16 now 4 2 burst))
calc_burst_lem_example =
    calc_burst_lem less 16 now 4 2 burst less-down (omega arith) (omega arith)
      (λ e. absurd (omega (arith, e))) passed
