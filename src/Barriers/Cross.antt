-- ===== src/Barriers/Cross.antt =====
-- Who is answered: when the count of a barrier comes to zero, and on a hang-up.
use frisbee.Base.{ℕ, ◌≡◌, Bool, true, false, List, [], ◌∷◌, ◌++◌, some, none, ℤ, negsuc}
use frisbee.Base.{arith, ◌&&◌, ◌||◌, ◌==◌}
use frisbee.Base.{refl, sym, ap, ◌∙◌, map, if◌then◌else◌}
use frisbee.Barriers.{
  add_int, larger, is_zero, Waiter, Barrier, barrier_wait, BarrierReq, Answer, Daemon,
  release_client, set_tcp, release_all, find_barrier, open_barrier, check, enlist, waiter_of, serve,
  handle_request, clear_loop, clear_barriers, server_error_sighup,
}

-- The answer to a waiter.
abbrev pub answer_to : ℤ → Waiter → Answer
answer_to result w = record { sock = w.sock; ipaddr = w.ipaddr; istcp = w.istcp; result = result }

append_assoc : (a b c : List Answer) → (a ++ b) ++ c ≡ a ++ (b ++ c)
append_assoc [] b c = refl
append_assoc (x ∷ a) b c = ap (λ l. x ∷ l) (append_assoc a b c)

append_nil : (a : List Answer) → a ++ [] ≡ a
append_nil [] = refl
append_nil (x ∷ a) = ap (λ l. x ∷ l) (append_nil a)

release_all-sent :
    (ws : List Waiter) (result : ℤ) (d : Daemon)
    → (release_all ws result d).sent ≡ d.sent ++ map (answer_to result) ws
unfolding release_all release_client
release_all-sent [] result d = sym (append_nil d.sent)
release_all-sent (w ∷ ws) result d =
    release_all-sent ws result (release_client w.sock w.ipaddr w.istcp result d)
    ∙ append_assoc d.sent (answer_to result w ∷ []) (map (answer_to result) ws)

-- A client that comes to wait at a barrier crosses it if the count is then zero: all its waiters and
-- the client are answered, in the order in which they came, with the same result, the larger of the
-- barrier's error and the client's. Otherwise nothing is sent.
pub handle_request-sent :
    (sock ip : ℕ) (istcp : Bool) (r : BarrierReq) (b : Barrier) (d : Daemon)
    → r.request ≡ barrier_wait
    → find_barrier r.name d.allbarriers ≡ some b
    → (is_zero (add_int b.count (negsuc 0)) ≡ true
        → (handle_request sock ip istcp r d).1.sent
          ≡ d.sent
            ++ map
                (answer_to (larger r.error b.error))
                (b.waiters ++ waiter_of sock ip istcp (negsuc 0) r ∷ []))
      × (is_zero (add_int b.count (negsuc 0)) ≡ false
          → (handle_request sock ip istcp r d).1.sent ≡ d.sent)
unfolding handle_request open_barrier serve enlist check
handle_request-sent sock ip istcp r b d e f = (
  λ over.
      rw (f, e, over, handle_request)
        (release_all-sent (b.waiters ++ waiter_of sock ip istcp (negsuc 0) r ∷ [])
          (larger r.error b.error)
          (record d {
            tcpsockets = if istcp then set_tcp sock (some b.name) d.tcpsockets else d.tcpsockets;
          })),
  λ more. rw (f, e, more, handle_request) refl,
)

-- The clients that wait, barrier by barrier.
unfoldable pub all_waiters : List Barrier → List Waiter
all_waiters [] = []
all_waiters (b ∷ rest) = b.waiters ++ all_waiters rest

map-append : (f : Waiter → Answer) (a b : List Waiter) → map f (a ++ b) ≡ map f a ++ map f b
map-append f [] b = refl
map-append f (x ∷ a) b = ap (λ l. f x ∷ l) (map-append f a b)

-- Whether one of the clients waits at the TCP socket.
unfoldable pub waits_on : ℕ → List Waiter → Bool
waits_on s [] = false
waits_on s (w ∷ rest) = w.istcp && w.sock == s || waits_on s rest

waits_on-append : (s : ℕ) (a b : List Waiter) → waits_on s (a ++ b) ≡ (waits_on s a || waits_on s b)
unfolding waits_on
waits_on-append s [] b = refl
waits_on-append s (w ∷ a) b = ground (arith, waits_on-append s a b)

release_all-tcpsockets :
    (s : ℕ) (ws : List Waiter) (result : ℤ) (d : Daemon)
    → (release_all ws result d).tcpsockets s ≡ (if waits_on s ws then none else d.tcpsockets s)
unfolding release_all release_client waits_on
release_all-tcpsockets s [] result d = refl
release_all-tcpsockets s (w ∷ ws) result d =
    release_all-tcpsockets s ws result (release_client w.sock w.ipaddr w.istcp result d)
    ∙ ground arith

clear_loop-tcpsockets :
    (s : ℕ) (l : List Barrier) (d : Daemon)
    → (clear_loop l d).tcpsockets s ≡ (if waits_on s (all_waiters l) then none else d.tcpsockets s)
unfolding clear_loop all_waiters waits_on
clear_loop-tcpsockets s [] d = refl
clear_loop-tcpsockets s (b ∷ l) d =
    clear_loop-tcpsockets s l (release_all b.waiters server_error_sighup d)
    ∙ ground (
      arith,
      release_all-tcpsockets s b.waiters server_error_sighup d,
      waits_on-append s b.waiters (all_waiters l),
    )

clear_loop-sent :
    (l : List Barrier) (d : Daemon)
    → (clear_loop l d).sent ≡ d.sent ++ map (answer_to server_error_sighup) (all_waiters l)
unfolding clear_loop all_waiters
clear_loop-sent [] d = sym (append_nil d.sent)
clear_loop-sent (b ∷ l) d =
    let f = answer_to server_error_sighup in
    clear_loop-sent l (release_all b.waiters server_error_sighup d)
    ∙ ap (λ x. x ++ map f (all_waiters l)) (release_all-sent b.waiters server_error_sighup d)
    ∙ append_assoc d.sent (map f b.waiters) (map f (all_waiters l))
    ∙ ap (λ x. d.sent ++ x) (sym (map-append f b.waiters (all_waiters l)))

-- On a hang-up every client that waits is answered with the error of the hang-up, once for each of
-- its waits, barrier by barrier and in the order in which they came; no barrier is left, and exactly
-- the TCP sockets of these clients are forgotten.
pub clear_barriers-sent :
    (d : Daemon)
    → ((clear_barriers d).sent
        ≡ d.sent ++ map (answer_to server_error_sighup) (all_waiters d.allbarriers))
      × ((clear_barriers d).allbarriers ≡ [])
      × ((s : ℕ)
          → (clear_barriers d).tcpsockets s
            ≡ (if waits_on s (all_waiters d.allbarriers) then none else d.tcpsockets s))
unfolding clear_barriers
clear_barriers-sent d =
    (clear_loop-sent d.allbarriers d, refl, λ s. clear_loop-tcpsockets s d.allbarriers d)
