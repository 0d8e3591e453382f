-- ===== src/Barriers.antt =====
-- The barrier daemon, src/syncd/emulab-syncd.c: `remove_barrier`, `handle_request`, `remove_tcpclient`,
-- `release_client` and `clear_barriers`. Names are numbers; a pointer to a barrier is its name, which
-- no other barrier of the list has. The answers sent are a log. A barrier has at most 4096 waiters,
-- the size of its array, and its count stays within an `int`.
pub mod Laws
pub mod Leave
pub mod Cross
use frisbee.Base.{
  ℕ, zero, suc, ◌+◌, ◌-◌, Bool, true, false, ◌||◌, not, List, [], ◌∷◌, ◌++◌, Option, some, none, ℤ,
  pos, negsuc,
}
use frisbee.Base.{if◌then◌else◌, ◌==◌, leb, ltb}

-- The sum, and the comparison `a > b`.
abbrev pub difference : ℕ → ℕ → ℤ
difference a b = if leb b a then pos (a - b) else negsuc (b - a - 1)

unfoldable pub add_int : ℤ → ℤ → ℤ
add_int (pos a) (pos b) = pos (a + b)
add_int (pos a) (negsuc b) = difference a (b + 1)
add_int (negsuc a) (pos b) = difference b (a + 1)
add_int (negsuc a) (negsuc b) = negsuc (a + b + 1)

unfoldable pub greater : ℤ → ℤ → Bool
greater (pos a) (pos b) = ltb b a
greater (pos a) (negsuc b) = true
greater (negsuc a) (pos b) = false
greater (negsuc a) (negsuc b) = ltb a b

abbrev pub opposite : ℤ → ℤ
opposite (pos zero) = pos 0
opposite (pos (suc a)) = negsuc a
opposite (negsuc a) = pos (a + 1)

abbrev pub is_zero : ℤ → Bool
is_zero (pos a) = a == 0
is_zero (negsuc a) = false

pub record Waiter : Type 0 where
  pub count : ℤ
  pub sock : ℕ
  pub istcp : Bool
  pub error : ℤ
  pub ipaddr : ℕ

-- `barrier_ctrl_t`; `index` is the length of `waiters`.
pub record Barrier : Type 0 where
  pub name : ℕ
  pub count : ℤ
  pub error : ℤ
  pub waiters : List Waiter

pub data ReqKind : Type 0 where
  barrier_init barrier_wait other_kind : ReqKind

-- `barrier_req_t`; `nowait` is the flag.
pub record BarrierReq : Type 0 where
  pub name : ℕ
  pub request : ReqKind
  pub nowait : Bool
  pub count : ℤ
  pub error : ℤ

pub record Answer : Type 0 where
  pub sock : ℕ
  pub ipaddr : ℕ
  pub istcp : Bool
  pub result : ℤ

-- `allbarriers` and `tcpsockets`, and what was sent.
pub record Daemon : Type 0 where
  pub allbarriers : List Barrier
  pub tcpsockets : ℕ → Option ℕ
  pub sent : List Answer

abbrev pub set_tcp : ℕ → Option ℕ → (ℕ → Option ℕ) → ℕ → Option ℕ
set_tcp sock v f s = if sock == s then v else f s

unfoldable pub release_client : ℕ → ℕ → Bool → ℤ → Daemon → Daemon
release_client sock ip istcp result d = record d {
  tcpsockets = if istcp then set_tcp sock none d.tcpsockets else d.tcpsockets;
  sent = d.sent ++ record { sock = sock; ipaddr = ip; istcp = istcp; result = result } ∷ [];
}

unfoldable pub release_all : List Waiter → ℤ → Daemon → Daemon
release_all [] result d = d
release_all (w ∷ rest) result d =
    release_all rest result (release_client w.sock w.ipaddr w.istcp result d)

unfoldable pub find_barrier : ℕ → List Barrier → Option Barrier
find_barrier name [] = none
find_barrier name (b ∷ rest) = if b.name == name then some b else find_barrier name rest

-- The barrier that is found by its name, after a change.
unfoldable pub put_barrier : Barrier → List Barrier → List Barrier
put_barrier b [] = []
put_barrier b (x ∷ rest) = if x.name == b.name then b ∷ rest else x ∷ put_barrier b rest

unfoldable pub remove_barrier : ℕ → List Barrier → List Barrier
remove_barrier name [] = []
remove_barrier name (x ∷ rest) = if x.name == name then rest else x ∷ remove_barrier name rest

abbrev pub fresh : ℕ → Barrier
fresh name = record { name = name; count = pos 0; error = pos 0; waiters = [] }

-- The search for the barrier of a request, which makes it if there is none.
unfoldable pub open_barrier : ℕ → Option Barrier → Daemon → Barrier × Daemon
open_barrier name (some b) d = (b, d)
open_barrier name none d = (fresh name, record d { allbarriers = fresh name ∷ d.allbarriers })

-- From the label `check` on.
unfoldable pub check : Barrier → Daemon → Daemon
check b d =
    if is_zero b.count
    then (let d' = release_all b.waiters b.error d in
        record d' { allbarriers = remove_barrier b.name d'.allbarriers })
    else record d { allbarriers = put_barrier b d.allbarriers }

abbrev pub larger : ℤ → ℤ → ℤ
larger a b = if greater a b then a else b

-- The waiter is recorded, and the barrier checked.
unfoldable pub enlist : Waiter → Barrier → Daemon → Daemon
enlist w b d =
    check (record b { waiters = b.waiters ++ w ∷ []; error = larger w.error b.error })
      (record d {
        tcpsockets = if w.istcp then set_tcp w.sock (some b.name) d.tcpsockets else d.tcpsockets;
      })

abbrev pub waiter_of : ℕ → ℕ → Bool → ℤ → BarrierReq → Waiter
waiter_of sock ip istcp count r = record {
  count = count;
  sock = sock;
  istcp = istcp;
  error = r.error;
  ipaddr = ip;
}

unfoldable pub serve : ℕ → ℕ → Bool → BarrierReq → Barrier → Daemon → Bool × Daemon
serve sock ip istcp r b d = elim r.request [
  | other_kind ↦ (true, d)
  | barrier_wait ↦ (
    false,
    enlist (waiter_of sock ip istcp (negsuc 0) r) (record b { count = add_int b.count (negsuc 0) })
        d,
  )
  | barrier_init ↦ elim r.nowait [
    | true ↦ (
      false,
      check (record b { count = add_int b.count r.count }) (release_client sock ip istcp (pos 0) d),
    )
    | false ↦ (
      false,
      enlist (waiter_of sock ip istcp r.count r) (record b { count = add_int b.count r.count }) d,
    )
  ]
]

-- The result is whether the request was refused.
unfoldable pub handle_request : ℕ → ℕ → Bool → BarrierReq → Daemon → Bool × Daemon
handle_request sock ip istcp r d =
    let o = open_barrier r.name (find_barrier r.name d.allbarriers) d in
    serve sock ip istcp r o.0 o.1

-- The loop of `remove_tcpclient`: the counts taken off, and the array with the first waiter of the
-- socket taken out and its last place given up; without such a waiter the last one is given up.
unfoldable pub uncount : ℕ → List Waiter → ℤ → ℤ
uncount sock [] c = c
uncount sock (w ∷ rest) c =
    uncount sock rest (if w.sock == sock then add_int c (opposite w.count) else c)

unfoldable pub pack : ℕ → List Waiter → List Waiter
pack sock [] = []
pack sock (w ∷ rest) = elim (w.sock == sock) [
  | true ↦ rest
  | false ↦ elim rest [ [] ↦ [] | _ ∷ _ ↦ w ∷ pack sock rest ]
]

abbrev pub is_nil : List Waiter → Bool
is_nil [] = true
is_nil (w ∷ ws) = false

unfoldable pub leave_barrier : ℕ → Option Barrier → Daemon → Daemon
leave_barrier sock none d = d
leave_barrier sock (some b) d =
    let b' : Barrier = record b {
      count = uncount sock b.waiters b.count;
      waiters = pack sock b.waiters;
    } in
    record d {
      allbarriers =
          if is_nil b'.waiters
          then remove_barrier b.name d.allbarriers
          else put_barrier b' d.allbarriers;
    }

abbrev pub barrier_of : Option ℕ → List Barrier → Option Barrier
barrier_of none l = none
barrier_of (some name) l = find_barrier name l

unfoldable pub remove_tcpclient : ℕ → Daemon → Daemon
remove_tcpclient sock d =
    leave_barrier sock (barrier_of (d.tcpsockets sock) d.allbarriers)
      (record d { tcpsockets = set_tcp sock none d.tcpsockets })

-- On a hang-up signal all waiters are answered with its error.
abbrev pub server_error_sighup : ℤ
server_error_sighup = pos 240

unfoldable pub clear_loop : List Barrier → Daemon → Daemon
clear_loop [] d = d
clear_loop (b ∷ rest) d = clear_loop rest (release_all b.waiters server_error_sighup d)

unfoldable pub clear_barriers : Daemon → Daemon
clear_barriers d = record (clear_loop d.allbarriers d) { allbarriers = [] }
