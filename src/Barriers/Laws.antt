-- ===== src/Barriers/Laws.antt =====
-- The waits and the answers of a socket, and what a request to the barrier daemon
-- (src/syncd/emulab-syncd.c) makes of them.
use frisbee.Base.{ℕ, ◌+◌, ◌≡◌, Bool, true, List, [], ◌∷◌, ◌++◌, Option, some, none, ℤ, pos, negsuc}
use frisbee.Base.{arith, refl, sym, ap, subst, ◌∙◌, if◌then◌else◌, ◌==◌, Bool-cases, inl, inr}
use frisbee.Barriers.{
  add_int, larger, is_zero, Waiter, Barrier, ReqKind, barrier_init, barrier_wait, other_kind,
  BarrierReq, Answer, Daemon, set_tcp, release_client, release_all, find_barrier, put_barrier,
  remove_barrier, open_barrier, check, enlist, waiter_of, serve, handle_request,
}

abbrev pub one_if : Bool → ℕ
one_if b = if b then 1 else 0

-- How many of the waiters, and of the answers, are of the socket.
unfoldable pub waiters_of : ℕ → List Waiter → ℕ
waiters_of s [] = 0
waiters_of s (w ∷ rest) = one_if (w.sock == s) + waiters_of s rest

unfoldable pub answered : ℕ → List Answer → ℕ
answered s [] = 0
answered s (a ∷ rest) = one_if (a.sock == s) + answered s rest

unfoldable pub waiting : ℕ → List Barrier → ℕ
waiting s [] = 0
waiting s (b ∷ rest) = waiters_of s b.waiters + waiting s rest

-- The waits of a socket so far: those that last and those that were answered.
abbrev pub total : ℕ → Daemon → ℕ
total s d = waiting s d.allbarriers + answered s d.sent

waiters_of-append :
    (s : ℕ) (a b : List Waiter) → waiters_of s (a ++ b) ≡ waiters_of s a + waiters_of s b
unfolding waiters_of
waiters_of-append s [] b = omega arith
waiters_of-append s (w ∷ a) b = omega (arith, waiters_of-append s a b)

answered-append : (s : ℕ) (a b : List Answer) → answered s (a ++ b) ≡ answered s a + answered s b
unfolding answered
answered-append s [] b = omega arith
answered-append s (w ∷ a) b = omega (arith, answered-append s a b)

answered-release_client :
    (s sock ip : ℕ) (istcp : Bool) (result : ℤ) (d : Daemon)
    → answered s (release_client sock ip istcp result d).sent
      ≡ answered s d.sent + one_if (sock == s)
unfolding release_client answered
answered-release_client s sock ip istcp result d =
    answered-append s d.sent
      (record { sock = sock; ipaddr = ip; istcp = istcp; result = result } ∷ [])
    ∙ omega arith

release_client-allbarriers :
    (sock ip : ℕ) (istcp : Bool) (result : ℤ) (d : Daemon)
    → (release_client sock ip istcp result d).allbarriers ≡ d.allbarriers
unfolding release_client
release_client-allbarriers sock ip istcp result d = refl

release_all-allbarriers :
    (ws : List Waiter) (result : ℤ) (d : Daemon)
    → (release_all ws result d).allbarriers ≡ d.allbarriers
unfolding release_all
release_all-allbarriers [] result d = refl
release_all-allbarriers (w ∷ ws) result d =
    release_all-allbarriers ws result (release_client w.sock w.ipaddr w.istcp result d)
    ∙ release_client-allbarriers w.sock w.ipaddr w.istcp result d

pub answered-release_all :
    (s : ℕ) (ws : List Waiter) (result : ℤ) (d : Daemon)
    → answered s (release_all ws result d).sent ≡ answered s d.sent + waiters_of s ws
unfolding release_all waiters_of
answered-release_all s [] result d = omega arith
answered-release_all s (w ∷ ws) result d = omega (
  arith,
  answered-release_all s ws result (release_client w.sock w.ipaddr w.istcp result d),
  answered-release_client s w.sock w.ipaddr w.istcp result d,
)

pub waiting-put_barrier :
    (s : ℕ) (b b0 : Barrier) (l : List Barrier)
    → find_barrier b.name l ≡ some b0
    → waiting s (put_barrier b l) + waiters_of s b0.waiters ≡ waiting s l + waiters_of s b.waiters
unfolding find_barrier put_barrier waiting
waiting-put_barrier s b b0 [] e = absurd (ground arith)
waiting-put_barrier s b b0 (x ∷ l) e = elim (Bool-cases (x.name == b.name)) [
  | inl hit ↦
      let same : x ≡ b0 = ground (arith, hit) in
      rw (hit, put_barrier) (ground (arith, ap (λ (y : Barrier). waiters_of s y.waiters) same))
  | inr miss ↦
      rw (miss, put_barrier) (ground (arith, waiting-put_barrier s b b0 l (ground (arith, miss))))
]

pub waiting-remove_barrier :
    (s name : ℕ) (b0 : Barrier) (l : List Barrier)
    → find_barrier name l ≡ some b0
    → waiting s (remove_barrier name l) + waiters_of s b0.waiters ≡ waiting s l
unfolding find_barrier remove_barrier waiting
waiting-remove_barrier s name b0 [] e = absurd (ground arith)
waiting-remove_barrier s name b0 (x ∷ l) e = elim (Bool-cases (x.name == name)) [
  | inl hit ↦
      let same : x ≡ b0 = ground (arith, hit) in
      rw (hit, remove_barrier) (ground (arith, ap (λ (y : Barrier). waiters_of s y.waiters) same))
  | inr miss ↦
      rw (miss, remove_barrier)
        (ground (arith, waiting-remove_barrier s name b0 l (ground (arith, miss))))
]

pub find_barrier-name :
    (name : ℕ) (b : Barrier) (l : List Barrier) → find_barrier name l ≡ some b → b.name ≡ name
unfolding find_barrier
find_barrier-name name b [] e = absurd (ground arith)
find_barrier-name name b (x ∷ l) e = elim (Bool-cases (x.name == name)) [
  | inl hit ↦
      let same : x ≡ b = ground (arith, hit) in
      ap (λ (y : Barrier). y.name) (sym same) ∙ ground arith
  | inr miss ↦ find_barrier-name name b l (ground (arith, miss))
]

-- The barrier in the list is `b0`; `b` takes its place, or its waiters are answered.
total-check :
    (s : ℕ) (b b0 : Barrier) (d : Daemon)
    → find_barrier b.name d.allbarriers ≡ some b0
    → total s (check b d) + waiters_of s b0.waiters ≡ total s d + waiters_of s b.waiters
unfolding check
total-check s b b0 d e = elim (Bool-cases (is_zero b.count)) [
  | inl over ↦
      rw (over, check, release_all-allbarriers b.waiters b.error d)
        (omega (
          arith,
          answered-release_all s b.waiters b.error d,
          waiting-remove_barrier s b.name b0 d.allbarriers e,
        ))
  | inr more ↦ rw (more, check) (omega (arith, waiting-put_barrier s b b0 d.allbarriers e))
]

total-enlist :
    (s : ℕ) (w : Waiter) (b b0 : Barrier) (d : Daemon)
    → find_barrier b.name d.allbarriers ≡ some b0
    → b.waiters ≡ b0.waiters
    → total s (enlist w b d) ≡ total s d + one_if (w.sock == s)
unfolding enlist waiters_of
total-enlist s w b b0 d e same =
    let b' : Barrier = record b { waiters = b.waiters ++ w ∷ []; error = larger w.error b.error } in
    let d' : Daemon = record d {
      tcpsockets = if w.istcp then set_tcp w.sock (some b.name) d.tcpsockets else d.tcpsockets;
    } in
    omega (
      arith,
      total-check s b' b0 d' e,
      waiters_of-append s b.waiters (w ∷ []),
      ap (waiters_of s) same,
    )

-- The barrier of a request is in the list, and opening it changes no wait.
record IsOpened (s name : ℕ) (d : Daemon) (o : Barrier × Daemon) : Type 0 where
  found : find_barrier o.0.name o.1.allbarriers ≡ some o.0
  same : waiting s o.1.allbarriers ≡ waiting s d.allbarriers
  sent : o.1.sent ≡ d.sent

open_barrier-IsOpened :
    (s name : ℕ) (f : Option Barrier) (d : Daemon)
    → find_barrier name d.allbarriers ≡ f
    → IsOpened s name d (open_barrier name f d)
unfolding open_barrier find_barrier waiting waiters_of
open_barrier-IsOpened s name (some b) d e =
    let named = find_barrier-name name b d.allbarriers e in
    record {
      found = subst (λ n. find_barrier n d.allbarriers ≡ some b) (sym named) e;
      same = refl;
      sent = refl;
    }
open_barrier-IsOpened s name none d e = record {
  found = ground arith;
  same = omega arith;
  sent = refl;
}

refuse :
    (sock ip : ℕ) (istcp : Bool) (r : BarrierReq) (b : Barrier) (d : Daemon)
    → (serve sock ip istcp r b d).0 ≡ true
    → (serve sock ip istcp r b d).1 ≡ d
unfolding serve
refuse sock ip istcp r b d e = go r.request refl
  where
    go : (k : ReqKind) → r.request ≡ k → (serve sock ip istcp r b d).1 ≡ d
    go other_kind f = rw (f, serve) refl
    go barrier_wait f = absurd (ground (arith, f))
    go barrier_init f = elim (Bool-cases r.nowait) [
      | inl nowait ↦ absurd (ground (arith, f, nowait))
      | inr waits ↦ absurd (ground (arith, f, waits))
    ]

total-serve :
    (s sock ip : ℕ) (istcp : Bool) (r : BarrierReq) (k : ReqKind) (b : Barrier) (d : Daemon)
    → r.request ≡ k
    → find_barrier b.name d.allbarriers ≡ some b
    → total s (serve sock ip istcp r b d).1
      ≡ total s d + (if (serve sock ip istcp r b d).0 then 0 else one_if (sock == s))
unfolding serve
total-serve s sock ip istcp r other_kind b d e f = rw (e, serve) (omega arith)
total-serve s sock ip istcp r barrier_wait b d e f =
    rw (e, serve)
      (total-enlist s (waiter_of sock ip istcp (negsuc 0) r)
        (record b { count = add_int b.count (negsuc 0) }) b d f refl)
total-serve s sock ip istcp r barrier_init b d e f = elim (Bool-cases r.nowait) [
  | inr waits ↦
      rw (e, waits, serve)
        (total-enlist s (waiter_of sock ip istcp r.count r)
          (record b { count = add_int b.count r.count }) b d f refl)
  | inl nowait ↦
      let d' = release_client sock ip istcp (pos 0) d in
      rw (e, nowait, serve)
        (omega (
          arith,
          total-check s (record b { count = add_int b.count r.count }) b d'
              (rw (release_client-allbarriers sock ip istcp (pos 0) d) f),
          answered-release_client s sock ip istcp (pos 0) d,
          ap (waiting s) (release_client-allbarriers sock ip istcp (pos 0) d),
        ))
]

-- A request gives its client one wait more, that lasts or is answered, unless it is refused; every
-- other client has as many waits as before, that last or were answered. A request that is refused
-- sends nothing, and every client goes on waiting as before.
pub total-handle_request :
    (s sock ip : ℕ) (istcp : Bool) (r : BarrierReq) (d : Daemon)
    → let x = handle_request sock ip istcp r d in
      (total s x.1 ≡ total s d + (if x.0 then 0 else one_if (sock == s)))
      × (x.0 ≡ true → (x.1.sent ≡ d.sent) × (waiting s x.1.allbarriers ≡ waiting s d.allbarriers))
unfolding handle_request
total-handle_request s sock ip istcp r d =
    let o = open_barrier r.name (find_barrier r.name d.allbarriers) d in
    let h = open_barrier-IsOpened s r.name (find_barrier r.name d.allbarriers) d refl in
    (
      ground (
        arith,
        h.same,
        ap (answered s) h.sent,
        total-serve s sock ip istcp r r.request o.0 o.1 refl h.found,
      ),
      (λ e.
          let k = refuse sock ip istcp r o.0 o.1 e in
          (
            ap (λ (x : Daemon). x.sent) k ∙ h.sent,
            ap (λ (x : Daemon). waiting s x.allbarriers) k ∙ h.same,
          )),
    )
