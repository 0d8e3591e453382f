-- ===== src/Barriers/Leave.antt =====
-- A client of the barrier daemon whose connection closes.
use frisbee.Base.{ℕ, ◌+◌, ◌<◌, ◌≡◌, true, List, [], ◌∷◌, some, none}
use frisbee.Base.{arith, refl, sym, subst, ◌==◌, Bool-cases, inl, inr}
use frisbee.Barriers.{
  Waiter, Barrier, Daemon, set_tcp, find_barrier, uncount, pack, is_nil, leave_barrier,
  remove_tcpclient,
}
use frisbee.Barriers.Laws.{
  one_if, waiters_of, waiting, waiting-put_barrier, waiting-remove_barrier, find_barrier-name,
}

waiters_of-pack :
    (s sock : ℕ) (ws : List Waiter)
    → 0 < waiters_of sock ws
    → waiters_of s (pack sock ws) + one_if (sock == s) ≡ waiters_of s ws
unfolding pack waiters_of
waiters_of-pack s sock [] h = absurd (omega (arith, h))
waiters_of-pack s sock (w ∷ []) h = elim (Bool-cases (w.sock == sock)) [
  | inl hit ↦ ground (arith, hit)
  | inr miss ↦ absurd (ground (arith, miss))
]
waiters_of-pack s sock (w ∷ x ∷ ws) h = elim (Bool-cases (w.sock == sock)) [
  | inl hit ↦ ground (arith, hit)
  | inr miss ↦
      rw (miss, pack) (omega (arith, waiters_of-pack s sock (x ∷ ws) (ground (arith, miss))))
]

is_nil-waiters_of : (s : ℕ) (ws : List Waiter) → is_nil ws ≡ true → waiters_of s ws ≡ 0
unfolding waiters_of
is_nil-waiters_of s [] e = refl
is_nil-waiters_of s (w ∷ ws) e = absurd (ground arith)

module _ (s sock : ℕ) (b : Barrier) (d : Daemon) (name : ℕ)
    (e : find_barrier name d.allbarriers ≡ some b) (h : 0 < waiters_of sock b.waiters) where
  abbrev packed : Barrier
  packed = record b { count = uncount sock b.waiters b.count; waiters = pack sock b.waiters }

  named : find_barrier b.name d.allbarriers ≡ some b
  named =
      subst (λ n. find_barrier n d.allbarriers ≡ some b)
        (sym (find_barrier-name name b d.allbarriers e)) e

  leave :
      waiting s (leave_barrier sock (some b) d).allbarriers + one_if (sock == s)
      ≡ waiting s d.allbarriers
  unfolding leave_barrier
  leave = elim (Bool-cases (is_nil (pack sock b.waiters))) [
    | inl last ↦
        rw (last, leave_barrier)
          (omega (
            arith,
            waiting-remove_barrier s b.name b d.allbarriers named,
            waiters_of-pack s sock b.waiters h,
            is_nil-waiters_of s (pack sock b.waiters) last,
          ))
    | inr others ↦
        rw (others, leave_barrier)
          (omega (
            arith,
            waiting-put_barrier s packed b d.allbarriers named,
            waiters_of-pack s sock b.waiters h,
          ))
  ]

-- A client that waits and whose connection closes stops waiting; no other client does, and nothing is
-- sent, whatever count is left for the barrier.
pub remove_tcpclient_lem :
    (s sock name : ℕ) (b : Barrier) (d : Daemon)
    → d.tcpsockets sock ≡ some name
    → find_barrier name d.allbarriers ≡ some b
    → 0 < waiters_of sock b.waiters
    → (waiting s (remove_tcpclient sock d).allbarriers + one_if (sock == s)
        ≡ waiting s d.allbarriers)
      × ((remove_tcpclient sock d).sent ≡ d.sent)
unfolding remove_tcpclient leave_barrier
remove_tcpclient_lem s sock name b d t e h =
    let d' : Daemon = record d { tcpsockets = set_tcp sock none d.tcpsockets } in
    rw (t, e, remove_tcpclient) (leave s sock b d' name e h, refl)
