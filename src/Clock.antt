-- ===== src/Clock.antt =====
-- The arithmetic on `struct timeval` of src/frisbee.redux/utils.h: `pasttime`, `addtime`, `subtime`
-- and `addusec`. A time has the seconds as a 64-bit word and the microseconds as a number, which
-- no call here makes negative; `subtime` wraps around where the result would be a negative time.
use frisbee.Base.{ℕ, zero, suc, ◌+◌, ◌-◌, ◌*◌, ◌%◌, ◌≤◌, ◌<◌, ◌≡◌, Bool, ◌||◌, ◌&&◌, refl}
use frisbee.Base.{
  arith, ap₂, if◌then◌else◌, ◌==◌, ltb, leb, word, add64, sub64, Bool-cases, inl, inr,
}

pub record Time : Type 0 where
  pub sec : ℕ
  pub usec : ℕ

abbrev pub million : ℕ
million = 1000000

unfoldable pub past_time : Time → Time → Bool
past_time cur next = ltb next.sec cur.sec || cur.sec == next.sec && leb next.usec cur.usec

unfoldable pub add_time : Time → Time → Time
add_time cur inc =
    if leb million (cur.usec + inc.usec)
    then record { sec = add64 (add64 cur.sec inc.sec) 1; usec = cur.usec + inc.usec - million }
    else record { sec = add64 cur.sec inc.sec; usec = cur.usec + inc.usec }

unfoldable pub sub_time : Time → Time → Time
sub_time cur dec =
    if ltb cur.usec dec.usec
    then record { sec = sub64 (sub64 cur.sec 1) dec.sec; usec = cur.usec + million - dec.usec }
    else record { sec = sub64 cur.sec dec.sec; usec = cur.usec - dec.usec }

-- The loop of `addusec`; each round takes a million from `usec`, which bounds the rounds.
unfoldable pub carry_loop : ℕ → Time → Time
carry_loop zero t = t
carry_loop (suc fuel) t =
    let rest = carry_loop fuel (record { sec = add64 t.sec 1; usec = t.usec - million }) in
    if leb million t.usec then rest else t

unfoldable pub add_usec : Time → ℕ → Time
add_usec cur usec = carry_loop (cur.usec + usec) (record { sec = cur.sec; usec = cur.usec + usec })

-- The microseconds are less than a second, and the seconds fit in 63 bits, with room for sums.
pub record IsTime (t : Time) : Type 0 where
  pub carried : t.usec < million
  pub small : t.sec < 4611686018427387904

abbrev pub micros : Time → ℕ
micros t = t.sec * million + t.usec

-- `pasttime` compares the two times in microseconds.
pub past_time_lem :
    (cur next : Time)
    → IsTime cur
    → IsTime next
    → past_time cur next ≡ leb (micros next) (micros cur)
unfolding past_time
past_time_lem cur next hc hn = ground (arith, hc.carried, hn.carried)

-- `addtime` gives the sum in microseconds, and carries into the seconds.
pub add_time_lem :
    (cur inc : Time)
    → IsTime cur
    → IsTime inc
    → (micros (add_time cur inc) ≡ micros cur + micros inc) × ((add_time cur inc).usec < million)
unfolding add_time
add_time_lem cur inc hc hi = (
  ground (arith, hc.carried, hc.small, hi.carried, hi.small),
  ground (arith, hc.carried, hi.carried),
)

-- `subtime` of a time that is not later gives the difference in microseconds, and borrows from the
-- seconds.
pub sub_time_lem :
    (cur dec : Time)
    → IsTime cur
    → IsTime dec
    → micros dec ≤ micros cur
    → (micros (sub_time cur dec) + micros dec ≡ micros cur) × ((sub_time cur dec).usec < million)
unfolding sub_time
sub_time_lem cur dec hc hd le = (
  ground (arith, hc.carried, hc.small, hd.carried, hd.small),
  ground (arith, hc.carried, hd.carried),
)

abbrev time_of : ℕ → ℕ → Time
time_of x y = record { sec = x; usec = y }

Time-eq : (t u : Time) → t.sec ≡ u.sec → t.usec ≡ u.usec → t ≡ u
Time-eq t u e f = ap₂ time_of e f

sub_time_undoes : (cur inc : Time) → IsTime cur → IsTime inc → sub_time (add_time cur inc) inc ≡ cur
unfolding add_time sub_time
sub_time_undoes cur inc hc hi =
    Time-eq (sub_time (add_time cur inc) inc) cur
      (ground (arith, hc.carried, hc.small, hi.carried, hi.small))
      (ground (arith, hc.carried, hc.small, hi.carried, hi.small))

-- `addtime` gives the sum in microseconds, with less than a million of them beside the seconds, and
-- `subtime` undoes it.
pub sub_time-add_time :
    (cur inc : Time)
    → IsTime cur
    → IsTime inc
    → (micros (add_time cur inc) ≡ micros cur + micros inc)
      × ((add_time cur inc).usec < million)
      × (sub_time (add_time cur inc) inc ≡ cur)
sub_time-add_time cur inc hc hi =
    let sum = add_time_lem cur inc hc hi in (sum.0, sum.1, sub_time_undoes cur inc hc hi)

carry_loop_lem :
    (fuel : ℕ) (t : Time)
    → t.usec ≤ fuel
    → t.sec + fuel < word
    → (micros (carry_loop fuel t) ≡ micros t) × ((carry_loop fuel t).usec < million)
unfolding carry_loop
carry_loop_lem zero t h s = (refl, omega arith)
carry_loop_lem (suc fuel) t h s = elim (Bool-cases (leb million t.usec)) [
  | inl more ↦
      let t' : Time = record { sec = add64 t.sec 1; usec = t.usec - million } in
      let next : (t.sec + 1) % word ≡ t.sec + 1 = omega arith in
      let ih = carry_loop_lem fuel t' (ground arith) (omega arith) in
      rw (more, carry_loop) (ground (arith, ih.0, next), ih.1)
  | inr less ↦ rw (less, carry_loop) (refl, ground arith)
]

-- The loop of `addusec` ends with the sum in microseconds, carried into the seconds.
pub add_usec_lem :
    (cur : Time) (usec : ℕ)
    → IsTime cur
    → usec < 4611686018427387904
    → (micros (add_usec cur usec) ≡ micros cur + usec) × ((add_usec cur usec).usec < million)
unfolding add_usec
add_usec_lem cur usec h small =
    let t : Time = record { sec = cur.sec; usec = cur.usec + usec } in
    let l = carry_loop_lem (cur.usec + usec) t (omega arith) (omega (arith, h.carried, h.small)) in
    (omega (arith, l.0), l.1)
