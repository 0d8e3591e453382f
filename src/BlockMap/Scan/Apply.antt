-- ===== src/BlockMap/Scan/Apply.antt =====
-- `BlockMapApply` of src/frisbee.redux/utils.c, beside the calls on the maximal runs of a map.
use frisbee.Base.{ℕ, zero, suc, ◌+◌, ◌*◌, ◌≤◌, ◌<◌, ◌≡◌, Bool, true, false}
use frisbee.Base.{arith, if◌then◌else◌, ◌==◌, ltb, get_or, test_bit, clear_bit}
use frisbee.Base.{
  test_bit-clear_bit, clear_bit-lt, refl, ◌∙◌, sym, subst, ap, ap₂, inl, inr, ◌⊎◌, Bool-cases, List,
  [], ◌∷◌,
}
use frisbee.BlockMap.{BlockMap, max_chunk_size}
use frisbee.BlockMap.Bits.{bit_at, IsMap}
use frisbee.BlockMap.Scan.Runs.{
  close, close_none, close_some, runs, runs_hit, runs_miss, rest_skip, byte_bit,
}
use frisbee.BlockMap.Scan.{Callback, call, Walk, finish_run, apply_byte, apply_loop, apply}

module _ {S : Type 0} (func : Callback S) (chunk : ℕ) where
  -- The calls on a list of runs: the blocks processed, and the state left.
  unfoldable pub call_all : List (ℕ × ℕ) → ℕ → S → ℕ × S
  call_all [] did s = (did, s)
  call_all ((start, count) ∷ rs) did s =
      let r = call func chunk start count s in
      elim r.0 [ true ↦ (did + count, r.1) | false ↦ call_all rs (did + count) r.1 ]

  -- What is left to do for a walk at `p` with `n` blocks to go.
  abbrev target : (ℕ → Bool) → Walk S → ℕ → ℕ → ℕ × S
  target f w n p = call_all (runs f n p w.block w.count) w.did w.state

  -- A walk that a call stopped has its result; another has the rest of the work ahead.
  abbrev Reaches : (ℕ → Bool) → ℕ → ℕ → ℕ × S → Walk S → Type 0
  Reaches f n p result w =
      (w.stopped ≡ true) × ((w.did, w.state) ≡ result)
      ⊎ (w.stopped ≡ false) × (target f w n p ≡ result)

  -- What `finish_run` makes of a walk with the runs `rs` ahead.
  abbrev Finished : Walk S → List (ℕ × ℕ) → Walk S → Type 0
  Finished w rs w' =
      (w'.stopped ≡ true) × ((w'.did, w'.state) ≡ call_all (close w.block w.count rs) w.did w.state)
      ⊎ (w'.stopped ≡ false)
        × (w'.count ≡ 0)
        × (w'.block ≡ w.block)
        × (call_all rs w'.did w'.state ≡ call_all (close w.block w.count rs) w.did w.state)

  finish_run-Finished :
      (w : Walk S) (rs : List (ℕ × ℕ)) → w.stopped ≡ false → Finished w rs (finish_run func chunk w)
  unfolding finish_run call_all
  finish_run-Finished w rs live = elim (Bool-cases (ltb 0 w.count)) [
    | inl pos ↦ elim (Bool-cases (call func chunk w.block w.count w.state).0) [
      | inl stop ↦
          rw (close_some w.block w.count rs (ground arith), pos, finish_run, stop, call_all)
            (inl (refl, refl))
      | inr on ↦
          rw (close_some w.block w.count rs (ground arith), pos, finish_run, on, call_all)
            (inr (refl, refl, refl, refl))
    ]
    | inr none_yet ↦
        rw (close_none w.block w.count rs (ground arith), none_yet, finish_run)
          (inr (live, ground arith, refl, refl))
  ]

  -- The walk has no run at hand: it goes on with the runs ahead.
  target_none :
      (f : ℕ → Bool) (w : Walk S) (n p block : ℕ)
      → w.count ≡ 0
      → w.block ≡ block
      → target f w n p ≡ call_all (runs f n p block 0) w.did w.state
  target_none f w n p block c b = ap₂ (λ b c. call_all (runs f n p b c) w.did w.state) b c

  apply_byte-Reaches :
      (left : ℕ) (f : ℕ → Bool) (i bit val : ℕ) (w : Walk S) (n : ℕ)
      → bit + left ≡ 8
      → val < 256
      → w.stopped ≡ false
      → ((j : ℕ) → bit ≤ j → j < 8 → test_bit val j ≡ f (i * 8 + j))
      → Reaches f n
          ((i + 1) * 8)
          (target f w (left + n) (i * 8 + bit))
          (apply_byte func chunk left i bit val w)
  unfolding apply_byte
  apply_byte-Reaches zero f i bit val w n e hv live same =
      inr (live, ap₂ (λ n p. target f w n p) (omega arith) (omega arith))
  apply_byte-Reaches (suc left) f i bit val w n e hv live same =
      let b = i * 8 + bit in
      elim (Bool-cases (test_bit val bit)) [
        | inl hit ↦
            let w' : Walk S = record w {
              block = if w.count == 0 then b else w.block;
              count = w.count + 1;
            } in
            rw
              (
                hit,
                apply_byte,
                runs_hit f (suc left + n) (left + n) b (i * 8 + (bit + 1)) w.block w.count
                    (omega arith) (omega arith) (sym (same bit (omega arith) (omega arith)) ∙ hit),
              )
              (apply_byte-Reaches left f i (bit + 1) (clear_bit val bit) w' n (omega arith)
                (clear_bit-lt val bit hv (omega arith)) live
                (λ j lo hi. ground (arith, test_bit-clear_bit val bit j, same j (omega arith) hi)))
        | inr miss ↦
            let rs = runs f (left + n) (i * 8 + (bit + 1)) w.block 0 in
            let w' = finish_run func chunk w in
            rw
              (runs_miss f (suc left + n) (left + n) b (i * 8 + (bit + 1)) w.block w.count
                (omega arith) (omega arith) (sym (same bit (omega arith) (omega arith)) ∙ miss))
              (elim (finish_run-Finished w rs live) [
                | inl (stop, done) ↦ rw (miss, stop, apply_byte) (inl (stop, done))
                | inr (on, c, bl, done) ↦ elim (Bool-cases (val == 0)) [
                  | inl z ↦
                      rw (miss, on, z, apply_byte)
                        (inr (
                          on,
                          target_none f w' n ((i + 1) * 8) w.block c bl
                              ∙ ap (λ r. call_all r w'.did w'.state)
                                  (sym (
                                    rest_skip f left n i bit val w.block (omega arith)
                                      (ground arith) same))
                              ∙ done,
                        ))
                  | inr more ↦
                      rw (miss, on, more, apply_byte)
                        (subst
                          (λ r.
                            Reaches f n ((i + 1) * 8) r
                              (apply_byte func chunk left i (bit + 1) val w'))
                          (target_none f w' (left + n) (i * 8 + (bit + 1)) w.block c bl ∙ done)
                          (apply_byte-Reaches left f i (bit + 1) val w' n (omega arith) hv on
                            (λ j lo hi. same j (omega arith) hi)))
                ]
              ])
      ]

  apply_loop-target :
      (rounds : ℕ) (m : BlockMap) (i : ℕ) (w : Walk S)
      → IsMap m
      → w.stopped ≡ false
      → let w' = apply_loop func chunk rounds m i w in
        (w'.did, w'.state) ≡ target (bit_at m) w (rounds * 8) (i * 8)
  unfolding apply_loop runs call_all
  apply_loop-target zero m i w h live = elim (finish_run-Finished w [] live) [
    | inl (stop, done) ↦ done
    | inr (on, c, bl, done) ↦ done
  ]
  apply_loop-target (suc rounds) m i w h live =
      let f = bit_at m in
      let w' = apply_byte func chunk 8 i 0 (get_or m i 0) w in
      let start : target f w (8 + rounds * 8) (i * 8 + 0) ≡ target f w (suc rounds * 8) (i * 8) =
        ap₂ (λ n p. target f w n p) (omega arith) (omega arith) in
      elim (apply_byte-Reaches 8 f i 0 (get_or m i 0) w (rounds * 8) (omega arith) (h.bytes i) live
        (λ j lo hi. byte_bit m i j hi)) [
          | inl (stop, done) ↦ rw (stop, apply_loop) (done ∙ start)
          | inr (on, ahead) ↦
              rw (on, apply_loop) (apply_loop-target rounds m (i + 1) w' h on ∙ ahead ∙ start)
        ]

  -- `BlockMapApply` makes the calls on the maximal runs of the map in order, and returns the blocks
  -- of the runs that it called the function on.
  pub apply_lem :
      (m : BlockMap) (s : S)
      → IsMap m
      → apply func chunk m s ≡ call_all (runs (bit_at m) max_chunk_size 0 0 0) 0 s
  unfolding apply
  apply_lem m s h =
      apply_loop-target 128 m 0
        (record { block = 0; count = 0; did = 0; state = s; stopped = false }) h refl
