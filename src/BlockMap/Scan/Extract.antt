-- ===== src/BlockMap/Scan/Extract.antt =====
-- `BlockMapExtract` of src/frisbee.redux/utils.c: the run that it takes, and the map that it leaves.
use frisbee.Base.{ℕ, zero, suc, ◌+◌, ◌-◌, ◌*◌, ◌%◌, ◌≤◌, ◌<◌, ◌≡◌, Bool, true, false, ◌⊎◌}
use frisbee.Base.{arith, if◌then◌else◌, ◌==◌, ltb, get_or, set, test_bit, test_bit_zero, clear_bit}
use frisbee.Base.{none, some, inl, inr, Bool-cases, clear_bit-lt, refl, subst}
use frisbee.BlockMap.{BlockMap, max_chunk_size}
use frisbee.BlockMap.Bits.{bit_at, in_range, IsMap, set-IsMap, bit_at-clear_bit}
use frisbee.BlockMap.Scan.{Scan, Extracted, extract_byte, extract_loop, skip_zero, extract}
use frisbee.BlockMap.Scan.First.{Skipped, skip_zero-Skipped, Skipped-bit_at}

-- The blocks before `p` have been looked at: the run found so far ends at `p`, and has been taken
-- out of the map, whose blocks were `f`.
record Pending (f : ℕ → Bool) (m : BlockMap) (p block count : ℕ) : Type 0 where
  shape : IsMap m
  cleared : (b : ℕ) → bit_at m b ≡ (if in_range block count b then false else f b)
  run : 0 < count → block + count ≡ p
  before : (b : ℕ) → b < p → f b ≡ in_range block count b

-- The first run of `f` is `count` blocks from `block` on, and it is out of the map `m`.
pub record IsFirstRun (f : ℕ → Bool) (m : BlockMap) (block count : ℕ) : Type 0 where
  pub shape : IsMap m
  pub cleared : (b : ℕ) → bit_at m b ≡ (if in_range block count b then false else f b)
  pub in_chunk : 0 < count → block + count ≤ max_chunk_size
  pub before :
      (b : ℕ)
      → b < max_chunk_size
      → (count ≡ 0) ⊎ (b < block + count)
      → f b ≡ in_range block count b
  pub ends : 0 < count → block + count < max_chunk_size → f (block + count) ≡ false

abbrev ByteDone : (ℕ → Bool) → ℕ → Scan → Type 0
ByteDone f p s =
    (s.ended ≡ true) × (0 < s.count) × IsFirstRun f s.blocks s.block s.count
    ⊎ (s.ended ≡ false) × Pending f s.blocks p s.block s.count

module _ (f : ℕ → Bool) (m : BlockMap) (i bit block count : ℕ) (ok : bit < 8) (inside : i < 128)
    (h : Pending f m (i * 8 + bit) block count) where
  here : test_bit (get_or m i 0) bit ≡ f (i * 8 + bit)
  here = ground (arith, h.run, h.cleared (i * 8 + bit))

  Pending-take :
      test_bit (get_or m i 0) bit ≡ true
      → Pending f
          (set m i (clear_bit (get_or m i 0) bit))
          (i * 8 + (bit + 1))
          (if count == 0 then i * 8 + bit else block)
          (count + 1)
  Pending-take e = record {
    shape =
        set-IsMap m i (clear_bit (get_or m i 0) bit)
          (clear_bit-lt (get_or m i 0) bit (h.shape.bytes i) ok) h.shape;
    cleared = λ b. ground (
      arith,
      h.run,
      h.cleared b,
      bit_at-clear_bit m i h.shape.bytes (omega (arith, h.shape.size)) bit ok b,
    );
    run = λ pos. ground (arith, h.run);
    before = λ b l. ground (arith, h.run, h.before b, here);
  }

  Pending-end : test_bit (get_or m i 0) bit ≡ false → 0 < count → IsFirstRun f m block count
  Pending-end e pos = record {
    shape = h.shape;
    cleared = h.cleared;
    in_chunk = λ p. omega (arith, h.run);
    before = λ b l side. ground (arith, h.run, h.before b);
    ends = λ p l. ground (arith, h.run, here);
  }

  Pending-skip :
      test_bit (get_or m i 0) bit ≡ false → count ≡ 0 → Pending f m (i * 8 + (bit + 1)) block count
  Pending-skip e z = record {
    shape = h.shape;
    cleared = h.cleared;
    run = λ p. absurd (omega arith);
    before = λ b l. ground (arith, h.before b, here);
  }

  Pending-break : get_or m i 0 ≡ 0 → count ≡ 0 → Pending f m ((i + 1) * 8) block count
  Pending-break e z = record {
    shape = h.shape;
    cleared = h.cleared;
    run = λ p. absurd (omega arith);
    before = λ b l. ground (arith, h.before b, h.cleared b, test_bit_zero (b % 8));
  }

extract_byte-ByteDone :
    (left : ℕ) (f : ℕ → Bool) (m : BlockMap) (i bit block count : ℕ)
    → bit + left ≡ 8
    → i < 128
    → Pending f m (i * 8 + bit) block count
    → ByteDone f ((i + 1) * 8) (extract_byte left m i bit block count)
unfolding extract_byte
extract_byte-ByteDone zero f m i bit block count e inside h =
    inr (refl, subst (λ p. Pending f m p block count) (omega arith) h)
extract_byte-ByteDone (suc left) f m i bit block count e inside h =
    elim (Bool-cases (test_bit (get_or m i 0) bit)) [
      | inl hit ↦
          rw (hit, extract_byte)
            (extract_byte-ByteDone left f (set m i (clear_bit (get_or m i 0) bit)) i (bit + 1)
              (if count == 0 then i * 8 + bit else block) (count + 1) (omega arith) inside
              (Pending-take f m i bit block count (omega arith) inside h hit))
      | inr miss ↦ elim (Bool-cases (ltb 0 count)) [
        | inl some_run ↦
            rw (miss, some_run, extract_byte)
              (inl (
                refl,
                ground arith,
                Pending-end f m i bit block count (omega arith) inside h miss (ground arith),
              ))
        | inr no_run ↦ elim (Bool-cases (get_or m i 0 == 0)) [
          | inl empty ↦
              rw (miss, no_run, empty, extract_byte)
                (inr (
                  refl,
                  Pending-break f m i bit block count (omega arith) inside h (ground arith)
                      (ground arith),
                ))
          | inr more ↦
              rw (miss, no_run, more, extract_byte)
                (extract_byte-ByteDone left f m i (bit + 1) block count (omega arith) inside
                  (Pending-skip f m i bit block count (omega arith) inside h miss (ground arith)))
        ]
      ]
    ]

Pending-over :
    (f : ℕ → Bool) (m : BlockMap) (i block count : ℕ)
    → i ≡ 128
    → Pending f m (i * 8) block count
    → IsFirstRun f m block count
Pending-over f m i block count e h = record {
  shape = h.shape;
  cleared = h.cleared;
  in_chunk = λ p. omega (arith, h.run);
  before = λ b l side. ground (arith, h.before b);
  ends = λ p l. absurd (omega (arith, h.run));
}

extract_loop-IsFirstRun :
    (rounds : ℕ) (f : ℕ → Bool) (m : BlockMap) (i block count : ℕ)
    → i + rounds ≡ 128
    → Pending f m (i * 8) block count
    → let s = extract_loop rounds m i block count in IsFirstRun f s.blocks s.block s.count
unfolding extract_loop
extract_loop-IsFirstRun zero f m i block count e h = Pending-over f m i block count (omega arith) h
extract_loop-IsFirstRun (suc rounds) f m i block count e h =
    elim (extract_byte-ByteDone 8 f m i 0 block count (omega arith) (omega arith)
      (subst (λ p. Pending f m p block count) (omega arith) h)) [
        | inl (done, pos, first_run) ↦ rw (done, extract_loop) first_run
        | inr (more, pending) ↦
            let s = extract_byte 8 m i 0 block count in
            rw (more, extract_loop)
              (extract_loop-IsFirstRun rounds f s.blocks (i + 1) s.block s.count (omega arith)
                pending)
      ]

-- What a call of `BlockMapExtract` on `m` does, with `block` the start of the run.
pub record IsExtraction (m : BlockMap) (e : Extracted) (block : ℕ) : Type 0 where
  pub start : e.start ≡ (if ltb 0 e.count then some block else none)
  pub first_run : IsFirstRun (bit_at m) e.blocks block e.count

-- `BlockMapExtract` removes the first run of the map, all of it, and returns its size; it writes
-- the start of the run through `blockp`, and writes nothing if the map is empty.
pub extract-IsExtraction : (m : BlockMap) → IsMap m → (block : ℕ) × IsExtraction m (extract m) block
unfolding extract
extract-IsExtraction m h =
    let i = skip_zero 128 m 0 in
    let sk : Skipped m 0 128 i = skip_zero-Skipped 128 m 0 128 (omega arith) in
    let pending : Pending (bit_at m) m (i * 8) 0 0 = record {
      shape = h;
      cleared = λ b. ground arith;
      run = λ p. absurd (omega arith);
      before = λ b l. ground (arith, Skipped-bit_at sk b l);
    } in
    let s = extract_loop (128 - i) m i 0 0 in
    (
      s.block,
      record {
        start = refl;
        first_run =
            extract_loop-IsFirstRun (128 - i) (bit_at m) m i 0 0 (omega (arith, sk.to)) pending;
      },
    )
