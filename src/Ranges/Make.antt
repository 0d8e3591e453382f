-- ===== src/Ranges/Make.antt =====
-- `makeranges` of src/imagezip/imagezip.c: the sectors that the valid ranges hold.
use frisbee.Base.{ℕ, ◌+◌, ◌-◌, ◌≤◌, ◌<◌, ◌≡◌, ◌≢◌, false, ◌&&◌, ◌||◌, not, List, []}
use frisbee.Base.{ltb, leb, refl, arith, Bool-cases, inl, inr, word, ◌∷◌, ◌++◌, ◌∙◌}
use frisbee.Base.{sub64, add64}
use frisbee.Ranges.{
  SectRange, Lists, Making, range_of, add_valid, add_gap, make_loop, make_last, make_ranges,
}
use frisbee.Ranges.Merge.{held}

-- The ranges are in order and disjoint, between `lo` and `hi`.
abbrev pub Between : ℕ → ℕ → List SectRange → Type 0
Between lo hi [] = lo ≤ hi
Between lo hi (x ∷ rest) = (lo ≤ x.start) × Between (x.start + x.size) hi rest

Between-le : (lo hi : ℕ) (rs : List SectRange) → Between lo hi rs → lo ≤ hi
Between-le lo hi [] b = b
Between-le lo hi (x ∷ rest) b = omega (arith, b.0, Between-le (x.start + x.size) hi rest b.1)

held_below : (lo hi a : ℕ) (rs : List SectRange) → Between lo hi rs → a < lo → held rs a ≡ false
unfolding held
held_below lo hi a [] b l = refl
held_below lo hi a (x ∷ rest) b l = ground (arith, held_below (x.start + x.size) hi a rest b.1)

held-append : (xs ys : List SectRange) (a : ℕ) → held (xs ++ ys) a ≡ (held xs a || held ys a)
unfolding held
held-append [] ys a = refl
held-append (x ∷ xs) ys a = ground (arith, held-append xs ys a)

-- A valid range from `offset` to the next free range, unless that is empty.
held-add_gap :
    (offset size : ℕ) (l : Lists) (a : ℕ)
    → held (add_gap offset size l).valid a
      ≡ (held l.valid a || leb offset a && ltb a (offset + size))
unfolding held add_valid
held-add_gap offset size l a = elim (Bool-cases (ltb 0 size)) [
  | inl e ↦ rw e (held-append l.valid (range_of offset size ∷ []) a ∙ ground arith)
  | inr e ↦ rw e (ground arith)
]

sub64-eq : (a b : ℕ) → b ≤ a → a < word → sub64 a b ≡ a - b
sub64-eq a b h s = omega arith

add64-eq : (a b : ℕ) → a + b < word → add64 a b ≡ a + b
add64-eq a b s = omega arith

-- Where the loop comes to with the skips `rs` ahead.
record Walked (rs : List SectRange) (w w' : Making) (hi : ℕ) : Type 0 where
  pub forward : w.offset ≤ w'.offset
  pub bounded : w'.offset ≤ hi
  pub valid :
      (a : ℕ)
      → held w'.lists.valid a
        ≡ (held w.lists.valid a || leb w.offset a && ltb a w'.offset && not (held rs a))
  pub past : (a : ℕ) → w'.offset ≤ a → held rs a ≡ false

make_loop-Walked :
    (rs : List SectRange) (w : Making) (hi : ℕ)
    → Between w.offset hi rs
    → hi < word
    → Walked rs w (make_loop rs w) hi
unfolding make_loop held
make_loop-Walked [] w hi b s = record {
  forward = omega arith;
  bounded = b;
  valid = λ a. ground arith;
  past = λ a l. refl;
}
make_loop-Walked (x ∷ rest) w hi b s =
    let le = Between-le (x.start + x.size) hi rest b.1 in
    let gap : sub64 x.start w.offset ≡ x.start - w.offset =
      sub64-eq x.start w.offset b.0 (omega (arith, le)) in
    let next : add64 x.start x.size ≡ x.start + x.size =
      add64-eq x.start x.size (omega (arith, le)) in
    let w' : Making = record {
      offset = add64 x.start x.size;
      need64 = w.need64 || ltb 4294967295 w.offset || ltb 4294967295 (sub64 x.start w.offset);
      lists = add_gap w.offset (sub64 x.start w.offset) w.lists;
    } in
    let b' : Between w'.offset hi rest = rw next b.1 in
    let ih : Walked rest w' (make_loop rest w') hi = make_loop-Walked rest w' hi b' s in
    record {
      forward = omega (arith, ih.forward, next, b.0);
      bounded = ih.bounded;
      valid = λ a.
          ih.valid a
          ∙ ground (
            arith,
            held-add_gap w.offset (sub64 x.start w.offset) w.lists a,
            gap,
            next,
            b.0,
            ih.forward,
            held_below (x.start + x.size) hi a rest b.1,
          );
      past = λ a l. ground (arith, ih.past a l, ih.forward, next);
    }

make_last-valid :
    (maxsec : ℕ) (w : Making) (a : ℕ)
    → maxsec ≢ 0
    → w.offset ≤ maxsec
    → maxsec < word
    → held (make_last maxsec w).lists.valid a
      ≡ (held w.lists.valid a || leb w.offset a && ltb a maxsec)
unfolding make_last add_valid held
make_last-valid maxsec w a n le s =
    let size : sub64 maxsec w.offset ≡ maxsec - w.offset = sub64-eq maxsec w.offset le s in
    ground (arith, size, held-append w.lists.valid (range_of w.offset (maxsec - w.offset) ∷ []) a)

-- For free ranges that are sorted, disjoint and within the input, whose end is known, `makeranges`
-- adds valid ranges that hold exactly the sectors of the input that no free range holds.
pub held-make_ranges :
    (minsec maxsec : ℕ) (l : Lists) (a : ℕ)
    → Between minsec maxsec l.skips
    → maxsec ≢ 0
    → maxsec < word
    → held (make_ranges minsec maxsec l).0.valid a
      ≡ (held l.valid a || leb minsec a && ltb a maxsec && not (held l.skips a))
unfolding make_ranges
held-make_ranges minsec maxsec l a b n s =
    let w : Making = record { offset = minsec; need64 = false; lists = l } in
    let h = make_loop-Walked l.skips w maxsec b s in
    make_last-valid maxsec (make_loop l.skips w) a n h.bounded s
    ∙ ground (arith, h.valid a, h.forward, h.bounded, h.past a)
