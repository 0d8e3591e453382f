-- ===== src/Client/Search.antt =====
-- What the search of `GotBlock` finds in the cache.
use frisbee.Base.{
  ℕ, ◌+◌, ◌≡◌, ◌≢◌, not, Bool, true, false, ◌&&◌, List, [], ◌∷◌, arith, refl, sym, subst, ◌==◌, ◌⊎◌,
}
use frisbee.Base.{Option, some, none, Bool-cases, inl, inr}
use frisbee.Client.{Buffer, BufState, empty, filling, full, dubious, is_active, is_dubious}
use frisbee.Client.Valid.{collecting, collects}
use frisbee.Client.Requests.{IsFoundAt, IsFoundAt-later}
use frisbee.Client.Receive.{Slot, taken, absent, scan_buffers, or_first}

abbrev pub is_empty : BufState → Bool
is_empty empty = true
is_empty filling = false
is_empty full = false
is_empty dubious = false

-- No buffer is in a state of the kind.
unfoldable pub none_in : (BufState → Bool) → List Buffer → Bool
none_in p [] = true
none_in p (b ∷ rest) = not (p b.state) && none_in p rest

abbrev pub FreeAt : ℕ → ℕ → List Buffer → Option ℕ → Option ℕ → Type 0
FreeAt k i l free none = (free ≡ none) × (none_in is_empty l ≡ true)
FreeAt k i l free (some j) =
    (free ≡ some j) ⊎ ((b : Buffer) × IsFoundAt k i j b l × (b.state ≡ empty))

abbrev pub DubiousAt : ℕ → ℕ → List Buffer → Option (ℕ × Buffer) → Option (ℕ × Buffer) → Type 0
DubiousAt k i l dub none = (dub ≡ none) × (none_in is_dubious l ≡ true)
DubiousAt k i l dub (some (j, b)) =
    (dub ≡ some (j, b)) ⊎ (IsFoundAt k i j b l × (b.state ≡ dubious))

-- The buffer of the chunk; or there is none, and the free and the dubious buffer are such.
abbrev pub IsSlot : ℕ → ℕ → List Buffer → Option ℕ → Option (ℕ × Buffer) → Slot → Type 0
IsSlot k i l free dub (taken j b) = IsFoundAt k i j b l × (collects k b ≡ true)
IsSlot k i l free dub (absent f d) =
    (collecting k l ≡ 0) × FreeAt k i l free f × DubiousAt k i l dub d

found_first : (k i : ℕ) (b : Buffer) (l : List Buffer) → IsFoundAt k i i b (b ∷ l)
found_first k i b l = record { steps = 0; place = omega arith; here = refl }

FreeAt-skip :
    (k i : ℕ) (x : Buffer) (l : List Buffer) (free f : Option ℕ)
    → is_empty x.state ≡ false
    → FreeAt k (i + 1) l free f
    → FreeAt k i (x ∷ l) free f
unfolding none_in
FreeAt-skip k i x l free none n (e, h) = (e, rw (n, h) refl)
FreeAt-skip k i x l free (some j) n (inl e) = inl e
FreeAt-skip k i x l free (some j) n (inr (b, h, e)) = inr (b, IsFoundAt-later k i j b x l h, e)

FreeAt-here :
    (k i : ℕ) (x : Buffer) (l : List Buffer) (free f : Option ℕ)
    → x.state ≡ empty
    → FreeAt k (i + 1) l (or_first free i) f
    → FreeAt k i (x ∷ l) free f
FreeAt-here k i x l none none e (h, g) = absurd (ground arith)
FreeAt-here k i x l (some m) none e (h, g) = absurd (ground arith)
FreeAt-here k i x l free (some j) e (inr (b, h, d)) = inr (b, IsFoundAt-later k i j b x l h, d)
FreeAt-here k i x l (some m) (some j) e (inl h) = inl h
FreeAt-here k i x l none (some j) e (inl h) =
    let here : i ≡ j = ground arith in inr (x, rw⁻¹ here (found_first k i x l), e)

DubiousAt-skip :
    (k i : ℕ) (x : Buffer) (l : List Buffer) (dub d : Option (ℕ × Buffer))
    → is_dubious x.state ≡ false
    → DubiousAt k (i + 1) l dub d
    → DubiousAt k i (x ∷ l) dub d
unfolding none_in
DubiousAt-skip k i x l dub none n (e, h) = (e, rw (n, h) refl)
DubiousAt-skip k i x l dub (some (j, b)) n (inl e) = inl e
DubiousAt-skip k i x l dub (some (j, b)) n (inr (h, e)) = inr (IsFoundAt-later k i j b x l h, e)

found_same :
    (k i j : ℕ) (x b : Buffer) (l : List Buffer)
    → ◌≡◌ {A = Option (ℕ × Buffer)} (some (i, x)) (some (j, b))
    → IsFoundAt k i j b (x ∷ l)
found_same k i j x b l h = record { steps = 0; place = ground arith; here = ground arith }

pub some-none : {A : Type 0} → (a : A) → some a ≢ none
some-none a e = ground arith

DubiousAt-here :
    (k i : ℕ) (x : Buffer) (l : List Buffer) (dub d : Option (ℕ × Buffer))
    → x.state ≡ dubious
    → DubiousAt k (i + 1) l (or_first dub (i, x)) d
    → DubiousAt k i (x ∷ l) dub d
DubiousAt-here k i x l none none e (h, g) = absurd (some-none (i, x) h)
DubiousAt-here k i x l (some m) none e (h, g) = absurd (some-none m h)
DubiousAt-here k i x l dub (some (j, b)) e (inr (h, d)) = inr (IsFoundAt-later k i j b x l h, d)
DubiousAt-here k i x l (some m) (some (j, b)) e (inl h) = inl h
DubiousAt-here k i x l none (some (j, b)) e (inl h) =
    let same : x ≡ b = ground arith in inr (found_same k i j x b l h, rw⁻¹ same e)

-- A buffer that is passed by does not collect the chunk.
IsSlot-later :
    (k i : ℕ) (x : Buffer) (l : List Buffer) (free free' : Option ℕ)
    (dub dub' : Option (ℕ × Buffer)) (r : Slot)
    → collects k x ≡ false
    → ((f : Option ℕ) → FreeAt k (i + 1) l free' f → FreeAt k i (x ∷ l) free f)
    → ((d : Option (ℕ × Buffer)) → DubiousAt k (i + 1) l dub' d → DubiousAt k i (x ∷ l) dub d)
    → IsSlot k (i + 1) l free' dub' r
    → IsSlot k i (x ∷ l) free dub r
unfolding collecting
IsSlot-later k i x l free free' dub dub' (taken j b) c f d (h, e) =
    (IsFoundAt-later k i j b x l h, e)
IsSlot-later k i x l free free' dub dub' (absent m n) c f d (z, h, g) =
    (ground (arith, z, c), f m h, d n g)

-- What one round of the search comes to.
module _ (k i : ℕ) (free : Option ℕ) (dub : Option (ℕ × Buffer)) (x : Buffer)
    (l : List Buffer) where
  scan_full : x.state ≡ full → scan_buffers k i free dub (x ∷ l) ≡ scan_buffers k (i + 1) free dub l
  unfolding scan_buffers
  scan_full e = rw (scan_buffers, e) refl

  scan_empty :
      x.state ≡ empty
      → scan_buffers k i free dub (x ∷ l) ≡ scan_buffers k (i + 1) (or_first free i) dub l
  unfolding scan_buffers
  scan_empty e = rw (scan_buffers, e) refl

  scan_hit :
      is_active x.state ≡ true
      → (x.this_chunk == k) ≡ true
      → scan_buffers k i free dub (x ∷ l) ≡ taken i x
  unfolding scan_buffers
  scan_hit live hit = ground (arith, live, hit)

  scan_filling :
      x.state ≡ filling
      → (x.this_chunk == k) ≡ false
      → scan_buffers k i free dub (x ∷ l) ≡ scan_buffers k (i + 1) free dub l
  unfolding scan_buffers
  scan_filling e miss = rw (scan_buffers, e, miss) refl

  scan_dubious :
      x.state ≡ dubious
      → (x.this_chunk == k) ≡ false
      → scan_buffers k i free dub (x ∷ l) ≡ scan_buffers k (i + 1) free (or_first dub (i, x)) l
  unfolding scan_buffers
  scan_dubious e miss = simp (scan_buffers, e, miss) refl

  -- The buffer is passed by.
  pass :
      (free' : Option ℕ) (dub' : Option (ℕ × Buffer))
      → scan_buffers k i free dub (x ∷ l) ≡ scan_buffers k (i + 1) free' dub' l
      → collects k x ≡ false
      → ((f : Option ℕ) → FreeAt k (i + 1) l free' f → FreeAt k i (x ∷ l) free f)
      → ((d : Option (ℕ × Buffer)) → DubiousAt k (i + 1) l dub' d → DubiousAt k i (x ∷ l) dub d)
      → IsSlot k (i + 1) l free' dub' (scan_buffers k (i + 1) free' dub' l)
      → IsSlot k i (x ∷ l) free dub (scan_buffers k i free dub (x ∷ l))
  pass free' dub' e c f d h =
      subst (IsSlot k i (x ∷ l) free dub) (sym e)
        (IsSlot-later k i x l free free' dub dub' (scan_buffers k (i + 1) free' dub' l) c f d h)

  catch :
      is_active x.state ≡ true
      → (x.this_chunk == k) ≡ true
      → IsSlot k i (x ∷ l) free dub (scan_buffers k i free dub (x ∷ l))
  catch live hit =
      subst (IsSlot k i (x ∷ l) free dub) (sym (scan_hit live hit))
        (found_first k i x l, rw (live, hit) refl)

  scan_state-IsSlot :
      (st : BufState)
      → x.state ≡ st
      → ((free : Option ℕ) (dub : Option (ℕ × Buffer))
          → IsSlot k (i + 1) l free dub (scan_buffers k (i + 1) free dub l))
      → IsSlot k i (x ∷ l) free dub (scan_buffers k i free dub (x ∷ l))
  scan_state-IsSlot full e ih =
      pass free dub (scan_full e) (rw e refl) (λ f. FreeAt-skip k i x l free f (rw e refl))
        (λ d. DubiousAt-skip k i x l dub d (rw e refl)) (ih free dub)
  scan_state-IsSlot empty e ih =
      pass (or_first free i) dub (scan_empty e) (rw e refl) (λ f. FreeAt-here k i x l free f e)
        (λ d. DubiousAt-skip k i x l dub d (rw e refl)) (ih (or_first free i) dub)
  scan_state-IsSlot filling e ih = elim (Bool-cases (x.this_chunk == k)) [
    | inl hit ↦ catch (rw e refl) hit
    | inr miss ↦
        pass free dub (scan_filling e miss) (rw e miss)
          (λ f. FreeAt-skip k i x l free f (rw e refl))
          (λ d. DubiousAt-skip k i x l dub d (rw e refl)) (ih free dub)
  ]
  scan_state-IsSlot dubious e ih = elim (Bool-cases (x.this_chunk == k)) [
    | inl hit ↦ catch (rw e refl) hit
    | inr miss ↦
        pass free (or_first dub (i, x)) (scan_dubious e miss) (rw e miss)
          (λ f. FreeAt-skip k i x l free f (rw e refl)) (λ d. DubiousAt-here k i x l dub d e)
          (ih free (or_first dub (i, x)))
  ]

pub scan_buffers-IsSlot :
    (k i : ℕ) (free : Option ℕ) (dub : Option (ℕ × Buffer)) (l : List Buffer)
    → IsSlot k i l free dub (scan_buffers k i free dub l)
unfolding scan_buffers collecting none_in
scan_buffers-IsSlot k i none none [] = (refl, (refl, refl), (refl, refl))
scan_buffers-IsSlot k i (some j) none [] = (refl, inl refl, (refl, refl))
scan_buffers-IsSlot k i none (some (j, b)) [] = (refl, (refl, refl), inl refl)
scan_buffers-IsSlot k i (some m) (some (j, b)) [] = (refl, inl refl, inl refl)
scan_buffers-IsSlot k i free dub (x ∷ l) =
    scan_state-IsSlot k i free dub x l x.state refl (λ f d. scan_buffers-IsSlot k (i + 1) f d l)
