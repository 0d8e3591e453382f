-- ===== src/Rangemap/Place.antt =====
-- The link that a search stops at, and the lists that the updates of rangemap.c make around it.
use frisbee.Base.{ℕ, zero, suc, ◌+◌, ◌≤◌, ◌<◌, ◌≡◌, List, [], ◌∷◌, ◌++◌}
use frisbee.Base.{arith, refl, sym, ◌∙◌, ap, inl, inr, Bool-cases, take-append-drop}
use frisbee.Base.{ltb, get_elem?, set, take, drop, length, some}
use frisbee.Rangemap.{Range}
use frisbee.Rangemap.Chain.{Chain, IsAt, Splice}
use frisbee.Rangemap.Search.{position}
use frisbee.Rangemap.Update.{insert_at, remove_at}

pub position-left :
    (addr lo hi : ℕ) (rs : List Range)
    → lo ≤ addr
    → Chain lo hi rs
    → Chain lo addr (take (position addr rs) rs)
unfolding position
position-left addr lo hi [] h c = h
position-left addr lo hi (r ∷ rs) h c = elim (Bool-cases (ltb r.end addr)) [
  | inl past ↦
      let count : position addr (r ∷ rs) ≡ suc (position addr rs) = rw past in
      rw count (c.0, c.1, position-left addr (r.end + 1) hi rs (ground arith) c.2)
  | inr stop ↦ let count : position addr (r ∷ rs) ≡ 0 = rw stop in rw count h
]

pub position-before :
    (addr p : ℕ) (rs : List Range) (r : Range)
    → suc p ≡ position addr rs
    → get_elem? rs p ≡ some r
    → r.end < addr
unfolding position
position-before addr p [] r e h = absurd (ground arith)
position-before addr zero (x ∷ rs) r e h = ground arith
position-before addr (suc p) (x ∷ rs) r e h = ground (arith, position-before addr p rs r)

pub position-next :
    (addr : ℕ) (rs : List Range) (n : Range)
    → get_elem? rs (position addr rs) ≡ some n
    → addr ≤ n.end
unfolding position
position-next addr [] n e = absurd (ground arith)
position-next addr (r ∷ rs) n e = elim (Bool-cases (ltb r.end addr)) [
  | inl past ↦
      let count : position addr (r ∷ rs) ≡ suc (position addr rs) = rw past in
      position-next addr rs n (rw count at e)
  | inr stop ↦
      let count : position addr (r ∷ rs) ≡ 0 = rw stop in
      let same : some r ≡ some n = rw count at e in ground arith
]

pub position-le : (addr : ℕ) (rs : List Range) → position addr rs ≤ length rs
unfolding position
position-le addr [] = omega arith
position-le addr (r ∷ rs) = ground (arith, position-le addr rs)

-- What follows link `i` starts at `m`, if the first range there does.
pub drop-Chain :
    (i lo hi m : ℕ) (rs : List Range)
    → Chain lo hi rs
    → m ≤ hi
    → ((n : Range) → get_elem? rs i ≡ some n → m ≤ n.start)
    → Chain m hi (drop i rs)
drop-Chain zero lo hi m [] c h first = h
drop-Chain (suc i) lo hi m [] c h first = h
drop-Chain zero lo hi m (r ∷ rs) c h first = (first r refl, c.1, c.2)
drop-Chain (suc i) lo hi m (r ∷ rs) c h first = drop-Chain i (r.end + 1) hi m rs c.2 h first

set-split :
    (i : ℕ) (rs : List Range) (r v : Range)
    → get_elem? rs i ≡ some r
    → set rs i v ≡ take i rs ++ v ∷ drop (suc i) rs
set-split i [] r v e = absurd (ground arith)
set-split zero (x ∷ rs) r v e = refl
set-split (suc i) (x ∷ rs) r v e = ap (λ l. x ∷ l) (set-split i rs r v e)

remove-set :
    (p : ℕ) (rs : List Range) (r v : Range)
    → get_elem? rs p ≡ some r
    → remove_at (suc p) (set rs p v) ≡ take p rs ++ v ∷ drop (suc (suc p)) rs
unfolding remove_at
remove-set p [] r v e = absurd (ground arith)
remove-set zero (x ∷ rs) r v e = refl
remove-set (suc p) (x ∷ rs) r v e = ap (λ l. x ∷ l) (remove-set p rs r v e)

insert-set :
    (i : ℕ) (rs : List Range) (r v w : Range)
    → get_elem? rs i ≡ some r
    → insert_at (suc i) w (set rs i v) ≡ take i rs ++ v ∷ w ∷ drop (suc i) rs
unfolding insert_at
insert-set i [] r v w e = absurd (ground arith)
insert-set zero (x ∷ rs) r v w e = refl
insert-set (suc i) (x ∷ rs) r v w e = ap (λ l. x ∷ l) (insert-set i rs r v w e)

drop-cons :
    (i : ℕ) (rs : List Range) (r : Range)
    → get_elem? rs i ≡ some r
    → drop i rs ≡ r ∷ drop (suc i) rs
drop-cons i [] r e = absurd (ground arith)
drop-cons zero (x ∷ rs) r e = ground arith
drop-cons (suc i) (x ∷ rs) r e = drop-cons i rs r e

module _ {lo hi : ℕ} (rs : List Range) where
  pub insert_at-Splice :
      (i m n : ℕ) (v : Range)
      → Chain lo m (take i rs)
      → Chain n hi (drop i rs)
      → Chain m n (v ∷ [])
      → Splice lo m n hi (take i rs) [] (v ∷ []) (drop i rs) rs (insert_at i v rs)
  unfolding insert_at
  insert_at-Splice i m n v left right good = record {
    left = left;
    was = omega arith;
    is = good;
    right = right;
    old_list = sym (take-append-drop i rs);
    new_list = refl;
  }

  pub set-Splice :
      (i m n : ℕ) (r v : Range)
      → get_elem? rs i ≡ some r
      → IsAt lo hi rs i r
      → Chain lo m (take i rs)
      → Chain n hi (drop (suc i) rs)
      → Chain m n (r ∷ [])
      → Chain m n (v ∷ [])
      → Splice lo m n hi (take i rs) (r ∷ []) (v ∷ []) (drop (suc i) rs) rs (set rs i v)
  set-Splice i m n r v e at left right was good = record {
    left = left;
    was = was;
    is = good;
    right = right;
    old_list = at.split;
    new_list = set-split i rs r v e;
  }

  -- Two neighbours become one.
  pub join-Splice :
      (p m n : ℕ) (r s v : Range)
      → get_elem? rs p ≡ some r
      → get_elem? rs (suc p) ≡ some s
      → IsAt lo hi rs p r
      → Chain lo m (take p rs)
      → Chain n hi (drop (suc (suc p)) rs)
      → Chain m n (r ∷ s ∷ [])
      → Chain m n (v ∷ [])
      → Splice lo m n hi
          (take p rs)
          (r ∷ s ∷ [])
          (v ∷ [])
          (drop (suc (suc p)) rs)
          rs
          (remove_at (suc p) (set rs p v))
  join-Splice p m n r s v e f at left right was good = record {
    left = left;
    was = was;
    is = good;
    right = right;
    old_list = at.split ∙ ap (λ l. take p rs ++ r ∷ l) (drop-cons (suc p) rs s f);
    new_list = remove-set p rs r v e;
  }

  pub remove_at-Splice :
      (i : ℕ) (r : Range)
      → IsAt lo hi rs i r
      → Splice lo r.start
          (r.end + 1)
          hi
          (take i rs)
          (r ∷ [])
          []
          (drop (suc i) rs)
          rs
          (remove_at i rs)
  unfolding remove_at
  remove_at-Splice i r at = record {
    left = at.left;
    was = (omega arith, at.good, omega arith);
    is = omega (arith, at.good);
    right = at.right;
    old_list = at.split;
    new_list = refl;
  }

  -- One range becomes two.
  pub split-Splice :
      (i : ℕ) (r v w : Range)
      → get_elem? rs i ≡ some r
      → IsAt lo hi rs i r
      → Chain r.start (r.end + 1) (v ∷ w ∷ [])
      → Splice lo r.start
          (r.end + 1)
          hi
          (take i rs)
          (r ∷ [])
          (v ∷ w ∷ [])
          (drop (suc i) rs)
          rs
          (insert_at (suc i) w (set rs i v))
  split-Splice i r v w e at good = record {
    left = at.left;
    was = (omega arith, at.good, omega arith);
    is = good;
    right = at.right;
    old_list = at.split;
    new_list = insert-set i rs r v w e;
  }
