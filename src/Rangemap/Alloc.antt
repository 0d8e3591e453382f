-- ===== src/Rangemap/Alloc.antt =====
-- What a successful `ndz_rangemap_alloc` does to the allocated addresses.
pub mod Cases
pub mod Outcome
pub mod Laws
use frisbee.Base.{
  ℕ, zero, suc, ◌+◌, ◌-◌, ◌%◌, ◌≤◌, ◌<◌, ◌≡◌, ◌≢◌, Bool, true, false, List, [], ◌∷◌, ◌++◌,
}
use frisbee.Base.{arith, refl, sym, subst, ◌∙◌, ap, inl, inr, ◌⊎◌, Bool-cases, ◌&&◌, ◌||◌}
use frisbee.Base.{
  if◌then◌else◌, ◌==◌, leb, ltb, get_elem?, set, take, drop, length, Option, some, none,
}
use frisbee.Rangemap.{Range, Rangemap, word, add64, sub64, before}
use frisbee.Rangemap.Chain.{Chain, Chain-le, Chain-IsAt, IsAt, Splice, holder, holds, total, within}
use frisbee.Rangemap.Chain.{Splice-Chain, Splice-holder, Splice-old, Splice-length, Splice-total}
use frisbee.Rangemap.Search.{position}
use frisbee.Rangemap.Place.{position-left, position-before, position-next, drop-Chain}
use frisbee.Rangemap.Place.{insert_at-Splice, set-Splice, join-Splice}
use frisbee.Rangemap.Update.{insert_at, remove_at, extend_prev, extend_next, alloc_merge, alloc_new}

-- A map that is consistent: the ranges in order between the bounds, and the two counters right.
pub record IsValid (m : Rangemap) : Type 0 where
  pub chain : Chain m.loaddr (m.hiaddr + 1) m.ranges
  pub small : m.hiaddr < word
  pub hinted : m.hint ≤ length m.ranges
  pub counted : m.entries ≡ length m.ranges % word
  pub measured : m.sectors ≡ total m.ranges % word

-- The addresses from `addr` to `eaddr` join those of `rs`; where `P` holds, they are associated
-- with `c` and nothing else changes.
pub record Grown (P : Type 0) (lo hi : ℕ) (rs rs' : List Range) (addr eaddr c : ℕ) : Type 0 where
  pub chain : Chain lo hi rs'
  pub covers : (a : ℕ) → holds rs' a ≡ (within addr eaddr a || holds rs a)
  pub contents : P → (a : ℕ) → holder rs' a ≡ (if within addr eaddr a then some c else holder rs a)
  pub size : total rs' ≡ total rs + (eaddr - addr + 1)

module _ (lo hi : ℕ) (rs : List Range) (addr eaddr c : ℕ) (order : addr ≤ eaddr) where
  pub new-Grown :
      (i : ℕ)
      → Chain lo addr (take i rs)
      → Chain (eaddr + 1) hi (drop i rs)
      → let rs' = insert_at i (record { start = addr; end = eaddr; content = c }) rs in
        Grown (Unit {0}) lo hi rs rs' addr eaddr c × (length rs' ≡ length rs + 1)
  unfolding holder total
  new-Grown i left right =
      let s =
        insert_at-Splice rs i addr (eaddr + 1) (record { start = addr; end = eaddr; content = c })
          left right (omega arith, order, omega arith) in
      (
        record {
          chain = Splice-Chain s;
          covers = λ a. ground (arith, Splice-holder s a, Splice-old s a);
          contents = λ p a. ground (arith, Splice-holder s a, Splice-old s a);
          size = omega (arith, Splice-total s);
        },
        omega (arith, Splice-length s),
      )

  -- The range before is extended.
  pub prev-Grown :
      (p : ℕ) (r : Range)
      → get_elem? rs p ≡ some r
      → r.end + 1 ≡ addr
      → Chain lo hi rs
      → Chain (eaddr + 1) hi (drop (suc p) rs)
      → let rs' = set rs p (record r { end = eaddr }) in
        Grown (r.content ≡ c) lo hi rs rs' addr eaddr c × (length rs' ≡ length rs)
  unfolding holder total
  prev-Grown p r e abut whole right =
      let at = Chain-IsAt lo hi p rs r whole e in
      let s =
        set-Splice rs p r.start (eaddr + 1) r (record r { end = eaddr }) e at at.left right
          (omega arith, at.good, omega arith) (omega arith, omega (arith, at.good), omega arith) in
      (
        record {
          chain = Splice-Chain s;
          covers = λ a. ground (arith, at.good, Splice-holder s a, Splice-old s a);
          contents = λ q a. ground (arith, at.good, Splice-holder s a, Splice-old s a);
          size = omega (arith, at.good, Splice-total s);
        },
        omega (arith, Splice-length s),
      )

  -- The range before, the new addresses and the next range become one.
  pub join-Grown :
      (p : ℕ) (r n : Range)
      → get_elem? rs p ≡ some r
      → get_elem? rs (suc p) ≡ some n
      → r.end + 1 ≡ addr
      → eaddr + 1 ≡ n.start
      → Chain lo hi rs
      → let rs' = remove_at (suc p) (set rs p (record r { end = n.end })) in
        Grown ((r.content ≡ c) × (n.content ≡ c)) lo hi rs rs' addr eaddr c
        × (length rs' + 1 ≡ length rs)
  unfolding holder total
  join-Grown p r n e f abut next whole =
      let at = Chain-IsAt lo hi p rs r whole e in
      let at' = Chain-IsAt lo hi (suc p) rs n whole f in
      let s =
        join-Splice rs p r.start (n.end + 1) r n (record r { end = n.end }) e f at at.left at'.right
          (omega arith, at.good, (omega arith, at'.good, omega arith))
          (omega arith, omega (arith, at.good, at'.good), omega arith) in
      (
        record {
          chain = Splice-Chain s;
          covers = λ a. ground (arith, at.good, at'.good, Splice-holder s a, Splice-old s a);
          contents = λ q a. ground (arith, at.good, at'.good, Splice-holder s a, Splice-old s a);
          size = omega (arith, at.good, at'.good, Splice-total s);
        },
        omega (arith, Splice-length s),
      )

  -- The next range is extended downwards.
  pub next-Grown :
      (i : ℕ) (n : Range)
      → get_elem? rs i ≡ some n
      → eaddr + 1 ≡ n.start
      → Chain lo hi rs
      → Chain lo addr (take i rs)
      → let rs' = set rs i (record n { start = addr }) in
        Grown (n.content ≡ c) lo hi rs rs' addr eaddr c × (length rs' ≡ length rs)
  unfolding holder total
  next-Grown i n e next whole left =
      let at = Chain-IsAt lo hi i rs n whole e in
      let s =
        set-Splice rs i addr (n.end + 1) n (record n { start = addr }) e at left at.right
          (omega arith, at.good, omega arith) (omega arith, omega (arith, at.good), omega arith) in
      (
        record {
          chain = Splice-Chain s;
          covers = λ a. ground (arith, at.good, Splice-holder s a, Splice-old s a);
          contents = λ q a. ground (arith, at.good, Splice-holder s a, Splice-old s a);
          size = omega (arith, at.good, Splice-total s);
        },
        omega (arith, Splice-length s),
      )
