-- ===== src/Clients/Laws.antt =====
-- The table of clients of src/frisbee.redux/server.c under `ClientJoin` and `ClientLeave`: its well-formedness.
use frisbee.Base.{ℕ, zero, suc, ◌+◌, ◌-◌, ◌≤◌, ◌≡◌, ◌≢◌, List, [], ◌∷◌, ◌++◌}
use frisbee.Base.{
  arith, if◌then◌else◌, ◌==◌, ltb, length, set, take, Option, some, none, refl, Bool-cases, inl,
  inr, Option-cases, get_elem?, ◌⊎◌, length-set, length-append, sym, ◌∙◌,
}
use frisbee.Clients.{
  Client, Table, Seen, same_id, same_ip, unseen, max_clients, find_from, first_free, scan, track,
  join_seen, client_join, leave_at, client_leave, cleared,
}

-- The entries that are in use.
unfoldable pub in_use : List Client → ℕ
in_use [] = 0
in_use (c ∷ rest) = (if c.id == 0 then 0 else 1) + in_use rest

-- A free entry has no address.
abbrev pub NoGhosts : List Client → Type 0
NoGhosts [] = Unit {0}
NoGhosts (c ∷ rest) = (c.id ≡ 0 → c.ip ≡ 0) × NoGhosts rest

pub record IsTable (t : Table) : Type 0 where
  pub bounded : length t.clients ≤ max_clients
  pub counted : t.active ≡ in_use t.clients
  pub clean : NoGhosts t.clients

in_use-set :
    (l : List Client) (i : ℕ) (c c' : Client)
    → get_elem? l i ≡ some c
    → in_use (set l i c') + (if c.id == 0 then 0 else 1) ≡ in_use l + (if c'.id == 0 then 0 else 1)
unfolding in_use
in_use-set [] i c c' e = absurd (ground arith)
in_use-set (x ∷ l) zero c c' e = let same : x ≡ c = ground arith in rw same (omega arith)
in_use-set (x ∷ l) (suc i) c c' e = omega (arith, in_use-set l i c c' e)

NoGhosts-set :
    (l : List Client) (i : ℕ) (c : Client)
    → (c.id ≡ 0 → c.ip ≡ 0)
    → NoGhosts l
    → NoGhosts (set l i c)
NoGhosts-set [] i c h g = tt
NoGhosts-set (x ∷ l) zero c h g = (h, g.1)
NoGhosts-set (x ∷ l) (suc i) c h g = (g.0, NoGhosts-set l i c h g.1)

NoGhosts-append :
    (l : List Client) (c : Client) → (c.id ≡ 0 → c.ip ≡ 0) → NoGhosts l → NoGhosts (l ++ c ∷ [])
NoGhosts-append [] c h g = (h, tt)
NoGhosts-append (x ∷ l) c h g = (g.0, NoGhosts-append l c h g.1)

in_use-append : (l : List Client) (c : Client) → c.id ≢ 0 → in_use (l ++ c ∷ []) ≡ in_use l + 1
unfolding in_use
in_use-append [] c h = ground arith
in_use-append (x ∷ l) c h = omega (arith, in_use-append l c h)

NoGhosts-take : (n : ℕ) (l : List Client) → NoGhosts l → NoGhosts (take n l)
NoGhosts-take zero l g = tt
NoGhosts-take (suc n) [] g = tt
NoGhosts-take (suc n) (x ∷ l) g = (g.0, NoGhosts-take n l g.1)

in_use-take :
    (i : ℕ) (l : List Client) (c : Client)
    → get_elem? l i ≡ some c
    → length l ≡ i + 1
    → c.id ≢ 0
    → in_use (take i l) + 1 ≡ in_use l
unfolding in_use
in_use-take i [] c e n h = absurd (ground arith)
in_use-take zero (x ∷ []) c e n h = let same : x ≡ c = ground arith in rw same (ground arith)
in_use-take zero (x ∷ y ∷ l) c e n h = absurd (omega arith)
in_use-take (suc i) (x ∷ l) c e n h = omega (arith, in_use-take i l c e (omega arith) h)

-- An entry that the search from entry `i` on came by.
record IsEntry (i : ℕ) (l : List Client) (j : ℕ) (c : Client) : Type 0 where
  steps : ℕ
  place : j ≡ i + steps
  here : get_elem? l steps ≡ some c

IsEntry-later :
    (i j : ℕ) (x c : Client) (l : List Client) → IsEntry (i + 1) l j c → IsEntry i (x ∷ l) j c
IsEntry-later i j x c l e = record {
  steps = suc e.steps;
  place = omega (arith, e.place);
  here = e.here;
}

IsEntry-first : (i : ℕ) (x : Client) (l : List Client) → IsEntry i (x ∷ l) i x
IsEntry-first i x l = record { steps = 0; place = omega arith; here = refl }

abbrev FreeEntry : ℕ → List Client → Option ℕ → Option ℕ → Type 0
FreeEntry i l free none = Unit {0}
FreeEntry i l free (some j) = (free ≡ some j) ⊎ ((c : Client) × IsEntry i l j c × (c.id ≡ 0))

abbrev IsSeen : ℕ → ℕ → ℕ → Option ℕ → List Client → Seen → Type 0
IsSeen id ip i free l (same_id j c) = IsEntry i l j c × (c.id ≡ id)
IsSeen id ip i free l (same_ip j c) = IsEntry i l j c × (c.ip ≡ ip)
IsSeen id ip i free l (unseen f) = FreeEntry i l free f

FreeEntry-later :
    (i : ℕ) (x : Client) (l : List Client) (free f : Option ℕ)
    → FreeEntry (i + 1) l (first_free free x i) f
    → FreeEntry i (x ∷ l) free f
FreeEntry-later i x l free none h = tt
FreeEntry-later i x l free (some j) (inr (c, e, z)) = inr (c, IsEntry-later i j x c l e, z)
FreeEntry-later i x l (some k) (some j) (inl e) = inl e
FreeEntry-later i x l none (some j) (inl e) = elim (Bool-cases (x.id == 0)) [
  | inl z ↦
      let here : i ≡ j = ground arith in inr (x, rw⁻¹ here (IsEntry-first i x l), ground arith)
  | inr used ↦ absurd (ground arith)
]

IsSeen-later :
    (id ip i : ℕ) (x : Client) (l : List Client) (free : Option ℕ) (s : Seen)
    → IsSeen id ip (i + 1) (first_free free x i) l s
    → IsSeen id ip i free (x ∷ l) s
IsSeen-later id ip i x l free (same_id j c) (e, h) = (IsEntry-later i j x c l e, h)
IsSeen-later id ip i x l free (same_ip j c) (e, h) = (IsEntry-later i j x c l e, h)
IsSeen-later id ip i x l free (unseen f) h = FreeEntry-later i x l free f h

scan-IsSeen :
    (id ip i : ℕ) (free : Option ℕ) (l : List Client) → IsSeen id ip i free l (scan id ip i free l)
unfolding scan
scan-IsSeen id ip i none [] = tt
scan-IsSeen id ip i (some j) [] = inl refl
scan-IsSeen id ip i free (x ∷ l) = elim (Bool-cases (x.id == id)) [
  | inl a ↦ rw (a, scan) (IsEntry-first i x l, ground arith)
  | inr b ↦ elim (Bool-cases (x.ip == ip)) [
    | inl a ↦ rw (b, a, scan) (IsEntry-first i x l, ground arith)
    | inr c ↦
        rw (b, c, scan)
          (IsSeen-later id ip i x l free (scan id ip (i + 1) (first_free free x i) l)
            (scan-IsSeen id ip (i + 1) (first_free free x i) l))
  ]
]

entry_at : (l : List Client) (j : ℕ) (c : Client) → IsEntry 0 l j c → get_elem? l j ≡ some c
entry_at l j c e = let same : j ≡ e.steps = omega (arith, e.place) in rw same e.here

-- An entry overwritten by one in use, in a table whose count goes by what was there.
IsTable-set :
    (t t' : Table) (i : ℕ) (c c' : Client)
    → IsTable t
    → get_elem? t.clients i ≡ some c
    → (c'.id ≡ 0 → c'.ip ≡ 0)
    → t'.clients ≡ set t.clients i c'
    → t'.active + (if c.id == 0 then 0 else 1) ≡ t.active + (if c'.id == 0 then 0 else 1)
    → IsTable t'
IsTable-set t t' i c c' h e g same active = record {
  bounded = rw same (omega (arith, length-set t.clients i c', h.bounded));
  counted = rw same (omega (arith, active, in_use-set t.clients i c c' e, h.counted));
  clean = rw same (NoGhosts-set t.clients i c' g h.clean);
}

NoGhosts-at :
    (l : List Client) (i : ℕ) (c : Client)
    → NoGhosts l
    → get_elem? l i ≡ some c
    → c.id ≡ 0
    → c.ip ≡ 0
NoGhosts-at [] i c g e = absurd (ground arith)
NoGhosts-at (x ∷ l) zero c g e = let same : x ≡ c = ground arith in rw⁻¹ same g.0
NoGhosts-at (x ∷ l) (suc i) c g e = NoGhosts-at l i c g.1 e

track-IsTable :
    (id ip : ℕ) (free : Option ℕ) (t : Table)
    → id ≢ 0
    → IsTable t
    → FreeEntry 0 t.clients none free
    → IsTable (track id ip free t)
unfolding track
track-IsTable id ip none t n h f = elim (Bool-cases (ltb (length t.clients) max_clients)) [
  | inl room ↦
      let c : Client = record { id = id; ip = ip; lastseq = 0 } in
      rw (room, track)
        (record {
          bounded = ground (arith, length-append t.clients (c ∷ []));
          counted = omega (arith, in_use-append t.clients c n, h.counted);
          clean = NoGhosts-append t.clients c (λ z. absurd (n z)) h.clean;
        })
  | inr full ↦ rw (full, track) h
]
track-IsTable id ip (some j) t n h (inl e) = absurd (ground arith)
track-IsTable id ip (some j) t n h (inr (c, e, z)) =
    IsTable-set t (track id ip (some j) t) j c (record { id = id; ip = ip; lastseq = 0 }) h
      (entry_at t.clients j c e) (λ z. absurd (n z)) refl (ground arith)

join_seen-IsTable :
    (id ip : ℕ) (s : Seen) (t : Table)
    → id ≢ 0
    → ip ≢ 0
    → IsTable t
    → IsSeen id ip 0 none t.clients s
    → IsTable (join_seen id ip s t)
unfolding join_seen
join_seen-IsTable id ip (unseen f) t n m h s = track-IsTable id ip f t n h s
join_seen-IsTable id ip (same_ip i c) t n m h (e, same) =
    let live : c.id ≢ 0 =
      λ z. m (sym same ∙ NoGhosts-at t.clients i c h.clean (entry_at t.clients i c e) z) in
    IsTable-set t (join_seen id ip (same_ip i c) t) i c (record c { id = id }) h
      (entry_at t.clients i c e) (λ z. absurd (n z)) refl (ground (arith, live))
join_seen-IsTable id ip (same_id i c) t n m h (e, same) = elim (Bool-cases (c.ip == ip)) [
  | inl a ↦ rw (a, join_seen) h
  | inr b ↦
      rw (b, join_seen)
        (IsTable-set t (record t { clients = set t.clients i (record c { ip = ip }) }) i c
          (record c { ip = ip }) h (entry_at t.clients i c e) (λ z. absurd (n (sym same ∙ z))) refl
          refl)
]

-- A client with an id and an address that joins keeps the table well-formed: it has at most
-- `MAXCLIENTS` entries, `activeclients` counts those in use, and free ones have no address.
pub client_join-IsTable :
    (id ip : ℕ) (t : Table) → id ≢ 0 → ip ≢ 0 → IsTable t → IsTable (client_join id ip t)
unfolding client_join
client_join-IsTable id ip t n m h =
    join_seen-IsTable id ip (scan id ip 0 none t.clients) t n m h
      (scan-IsSeen id ip 0 none t.clients)

-- What `findclient` returns is an entry with the id.
find_from-IsEntry :
    (id i : ℕ) (l : List Client) (j : ℕ)
    → find_from id i l ≡ some j
    → (c : Client) × IsEntry i l j c × (c.id ≡ id)
unfolding find_from
find_from-IsEntry id i [] j = λ e. absurd (ground arith)
find_from-IsEntry id i (x ∷ l) j = elim (Bool-cases (x.id == id)) [
  | inl a ↦
      rw (a, find_from)
        (λ e. let here : i ≡ j = ground arith in (x, rw⁻¹ here (IsEntry-first i x l), ground arith))
  | inr b ↦
      rw (b, find_from)
        (λ e.
          let r = find_from-IsEntry id (i + 1) l j e in (r.0, IsEntry-later i j x r.0 l r.1, r.2))
]

length-take-le : (n : ℕ) (l : List Client) → length (take n l) ≤ length l
length-take-le zero l = omega arith
length-take-le (suc n) [] = omega arith
length-take-le (suc n) (x ∷ l) = omega (arith, length-take-le n l)

leave_entry-IsTable :
    (i : ℕ) (c : Client) (t : Table)
    → IsTable t
    → get_elem? t.clients i ≡ some c
    → c.id ≢ 0
    → IsTable (leave_at (some i) t)
unfolding leave_at
leave_entry-IsTable i c t h e n = elim (Bool-cases (length t.clients == i + 1)) [
  | inl last ↦
      let count = in_use-take i t.clients c e (ground arith) n in
      rw (last, leave_at)
        (record {
          bounded = omega (arith, length-take-le i t.clients, h.bounded);
          counted = omega (arith, count, h.counted);
          clean = NoGhosts-take i t.clients h.clean;
        })
  | inr inner ↦
      let used = in_use-set t.clients i c cleared e in
      rw (inner, leave_at)
        (IsTable-set t (record t { clients = set t.clients i cleared; active = t.active - 1 }) i c
          cleared h e (λ z. refl) refl (ground (arith, used, h.counted)))
]

-- A client with an id that leaves keeps the table well-formed.
pub client_leave-IsTable : (id : ℕ) (t : Table) → id ≢ 0 → IsTable t → IsTable (client_leave id t)
unfolding client_leave leave_at
client_leave-IsTable id t n h = elim (Option-cases (find_from id 0 t.clients)) [
  | inl unknown ↦ rw (unknown, leave_at) h
  | inr (j, found) ↦
      let r = find_from-IsEntry id 0 t.clients j found in
      rw found (leave_entry-IsTable j r.0 t h (entry_at t.clients j r.0 r.1) (λ z. n (sym r.2 ∙ z)))
]
