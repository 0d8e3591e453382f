-- ===== src/Rangemap/Update.antt =====
-- `ndz_rangemap_alloc` and `ndz_rangemap_dealloc` of src/imagezip/libndz/rangemap.c.
use frisbee.Base.{ℕ, suc, ◌-◌, Bool, false, ◌&&◌, ◌||◌, List, ◌∷◌, ◌++◌}
use frisbee.Base.{if◌then◌else◌, ◌==◌, leb, ltb, get_elem?, set, take, drop, Option, some, none}
use frisbee.Rangemap.{
  add64, sub64, Range, Rangemap, Status, ok, einval, ebusy, enomem, lookup, Found,
}

-- A new range behind link `i`, and the range behind link `i` taken out.
unfoldable pub insert_at : ℕ → Range → List Range → List Range
insert_at i r rs = take i rs ++ r ∷ drop i rs

unfoldable pub remove_at : ℕ → List Range → List Range
remove_at i rs = take i rs ++ drop (suc i) rs

-- `addr + size - 1`
abbrev pub last_addr : ℕ → ℕ → ℕ
last_addr addr size = sub64 (add64 addr size) 1

abbrev pub is_bad : Rangemap → ℕ → ℕ → Bool
is_bad map addr eaddr = ltb eaddr addr || ltb addr map.loaddr || ltb map.hiaddr eaddr

-- `!ishead && prev->end + 1 == addr`
abbrev pub abuts_prev : Option Range → ℕ → Bool
abuts_prev none addr = false
abuts_prev (some r) addr = add64 r.end 1 == addr

-- `next && eaddr + 1 == next->start`
abbrev pub abuts_next : Option Range → ℕ → Bool
abuts_next none eaddr = false
abuts_next (some r) eaddr = add64 eaddr 1 == r.start

-- `data == NULL`, on a range that is there.
abbrev pub is_plain : Option Range → Bool
is_plain none = false
is_plain (some r) = r.content == 0

abbrev pub overlaps_next : Option Range → ℕ → Bool
overlaps_next none eaddr = false
overlaps_next (some r) eaddr = leb r.start eaddr

-- The last step of every successful allocation.
abbrev pub account : Rangemap → ℕ → Rangemap
account map size = record map { gen = add64 map.gen 1; sectors = add64 map.sectors size }

-- The range before is extended to `eaddr`, and the next one is joined to it if it follows at once.
unfoldable pub extend_prev : Rangemap → ℕ → Range → Option Range → ℕ → Rangemap
extend_prev map i r next eaddr =
    let hint = if map.hint == i - 1 then map.hint else i in
    elim next [
      | none ↦ record map {
        ranges = set map.ranges (i - 1) (record r { end = eaddr });
        hint = hint;
      }
      | some n ↦
          if add64 eaddr 1 == n.start
          then record map {
            ranges = remove_at i (set map.ranges (i - 1) (record r { end = n.end }));
            hint = hint;
            entries = sub64 map.entries 1;
          }
          else record map {
            ranges = set map.ranges (i - 1) (record r { end = eaddr });
            hint = hint;
          }
    ]

unfoldable pub extend_next : Rangemap → ℕ → Option Range → ℕ → ℕ → Rangemap
extend_next map i none addr eaddr = map
extend_next map i (some n) addr eaddr =
    if add64 eaddr 1 == n.start
    then record map { ranges = set map.ranges i (record n { start = addr }); hint = i }
    else map

unfoldable pub alloc_merge : Rangemap → ℕ → Option Range → Option Range → ℕ → ℕ → Rangemap
alloc_merge map i none next addr eaddr = extend_next map i next addr eaddr
alloc_merge map i (some r) next addr eaddr =
    if add64 r.end 1 == addr
    then extend_prev map i r next eaddr
    else extend_next map i next addr eaddr

unfoldable pub alloc_new : Rangemap → ℕ → ℕ → ℕ → ℕ → Rangemap
alloc_new map i addr eaddr content = record map {
  ranges = insert_at i (record { start = addr; end = eaddr; content = content }) map.ranges;
  hint = i;
  entries = add64 map.entries 1;
}

-- The link after the range before, and that range.
abbrev pub link_after : Option ℕ → ℕ
link_after none = 0
link_after (some p) = suc p

abbrev pub range_at : List Range → Option ℕ → Option Range
range_at rs none = none
range_at rs (some p) = get_elem? rs p

-- `ndz_rangemap_alloc` once the search has found nothing at `addr`. Where the list is empty there
-- is no range before and none after, and the code too goes to its last part.
unfoldable pub alloc_at : Rangemap → Option ℕ → ℕ → ℕ → ℕ → ℕ → Bool → Status × Rangemap
alloc_at map prev addr eaddr size content mem =
    let i = link_after prev in
    let r = range_at map.ranges prev in
    let next = get_elem? map.ranges i in
    if overlaps_next next eaddr
    then (einval, map)
    else if content == 0
        && (abuts_prev r addr && is_plain r || abuts_next next eaddr && is_plain next)
    then (ok, account (alloc_merge map i r next addr eaddr) size)
    else if mem
    then (ok, account (alloc_new map i addr eaddr content) size)
    else (enomem, map)

-- The call once the search has returned, which moves the hint.
unfoldable pub alloc_found : Rangemap → Found → ℕ → ℕ → ℕ → ℕ → Bool → Status × Rangemap
alloc_found map f addr eaddr size content mem = elim f.range [
  | some _ ↦ (einval, record map { hint = f.at })
  | none ↦ alloc_at (record map { hint = f.at }) f.prev addr eaddr size content mem
]

unfoldable pub alloc : Rangemap → ℕ → ℕ → ℕ → Bool → Status × Rangemap
alloc map addr size content mem =
    let eaddr = last_addr addr size in
    if is_bad map addr eaddr
    then (einval, map)
    else alloc_found map (lookup map addr) addr eaddr size content mem

-- The last step of every successful deallocation.
abbrev pub unaccount : Rangemap → ℕ → Rangemap
unaccount map size = record map { gen = add64 map.gen 1; sectors = sub64 map.sectors size }

-- `ndz_rangemap_dealloc` on the range behind link `i`, which covers `addr` to `eaddr`.
unfoldable pub dealloc_at : Rangemap → ℕ → Range → ℕ → ℕ → ℕ → Bool → Status × Rangemap
dealloc_at map i r addr eaddr size mem =
    if r.start == addr
    then if r.end == eaddr
      then (
        ok,
        unaccount
            (record map {
              ranges = remove_at i map.ranges;
              hint = i;
              entries = sub64 map.entries 1;
            })
            size,
      )
      else (
        ok,
        unaccount
            (record map {
              ranges = set map.ranges i (record r { start = add64 eaddr 1 });
              hint = i;
            })
            size,
      )
    else if r.end == eaddr
    then (
      ok,
      unaccount
          (record map { ranges = set map.ranges i (record r { end = sub64 addr 1 }); hint = i })
          size,
    )
    else if mem
    then (
      ok,
      unaccount
          (record map {
            ranges =
                insert_at (suc i) (record { start = add64 eaddr 1; end = r.end; content = 0 })
                  (set map.ranges i (record r { end = sub64 addr 1 }));
            hint = suc i;
            entries = add64 map.entries 1;
          })
          size,
    )
    else (enomem, map)

unfoldable pub dealloc_found : Rangemap → ℕ → Option Range → ℕ → ℕ → ℕ → Bool → Status × Rangemap
dealloc_found map i none addr eaddr size mem = (einval, map)
dealloc_found map i (some r) addr eaddr size mem =
    if ltb r.end eaddr
    then (einval, map)
    else if r.content == 0
    then dealloc_at map i r addr eaddr size mem
    else (ebusy, map)

-- The call once the search has returned, which moves the hint.
unfoldable pub dealloc_search : Rangemap → Found → ℕ → ℕ → ℕ → Bool → Status × Rangemap
dealloc_search map f addr eaddr size mem = elim f.range [
  | none ↦ (einval, record map { hint = f.at })
  | some i ↦
      dealloc_found (record map { hint = f.at }) i (get_elem? map.ranges i) addr eaddr size mem
]

unfoldable pub dealloc : Rangemap → ℕ → ℕ → Bool → Status × Rangemap
dealloc map addr size mem =
    let eaddr = last_addr addr size in
    if is_bad map addr eaddr
    then (einval, map)
    else dealloc_search map (lookup map addr) addr eaddr size mem
