-- ===== src/Clients/Report.antt =====
-- Progress reports: `ClientReport` of src/frisbee.redux/server.c. The number of bytes of a full report
-- is a parameter. The `what` and `seq` of a packet are 16-bit words (`struct progress` in decls.h),
-- while `lastseq` and the sum `lastseq + 1` are 32-bit words. What is logged is whether reports were
-- lost, with the address that the report is for; the time stamp of the idle check and events are left
-- out.
use frisbee.Base.{
  ℕ, zero, suc, ◌+◌, ◌%◌, ◌^◌, ◌<◌, ◌≡◌, Bool, true, false, ◌&&◌, ◌||◌, not, List, [], ◌∷◌, Option,
  some, none,
}
use frisbee.Base.{
  arith, refl, ap, ◌∙◌, if◌then◌else◌, ◌==◌, ltb, get_or, set, length, get_or-set, Bool-cases, inl,
  inr,
}
use frisbee.Clients.{Client, Table, cleared, find_from}

pub record Report : Type 0 where
  pub is_reply : Bool
  pub datalen : ℕ
  pub srcip : ℕ
  pub client_id : ℕ
  pub who : ℕ
  pub when : ℕ
  pub what : ℕ
  pub seq : ℕ

pub record Logged : Type 0 where
  pub ipaddr : ℕ
  pub lost : Bool

-- The first test of `ClientReport`.
unfoldable pub is_bad : ℕ → Report → Bool
is_bad size p =
    not p.is_reply || p.client_id == 0 || p.when == 0 || not (p.what == 0) && ltb p.datalen size

unfoldable pub report_at : Report → Option ℕ → Table → Option Logged × Table
report_at p none t = (none, t)
report_at p (some i) t =
    let c = get_or t.clients i cleared in
    (
      some (record {
        ipaddr = if p.who == 0 then p.srcip else p.who;
        lost = not (p.seq == (c.lastseq + 1) % 2 ^ 32);
      }),
      record t { clients = set t.clients i (record c { lastseq = p.seq }) },
    )

unfoldable pub client_report : ℕ → Report → Table → Option Logged × Table
client_report size p t =
    if is_bad size p then (none, t) else report_at p (find_from p.client_id 0 t.clients) t

-- Whether a report is logged as following lost ones.
abbrev pub says_lost : Option Logged → Bool
says_lost none = false
says_lost (some l) = l.lost

found-lt : (id i j : ℕ) (l : List Client) → find_from id i l ≡ some j → j < i + length l
unfolding find_from
found-lt id i j [] e = absurd (ground arith)
found-lt id i j (c ∷ l) e = elim (Bool-cases (c.id == id)) [
  | inl hit ↦ ground (arith, hit)
  | inr miss ↦ omega (arith, found-lt id (i + 1) j l (ground (arith, miss)))
]

-- A change of `lastseq` moves no client.
found-set :
    (id i k seq : ℕ) (l : List Client)
    → find_from id i (set l k (record (get_or l k cleared) { lastseq = seq })) ≡ find_from id i l
unfolding find_from
found-set id i k seq [] = refl
found-set id i zero seq (c ∷ l) = refl
found-set id i (suc k) seq (c ∷ l) = ground (arith, found-set id (i + 1) k seq l)

abbrev pub is_some : Option ℕ → Bool
is_some none = false
is_some (some i) = true

report_twice :
    (p q : Report) (o : Option ℕ) (t : Table)
    → p.seq < 2 ^ 16
    → q.seq ≡ (p.seq + 1) % 2 ^ 16
    → ((i : ℕ) → o ≡ some i → i < length t.clients)
    → says_lost (report_at q o (report_at p o t).1).0 ≡ (is_some o && p.seq == 65535)
unfolding report_at
report_twice p q none t s e h = refl
report_twice p q (some i) t s e h = ground (
  arith,
  s,
  e,
  h i refl,
  get_or-set t.clients i i (record (get_or t.clients i cleared) { lastseq = p.seq }) cleared,
)

-- A report changes no place in the table.
report_at-found :
    (id : ℕ) (p : Report) (o : Option ℕ) (t : Table)
    → find_from id 0 (report_at p o t).1.clients ≡ find_from id 0 t.clients
unfolding report_at
report_at-found id p none t = refl
report_at-found id p (some i) t = found-set id 0 i p.seq t.clients

good_report :
    (size : ℕ) (p : Report) (t : Table)
    → is_bad size p ≡ false
    → client_report size p t ≡ report_at p (find_from p.client_id 0 t.clients) t
unfolding client_report
good_report size p t e = rw (e, client_report) refl

-- Two reports of one client pass the first test and come one after the other, with 16-bit sequence
-- numbers that follow each other modulo 2^16. Then the second is logged as following lost reports
-- exactly if the client is known and the first number is 65535, where the number wraps around to 0.
pub client_report_lem :
    (size : ℕ) (p q : Report) (t : Table)
    → is_bad size p ≡ false
    → is_bad size q ≡ false
    → q.client_id ≡ p.client_id
    → p.seq < 2 ^ 16
    → q.seq ≡ (p.seq + 1) % 2 ^ 16
    → says_lost (client_report size q (client_report size p t).1).0
      ≡ (is_some (find_from p.client_id 0 t.clients) && p.seq == 65535)
client_report_lem size p q t hp hq same word next =
    let o = find_from p.client_id 0 t.clients in
    let t' = (report_at p o t).1 in
    let found : find_from q.client_id 0 t'.clients ≡ o =
      ap (λ id. find_from id 0 t'.clients) same ∙ report_at-found p.client_id p o t in
    rw (good_report size p t hp, good_report size q t' hq, found)
      (report_twice p q o t word next (λ i e. omega (arith, found-lt p.client_id 0 i t.clients e)))
