-- ===== src/Clients.antt =====
-- The table of clients of src/frisbee.redux/server.c: `ClientJoin`, `ClientLeave`, `ClientLeave2`
-- and `findclient`. The list has the first `nextclientix` entries of `clients`; an entry past them
-- is written in full before it is read, so that the list's length is `nextclientix`. The join reply
-- that `ClientJoin` enqueues is `WorkQueue.enqueue_join`; logs and events are left out.
pub mod Laws
pub mod Report
use frisbee.Base.{
  ℕ, zero, suc, ◌+◌, ◌-◌, ◌≤◌, ◌<◌, ◌≡◌, ◌≢◌, Bool, true, false, ◌&&◌, List, [], ◌∷◌, ◌++◌, not,
}
use frisbee.Base.{
  arith, if◌then◌else◌, ◌==◌, ltb, leb, length, set, take, Option, some, none, refl, Bool-cases,
  inl, inr, Option-cases, get_elem?, ap,
}

abbrev pub max_clients : ℕ
max_clients = 1024

pub record Client : Type 0 where
  pub id : ℕ
  pub ip : ℕ
  pub lastseq : ℕ

-- `clients` and the counters `maxclientnum`, `activeclients` and `totalclients`.
pub record Table : Type 0 where
  pub clients : List Client
  pub max_num : ℕ
  pub active : ℕ
  pub total : ℕ

-- `findclient` from entry `i` on; `none` is -1.
unfoldable pub find_from : ℕ → ℕ → List Client → Option ℕ
find_from id i [] = none
find_from id i (c ∷ rest) = if c.id == id then some i else find_from id (i + 1) rest

-- What the search of `ClientJoin` stops at: an entry with the id, one with the address, or the end,
-- with the first free entry on the way.
pub data Seen : Type 0 where
  same_id same_ip : ℕ → Client → Seen
  unseen : Option ℕ → Seen

abbrev pub first_free : Option ℕ → Client → ℕ → Option ℕ
first_free (some j) c i = some j
first_free none c i = if c.id == 0 then some i else none

unfoldable pub scan : ℕ → ℕ → ℕ → Option ℕ → List Client → Seen
scan id ip i free [] = unseen free
scan id ip i free (c ∷ rest) =
    if c.id == id
    then same_id i c
    else if c.ip == ip
    then same_ip i c
    else scan id ip (i + 1) (first_free free c i) rest

-- A new client, in the free entry or in a new one, if there is room.
unfoldable pub track : ℕ → ℕ → Option ℕ → Table → Table
track id ip (some j) t = record t {
  clients = set t.clients j (record { id = id; ip = ip; lastseq = 0 });
  active = t.active + 1;
  total = t.total + 1;
}
track id ip none t =
    let n = length t.clients + 1 in
    if ltb (length t.clients) max_clients
    then record t {
      clients = t.clients ++ (record { id = id; ip = ip; lastseq = 0 }) ∷ [];
      max_num = if ltb t.max_num n then n else t.max_num;
      active = t.active + 1;
      total = t.total + 1;
    }
    else t

unfoldable pub join_seen : ℕ → ℕ → Seen → Table → Table
join_seen id ip (same_id i c) t =
    if c.ip == ip then t else record t { clients = set t.clients i (record c { ip = ip }) }
join_seen id ip (same_ip i c) t = record t { clients = set t.clients i (record c { id = id }) }
join_seen id ip (unseen free) t = track id ip free t

unfoldable pub client_join : ℕ → ℕ → Table → Table
client_join id ip t = join_seen id ip (scan id ip 0 none t.clients) t

abbrev pub cleared : Client
cleared = record { id = 0; ip = 0; lastseq = 0 }

-- `ClientLeave` and `ClientLeave2`, once the client is found.
unfoldable pub leave_at : Option ℕ → Table → Table
leave_at none t = t
leave_at (some i) t =
    if length t.clients == i + 1
    then record t { clients = take i t.clients; active = t.active - 1 }
    else record t { clients = set t.clients i cleared; active = t.active - 1 }

unfoldable pub client_leave : ℕ → Table → Table
client_leave id t = leave_at (find_from id 0 t.clients) t
