-- ===== src/Packet.antt =====
-- The check of a packet's fields: `PacketValid` of src/frisbee.redux/network.c, over the header and
-- the messages of src/frisbee.redux/decls.h. A packet has the fields that the check reads, whatever
-- message they come from. The sizes of the messages are the compiler's: the function `size_of`.
use frisbee.Base.{
  ℕ, ◌+◌, ◌≤◌, ◌<◌, ◌≡◌, ◌⊎◌, refl, ◌∙◌, sym, Bool, true, false, ◌&&◌, ◌||◌, not, ap,
}
use frisbee.Base.{arith, leb, ltb, ℤ, pos, negsuc}

-- The header's type and subtype; any other value is `other`.
pub data Kind : Type 0 where
  request reply other_kind : Kind

pub data Message : Type 0 where
  join leave block ask leave2 partial join2 progress other_message : Message

pub record Packet : Type 0 where
  pub kind : Kind
  pub message : Message
  pub datalen : ℕ
  pub chunk : ℤ
  pub first_block : ℤ
  pub count : ℤ

-- `a < 0 || a >= n`
unfoldable pub outside : ℤ → ℕ → Bool
outside (pos a) n = leb n a
outside (negsuc a) n = true

abbrev pub int_limit : ℕ
int_limit = 2147483648

-- `count < 0 || block + count > n`, for a block that is not negative. The sum is an `int32_t`; one
-- that is too large wraps around and is negative.
unfoldable pub reaches_past : ℤ → ℤ → ℕ → Bool
reaches_past (pos b) (pos c) n = ltb (b + c) int_limit && ltb n (b + c)
reaches_past (negsuc b) c n = true
reaches_past (pos b) (negsuc c) n = true

abbrev pub max_chunk : ℕ
max_chunk = 1024

-- The cases on the subtype.
unfoldable pub message_valid : (Message → ℕ) → Message → Packet → ℕ → Bool
message_valid size_of block p nchunks =
    not (ltb p.datalen (size_of block))
    && not (outside p.chunk nchunks || outside p.first_block max_chunk)
message_valid size_of ask p nchunks =
    not (ltb p.datalen (size_of ask))
    && not (
        outside p.chunk nchunks
        || outside p.first_block max_chunk
        || reaches_past p.first_block p.count max_chunk)
message_valid size_of partial p nchunks =
    not (ltb p.datalen (size_of partial)) && not (outside p.chunk nchunks)
message_valid size_of join p nchunks = not (ltb p.datalen (size_of join))
message_valid size_of join2 p nchunks = not (ltb p.datalen (size_of join2))
message_valid size_of leave p nchunks = not (ltb p.datalen (size_of leave))
message_valid size_of leave2 p nchunks = not (ltb p.datalen (size_of leave2))
message_valid size_of progress p nchunks = not (ltb p.datalen (size_of progress))
message_valid size_of other_message p nchunks = false

unfoldable pub packet_valid : (Message → ℕ) → Packet → ℕ → Bool
packet_valid size_of p nchunks = elim p.kind [
  | other_kind ↦ false
  | _ ↦ message_valid size_of p.message p nchunks
]

-- A number of the program that is not negative and below `n`.
pub record IsBelow (a : ℤ) (n : ℕ) : Type 0 where
  pub value : ℕ
  pub is : a ≡ pos value
  pub small : value < n

IsBelow-of : (a : ℤ) (n : ℕ) → outside a n ≡ false → IsBelow a n
unfolding outside
IsBelow-of (pos a) n h = record { value = a; is = refl; small = ground arith }
IsBelow-of (negsuc a) n h = absurd (ground arith)

-- The blocks that a request names are blocks of the chunk, or their count is too large for an
-- `int32_t` once the block is added.
pub record IsAsk (p : Packet) (nchunks : ℕ) : Type 0 where
  pub chunk : IsBelow p.chunk nchunks
  pub start : IsBelow p.first_block max_chunk
  pub count : ℕ
  pub is_count : p.count ≡ pos count
  pub fits : (start.value + count ≤ max_chunk) ⊎ (int_limit ≤ start.value + count)

magnitude : ℤ → ℕ
magnitude (pos a) = a
magnitude (negsuc a) = a

pos_injective : (a b : ℕ) → pos a ≡ pos b → a ≡ b
unfolding magnitude
pos_injective a b e = ap magnitude e

asked_range :
    (b c : ℤ)
    → (s : IsBelow b max_chunk) → reaches_past b c max_chunk ≡ false
    → (k : ℕ) × (c ≡ pos k) × ((s.value + k ≤ max_chunk) ⊎ (int_limit ≤ s.value + k))
unfolding reaches_past
asked_range (negsuc b) c s h = absurd (ground arith)
asked_range (pos b) (negsuc c) s h = absurd (ground arith)
asked_range (pos b) (pos c) s h =
    let same : b ≡ s.value = pos_injective b s.value s.is in (c, refl, ground (arith, same))

kind_valid : (k : Kind) (b : Bool) → (elim k [ other_kind ↦ false | _ ↦ b ]) ≡ true → b ≡ true
kind_valid request b h = h
kind_valid reply b h = h
kind_valid other_kind b h = absurd (ground arith)

valid_message :
    (size_of : Message → ℕ) (p : Packet) (nchunks : ℕ)
    → packet_valid size_of p nchunks ≡ true
    → p.message ≡ ask
    → message_valid size_of ask p nchunks ≡ true
unfolding packet_valid
valid_message size_of p nchunks h m =
    ap (λ k. message_valid size_of k p nchunks) (sym m)
    ∙ kind_valid p.kind (message_valid size_of p.message p nchunks) h

-- A request for blocks that passes the check is at least as long as its message and names a chunk of
-- the image, a block of a chunk and a count that is not negative. The blocks lie in the chunk, unless
-- the sum of block and count is too large for an `int32_t`.
pub packet_valid-IsAsk :
    (size_of : Message → ℕ) (p : Packet) (nchunks : ℕ)
    → packet_valid size_of p nchunks ≡ true
    → p.message ≡ ask
    → IsAsk p nchunks × (size_of ask ≤ p.datalen)
unfolding packet_valid message_valid
packet_valid-IsAsk size_of p nchunks h m =
    let v : message_valid size_of ask p nchunks ≡ true = valid_message size_of p nchunks h m in
    let s = IsBelow-of p.first_block max_chunk (ground arith) in
    let k = asked_range p.first_block p.count s (ground arith) in
    (
      record {
        chunk = IsBelow-of p.chunk nchunks (ground arith);
        start = s;
        count = k.0;
        is_count = k.1;
        fits = k.2;
      },
      ground arith,
    )
