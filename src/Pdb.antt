-- ===== src/Pdb.antt =====
-- src/pdb.rs: the id of a Portable PDB, the key of the symbol server, and the hash without the id. A
-- file is its bytes; the reads that fail are the caller's error and are left out.
pub mod Hash
pub mod Bounds
pub mod Key
mod Tests
use yanuget.Prelude.{
  ℕ, zero, suc, ◌+◌, ◌-◌, ◌*◌, ◌/◌, ◌%◌, ◌^◌, Bool, true, false, not, ◌&&◌, Option, none, some,
  List, [], ◌∷◌, ◌++◌, map, length, ltb, leb, ◌==◌, if◌then◌else◌,
}
use yanuget.Text.{Text, text, text_eq}

abbrev pub Bytes : Type 0
Bytes = List ℕ

-- `checked_add` of 64-bit numbers
abbrev pub checked_add : ℕ → ℕ → Option ℕ
checked_add a b = if ltb (a + b) (2 ^ 64) then some (a + b) else none

infixl 5 ◌>>=◌
abbrev pub ◌>>=◌ : {A B : Type 0} → Option A → (A → Option B) → Option B
none >>= f = none
some a >>= f = f a

abbrev pub drop : ℕ → Bytes → Bytes
drop zero bytes = bytes
drop (suc n) [] = []
drop (suc n) (b ∷ bytes) = drop n bytes

abbrev pub take : ℕ → Bytes → Bytes
take zero bytes = []
take (suc n) [] = []
take (suc n) (b ∷ bytes) = b ∷ take n bytes

-- `get(from..to)`, for a start that is not after the end
abbrev pub get_range : Bytes → ℕ → ℕ → Option Bytes
get_range bytes from to =
    if leb to (length bytes) then some (take (to - from) (drop from bytes)) else none

abbrev pub from_le_bytes : Bytes → ℕ
from_le_bytes [] = 0
from_le_bytes (b ∷ bytes) = b + 256 * from_le_bytes bytes

unfoldable pub read_u16 : Bytes → ℕ → Option ℕ
read_u16 bytes at_ = do to ← checked_add at_ 2; b ← get_range bytes at_ to; some (from_le_bytes b)

unfoldable pub read_u32 : Bytes → ℕ → Option ℕ
read_u32 bytes at_ = do to ← checked_add at_ 4; b ← get_range bytes at_ to; some (from_le_bytes b)

abbrev pub metadata_signature : ℕ
metadata_signature = 0x424A5342

abbrev pub header_window : ℕ
header_window = 65536

-- `div_ceil(4) * 4`
abbrev pub round_up : ℕ → ℕ
round_up n = ((n + 3) / 4) * 4

-- the loop over the lengths up to 32; `utf8` tells whether bytes are UTF-8
abbrev pub head : Bytes → Option ℕ
head [] = none
head (b ∷ bytes) = some b

module _ (utf8 : Bytes → Bool) where
  unfoldable pub name_from : ℕ → ℕ → Bytes → ℕ → Option (Bytes × ℕ)
  name_from zero len bytes start = none
  name_from (suc left) len bytes start =
      let later = name_from left (suc len) bytes start in
      checked_add start (len - 1) >>= λ idx. head (drop idx bytes) >>= λ b.
      if b == 0
      then (if utf8 (take (len - 1) (drop start bytes))
          then some (take (len - 1) (drop start bytes), round_up len)
          else none)
      else later

  unfoldable pub read_stream_name : Bytes → ℕ → Option (Bytes × ℕ)
  read_stream_name bytes start = name_from 32 1 bytes start

  -- the loop over the stream headers
  unfoldable pub find_stream : ℕ → Bytes → ℕ → Option ℕ
  find_stream zero bytes pos = none
  find_stream (suc left) bytes pos = do
    offset ← read_u32 bytes pos
    at_size ← checked_add pos 4
    size ← read_u32 bytes at_size
    at_name ← checked_add pos 8
    named ← read_stream_name bytes at_name
    next ← checked_add at_name named.1
    if text_eq named.0 (text "#Pdb") then some offset else find_stream left bytes next

  unfoldable pub pdb_stream_offset : Bytes → Option ℕ
  pdb_stream_offset bytes = do
    signature ← read_u32 bytes 0
    if not (signature == metadata_signature) then none else do
      version_len ← read_u32 bytes 12
      pos ← checked_add 16 (round_up version_len)
      flags ← read_u16 bytes pos
      at_count ← checked_add pos 2
      stream_count ← read_u16 bytes at_count
      first ← checked_add pos 4
      find_stream stream_count bytes first

pub record PdbId : Type 0 where
  pub guid : Bytes
  pub stamp : ℕ
  pub offset : ℕ

abbrev pub or_read : Option Bytes → Option Bytes → Option Bytes
or_read none later = later
or_read (some b) later = some b

-- the id, from what was read of the start, or from where it is
unfoldable pub id_bytes : Bytes → ℕ → Option Bytes
id_bytes file offset =
    or_read (get_range (take header_window file) offset (offset + 20))
      (get_range file offset (offset + 20))

unfoldable pub read_pdb_id : (Bytes → Bool) → Bytes → Option PdbId
read_pdb_id utf8 file = do
  offset ← pdb_stream_offset utf8 (take header_window file)
  id ← id_bytes file offset
  some (record { guid = take 16 id; stamp = from_le_bytes (drop 16 id); offset = offset })

-- `{:02X}`
abbrev pub hex_digit : ℕ → ℕ
hex_digit n = if ltb n 10 then b'0' + n else b'A' + (n - 10)

abbrev pub nth : Bytes → ℕ → ℕ
nth [] i = 0
nth (b ∷ bytes) zero = b
nth (b ∷ bytes) (suc i) = nth bytes i

abbrev pub order : List ℕ
order = 3 ∷ 2 ∷ 1 ∷ 0 ∷ 5 ∷ 4 ∷ 7 ∷ 6 ∷ 8 ∷ 9 ∷ 10 ∷ 11 ∷ 12 ∷ 13 ∷ 14 ∷ 15 ∷ []

abbrev pub hex : Bytes → Text
hex [] = []
hex (b ∷ bytes) = hex_digit (b / 16) ∷ hex_digit (b % 16) ∷ hex bytes

unfoldable pub guid_to_hex : Bytes → Text
guid_to_hex g = hex (map (nth g) order)

unfoldable pub ssqp_key : PdbId → Text
ssqp_key id = guid_to_hex id.guid ++ text "FFFFFFFF"

-- `chunk[from..to].fill(0)`, from an index on
abbrev pub fill : ℕ → ℕ → ℕ → Bytes → Bytes
fill i from to [] = []
fill i from to (b ∷ bytes) = (if leb from i && ltb i to then 0 else b) ∷ fill (suc i) from to bytes

abbrev pub larger : ℕ → ℕ → ℕ
larger a b = if leb a b then b else a

abbrev pub smaller : ℕ → ℕ → ℕ
smaller a b = if leb a b then a else b

-- one round of the loop: what of the id falls in a chunk that was read
unfoldable pub without_id : ℕ → ℕ → Bytes → Bytes
without_id offset start chunk =
    let from = larger offset start in
    let to = smaller (offset + 20) (start + length chunk) in
    if ltb from to then fill 0 (from - start) (to - start) chunk else chunk

-- the loop over the chunks, as the file's reads deliver them, into a hasher
unfoldable pub hash_without_id : {H : Type 0} → (H → Bytes → H) → ℕ → List Bytes → ℕ → H → H
hash_without_id update offset [] pos hasher = hasher
hash_without_id update offset (chunk ∷ chunks) pos hasher =
    hash_without_id update offset chunks (pos + length chunk)
      (update hasher (without_id offset pos chunk))
