-- ===== src/Pdb/Tests.antt =====
-- A small Portable PDB, and the theorems at it.
use yanuget.Prelude.{
  ◌+◌, ◌≤◌, Bool, true, some, [], ◌∷◌, ◌++◌, length, ◌≡◌, ◌↔◌, refl, append_assoc, append-nil,
  arith,
}
use yanuget.Text.{text}
use yanuget.Pdb.{
  Bytes, drop, take, from_le_bytes, header_window, read_u16, read_u32, name_from, read_stream_name,
  find_stream, pdb_stream_offset, PdbId, id_bytes, read_pdb_id, guid_to_hex, ssqp_key,
  hash_without_id,
}
use yanuget.Pdb.Hash.{join_chunks, zeroed, hash_without_id-zeroed}
use yanuget.Pdb.Bounds.{read_pdb_id-inside}
use yanuget.Pdb.Key.{AreBytes, ssqp_key-eq_iff}

abbrev guid : Bytes
guid =
    0xF6 ∷ 0x72 ∷ 0x7B ∷ 0x49 ∷ 0x0A ∷ 0x39 ∷ 0xFC ∷ 0x44 ∷ 0x87 ∷ 0x8E ∷ 0x5A ∷ 0x2D ∷ 0x63 ∷ 0xB6
    ∷ 0xCC ∷ 0x4B ∷ []

-- one stream, at 40
abbrev file : Bytes
file =
    0x42
    ∷ 0x53
    ∷ 0x4A
    ∷ 0x42
    ∷ 1
    ∷ 0
    ∷ 1
    ∷ 0
    ∷ 0
    ∷ 0
    ∷ 0
    ∷ 0
    ∷ 4
    ∷ 0
    ∷ 0
    ∷ 0
    ∷ b'v'
    ∷ 0
    ∷ 0
    ∷ 0
    ∷ 0
    ∷ 0
    ∷ 1
    ∷ 0
    ∷ 40
    ∷ 0
    ∷ 0
    ∷ 0
    ∷ 20
    ∷ 0
    ∷ 0
    ∷ 0
    ∷ b'#'
    ∷ b'P'
    ∷ b'd'
    ∷ b'b'
    ∷ 0
    ∷ 0
    ∷ 0
    ∷ 0
    ∷ (guid ++ 7 ∷ 1 ∷ 0 ∷ 0 ∷ [])

abbrev id_found : PdbId
id_found = record { guid = guid; stamp = 263; offset = 40 }

any_bytes : Bytes → Bool
any_bytes bytes = true

id_read : read_pdb_id any_bytes file ≡ some id_found
unfolding any_bytes read_pdb_id pdb_stream_offset read_u32 read_u16 find_stream read_stream_name
    name_from id_bytes
id_read = refl

read_pdb_id-inside_example :
    (40 + 20 ≤ length file)
    × (pdb_stream_offset any_bytes (take header_window file) ≡ some 40)
    × (guid ≡ take 16 (take 20 (drop 40 file)))
    × (263 ≡ from_le_bytes (drop 16 (take 20 (drop 40 file))))
read_pdb_id-inside_example = read_pdb_id-inside any_bytes file id_found id_read

key_of : ssqp_key id_found ≡ text "497B72F6390A44FC878E5A2D63B6CC4BFFFFFFFF"
unfolding ssqp_key guid_to_hex
key_of = refl

-- a hasher that keeps what it is fed
hash_without_id-zeroed_example :
    hash_without_id (λ (h : Bytes) b. h ++ b) 1 ((5 ∷ 6 ∷ []) ∷ (7 ∷ 8 ∷ []) ∷ []) 0 []
    ≡ zeroed 1 0 (join_chunks ((5 ∷ 6 ∷ []) ∷ (7 ∷ 8 ∷ []) ∷ []))
hash_without_id-zeroed_example =
    hash_without_id-zeroed (λ (h : Bytes) b. h ++ b) append-nil append_assoc 1
      ((5 ∷ 6 ∷ []) ∷ (7 ∷ 8 ∷ []) ∷ []) []

guid-AreBytes : AreBytes guid
guid-AreBytes = (
  omega arith,
  (
    omega arith,
    (
      omega arith,
      (
        omega arith,
        (
          omega arith,
          (
            omega arith,
            (
              omega arith,
              (
                omega arith,
                (
                  omega arith,
                  (
                    omega arith,
                    (
                      omega arith,
                      (omega arith, (omega arith, (omega arith, (omega arith, (omega arith, tt))))),
                    ),
                  ),
                ),
              ),
            ),
          ),
        ),
      ),
    ),
  ),
)

ssqp_key-eq_iff_example : (ssqp_key id_found ≡ ssqp_key id_found) ↔ (guid ≡ guid)
ssqp_key-eq_iff_example = ssqp_key-eq_iff id_found id_found guid-AreBytes guid-AreBytes refl refl
