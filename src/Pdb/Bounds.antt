-- ===== src/Pdb/Bounds.antt =====
-- Where read_pdb_id of src/pdb.rs reads the id.
use yanuget.Prelude.{
  ℕ, zero, suc, ◌+◌, ◌-◌, ◌≤◌, Bool, Option, none, some, [], ◌∷◌, length, leb, ◌≡◌, inl, inr, refl,
  sym, ap, ◌∙◌, subst, Bool-cases, arith,
}
use yanuget.Pdb.{
  Bytes, ◌>>=◌, drop, take, get_range, from_le_bytes, header_window, pdb_stream_offset, PdbId,
  or_read, id_bytes, read_pdb_id,
}

-- what of a file is read from an offset
record IsAt (file : Bytes) (offset : ℕ) (bytes : Bytes) : Type 0 where
  inside : offset + 20 ≤ length file
  same : bytes ≡ take 20 (drop offset file)

get_range-IsAt :
    (file : Bytes) (offset : ℕ) (bytes : Bytes)
    → get_range file offset (offset + 20) ≡ some bytes
    → IsAt file offset bytes
get_range-IsAt file offset bytes h = elim (Bool-cases (leb (offset + 20) (length file))) [
  | inl fits ↦
      let e : some (take (offset + 20 - offset) (drop offset file)) ≡ some bytes = rw fits at h in
      let e' : take (offset + 20 - offset) (drop offset file) ≡ bytes = cc in
      let width : offset + 20 - offset ≡ 20 = omega arith in
      record {
        inside = ground (arith, fits);
        same = sym e' ∙ ap (λ n. take n (drop offset file)) width;
      }
  | inr long ↦ let none_left : none ≡ some bytes = rw long at h in cc
]

length-take : (w : ℕ) (file : Bytes) → length (take w file) ≤ length file
length-take zero file = omega arith
length-take (suc w) [] = omega arith
length-take (suc w) (b ∷ file) = omega (arith, length-take w file)

take-take : (n w : ℕ) (file : Bytes) → n ≤ length (take w file) → take n (take w file) ≡ take n file
take-take zero w file h = refl
take-take (suc n) zero file h = absurd (omega (arith, h))
take-take (suc n) (suc w) [] h = refl
take-take (suc n) (suc w) (b ∷ file) h = ap (λ bs. b ∷ bs) (take-take n w file (omega (arith, h)))

take-drop-take :
    (n offset w : ℕ) (file : Bytes)
    → offset + n ≤ length (take w file)
    → take n (drop offset (take w file)) ≡ take n (drop offset file)
take-drop-take n zero w file h = take-take n w file (omega (arith, h))
take-drop-take n (suc o) zero file h = absurd (omega (arith, h))
take-drop-take n (suc o) (suc w) [] h = refl
take-drop-take n (suc o) (suc w) (b ∷ file) h = take-drop-take n o w file (omega (arith, h))

window-IsAt :
    (w : ℕ) (file : Bytes) (offset : ℕ) (bytes : Bytes)
    → IsAt (take w file) offset bytes
    → IsAt file offset bytes
window-IsAt w file offset bytes h = record {
  inside = omega (arith, h.inside, length-take w file);
  same = h.same ∙ take-drop-take 20 offset w file h.inside;
}

either-IsAt :
    (file : Bytes) (offset : ℕ) (start whole : Option Bytes) (bytes : Bytes)
    → ((b : Bytes) → start ≡ some b → IsAt file offset b)
    → ((b : Bytes) → whole ≡ some b → IsAt file offset b)
    → or_read start whole ≡ some bytes
    → IsAt file offset bytes
either-IsAt file offset none whole bytes s w h = w bytes h
either-IsAt file offset (some b) whole bytes s w h = s bytes h

id_bytes-IsAt :
    (file : Bytes) (offset : ℕ) (bytes : Bytes)
    → id_bytes file offset ≡ some bytes
    → IsAt file offset bytes
unfolding id_bytes
id_bytes-IsAt file offset bytes h =
    either-IsAt file offset (get_range (take header_window file) offset (offset + 20))
      (get_range file offset (offset + 20)) bytes
      (λ b e.
        window-IsAt header_window file offset b
          (get_range-IsAt (take header_window file) offset b e))
      (λ b e. get_range-IsAt file offset b e) h

>>=-eq-some :
    {A B : Type 0} (o : Option A) (f : A → Option B) (b : B)
    → (o >>= f) ≡ some b
    → (a : A) × (o ≡ some a) × (f a ≡ some b)
>>=-eq-some none f b h = cc
>>=-eq-some (some a) f b h = (a, refl, h)

-- An id that is read lies inside the file, where its offset says: the offset is the one in the header of
-- the stream, the GUID is the 16 bytes there, and the stamp the 4 after them.
pub read_pdb_id-inside :
    (utf8 : Bytes → Bool) (file : Bytes) (id : PdbId)
    → read_pdb_id utf8 file ≡ some id
    → (id.offset + 20 ≤ length file)
      × (pdb_stream_offset utf8 (take header_window file) ≡ some id.offset)
      × (id.guid ≡ take 16 (take 20 (drop id.offset file)))
      × (id.stamp ≡ from_le_bytes (drop 16 (take 20 (drop id.offset file))))
unfolding read_pdb_id
read_pdb_id-inside utf8 file id h =
    let (offset, found, rest) =
      >>=-eq-some (pdb_stream_offset utf8 (take header_window file)) _ id h in
    let (bytes, read, made) = >>=-eq-some (id_bytes file offset) _ id rest in
    let at_ = id_bytes-IsAt file offset bytes read in
    let e : record { guid = take 16 bytes; stamp = from_le_bytes (drop 16 bytes); offset = offset }
        ≡ id =
      cc in
    subst
      (λ (i : PdbId).
        (i.offset + 20 ≤ length file)
        × (pdb_stream_offset utf8 (take header_window file) ≡ some i.offset)
        × (i.guid ≡ take 16 (take 20 (drop i.offset file)))
        × (i.stamp ≡ from_le_bytes (drop 16 (take 20 (drop i.offset file)))))
      e (at_.inside, found, ap (take 16) at_.same, ap (λ b. from_le_bytes (drop 16 b)) at_.same)
