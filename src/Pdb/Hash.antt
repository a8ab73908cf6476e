-- ===== src/Pdb/Hash.antt =====
-- The hash of src/pdb.rs without the id, over the chunks of a file.
use yanuget.Prelude.{
  ℕ, suc, ◌+◌, ◌-◌, ◌≤◌, false, ◌&&◌, List, [], ◌∷◌, ◌++◌, length, leb, ltb, ◌≡◌, inl, inr, refl,
  sym, ap, ap₂, ◌∙◌, Bool-cases, arith, if◌then◌else◌,
}
use yanuget.Pdb.{Bytes, fill, larger, smaller, without_id, hash_without_id}

-- the whole file, read in one piece or not
abbrev pub join_chunks : List Bytes → Bytes
join_chunks [] = []
join_chunks (chunk ∷ chunks) = chunk ++ join_chunks chunks

-- the bytes of the id, by their place in the file
abbrev pub zeroed : ℕ → ℕ → Bytes → Bytes
zeroed offset pos bytes = fill pos offset (offset + 20) bytes

fill-append :
    (i from to : ℕ) (xs ys : Bytes)
    → fill i from to (xs ++ ys) ≡ fill i from to xs ++ fill (i + length xs) from to ys
fill-append i from to [] ys = ap (λ j. fill j from to ys) (omega arith)
fill-append i from to (x ∷ xs) ys =
    ap₂ (λ b bs. b ∷ bs) refl
      (fill-append (suc i) from to xs ys
        ∙ ap (λ j. fill (suc i) from to xs ++ fill j from to ys) (omega arith))

-- the part of a range that falls in a chunk, by places in the chunk
in_part :
    (from to start n i : ℕ)
    → suc i ≤ n
    → (leb (larger from start - start) i && ltb i (smaller to (start + n) - start))
      ≡ (leb from (start + i) && ltb (start + i) to)
in_part from to start n i h = ground (arith, h)

fill-shifted :
    (from to start n i : ℕ) (bytes : Bytes)
    → i + length bytes ≤ n
    → fill i (larger from start - start) (smaller to (start + n) - start) bytes
      ≡ fill (start + i) from to bytes
fill-shifted from to start n i [] h = refl
fill-shifted from to start n i (b ∷ bytes) h =
    ap₂ (λ c cs. c ∷ cs)
      (ap (λ t. if t then 0 else b) (in_part from to start n i (omega (arith, h))))
      (fill-shifted from to start n (suc i) bytes (omega (arith, h))
        ∙ ap (λ j. fill j from to bytes) (omega arith))

-- no part of it does
outside :
    (from to start n i : ℕ)
    → suc i ≤ n
    → ltb (larger from start) (smaller to (start + n)) ≡ false
    → (leb from (start + i) && ltb (start + i) to) ≡ false
outside from to start n i h out = ground (arith, h, out)

fill-outside :
    (from to start n i : ℕ) (bytes : Bytes)
    → i + length bytes ≤ n
    → ltb (larger from start) (smaller to (start + n)) ≡ false
    → bytes ≡ fill (start + i) from to bytes
fill-outside from to start n i [] h out = refl
fill-outside from to start n i (b ∷ bytes) h out =
    ap₂ (λ c cs. c ∷ cs)
      (ap (λ t. if t then 0 else b) (sym (outside from to start n i (omega (arith, h)) out)))
      (fill-outside from to start n (suc i) bytes (omega (arith, h)) out
        ∙ ap (λ j. fill j from to bytes) (omega arith))

without_id-zeroed :
    (offset start : ℕ) (chunk : Bytes) → without_id offset start chunk ≡ zeroed offset start chunk
unfolding without_id
without_id-zeroed offset start chunk =
    elim (Bool-cases (ltb (larger offset start) (smaller (offset + 20) (start + length chunk)))) [
      | inl part ↦ rw part (
          fill-shifted offset (offset + 20) start (length chunk) 0 chunk (omega arith)
          ∙ ap (λ j. fill j offset (offset + 20) chunk) (omega arith))
      | inr none_ ↦ rw none_ (
          fill-outside offset (offset + 20) start (length chunk) 0 chunk (omega arith) none_
          ∙ ap (λ j. fill j offset (offset + 20) chunk) (omega arith))
    ]

module _ {H : Type 0} (update : H → Bytes → H) (update-nil : (h : H) → update h [] ≡ h)
    (update-append : (h : H) (a b : Bytes) → update (update h a) b ≡ update h (a ++ b)) where
  from_chunks :
      (offset : ℕ) (chunks : List Bytes) (pos : ℕ) (h : H)
      → hash_without_id update offset chunks pos h
        ≡ update h (zeroed offset pos (join_chunks chunks))
  unfolding hash_without_id
  from_chunks offset [] pos h = sym (update-nil h)
  from_chunks offset (chunk ∷ chunks) pos h =
      ap (λ c. hash_without_id update offset chunks (pos + length chunk) (update h c))
        (without_id-zeroed offset pos chunk)
      ∙ from_chunks offset chunks (pos + length chunk) _
      ∙ update-append h _ _
      ∙ ap (update h) (sym (fill-append pos offset (offset + 20) chunk (join_chunks chunks)))

  -- Where a hasher takes bytes in pieces as it takes them at once, the hash of a file without its id is
  -- what the hasher makes of the file with the 20 bytes of the id set to 0, however the reads cut it.
  pub hash_without_id-zeroed :
      (offset : ℕ) (chunks : List Bytes) (h : H)
      → hash_without_id update offset chunks 0 h ≡ update h (zeroed offset 0 (join_chunks chunks))
  hash_without_id-zeroed offset chunks h = from_chunks offset chunks 0 h
