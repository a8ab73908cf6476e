-- ===== src/Purge/Symbols.antt =====
-- The rows that lead to stored bytes, and purge_symbols of src/retention.rs on them.
use yanuget.Prelude.{
  false, Bool, true, not, List, [], ◌∷◌, map, any, retain, ◌≡◌, ◌⊎◌, inl, inr, refl, ap, ◌∙◌, All,
  All_mono, retain-All, any-split, any-map, any-retain_twice, arith,
}
use yanuget.Text.{Text, text_eq}
use yanuget.Store.{
  Fate, is_refused, Key, same_key, PackageRow, FileRow, SymbolName, SymbolRow, same_symbol, Store,
}
use yanuget.Store.Triple.{TripleOn, call_rule, quiet_rule, >>=_rule, for_each_rule, consequence}
use yanuget.Store.Calls.{find_symbols, delete_symbols, delete_symbol}
use yanuget.Purge.{purge_symbols}

-- Every stored thing has a row that leads to it.
abbrev pub BlobsIndexed : List FileRow → List Text → Type 0
BlobsIndexed files = All (λ b. any (λ f. text_eq f.sha256 b) files ≡ true)

abbrev pub SymbolsIndexed : List SymbolRow → List SymbolName → Type 0
SymbolsIndexed rows = All (λ y. any (λ r. same_symbol r.name y) rows ≡ true)

abbrev pub PayloadsIndexed : List PackageRow → List Key → Type 0
PayloadsIndexed rows = All (λ k. any (λ p. same_key p.key k) rows ≡ true)

-- That, with some of the rows of the symbols; of the symbol files only where the file system refuses
-- nothing.
pub record Indexed (W : Fate → Bool) (rows : List SymbolRow → List SymbolRow) (s : Store)
    : Type 0 where
  pub blobs_indexed : BlobsIndexed s.files s.blobs
  pub symbols_indexed : W is_refused ≡ false → SymbolsIndexed (rows s.symbols) s.symbol_files
  pub payloads_indexed : PayloadsIndexed s.packages s.payloads

abbrev pub all_rows : List SymbolRow → List SymbolRow
all_rows rows = rows

abbrev pub other_symbols : Key → List SymbolRow → List SymbolRow
other_symbols key rows = retain (λ r. not (same_key r.key key)) rows

module _ (W : Fate → Bool) (key : Key) where
  abbrev IsIndexed : Store → Type 0
  IsIndexed = Indexed W all_rows

  abbrev named : List SymbolName → SymbolName → Bool
  named todo y = any (λ n. same_symbol n y) todo

  -- each stored file is another version's, or still to be deleted
  pub record Remaining (todo : List SymbolName) (s : Store) : Type 0 where
    pub indexed : IsIndexed s
    pub covered :
        W is_refused ≡ false
        → All
            (λ y.
              (any (λ r. same_symbol r.name y) (other_symbols key s.symbols) ≡ true)
              ⊎ (named todo y ≡ true))
            s.symbol_files

  abbrev Found : List SymbolName → Store → Type 0
  Found found s =
      IsIndexed s × (found ≡ map (λ r. r.name) (retain (λ r. same_key r.key key) s.symbols))

  find-Found : TripleOn W IsIndexed (find_symbols key) Found IsIndexed
  unfolding find_symbols
  find-Found = call_rule _ (λ s h. (h, refl)) (λ s h. (h, h))

  Found-Remaining : (found : List SymbolName) (s : Store) → Found found s → Remaining found s
  Found-Remaining found s (h, e) = record {
    indexed = h;
    covered = λ seen.
        All_mono _ _ s.symbol_files
          (λ y i.
            elim (any-split (λ r. same_symbol r.name y) (λ r. same_key r.key key) s.symbols i) [
              | inl own ↦ inr (
                  ap (λ ns. named ns y) e
                  ∙ any-map (λ n. same_symbol n y) (λ (r : SymbolRow). r.name) _
                  ∙ own)
              | inr other ↦ inl other
            ])
          (h.symbols_indexed seen);
  }

  without_symbol : (a : SymbolName) → Store → Store
  without_symbol a s = record s {
    symbol_files = retain (λ y. not (same_symbol a y)) s.symbol_files;
  }

  without_symbol-IsIndexed :
      (a : SymbolName) (s : Store) → IsIndexed s → IsIndexed (without_symbol a s)
  unfolding without_symbol
  without_symbol-IsIndexed a s h = record {
    blobs_indexed = h.blobs_indexed;
    symbols_indexed = λ seen. retain-All _ _ _ s.symbol_files (λ y q i. i) (h.symbols_indexed seen);
    payloads_indexed = h.payloads_indexed;
  }

  without_symbol-Remaining :
      (a : SymbolName) (rest : List SymbolName) (s : Store)
      → Remaining (a ∷ rest) s
      → Remaining rest (without_symbol a s)
  unfolding without_symbol
  without_symbol-Remaining a rest s h = record {
    indexed = unfold without_symbol in without_symbol-IsIndexed a s h.indexed;
    covered = λ seen.
        retain-All _ _ _ s.symbol_files
          (λ y q c. elim c [ inl other ↦ inl other | inr todo ↦ inr (ground (arith, q, todo)) ])
          (h.covered seen);
  }

  delete-Remaining :
      (a : SymbolName) (rest : List SymbolName)
      → TripleOn W (Remaining (a ∷ rest)) (delete_symbol a) (λ _. Remaining rest) IsIndexed
  unfolding delete_symbol
  delete-Remaining a rest =
      quiet_rule _ (λ s h. unfold without_symbol in without_symbol-Remaining a rest s h)
        (λ s h. (h.indexed, unfold without_symbol in without_symbol-IsIndexed a s h.indexed))
        (λ refused s h. record { indexed = h.indexed; covered = λ seen. cc })

  -- the store without the rows, indexed by all of its rows, and by other versions' alone
  drop-Indexed :
      (s : Store)
      → Remaining [] s
      → IsIndexed (record s { symbols = other_symbols key s.symbols })
        × Indexed W (other_symbols key) (record s { symbols = other_symbols key s.symbols })
  drop-Indexed s h =
      let others : W is_refused ≡ false
          → SymbolsIndexed (other_symbols key s.symbols) s.symbol_files =
        λ seen.
          All_mono _ _ s.symbol_files (λ y c. elim c [ inl other ↦ other | inr none_ ↦ cc ])
            (h.covered seen) in
      (
        record {
          blobs_indexed = h.indexed.blobs_indexed;
          symbols_indexed = others;
          payloads_indexed = h.indexed.payloads_indexed;
        },
        record {
          blobs_indexed = h.indexed.blobs_indexed;
          symbols_indexed = λ seen.
              All_mono _ _ s.symbol_files (λ y i. any-retain_twice _ _ s.symbols i) (others seen);
          payloads_indexed = h.indexed.payloads_indexed;
        },
      )

  drop-symbols :
      TripleOn W (Remaining []) (delete_symbols key) (λ _. Indexed W (other_symbols key)) IsIndexed
  unfolding delete_symbols
  drop-symbols =
      call_rule _ (λ s h. (drop-Indexed s h).1) (λ s h. (h.indexed, (drop-Indexed s h).0))

  -- A purge of symbols keeps every stored thing indexed, and leaves only symbol files of other versions;
  -- of symbol files only where the file system refuses nothing.
  pub purge_symbols-Indexed :
      TripleOn W IsIndexed (purge_symbols key) (λ _. Indexed W (other_symbols key)) IsIndexed
  unfolding purge_symbols
  purge_symbols-Indexed = >>=_rule find-Found λ found.
      >>=_rule
        (consequence (Found-Remaining found) (λ a s h. h) (λ s h. h)
          (for_each_rule Remaining found delete-Remaining))
        λ _. drop-symbols
