-- ===== src/Store.antt =====
-- The database and the storage as their clients see them: the tables and the stored bytes that the
-- modelled code reads and writes, and the calls on them, of which any may fail.
pub mod Triple
pub mod Total
pub mod Calls
use yanuget.Prelude.{ℕ, Bool, true, false, ◌&&◌, Option, none, some, List, [], ◌∷◌}
use yanuget.Text.{Text, text_eq}

-- the canonical id and the normalized version
pub record Key : Type 0 where
  pub id : Text
  pub version : Text

abbrev pub same_key : Key → Key → Bool
same_key a b = text_eq a.id b.id && text_eq a.version b.version

-- rows of `feed_packages`
pub record Membership : Type 0 where
  pub feed : Text
  pub key : Key
  pub pinned : Bool
  pub pending : Bool
  pub enabled : Bool

-- rows of `tombstones`
pub record Tombstone : Type 0 where
  pub feed : Text
  pub key : Key

-- rows of `packages`
pub record PackageRow : Type 0 where
  pub key : Key
  pub size : ℕ

-- rows of `package_files`
pub record FileRow : Type 0 where
  pub key : Key
  pub sha256 : Text
  pub size : ℕ

-- rows of `symbols`, and the names of stored symbol files
pub record SymbolName : Type 0 where
  pub ssqp : Text
  pub filename : Text

pub record SymbolRow : Type 0 where
  pub key : Key
  pub name : SymbolName

abbrev pub same_symbol : SymbolName → SymbolName → Bool
same_symbol a b = text_eq a.ssqp b.ssqp && text_eq a.filename b.filename

pub record Store : Type 0 where
  pub members : List Membership
  pub tombstones : List Tombstone
  pub packages : List PackageRow
  pub files : List FileRow
  pub symbols : List SymbolRow
  -- what is stored: the directories of versions, the blobs by their hash, the symbol files
  pub payloads : List Key
  pub blobs : List Text
  pub symbol_files : List SymbolName

-- How a call ends: as it should, with an error and without an effect, with both, or without an effect
-- where the file system refused it. The last is an error but in calls that do not report it.
pub data Fate : Type 0 where
  goes_well : Fate
  fails : Fate
  fails_late : Fate
  is_refused : Fate

-- What a run leaves: the answer, unless it failed, the fates of the calls to come, and the store.
pub record Run (A : Type 0) : Type 0 where
  pub answer : Option A
  pub fates : List Fate
  pub store : Store

-- A computation over the store; where no fates are left, every call goes well.
abbrev pub Io : Type 0 → Type 0
Io A = List Fate → Store → Run A

abbrev pub pure : {A : Type 0} → A → Io A
pure a fates store = record { answer = some a; fates = fates; store = store }

abbrev pub continue_with : {A B : Type 0} → Run A → (A → Io B) → Run B
continue_with run next = elim run.answer [
  | none ↦ record { answer = none; fates = run.fates; store = run.store }
  | some a ↦ next a run.fates run.store
]

-- `?`
infixl 5 ◌>>=◌ ◌>>◌
abbrev pub ◌>>=◌ : {A B : Type 0} → Io A → (A → Io B) → Io B
(first >>= next) fates store = continue_with (first fates store) next

abbrev pub ◌>>◌ : {A B : Type 0} → Io A → Io B → Io B
first >> second = first >>= λ _. second

-- one call
abbrev pub call : {A : Type 0} → (Store → A × Store) → Io A
call f [] store = record { answer = some (f store).0; fates = []; store = (f store).1 }
call f (goes_well ∷ fates) store = record {
  answer = some (f store).0;
  fates = fates;
  store = (f store).1;
}
call f (fails ∷ fates) store = record { answer = none; fates = fates; store = store }
call f (fails_late ∷ fates) store = record { answer = none; fates = fates; store = (f store).1 }
call f (is_refused ∷ fates) store = record { answer = none; fates = fates; store = store }

-- one call that reports no refusal
abbrev pub quiet_call : {A : Type 0} → (Store → A × Store) → Io A
quiet_call f [] store = call f [] store
quiet_call f (goes_well ∷ fates) store = call f (goes_well ∷ fates) store
quiet_call f (fails ∷ fates) store = call f (fails ∷ fates) store
quiet_call f (fails_late ∷ fates) store = call f (fails_late ∷ fates) store
quiet_call f (is_refused ∷ fates) store = record {
  answer = some (f store).0;
  fates = fates;
  store = store;
}

-- a loop that stops at the first error
abbrev pub for_each : {A : Type 0} → List A → (A → Io (Unit {0})) → Io (Unit {0})
for_each [] body = pure tt
for_each (a ∷ rest) body = body a >> for_each rest body
