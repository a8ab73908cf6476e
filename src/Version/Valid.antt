-- ===== src/Version/Valid.antt =====
-- What `NuGetVersion::parse` guarantees of the versions that it returns.
use yanuget.Prelude.{
  ◌||◌, if◌then◌else◌, not, ltb, inr, inl, is_empty, Bool-cases, Option-cases, ℕ, ◌≤◌, true, false,
  Option, none, some, List, [], ◌∷◌, ◌≡◌, all, arith,
}
use yanuget.Prelude.Result.{ok, err, >>=-eq-ok, ok_or, ok_or-eq-ok}
use yanuget.Text.{trim, split_once, split, Text, len}
use yanuget.Version.{
  max_input_chars, NuGetVersion, Core, valid_identifier, valid_identifiers, to_full_string,
  max_component, max_version_chars,
}
use yanuget.Version.Parse.{
  parse, split_metadata, split_label, parse_parts, parse_component, read_core, parse_label,
  within_length, with_core, slot, no_more,
}

abbrev pub ValidMetadata : Option Text → Type 0
ValidMetadata none = Unit
ValidMetadata (some m) = valid_identifiers m true ≡ true

pub record IsValid (v : NuGetVersion) : Type 0 where
  pub major_bound : v.major ≤ max_component
  pub minor_bound : v.minor ≤ max_component
  pub patch_bound : v.patch ≤ max_component
  pub revision_bound : v.revision ≤ max_component
  pub pre_valid : all (valid_identifier false) v.pre ≡ true
  pub metadata_valid : ValidMetadata v.metadata
  pub short : len (to_full_string v) ≤ max_version_chars

abbrev BoundedCore : Core → Type 0
BoundedCore c =
    (c.0 ≤ max_component) × (c.1 ≤ max_component) × (c.2 ≤ max_component) × (c.3 ≤ max_component)

component_bound : (part : Text) {n : ℕ} → parse_component part ≡ some n → n ≤ max_component
unfolding parse_component
component_bound part h = ground arith

slot_bound :
    (original : Text) (parts : List Text) {r : ℕ × List Text}
    → slot original parse_component parts ≡ ok r
    → r.0 ≤ max_component
unfolding slot
slot_bound original [] h = ground arith
slot_bound original (p ∷ ps) {r} h =
    let (n, e, f) = >>=-eq-ok (ok_or original (parse_component p)) (λ n. ok (n, ps)) h in
    ground (arith, component_bound p {n = n} (ok_or-eq-ok original (parse_component p) e))

no_more_ok :
    (original : Text) (parts : List Text) (c : Core) {d : Core}
    → no_more original parse_component parts c ≡ ok d
    → c ≡ d
unfolding no_more
no_more_ok original [] c h = ground arith
no_more_ok original (p ∷ ps) c h = cc

read_core_bound :
    (original : Text) (parts : List Text) {c : Core}
    → read_core original parse_component parts ≡ ok c
    → BoundedCore c
unfolding read_core
read_core_bound original [] h = cc
read_core_bound original (p ∷ ps) {c} h =
    let (major, e0, h0) = >>=-eq-ok (ok_or original (parse_component p)) _ h in
    let (s1, e1, h1) = >>=-eq-ok (slot original parse_component ps) _ h0 in
    let (s2, e2, h2) = >>=-eq-ok (slot original parse_component s1.1) _ h1 in
    let (s3, e3, h3) = >>=-eq-ok (slot original parse_component s2.1) _ h2 in
    let same = no_more_ok original s3.1 (major, s1.0, s2.0, s3.0) {d = c} h3 in
    let b0 = component_bound p (ok_or-eq-ok original (parse_component p) e0) in
    let b1 = slot_bound original ps e1 in
    let b2 = slot_bound original s1.1 e2 in
    let b3 = slot_bound original s2.1 e3 in rw (← same) (b0, b1, b2, b3)

label_valid :
    (original : Text) (p : Option Text) {pre : List Text}
    → parse_label original p ≡ ok pre
    → all (valid_identifier false) pre ≡ true
unfolding parse_label valid_identifiers
label_valid original none h = ground arith
label_valid original (some p) h = ground arith

within_length_ok :
    (v : NuGetVersion) {w : NuGetVersion}
    → within_length v ≡ ok w
    → (v ≡ w) × (len (to_full_string v) ≤ max_version_chars)
unfolding within_length
within_length_ok v h = ground arith

parse_parts-IsValid :
    (original c : Text) (p m : Option Text) {v : NuGetVersion}
    → ValidMetadata m
    → parse_parts original c p m ≡ ok v
    → IsValid v
unfolding parse_parts
parse_parts-IsValid original c p m {v} valid h =
    let (nums, e0, h0) = >>=-eq-ok (read_core original parse_component (split b'.' c)) _ h in
    let (pre, e1, h1) = >>=-eq-ok (parse_label original p) _ h0 in
    let (same, short) = within_length_ok (with_core nums pre m original) {w = v} h1 in
    let (b0, b1, b2, b3) = read_core_bound original (split b'.' c) e0 in
    rw (← same) (record {
      major_bound = b0;
      minor_bound = b1;
      patch_bound = b2;
      revision_bound = b3;
      pre_valid = label_valid original p e1;
      metadata_valid = valid;
      short = short;
    })

split_label-IsValid :
    (original s : Text) (m : Option Text) {v : NuGetVersion}
    → ValidMetadata m
    → split_label original s m ≡ ok v
    → IsValid v
unfolding split_label
split_label-IsValid original s m valid h = elim (Option-cases (split_once b'-' s)) [
  | inl e ↦ parse_parts-IsValid original s none m valid (rw (e, split_label) at h)
  | inr (vp, e) ↦ parse_parts-IsValid original vp.0 (some vp.1) m valid (rw (e, split_label) at h)
]

checked_metadata :
    (original v m : Text) {w : NuGetVersion}
    → (if not (valid_identifiers m true) then err original else split_label original v (some m))
      ≡ ok w
    → IsValid w
checked_metadata original v m h = elim (Bool-cases (valid_identifiers m true)) [
  | inl good ↦ split_label-IsValid original v (some m) good (rw good at h)
  | inr bad ↦ ground arith
]

split_metadata-IsValid :
    (original s : Text) {v : NuGetVersion} → split_metadata original s ≡ ok v → IsValid v
unfolding split_metadata
split_metadata-IsValid original s h = elim (Option-cases (split_once b'+' s)) [
  | inl e ↦ split_label-IsValid original s none tt (rw (e, split_metadata) at h)
  | inr (vm, e) ↦ checked_metadata original vm.0 vm.1 (rw (e, split_metadata) at h)
]

-- Every version that `parse` returns has components of at most `i32::MAX`, pre-release identifiers
-- and build metadata of the allowed form, and a full string of at most 64 bytes.
pub parse-IsValid : (input : Text) {v : NuGetVersion} → parse input ≡ ok v → IsValid v
unfolding parse
parse-IsValid input h =
    elim (Bool-cases (is_empty (trim input) || ltb max_input_chars (len (trim input)))) [
      | inl bad ↦ ground arith
      | inr good ↦ split_metadata-IsValid (trim input) (trim input) (rw good at h)
    ]
