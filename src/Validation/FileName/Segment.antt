-- ===== src/Validation/FileName/Segment.antt =====
-- What a file name without a problem looks like, in terms of its characters.
use mathlib.Core.List.{reverse-append, reverse-reverse}
use yanuget.Prelude.{
  ℕ, ◌≤◌, ◌&&◌, append_assoc, true, false, not, ◌||◌, none, some, List, [], ◌∷◌, ◌++◌, reverse, all,
  ◌==◌, ◌≡◌, ◌≢◌, ◌⊎◌, inl, inr, refl, sym, ap, ◌∙◌, subst, All, Among, Bool-cases, Option-cases,
  arith, all-append,
}
use yanuget.Text.{eq_ignore_case, Text, text, len, lower, lacks, split, split_once, drop_while}
use yanuget.Text.Equal.{text_eq_iff}
use yanuget.Text.Split.{split_once-some, split-lacks, split-append}
use yanuget.Text.Trim.{all-reverse}
use yanuget.Validation.{first_piece, is_windows_device_name}
use yanuget.Validation.FileName.{
  extension_problem, max_file_name_length, extension_allowed, is_file_char, starts_well, ends_badly,
  extension, file_name_problem,
}
use yanuget.Validation.FileName.Devices.{devices, no_device_of, lacks_dot_of}

abbrev pub IsLetterOrDigit : ℕ → Type 0
IsLetterOrDigit c =
    ((b'0' ≤ c) × (c ≤ b'9')) ⊎ ((b'A' ≤ c) × (c ≤ b'Z')) ⊎ ((b'a' ≤ c) × (c ≤ b'z'))

-- the text behind the last dot is one of the entries, but for case and the entry's leading dots
pub record HasExtension (name : Text) (allowed : List Text) : Type 0 where
  pub stem : Text
  pub ext : Text
  pub entry : Text
  pub parts : name ≡ stem ++ (b'.' ∷ ext)
  pub last : lacks b'.' ext ≡ true
  pub listed : Among entry allowed
  pub same : lower (drop_while (λ c. c == b'.') entry) ≡ lower ext

-- one path segment, on every file system, that is not the listing's, and with an extension of the list
pub record IsSegment (name : Text) (allowed : List Text) : Type 0 where
  pub short : len name ≤ 128
  pub characters : All (λ c. IsLetterOrDigit c ⊎ Among c (text "._-")) name
  pub begins : (c : ℕ) × (rest : Text) × (name ≡ c ∷ rest) × IsLetterOrDigit c
  pub ends : (front : Text) (c : ℕ) → name ≡ front ++ (c ∷ []) → (c ≢ b'.') × (c ≢ b'-')
  pub no_device : (d : Text) → Among d devices → lower name ≢ lower d
  pub no_device_stem :
      (d stem rest : Text) → Among d devices → name ≡ stem ++ (b'.' ∷ rest) → lower stem ≢ lower d
  pub not_listing : lower name ≢ text "index.json"
  pub has_extension : HasExtension name allowed

characters_of :
    (s : Text) → all is_file_char s ≡ true → All (λ c. IsLetterOrDigit c ⊎ Among c (text "._-")) s
characters_of [] h = tt
characters_of (c ∷ s) h = (ground (arith, h), characters_of s (ground (arith, h)))

begins_of :
    (s : Text) → starts_well s ≡ true → (c : ℕ) × (rest : Text) × (s ≡ c ∷ rest) × IsLetterOrDigit c
begins_of [] h = cc
begins_of (c ∷ s) h = (c, s, refl, ground (arith, h))

ends_badly-append :
    (front : Text) (c : ℕ) → ends_badly (front ++ (c ∷ [])) ≡ (c == b'.' || c == b'-')
ends_badly-append [] c = refl
ends_badly-append (a ∷ []) c = refl
ends_badly-append (a ∷ b ∷ front) c = ends_badly-append (b ∷ front) c

ends_of :
    (name front : Text) (c : ℕ)
    → ends_badly name ≡ false
    → name ≡ front ++ (c ∷ [])
    → (c ≢ b'.') × (c ≢ b'-')
ends_of name front c h e =
    let last : (c == b'.' || c == b'-') ≡ false =
      sym (ends_badly-append front c) ∙ ap ends_badly (sym e) ∙ h in
    (ground (arith, last), ground (arith, last))

plain_stem :
    (name stem rest : Text)
    → name ≡ stem ++ rest
    → all is_file_char name ≡ true
    → all is_file_char stem ≡ true
plain_stem name stem rest parts plain =
    let both : (all is_file_char stem && all is_file_char rest) ≡ true =
      sym (all-append is_file_char stem rest) ∙ ap (all is_file_char) (sym parts) ∙ plain in
    ground (arith, both)

-- the extension that the code finds stands behind the last dot
extension_parts :
    (name ext : Text)
    → extension name ≡ some ext
    → (stem : Text) × (name ≡ stem ++ (b'.' ∷ ext)) × (lacks b'.' ext ≡ true)
extension_parts name ext h = elim (Option-cases (split_once b'.' (reverse name))) [
  | inl none_ ↦ ground (arith, rw (none_, extension) at h)
  | inr ((x, y), e) ↦
      let (whole, last) = split_once-some b'.' (reverse name) e in
      let same : reverse x ≡ ext = ground (arith, rw (e, extension) at h) in
      let parts : name ≡ reverse y ++ (b'.' ∷ reverse x) =
        sym (reverse-reverse name)
        ∙ ap reverse whole
        ∙ reverse-append x (b'.' ∷ y)
        ∙ ap (λ t. t ++ reverse x) (reverse-append (b'.' ∷ []) y)
        ∙ append_assoc (reverse y) (b'.' ∷ []) (reverse x) in
      (
        reverse y,
        subst (λ t. name ≡ reverse y ++ (b'.' ∷ t)) same parts,
        subst (λ t. lacks b'.' t ≡ true) same (all-reverse (λ c. not (c == b'.')) x last),
      )
]

allowed_entry :
    (allowed : List Text) (ext : Text)
    → extension_allowed allowed ext ≡ true
    → (entry : Text) × Among entry allowed × (lower (drop_while (λ c. c == b'.') entry) ≡ lower ext)
unfolding extension_allowed
allowed_entry [] ext h = cc
allowed_entry (a ∷ allowed) ext h =
    elim (Bool-cases (eq_ignore_case (drop_while (λ c. c == b'.') a) ext)) [
      | inl same ↦ (a, inl refl, (text_eq_iff _ _).0 same)
      | inr other ↦
          let (entry, m, e) = allowed_entry allowed ext (ground (arith, h, other)) in
          (entry, inr m, e)
    ]

extension_of :
    (name : Text) (allowed : List Text)
    → extension_problem allowed (extension name) ≡ none
    → HasExtension name allowed
extension_of name allowed h = elim (Option-cases (extension name)) [
  | inl none_ ↦ ground (arith, rw none_ at h)
  | inr (ext, e) ↦
      let (stem, parts, last) = extension_parts name ext e in
      let k : extension_problem allowed (some ext) ≡ none = rw e at h in
      let (entry, m, same) = allowed_entry allowed ext (ground (arith, k)) in
      record {
        stem = stem;
        ext = ext;
        entry = entry;
        parts = parts;
        last = last;
        listed = m;
        same = same;
      }
]

-- what the tests of `file_name_problem` say of a name that passes them
record IsPassed (name : Text) (allowed : List Text) : Type 0 where
  short : len name ≤ max_file_name_length
  plain : all is_file_char name ≡ true
  begins : starts_well name ≡ true
  ends : ends_badly name ≡ false
  device : is_windows_device_name name ≡ false
  listing : eq_ignore_case name (text "index.json") ≡ false
  allows : extension_problem allowed (extension name) ≡ none

file_name_problem-IsPassed :
    (name : Text) (allowed : List Text)
    → file_name_problem name allowed ≡ none
    → IsPassed name allowed
unfolding file_name_problem
file_name_problem-IsPassed name allowed h = record {
  short = ground arith;
  plain = ground arith;
  begins = ground arith;
  ends = ground arith;
  device = ground arith;
  listing = ground arith;
  allows = ground arith;
}

-- A file name without a problem has at most 128 bytes, all of them letters, digits, dots, underscores
-- and dashes; it begins with a letter or a digit and ends in no dot or dash; neither it nor what stands
-- before one of its dots is a Windows device, in any case; it is not index.json; and what stands behind
-- its last dot is one of the allowed extensions.
pub file_name_problem-IsSegment :
    (name : Text) (allowed : List Text)
    → file_name_problem name allowed ≡ none
    → IsSegment name allowed
file_name_problem-IsSegment name allowed h =
    let p = file_name_problem-IsPassed name allowed h in
    record {
      short = p.short;
      characters = characters_of name p.plain;
      begins = begins_of name p.begins;
      ends = λ front c e. ends_of name front c p.ends e;
      no_device = λ d m e.
          no_device_of name name d
            (ap first_piece (split-lacks b'.' name (lacks_dot_of name d m e))) p.plain p.device m e;
      no_device_stem = λ d stem rest m parts e.
          no_device_of name stem d
            (ap (λ t. first_piece (split b'.' t)) parts
              ∙ ap first_piece (split-append b'.' stem rest (lacks_dot_of stem d m e)))
            (plain_stem name stem (b'.' ∷ rest) parts p.plain) p.device m e;
      not_listing = λ e.
          let same = (text_eq_iff (lower name) (text "index.json")).1 e in
          ground (arith, same, p.listing);
      has_extension = extension_of name allowed p.allows;
    }
