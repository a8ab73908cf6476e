-- ===== src/Range/RoundTrip.antt =====
-- `parse` reads back what `VersionRange::normalized` writes.
use yanuget.Prelude.{
  ap₂, inr, inl, Bool-cases, append_assoc, ℕ, ◌≤◌, eq, Bool, true, false, Option, none, some, [],
  ◌∷◌, ◌++◌, ◌≡◌, refl, sym, ap, ◌∙◌, arith, not, ◌&&◌, ◌||◌, ◌==◌, if◌then◌else◌, any, all-append,
  and_intro, ltb,
}
use yanuget.Prelude.Result.{ok}
use yanuget.Prelude.Order.{cmp_self}
use yanuget.Text.{trim_end, trim_start, Text, trim, len, is_whitespace}
use yanuget.Text.Trim.{trim_ends}
use yanuget.Text.Split.{split_once-lacks}
use yanuget.Text.Lower.{len-append}
use yanuget.Version.{NuGetVersion, cmp, version_eq, normalized as normalized_version}
use yanuget.Version.Order.{cmp-IsOrder}
use yanuget.Version.Valid.{IsValid as IsValidVersion}
use yanuget.Range.{
  above_min, below_max, contains, any_version, normalized, interval_text, Bound, VersionRange,
  exact, is_empty as is_empty_range, bound_text, is_inclusive,
}
use yanuget.Range.Parse.{
  between, satisfiable, closed, parse_trimmed, parse, is_bracket_or_star, max_range_chars,
}
use yanuget.Range.Valid.{ValidBound, IsValid}
use yanuget.Range.Sides.{
  SameBound, SameRange, any_of_none, split_last-append, len-bound_text, version_read, Bounded,
  comma_free, bracket_free, inner_text, between_read,
}

-- A range with equal ends is empty exactly when the other is.
is_empty-SameRange : (r q : VersionRange) → SameRange r q → is_empty_range r ≡ is_empty_range q
unfolding is_empty_range
is_empty-SameRange r q (lo, hi) = go r.min r.max q.min q.max lo hi
  where
    go :
        (a b c d : Option Bound)
        → SameBound a c
        → SameBound b d
        → is_empty_range (record { min = a; max = b })
          ≡ is_empty_range (record { min = c; max = d })
    go (some a) (some b) (some c) (some d) h k = ground (
      arith,
      cmp-IsOrder.cong a.version c.version b.version,
      cmp-IsOrder.cong b.version d.version c.version,
      cmp-IsOrder.swap c.version b.version,
      cmp-IsOrder.swap c.version d.version,
    )
    go none b none d h k = refl
    go (some a) none (some c) none h k = refl
    go none b (some c) d h k = absurd h
    go (some a) b none d h k = absurd h
    go (some a) none (some c) (some d) h k = absurd k
    go (some a) (some b) (some c) none h k = absurd k

open_mark : (b : Bool) → ((if b then b'[' else b'(') == b'[') ≡ b
open_mark true = refl
open_mark false = refl

close_mark : (b : Bool) → ((if b then b']' else b')') == b']') ≡ b
close_mark true = refl
close_mark false = refl

is_close :
    (b : Bool)
    → not ((if b then b']' else b')') == b']' || (if b then b']' else b')') == b')') ≡ false
is_close true = refl
is_close false = refl

inner_plain :
    (lo hi : Option Bound)
    → ValidBound lo
    → ValidBound hi
    → any is_bracket_or_star (inner_text lo hi) ≡ false
inner_plain lo hi vl vh = any_of_none is_bracket_or_star (inner_text lo hi) (
    all-append (λ c. not (is_bracket_or_star c)) (bound_text lo) (b',' ∷ b' ' ∷ bound_text hi)
    ∙ and_intro _ _ (bracket_free lo vl) (bracket_free hi vh))

satisfiable_lem :
    (input : Text) (q : VersionRange) → is_empty_range q ≡ false → satisfiable input q ≡ ok q
unfolding satisfiable
satisfiable_lem input q h = rw h

-- What is read of a text between brackets.
Reads : Text → VersionRange → ℕ → Text → ℕ → Type 0
Reads input r c inner d = (q : VersionRange) × (closed input c inner d ≡ ok q) × SameRange r q

closed_read :
    (input : Text) (r : VersionRange)
    → IsValid r
    → Bounded r.min r.max
    → Reads input r
        (if is_inclusive r.min then b'[' else b'(')
        (inner_text r.min r.max)
        (if is_inclusive r.max then b']' else b')')
unfolding closed Reads
closed_read input r v some_ =
    let (q, read, same) = between_read input r.min r.max v.min_valid v.max_valid some_ in
    let nonempty = sym (is_empty-SameRange r q same) ∙ v.nonempty in
    (
      q,
      rw (is_close (is_inclusive r.max)) (
          rw (inner_plain r.min r.max v.min_valid v.max_valid) (
            rw (open_mark (is_inclusive r.min), close_mark (is_inclusive r.max))
              (rw read (satisfiable_lem input q nonempty)))),
      same,
    )

exact_read :
    (input : Text) (lo hi : Bound)
    → IsValidVersion lo.version
    → lo.inclusive ≡ true
    → hi.inclusive ≡ true
    → version_eq lo.version hi.version ≡ true
    → Reads input
        (record { min = some lo; max = some hi })
        b'['
        (normalized_version lo.version)
        b']'
unfolding closed Reads between exact version_eq
exact_read input lo hi v il ih e =
    let (w, read, same) = version_read input lo.version v in
    let equal_ends : cmp lo.version hi.version ≡ eq = ground arith in
    let upper : cmp hi.version w ≡ eq =
      ground (arith, cmp-IsOrder.cong lo.version hi.version w, same) in
    let whole : Option Bound = some (record { version = lo.version; inclusive = true }) in
    let no_comma = split_once-lacks b',' (normalized_version lo.version) (comma_free whole v) in
    let plain =
      any_of_none is_bracket_or_star (normalized_version lo.version) (bracket_free whole v) in
    let one : is_empty_range (exact w) ≡ false =
      unfold is_empty_range in ground (arith, cmp_self cmp cmp-IsOrder w) in
    (
      exact w,
      rw plain (rw (no_comma, between) (rw read (satisfiable_lem input (exact w) one))),
      ((same, il), (upper, ih)),
    )

-- A bracketed text is read by `closed`.
parse_enclosed :
    (c d : ℕ) (inner : Text)
    → (c == b'[' || c == b'(') ≡ true
    → is_whitespace d ≡ false
    → len inner ≤ 500
    → len (d ∷ []) ≡ 1
    → parse (c ∷ (inner ++ d ∷ [])) ≡ closed (c ∷ (inner ++ d ∷ [])) c inner d
unfolding parse parse_trimmed
parse_enclosed c d inner hc hd h one =
    let blank : is_whitespace c ≡ false = unfold is_whitespace in ground arith in
    let size : len (c ∷ (inner ++ d ∷ [])) ≤ 502 =
      unfold len in ground (arith, len-append inner (d ∷ [])) in
    let fits : ltb max_range_chars (len (c ∷ (inner ++ d ∷ []))) ≡ false = ground arith in
    rw (trim_ends c d inner blank hd)
      (rw fits (rw hc (rw (split_last-append inner d, parse_trimmed))))

opening :
    (b : Bool) → ((if b then b'[' else b'(') == b'[' || (if b then b'[' else b'(') == b'(') ≡ true
opening true = refl
opening false = refl

closing_blank : (b : Bool) → is_whitespace (if b then b']' else b')') ≡ false
unfolding is_whitespace
closing_blank true = refl
closing_blank false = refl

closing_len : (b : Bool) → len ((if b then b']' else b')') ∷ []) ≡ 1
unfolding len
closing_len true = refl
closing_len false = refl

len_inner : (lo hi : Option Bound) → ValidBound lo → ValidBound hi → len (inner_text lo hi) ≤ 500
len_inner lo hi vl vh =
    let parts = len-append (bound_text lo) (b',' ∷ b' ' ∷ bound_text hi) in
    let a = len-bound_text lo vl in
    let b = len-bound_text hi vh in unfold len in omega (arith, parts)

-- What `parse` makes of a text that stands for `r`.
abbrev pub ReadsBack : Text → VersionRange → Type 0
ReadsBack s r = (q : VersionRange) × (parse s ≡ ok q) × SameRange r q

interval_read :
    (r : VersionRange) → IsValid r → Bounded r.min r.max → ReadsBack (interval_text r.min r.max) r
unfolding Reads
interval_read r v some_ =
    let o : ℕ = if is_inclusive r.min then b'[' else b'(' in
    let c : ℕ = if is_inclusive r.max then b']' else b')' in
    let whole : Text = o ∷ (inner_text r.min r.max ++ c ∷ []) in
    let same_text : whole ≡ interval_text r.min r.max =
      ap (λ t. o ∷ t) (append_assoc (bound_text r.min) (b',' ∷ b' ' ∷ bound_text r.max) (c ∷ [])) in
    let (q, read, same) = closed_read whole r v some_ in
    let enclosed =
      parse_enclosed o c (inner_text r.min r.max) (opening (is_inclusive r.min))
        (closing_blank (is_inclusive r.max)) (len_inner r.min r.max v.min_valid v.max_valid)
        (closing_len (is_inclusive r.max)) in
    (q, ap parse (sym same_text) ∙ enclosed ∙ read, same)

single_read :
    (lo hi : Bound)
    → IsValid (record { min = some lo; max = some hi })
    → lo.inclusive ≡ true
    → hi.inclusive ≡ true
    → version_eq lo.version hi.version ≡ true
    → ReadsBack
        (b'[' ∷ (normalized_version lo.version ++ b']' ∷ []))
        (record { min = some lo; max = some hi })
unfolding Reads
single_read lo hi v il ih e =
    let inner = normalized_version lo.version in
    let whole : Text = b'[' ∷ (inner ++ b']' ∷ []) in
    let (q, read, same) = exact_read whole lo hi v.min_valid il ih e in
    let small : len inner ≤ 500 = omega (arith, len-bound_text (some lo) v.min_valid) in
    let enclosed =
      parse_enclosed b'[' b']' inner refl (closing_blank true) small (closing_len true) in
    (q, enclosed ∙ read, same)

both_read :
    (lo hi : Bound)
    → IsValid (record { min = some lo; max = some hi })
    → ReadsBack
        (normalized (record { min = some lo; max = some hi }))
        (record { min = some lo; max = some hi })
unfolding normalized
both_read lo hi v =
    elim (Bool-cases ((lo.inclusive && hi.inclusive) && version_eq lo.version hi.version)) [
      | inl one ↦ rw one (single_read lo hi v (ground arith) (ground arith) (ground arith))
      | inr two ↦ rw two (interval_read (record { min = some lo; max = some hi }) v tt)
    ]

nothing_read : ReadsBack [] any_version
unfolding parse parse_trimmed len
nothing_read = (any_version, unfold trim trim_start trim_end in refl, (tt, tt))

any_read :
    (lo hi : Option Bound)
    → IsValid (record { min = lo; max = hi })
    → ReadsBack (normalized (record { min = lo; max = hi })) (record { min = lo; max = hi })
any_read none none v = unfold normalized in nothing_read
any_read none (some hi) v =
    unfold normalized in interval_read (record { min = none; max = some hi }) v tt
any_read (some lo) none v =
    unfold normalized in interval_read (record { min = some lo; max = none }) v tt
any_read (some lo) (some hi) v = both_read lo hi v

-- The ends decide what a range contains.
same_min : (a c : Option Bound) (v : NuGetVersion) → SameBound a c → above_min a v ≡ above_min c v
same_min none none v h = refl
same_min none (some c) v h = absurd h
same_min (some a) none v h = absurd h
same_min (some a) (some c) v h = ground (
  arith,
  cmp-IsOrder.cong a.version c.version v,
  cmp-IsOrder.swap a.version v,
  cmp-IsOrder.swap c.version v,
)

same_max : (a c : Option Bound) (v : NuGetVersion) → SameBound a c → below_max a v ≡ below_max c v
same_max none none v h = refl
same_max none (some c) v h = absurd h
same_max (some a) none v h = absurd h
same_max (some a) (some c) v h = ground (
  arith,
  cmp-IsOrder.cong a.version c.version v,
  cmp-IsOrder.swap a.version v,
  cmp-IsOrder.swap c.version v,
)

contains-SameRange :
    (r q : VersionRange) (v : NuGetVersion) → SameRange r q → contains r v ≡ contains q v
unfolding contains
contains-SameRange r q v same =
    ap₂ (λ a b. a && b) (same_min r.min q.min v same.0) (same_max r.max q.max v same.1)

-- The normalized text of a valid range parses, to a range with the same ends up to equality of
-- versions, which contains the same versions.
pub parse-normalized_range :
    (r : VersionRange)
    → IsValid r
    → (q : VersionRange) × (parse (normalized r) ≡ ok q)
      × SameRange r q
      × ((v : NuGetVersion) → contains q v ≡ contains r v)
parse-normalized_range r v =
    let (q, read, same) = any_read r.min r.max v in
    (q, read, same, λ w. sym (contains-SameRange r q w same))
