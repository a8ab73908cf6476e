-- ===== src/Range/Sides.antt =====
-- The two sides of a range's normalized text, and that `parse` reads each back.
use yanuget.Prelude.{
  ℕ, ◌≤◌, eq, Bool, true, false, Option, none, some, [], ◌∷◌, ◌++◌, ◌≡◌, refl, ap, ◌∙◌, arith, not,
  ◌&&◌, ◌||◌, ◌==◌, is_empty, any, all,
}
use yanuget.Prelude.Result.{ok}
use yanuget.Text.{Text, trim, len, is_whitespace, lacks}
use yanuget.Text.Trim.{trim_id, trim_space}
use yanuget.Text.Split.{split_once-append}
use yanuget.Version.{
  NuGetVersion, cmp, normalized as normalized_version, is_pre_char, max_version_chars,
}
use yanuget.Version.Parse.{parse as parse_version}
use yanuget.Version.Valid.{IsValid as IsValidVersion}
use yanuget.Version.Identity.{
  parse-normalized, all-normalized, len-normalized_version, is_empty-normalized,
}
use yanuget.Range.{Bound, VersionRange, bound_text, is_inclusive}
use yanuget.Range.Parse.{
  open_and_inclusive, version, side, two_sides, between, split_last, is_bracket_or_star,
}
use yanuget.Range.Valid.{ValidBound}

-- The parsed bound: the same end, at an equal version.
abbrev pub SameBound : Option Bound → Option Bound → Type 0
SameBound none none = Unit
SameBound none (some c) = ⊥
SameBound (some b) none = ⊥
SameBound (some b) (some c) = (cmp b.version c.version ≡ eq) × (b.inclusive ≡ c.inclusive)

abbrev pub SameRange : VersionRange → VersionRange → Type 0
SameRange r q = SameBound r.min q.min × SameBound r.max q.max

pub any_of_none : (p : ℕ → Bool) (s : Text) → all (λ c. not (p c)) s ≡ true → any p s ≡ false
any_of_none p [] h = refl
any_of_none p (c ∷ s) h = ground (arith, any_of_none p s)

pub split_last-append : (s : Text) (d : ℕ) → split_last (s ++ d ∷ []) ≡ some (s, d)
unfolding split_last
split_last-append [] d = refl
split_last-append (c ∷ s) d = rw (split_last-append s d, split_last)

-- The text of a bound is a version, or nothing: no blank, bracket, star or comma.
pub plain_char : (c : ℕ) → Bool
plain_char c = not (is_whitespace c) && not (is_bracket_or_star c || c == b',')

pub all-bound_text :
    (t : ℕ → Bool) (b : Option Bound)
    → ValidBound b
    → t b'.' ≡ true
    → t b'-' ≡ true
    → ((c : ℕ) → is_pre_char c ≡ true → t c ≡ true)
    → all t (bound_text b) ≡ true
all-bound_text t none h dot dash char = refl
all-bound_text t (some b) h dot dash char = all-normalized t b.version h dot dash char

pub trim-bound_text : (b : Option Bound) → ValidBound b → trim (bound_text b) ≡ bound_text b
trim-bound_text b h = trim_id (bound_text b) (
    all-bound_text (λ c. not (is_whitespace c)) b h (unfold is_whitespace in refl)
      (unfold is_whitespace in refl) (λ c d. unfold is_pre_char is_whitespace in ground arith))

pub len-bound_text : (b : Option Bound) → ValidBound b → len (bound_text b) ≤ max_version_chars
unfolding len
len-bound_text none h = omega arith
len-bound_text (some b) h = len-normalized_version b.version h

pub version_read :
    (input : Text) (v : NuGetVersion)
    → IsValidVersion v
    → (w : NuGetVersion) × (version input (normalized_version v) ≡ ok w) × (cmp v w ≡ eq)
unfolding version
version_read input v h =
    let (w, read, same, _, _) = parse-normalized v h in
    let trimmed = trim-bound_text (some (record { version = v; inclusive = true })) h in
    let e : parse_version (trim (normalized_version v)) ≡ ok w = ap parse_version trimmed ∙ read in
    (w, rw (e, version), same)

pub side_read :
    (input : Text) (b : Option Bound)
    → ValidBound b
    → (c : Option Bound) × (side input (bound_text b) (is_inclusive b) ≡ ok c) × SameBound b c
unfolding side
side_read input none h = (none, refl, tt)
side_read input (some b) h =
    let (w, read, same) = version_read input b.version h in
    (
      some (record { version = w; inclusive = b.inclusive }),
      rw (is_empty-normalized b.version, read),
      (same, refl),
    )

-- one of the two ends is there
abbrev pub Bounded : Option Bound → Option Bound → Type 0
Bounded none none = ⊥
Bounded none (some b) = Unit
Bounded (some b) c = Unit

pub Bounded-text :
    (lo hi : Option Bound)
    → Bounded lo hi
    → (is_empty (bound_text lo) && is_empty (bound_text hi)) ≡ false
Bounded-text none none h = absurd h
Bounded-text none (some b) h = is_empty-normalized b.version
Bounded-text (some b) c h = rw (is_empty-normalized b.version)

pub open_end : (b c : Option Bound) → SameBound b c → open_and_inclusive c (is_inclusive b) ≡ false
open_end none none h = refl
open_end none (some c) h = absurd h
open_end (some b) none h = absurd h
open_end (some b) (some c) h = refl

pub two_sides_read :
    (input : Text) (lo hi : Option Bound)
    → ValidBound lo
    → ValidBound hi
    → Bounded lo hi
    → (q : VersionRange) × (two_sides input
          (bound_text lo)
          (bound_text hi)
          (is_inclusive lo)
          (is_inclusive hi)
        ≡ ok q)
      × SameRange (record { min = lo; max = hi }) q
unfolding two_sides
two_sides_read input lo hi vl vh some_ =
    let (a, ra, sa) = side_read input lo vl in
    let (b, rb, sb) = side_read input hi vh in
    (
      record { min = a; max = b },
      rw (Bounded-text lo hi some_) (rw ra (rw rb (rw (open_end lo a sa) (rw (open_end hi b sb))))),
      (sa, sb),
    )

pub comma_free : (b : Option Bound) → ValidBound b → lacks b',' (bound_text b) ≡ true
comma_free b h =
    all-bound_text (λ c. not (c == b',')) b h refl refl (λ c d. unfold is_pre_char in ground arith)

pub bracket_free :
    (b : Option Bound) → ValidBound b → all (λ c. not (is_bracket_or_star c)) (bound_text b) ≡ true
bracket_free b h =
    all-bound_text (λ c. not (is_bracket_or_star c)) b h refl refl
      (λ c d. unfold is_pre_char in ground arith)

-- between the brackets
abbrev pub inner_text : Option Bound → Option Bound → Text
inner_text lo hi = bound_text lo ++ (b',' ∷ b' ' ∷ bound_text hi)

pub between_read :
    (input : Text) (lo hi : Option Bound)
    → ValidBound lo
    → ValidBound hi
    → Bounded lo hi
    → (q : VersionRange) × (between input (inner_text lo hi) (is_inclusive lo) (is_inclusive hi)
        ≡ ok q)
      × SameRange (record { min = lo; max = hi }) q
unfolding between
between_read input lo hi vl vh some_ =
    let (q, read, same) = two_sides_read input lo hi vl vh some_ in
    let split = split_once-append b',' (bound_text lo) (b' ' ∷ bound_text hi) (comma_free lo vl) in
    let one : any (λ c. c == b',') (bound_text hi) ≡ false =
      any_of_none (λ c. c == b',') (bound_text hi) (comma_free hi vh) in
    (
      q,
      rw (split, between)
          (rw one
            (rw (trim-bound_text lo vl, trim_space (bound_text hi), trim-bound_text hi vh) read)),
      same,
    )
