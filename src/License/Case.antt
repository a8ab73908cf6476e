-- ===== src/License/Case.antt =====
-- The ids of licenses in src/policy.rs, in upper and lower case.
use mathlib.Core.List.{reverse-append}
use yanuget.Prelude.{
  Bool, true, false, not, Option, none, some, List, [], ◌∷◌, ◌++◌, reverse, all, is_empty,
  if◌then◌else◌, ◌≡◌, refl, sym, ap, ◌∙◌, map-append, arith,
}
use yanuget.Text.{
  Text, text, lower, lower_char, trim, trim_start, trim_end, drop_while, is_whitespace,
}
use yanuget.Text.Lower.{lower-lower}
use yanuget.License.{
  strip_suffix, strip_prefix, map_option, family, normalize_id, normalize_base, find_deprecated,
  replaced,
}
use yanuget.License.Tables.{Deprecated, deprecated}
use yanuget.License.Words.{is_break}

-- White space, breaks and trimming do not depend on the case.
drop_while-lower :
    (s : Text) → drop_while is_whitespace (lower s) ≡ lower (drop_while is_whitespace s)
unfolding is_whitespace
drop_while-lower [] = refl
drop_while-lower (c ∷ s) = ground (arith, drop_while-lower s)

reverse-lower : (s : Text) → reverse (lower s) ≡ lower (reverse s)
reverse-lower [] = refl
reverse-lower (c ∷ s) =
    reverse-append (lower_char c ∷ []) (lower s)
    ∙ ap (λ t. t ++ (lower_char c ∷ [])) (reverse-lower s)
    ∙ sym (map-append lower_char (reverse s) (c ∷ []))
    ∙ ap lower (sym (reverse-append (c ∷ []) s))

trim_end-lower : (s : Text) → trim_end (lower s) ≡ lower (trim_end s)
unfolding trim_end
trim_end-lower s =
    ap (λ t. reverse (drop_while is_whitespace t)) (reverse-lower s)
    ∙ ap reverse (drop_while-lower (reverse s))
    ∙ reverse-lower (drop_while is_whitespace (reverse s))

trim-lower : (s : Text) → trim (lower s) ≡ lower (trim s)
unfolding trim trim_start
trim-lower s = ap trim_end (drop_while-lower s) ∙ trim_end-lower (drop_while is_whitespace s)

-- An id is normalized alike in every case.
strip_plus-lower :
    (s : Text) → strip_prefix (text "+") (lower s) ≡ map_option lower (strip_prefix (text "+") s)
strip_plus-lower [] = refl
strip_plus-lower (c ∷ s) = ground arith

find_deprecated-lower :
    (ds : List Deprecated) (s : Text) → find_deprecated ds (lower s) ≡ find_deprecated ds s
find_deprecated-lower [] s = refl
find_deprecated-lower (d ∷ ds) s = rw (lower-lower s, find_deprecated-lower ds s) refl

replaced-lower :
    (s : Text) (found : Option Deprecated) → replaced (lower s) found ≡ replaced s found
replaced-lower s none = ap (λ t. (t, none)) (lower-lower s)
replaced-lower s (some d) = refl

normalize_base-lower :
    (s : Text) (or_later : Bool) → normalize_base (lower s) or_later ≡ normalize_base s or_later
normalize_base-lower s or_later =
    ap (λ found. if or_later then (family found.0 ++ text "-or-later", found.1) else found)
      (ap (replaced (lower s)) (find_deprecated-lower deprecated s)
        ∙ replaced-lower s (find_deprecated deprecated s))

strip_suffix-lower :
    (s : Text) → strip_suffix (text "+") (lower s) ≡ map_option lower (strip_suffix (text "+") s)
strip_suffix-lower s =
    ap (λ t. map_option reverse (strip_prefix (text "+") t)) (reverse-lower s)
    ∙ ap (map_option reverse) (strip_plus-lower (reverse s))
    ∙ turned (strip_prefix (text "+") (reverse s))
  where
    turned :
        (o : Option Text)
        → map_option reverse (map_option lower o) ≡ map_option lower (map_option reverse o)
    turned none = refl
    turned (some t) = ap some (reverse-lower t)

abbrev normalize_stripped : Text → Option Text → Text × Option Text
normalize_stripped s found = elim found [
  | none ↦ normalize_base s false
  | some base ↦ normalize_base (trim_end base) true
]

normalize_stripped-lower :
    (s : Text) (found : Option Text)
    → normalize_stripped (lower s) (map_option lower found) ≡ normalize_stripped s found
normalize_stripped-lower s none = normalize_base-lower s false
normalize_stripped-lower s (some base) =
    ap (λ t. normalize_base t true) (trim_end-lower base)
    ∙ normalize_base-lower (trim_end base) true

normalize_id-lower : (s : Text) → normalize_id (lower s) ≡ normalize_id s
unfolding normalize_id
normalize_id-lower s =
    ap (λ t. normalize_stripped t (strip_suffix (text "+") t)) (trim-lower s)
    ∙ ap (normalize_stripped (lower (trim s))) (strip_suffix-lower (trim s))
    ∙ normalize_stripped-lower (trim s) (strip_suffix (text "+") (trim s))

-- Ids that differ in case alone are normalized alike.
pub normalize_id_cong : (s t : Text) → lower s ≡ lower t → normalize_id s ≡ normalize_id t
normalize_id_cong s t e = sym (normalize_id-lower s) ∙ ap normalize_id e ∙ normalize_id-lower t

pub unbroken-lower :
    (s : Text) → all (λ c. not (is_break c)) (lower s) ≡ all (λ c. not (is_break c)) s
unfolding is_whitespace
unbroken-lower [] = refl
unbroken-lower (c ∷ s) = ground (arith, unbroken-lower s)

pub is_empty-lower : (s : Text) → is_empty (lower s) ≡ is_empty s
is_empty-lower [] = refl
is_empty-lower (c ∷ s) = refl
