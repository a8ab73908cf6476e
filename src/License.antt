-- ===== src/License.antt =====
-- src/policy.rs: whether a license policy lets a package in.
pub mod Tables
pub mod Outcome
pub mod Words
pub mod Case
pub mod Denied
mod Tests
use yanuget.Prelude.{
  ℕ, Bool, true, false, not, ◌&&◌, ◌||◌, Option, none, some, List, [], ◌∷◌, ◌++◌, map, reverse, any,
  all, retain, is_empty, ◌==◌, ltb, length, if◌then◌else◌,
}
use yanuget.Text.{Text, text, text_eq, eq_ignore_case, lower, trim, trim_end, join, is_whitespace}
use yanuget.Models.{Package}
use yanuget.License.Tables.{Deprecated, deprecated, known_exceptions}

-- the pieces between the code points that pass a test, without the empty ones
unfoldable pub pieces : (ℕ → Bool) → Text → Text → List Text
pieces cuts piece [] = if is_empty piece then [] else reverse piece ∷ []
pieces cuts piece (c ∷ rest) =
    let behind = pieces cuts [] rest in
    let longer = pieces cuts (c ∷ piece) rest in
    if cuts c then (if is_empty piece then behind else reverse piece ∷ behind) else longer

unfoldable pub split_whitespace : Text → List Text
split_whitespace s = pieces is_whitespace [] s

-- the loop of `split_operator`, with the tokens since the last operator
unfoldable pub split_tokens : Text → List Text → List Text → List Text
split_tokens op current [] = join b' ' current ∷ []
split_tokens op current (token ∷ rest) =
    let behind = split_tokens op [] rest in
    let longer = split_tokens op (current ++ (token ∷ [])) rest in
    if eq_ignore_case token op then join b' ' current ∷ behind else longer

unfoldable pub split_operator : Text → Text → List Text
split_operator expr op =
    retain (λ p. not (is_empty p)) (map trim (split_tokens op [] (split_whitespace expr)))

pub record Term : Type 0 where
  pub id : Text
  pub exception : Option Text
  pub malformed : Bool

-- `strip_prefix`, and `strip_suffix` through it
abbrev pub strip_prefix : Text → Text → Option Text
strip_prefix [] s = some s
strip_prefix (p ∷ ps) [] = none
strip_prefix (p ∷ ps) (c ∷ s) = let rest = strip_prefix ps s in if p == c then rest else none

abbrev pub map_option {ℓ κ} : {A : Type ℓ} {B : Type κ} → (A → B) → Option A → Option B
map_option f none = none
map_option f (some a) = some (f a)

abbrev pub strip_suffix : Text → Text → Option Text
strip_suffix suffix s = map_option reverse (strip_prefix (reverse suffix) (reverse s))

abbrev ends_with : Text → Text → Bool
ends_with suffix s = elim (strip_suffix suffix s) [ none ↦ false | some rest ↦ true ]

abbrev unwrap_or {ℓ} : {A : Type ℓ} → A → Option A → A
unwrap_or a none = a
unwrap_or a (some b) = b

abbrev or_other {ℓ} : {A : Type ℓ} → Option A → Option A → Option A
or_other none b = b
or_other (some a) b = some a

unfoldable pub family : Text → Text
family id =
    unwrap_or id (or_other (strip_suffix (text "-only") id) (strip_suffix (text "-or-later") id))

-- `iter().find` of the deprecated ids
abbrev pub find_deprecated : List Deprecated → Text → Option Deprecated
find_deprecated [] base = none
find_deprecated (d ∷ ds) base =
    let later = find_deprecated ds base in if eq_ignore_case d.old base then some d else later

abbrev pub replaced : Text → Option Deprecated → Text × Option Text
replaced base none = (lower base, none)
replaced base (some d) = (lower d.new, d.exception)

abbrev pub normalize_base : Text → Bool → Text × Option Text
normalize_base base or_later =
    let found = replaced base (find_deprecated deprecated base) in
    if or_later then (family found.0 ++ text "-or-later", found.1) else found

unfoldable pub normalize_id : Text → Text × Option Text
normalize_id raw = elim (strip_suffix (text "+") (trim raw)) [
  | none ↦ normalize_base (trim raw) false
  | some base ↦ normalize_base (trim_end base) true
]

-- the first and the second piece
abbrev first_of : List Text → Option Text
first_of [] = none
first_of (p ∷ ps) = some p

abbrev second_of : List Text → Option Text
second_of [] = none
second_of (p ∷ ps) = first_of ps

unfoldable pub parse_term : Text → Term
parse_term raw =
    let parts = split_operator raw (text "WITH") in
    let found = normalize_id (unwrap_or [] (first_of parts)) in
    record {
      id = found.0;
      exception = or_other (map_option lower (second_of parts)) (map_option lower found.1);
      malformed =
          (ltb 2 (length parts) || is_empty parts)
          || (ltb (length parts) 2
              && any (λ t. eq_ignore_case t (text "WITH")) (split_whitespace raw));
    }

unfoldable pub exception_is_known : Term → Bool
exception_is_known t =
    not t.malformed
    && elim t.exception [ none ↦ true | some e ↦ any (λ k. eq_ignore_case k e) known_exceptions ]

abbrev same_option : Option Text → Option Text → Bool
same_option none o = true
same_option (some e) none = false
same_option (some e) (some f) = text_eq f e

unfoldable pub allows : Term → Term → Bool
allows rule term =
    if is_empty rule.id || not (exception_is_known term)
    then false
    else (text_eq rule.id term.id
        || ((ends_with (text "-only") rule.id && ends_with (text "-or-later") term.id)
            && text_eq (family rule.id) (family term.id)))
      && same_option rule.exception term.exception

abbrev has_char : ℕ → Text → Bool
has_char c s = any (λ d. d == c) s

unfoldable pub expression_is_allowed : List Text → Text → Bool
expression_is_allowed allowed license =
    if any (λ a. eq_ignore_case (trim a) (trim license)) allowed
    then true
    else if has_char b'(' license || has_char b')' license
    then false
    else any
        (λ alternative.
          let conjuncts = split_operator alternative (text "AND") in
          not (is_empty conjuncts)
          && all (λ term. any (λ rule. allows (parse_term rule) (parse_term term)) allowed)
              conjuncts)
        (split_operator license (text "OR"))

-- the loop over the tokens of a license, with whether the last was `WITH`
unfoldable pub names_family : Text → Text → Bool → List Text → Bool
names_family rule rule_family after_with [] = false
names_family rule rule_family after_with (token ∷ rest) =
    let behind_with = names_family rule rule_family true rest in
    let same_state = names_family rule rule_family after_with rest in
    let behind = names_family rule rule_family false rest in
    if eq_ignore_case token (text "WITH")
    then behind_with
    else if eq_ignore_case token (text "OR") || eq_ignore_case token (text "AND")
    then same_state
    else if after_with
    then eq_ignore_case token rule || behind
    else text_eq (family (normalize_id token).0) rule_family || behind

abbrev pub cuts_token : ℕ → Bool
cuts_token c = is_whitespace c || (c == b'(' || c == b')')

abbrev pub matches_trimmed : Text → Text → Bool
matches_trimmed rule license =
    if is_empty rule
    then false
    else if eq_ignore_case rule license
    then true
    else if any is_whitespace rule
    then false
    else names_family rule (family (normalize_id rule).0) false (pieces cuts_token [] license)

unfoldable pub matches_license : Text → Text → Bool
matches_license rule license = matches_trimmed (trim rule) license

pub data PolicyAction : Type 0 where
  warn : PolicyAction
  block : PolicyAction

pub record LicensePolicy : Type 0 where
  pub enabled : Bool
  pub allowed : List Text
  pub blocked : List Text
  pub allow_unlicensed : Bool
  pub action : PolicyAction

-- the three reasons of a violation
pub data Violation : Type 0 where
  no_license : Violation
  is_blocked : Text → Violation
  not_allowed : Text → Violation

pub record PolicyOutcome : Type 0 where
  pub allowed : Bool
  pub violation : Option Violation

abbrev pub fine : PolicyOutcome
fine = record { allowed = true; violation = none }

abbrev pub warns : PolicyAction → Bool
warns warn = true
warns block = false

abbrev pub violated : LicensePolicy → Violation → PolicyOutcome
violated policy reason = record { allowed = warns policy.action; violation = some reason }

-- the license that counts: the expression, or else the URL, trimmed and not empty
abbrev pub not_blank : Option Text → Option Text
not_blank none = none
not_blank (some s) = if is_empty (trim s) then none else some (trim s)

abbrev pub declared : Package → Option Text
declared p = not_blank (or_other p.license_expression p.license_url)

abbrev pub evaluate_declared : LicensePolicy → Option Text → PolicyOutcome
evaluate_declared policy none = if policy.allow_unlicensed then fine else violated policy no_license
evaluate_declared policy (some license) =
    if any (λ b. matches_license b license) policy.blocked
    then violated policy (is_blocked license)
    else if not (is_empty policy.allowed) && not (expression_is_allowed policy.allowed license)
    then violated policy (not_allowed license)
    else fine

unfoldable pub evaluate_license : LicensePolicy → Package → PolicyOutcome
evaluate_license policy p =
    if not policy.enabled then fine else evaluate_declared policy (declared p)
