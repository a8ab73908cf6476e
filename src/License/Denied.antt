-- ===== src/License/Denied.antt =====
-- A deny rule that stands as a word in a license, and evaluate_license of src/policy.rs.
use yanuget.Prelude.{
  all_mono, Bool, true, false, not, ◌||◌, none, some, List, [], ◌∷◌, ◌++◌, any, all, is_empty, ◌≡◌,
  ◌⊎◌, inl, inr, refl, sym, ap, ◌∙◌, subst, Among, arith,
}
use yanuget.Text.{Text, text, text_eq, eq_ignore_case, lower, trim, is_whitespace}
use yanuget.Text.Equal.{text_eq_iff}
use yanuget.Text.Trim.{trim_id}
use yanuget.License.{
  evaluate_declared, block, LicensePolicy, declared, matches_trimmed, evaluate_license,
  matches_license, pieces, cuts_token, family, normalize_id, names_family,
}
use yanuget.Models.{Package}
use yanuget.License.Words.{is_break, HasWord, pieces_parts}
use yanuget.License.Case.{normalize_id_cong, unbroken-lower, is_empty-lower}

-- an operator of expressions
abbrev is_operator : Text → Bool
is_operator s =
    eq_ignore_case s (text "WITH")
    || (eq_ignore_case s (text "OR") || eq_ignore_case s (text "AND"))

-- one word that is no operator
pub record IsRule (rule : Text) : Type 0 where
  pub nonempty : is_empty rule ≡ false
  pub unbroken : all (λ c. not (is_break c)) rule ≡ true
  pub no_operator : is_operator rule ≡ false

names_family-Among :
    (rule rule_family : Text) (after_with : Bool) (word : Text) (tokens : List Text)
    → is_operator word ≡ false
    → eq_ignore_case word rule ≡ true
    → text_eq (family (normalize_id word).0) rule_family ≡ true
    → Among word tokens
    → names_family rule rule_family after_with tokens ≡ true
unfolding names_family
names_family-Among rule rule_family after_with word [] o e f m = absurd m
names_family-Among rule rule_family after_with word (token ∷ rest) o e f (inl same) =
    subst (λ t. names_family rule rule_family after_with (t ∷ rest) ≡ true) same
      (ground (arith, o, e, f))
names_family-Among rule rule_family after_with word (token ∷ rest) o e f (inr m) = ground (
  arith,
  names_family-Among rule rule_family true word rest o e f m,
  names_family-Among rule rule_family false word rest o e f m,
)

no_space : (s : Text) → all (λ c. not (is_break c)) s ≡ true → any is_whitespace s ≡ false
no_space [] h = refl
no_space (c ∷ s) h = ground (arith, h, no_space s)

matches_trimmed-HasWord :
    (rule license : Text) → IsRule rule → HasWord rule license → matches_trimmed rule license ≡ true
matches_trimmed-HasWord rule license r w =
    let unbroken : all (λ c. not (is_break c)) w.found ≡ true =
      sym (unbroken-lower w.found)
      ∙ ap (all (λ c. not (is_break c))) w.same
      ∙ unbroken-lower rule
      ∙ r.unbroken in
    let filled : is_empty w.found ≡ false =
      sym (is_empty-lower w.found) ∙ ap is_empty w.same ∙ is_empty-lower rule ∙ r.nonempty in
    let among : Among w.found (pieces cuts_token [] license) =
      subst (λ t. Among w.found (pieces cuts_token [] t)) (sym w.parts)
        (pieces_parts w.front w.found w.back w.apart filled unbroken w.apart_back) in
    let no_operator : is_operator w.found ≡ false =
      ap (λ t. text_eq t (text "with") || (text_eq t (text "or") || text_eq t (text "and"))) w.same
      ∙ r.no_operator in
    let named =
      names_family-Among rule (family (normalize_id rule).0) false w.found _ no_operator
        ((text_eq_iff (lower w.found) (lower rule)).1 w.same)
        ((text_eq_iff _ _).1 (ap (λ n. family n.0) (normalize_id_cong w.found rule w.same)))
        among in
    ground (arith, named, r.nonempty, no_space rule r.unbroken)

matches_license-HasWord :
    (rule license : Text) → IsRule rule → HasWord rule license → matches_license rule license ≡ true
unfolding matches_license
matches_license-HasWord rule license r w =
    let bare : trim rule ≡ rule =
      trim_id rule (all_mono _ _ rule (λ c k. ground (arith, k)) r.unbroken) in
    ap (λ t. matches_trimmed t license) bare ∙ matches_trimmed-HasWord rule license r w

any-Among :
    {A : Type 0} (p : A → Bool) (x : A) (xs : List A) → Among x xs → p x ≡ true → any p xs ≡ true
any-Among p x [] m h = absurd m
any-Among p x (y ∷ ys) (inl e) h =
    let k : p y ≡ true = ap p (sym e) ∙ h in ap (λ b. b || any p ys) k
any-Among p x (y ∷ ys) (inr m) h = ground (arith, any-Among p x ys m h)

-- the text that a package gives as its license: the expression, or else the URL
abbrev pub Gives : Package → Text → Type 0
Gives p raw =
    (p.license_expression ≡ some raw) ⊎ ((p.license_expression ≡ none) × (p.license_url ≡ some raw))

word_filled : (rule s : Text) → IsRule rule → HasWord rule s → is_empty s ≡ false
word_filled rule s r w =
    let filled : is_empty w.found ≡ false =
      sym (is_empty-lower w.found) ∙ ap is_empty w.same ∙ is_empty-lower rule ∙ r.nonempty in
    ap is_empty w.parts ∙ behind w.front w.found w.back filled
  where
    filled_front : (found back : Text) → is_empty found ≡ false → is_empty (found ++ back) ≡ false
    filled_front [] back h = cc
    filled_front (c ∷ found) back h = refl

    behind :
        (front found back : Text)
        → is_empty found ≡ false
        → is_empty (front ++ (found ++ back)) ≡ false
    behind [] found back h = filled_front found back h
    behind (c ∷ front) found back h = refl

declared-Gives :
    (p : Package) (raw : Text)
    → Gives p raw
    → is_empty (trim raw) ≡ false
    → declared p ≡ some (trim raw)
declared-Gives p raw (inl e) n = rw (e, n) refl
declared-Gives p raw (inr (e, u)) n = rw (e, u, n) refl

-- Where an enabled, blocking policy has a deny rule of one word that is no operator, a package whose
-- license, the expression or else the URL, has that word between white space, parentheses or its ends,
-- in any case, is not allowed, whatever the allow list says.
pub evaluate_license-HasWord :
    (policy : LicensePolicy) (p : Package) (rule raw : Text)
    → policy.enabled ≡ true
    → policy.action ≡ block
    → Among rule policy.blocked
    → IsRule rule
    → Gives p raw
    → HasWord rule (trim raw)
    → (evaluate_license policy p).allowed ≡ false
unfolding evaluate_license
evaluate_license-HasWord policy p rule raw on act m r g w =
    let license = declared-Gives p raw g (word_filled rule (trim raw) r w) in
    let denied : any (λ b. matches_license b (trim raw)) policy.blocked ≡ true =
      any-Among (λ b. matches_license b (trim raw)) rule policy.blocked m
        (matches_license-HasWord rule (trim raw) r w) in
    rw (on, license, evaluate_declared, denied, act) refl
