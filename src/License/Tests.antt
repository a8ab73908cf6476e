-- ===== src/License/Tests.antt =====
-- Runs on the inputs of the source's own tests, and the theorems at them.
use yanuget.Prelude.{inr, inl, true, false, none, some, [], ◌∷◌, not, ◌&&◌, ◌≡◌, refl, List}
use yanuget.Text.{Text, text, trim, trim_start, trim_end, is_whitespace, join}
use yanuget.Models.{Package}
use yanuget.License.{
  evaluate_license, LicensePolicy, block, expression_is_allowed, allows, parse_term,
  exception_is_known, split_operator, split_tokens, split_whitespace, pieces, normalize_id, family,
}
use yanuget.License.Denied.{evaluate_license-HasWord}
use yanuget.License.Tables.{deprecated, known_exceptions}

abbrev gpl : Package
gpl = record {
  id = text "Contoso";
  version = record {
    major = 1;
    minor = 0;
    patch = 0;
    revision = 0;
    pre = [];
    metadata = none;
    original = text "1.0.0";
  };
  enabled = true;
  license_url = none;
  license_expression = some (text "(MIT OR gpl-2.0-only)");
  published = 0;
}

abbrev no_gpl : LicensePolicy
no_gpl = record {
  enabled = true;
  allowed = text "MIT" ∷ [];
  blocked = text "GPL-2.0-only" ∷ [];
  allow_unlicensed = true;
  action = block;
}

abbrev mit : List Text
mit = text "MIT" ∷ []

-- either side of `OR`, both sides of `AND`, and a known exception
expressions :
    ((expression_is_allowed mit (text "Proprietary OR mit")
        && not (expression_is_allowed mit (text "MIT AND Proprietary")))
      && (expression_is_allowed mit (text "MIT WITH Classpath-exception-2.0")
          && not (expression_is_allowed mit (text "MIT WITH anything"))))
    ≡ true
unfolding expression_is_allowed allows parse_term exception_is_known split_operator split_tokens
    split_whitespace pieces normalize_id family deprecated known_exceptions trim trim_start trim_end
    is_whitespace join
expressions = refl

evaluate_license-HasWord_example : (evaluate_license no_gpl gpl).allowed ≡ false
unfolding trim trim_start trim_end is_whitespace
evaluate_license-HasWord_example =
    evaluate_license-HasWord no_gpl gpl (text "GPL-2.0-only") (text "(MIT OR gpl-2.0-only)") refl
      refl (inl refl) (record { nonempty = refl; unbroken = refl; no_operator = refl }) (inl refl)
      (record {
        front = text "(MIT OR ";
        found = text "gpl-2.0-only";
        back = text ")";
        parts = refl;
        apart = inr (text "(MIT OR", 32, refl, refl);
        apart_back = refl;
        same = refl;
      })
