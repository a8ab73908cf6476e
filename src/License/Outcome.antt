-- ===== src/License/Outcome.antt =====
-- The verdict and the violation of a policy's outcome.
use yanuget.Prelude.{Bool, true, false, not, ◌||◌, Option, none, some, if◌then◌else◌, ◌≡◌, arith}
use yanuget.Text.{Text}
use yanuget.Models.{Package}
use yanuget.License.{
  fine, LicensePolicy, Violation, warns, declared, evaluate_declared, evaluate_license,
}

abbrev pub no_violation : Option Violation → Bool
no_violation none = true
no_violation (some v) = false

-- A package is rejected exactly when a violation is recorded and the policy blocks.
evaluate_license-allowed :
    (policy : LicensePolicy) (p : Package)
    → (evaluate_license policy p).allowed
      ≡ (warns policy.action || no_violation (evaluate_license policy p).violation)
unfolding evaluate_license
evaluate_license-allowed policy p = of_enabled policy.enabled
  where
    of_license :
        (o : Option Text)
        → (evaluate_declared policy o).allowed
          ≡ (warns policy.action || no_violation (evaluate_declared policy o).violation)
    of_license none = ground arith
    of_license (some license) = ground arith

    of_enabled :
        (t : Bool)
        → (if not t then fine else evaluate_declared policy (declared p)).allowed ≡ (
            warns policy.action
            || no_violation
                (if not t then fine else evaluate_declared policy (declared p)).violation)
    of_enabled true = of_license (declared p)
    of_enabled false = ground arith
