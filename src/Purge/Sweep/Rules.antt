-- ===== src/Purge/Sweep/Rules.antt =====
-- The rules of an error as a value, and of a loop with a count, as in the sweeps of
-- src/retention.rs.
use yanuget.Prelude.{ℕ, Option, none, some, List, [], ◌∷◌}
use yanuget.Store.{Store, Io}
use yanuget.Store.Triple.{Triple, pure_rule, >>=_rule, store_on}
use yanuget.Purge.Sweep.{caught, fold}

-- what holds after a run that answered or failed
abbrev pub Either :
    {A : Type 0} → (A → Store → Type 0) → (Store → Type 0) → Option A → Store → Type 0
Either Q R o s = elim o [ none ↦ R s | some a ↦ Q a s ]

pub caught_rule :
    {A : Type 0} {P R R' : Store → Type 0} {Q : A → Store → Type 0} {m : Io A}
    → Triple P m Q R
    → Triple P (caught m) (Either Q R) R'
caught_rule t = record { ends = λ fates s w p. t.ends fates s w p }

pub caught_keeps :
    {A : Type 0} {P R R' : Store → Type 0} {m : Io A}
    → Triple P m (λ a. R) R
    → Triple P (caught m) (λ o. R) R'
caught_keeps t = record {
  ends = λ fates s w p. let e = t.ends fates s w p in (e.0, store_on t fates s w p);
}

pub fold_rule :
    {A : Type 0} (I : List A → Store → Type 0) {R : Store → Type 0} {body : ℕ → A → Io ℕ} (n : ℕ)
    (todo : List A)
    → ((m : ℕ) (a : A) (rest : List A) → Triple (I (a ∷ rest)) (body m a) (λ _. I rest) R)
    → Triple (I todo) (fold body n todo) (λ _. I []) R
fold_rule I n [] keep = pure_rule n (λ s p. p)
fold_rule I n (a ∷ rest) keep = >>=_rule (keep n a rest) (λ m. fold_rule I m rest keep)
