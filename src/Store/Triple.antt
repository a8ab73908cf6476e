-- ===== src/Store/Triple.antt =====
-- What holds before a run, after one that answers, and after one that fails.
use yanuget.Prelude.{
  Bool, true, false, ◌≡◌, refl, if◌then◌else◌, Option, none, some, List, [], ◌∷◌, All,
}
use yanuget.Store.{
  Store, Run, Io, Fate, goes_well, fails, fails_late, is_refused, pure, continue_with, ◌>>=◌, call,
  quiet_call, for_each,
}

abbrev pub Ends : {A : Type 0} → (A → Store → Type 0) → (Store → Type 0) → Run A → Type 0
Ends Q R run = elim run.answer [ none ↦ R run.store | some a ↦ Q a run.store ]

-- every call ends in one of the ways that `W` admits
abbrev pub Admitted : (Fate → Bool) → List Fate → Type 0
Admitted W = All (λ f. W f ≡ true)

-- From a store with `P`, whatever the fates that `W` admits, `m` ends with `Q` of its answer or fails
-- with `R`.
pub record TripleOn {A : Type 0} (W : Fate → Bool) (P : Store → Type 0) (m : Io A)
    (Q : A → Store → Type 0) (R : Store → Type 0) : Type 0 where
  pub ends :
      (fates : List Fate) (store : Store)
      → Admitted W fates
      → P store
      → Admitted W (m fates store).fates × Ends Q R (m fates store)

abbrev pub any_fate : Fate → Bool
any_fate f = true

abbrev pub Triple :
    {A : Type 0} → (Store → Type 0) → Io A → (A → Store → Type 0) → (Store → Type 0) → Type 0
Triple P m Q R = TripleOn any_fate P m Q R

module _ {A : Type 0} {W : Fate → Bool} {P R : Store → Type 0} {Q : A → Store → Type 0} where
  pub pure_rule : (a : A) → ((s : Store) → P s → Q a s) → TripleOn W P (pure a) Q R
  pure_rule a f = record { ends = λ fates store w p. (w, f store p) }

  pub call_rule :
      (f : Store → A × Store)
      → ((s : Store) → P s → Q (f s).0 (f s).1)
      → ((s : Store) → P s → R s × R (f s).1)
      → TripleOn W P (call f) Q R
  call_rule f q r = record { ends = at_ }
    where
      at_ :
          (fates : List Fate) (store : Store)
          → Admitted W fates
          → P store
          → Admitted W (call f fates store).fates × Ends Q R (call f fates store)
      at_ [] store w p = (tt, q store p)
      at_ (goes_well ∷ fates) store w p = (w.1, q store p)
      at_ (fails ∷ fates) store w p = (w.1, (r store p).0)
      at_ (fails_late ∷ fates) store w p = (w.1, (r store p).1)
      at_ (is_refused ∷ fates) store w p = (w.1, (r store p).0)

  pub quiet_rule :
      (f : Store → A × Store)
      → ((s : Store) → P s → Q (f s).0 (f s).1)
      → ((s : Store) → P s → R s × R (f s).1)
      → (W is_refused ≡ true → (s : Store) → P s → Q (f s).0 s)
      → TripleOn W P (quiet_call f) Q R
  quiet_rule f q r u = record { ends = at_ }
    where
      at_ :
          (fates : List Fate) (store : Store)
          → Admitted W fates
          → P store
          → Admitted W (quiet_call f fates store).fates × Ends Q R (quiet_call f fates store)
      at_ [] store w p = (tt, q store p)
      at_ (goes_well ∷ fates) store w p = (w.1, q store p)
      at_ (fails ∷ fates) store w p = (w.1, (r store p).0)
      at_ (fails_late ∷ fates) store w p = (w.1, (r store p).1)
      at_ (is_refused ∷ fates) store w p = (w.1, u w.0 store p)

  -- from a weaker store to weaker ends
  pub consequence :
      {P' R' : Store → Type 0} {Q' : A → Store → Type 0} {m : Io A}
      → ((s : Store) → P' s → P s)
      → ((a : A) (s : Store) → Q a s → Q' a s)
      → ((s : Store) → R s → R' s)
      → TripleOn W P m Q R
      → TripleOn W P' m Q' R'
  consequence {P' = P'} {R' = R'} {Q' = Q'} {m = m} p q r t = record {
    ends = λ fates store w h.
        let e = t.ends fates store w (p store h) in (e.0, of_run (m fates store) e.1);
  }
    where
      of_answer :
          (o : Option A) (fates : List Fate) (store : Store)
          → Ends Q R (record { answer = o; fates = fates; store = store })
          → Ends Q' R' (record { answer = o; fates = fates; store = store })
      of_answer none fates store h = r store h
      of_answer (some a) fates store h = q a store h

      of_run : (run : Run A) → Ends Q R run → Ends Q' R' run
      of_run run h = of_answer run.answer run.fates run.store h

module _ {A B : Type 0} {W : Fate → Bool} {P R : Store → Type 0} {Q : A → Store → Type 0}
    {S : B → Store → Type 0} where
  pub >>=_rule :
      {first : Io A} {next : A → Io B}
      → TripleOn W P first Q R
      → ((a : A) → TripleOn W (Q a) (next a) S R)
      → TripleOn W P (first >>= next) S R
  >>=_rule {first = first} {next = next} f n = record {
    ends = λ fates store w p. let e = f.ends fates store w p in of_run (first fates store) e.0 e.1;
  }
    where
      of_answer :
          (o : Option A) (fates : List Fate) (store : Store)
          → Admitted W fates
          → Ends Q R (record { answer = o; fates = fates; store = store })
          → Admitted W
              (continue_with (record { answer = o; fates = fates; store = store }) next).fates
            × Ends S R (continue_with (record { answer = o; fates = fates; store = store }) next)
      of_answer none fates store w r = (w, r)
      of_answer (some a) fates store w q = (n a).ends fates store w q

      of_run :
          (run : Run A)
          → Admitted W run.fates
          → Ends Q R run
          → Admitted W (continue_with run next).fates × Ends S R (continue_with run next)
      of_run run w e = of_answer run.answer run.fates run.store w e

-- A loop, by an invariant of what is left to do.
pub for_each_rule :
    {A : Type 0} {W : Fate → Bool} (I : List A → Store → Type 0) {R : Store → Type 0}
    {body : A → Io (Unit {0})} (todo : List A)
    → ((a : A) (rest : List A) → TripleOn W (I (a ∷ rest)) (body a) (λ _. I rest) R)
    → TripleOn W (I todo) (for_each todo body) (λ _. I []) R
for_each_rule I [] keep = pure_rule tt (λ s p. p)
for_each_rule I (a ∷ rest) keep = >>=_rule (keep a rest) (λ _. for_each_rule I rest keep)

pub if_rule :
    {A : Type 0} {W : Fate → Bool} {P R : Store → Type 0} {Q : A → Store → Type 0} {m n : Io A}
    (t : Bool)
    → (t ≡ true → TripleOn W P m Q R)
    → (t ≡ false → TripleOn W P n Q R)
    → TripleOn W P (if t then m else n) Q R
if_rule true f g = f refl
if_rule false f g = g refl

-- a call that keeps what held
pub call_keeps :
    {A : Type 0} {W : Fate → Bool} {P : Store → Type 0} (f : Store → A × Store)
    → ((s : Store) → P s → P (f s).1)
    → TripleOn W P (call f) (λ _. P) P
call_keeps f k = call_rule f k (λ s p. (p, k s p))

pub quiet_keeps :
    {A : Type 0} {W : Fate → Bool} {P : Store → Type 0} (f : Store → A × Store)
    → ((s : Store) → P s → P (f s).1)
    → TripleOn W P (quiet_call f) (λ _. P) P
quiet_keeps f k = quiet_rule f k (λ s p. (p, k s p)) (λ e s p. p)

pub all-Admitted : (fates : List Fate) → Admitted any_fate fates
all-Admitted [] = tt
all-Admitted (f ∷ fates) = (refl, all-Admitted fates)

pub Ends-of :
    {A : Type 0} {P R : Store → Type 0} {Q : A → Store → Type 0} {m : Io A}
    → Triple P m Q R
    → (fates : List Fate) (s : Store) → P s
    → Ends Q R (m fates s)
Ends-of t fates s p = (t.ends fates s (all-Admitted fates) p).1

-- The store after a run where both ends say the same.
of_ends :
    {A : Type 0} (R : Store → Type 0) (o : Option A) (left : List Fate) (s : Store)
    → Ends (λ (a : A). R) R (record { answer = o; fates = left; store = s })
    → R s
of_ends R none left s r = r
of_ends R (some a) left s r = r

module _ {A : Type 0} {R : Store → Type 0} where
  pub store_on :
      {W : Fate → Bool} {P : Store → Type 0} {m : Io A}
      → TripleOn W P m (λ _. R) R
      → (fates : List Fate) (s : Store) → Admitted W fates
      → P s
      → R (m fates s).store
  store_on {m = m} t fates s w p =
      let run = m fates s in of_ends R run.answer run.fates run.store (t.ends fates s w p).1

  pub store_of :
      {P : Store → Type 0} {m : Io A}
      → Triple P m (λ _. R) R
      → (fates : List Fate) (s : Store) → P s
      → R (m fates s).store
  store_of t fates s p = store_on t fates s (all-Admitted fates) p
