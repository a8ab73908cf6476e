-- ===== src/Store/Total.antt =====
-- What a run without failures does.
use yanuget.Prelude.{
  Bool, true, false, ◌≡◌, refl, ap, ◌∙◌, subst, some, List, [], ◌∷◌, if◌then◌else◌,
}
use yanuget.Store.{Store, Run, Io, Fate, pure, continue_with, ◌>>=◌, call, quiet_call, for_each}
use yanuget.Store.Triple.{TripleOn, Ends}

abbrev pub answered : {A : Type 0} → A → Store → Run A
answered a s = record { answer = some a; fates = []; store = s }

-- Where no call fails, the computation answers.
pub record IsTotal {A : Type 0} (m : Io A) : Type 0 where
  pub answers : (s : Store) → (a : A) × (s' : Store) × (m [] s ≡ answered a s')

pub pure-IsTotal : {A : Type 0} (a : A) → IsTotal (pure a)
pure-IsTotal a = record { answers = λ s. (a, s, refl) }

pub call-IsTotal : {A : Type 0} (f : Store → A × Store) → IsTotal (call f)
call-IsTotal f = record { answers = λ s. ((f s).0, (f s).1, refl) }

pub quiet_call-IsTotal : {A : Type 0} (f : Store → A × Store) → IsTotal (quiet_call f)
quiet_call-IsTotal f = record { answers = λ s. ((f s).0, (f s).1, refl) }

pub >>=-IsTotal :
    {A B : Type 0} {first : Io A} {next : A → Io B}
    → IsTotal first
    → ((a : A) → IsTotal (next a))
    → IsTotal (first >>= next)
>>=-IsTotal {A = A} {B = B} {first = first} {next = next} f n = record {
  answers = λ s. from (first [] s) (f.answers s);
}
  where
    from :
        (run : Run A)
        → ((a : A) × (s' : Store) × (run ≡ answered a s'))
        → (b : B) × (s' : Store) × (continue_with run next ≡ answered b s')
    from run w =
        let second = (n w.0).answers w.1 in
        (second.0, second.1, ap (λ r. continue_with r next) w.2 ∙ second.2)

pub for_each-IsTotal :
    {A : Type 0} {body : A → Io (Unit {0})} (todo : List A)
    → ((a : A) → IsTotal (body a))
    → IsTotal (for_each todo body)
for_each-IsTotal [] f = pure-IsTotal tt
for_each-IsTotal (a ∷ rest) f = >>=-IsTotal (f a) (λ _. for_each-IsTotal rest f)

pub if-IsTotal :
    {A : Type 0} {m n : Io A} (t : Bool) → IsTotal m → IsTotal n → IsTotal (if t then m else n)
if-IsTotal true f g = f
if-IsTotal false f g = g

-- What a total computation answers, by its triple.
pub answer_of :
    {A : Type 0} {W : Fate → Bool} {P R : Store → Type 0} {Q : A → Store → Type 0} {m : Io A}
    → IsTotal m
    → TripleOn W P m Q R
    → (s : Store) → P s
    → (a : A) × (s' : Store) × (m [] s ≡ answered a s') × Q a s'
answer_of {R = R} {Q = Q} f t s p =
    let w = f.answers s in (w.0, w.1, w.2, subst (Ends Q R) w.2 (t.ends [] s tt p).1)
