-- ===== src/Validation/Grammar.antt =====
-- The ids that are accepted are those of NuGet's grammar that are short and name no device.
use mathlib.Core.Bool.{false≢true}
use yanuget.Prelude.{
  ℕ, ◌≤◌, Bool, true, false, not, ◌&&◌, ◌||◌, [], ◌∷◌, if◌then◌else◌, is_empty, ◌≡◌, ◌↔◌, refl, sym,
  ap, ◌∙◌, arith, Bool-cases, inl, inr,
}
use yanuget.Prelude.Result.{ok}
use yanuget.Text.{Text, len}
use yanuget.Validation.{
  is_word, is_sep, well_separated, is_windows_device_name, validate_package_id, max_id_length,
}

-- `^\w+([.\-_]\w+)*$`: words, each behind a single separator but the first.
pub data IsId : Text → Type 0 where
  last : (c : ℕ) → is_word c ≡ true → IsId (c ∷ [])
  word : (c : ℕ) (id : Text) → is_word c ≡ true → IsId id → IsId (c ∷ id)
  behind_sep :
      (c s : ℕ) (id : Text) → is_word c ≡ true → is_sep s ≡ true → IsId id → IsId (c ∷ s ∷ id)

on_word :
    (first prev : Bool) (c : ℕ) (rest : Text)
    → is_word c ≡ true
    → well_separated first prev (c ∷ rest) ≡ well_separated false false rest
unfolding well_separated
on_word first prev c rest h =
    ap
      (λ t.
        if t
        then well_separated false false rest
        else if is_sep c
        then not (first || prev) && well_separated false true rest
        else false)
      h

sep-not_word : (s : ℕ) → is_sep s ≡ true → is_word s ≡ false
sep-not_word s h = ground arith

on_sep :
    (s : ℕ) (rest : Text)
    → is_sep s ≡ true
    → well_separated false false (s ∷ rest) ≡ well_separated false true rest
unfolding well_separated
on_sep s rest h =
    ap
      (λ t.
        if t
        then well_separated false false rest
        else if is_sep s
        then well_separated false true rest
        else false)
      (sep-not_word s h)
    ∙ ap (λ t. if t then well_separated false true rest else false) h

complete : (first prev : Bool) (id : Text) → IsId id → well_separated first prev id ≡ true
complete first prev id (last c h) = on_word first prev c [] h ∙ unfold well_separated in refl
complete first prev id (word c rest h i) = on_word first prev c rest h ∙ complete false false rest i
complete first prev id (behind_sep c s rest h k i) =
    on_word first prev c (s ∷ rest) h ∙ on_sep s rest k ∙ complete false true rest i

neither :
    (prev : Bool) (c : ℕ) (rest : Text)
    → is_word c ≡ false
    → is_sep c ≡ false
    → well_separated false prev (c ∷ rest) ≡ false
unfolding well_separated
neither prev c rest h k = ground (arith, h, k)

two_seps :
    (first prev : Bool) (c : ℕ) (rest : Text)
    → is_word c ≡ false
    → (first || prev) ≡ true
    → well_separated first prev (c ∷ rest) ≡ false
unfolding well_separated
two_seps first prev c rest h p = ground (arith, h, p)

-- what follows a word
sound :
    (c : ℕ) (rest : Text)
    → is_word c ≡ true
    → well_separated false false rest ≡ true
    → IsId (c ∷ rest)
sound c [] h w = last c h
sound c (d ∷ []) h w = elim (Bool-cases (is_word d)) [
  | inl k ↦ word c (d ∷ []) h (last d k)
  | inr k ↦ elim (Bool-cases (is_sep d)) [
    | inl s ↦ absurd (false≢true (unfold well_separated in (sym (on_sep d [] s) ∙ w)))
    | inr s ↦ absurd (false≢true (sym (neither false d [] k s) ∙ w))
  ]
]
sound c (d ∷ e ∷ es) h w = elim (Bool-cases (is_word d)) [
  | inl k ↦ word c (d ∷ e ∷ es) h (sound d (e ∷ es) k (sym (on_word false false d (e ∷ es) k) ∙ w))
  | inr k ↦ elim (Bool-cases (is_sep d)) [
    | inr s ↦ absurd (false≢true (sym (neither false d (e ∷ es) k s) ∙ w))
    | inl s ↦
        let v : well_separated false true (e ∷ es) ≡ true = sym (on_sep d (e ∷ es) s) ∙ w in
        elim (Bool-cases (is_word e)) [
          | inl f ↦ behind_sep c d (e ∷ es) h s (sound e es f (sym (on_word false true e es f) ∙ v))
          | inr f ↦ absurd (false≢true (sym (two_seps false true e es f refl) ∙ v))
        ]
  ]
]

starts : (id : Text) → not (is_empty id) ≡ true → well_separated true false id ≡ true → IsId id
starts [] n w = absurd (false≢true n)
starts (c ∷ rest) n w = elim (Bool-cases (is_word c)) [
  | inl h ↦ sound c rest h (sym (on_word true false c rest h) ∙ w)
  | inr h ↦ absurd (false≢true (sym (two_seps true false c rest h refl) ∙ w))
]

not_empty : (id : Text) → IsId id → is_empty id ≡ false
not_empty id (last c h) = refl
not_empty id (word c rest h i) = refl
not_empty id (behind_sep c s rest h k i) = refl

-- An accepted id.
pub record IsAccepted (id : Text) : Type 0 where
  pub grammar : IsId id
  pub short : len id ≤ max_id_length
  pub no_device : is_windows_device_name id ≡ false

-- An id is accepted exactly when it is words with single separators between them, has at most 100
-- bytes, and does not start with the name of a Windows device.
pub validate_package_id-IsAccepted : (id : Text) → (validate_package_id id ≡ ok tt) ↔ IsAccepted id
unfolding validate_package_id
validate_package_id-IsAccepted id = (
  λ e. record {
    grammar = starts id (ground (arith, e)) (ground (arith, e));
    short = ground (arith, e);
    no_device = ground (arith, e);
  },
  λ a.
      rw (not_empty id a.grammar)
        (ground (arith, a.short, a.no_device, complete true false id a.grammar)),
)
