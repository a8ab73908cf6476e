-- ===== src/License/Words.antt =====
-- A word among the tokens of a license, as `pieces` of src/policy.rs cuts it.
use mathlib.Core.List.{reverse-append}
use yanuget.Prelude.{
  ℕ, Bool, true, false, not, ◌&&◌, ◌||◌, List, [], ◌∷◌, ◌++◌, reverse, all, is_empty, ◌==◌,
  if◌then◌else◌, ◌≡◌, ◌⊎◌, inl, inr, refl, ap, ◌∙◌, subst, append_assoc, append-nil, Among,
  Bool-cases, arith,
}
use yanuget.Text.{Text, lower, is_whitespace}
use yanuget.License.{pieces, cuts_token}

-- white space or a parenthesis
abbrev pub is_break : ℕ → Bool
is_break c = is_whitespace c || (c == b'(' || c == b')')

abbrev pub StartsApart : Text → Type 0
StartsApart [] = Unit
StartsApart (c ∷ rest) = is_break c ≡ true

-- nothing, or a text that ends in a break
abbrev pub EndsApart : Text → Type 0
EndsApart front =
    (front ≡ []) ⊎ ((start : Text) × (c : ℕ) × (front ≡ start ++ (c ∷ [])) × (is_break c ≡ true))

-- the word stands in the text, but for case, with breaks or the text's ends around it
pub record HasWord (word s : Text) : Type 0 where
  pub front : Text
  pub found : Text
  pub back : Text
  pub parts : s ≡ front ++ (found ++ back)
  pub apart : EndsApart front
  pub apart_back : StartsApart back
  pub same : lower found ≡ lower word

-- a word is one of the pieces, once nothing else of its piece was read
pieces_word :
    (piece word back : Text)
    → all (λ c. not (is_break c)) word ≡ true
    → StartsApart back
    → (is_empty piece && is_empty word) ≡ false
    → Among (reverse piece ++ word) (pieces cuts_token piece (word ++ back))
unfolding pieces
pieces_word [] [] back h b n = cc
pieces_word (p ∷ piece) [] [] h b n = inl (append-nil (reverse (p ∷ piece)))
pieces_word (p ∷ piece) [] (c ∷ back) h b n = rw b (inl (append-nil (reverse (p ∷ piece))))
pieces_word piece (c ∷ word) back h b n =
    let cut : cuts_token c ≡ false = ground (arith, h) in
    let whole : reverse (c ∷ piece) ++ word ≡ reverse piece ++ (c ∷ word) =
      ap (λ t. t ++ word) (reverse-append (c ∷ []) piece)
      ∙ append_assoc (reverse piece) (c ∷ []) word in
    let found = pieces_word (c ∷ piece) word back (ground (arith, h)) b refl in
    rw cut (subst (λ t. Among t (pieces cuts_token (c ∷ piece) (word ++ back))) whole found)

-- the pieces at a break, of what was read before it
abbrev onto_pieces : Text → List Text → List Text
onto_pieces piece behind = if is_empty piece then behind else reverse piece ∷ behind

onto_pieces-Among :
    (piece word : Text) (behind : List Text)
    → Among word behind
    → Among word (onto_pieces piece behind)
onto_pieces-Among [] word behind m = m
onto_pieces-Among (p ∷ piece) word behind m = inr m

-- what is read behind a break is read all the same
pieces-behind :
    (piece front : Text) (c : ℕ) (s word : Text)
    → is_break c ≡ true
    → Among word (pieces cuts_token [] s)
    → Among word (pieces cuts_token piece (front ++ (c ∷ s)))
unfolding pieces
pieces-behind piece [] c s word b m = rw b (onto_pieces-Among piece word _ m)
pieces-behind piece (x ∷ front) c s word b m = elim (Bool-cases (cuts_token x)) [
  | inl cut ↦ rw cut (onto_pieces-Among piece word _ (pieces-behind [] front c s word b m))
  | inr plain ↦ rw plain (pieces-behind (x ∷ piece) front c s word b m)
]

pub pieces_parts :
    (front found back : Text)
    → EndsApart front
    → is_empty found ≡ false
    → all (λ c. not (is_break c)) found ≡ true
    → StartsApart back
    → Among found (pieces cuts_token [] (front ++ (found ++ back)))
pieces_parts front found back (inl e) n h b = rw e (pieces_word [] found back h b n)
pieces_parts front found back (inr (start, c, e, k)) n h b =
    rw (e, append_assoc start (c ∷ []) (found ++ back))
      (pieces-behind [] start c (found ++ back) found k (pieces_word [] found back h b n))
