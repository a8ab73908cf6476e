-- ===== src/Pdb/Key.antt =====
-- The key of the symbol server of src/pdb.rs, from a GUID and back.
use yanuget.Prelude.{
  ◌↔◌, ℕ, zero, suc, ◌/◌, ◌%◌, ◌<◌, List, [], ◌∷◌, ◌++◌, map, length, ◌≡◌, refl, ap, ap₂, All,
  arith,
}
use yanuget.Text.{Text, text}
use yanuget.Pdb.{Bytes, PdbId, hex_digit, order, nth, hex, guid_to_hex, ssqp_key}

abbrev pub AreBytes : Bytes → Type 0
AreBytes = All (λ b. b < 256)

same_digit : (a b : ℕ) → a < 16 → b < 16 → hex_digit a ≡ hex_digit b → a ≡ b
same_digit a b h k e = ground (arith, h, k, e)

same_byte :
    (a b : ℕ)
    → a < 256
    → b < 256
    → hex_digit (a / 16) ≡ hex_digit (b / 16)
    → hex_digit (a % 16) ≡ hex_digit (b % 16)
    → a ≡ b
same_byte a b h k high low =
    let q : a / 16 ≡ b / 16 =
      same_digit (a / 16) (b / 16) (omega (arith, h)) (omega (arith, k)) high in
    let r : a % 16 ≡ b % 16 = same_digit (a % 16) (b % 16) (omega arith) (omega arith) low in
    omega (arith, q, r)

hex-injective : (xs ys : Bytes) → AreBytes xs → AreBytes ys → hex xs ≡ hex ys → xs ≡ ys
hex-injective [] [] h k e = refl
hex-injective [] (y ∷ ys) h k e = cc
hex-injective (x ∷ xs) [] h k e = cc
hex-injective (x ∷ xs) (y ∷ ys) h k e =
    let high : hex_digit (x / 16) ≡ hex_digit (y / 16) = cc in
    let low : hex_digit (x % 16) ≡ hex_digit (y % 16) = cc in
    let rest : hex xs ≡ hex ys = cc in
    ap₂ (λ b bs. b ∷ bs) (same_byte x y h.0 k.0 high low) (hex-injective xs ys h.1 k.1 rest)

append-injective : (a b c : Text) → a ++ c ≡ b ++ c → length a ≡ length b → a ≡ b
append-injective [] [] c e l = refl
append-injective [] (y ∷ b) c e l = cc
append-injective (x ∷ a) [] c e l = cc
append-injective (x ∷ a) (y ∷ b) c e l =
    let first : x ≡ y = cc in
    let rest : a ++ c ≡ b ++ c = cc in
    ap₂ (λ d ds. d ∷ ds) first (append-injective a b c rest (omega (arith, l)))

-- the bytes from an index on agree
abbrev Agree : ℕ → ℕ → Bytes → Bytes → Type 0
Agree zero k g h = Unit
Agree (suc n) k g h = (nth g k ≡ nth h k) × Agree n (suc k) g h

shifted : (n k a b : ℕ) (g h : Bytes) → Agree n (suc k) (a ∷ g) (b ∷ h) → Agree n k g h
shifted zero k a b g h e = tt
shifted (suc n) k a b g h e = (e.0, shifted n (suc k) a b g h e.1)

Agree-eq : (n : ℕ) (g h : Bytes) → length g ≡ n → length h ≡ n → Agree n 0 g h → g ≡ h
Agree-eq zero [] [] l m e = refl
Agree-eq zero [] (b ∷ h) l m e = absurd (omega (arith, m))
Agree-eq zero (a ∷ g) h l m e = absurd (omega (arith, l))
Agree-eq (suc n) [] h l m e = absurd (omega (arith, l))
Agree-eq (suc n) (a ∷ g) [] l m e = absurd (omega (arith, m))
Agree-eq (suc n) (a ∷ g) (b ∷ h) l m e =
    ap₂ (λ c cs. c ∷ cs) e.0
      (Agree-eq n g h (omega (arith, l)) (omega (arith, m)) (shifted n 0 a b g h e.1))

nth-byte : (g : Bytes) (i : ℕ) → AreBytes g → nth g i < 256
nth-byte [] i h = omega arith
nth-byte (b ∷ g) zero h = h.0
nth-byte (b ∷ g) (suc i) h = nth-byte g i h.1

map-nth-bytes : (g : Bytes) (is : List ℕ) → AreBytes g → AreBytes (map (nth g) is)
map-nth-bytes g [] h = tt
map-nth-bytes g (i ∷ is) h = (nth-byte g i h, map-nth-bytes g is h)

-- Two ids of 16-byte GUIDs have the same key exactly when their GUIDs are equal.
pub ssqp_key-eq_iff :
    (a b : PdbId)
    → AreBytes a.guid
    → AreBytes b.guid
    → length a.guid ≡ 16
    → length b.guid ≡ 16
    → (ssqp_key a ≡ ssqp_key b) ↔ (a.guid ≡ b.guid)
unfolding ssqp_key guid_to_hex
ssqp_key-eq_iff a b h k l m = (distinct, λ e. ap (λ g. guid_to_hex g ++ text "FFFFFFFF") e)
  where
    distinct : ssqp_key a ≡ ssqp_key b → a.guid ≡ b.guid
    distinct e =
        let same_hex : guid_to_hex a.guid ≡ guid_to_hex b.guid =
          append-injective (guid_to_hex a.guid) (guid_to_hex b.guid) (text "FFFFFFFF") e refl in
        let same =
          hex-injective (map (nth a.guid) order) (map (nth b.guid) order)
            (map-nth-bytes a.guid order h) (map-nth-bytes b.guid order k) same_hex in
        let at_ : (i : ℕ) → nth (map (nth a.guid) order) i ≡ nth (map (nth b.guid) order) i =
          λ i. ap (λ bs. nth bs i) same in
        Agree-eq 16 a.guid b.guid l m (
          at_ 3,
          (
            at_ 2,
            (
              at_ 1,
              (
                at_ 0,
                (
                  at_ 5,
                  (
                    at_ 4,
                    (
                      at_ 7,
                      (
                        at_ 6,
                        (
                          at_ 8,
                          (at_ 9, (at_ 10, (at_ 11, (at_ 12, (at_ 13, (at_ 14, (at_ 15, tt))))))),
                        ),
                      ),
                    ),
                  ),
                ),
              ),
            ),
          ),
        )
