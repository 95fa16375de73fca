-- ===== src/Plates/Format.antt =====
-- The two format tests and the normal form of a plate text.
use lpr_refactored.Prelude.{
  ℕ, suc, ◌≡◌, refl, ap, true, false, ◌&&◌, ◌||◌, [], ◌∷◌, arith, length, All, all, drop, get_or,
  Text, leb, ◌==◌,
}
use lpr_refactored.Plates.{
  is_digit, is_letter, normalize_char, normalize_plate_text, is_iranian_structure, check_plate8,
}

normalize_char_idem : (c : ℕ) → normalize_char (normalize_char c) ≡ normalize_char c
unfolding normalize_char
normalize_char_idem c = ground arith

-- No Latin capital but D and S.
abbrev pub Lowered : ℕ → Type 0
Lowered c = (leb b'A' c && leb c b'Z') ≡ (c == b'D' || c == b'S')

normalize_char-Lowered : (c : ℕ) → Lowered (normalize_char c)
unfolding normalize_char
normalize_char-Lowered c = ground arith

-- Normalising a plate text keeps its length, leaves no capital letter but D and S, and changes
-- nothing the second time.
pub normalize_plate_text_lem :
    (t : Text)
    → (length (normalize_plate_text t) ≡ length t)
      × All Lowered (normalize_plate_text t)
      × (normalize_plate_text (normalize_plate_text t) ≡ normalize_plate_text t)
unfolding normalize_plate_text
normalize_plate_text_lem [] = (refl, tt, refl)
normalize_plate_text_lem (c ∷ t) =
    let ih = normalize_plate_text_lem t in
    (ap suc ih.0, (normalize_char-Lowered c, ih.1), cc (normalize_char_idem c, ih.2))

normalize_digit : (c : ℕ) → is_digit c ≡ true → normalize_char c ≡ c
unfolding normalize_char
normalize_digit c h = ground arith

normalize_letter : (c : ℕ) → is_letter c ≡ true → normalize_char c ≡ c
unfolding normalize_char
normalize_letter c h = ground arith

letter_no_digit : (c : ℕ) → is_letter c ≡ true → is_digit c ≡ false
letter_no_digit c h = ground arith

-- The eight characters of an Iranian plate.
iranian_characters :
    (t : Text)
    → is_iranian_structure t ≡ true
    → (length t ≡ 8)
      × (is_digit (get_or t 0 0) ≡ true)
      × (is_digit (get_or t 1 0) ≡ true)
      × (is_letter (get_or t 2 0) ≡ true)
      × (all is_digit (drop 3 t) ≡ true)
unfolding is_iranian_structure
iranian_characters t h = ground arith

normalize_digits : (t : Text) → all is_digit t ≡ true → normalize_plate_text t ≡ t
unfolding normalize_plate_text
normalize_digits [] h = refl
normalize_digits (c ∷ t) h = ground (arith, normalize_digit c, normalize_digits t)

-- A text labelled as an Iranian plate passes the validator, and normalising it changes nothing; so
-- the message for it is never labelled Iranian and invalid at once.
pub is_iranian_structure_valid :
    (t : Text)
    → is_iranian_structure t ≡ true
    → (check_plate8 t ≡ true) × (normalize_plate_text t ≡ t)
unfolding check_plate8 normalize_plate_text
is_iranian_structure_valid [] h = absurd (omega (arith, iranian_characters [] h))
is_iranian_structure_valid (a ∷ []) h = absurd (omega (arith, iranian_characters (a ∷ []) h))
is_iranian_structure_valid (a ∷ b ∷ []) h =
    absurd (omega (arith, iranian_characters (a ∷ b ∷ []) h))
is_iranian_structure_valid (a ∷ b ∷ c ∷ t) h =
    let facts = iranian_characters (a ∷ b ∷ c ∷ t) h in
    ground (
      arith,
      facts,
      normalize_digit a,
      normalize_digit b,
      normalize_letter c,
      letter_no_digit c,
      normalize_digits t,
    )
