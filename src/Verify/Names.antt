-- ===== src/Verify/Names.antt =====
-- Names that a policy declares.
use cil.Base.{
  ℕ, ◌+◌, ◌≤◌, ◌<◌, ◌≡◌, ◌↔◌, ◌⊎◌, inl, inr, refl, [], ◌∷◌, Bool, true, false, ◌&&◌, ◌||◌, not, leb,
  ◌==◌, if◌then◌else◌, Status, sepol_ok, sepol_err, length, arith, Bool-cases,
}
use cil.Text.{Text}

-- `isalpha` and `isalnum` of the C locale.
pub is_alpha : ℕ → Bool
is_alpha c = (leb b'a' c && leb c b'z') || (leb b'A' c && leb c b'Z')

pub is_alnum : ℕ → Bool
unfolding is_alpha
is_alnum c = is_alpha c || (leb b'0' c && leb c b'9')

abbrev pub cil_max_name_length : ℕ
cil_max_name_length = 2048

-- The loop over the characters after the first.
pub name_rest : Text → Status
unfolding is_alnum
name_rest [] = sepol_ok
name_rest (c ∷ cs) =
    if not (is_alnum c) && (not (c == b'_') && not (c == b'-')) then sepol_err else name_rest cs

-- `name[0]` of an empty name is the terminator, which is no letter.
pub name_start : Text → Status
unfolding is_alpha name_rest
name_start [] = sepol_err
name_start (c ∷ cs) = if not (is_alpha c) then sepol_err else name_rest cs

unfoldable pub verify_name : Text → Status
unfolding name_start
verify_name name = if leb cil_max_name_length (length name) then sepol_err else name_start name

abbrev pub IsLetter : ℕ → Type 0
IsLetter c = (b'a' ≤ c) × (c ≤ b'z') ⊎ (b'A' ≤ c) × (c ≤ b'Z')

abbrev pub IsNameChar : ℕ → Type 0
IsNameChar c = IsLetter c ⊎ (b'0' ≤ c) × (c ≤ b'9') ⊎ (c ≡ b'_') ⊎ (c ≡ b'-')

abbrev pub AllNameChars : Text → Type 0
AllNameChars [] = Unit
AllNameChars (c ∷ cs) = IsNameChar c × AllNameChars cs

abbrev pub IsName : Text → Type 0
IsName [] = ⊥
IsName (c ∷ cs) = IsLetter c × AllNameChars cs × (length cs + 1 < cil_max_name_length)

-- The test that refuses a character after the first.
abbrev bad_char : ℕ → Bool
bad_char c = not (is_alnum c) && (not (c == b'_') && not (c == b'-'))

bad_char-false : (c : ℕ) → bad_char c ≡ false → IsNameChar c
unfolding is_alnum
bad_char-false c h = ground arith

bad_char-true : (c : ℕ) → bad_char c ≡ true → IsNameChar c → ⊥
unfolding is_alnum
bad_char-true c h n = ground arith

is_alpha_iff : (c : ℕ) → (is_alpha c ≡ true) ↔ IsLetter c
unfolding is_alpha
is_alpha_iff c = ground arith

name_rest-AllNameChars : (cs : Text) → (name_rest cs ≡ sepol_ok) ↔ AllNameChars cs
unfolding name_rest
name_rest-AllNameChars [] = (λ _. tt, λ _. refl)
name_rest-AllNameChars (c ∷ cs) =
    let ih = name_rest-AllNameChars cs in
    elim (Bool-cases (bad_char c)) [
      | inl bad ↦ rw bad (λ h. cc, λ h. absurd (bad_char-true c bad h.0))
      | inr good ↦ rw good (λ h. (bad_char-false c good, ih.0 h), λ h. ih.1 h.1)
    ]

-- A name is accepted exactly when it has at most 2047 characters, the first is a letter, and each
-- of the others is a letter, a digit, an underscore or a dash.
pub verify_name-IsName : (name : Text) → (verify_name name ≡ sepol_ok) ↔ IsName name
unfolding verify_name
verify_name-IsName [] = ground arith
verify_name-IsName (c ∷ cs) =
    let ih = name_rest-AllNameChars cs in
    let alpha = is_alpha_iff c in
    elim (Bool-cases (leb cil_max_name_length (length (c ∷ cs)))) [
      | inl long ↦ rw long (λ h. cc, λ h. absurd (ground arith))
      | inr short ↦ elim (Bool-cases (is_alpha c)) [
        | inl letter ↦
            rw (short, letter) (λ h. (alpha.0 letter, ih.0 h, ground arith), λ h. ih.1 h.1)
        | inr other ↦ rw (short, other) (λ h. cc, λ h. absurd (ground (arith, alpha.1 h.0)))
      ]
    ]
