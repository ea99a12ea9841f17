-- ===== src/Cmd/Images/Sizes.antt =====
-- cmd/images.go: `Size`, which puts a space into the text of a size.
use mathlib.Core.List.{append_assoc}
use podman_bootc.Base.{
  ℕ, suc, true, false, ◌≡◌, refl, ap, [], ◌∷◌, ◌++◌, Text, length, take, drop, All, arith,
}
use podman_bootc.Cmd.Images.Columns.{is_digit, number_end, spaced}

abbrev pub IsUnitText : ℕ → Type 0
IsUnitText c = is_digit c ≡ false

number_end-unit : (unit : Text) → All IsUnitText unit → number_end unit ≡ 0
unfolding number_end
number_end-unit [] h = refl
number_end-unit (c ∷ s) h = rw (number_end-unit s h.1, h.0) refl

number_end-append :
    (front : Text) (d : ℕ) (unit : Text)
    → is_digit d ≡ true
    → All IsUnitText unit
    → number_end (front ++ (d ∷ unit)) ≡ suc (length front)
unfolding number_end
number_end-append [] d unit k h = rw (number_end-unit unit h, k) refl
number_end-append (c ∷ front) d unit k h = ground (arith, number_end-append front d unit k h)

take-past :
    (front : Text) (d : ℕ) (unit : Text)
    → take (suc (length front)) (front ++ (d ∷ unit)) ≡ front ++ (d ∷ [])
take-past [] d unit = refl
take-past (c ∷ front) d unit = ap (◌∷◌ c) (take-past front d unit)

drop-past :
    (front : Text) (d : ℕ) (unit : Text) → drop (suc (length front)) (front ++ (d ∷ unit)) ≡ unit
drop-past [] d unit = refl
drop-past (c ∷ front) d unit = drop-past front d unit

-- For every text that ends with a digit, the number, and every text without digits, the unit: what
-- `Size` makes of the one behind the other is the number, a space and the unit.
pub spaced-number :
    (front : Text) (d : ℕ) (unit : Text)
    → is_digit d ≡ true
    → All IsUnitText unit
    → spaced ((front ++ (d ∷ [])) ++ unit) ≡ (front ++ (d ∷ [])) ++ (b' ' ∷ unit)
unfolding spaced
spaced-number front d unit k h =
    rw
      (
        append_assoc front (d ∷ []) unit,
        number_end-append front d unit k h,
        take-past front d unit,
        drop-past front d unit,
      )
      refl
