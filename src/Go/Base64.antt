-- ===== src/Go/Base64.antt =====
-- `base64.StdEncoding.EncodeToString`, with its padding, over bytes.
use podman_bootc.Base.{
  ℕ, ◌+◌, ◌-◌, ◌*◌, ◌/◌, ◌%◌, [], ◌∷◌, ◌≡◌, refl, Text, lit, ltb, ◌==◌, if◌then◌else◌,
}

-- The character of the alphabet for six bits.
abbrev pub char_of : ℕ → ℕ
char_of n =
    if ltb n 26
    then b'A' + n
    else if ltb n 52
    then b'a' + (n - 26)
    else if ltb n 62
    then b'0' + (n - 52)
    else if n == 62
    then b'+'
    else b'/'

unfoldable pub encode : Text → Text
encode [] = []
encode (a ∷ []) = char_of (a / 4) ∷ char_of (a % 4 * 16) ∷ b'=' ∷ b'=' ∷ []
encode (a ∷ b ∷ []) =
    char_of (a / 4) ∷ char_of (a % 4 * 16 + b / 16) ∷ char_of (b % 16 * 4) ∷ b'=' ∷ []
encode (a ∷ b ∷ c ∷ s) =
    char_of (a / 4)
    ∷ char_of (a % 4 * 16 + b / 16)
    ∷ char_of (b % 16 * 4 + c / 64)
    ∷ char_of (c % 64)
    ∷ encode s

encode_test : encode (lit "podman") ≡ lit "cG9kbWFu"
unfolding encode lit
encode_test = refl

padding_test : encode (lit "root:") ≡ lit "cm9vdDo="
unfolding encode lit
padding_test = refl
