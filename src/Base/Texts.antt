-- ===== src/Base/Texts.antt =====
-- Go strings: sequences of bytes. `lit` is a literal of the source; it stays shut in proofs.
use Prim.Native.Char.{code}
use Prim.Native.String.{String}
use Prim.Native.Nat.{ℕ, ◌≤◌}
use mathlib.Core.Path.{◌≡◌, refl}
use mathlib.Core.Logic.{◌↔◌}
use mathlib.Core.Bool.{Bool, true, false, ◌&&◌}
use mathlib.Core.Option.{Option, none, some}
use mathlib.Core.List.{List, [], ◌∷◌, ◌++◌}
use native.Mathlib.Omega.{arith}
use podman_bootc.Base.Tests.{◌==◌, is_some, if◌then◌else◌, leb}
use podman_bootc.Base.Lists.{length, take}

abbrev pub Text : Type 0
Text = List ℕ

-- The code points of a literal; its bytes where the literal is ASCII, as every one here is.
codes : String → Text
codes String.[] = []
codes (String.◌∷◌ c s) = code c ∷ codes s

unfoldable pub lit : String → Text
unfolding codes
lit s = codes s

-- `a == b` on Go strings.
unfoldable pub text_eq : Text → Text → Bool
text_eq [] [] = true
text_eq [] (b ∷ bs) = false
text_eq (a ∷ as') [] = false
text_eq (a ∷ as') (b ∷ bs) = (a == b) && text_eq as' bs

-- `s == ""`
abbrev pub is_empty : Text → Bool
is_empty [] = true
is_empty (c ∷ s) = false

-- `strings.HasPrefix(s, p)`: the arguments in Go's order.
unfoldable pub has_prefix : Text → Text → Bool
has_prefix s [] = true
has_prefix [] (p ∷ ps) = false
has_prefix (c ∷ s) (p ∷ ps) = (c == p) && has_prefix s ps

-- `s[:n]`, which panics where `n` is past the end.
unfoldable pub slice_to : ℕ → Text → Option Text
slice_to n s = if leb n (length s) then some (take n s) else none

pub text_eq_iff : (a b : Text) → (text_eq a b ≡ true) ↔ (a ≡ b)
unfolding text_eq
text_eq_iff [] [] = ground arith
text_eq_iff [] (b ∷ bs) = ground arith
text_eq_iff (a ∷ as') [] = ground arith
text_eq_iff (a ∷ as') (b ∷ bs) = ground (arith, text_eq_iff as' bs)

pub text_eq_refl : (a : Text) → text_eq a a ≡ true
text_eq_refl a = (text_eq_iff a a).1 refl

-- A text begins with `p` exactly when it is `p` and a rest.
pub has_prefix_sound : (s p : Text) → has_prefix s p ≡ true → (r : Text) × (s ≡ p ++ r)
unfolding has_prefix
has_prefix_sound s [] h = (s, refl)
has_prefix_sound [] (p ∷ ps) h = absurd (ground arith)
has_prefix_sound (c ∷ s) (p ∷ ps) h =
    let (r, e) = has_prefix_sound s ps (ground arith) in (r, ground arith)

pub has_prefix-append : (p r : Text) → has_prefix (p ++ r) p ≡ true
unfolding has_prefix
has_prefix-append [] r = refl
has_prefix-append (c ∷ p) r = ground (arith, has_prefix-append p r)

pub slice_to-long : (n : ℕ) (s : Text) → n ≤ length s → is_some (slice_to n s) ≡ true
unfolding slice_to
slice_to-long n s h = ground arith

pub slice_to-eq_some : (n : ℕ) (s : Text) → n ≤ length s → slice_to n s ≡ some (take n s)
unfolding slice_to
slice_to-eq_some n s h = ground arith
