-- ===== src/Prelude/Strings.antt =====
-- C strings and byte blocks: a `gchar *` is the list of its bytes before the terminating 0.
use Prim.Native.Char.{code}
use Prim.Native.String.{String}
use Prim.Native.Nat.{ℕ, zero, suc}
use mathlib.Core.Path.{◌≡◌}
use mathlib.Core.Logic.{◌↔◌}
use mathlib.Core.Bool.{Bool, true, false, not, ◌&&◌}
use mathlib.Core.List.{List, [], ◌∷◌}
use native.Mathlib.Omega.{arith}
use chamge.Prelude.Tests.{◌==◌, if◌then◌else◌}

abbrev pub Text : Type 0
Text = List ℕ

-- A literal; every literal of the source is ASCII.
abbrev pub codes : String → Text
codes String.[] = []
codes (String.◌∷◌ c s) = code c ∷ codes s

-- `strcmp (a, b) == 0`.
unfoldable pub text_eq : Text → Text → Bool
text_eq [] [] = true
text_eq [] (y ∷ b) = false
text_eq (x ∷ a) [] = false
text_eq (x ∷ a) (y ∷ b) = x == y && text_eq a b

pub text_eq_iff : (a b : Text) → (text_eq a b ≡ true) ↔ (a ≡ b)
unfolding text_eq
text_eq_iff [] [] = ground arith
text_eq_iff [] (y ∷ b) = ground arith
text_eq_iff (x ∷ a) [] = ground arith
text_eq_iff (x ∷ a) (y ∷ b) = ground (arith, text_eq_iff a b)

module _ {ℓ} {A : Type ℓ} where
  abbrev pub length : List A → ℕ
  length [] = 0
  length (x ∷ xs) = suc (length xs)

  abbrev pub drop : ℕ → List A → List A
  drop zero xs = xs
  drop (suc n) [] = []
  drop (suc n) (x ∷ xs) = drop n xs

  abbrev pub take : ℕ → List A → List A
  take zero xs = []
  take (suc n) [] = []
  take (suc n) (x ∷ xs) = x ∷ take n xs

-- The part of a byte block before its first 0: what `g_strndup` copies.
unfoldable pub cstr : List ℕ → Text
cstr [] = []
cstr (x ∷ xs) = if x == 0 then [] else x ∷ cstr xs

-- `strlen (bytes) >= len` for a block of `len` bytes: none of them is 0.
unfoldable pub strlen_reaches : List ℕ → Bool
strlen_reaches [] = true
strlen_reaches (x ∷ xs) = not (x == 0) && strlen_reaches xs

-- `strncmp (a, b, len) == 0` for a C string and a block of `len` bytes.
unfoldable pub strncmp_eq : Text → List ℕ → Bool
strncmp_eq a [] = true
strncmp_eq [] (y ∷ b) = y == 0
strncmp_eq (x ∷ a) (y ∷ b) = x == y && strncmp_eq a b
