-- ===== src/Prelude/Text.antt =====
-- Go's `strings` functions on native texts: they work on the code points. The Unicode case tables are
-- a parameter.
use Prim.Native.Nat.{ℕ, ◌+◌}
use Prim.Native.Char.{code}
use Prim.Native.String.{String}
use mathlib.Core.Bool.{Bool, true, false, ◌&&◌, ◌||◌}
use mathlib.Core.List.{List, [], ◌∷◌, map, reverse}
pub use text.Mathlib.Text.{◌==◌ as text_eq}
use dantegpu_core.Prelude.Tests.{◌==◌, if◌then◌else◌, leb}

abbrev pub codes : String → List ℕ
codes String.[] = []
codes (String.◌∷◌ c s) = code c ∷ codes s

abbrev pub codes_eq : List ℕ → List ℕ → Bool
codes_eq [] [] = true
codes_eq (x ∷ xs) (y ∷ ys) = (x == y) && codes_eq xs ys
codes_eq _ _ = false

abbrev pub has_prefix : List ℕ → List ℕ → Bool
has_prefix s [] = true
has_prefix [] (y ∷ ys) = false
has_prefix (x ∷ xs) (y ∷ ys) = (x == y) && has_prefix xs ys

-- `strings.Contains`
abbrev pub contains : List ℕ → List ℕ → Bool
contains [] t = has_prefix [] t
contains (x ∷ xs) t = has_prefix (x ∷ xs) t || contains xs t

-- The tables of Go's `unicode` package: the lower case of a code point, a representative
-- of its class under simple case folding, and the white space.
pub record Unicode : Type 0 where
  pub lower : ℕ → ℕ
  pub fold : ℕ → ℕ
  pub is_space : ℕ → Bool

module _ ⦃u : Unicode⦄ where
  -- `strings.ToLower`
  abbrev pub to_lower : String → List ℕ
  to_lower s = map u.lower (codes s)

  abbrev pub trim_left : List ℕ → List ℕ
  trim_left [] = []
  trim_left (c ∷ cs) = if u.is_space c then trim_left cs else c ∷ cs

  -- `strings.TrimSpace`
  abbrev pub trim_space : List ℕ → List ℕ
  trim_space cs = reverse (trim_left (reverse (trim_left cs)))

  -- `strings.EqualFold`
  abbrev pub equal_fold : String → String → Bool
  equal_fold s t = codes_eq (map u.fold (codes s)) (map u.fold (codes t))

-- The tables on the ASCII letters, for concrete inputs.
abbrev pub ascii_lower : ℕ → ℕ
ascii_lower c = if leb b'A' c && leb c b'Z' then c + 32 else c

abbrev pub ascii : Unicode
ascii = record {
  lower = ascii_lower;
  fold = ascii_lower;
  is_space = λ c. c == 32 || (leb 9 c && leb c 13);
}
