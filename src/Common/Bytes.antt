-- ===== src/Common/Bytes.antt =====
-- Go's byte slices and strings as lists of byte values, and the JSON string literals among them.
use Prim.Native.Nat.{ℕ, ◌+◌}
use Prim.Native.Char.{code}
use Prim.Native.String.{String}
use mathlib.Core.Path.{◌≡◌, refl}
use mathlib.Core.Logic.{◌↔◌}
use mathlib.Core.Bool.{Bool, true, false, ◌&&◌}
use mathlib.Core.List.{List, [], ◌∷◌, ◌++◌, map}
use native.Mathlib.Omega.{arith}
use amazon_ecs_agent.Common.Tests.{if◌then◌else◌, ◌==◌, leb}
use amazon_ecs_agent.Common.Dicts.{Key}

-- The bytes of an ASCII text.
abbrev pub codes : String → List ℕ
codes String.[] = []
codes (String.◌∷◌ c s) = code c ∷ codes s

abbrev pub bytes_eq : List ℕ → List ℕ → Bool
bytes_eq [] [] = true
bytes_eq (a ∷ s) (b ∷ t) = a == b && bytes_eq s t
bytes_eq _ _ = false

pub bytes_eq_iff : (s t : List ℕ) → (bytes_eq s t ≡ true) ↔ (s ≡ t)
bytes_eq_iff [] [] = ground arith
bytes_eq_iff [] (b ∷ t) = ground arith
bytes_eq_iff (a ∷ s) [] = ground arith
bytes_eq_iff (a ∷ s) (b ∷ t) = ground (arith, bytes_eq_iff s t)

instance abbrev pub bytes_key : Key (List ℕ)
bytes_key = record { beq = bytes_eq; beq_iff = bytes_eq_iff }

-- `strings.ToLower`, on the letters A to Z.
abbrev pub to_lower : List ℕ → List ℕ
to_lower = map (λ c. if leb b'A' c && leb c b'Z' then c + 32 else c)

abbrev pub quote : ℕ
quote = 34

-- What the test `b[0] != '"' || b[len(b)-1] != '"'` and the slice `b[1 : len(b)-1]` find.
-- `out_of_range` is Go's panic: on no byte at all, and on a lone quote, whose slice is `b[1:0]`.
pub data Literal : Type 0 where
  out_of_range unquoted : Literal
  quoted : List ℕ → Literal

-- Reads the rest of a literal up to a quote that is the last byte.
abbrev pub close_literal : List ℕ → Literal
close_literal [] = unquoted
close_literal (c ∷ []) = if c == quote then quoted [] else unquoted
close_literal (c ∷ d ∷ rest) = elim (close_literal (d ∷ rest)) [
  | quoted s ↦ quoted (c ∷ s)
  | other ↦ other
]

unfoldable pub string_literal : List ℕ → Literal
string_literal [] = out_of_range
string_literal (c ∷ []) = if c == quote then out_of_range else unquoted
string_literal (c ∷ d ∷ rest) = if c == quote then close_literal (d ∷ rest) else unquoted

-- `"` + s + `"`
abbrev pub quoted_bytes : List ℕ → List ℕ
quoted_bytes s = quote ∷ s ++ quote ∷ []

close_literal-append : (s : List ℕ) → close_literal (s ++ quote ∷ []) ≡ quoted s
close_literal-append [] = refl
close_literal-append (c ∷ []) = refl
close_literal-append (c ∷ d ∷ s) = ground (arith, close_literal-append (d ∷ s))

-- A text between quotes is read back.
pub string_literal-quoted_bytes : (s : List ℕ) → string_literal (quoted_bytes s) ≡ quoted s
unfolding string_literal
string_literal-quoted_bytes [] = refl
string_literal-quoted_bytes (c ∷ s) = close_literal-append (c ∷ s)
