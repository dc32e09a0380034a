-- ===== src/Version.antt =====
-- agent/utils/compare_versions.go: how two semantic versions compare. Their numbers are not negative,
-- since a version is cut at its first `-` before its numbers are read. Texts are lists of bytes.
use amazon_ecs_agent.Common.{ℕ, ◌==◌, ltb, ◌&&◌, Bool, true, false, if◌then◌else◌, List, [], ◌∷◌, ℤ}
pub mod Order
mod Examples

pub record Semver : Type 0 where
  pub major : ℕ
  pub minor : ℕ
  pub patch : ℕ
  pub pre_release_version : List ℕ
  pub build_metadata : List ℕ

-- Go's `<` on strings.
unfoldable pub bytes_less : List ℕ → List ℕ → Bool
bytes_less a [] = false
bytes_less [] (y ∷ b) = true
bytes_less (x ∷ a) (y ∷ b) =
    let rest = bytes_less a b in if ltb x y then true else if ltb y x then false else rest

-- The comparison of two pre-release versions, where the empty one comes last.
unfoldable pub compare_pre_release : List ℕ → List ℕ → ℤ
compare_pre_release [] [] = ℤ.pos 0
compare_pre_release (x ∷ a) [] = ℤ.negsuc 0
compare_pre_release [] (y ∷ b) = ℤ.pos 1
compare_pre_release (x ∷ a) (y ∷ b) =
    if bytes_less (x ∷ a) (y ∷ b)
    then ℤ.negsuc 0
    else if bytes_less (y ∷ b) (x ∷ a)
    then ℤ.pos 1
    else ℤ.pos 0

unfoldable pub compare_semver : Semver → Semver → ℤ
compare_semver lhs rhs =
    if ltb lhs.major rhs.major
    then ℤ.negsuc 0
    else if ltb rhs.major lhs.major
    then ℤ.pos 1
    else if ltb lhs.minor rhs.minor
    then ℤ.negsuc 0
    else if ltb rhs.minor lhs.minor
    then ℤ.pos 1
    else if ltb lhs.patch rhs.patch
    then ℤ.negsuc 0
    else if ltb rhs.patch lhs.patch
    then ℤ.pos 1
    else compare_pre_release lhs.pre_release_version rhs.pre_release_version
