-- ===== src/Version/Order.antt =====
-- The order of versions: total, and equal only for versions that differ in nothing but metadata.
use amazon_ecs_agent.Common.{
  ℕ, zero, suc, ◌≡◌, ap₂, refl, ◌↔◌, arith, true, false, List, [], ◌∷◌, ℤ,
}
use amazon_ecs_agent.Version.{Semver, bytes_less, compare_pre_release, compare_semver}

bytes_less_irrefl : (a : List ℕ) → bytes_less a a ≡ false
unfolding bytes_less
bytes_less_irrefl [] = refl
bytes_less_irrefl (x ∷ a) = ground (arith, bytes_less_irrefl a)

bytes_less_asym : (a b : List ℕ) → bytes_less a b ≡ true → bytes_less b a ≡ false
unfolding bytes_less
bytes_less_asym a [] h = absurd (ground arith)
bytes_less_asym [] (y ∷ b) h = refl
bytes_less_asym (x ∷ a) (y ∷ b) h = ground (arith, bytes_less_asym a b)

bytes_less_trans :
    (a b c : List ℕ) → bytes_less a b ≡ true → bytes_less b c ≡ true → bytes_less a c ≡ true
unfolding bytes_less
bytes_less_trans a [] c h k = absurd (ground arith)
bytes_less_trans a (y ∷ b) [] h k = absurd (ground arith)
bytes_less_trans [] (y ∷ b) (z ∷ c) h k = refl
bytes_less_trans (x ∷ a) (y ∷ b) (z ∷ c) h k = ground (arith, bytes_less_trans a b c)

bytes_less_total : (a b : List ℕ) → bytes_less a b ≡ false → bytes_less b a ≡ false → a ≡ b
unfolding bytes_less
bytes_less_total [] [] h k = refl
bytes_less_total [] (y ∷ b) h k = absurd (ground arith)
bytes_less_total (x ∷ a) [] h k = absurd (ground arith)
bytes_less_total (x ∷ a) (y ∷ b) h k =
    let same : x ≡ y = ground arith in
    ap₂ ◌∷◌ same (bytes_less_total a b (ground arith) (ground arith))

abbrev pub opposite : ℤ → ℤ
opposite (ℤ.pos zero) = ℤ.pos zero
opposite (ℤ.pos (suc n)) = ℤ.negsuc n
opposite (ℤ.negsuc n) = ℤ.pos (suc n)

opposite_pre_release : (a b : List ℕ) → compare_pre_release b a ≡ opposite (compare_pre_release a b)
unfolding compare_pre_release
opposite_pre_release [] [] = refl
opposite_pre_release (x ∷ a) [] = refl
opposite_pre_release [] (y ∷ b) = refl
opposite_pre_release (x ∷ a) (y ∷ b) = ground (arith, bytes_less_asym (x ∷ a) (y ∷ b))

-- Two versions that are swapped compare the other way round.
pub compare_semver-opposite :
    (lhs rhs : Semver) → compare_semver rhs lhs ≡ opposite (compare_semver lhs rhs)
unfolding compare_semver
compare_semver-opposite lhs rhs =
    ground (arith, opposite_pre_release lhs.pre_release_version rhs.pre_release_version)

equal_pre_release : (a b : List ℕ) → (compare_pre_release a b ≡ ℤ.pos 0) ↔ (a ≡ b)
unfolding compare_pre_release
equal_pre_release [] [] = (λ h. refl, λ h. refl)
equal_pre_release (x ∷ a) [] = ground arith
equal_pre_release [] (y ∷ b) = ground arith
equal_pre_release (x ∷ a) (y ∷ b) = (
  λ h. bytes_less_total (x ∷ a) (y ∷ b) (ground arith) (ground arith),
  λ h. rw (h, bytes_less_irrefl) refl,
)

-- Two versions compare as equal exactly when their three numbers and their pre-release versions are.
pub compare_semver_iff :
    (lhs rhs : Semver)
    → (compare_semver lhs rhs ≡ ℤ.pos 0) ↔ (
        (lhs.major ≡ rhs.major)
        × (lhs.minor ≡ rhs.minor)
        × (lhs.patch ≡ rhs.patch)
        × (lhs.pre_release_version ≡ rhs.pre_release_version))
unfolding compare_semver
compare_semver_iff lhs rhs =
    ground (arith, equal_pre_release lhs.pre_release_version rhs.pre_release_version)

trans_pre_release :
    (a b c : List ℕ)
    → compare_pre_release a b ≡ ℤ.negsuc 0
    → compare_pre_release b c ≡ ℤ.negsuc 0
    → compare_pre_release a c ≡ ℤ.negsuc 0
unfolding compare_pre_release
trans_pre_release a [] [] h k = absurd (ground arith)
trans_pre_release a [] (z ∷ c) h k = absurd (ground arith)
trans_pre_release [] (y ∷ b) c h k = absurd (ground arith)
trans_pre_release (x ∷ a) (y ∷ b) [] h k = refl
trans_pre_release (x ∷ a) (y ∷ b) (z ∷ c) h k =
    ground (arith, bytes_less_trans (x ∷ a) (y ∷ b) (z ∷ c))

-- A version that is below one that is below a third is below the third.
pub compare_semver_trans :
    (a b c : Semver)
    → compare_semver a b ≡ ℤ.negsuc 0
    → compare_semver b c ≡ ℤ.negsuc 0
    → compare_semver a c ≡ ℤ.negsuc 0
unfolding compare_semver
compare_semver_trans a b c h k = ground (
  arith,
  trans_pre_release a.pre_release_version b.pre_release_version c.pre_release_version,
  equal_pre_release a.pre_release_version b.pre_release_version,
)
