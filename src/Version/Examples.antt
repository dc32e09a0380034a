-- ===== src/Version/Examples.antt =====
-- Versions with and without a pre-release part.
use amazon_ecs_agent.Common.{ℕ, ◌≡◌, ◌↔◌, refl, List, [], ℤ, codes}
use amazon_ecs_agent.Version.{Semver, compare_semver, compare_pre_release, bytes_less}
use amazon_ecs_agent.Version.Order.{compare_semver_iff}

abbrev version : ℕ → ℕ → ℕ → List ℕ → Semver
version major minor patch pre_release_version = record {
  major = major;
  minor = minor;
  patch = patch;
  pre_release_version = pre_release_version;
  build_metadata = [];
}

abbrev alpha : Semver
alpha = version 1 2 0 (codes "alpha")

abbrev beta : Semver
beta = version 1 2 0 (codes "beta")

abbrev release : Semver
release = version 1 2 0 []

alpha_below : compare_semver alpha beta ≡ ℤ.negsuc 0
unfolding compare_semver compare_pre_release bytes_less
alpha_below = refl

beta_below : compare_semver beta release ≡ ℤ.negsuc 0
unfolding compare_semver compare_pre_release
beta_below = refl

compare_semver_iff_example : (compare_semver alpha beta ≡ ℤ.pos 0) ↔ (
    (alpha.major ≡ beta.major)
    × (alpha.minor ≡ beta.minor)
    × (alpha.patch ≡ beta.patch)
    × (alpha.pre_release_version ≡ beta.pre_release_version))
compare_semver_iff_example = compare_semver_iff alpha beta
