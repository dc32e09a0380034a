-- ===== src/Common/Dicts.antt =====
-- Go's maps as association lists. `insert` is `m[k] = v`, `lookup` is `v, ok := m[k]` and `remove`
-- is `delete(m, k)`. Keys have a Boolean equality.
use Prim.Native.Nat.{ℕ}
use Prim.Native.String.{String}
use mathlib.Core.Path.{◌≡◌, refl}
use mathlib.Core.Logic.{◌↔◌}
use mathlib.Core.Bool.{Bool, true}
use mathlib.Core.Option.{Option, none, some}
use mathlib.Core.List.{List, [], ◌∷◌}
use native.Mathlib.Omega.{arith}
use amazon_ecs_agent.Common.Tests.{if◌then◌else◌, str_eq, str_eq_iff, ◌==◌}

pub record Key {ℓ} (A : Type ℓ) : Type ℓ where
  pub beq : A → A → Bool
  pub beq_iff : (a b : A) → (beq a b ≡ true) ↔ (a ≡ b)

pub nat_beq_iff : (a b : ℕ) → ((a == b) ≡ true) ↔ (a ≡ b)
nat_beq_iff a b = ground arith

instance abbrev pub nat_key : Key ℕ
nat_key = record { beq = ◌==◌; beq_iff = nat_beq_iff }

instance abbrev pub string_key : Key String
string_key = record { beq = str_eq; beq_iff = str_eq_iff }

module _ {ℓ κ} {K : Type ℓ} {V : Type κ} ⦃k : Key K⦄ where
  unfoldable pub lookup : K → List (K × V) → Option V
  lookup a [] = none
  lookup a ((b, v) ∷ m) = if k.beq b a then some v else lookup a m

  unfoldable pub insert : K → V → List (K × V) → List (K × V)
  insert a v [] = (a, v) ∷ []
  insert a v ((b, w) ∷ m) = if k.beq b a then (a, v) ∷ m else (b, w) ∷ insert a v m

  unfoldable pub remove : K → List (K × V) → List (K × V)
  remove a [] = []
  remove a ((b, w) ∷ m) = if k.beq b a then remove a m else (b, w) ∷ remove a m

  pub lookup-insert :
      (a c : K) (v : V) (m : List (K × V))
      → lookup c (insert a v m) ≡ (if k.beq a c then some v else lookup c m)
  unfolding lookup insert
  lookup-insert a c v [] = refl
  lookup-insert a c v ((b, w) ∷ m) =
      ground (arith, k.beq_iff a c, k.beq_iff b a, k.beq_iff b c, lookup-insert a c v m)

  pub lookup-remove :
      (a c : K) (m : List (K × V))
      → lookup c (remove a m) ≡ (if k.beq a c then none else lookup c m)
  unfolding lookup remove
  lookup-remove a c [] = ground arith
  lookup-remove a c ((b, w) ∷ m) =
      ground (arith, k.beq_iff a c, k.beq_iff b a, k.beq_iff b c, lookup-remove a c m)
