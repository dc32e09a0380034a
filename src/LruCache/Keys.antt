-- ===== src/LruCache/Keys.antt =====
-- How often a key stands in the evict list and in the map.
use amazon_ecs_agent.Common.{
  ℕ, suc, ◌+◌, ◌-◌, ◌==◌, ◌≡◌, refl, arith, true, false, any, if◌then◌else◌, String, str_eq,
  str_eq_iff, List, [], ◌∷◌, ◌++◌, length, insert, remove, string_key,
}
use amazon_ecs_agent.LruCache.{Entry, remove_from_evict_list}

unfoldable pub count : String → List String → ℕ
count key [] = 0
count key (k ∷ ks) = if str_eq k key then suc (count key ks) else count key ks

pub count-append :
    (key last : String) (ks : List String)
    → count key (ks ++ last ∷ []) ≡ (if str_eq last key then suc (count key ks) else count key ks)
unfolding count
count-append key last [] = refl
count-append key last (k ∷ ks) = ground (arith, count-append key last ks)

pub count-remove :
    (key removed : String) (ks : List String)
    → count key (remove_from_evict_list removed ks)
      ≡ (if str_eq removed key then count key ks - 1 else count key ks)
unfolding count remove_from_evict_list
count-remove key removed [] = ground arith
count-remove key removed (k ∷ ks) = ground (
  arith,
  str_eq_iff k removed,
  str_eq_iff k key,
  str_eq_iff removed key,
  count-remove key removed ks,
)

pub length-remove_from_evict_list :
    (key : String) (ks : List String)
    → length (remove_from_evict_list key ks) + (if count key ks == 0 then 0 else 1) ≡ length ks
unfolding count remove_from_evict_list
length-remove_from_evict_list key [] = refl
length-remove_from_evict_list key (k ∷ ks) = ground (arith, length-remove_from_evict_list key ks)

pub any-count :
    (key : String) (ks : List String)
    → any (λ k. str_eq k key) ks ≡ (if count key ks == 0 then false else true)
unfolding any count
any-count key [] = refl
any-count key (k ∷ ks) = ground (arith, any-count key ks)

module _ {ℓ} {V : Type ℓ} where
  unfoldable pub entries : String → List (String × Entry V) → ℕ
  entries key [] = 0
  entries key ((k, e) ∷ m) = if str_eq k key then suc (entries key m) else entries key m

  pub entries-insert :
      (key new : String) (e : Entry V) (m : List (String × Entry V))
      → entries key (insert new e m) ≡ (
          if str_eq new key
          then (if entries key m == 0 then 1 else entries key m)
          else entries key m)
  unfolding entries insert
  entries-insert key new e [] = refl
  entries-insert key new e ((k, f) ∷ m) =
      ground
        (arith, str_eq_iff k new, str_eq_iff k key, str_eq_iff new key, entries-insert key new e m)

  pub entries-remove :
      (key removed : String) (m : List (String × Entry V))
      → entries key (remove removed m) ≡ (if str_eq removed key then 0 else entries key m)
  unfolding entries remove
  entries-remove key removed [] = ground arith
  entries-remove key removed ((k, f) ∷ m) = ground (
    arith,
    str_eq_iff k removed,
    str_eq_iff k key,
    str_eq_iff removed key,
    entries-remove key removed m,
  )

  pub length-insert :
      (new : String) (e : Entry V) (m : List (String × Entry V))
      → length (insert new e m) ≡ (if entries new m == 0 then suc (length m) else length m)
  unfolding entries insert
  length-insert new e [] = refl
  length-insert new e ((k, f) ∷ m) = ground (arith, length-insert new e m)

  pub length-remove :
      (removed : String) (m : List (String × Entry V))
      → length (remove removed m) + entries removed m ≡ length m
  unfolding entries remove
  length-remove removed [] = refl
  length-remove removed ((k, f) ∷ m) = ground (arith, length-remove removed m)
