-- ===== src/LruCache.antt =====
-- agent/async/lru_cache.go: a cache of bounded size whose entries expire. The lock makes each method
-- one step; `now` is the time that the method reads, and the time to live is not negative.
use amazon_ecs_agent.Common.{
  ℕ, ◌+◌, leb, Bool, true, false, any, if◌then◌else◌, String, str_eq, Option, none, some, List, [],
  ◌∷◌, ◌++◌, length, lookup, insert, remove, string_key,
}
pub mod Keys
pub mod Invariant
pub mod Reads
mod Examples

pub record Entry {ℓ} (V : Type ℓ) : Type ℓ where
  pub value : V
  pub added : ℕ

-- The keys of the evict list stand from front to back.
pub record LruCache {ℓ} (V : Type ℓ) : Type ℓ where
  pub cache : List (String × Entry V)
  pub evict_list : List String
  pub size : ℕ
  pub ttl : ℕ

-- `removeFromEvictList`: the first element that holds the key.
unfoldable pub remove_from_evict_list : String → List String → List String
remove_from_evict_list key [] = []
remove_from_evict_list key (k ∷ ks) = if str_eq k key then ks else k ∷ remove_from_evict_list key ks

-- `updateAccessed`: the first element that holds the key moves to the back.
unfoldable pub update_accessed : String → List String → List String
unfolding any
update_accessed key ks =
    if any (λ k. str_eq k key) ks then remove_from_evict_list key ks ++ key ∷ [] else ks

module _ {ℓ} {V : Type ℓ} where
  unfoldable pub new_lru_cache : ℕ → ℕ → LruCache V
  new_lru_cache size ttl = record { cache = []; evict_list = []; size = size; ttl = ttl }

  -- The Boolean tells whether the entry is still good.
  unfoldable pub evict_stale : ℕ → Entry V → String → LruCache V → LruCache V × Bool
  evict_stale now entry key c =
      if leb (entry.added + c.ttl) now
      then (
        record c {
          evict_list = remove_from_evict_list key c.evict_list;
          cache = remove key c.cache;
        },
        false,
      )
      else (c, true)

  abbrev pub get_fresh : Entry V → String → LruCache V × Bool → LruCache V × Option V
  get_fresh entry key (c, false) = (c, none)
  get_fresh entry key (c, true) =
      (record c { evict_list = update_accessed key c.evict_list }, some entry.value)

  abbrev pub get_found : ℕ → String → Option (Entry V) → LruCache V → LruCache V × Option V
  get_found now key none c = (c, none)
  get_found now key (some entry) c = get_fresh entry key (evict_stale now entry key c)

  unfoldable pub get : ℕ → String → LruCache V → LruCache V × Option V
  get now key c = get_found now key (lookup key c.cache) c

  -- `Remove` of `container/list` clears the element's links, so `elem.Next()` is nil after it: the
  -- loop ends after one key.
  abbrev pub purge_front : List String → LruCache V → LruCache V
  purge_front [] c = c
  purge_front (k ∷ ks) c =
      if leb (length c.cache) c.size
      then c
      else record c { evict_list = ks; cache = remove k c.cache }

  unfoldable pub purge_size : LruCache V → LruCache V
  purge_size c = purge_front c.evict_list c

  unfoldable pub set : ℕ → String → V → LruCache V → LruCache V
  unfolding purge_size
  set now key value c = purge_size (record c {
    cache = insert key (record { value = value; added = now }) c.cache;
    evict_list = remove_from_evict_list key c.evict_list ++ key ∷ [];
  })

  unfoldable pub delete : String → LruCache V → LruCache V
  delete key c = record c {
    evict_list = remove_from_evict_list key c.evict_list;
    cache = remove key c.cache;
  }
