-- ===== src/LruCache/Reads.antt =====
-- What a read finds after a write.
use amazon_ecs_agent.Common.{
  ℕ, ◌+◌, ◌≤◌, ◌≡◌, ◌∙◌, ap, refl, arith, leb, if◌then◌else◌, String, str_eq_iff, none, some, List,
  [], ◌∷◌, ◌++◌, length, lookup, insert, string_key, lookup-insert, lookup-remove, Bool-cases, inl,
  inr,
}
use amazon_ecs_agent.LruCache
use amazon_ecs_agent.LruCache.{
  Entry, LruCache, remove_from_evict_list, evict_stale, get_found, get_fresh, purge_front,
  purge_size,
}
use amazon_ecs_agent.LruCache.Keys.{
  count, count-remove, length-remove_from_evict_list, length-insert,
}
use amazon_ecs_agent.LruCache.Invariant.{IsWellFormed, same_string}

module _ {ℓ} {V : Type ℓ} where
  -- The key that was written last is at the back, and is purged only if it is the only one.
  lookup-purge_front :
      (key : String) (ks : List String) (c : LruCache V)
      → count key ks ≡ 0
      → 1 ≤ c.size
      → length c.cache ≡ length ks + 1
      → lookup key (purge_front (ks ++ key ∷ []) c).cache ≡ lookup key c.cache
  unfolding count
  lookup-purge_front key [] c absent one long = ground arith
  lookup-purge_front key (k ∷ ks) c absent one long =
      ground (arith, lookup-remove k key c.cache, str_eq_iff k key)

  ttl-purge_front : (ks : List String) (c : LruCache V) → (purge_front ks c).ttl ≡ c.ttl
  ttl-purge_front [] c = refl
  ttl-purge_front (k ∷ ks) c = ground arith

  value-get_found :
      (now : ℕ) (key : String) (e : Entry V) (c : LruCache V)
      → (get_found now key (some e) c).1
        ≡ (if leb (e.added + c.ttl) now then none else some e.value)
  unfolding evict_stale
  value-get_found now key e c = elim (Bool-cases (leb (e.added + c.ttl) now)) [
    | inl stale ↦ rw stale refl
    | inr fresh ↦ rw fresh refl
  ]

  -- In a cache of a positive size, a key that was just written is read back until its time to live
  -- is over, and not from then on: making room never throws out the key that was written.
  pub get-set :
      (now later : ℕ) (key : String) (value : V) (c : LruCache V)
      → IsWellFormed c
      → 1 ≤ c.size
      → (LruCache.get later key (LruCache.set now key value c)).1
        ≡ (if leb (now + c.ttl) later then none else some value)
  unfolding LruCache.get LruCache.set purge_size
  get-set now later key value c ((same, long), bound) one =
      let e : Entry V = record { value = value; added = now } in
      let removed = remove_from_evict_list key c.evict_list in
      let c1 : LruCache V = record c {
        cache = insert key e c.cache;
        evict_list = removed ++ key ∷ [];
      } in
      let ls = length-remove_from_evict_list key c.evict_list in
      let li = length-insert key e c.cache in
      let here = same key in
      let absent : count key removed ≡ 0 =
        ground (arith, same_string key, count-remove key key c.evict_list) in
      let long1 : length c1.cache ≡ length removed + 1 = ground arith in
      let found : lookup key (purge_front c1.evict_list c1).cache ≡ some e =
        lookup-purge_front key removed c1 absent one long1
        ∙ ground (arith, lookup-insert key key e c.cache, same_string key) in
      rw found (
        value-get_found later key e (purge_front c1.evict_list c1)
        ∙ ap (λ (t : ℕ). if leb (now + t) later then none else some value)
            (ttl-purge_front c1.evict_list c1))
