-- ===== src/LruCache/Invariant.antt =====
-- The map, the evict list and the bound of the cache.
use amazon_ecs_agent.Common.{
  ℕ, suc, ◌+◌, ◌≤◌, ◌≡◌, refl, arith, true, leb, if◌then◌else◌, String, str_eq, str_eq_iff, Option,
  none, some, List, [], ◌∷◌, ◌++◌, length, length-append, lookup, insert, string_key, Bool-cases,
  leb→le, ap, inl, inr,
}
use amazon_ecs_agent.LruCache
use amazon_ecs_agent.LruCache.{
  Entry, LruCache, new_lru_cache, remove_from_evict_list, update_accessed, evict_stale, get_found,
  get_fresh, purge_front, purge_size,
}
use amazon_ecs_agent.LruCache.Keys.{
  count, entries, count-append, count-remove, length-remove_from_evict_list, entries-insert,
  entries-remove, length-insert, length-remove, any-count,
}

pub same_string : (s : String) → str_eq s s ≡ true
same_string s = (str_eq_iff s s).1 refl

-- A call of one of the methods, with the time it reads.
pub data Call {ℓ} (V : Type ℓ) : Type ℓ where
  get_call : ℕ → String → Call V
  set_call : ℕ → String → V → Call V
  delete_call : String → Call V

module _ {ℓ} {V : Type ℓ} where
  -- Each key stands in the map as often as in the evict list, once at most; both have one length.
  abbrev pub Agrees : LruCache V → Type 0
  Agrees c =
      ((key : String) → (count key c.evict_list ≡ entries key c.cache) × (entries key c.cache ≤ 1))
      × (length c.cache ≡ length c.evict_list)

  -- The cache agrees with its evict list and holds no more than its size.
  abbrev pub IsWellFormed : LruCache V → Type 0
  IsWellFormed c = Agrees c × (length c.cache ≤ c.size)

  delete-IsWellFormed :
      (key : String) (c : LruCache V) → IsWellFormed c → IsWellFormed (LruCache.delete key c)
  unfolding LruCache.delete
  delete-IsWellFormed key c ((same, long), bound) =
      let here = same key in
      let ls = length-remove_from_evict_list key c.evict_list in
      let lm = length-remove key c.cache in
      (
        (
          λ k.
              let at_k = same k in
              ground (
                arith,
                count-remove k key c.evict_list,
                entries-remove k key c.cache,
                str_eq_iff key k,
              ),
          ground arith,
        ),
        ground arith,
      )

  update_accessed-IsWellFormed :
      (key : String) (c : LruCache V)
      → IsWellFormed c
      → IsWellFormed (record c { evict_list = update_accessed key c.evict_list })
  unfolding update_accessed
  update_accessed-IsWellFormed key c ((same, long), bound) =
      let ls = length-remove_from_evict_list key c.evict_list in
      let la = length-append (remove_from_evict_list key c.evict_list) (key ∷ []) in
      let some_key = any-count key c.evict_list in
      (
        (
          λ k.
              let at_k = same k in
              ground (
                arith,
                count-append k key (remove_from_evict_list key c.evict_list),
                count-remove k key c.evict_list,
                str_eq_iff key k,
              ),
          ground arith,
        ),
        ground arith,
      )

  get_fresh-IsWellFormed :
      (now : ℕ) (entry : Entry V) (key : String) (c : LruCache V)
      → IsWellFormed c
      → IsWellFormed (get_fresh entry key (evict_stale now entry key c)).0
  unfolding evict_stale LruCache.delete
  get_fresh-IsWellFormed now entry key c h = elim (Bool-cases (leb (entry.added + c.ttl) now)) [
    | inl stale ↦ rw stale (delete-IsWellFormed key c h)
    | inr fresh ↦ rw fresh (update_accessed-IsWellFormed key c h)
  ]

  get_found-IsWellFormed :
      (now : ℕ) (key : String) (o : Option (Entry V)) (c : LruCache V)
      → IsWellFormed c
      → IsWellFormed (get_found now key o c).0
  get_found-IsWellFormed now key none c h = h
  get_found-IsWellFormed now key (some entry) c h = get_fresh-IsWellFormed now entry key c h

  purge_front-IsWellFormed :
      (ks : List String) (c : LruCache V)
      → c.evict_list ≡ ks
      → Agrees c
      → length c.cache ≤ suc c.size
      → IsWellFormed (purge_front ks c)
  unfolding count
  purge_front-IsWellFormed [] c e (same, long) bound =
      let empty : length c.evict_list ≡ 0 = rw e refl in ((same, long), omega (arith, long, empty))
  purge_front-IsWellFormed (key ∷ ks) c e (same, long) bound =
      elim (Bool-cases (leb (length c.cache) c.size)) [
        | inl fits ↦ rw fits ((same, long), leb→le _ _ fits)
        | inr full ↦
            let long_ks : length c.evict_list ≡ suc (length ks) = ap length e in
            let at_key = same key in
            let key_here : count key c.evict_list ≡ suc (count key ks) = rw (e, same_string) refl in
            let lm = length-remove key c.cache in
            rw full (
              (
                λ k.
                    let at_k = same k in
                    let count_k : count k c.evict_list
                        ≡ (if str_eq key k then suc (count k ks) else count k ks) =
                      rw e refl in
                    ground (arith, entries-remove k key c.cache, str_eq_iff key k),
                omega arith,
              ),
              omega arith,
            )
      ]

  insert-Agrees :
      (key : String) (e : Entry V) (c : LruCache V)
      → Agrees c
      → Agrees (record c {
        cache = insert key e c.cache;
        evict_list = remove_from_evict_list key c.evict_list ++ key ∷ [];
      })
  insert-Agrees key e c (same, long) =
      let here = same key in
      let removed = remove_from_evict_list key c.evict_list in
      let ls = length-remove_from_evict_list key c.evict_list in
      let la = length-append removed (key ∷ []) in
      let li = length-insert key e c.cache in
      (
        λ k.
            let at_k = same k in
            ground (
              arith,
              count-append k key removed,
              count-remove k key c.evict_list,
              entries-insert k key e c.cache,
              str_eq_iff key k,
            ),
        ground arith,
      )

  set-IsWellFormed :
      (now : ℕ) (key : String) (value : V) (c : LruCache V)
      → IsWellFormed c
      → IsWellFormed (LruCache.set now key value c)
  unfolding LruCache.set purge_size
  set-IsWellFormed now key value c (agrees, bound) =
      let e : Entry V = record { value = value; added = now } in
      purge_front-IsWellFormed _ _ refl (insert-Agrees key e c agrees)
        (let li = length-insert key e c.cache in ground arith)

  abbrev pub apply : Call V → LruCache V → LruCache V
  apply (get_call now key) c = (LruCache.get now key c).0
  apply (set_call now key value) c = LruCache.set now key value c
  apply (delete_call key) c = LruCache.delete key c

  unfoldable pub run : List (Call V) → LruCache V → LruCache V
  run [] c = c
  run (call ∷ calls) c = run calls (apply call c)

  apply-IsWellFormed :
      (call : Call V) (c : LruCache V) → IsWellFormed c → IsWellFormed (apply call c)
  unfolding LruCache.get
  apply-IsWellFormed (get_call now key) c h =
      get_found-IsWellFormed now key (lookup key c.cache) c h
  apply-IsWellFormed (set_call now key value) c h = set-IsWellFormed now key value c h
  apply-IsWellFormed (delete_call key) c h = delete-IsWellFormed key c h

  run-step : (calls : List (Call V)) (c : LruCache V) → IsWellFormed c → IsWellFormed (run calls c)
  unfolding run
  run-step [] c h = h
  run-step (call ∷ calls) c h = run-step calls (apply call c) (apply-IsWellFormed call c h)

  -- After any calls on a new cache, its map and its evict list hold the same keys, each once, and no
  -- more of them than its size.
  pub run-IsWellFormed :
      (size ttl : ℕ) (calls : List (Call V)) → IsWellFormed (run calls (new_lru_cache size ttl))
  unfolding new_lru_cache count entries
  run-IsWellFormed size ttl calls =
      run-step calls (new_lru_cache size ttl) ((λ key. (refl, omega arith), refl), omega arith)
