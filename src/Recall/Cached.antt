-- ===== src/Recall/Cached.antt =====
-- What a second request of Recall in internal/recall/recall.go finds in the cache.
use interest_memory.Prelude.{
  ℕ, zero, suc, ◌+◌, ◌<◌, ◌≡◌, refl, ap, ◌∙◌, positive_or, false, none, some, [], ◌∷◌, text_eq,
  ◌==◌, Text, trim_space, Float, arith, take, delete, beq_refl, lt→ltb,
}
use interest_memory.Cache
use interest_memory.Cache.{Cache, room, get-cap}
use interest_memory.Cache.Valid.{IsValid, get-IsValid, set-IsValid}
use interest_memory.Cache.Refines.{view, recency_get, get-recency_get, set-take}
use interest_memory.Recall.{Options}
use interest_memory.Recall.Context.{
  Format, CacheEntry, recall_cache_ttl, Service, fresh_context, unexpired, with_default,
  recall_cache_key, recall,
}

module _ {V : Type 0} where
  -- A pair that was just set is found, where the cache has room.
  get_after_set :
      (c : Cache Text V) (k : Text) (v : V)
      → IsValid c
      → 0 < room c.cap
      → (Cache.get (Cache.set c k v) k).1 ≡ some v
  get_after_set c k v valid fits =
      ap (λ u. u.1) (get-recency_get (Cache.set c k v) k (set-IsValid c k v valid))
      ∙ ap (λ l. (recency_get k l).1) (set-take c k v valid)
      ∙ front (room c.cap) fits
    where
      front : (n : ℕ) → 0 < n → (recency_get k (take n ((k, v) ∷ delete k (view c)))).1 ≡ some v
      front zero h = absurd (omega arith)
      front (suc n) h = ground (arith, beq_refl k)

module _ (fl : Float) (narrow : fl.F → fl.F) (half : fl.F) (fm : Format fl.F) where
  open fl use {F}

  recall_stores :
      (sv : Service F) (c : Cache Text CacheEntry) (now stored_at : ℕ) (agent query : Text)
      (opts : Options F) (text : Text)
      → trim_space query == [] ≡ false
      → unexpired now (Cache.get c (recall_cache_key fl fm agent query (with_default opts))).1
        ≡ none
      → fresh_context fl narrow half fm sv now agent query
          (with_default opts)
          (positive_or 8 opts.top_k)
        ≡ some (some text)
      → recall fl narrow half fm sv now stored_at c agent query opts ≡ (
        Cache.set
            (Cache.get c (recall_cache_key fl fm agent query (with_default opts))).0
            (recall_cache_key fl fm agent query (with_default opts))
            (record { text = text; expires = stored_at + recall_cache_ttl }),
        some text,
      )
  unfolding recall
  recall_stores sv c now stored_at agent query opts text asked cold fresh =
      rw (asked, cold, fresh) refl

  recall_hit :
      (sv : Service F) (c : Cache Text CacheEntry) (now stored_at : ℕ) (agent query : Text)
      (opts : Options F) (e : CacheEntry)
      → trim_space query == [] ≡ false
      → (Cache.get c (recall_cache_key fl fm agent query (with_default opts))).1 ≡ some e
      → now < e.expires
      → (recall fl narrow half fm sv now stored_at c agent query opts).1 ≡ some e.text
  unfolding recall
  recall_hit sv c now stored_at agent query opts e asked found soon =
      rw (asked, found, lt→ltb now e.expires soon) refl

  -- After a request with a valid cache that had to compute its context, from hits that it found,
  -- the same request less than 30 seconds later returns the same text, whatever its namespaces,
  -- searches, store and grader have come to.
  pub recall-recall :
      (sv later : Service F) (c : Cache Text CacheEntry) (now stored_at again stored_again : ℕ)
      (agent query : Text) (opts : Options F) (text : Text)
      → IsValid c
      → 0 < room c.cap
      → trim_space query == [] ≡ false
      → unexpired now (Cache.get c (recall_cache_key fl fm agent query (with_default opts))).1
        ≡ none
      → fresh_context fl narrow half fm sv now agent query
          (with_default opts)
          (positive_or 8 opts.top_k)
        ≡ some (some text)
      → again < stored_at + recall_cache_ttl
      → ((recall fl narrow half fm sv now stored_at c agent query opts).1 ≡ some text)
        × ((recall fl narrow half fm later again stored_again
              (recall fl narrow half fm sv now stored_at c agent query opts).0
              agent
              query
              opts).1
            ≡ some text)
  recall-recall sv later c now stored_at again stored_again agent query opts text valid fits asked
        cold fresh soon =
      let key : Text = recall_cache_key fl fm agent query (with_default opts) in
      let entry : CacheEntry = record { text = text; expires = stored_at + recall_cache_ttl } in
      let stores = recall_stores sv c now stored_at agent query opts text asked cold fresh in
      let kept : (Cache.get (Cache.set (Cache.get c key).0 key entry) key).1 ≡ some entry =
        get_after_set (Cache.get c key).0 key entry (get-IsValid c key valid)
          (omega (arith, fits, ap room (get-cap c key))) in
      (
        ap (λ u. u.1) stores,
        ap (λ u. (recall fl narrow half fm later again stored_again u.0 agent query opts).1) stores
            ∙ recall_hit later _ again stored_again agent query opts entry asked kept soon,
      )
