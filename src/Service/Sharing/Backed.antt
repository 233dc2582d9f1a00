-- ===== src/Service/Sharing/Backed.antt =====
-- How old the namespaces may be that the resolver of internal/service/service.go answers.
use interest_memory.Prelude.{
  ◌≡◌, refl, ◌+◌, ◌<◌, ◌⊎◌, inl, inr, Option, none, some, List, [], ◌∷◌, Text, ltb, ltb→lt,
  Bool-cases, Among, Among-cons,
}
use interest_memory.Service.Sharing.{
  NamespaceCache, no_namespaces, namespace_cache_ttl, Lookup, or_nil, store_ids, resolve_all,
  resolve_in_turn,
}

-- The store's own answer to the call.
abbrev pub Gives : Lookup → List Text → Type 0
Gives l ids = (r : Option (List Text)) × (l.read ≡ some r) × (or_nil r ≡ ids)

-- An error is one of the store at this call; and other answers are the store's at this call, or at
-- an earlier one that stored them less than the cache's lifetime ago.
abbrev pub Backed : List Lookup → Lookup → Option (List Text) → Type 0
Backed past l none = l.read ≡ none
Backed past l (some ids) =
    Gives l ids
    ⊎ ((earlier : Lookup) × Among earlier past
        × Gives earlier ids
        × (l.now < earlier.stored_at + namespace_cache_ttl))

abbrev pub AllBacked : List Lookup → List Lookup → List (Option (List Text)) → Type 0
AllBacked past [] [] = Unit
AllBacked past [] (a ∷ answers) = ⊥
AllBacked past (l ∷ ls) [] = ⊥
AllBacked past (l ∷ ls) (a ∷ answers) = Backed past l a × AllBacked (l ∷ past) ls answers

-- What the cache holds is a past answer of the store.
abbrev Stored : List Lookup → NamespaceCache → Type 0
Stored past cache =
    (cache.cached ≡ none)
    ⊎ ((earlier : Lookup) × (ids : List Text) × Among earlier past
        × (earlier.read ≡ some (some ids))
        × (cache ≡ record { cached = some ids; expires = earlier.stored_at + namespace_cache_ttl }))

Stored-later :
    (past : List Lookup) (l : Lookup) (cache : NamespaceCache)
    → Stored past cache
    → Stored (l ∷ past) cache
Stored-later past l cache (inl empty) = inl empty
Stored-later past l cache (inr (earlier, ids, i, read, same)) =
    inr (earlier, ids, Among-cons earlier l past i, read, same)

store_ids-Backed :
    (past : List Lookup) (l : Lookup) (cache : NamespaceCache) (r : Option (Option (List Text)))
    → l.read ≡ r
    → Stored past cache
    → Backed past l (store_ids l.stored_at cache r).0
      × Stored (l ∷ past) (store_ids l.stored_at cache r).1
store_ids-Backed past l cache none e stored = (e, Stored-later past l cache stored)
store_ids-Backed past l cache (some none) e stored = (inl (none, e, refl), inl refl)
store_ids-Backed past l cache (some (some ids)) e stored =
    (inl (some ids, e, refl), inr (l, ids, ([], past, refl), e, refl))

-- The call that finds no cache to use, or one that holds what an earlier call stored.
resolve_all-Backed :
    (past : List Lookup) (l : Lookup) (cache : NamespaceCache)
    → Stored past cache
    → Backed past l (resolve_all l cache).0 × Stored (l ∷ past) (resolve_all l cache).1
unfolding resolve_all
resolve_all-Backed past l cache (inl empty) = rw empty (
    store_ids-Backed past l (record { cached = none; expires = cache.expires }) l.read refl
      (inl refl))
resolve_all-Backed past l cache (inr (earlier, ids, i, read, same)) =
    let stored : Stored past cache = inr (earlier, ids, i, read, same) in
    elim (Bool-cases (ltb l.now (earlier.stored_at + namespace_cache_ttl))) [
      | inl fresh ↦
          rw (same, fresh)
            (
              inr (earlier, i, (some ids, read, refl), ltb→lt _ _ fresh),
              Stored-later past l _ (inr (earlier, ids, i, read, refl)),
            )
      | inr old ↦
          rw (same, old)
            (store_ids-Backed past l
              (record { cached = some ids; expires = earlier.stored_at + namespace_cache_ttl })
              l.read refl (inr (earlier, ids, i, read, refl)))
    ]

resolve_in_turn-Backed :
    (past : List Lookup) (ls : List Lookup) (cache : NamespaceCache)
    → Stored past cache
    → AllBacked past ls (resolve_in_turn ls cache)
unfolding resolve_in_turn
resolve_in_turn-Backed past [] cache stored = tt
resolve_in_turn-Backed past (l ∷ ls) cache stored =
    let (backed, next) = resolve_all-Backed past l cache stored in
    (backed, resolve_in_turn-Backed (l ∷ past) ls (resolve_all l cache).1 next)

-- In the mode `all`, the resolver fails only where the store does at that call. Its other answers
-- are the store's at that call, or at an earlier call that stored them less than 30 seconds ago.
pub resolve_in_turn-AllBacked :
    (ls : List Lookup) → AllBacked [] ls (resolve_in_turn ls no_namespaces)
resolve_in_turn-AllBacked ls = resolve_in_turn-Backed [] ls no_namespaces (inl refl)
