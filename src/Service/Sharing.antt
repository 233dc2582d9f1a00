-- ===== src/Service/Sharing.antt =====
-- internal/service/service.go, buildNamespaceResolver, and internal/service/kanban.go. A time is a number of
-- seconds, and nil is `none`. The calls of a resolver are taken one after the other.
pub mod Backed
pub mod Boards
use interest_memory.Prelude.{
  ℕ, ◌+◌, String, string_eq, text_eq, Bool, true, false, not, ◌||◌, ◌&&◌, Option, none, some, List,
  [], ◌∷◌, ◌==◌, if◌then◌else◌, ltb, Text, trim_space,
}

-- The variables that the resolver of the mode `all` closes over.
pub record NamespaceCache : Type 0 where
  pub cached : Option (List Text)
  pub expires : ℕ

abbrev pub no_namespaces : NamespaceCache
no_namespaces = record { cached = none; expires = 0 }

abbrev pub namespace_cache_ttl : ℕ
namespace_cache_ttl = 30

-- A call of the resolver: the clock at its start and when it stores, and what ListAgentIDs answers,
-- of which the outer `none` is an error.
pub record Lookup : Type 0 where
  pub now : ℕ
  pub stored_at : ℕ
  pub read : Option (Option (List Text))

abbrev pub or_nil : Option (List Text) → List Text
or_nil none = []
or_nil (some ids) = ids

abbrev pub unexpired_ids : ℕ → NamespaceCache → Option (List Text)
unexpired_ids now cache = elim cache.cached [
  | none ↦ none
  | some ids ↦ if ltb now cache.expires then some ids else none
]

abbrev pub store_ids :
    ℕ → NamespaceCache → Option (Option (List Text)) → Option (List Text) × NamespaceCache
store_ids stored_at cache none = (none, cache)
store_ids stored_at cache (some ids) =
    (some (or_nil ids), record { cached = ids; expires = stored_at + namespace_cache_ttl })

abbrev pub ids_or_read :
    Option (List Text) → Lookup → NamespaceCache → Option (List Text) × NamespaceCache
ids_or_read (some ids) l cache = (some ids, cache)
ids_or_read none l cache = store_ids l.stored_at cache l.read

unfoldable pub resolve_all : Lookup → NamespaceCache → Option (List Text) × NamespaceCache
resolve_all l cache = ids_or_read (unexpired_ids l.now cache) l cache

-- The answers of calls in turn.
unfoldable pub resolve_in_turn : List Lookup → NamespaceCache → List (Option (List Text))
resolve_in_turn [] cache = []
resolve_in_turn (l ∷ ls) cache =
    (resolve_all l cache).0 ∷ resolve_in_turn ls (resolve_all l cache).1

-- The resolver of a mode; a name without an entry in the map sees no other namespace.
unfoldable pub build_namespace_resolver :
    String → (Text → Option (List Text)) → (Text → List Text) → Option (Text → Option (List Text))
build_namespace_resolver mode all visible_to =
    if mode == "all"
    then some all
    else if mode == "custom"
    then some (λ agent. some (visible_to agent))
    else none

-- An entry of the list, trimmed, on a board's id and name, trimmed; `fold` is strings.EqualFold.
unfoldable pub entry_matches : (Text → Text → Bool) → Text → Text → Text → Bool
entry_matches fold e id name =
    not (e == []) && ((not (id == []) && fold e id) || (not (name == []) && fold e name))

abbrev pub any_entry : (Text → Text → Bool) → List Text → Text → Text → Bool
any_entry fold [] id name = false
any_entry fold (e ∷ excludes) id name =
    let rest = any_entry fold excludes id name in
    if entry_matches fold (trim_space e) id name then true else rest

unfoldable pub kanban_board_excluded : (Text → Text → Bool) → List Text → Text → Text → Bool
kanban_board_excluded fold [] board_id board_name = false
kanban_board_excluded fold (e ∷ excludes) board_id board_name =
    if trim_space board_id == [] && trim_space board_name == []
    then false
    else any_entry fold (e ∷ excludes) (trim_space board_id) (trim_space board_name)
