-- ===== src/Recall.antt =====
-- internal/recall/recall.go: the namespaces that a request reads, and the merging, ranking and
-- retrieval of hits. An agent's namespace is a text. `none` is an error of a call.
pub mod Namespaces
pub mod Ranking
pub mod Retrieve
pub mod Filtered
pub mod Context
pub mod Cached
pub mod Entity
pub mod Lookup
use interest_memory.Prelude.{
  ℕ, zero, suc, ◌-◌, ◌*◌, ℤ, pos, negsuc, positive_or, Bool, true, false, not, ◌||◌, ◌&&◌, Option,
  none, some, List, [], ◌∷◌, ◌++◌, String, string_eq, text_eq, ◌==◌, Eq, Text, codes, list_beq,
  trim_space, Float, if◌then◌else◌, ltb, length, take, lookup, insert,
}
use interest_memory.Store.{InterestPoint, Page, archived, active_page}
use interest_memory.Vec.{Hit}
use interest_memory.Verify.{is_point}

pub record Options (F : Type 0) : Type 0 where
  pub top_k : ℤ
  pub include_wiki : Bool
  pub min_score : F
  pub after : Option ℕ
  pub before : Option ℕ
  pub recent_days : ℤ

abbrev pub contains : List Text → Text → Bool
contains [] n = false
contains (s ∷ seen) n = s == n || contains seen n

-- The loop of `visible` with the keys of `seen`.
abbrev pub add_namespaces : List Text → List Text → List Text
add_namespaces seen [] = []
add_namespaces seen (n ∷ ns) =
    if not (n == []) && not (contains seen n)
    then n ∷ add_namespaces (n ∷ seen) ns
    else add_namespaces seen ns

-- The resolver is nil, or answers with namespaces or an error.
abbrev pub visible_in : Text → Option (List Text) → List Text
visible_in agent none = agent ∷ []
visible_in agent (some []) = agent ∷ []
visible_in agent (some (n ∷ ns)) = agent ∷ add_namespaces (agent ∷ []) (n ∷ ns)

unfoldable pub visible : Option (Text → Option (List Text)) → Text → List Text
visible none agent = agent ∷ []
visible (some resolver) agent = visible_in agent (resolver agent)

-- `h.AgentID + "\x00" + h.ID`
abbrev pub hit_key : {F : Type 0} → Hit F → Text
hit_key h = h.agent_id ++ 0 ∷ h.id

module _ {F : Type 0} where
  abbrev pub dedupe_seen : List Text → List (Hit F) → List (Hit F)
  dedupe_seen seen [] = []
  dedupe_seen seen (h ∷ hits) =
      if not (contains seen (hit_key h))
      then h ∷ dedupe_seen (hit_key h ∷ seen) hits
      else dedupe_seen seen hits

  unfoldable pub dedupe_hits : List (Hit F) → List (Hit F)
  dedupe_hits hits = dedupe_seen [] hits

module _ (fl : Float) where
  open fl use {F, lt}

  -- sort.SliceStable by descending score.
  unfoldable pub place_hit : Hit F → List (Hit F) → List (Hit F)
  place_hit h [] = h ∷ []
  place_hit h (k ∷ ks) = if lt h.score k.score then k ∷ place_hit h ks else h ∷ k ∷ ks

  unfoldable pub sort_hits : List (Hit F) → List (Hit F)
  sort_hits [] = []
  sort_hits (h ∷ hits) = place_hit h (sort_hits hits)

  -- `all = dedupeHits(all)`, the sort, and the cap.
  unfoldable pub rank : ℕ → List (Hit F) → List (Hit F)
  rank top_k all = take top_k (sort_hits (dedupe_hits all))
