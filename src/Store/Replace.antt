-- ===== src/Store/Replace.antt =====
-- internal/store/replace.go, ResolveReplacement over the queries that it makes.
pub mod Live
pub mod Cycle
use interest_memory.Prelude.{
  ℕ, zero, suc, Bool, true, false, Option, none, some, List, [], ◌∷◌, Text, text_eq, ◌==◌, Eq,
  if◌then◌else◌,
}
use interest_memory.Store.{
  EdgeType, related, contradict, sequel, reference, has_page, InterestPoint, Page, Edge, Reads,
  archived,
}

pub record Replacement (F : Type 0) : Type 0 where
  pub interest_point_id : Text
  pub page : Option (Page F)

-- What a call comes to: a result, an error, or no result within the fuel.
pub data Outcome (A : Type 0) : Type 0 where
  done : A → Outcome A
  failed : Outcome A
  unfinished : Outcome A

infixl 5 ◌>>=◌
abbrev pub ◌>>=◌ : {A B : Type 0} → Option A → (A → Outcome B) → Outcome B
none >>= f = failed
some a >>= f = f a

abbrev pub is_sequel : EdgeType → Bool
is_sequel related = false
is_sequel contradict = false
is_sequel sequel = true
is_sequel reference = false
is_sequel has_page = false

abbrev pub is_has_page : EdgeType → Bool
is_has_page related = false
is_has_page contradict = false
is_has_page sequel = false
is_has_page reference = false
is_has_page has_page = true

module _ {F : Type 0} where
  -- The target of the first sequel edge; `[]` is "no edge", as an empty id.
  abbrev pub first_sequel : List (Edge F) → Text
  first_sequel [] = []
  first_sequel (e ∷ es) = if is_sequel e.kind then e.target_id else first_sequel es

  -- The source of the first has_page edge.
  abbrev pub first_backing : List (Edge F) → Text
  first_backing [] = []
  first_backing (e ∷ es) = if is_has_page e.kind then e.source_id else first_backing es

module _ {F : Type 0} (r : Reads F) where
  -- The first page that a has_page edge leads to.
  unfoldable pub first_page : List (Edge F) → Option (Option (Page F))
  first_page [] = some none
  first_page (e ∷ es) =
      let rest = first_page es in
      if is_has_page e.kind
      then elim (r.get_page e.target_id) [
        | none ↦ none
        | some none ↦ rest
        | some (some pg) ↦ some (some pg)
      ]
      else rest

  -- The replacement by the live successor `next`.
  unfoldable pub successor : Text → Outcome (Option (Replacement F))
  successor next = do
    outs ← r.outlinks next
    page ← first_page outs
    done (some (record { interest_point_id = next; page = page }))

  -- The loop `for cur != ""`.
  unfoldable pub walk : ℕ → Text → Outcome (Option (Replacement F))
  walk zero cur = unfinished
  walk (suc fuel) cur = elim (cur == []) [
    | true ↦ done none
    | false ↦ do
      outs ← r.outlinks cur
      elim (first_sequel outs == []) [
        | true ↦ done none
        | false ↦ do
          next_pt ← r.get_interest_point (first_sequel outs)
          elim next_pt [
            | none ↦ done none
            | some p ↦ elim (archived p) [
              | true ↦ walk fuel (first_sequel outs)
              | false ↦ successor (first_sequel outs)
            ]
          ]
      ]
  ]

  -- The interest point behind an id: a page's is at the other end of its has_page edge.
  unfoldable pub normalize_id : Text → Option Text
  normalize_id id = elim (r.get_page id) [
    | none ↦ none
    | some none ↦ some id
    | some (some pg) ↦ elim (r.backlinks id) [ none ↦ none | some ins ↦ some (first_backing ins) ]
  ]

  unfoldable pub resolve_replacement : ℕ → Text → Outcome (Option (Replacement F))
  resolve_replacement fuel id = do ip ← normalize_id id; walk fuel ip
