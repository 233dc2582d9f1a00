-- ===== src/Recall/Namespaces.antt =====
-- The namespaces that `visible` of internal/recall/recall.go gives.
use interest_memory.Prelude.{
  ◌≡◌, refl, ◌∙◌, false, not, ◌&&◌, Option, none, some, List, [], ◌∷◌, text_eq, ◌==◌, Text, arith,
  beq_refl,
}
use interest_memory.Recall.{contains, add_namespaces, visible_in, visible}

-- No text stands twice.
abbrev pub Distinct : List Text → Type 0
Distinct [] = Unit
Distinct (n ∷ ns) = (contains ns n ≡ false) × Distinct ns

contains-add_namespaces :
    (seen ns : List Text) (n : Text)
    → contains (add_namespaces seen ns) n
      ≡ (contains ns n && (not (n == []) && not (contains seen n)))
contains-add_namespaces seen [] n = refl
contains-add_namespaces seen (m ∷ ns) n = ground (
  arith,
  contains-add_namespaces (m ∷ seen) ns n,
  contains-add_namespaces seen ns n,
  text_eq.beq_iff m n,
)

add_namespaces-Distinct : (seen ns : List Text) → Distinct (add_namespaces seen ns)
add_namespaces-Distinct seen [] = tt
add_namespaces-Distinct seen (m ∷ ns) = ground (
  arith,
  contains-add_namespaces (m ∷ seen) ns m,
  beq_refl m,
  add_namespaces-Distinct (m ∷ seen) ns,
  add_namespaces-Distinct seen ns,
)

-- What the resolver names for the agent, if anything.
abbrev pub answered : Option (List Text) → List Text
answered none = []
answered (some ns) = ns

abbrev pub named : Option (Text → Option (List Text)) → Text → List Text
named none agent = []
named (some resolver) agent = answered (resolver agent)

visible_in-Distinct :
    (agent : Text) (answer : Option (List Text))
    → (ns : List Text) × (visible_in agent answer ≡ agent ∷ ns)
      × Distinct (agent ∷ ns)
      × ((n : Text)
          → contains ns n ≡ (contains (answered answer) n && (not (n == []) && not (agent == n))))
visible_in-Distinct agent none = ([], refl, (refl, tt), λ n. refl)
visible_in-Distinct agent (some []) = ([], refl, (refl, tt), λ n. refl)
visible_in-Distinct agent (some (m ∷ ms)) = (
  add_namespaces (agent ∷ []) (m ∷ ms),
  refl,
  (own, add_namespaces-Distinct (agent ∷ []) (m ∷ ms)),
  λ n. contains-add_namespaces (agent ∷ []) (m ∷ ms) n ∙ ground arith,
)
  where
    own : contains (add_namespaces (agent ∷ []) (m ∷ ms)) agent ≡ false
    own = contains-add_namespaces (agent ∷ []) (m ∷ ms) agent ∙ ground (arith, beq_refl agent)

-- A request reads the agent's own namespace first, and then, each once, the others that the
-- resolver names, but for the empty one; without a resolver, or on its error, its own one alone.
pub visible-Distinct :
    (resolver : Option (Text → Option (List Text))) (agent : Text)
    → (ns : List Text) × (visible resolver agent ≡ agent ∷ ns)
      × Distinct (agent ∷ ns)
      × ((n : Text)
          → contains ns n
            ≡ (contains (named resolver agent) n && (not (n == []) && not (agent == n))))
unfolding visible
visible-Distinct none agent = ([], refl, (refl, tt), λ n. refl)
visible-Distinct (some resolver) agent = visible_in-Distinct agent (resolver agent)
