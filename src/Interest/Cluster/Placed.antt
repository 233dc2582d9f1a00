-- ===== src/Interest/Cluster/Placed.antt =====
-- Where the conflict queues of Cluster (internal/interest/cluster.go) place the components.
use interest_memory.Prelude.{
  ℕ, ◌+◌, ◌≤◌, ◌<◌, ◌≡◌, refl, ap, ◌∙◌, Bool, true, false, not, ◌||◌, ◌&&◌, List, [], ◌∷◌, Text,
  length, ◌==◌, nat_eq, if◌then◌else◌, ltb, leb, arith, Bool-cases, inl, inr, eqb_iff, All,
}
use interest_memory.Interest.Cluster.{Used, set_used, fresh_used, claim, add_queue, queues}

-- How often an index stands in a list.
abbrev pub times : ℕ → List ℕ → ℕ
times y [] = 0
times y (x ∷ xs) = (if x == y then 1 else 0) + times y xs

-- How often it stands in the queues.
abbrev pub queued : ℕ → List (Text × List ℕ × List ℕ) → ℕ
queued y [] = 0
queued y ((id, cis, q) ∷ qs) = times y q + queued y qs

-- A point with two entries or more lists it. The entries may all be its own.
abbrev pub doubly_listed : ℕ → List (Text × List ℕ) → Bool
doubly_listed y [] = false
doubly_listed y ((id, cis) ∷ shared) =
    (not (ltb (length cis) 2) && ltb 0 (times y cis)) || doubly_listed y shared

-- It lists a point that another index lists too.
abbrev pub competes : ℕ → List (Text × List ℕ) → Bool
competes y [] = false
competes y ((id, cis) ∷ shared) =
    (ltb 0 (times y cis) && ltb (times y cis) (length cis)) || competes y shared

pub claim_taken :
    (used : Used) (ci : ℕ) (cis : List ℕ) → used ci ≡ true → claim used (ci ∷ cis) ≡ claim used cis
unfolding claim
claim_taken used ci cis h = ground (arith, h)

pub claim_free :
    (used : Used) (ci : ℕ) (cis : List ℕ)
    → used ci ≡ false
    → claim used (ci ∷ cis)
      ≡ (ci ∷ (claim (set_used used ci) cis).0, (claim (set_used used ci) cis).1)
unfolding claim
claim_free used ci cis h = ground (arith, h)

-- A point that lists `cis` takes those that are not used, each once, and all of `cis` are used then.
pub claim-times :
    (used : Used) (cis : List ℕ) (y : ℕ)
    → (times y (claim used cis).0 ≡ (if ltb 0 (times y cis) && not (used y) then 1 else 0))
      × ((claim used cis).1 y ≡ (used y || ltb 0 (times y cis)))
unfolding claim
claim-times used [] y = (refl, ground arith)
claim-times used (ci ∷ cis) y = elim (Bool-cases (used ci)) [
  | inl taken ↦
      let (n, u) = claim-times used cis y in
      let e = claim_taken used ci cis taken in
      (
        ap (λ r. times y r.0) e ∙ n ∙ ground (arith, eqb_iff ci y, taken),
        ap (λ r. r.1 y) e ∙ u ∙ ground (arith, eqb_iff ci y, taken),
      )
  | inr free ↦
      let (n, u) = claim-times (set_used used ci) cis y in
      let e = claim_free used ci cis free in
      (
        ap (λ r. times y r.0) e
            ∙ ap (λ k. (if ci == y then 1 else 0) + k) n
            ∙ ground (arith, eqb_iff ci y, eqb_iff y ci, free),
        ap (λ r. r.1 y) e ∙ u ∙ ground (arith, eqb_iff ci y, eqb_iff y ci, free),
      )
]

queued-add_queue :
    (id : Text) (cis q : List ℕ) (qs : List (Text × List ℕ × List ℕ)) (y : ℕ)
    → queued y (add_queue id cis q qs)
      ≡ (if leb 2 (length q) then times y q + queued y qs else queued y qs)
queued-add_queue id cis q qs y = elim (Bool-cases (leb 2 (length q))) [
  | inl h ↦ rw h refl
  | inr h ↦ rw h refl
]

pub queues_few :
    (used : Used) (id : Text) (cis : List ℕ) (shared : List (Text × List ℕ))
    → ltb (length cis) 2 ≡ true
    → queues used ((id, cis) ∷ shared) ≡ queues used shared
unfolding queues
queues_few used id cis shared h = ground (arith, h)

pub queues_many :
    (used : Used) (id : Text) (cis : List ℕ) (shared : List (Text × List ℕ))
    → ltb (length cis) 2 ≡ false
    → queues used ((id, cis) ∷ shared) ≡ (
      add_queue id cis (claim used cis).0 (queues (claim used cis).1 shared).0,
      (queues (claim used cis).1 shared).1,
    )
unfolding queues
queues_many used id cis shared h = ground (arith, h)

pub queues-used :
    (used : Used) (shared : List (Text × List ℕ)) (y : ℕ)
    → (queues used shared).1 y ≡ (used y || doubly_listed y shared)
unfolding queues
queues-used used [] y = ground arith
queues-used used ((id, cis) ∷ shared) y = elim (Bool-cases (ltb (length cis) 2)) [
  | inl few ↦
      ap (λ r. r.1 y) (queues_few used id cis shared few)
      ∙ queues-used used shared y
      ∙ ground (arith, few)
  | inr many ↦
      ap (λ r. r.1 y) (queues_many used id cis shared many)
      ∙ queues-used (claim used cis).1 shared y
      ∙ ap (λ b. b || doubly_listed y shared) (claim-times used cis y).1
      ∙ ground (arith, many)
]

-- Entries of an index that the point does not claim make the claim shorter than its entries.
claim-length :
    (used : Used) (cis : List ℕ) (y : ℕ)
    → length (claim used cis).0 + times y cis ≤ length cis + times y (claim used cis).0
unfolding claim
claim-length used [] y = omega arith
claim-length used (ci ∷ cis) y = elim (Bool-cases (used ci)) [
  | inl taken ↦
      let e = ap (λ r. length r.0) (claim_taken used ci cis taken) in
      let t = ap (λ r. times y r.0) (claim_taken used ci cis taken) in
      ground (arith, e, t, claim-length used cis y)
  | inr free ↦
      let e = ap (λ r. length r.0) (claim_free used ci cis free) in
      let t = ap (λ r. times y r.0) (claim_free used ci cis free) in
      ground (arith, e, t, claim-length (set_used used ci) cis y)
]

-- An index stands in the queues once at most, and only if it was not used and competes.
queues-queued :
    (used : Used) (shared : List (Text × List ℕ)) (y : ℕ)
    → queued y (queues used shared).0 ≤ (if not (used y) && competes y shared then 1 else 0)
unfolding queues
queues-queued used [] y = ground arith
queues-queued used ((id, cis) ∷ shared) y = elim (Bool-cases (ltb (length cis) 2)) [
  | inl few ↦
      let e = ap (λ r. queued y r.0) (queues_few used id cis shared few) in
      ground (arith, e, few, queues-queued used shared y)
  | inr many ↦
      let e = ap (λ r. queued y r.0) (queues_many used id cis shared many) in
      let (n, u) = claim-times used cis y in
      ground (
        arith,
        e,
        n,
        u,
        claim-length used cis y,
        queued-add_queue id cis (claim used cis).0 (queues (claim used cis).1 shared).0 y,
        queues-queued (claim used cis).1 shared y,
      )
]

-- The lists of two or more name no index twice, neither in one list nor in two.
abbrev pub Apart : List (Text × List ℕ) → Type 0
Apart [] = Unit
Apart ((id, cis) ∷ shared) =
    (ltb (length cis) 2 ≡ false
      → (y : ℕ) → (times y cis ≤ 1) × (0 < times y cis → doubly_listed y shared ≡ false))
    × Apart shared

-- Then a point claims all that list it.
claim_all :
    (used : Used) (cis : List ℕ)
    → ((y : ℕ) → times y cis ≤ 1)
    → ((y : ℕ) → 0 < times y cis → used y ≡ false)
    → (claim used cis).0 ≡ cis
unfolding claim
claim_all used [] once free = refl
claim_all used (ci ∷ cis) once free =
    let f : used ci ≡ false = free ci (ground (arith, eqb_iff ci ci)) in
    let rest : (claim (set_used used ci) cis).0 ≡ cis =
      claim_all (set_used used ci) cis (λ y. ground (arith, once y))
        (λ y h. ground (arith, h, free y, once y, eqb_iff ci y, eqb_iff y ci)) in
    ap (λ r. r.0) (claim_free used ci cis f) ∙ ap (◌∷◌ ci) rest

queues-Apart :
    (used : Used) (shared : List (Text × List ℕ))
    → Apart shared
    → ((y : ℕ) → doubly_listed y shared ≡ true → used y ≡ false)
    → (y : ℕ) → queued y (queues used shared).0 ≡ (if doubly_listed y shared then 1 else 0)
unfolding queues
queues-Apart used [] apart free y = refl
queues-Apart used ((id, cis) ∷ shared) apart free y = elim (Bool-cases (ltb (length cis) 2)) [
  | inl few ↦
      let e = ap (λ r. queued y r.0) (queues_few used id cis shared few) in
      e
      ∙ queues-Apart used shared apart.1 (λ z h. free z (ground (arith, h, few))) y
      ∙ ground (arith, few)
  | inr many ↦
      let e = ap (λ r. queued y r.0) (queues_many used id cis shared many) in
      let all : (claim used cis).0 ≡ cis =
        claim_all used cis (λ z. (apart.0 many z).0) (λ z h. free z (ground (arith, h, many))) in
      let rest =
        queues-Apart (claim used cis).1 shared apart.1
          (λ z h. (claim-times used cis z).1 ∙ ground (arith, h, (apart.0 many z).1, free z)) y in
      let added =
        queued-add_queue id cis (claim used cis).0 (queues (claim used cis).1 shared).0 y in
      let whole : leb 2 (length (claim used cis).0) ≡ true =
        ap (λ q. leb 2 (length q)) all ∙ ground (arith, many) in
      e
      ∙ added
      ∙ ground (arith, whole, ap (times y) all, rest, many, (apart.0 many y).0, (apart.0 many y).1)
]

-- Each queue has two components or more.
queues-many :
    (used : Used) (shared : List (Text × List ℕ)) → All (λ t. 2 ≤ length t.2) (queues used shared).0
unfolding queues
queues-many used [] = tt
queues-many used ((id, cis) ∷ shared) = elim (Bool-cases (ltb (length cis) 2)) [
  | inl few ↦ rw (queues_few used id cis shared few) (queues-many used shared)
  | inr many ↦
      let rest = queues-many (claim used cis).1 shared in
      rw (queues_many used id cis shared many)
        (elim (Bool-cases (leb 2 (length (claim used cis).0))) [
          | inl h ↦ rw h (ground (arith, h), rest)
          | inr h ↦ rw h rest
        ])
]

-- The conflict queues of Cluster, for any order of the map of shared points: each queue has two
-- components or more. A component stands in the queues once at most, and only if it lists a point
-- that another component lists too. It is held back from the plain list exactly if a point with two
-- entries or more lists it, also where all of them are its own: then it is in neither.
pub queues-Placed :
    (shared : List (Text × List ℕ))
    → All (λ t. 2 ≤ length t.2) (queues fresh_used shared).0
      × ((y : ℕ) → (queues fresh_used shared).1 y ≡ doubly_listed y shared)
      × ((y : ℕ) → queued y (queues fresh_used shared).0 ≤ (if competes y shared then 1 else 0))
      × ((y : ℕ)
          → doubly_listed y shared ≡ true
          → competes y shared ≡ false
          → ((queues fresh_used shared).1 y ≡ true) × (queued y (queues fresh_used shared).0 ≡ 0))
queues-Placed shared = (
  queues-many fresh_used shared,
  queues-used fresh_used shared,
  queues-queued fresh_used shared,
  λ y twice alone. (
    ground (arith, queues-used fresh_used shared y, twice),
    ground (arith, queues-queued fresh_used shared y, alone),
  ),
)

-- Where no component is listed twice, by one shared point or by two, each component that doubly_listed a
-- point stands in a queue once, and so none is lost.
pub queues-once :
    (shared : List (Text × List ℕ))
    → Apart shared
    → (y : ℕ) → queued y (queues fresh_used shared).0 ≡ (if doubly_listed y shared then 1 else 0)
queues-once shared apart = queues-Apart fresh_used shared apart (λ y h. refl)
