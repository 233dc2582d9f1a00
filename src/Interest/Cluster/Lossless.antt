-- ===== src/Interest/Cluster/Lossless.antt =====
-- The split of the conflicts of Cluster (internal/interest/cluster.go), and the components that it
-- may lose.
use mathlib.Core.List.{foldl, reverse, reverse-append, reverse-cons, append_assoc}
use interest_memory.Prelude.{
  Among, Among-cons, Among-cases, not_Among, ℕ, zero, suc, ◌+◌, ◌≤◌, ◌<◌, ◌≡◌, ◌⊎◌, inl, inr, refl,
  ap, ◌∙◌, false, some, List, [], ◌∷◌, ◌++◌, ◌==◌, nat_eq, eqb_iff, length, get_elem?, arith, Float,
  Text, text_eq, ltb, leb, Bool-cases, All, All-append,
}
use interest_memory.Interest.Merge.{Point}
use interest_memory.Interest.Merge.Similar.{get_elem?-lt, get_elem?-split}
use interest_memory.Interest.Cluster.{
  HistPoint, Component, ClusterResult, Used, set_used, fresh_used, claim, queues, list_under,
  list_hist, list_comps, unused, vec_of, shared_vec, select_comps, settle, affinity_of,
  sort_conflict_queue, queue_up, split_conflicts,
}
use interest_memory.Interest.Cluster.Placed.{
  times, queued, doubly_listed, Apart, claim_taken, claim_free, queues_few, queues_many,
  queues-used, queues-once,
}

-- Each index of the list is below `n`.
abbrev pub Below : ℕ → List ℕ → Type 0
Below n cis = All (λ ci. ci < n) cis

abbrev pub InTable : ℕ → List (Text × List ℕ) → Type 0
InTable n table = All (λ e. Below n e.1) table

abbrev InQueues : ℕ → List (Text × List ℕ × List ℕ) → Type 0
InQueues n qs = All (λ t. Below n t.1 × Below n t.2) qs

claim-Below : (n : ℕ) (used : Used) (cis : List ℕ) → Below n cis → Below n (claim used cis).0
unfolding claim
claim-Below n used [] b = tt
claim-Below n used (ci ∷ cis) b = elim (Bool-cases (used ci)) [
  | inl taken ↦ rw (claim_taken used ci cis taken) (claim-Below n used cis b.1)
  | inr free ↦ rw (claim_free used ci cis free) (b.0, claim-Below n (set_used used ci) cis b.1)
]

queues-InQueues :
    (n : ℕ) (used : Used) (shared : List (Text × List ℕ))
    → InTable n shared
    → InQueues n (queues used shared).0
unfolding queues
queues-InQueues n used [] b = tt
queues-InQueues n used ((id, cis) ∷ shared) b = elim (Bool-cases (ltb (length cis) 2)) [
  | inl few ↦ rw (queues_few used id cis shared few) (queues-InQueues n used shared b.1)
  | inr many ↦
      let rest = queues-InQueues n (claim used cis).1 shared b.1 in
      rw (queues_many used id cis shared many)
        (elim (Bool-cases (leb 2 (length (claim used cis).0))) [
          | inl h ↦ rw h ((b.0, claim-Below n used cis b.0), rest)
          | inr h ↦ rw h rest
        ])
]

list_under-InTable :
    (n : ℕ) (id : Text) (ci : ℕ) (table : List (Text × List ℕ))
    → ci < n
    → InTable n table
    → InTable n (list_under id ci table)
list_under-InTable n id ci [] l t = ((l, tt), tt)
list_under-InTable n id ci ((k, cis) ∷ table) l t = elim (Bool-cases (k == id)) [
  | inl same ↦ rw same (All-append _ cis (ci ∷ []) t.0 (l, tt), t.1)
  | inr other ↦ rw other (t.0, list_under-InTable n id ci table l t.1)
]

module _ {F : Type 0} where
  list_hist-InTable :
      (n ci : ℕ) (hs : List (HistPoint F)) (table : List (Text × List ℕ))
      → ci < n
      → InTable n table
      → InTable n (list_hist ci hs table)
  list_hist-InTable n ci [] table l t = t
  list_hist-InTable n ci (h ∷ hs) table l t =
      list_hist-InTable n ci hs (list_under h.pt.id ci table) l
        (list_under-InTable n h.pt.id ci table l t)

  list_comps-InTable :
      (n ci : ℕ) (comps : List (Component F)) (table : List (Text × List ℕ))
      → ci + length comps ≤ n
      → InTable n table
      → InTable n (list_comps ci comps table)
  list_comps-InTable n ci [] table l t = t
  list_comps-InTable n ci (comp ∷ comps) table l t =
      list_comps-InTable n (suc ci) comps (list_hist ci comp.hist table) (omega (arith, l))
        (list_hist-InTable n ci comp.hist table (omega (arith, l)) t)

  select_comps-some :
      (comps : List (Component F)) (is : List ℕ)
      → Below (length comps) is
      → (out : List (Component F)) × (select_comps comps is ≡ some out)
        × ((y : ℕ) (c : Component F) → 0 < times y is → get_elem? comps y ≡ some c → Among c out)
  select_comps-some comps [] b = ([], refl, λ y c h. absurd (omega (arith, h)))
  select_comps-some comps (i ∷ is) b =
      let (d, at) = get_elem?-lt comps i b.0 in
      let (out, e, among) = select_comps-some comps is b.1 in
      (
        d ∷ out,
        rw (at, e) refl,
        λ y c h found. elim (Bool-cases (i == y)) [
          | inl here ↦
              let same : d ≡ c = ground (arith, at, found, (eqb_iff i y).0 here) in
              ([], out, ap (λ u. u ∷ out) same)
          | inr other ↦ Among-cons c d out (among y c (ground (arith, h, other)) found)
        ],
      )

  shared_vec-some :
      (comps : List (Component F)) (id : Text) (v : List F) (is : List ℕ)
      → Below (length comps) is
      → (w : List F) × (shared_vec comps id v is ≡ some w)
  shared_vec-some comps id v [] b = (v, refl)
  shared_vec-some comps id v (i ∷ is) b =
      let (c, at) = get_elem?-lt comps i b.0 in
      let (w, e) = shared_vec-some comps id (vec_of id v c.hist) is b.1 in (w, rw at e)

  unused-Among :
      (used : Used) (ci k : ℕ) (comps : List (Component F)) (c : Component F)
      → get_elem? comps k ≡ some c
      → used (ci + k) ≡ false
      → Among c (unused used ci comps)
  unused-Among used ci k [] c at free = absurd (ground (arith, at))
  unused-Among used ci zero (d ∷ comps) c at free =
      let here : used ci ≡ false = ap used (omega arith) ∙ free in
      let same : d ≡ c = ground (arith, at) in
      rw here ([], unused used (suc ci) comps, ap (λ u. u ∷ unused used (suc ci) comps) same)
  unused-Among used ci (suc k) (d ∷ comps) c at free =
      let rest = unused-Among used (suc ci) k comps c at (ap used (omega arith) ∙ free) in
      elim (Bool-cases (used ci)) [
        | inl taken ↦ rw taken rest
        | inr left ↦ rw left (Among-cons c d (unused used (suc ci) comps) rest)
      ]

  Among-reverse : (c : Component F) (xs : List (Component F)) → Among c xs → Among c (reverse xs)
  Among-reverse c xs (b, a, e) = (
    reverse a,
    reverse b,
    ap reverse e
        ∙ reverse-append b (c ∷ a)
        ∙ ap (λ u. u ++ reverse b) (reverse-cons c a)
        ∙ append_assoc (reverse a) (c ∷ []) (reverse b),
  )

module _ (fl : Float) (minus_one : fl.F) where
  open fl use {F, lt}

  -- The insertion keeps what it is given.
  Among-settle :
      (shared : List F) (done : List (Component F)) (comp c : Component F)
      → Among c (comp ∷ done)
      → Among c (settle fl minus_one shared done comp)
  unfolding settle
  Among-settle shared [] comp c i = i
  Among-settle shared (prev ∷ done) comp c i =
      elim (Bool-cases
        (lt (affinity_of fl minus_one prev shared) (affinity_of fl minus_one comp shared))) [
          | inr stays ↦ rw stays i
          | inl less ↦ rw less (elim (Among-cases c comp (prev ∷ done) i) [
            | inl same ↦
                Among-cons c prev _
                  (Among-settle shared done comp c ([], done, ap (λ u. u ∷ done) same))
            | inr old ↦ elim (Among-cases c prev done old) [
              | inl same ↦ (
                [],
                settle fl minus_one shared done comp,
                ap (λ u. u ∷ settle fl minus_one shared done comp) same,
              )
              | inr deep ↦
                  Among-cons c prev _
                    (Among-settle shared done comp c (Among-cons c comp done deep))
            ]
          ])
        ]

  Among-foldl :
      (shared : List F) (done queue : List (Component F)) (c : Component F)
      → Among c done ⊎ Among c queue
      → Among c (foldl (settle fl minus_one shared) done queue)
  Among-foldl shared done [] c (inl i) = i
  Among-foldl shared done [] c (inr i) = not_Among c i
  Among-foldl shared done (comp ∷ queue) c (inl i) =
      Among-foldl shared (settle fl minus_one shared done comp) queue c
        (inl (Among-settle shared done comp c (Among-cons c comp done i)))
  Among-foldl shared done (comp ∷ queue) c (inr i) =
      Among-foldl shared (settle fl minus_one shared done comp) queue c
        (elim (Among-cases c comp queue i) [
          | inl same ↦ inl (Among-settle shared done comp c ([], done, ap (λ u. u ∷ done) same))
          | inr later ↦ inr later
        ])

  sort_conflict_queue-Among :
      (shared : List F) (queue : List (Component F)) (c : Component F)
      → Among c queue
      → Among c (sort_conflict_queue fl minus_one shared queue)
  unfolding sort_conflict_queue
  sort_conflict_queue-Among shared queue c i =
      Among-reverse c (foldl (settle fl minus_one shared) [] queue)
        (Among-foldl shared [] queue c (inr i))

  -- A component of the index stands in one of the queues.
  abbrev pub InQueue : List (List (Component F)) → Component F → Type 0
  InQueue conflicts c = (queue : List (Component F)) × Among queue conflicts × Among c queue

  queue_up-some :
      (comps : List (Component F)) (qs : List (Text × List ℕ × List ℕ))
      → InQueues (length comps) qs
      → (conflicts : List (List (Component F))) × (queue_up fl minus_one comps qs ≡ some conflicts)
        × ((y : ℕ) (c : Component F)
            → 0 < queued y qs
            → get_elem? comps y ≡ some c
            → InQueue conflicts c)
  queue_up-some comps [] b = ([], refl, λ y c h. absurd (omega (arith, h)))
  queue_up-some comps ((id, cis, q) ∷ qs) b =
      let (v, found) = shared_vec-some comps id [] cis b.0.0 in
      let (queue, taken, among) = select_comps-some comps q b.0.1 in
      let (conflicts, e, more) = queue_up-some comps qs b.1 in
      (
        sort_conflict_queue fl minus_one v queue ∷ conflicts,
        rw (found, taken, e) refl,
        λ y c h at. elim (Bool-cases (ltb 0 (times y q))) [
          | inl here ↦ (
            sort_conflict_queue fl minus_one v queue,
            ([], conflicts, refl),
            sort_conflict_queue-Among v queue c (among y c (ground (arith, here)) at),
          )
          | inr other ↦
              let (k, i, j) = more y c (ground (arith, other, h)) at in
              (k, Among-cons k (sort_conflict_queue fl minus_one v queue) conflicts i, j)
        ],
      )

  -- The split of the conflicts ends without an index out of bounds, for any order of the map that
  -- has only indexes of components, and keeps the isolated points. Each component is then in the
  -- plain list or in a queue, unless that order names a component twice in the lists of shared
  -- points with two entries or more, in one list or in two.
  pub split_conflicts-InQueue :
      (order : List (Text × List ℕ) → List (Text × List ℕ)) (comps : List (Component F))
      (isolated : List (Point F))
      → ((table : List (Text × List ℕ))
          → InTable (length comps) table
          → InTable (length comps) (order table))
      → (res : ClusterResult F) × (split_conflicts fl minus_one order comps isolated ≡ some res)
        × (res.isolated ≡ isolated)
        × ((c : Component F)
            → Among c comps
            → Among c res.components
              ⊎ InQueue res.conflicts c
              ⊎ ¬ Apart (order (list_comps 0 comps [])))
  unfolding split_conflicts
  split_conflicts-InQueue order comps isolated keeps =
      let shared = order (list_comps 0 comps []) in
      let used = (queues fresh_used shared).1 in
      let inside =
        keeps (list_comps 0 comps [])
          (list_comps-InTable (length comps) 0 comps [] (omega arith) tt) in
      let (conflicts, e, queue) =
        queue_up-some comps (queues fresh_used shared).0
          (queues-InQueues (length comps) fresh_used shared inside) in
      (
        record { components = unused used 0 comps; isolated = isolated; conflicts = conflicts },
        rw e refl,
        refl,
        λ c i.
            let (b, a, cut) = i in
            let k = length b in
            let at : get_elem? comps k ≡ some c =
              ap (λ u. get_elem? u k) cut ∙ get_elem?-split b c a in
            let marked = queues-used fresh_used shared k in
            elim (Bool-cases (ltb 0 (queued k (queues fresh_used shared).0))) [
              | inl queued_one ↦ inr (inl (queue k c (ground (arith, queued_one)) at))
              | inr unqueued ↦ elim (Bool-cases (doubly_listed k shared)) [
                | inl twice ↦
                    inr (inr (λ apart. ground (arith, unqueued, twice, queues-once shared apart k)))
                | inr own ↦
                    let start : 0 + k ≡ k = omega arith in
                    inl (
                      unused-Among used 0 k comps c at
                        (ap used start ∙ ground (arith, marked, own)))
              ]
            ],
      )
