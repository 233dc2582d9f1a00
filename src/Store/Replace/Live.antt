-- ===== src/Store/Replace/Live.antt =====
-- Where the walk of ResolveReplacement (internal/store/replace.go) ends, and that it does.
use interest_memory.Prelude.{
  ℕ, zero, suc, ◌<◌, ◌≡◌, ◌≢◌, refl, sym, ap, ◌∙◌, subst, Bool, true, false, none, some, List, [],
  Text, text_eq, ◌==◌, arith, Bool-cases, Option-cases, inl, inr,
}
use interest_memory.Store.{InterestPoint, Edge, Reads, archived}
use interest_memory.Store.Replace.{
  Replacement, done, failed, unfinished, first_sequel, first_page, successor, walk, normalize_id,
  resolve_replacement,
}

module _ {F : Type 0} (r : Reads F) where
  -- The heaviest sequel edge from `a` goes to `b`.
  abbrev pub Sequel : Text → Text → Type 0
  Sequel a b =
      (a ≢ [])
      × (outs : List (Edge F)) × (r.outlinks a ≡ some outs)
      × (first_sequel outs ≡ b)
      × (b ≢ [])

  abbrev pub PointAt : Bool → Text → Type 0
  PointAt is_archived a =
      (p : InterestPoint F) × (r.get_interest_point a ≡ some (some p)) × (archived p ≡ is_archived)

  -- Sequels lead from `a` to `c`, through archived points only.
  pub data Leads : Text → Text → Type 0 where
    last : {a b : Text} → Sequel a b → Leads a b
    onward : {a b c : Text} → Sequel a b → PointAt true b → Leads b c → Leads a c

-- One round of the walk: it ends without a result, goes on, or lands.
pub data Round {F : Type 0} (r : Reads F) (cur : Text) : Type 0 where
  ends : ((fuel : ℕ) → walk r (suc fuel) cur ≡ done none) → Round r cur
  fails : ((fuel : ℕ) → walk r (suc fuel) cur ≡ failed) → Round r cur
  goes :
      (b : Text)
      → Sequel r cur b
      → PointAt r true b
      → ((fuel : ℕ) → walk r (suc fuel) cur ≡ walk r fuel b)
      → Round r cur
  lands :
      (b : Text)
      → Sequel r cur b
      → PointAt r false b
      → ((fuel : ℕ) → walk r (suc fuel) cur ≡ successor r b)
      → Round r cur

module _ {F : Type 0} (r : Reads F) where
  pub round : (cur : Text) → Round r cur
  unfolding walk
  round cur = elim (Bool-cases (cur == [])) [
    | inl empty ↦ ends (λ fuel. ground (arith, empty))
    | inr full ↦ elim (Option-cases (r.outlinks cur)) [
      | inl bad ↦ fails (λ fuel. ground (arith, full, bad))
      | inr (outs, read) ↦ elim (Bool-cases (first_sequel outs == [])) [
        | inl alone ↦ ends (λ fuel. ground (arith, full, read, alone))
        | inr further ↦ elim (Option-cases (r.get_interest_point (first_sequel outs))) [
          | inl bad ↦ fails (λ fuel. ground (arith, full, read, further, bad))
          | inr (o, at) ↦ elim (Option-cases o) [
            | inl gone ↦ ends (λ fuel. ground (arith, full, read, further, at, gone))
            | inr (p, there) ↦
                let found : r.get_interest_point (first_sequel outs) ≡ some (some p) =
                  at ∙ ap some there in
                let edge : Sequel r cur (first_sequel outs) =
                  (ne cur full, outs, read, refl, ne (first_sequel outs) further) in
                elim (Bool-cases (archived p)) [
                  | inl old ↦
                      goes (first_sequel outs) edge (p, found, old)
                        (λ fuel. ground (arith, full, read, further, found, old))
                  | inr live ↦
                      lands (first_sequel outs) edge (p, found, live)
                        (λ fuel. ground (arith, full, read, further, found, live))
                ]
          ]
        ]
      ]
    ]
  ]
    where
      ne : (t : Text) → t == [] ≡ false → t ≢ []
      ne t h e = ground (arith, h, text_eq.beq_iff t [], e)

  -- What `successor` returns is the point that it is given.
  successor-id :
      (b : Text) (rep : Replacement F) → successor r b ≡ done (some rep) → rep.interest_point_id ≡ b
  unfolding successor
  successor-id b rep h = elim (Option-cases (r.outlinks b)) [
    | inl bad ↦ absurd (ground (arith, bad, h))
    | inr (outs, read) ↦ elim (Option-cases (first_page r outs)) [
      | inl bad ↦ absurd (ground (arith, read, bad, h))
      | inr (page, at) ↦ ground (arith, read, at, h)
    ]
  ]

  successor_ends : (b : Text) → successor r b ≢ unfinished
  unfolding successor
  successor_ends b h = elim (Option-cases (r.outlinks b)) [
    | inl bad ↦ ground (arith, bad, h)
    | inr (outs, read) ↦ elim (Option-cases (first_page r outs)) [
      | inl bad ↦ ground (arith, read, bad, h)
      | inr (page, at) ↦ ground (arith, read, at, h)
    ]
  ]

  walk-zero : (cur : Text) → walk r zero cur ≡ unfinished
  unfolding walk
  walk-zero cur = refl

  pub walk-Leads :
      (fuel : ℕ) (cur : Text) (rep : Replacement F)
      → walk r fuel cur ≡ done (some rep)
      → Leads r cur rep.interest_point_id × PointAt r false rep.interest_point_id
  walk-Leads zero cur rep h = absurd (ground (arith, walk-zero cur, h))
  walk-Leads (suc fuel) cur rep h = elim (round cur) [
    | ends e ↦ absurd (ground (arith, e fuel, h))
    | fails e ↦ absurd (ground (arith, e fuel, h))
    | goes b s old e ↦
        let (l, live) = walk-Leads fuel b rep (sym (e fuel) ∙ h) in (onward s old l, live)
    | lands b s live e ↦
        let same = successor-id b rep (sym (e fuel) ∙ h) in
        (subst (Leads r cur) (sym same) (last s), subst (PointAt r false) (sym same) live)
  ]

  -- Along the sequels that the walk takes, something falls: then it ends.
  pub walk_ends :
      (rank : Text → ℕ)
      → ((a b : Text) → Sequel r a b → PointAt r true b → rank b < rank a)
      → (fuel : ℕ) (cur : Text) → rank cur < fuel
      → walk r fuel cur ≢ unfinished
  walk_ends rank falls zero cur h = absurd (omega arith)
  walk_ends rank falls (suc fuel) cur h = elim (round cur) [
    | ends e ↦ λ q. ground (arith, e fuel, q)
    | fails e ↦ λ q. ground (arith, e fuel, q)
    | goes b s old e ↦
        λ q. walk_ends rank falls fuel b (omega (arith, falls cur b s old)) (sym (e fuel) ∙ q)
    | lands b s live e ↦ λ q. successor_ends b (sym (e fuel) ∙ q)
  ]

module _ {F : Type 0} (r : Reads F) where
  -- A replacement that ResolveReplacement returns for an id is a point that is not archived, and
  -- sequel edges lead to it from the id's interest point, through archived points only.
  pub resolve_replacement-Leads :
      (fuel : ℕ) (id : Text) (rep : Replacement F)
      → resolve_replacement r fuel id ≡ done (some rep)
      → (ip : Text) × (normalize_id r id ≡ some ip)
        × Leads r ip rep.interest_point_id
        × PointAt r false rep.interest_point_id
  unfolding resolve_replacement
  resolve_replacement-Leads fuel id rep h = elim (Option-cases (normalize_id r id)) [
    | inl bad ↦ absurd (ground (arith, bad, h))
    | inr (ip, at) ↦
        let (l, live) = walk-Leads r fuel ip rep (ground (arith, at, h)) in (ip, at, l, live)
  ]

  -- Where each sequel edge to an archived point lowers a number, ResolveReplacement ends: on any
  -- fuel above the numbers it returns a result or an error of the store.
  resolve_replacement_ends :
      (rank : Text → ℕ) (fuel : ℕ) (id : Text)
      → ((a b : Text) → Sequel r a b → PointAt r true b → rank b < rank a)
      → ((a : Text) → rank a < fuel)
      → resolve_replacement r fuel id ≢ unfinished
  unfolding resolve_replacement
  resolve_replacement_ends rank fuel id falls fits h = elim (Option-cases (normalize_id r id)) [
    | inl bad ↦ ground (arith, bad, h)
    | inr (ip, at) ↦ walk_ends r rank falls fuel ip (fits ip) (ground (arith, at, h))
  ]
