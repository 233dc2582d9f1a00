-- ===== src/Store/Replace/Cycle.antt =====
-- ResolveReplacement of internal/store/replace.go on points whose sequels lead round.
use interest_memory.Prelude.{
  ℕ, zero, suc, ◌≡◌, ◌≢◌, refl, ap, ◌∙◌, some, true, [], Text, arith, false, Bool-cases, inl, inr,
  text_eq, ◌==◌,
}
use interest_memory.Store.{Reads}
use interest_memory.Store.Replace.{
  unfinished, walk, first_sequel, normalize_id, resolve_replacement,
}
use interest_memory.Store.Replace.Live.{Sequel, PointAt}

module _ {F : Type 0} (r : Reads F) where
  -- The sequel of each point in `Ring` is an archived point of it.
  abbrev pub Turns : (Text → Type 0) → Type 0
  Turns Ring = (a : Text) → Ring a → (b : Text) × Sequel r a b × PointAt r true b × Ring b

  ne-beq : (t : Text) → t ≢ [] → t == [] ≡ false
  ne-beq t h = elim (Bool-cases (t == [])) [
    | inl e ↦ absurd (h ((text_eq.beq_iff t []).0 e))
    | inr e ↦ e
  ]

  walk_on :
      (fuel : ℕ) (a b : Text)
      → Sequel r a b
      → PointAt r true b
      → walk r (suc fuel) a ≡ walk r fuel b
  unfolding walk
  walk_on fuel a b edge old =
      let (some_a, outs, read, first, some_b) = edge in
      let (p, at, archived_p) = old in
      let at' : r.get_interest_point (first_sequel outs) ≡ some (some p) =
        ap r.get_interest_point first ∙ at in
      let full : first_sequel outs == [] ≡ false = ap (λ t. t == []) first ∙ ne-beq b some_b in
      ground (arith, ne-beq a some_a, read, full, at', archived_p, first)

  walk-Turns :
      (Ring : Text → Type 0)
      → Turns Ring
      → (fuel : ℕ) (cur : Text) → Ring cur
      → walk r fuel cur ≡ unfinished
  unfolding walk
  walk-Turns Ring turns zero cur inside = refl
  walk-Turns Ring turns (suc fuel) cur inside =
      let (b, edge, old, ring) = turns cur inside in
      walk_on fuel cur b edge old ∙ walk-Turns Ring turns fuel b ring

  -- From an id whose interest point stands in a ring of archived points, each of which has its
  -- sequel in the ring, ResolveReplacement never ends: it finds no result on any fuel.
  pub resolve_replacement-Turns :
      (Ring : Text → Type 0) (id ip : Text)
      → Turns Ring
      → normalize_id r id ≡ some ip
      → Ring ip
      → (fuel : ℕ) → resolve_replacement r fuel id ≡ unfinished
  unfolding resolve_replacement
  resolve_replacement-Turns Ring id ip turns at inside fuel =
      ground (arith, at, walk-Turns Ring turns fuel ip inside)
