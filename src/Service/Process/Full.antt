-- ===== src/Service/Process/Full.antt =====
-- What ProcessSession of internal/service/service.go gives the wiki after Adjudicate of internal/interest.
use interest_memory.Prelude.{
  ℕ, ◌≡◌, refl, ap, ◌⊎◌, inl, inr, Option, List, [], ◌∷◌, map, Text, string_eq, All, All-map,
}
use interest_memory.Interest.Merge.{Point}
use interest_memory.Interest.Cluster.{Component, ClusterResult}
use interest_memory.Interest.Persist.{FinalPoint}
use interest_memory.Interest.Adjudicate.{AdjudicateOutput}
use interest_memory.Interest.Adjudicate.Verdicts.{adjudicate}
use interest_memory.Interest.Adjudicate.Sound.{adjudicate-Sound}
use interest_memory.Service.Process.{final_pts}

abbrev Worthy : {F : Type 0} → FinalPoint F → Type 0
Worthy fp = (fp.action ≡ "create") ⊎ (fp.action ≡ "update")

final_pts-Worthy :
    {F : Type 0} (fps : List (FinalPoint F))
    → All Worthy fps
    → final_pts fps ≡ map (λ (fp : FinalPoint F). fp.point) fps
final_pts-Worthy [] a = refl
final_pts-Worthy (fp ∷ fps) (inl created, a) =
    rw created (ap (λ u. fp.point ∷ u) (final_pts-Worthy fps a))
final_pts-Worthy (fp ∷ fps) (inr updated, a) =
    rw updated (ap (λ u. fp.point ∷ u) (final_pts-Worthy fps a))

-- Every final point of Adjudicate is created or updated, so that the wiki gets all of them, in order.
final_pts-adjudicate :
    {F : Type 0} (zero_score : F) (new_id : Text → Text) (embed : Text → Option (List F)) (now : ℕ)
    (agent : Text) (chat : Component F → Option (AdjudicateOutput F))
    (ask : Point F → Option (AdjudicateOutput F)) (res : ClusterResult F)
    → let adj = adjudicate zero_score new_id embed now agent chat ask res in
      final_pts adj.final_points ≡ map (λ (fp : FinalPoint F). fp.point) adj.final_points
final_pts-adjudicate zero_score new_id embed now agent chat ask res =
    let sound = adjudicate-Sound zero_score new_id embed now agent chat ask res in
    let adj = adjudicate zero_score new_id embed now agent chat ask res in
    final_pts-Worthy adj.final_points (
      All-map
        (λ fp h. elim h [ inl fresh ↦ inl fresh.0 | inr (comp, i, renewed) ↦ inr renewed.2.2.2.0 ])
        adj.final_points sound.points)
