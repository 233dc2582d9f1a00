-- ===== src/Interest/Persist/Written.antt =====
-- What Persist (internal/interest/persist.go) has written before it adds the edges.
use interest_memory.Prelude.{
  Among, Among-cons, Among-right, refl, sym, subst, List, [], ◌∷◌, ◌++◌, Text, All, All-map,
}
use interest_memory.Store.{InterestPoint}
use interest_memory.Interest.Persist.{
  FinalPoint, Call, Effect, upsert_point, delete_vector, append_log, may, vector_effects,
  point_effects, archive_effects,
}
use interest_memory.Interest.Persist.Planned.{calls_of, calls_of-append}

module _ {F : Type 0} where
  -- The calls that put each final point, and archive each archived one.
  abbrev pub Upserted : List (Call F) → FinalPoint F → Type 0
  Upserted cs fp = Among (upsert_point fp.point) cs

  abbrev pub Archived : Text → List (Call F) → InterestPoint F → Type 0
  Archived agent cs p =
      Among (upsert_point (record p { status = "archived" })) cs
      × Among (delete_vector agent p.id) cs

  pub point_effects-Upserted :
      (agent : Text) (fps : List (FinalPoint F))
      → All (Upserted (calls_of (point_effects agent fps))) fps
  point_effects-Upserted agent [] = tt
  point_effects-Upserted agent (fp ∷ fps) =
      let log : Effect F = may (append_log agent fp.point.id fp.point.name fp.action) in
      let rest = point_effects agent fps in
      (
        ([], calls_of (vector_effects fp.point fp.vec ++ log ∷ rest), refl),
        All-map
            (λ g i. Among-cons (upsert_point g.point) (upsert_point fp.point) _ (
              subst (Among (upsert_point g.point))
                (sym (calls_of-append (vector_effects fp.point fp.vec) (log ∷ rest)))
                (Among-right (upsert_point g.point) (calls_of (vector_effects fp.point fp.vec))
                  (log.call ∷ calls_of rest)
                  (Among-cons (upsert_point g.point) log.call (calls_of rest) i))))
            fps (point_effects-Upserted agent fps),
      )

  pub archive_effects-Archived :
      (agent : Text) (ps : List (InterestPoint F))
      → All (Archived agent (calls_of (archive_effects agent ps))) ps
  archive_effects-Archived agent [] = tt
  archive_effects-Archived agent (p ∷ ps) =
      let up : Call F = upsert_point (record p { status = "archived" }) in
      let gone : Call F = delete_vector agent p.id in
      let log : Call F = append_log agent p.id p.name "archive" in
      let rest = calls_of (archive_effects agent ps) in
      (
        (([], gone ∷ log ∷ rest, refl), (up ∷ [], log ∷ rest, refl)),
        All-map
            (λ q i. (
              Among-right (upsert_point (record q { status = "archived" })) (up ∷ gone ∷ log ∷ [])
                  rest i.0,
              Among-right (delete_vector agent q.id) (up ∷ gone ∷ log ∷ []) rest i.1,
            ))
            ps (archive_effects-Archived agent ps),
      )
