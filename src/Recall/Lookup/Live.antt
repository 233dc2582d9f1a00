-- ===== src/Recall/Lookup/Live.antt =====
-- The results of Search and of resultFor in internal/recall/recall.go.
use interest_memory.Prelude.{
  ℕ, zero, suc, ◌≤◌, ◌≡◌, ◌⊎◌, inl, inr, refl, sym, ap, ◌∙◌, subst, ℤ, positive_or, Bool, true,
  false, not, ◌||◌, ◌&&◌, Option, none, some, List, [], ◌∷◌, string_eq, text_eq, ◌==◌, Text,
  trim_space, Float, arith, All, Bool-cases, Option-cases, length, take, length-take-le,
}
use interest_memory.Store.{InterestPoint, Page, archived, active_page}
use interest_memory.Vec.{Hit}
use interest_memory.Verify.{is_point}
use interest_memory.Recall.{visible, rank, sort_hits, dedupe_hits}
use interest_memory.Recall.Retrieve.{RecallStore}
use interest_memory.Recall.Context.{Service}
use interest_memory.Recall.Entity.{
  Result, EntityCache, new_entity_cache, cached_point, cached_page, attach_edges, point_result,
  page_result,
}
use interest_memory.Recall.Lookup.{
  Answer, successor_hit, point_or, page_or, result_for, set_agent, add_result, results_of, search,
  search_all,
}

-- A point that is not archived, or a page that is active.
abbrev pub LiveResult : {F : Type 0} → Result F → Type 0
LiveResult r =
    ((r.kind ≡ "interest_point") × (r.status == "archived" ≡ false))
    ⊎ ((r.kind ≡ "wiki_page") × ((r.status == "" || r.status == "active") ≡ true))

module _ {F : Type 0} (st : RecallStore F) (ns : Text) (max_body_len : ℤ) where
  attach_edges-keeps :
      (id : Text) (r : Result F) (ec : EntityCache F)
      → ((attach_edges st ns id r ec).0.kind ≡ r.kind)
        × ((attach_edges st ns id r ec).0.status ≡ r.status)
  unfolding attach_edges
  attach_edges-keeps id r ec = (refl, refl)

  abbrev pub AllLive : (Hit F → EntityCache F → Answer F) → Type 0
  AllLive again =
      (h : Hit F) (ec ec' : EntityCache F) (r : Result F)
      → again h ec ≡ some (some r, ec')
      → LiveResult r

  point_or-Live :
      (again : Hit F → EntityCache F → Answer F) (h : Hit F)
      (found : Option (InterestPoint F) × EntityCache F) (ec' : EntityCache F) (r : Result F)
      → AllLive again
      → point_or st ns max_body_len again h found ≡ some (some r, ec')
      → LiveResult r
  point_or-Live again h (none, ec) ec' r live e = absurd (ground (arith, e))
  point_or-Live again h (some p, ec) ec' r live e = elim (Bool-cases (archived p)) [
    | inr current ↦
        let k = attach_edges-keeps h.id (point_result p max_body_len) ec in
        let same : (attach_edges st ns h.id (point_result p max_body_len) ec).0 ≡ r =
          ground (arith, current, e) in
        inl (
          sym (ap (λ u. u.kind) same) ∙ k.0,
          ap (λ s. s == "archived") (sym (ap (λ u. u.status) same) ∙ k.1) ∙ current,
        )
    | inl old ↦ elim (Option-cases (successor_hit st ns max_body_len h (st.resolve ns h.id))) [
      | inl nothing ↦ absurd (ground (arith, old, nothing, e))
      | inr (h', next) ↦ live h' ec ec' r (ground (arith, old, next, e))
    ]
  ]

  page_or-Live :
      (again : Hit F → EntityCache F → Answer F) (h : Hit F)
      (found : Option (Page F) × EntityCache F) (ec' : EntityCache F) (r : Result F)
      → AllLive again
      → page_or st ns max_body_len again h found ≡ some (some r, ec')
      → LiveResult r
  page_or-Live again h (none, ec) ec' r live e = absurd (ground (arith, e))
  page_or-Live again h (some pg, ec) ec' r live e = elim (Bool-cases (active_page pg)) [
    | inl current ↦
        let whole = page_result (st.reads ns) pg max_body_len in
        let k = attach_edges-keeps h.id whole ec in
        let same : (attach_edges st ns h.id whole ec).0 ≡ r = ground (arith, current, e) in
        inr (
          sym (ap (λ u. u.kind) same) ∙ k.0,
          ap (λ s. s == "" || s == "active") (sym (ap (λ u. u.status) same) ∙ k.1) ∙ current,
        )
    | inr old ↦ elim (Option-cases (successor_hit st ns max_body_len h (st.resolve ns h.id))) [
      | inl nothing ↦ absurd (ground (arith, old, nothing, e))
      | inr (h', next) ↦ live h' ec ec' r (ground (arith, old, next, e))
    ]
  ]

  result_for-Live : (fuel : ℕ) → AllLive (result_for st ns max_body_len fuel)
  unfolding result_for
  result_for-Live zero h ec ec' r e = absurd (ground (arith, e))
  result_for-Live (suc fuel) h ec ec' r e = elim (Bool-cases (is_point h)) [
    | inl point ↦
        point_or-Live (result_for st ns max_body_len fuel) h (cached_point (st.reads ns) h.id ec)
          ec' r (result_for-Live fuel) (ground (arith, point, e))
    | inr page ↦
        page_or-Live (result_for st ns max_body_len fuel) h (cached_page (st.reads ns) h.id ec) ec'
          r (result_for-Live fuel) (ground (arith, page, e))
  ]

module _ (fl : Float) (half : fl.F) where
  open fl use {F}

  set_agent-Live :
      (annotate : Bool) (ns : Text) (r : Result F)
      → LiveResult r
      → LiveResult (set_agent annotate ns r)
  set_agent-Live true ns r live = live
  set_agent-Live false ns r live = live

  added :
      (sv : Service F) (h : Hit F) (o : Option (Result F)) (rest : List (Result F)) {n : ℕ}
      → All LiveResult rest
      → length rest ≤ n
      → ((r : Result F) → o ≡ some r → LiveResult r)
      → All LiveResult (add_result fl half sv h o rest)
        × (length (add_result fl half sv h o rest) ≤ suc n)
  added sv h none rest live short one = (live, omega (arith, short))
  added sv h (some r) rest live short one = (
    (set_agent-Live (sv.annotate && not (h.agent_id == [])) h.agent_id r (one r refl), live),
    omega (arith, short),
  )

  results_of-Live :
      (sv : Service F) (fuel : ℕ) (max_body_len : ℤ) (hits : List (Hit F)) (ec : EntityCache F)
      (out : List (Result F))
      → results_of fl half sv fuel max_body_len hits ec ≡ some out
      → All LiveResult out × (length out ≤ length hits)
  results_of-Live sv fuel max_body_len [] ec out e =
      let same : [] ≡ out = ground (arith, e) in
      subst (λ u. All LiveResult u × (length u ≤ 0)) same (tt, omega arith)
  results_of-Live sv fuel max_body_len (h ∷ hits) ec out e =
      elim (Option-cases (result_for sv.sources.store h.agent_id max_body_len fuel h ec)) [
        | inl spent ↦ absurd (ground (arith, spent, e))
        | inr ((o, ec'), first) ↦
            elim (Option-cases (results_of fl half sv fuel max_body_len hits ec')) [
              | inl spent ↦ absurd (ground (arith, first, spent, e))
              | inr (rest, later) ↦
                  let (live, short) = results_of-Live sv fuel max_body_len hits ec' rest later in
                  let same : add_result fl half sv h o rest ≡ out =
                    ground (arith, first, later, e) in
                  subst (λ u. All LiveResult u × (length u ≤ suc (length hits))) same
                    (added sv h o rest live short (λ r q.
                      result_for-Live sv.sources.store h.agent_id max_body_len fuel h ec ec' r
                        (first ∙ ap (λ v. some (v, ec')) q)))
            ]
      ]

  -- What Search returns are at most as many results as asked for (3 where that is not positive),
  -- and each shows a point that is not archived or a page that is active.
  pub search-Live :
      (sv : Service F) (fuel : ℕ) (agent query : Text) (top_k max_body_len : ℤ)
      (out : List (Result F))
      → search fl half sv fuel agent query top_k max_body_len ≡ some out
      → All LiveResult out × (length out ≤ positive_or 3 top_k)
  unfolding search rank
  search-Live sv fuel agent query top_k max_body_len out e =
      elim (Bool-cases (trim_space query == [])) [
        | inl blank ↦
            let same : [] ≡ out = ground (arith, blank, e) in
            subst (λ u. All LiveResult u × (length u ≤ positive_or 3 top_k)) same (tt, omega arith)
        | inr asked ↦
            let n = positive_or 3 top_k in
            let sorted =
              sort_hits fl
                (dedupe_hits (search_all fl half sv.sources (visible sv.resolver agent) query n)) in
            let (live, short) =
              results_of-Live sv fuel max_body_len (take n sorted) new_entity_cache out
                (ground (arith, asked, e)) in
            (live, omega (arith, short, length-take-le n sorted))
      ]
