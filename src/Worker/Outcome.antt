-- ===== src/Worker/Outcome.antt =====
-- The end of `process` in internal/worker/worker.go.
use interest_memory.Prelude.{
  ◌≡◌, ◌↔◌, refl, sym, ap, ◌∙◌, true, Option, none, Text, arith, Option-cases, inl, inr,
}
use interest_memory.Worker.{
  done, failed, is_terminal, Fetched, fetch_error, missing, fetched, process_end,
}

failed-not_done : {X : Type 0} → failed ≡ done → X
failed-not_done e = absurd (cc)

-- `process` ends in a terminal status, and in `done` exactly if the transcript was read, processed
-- and marked, each without an error.
pub process_end-done :
    {T : Type 0} (tx : Fetched T) (process_session : T → Option Text) (marked : Option Text)
    → (is_terminal (process_end tx process_session marked).0 ≡ true)
      × (((process_end tx process_session marked).0 ≡ done)
          ↔ ((t : T) × (tx ≡ fetched t) × (process_session t ≡ none) × (marked ≡ none)))
unfolding process_end
process_end-done (fetch_error err) process_session marked =
    (refl, (λ e. failed-not_done e, λ h. let (t, q, _, _) = h in absurd (ground (arith, q))))
process_end-done missing process_session marked =
    (refl, (λ e. failed-not_done e, λ h. let (t, q, _, _) = h in absurd (ground (arith, q))))
process_end-done {T = T} (fetched t) process_session marked =
    elim (Option-cases (process_session t)) [
      | inr (err, bad) ↦ rw bad (
        refl,
        (
          λ e. failed-not_done e,
          λ h.
              let (u, q, good, _) = h in
              let same : u ≡ t = ground (arith, q) in
              absurd (ground (arith, bad, ap process_session (sym same) ∙ good)),
        ),
      )
      | inl good ↦ elim (Option-cases marked) [
        | inr (err, bad) ↦
            rw (good, bad)
              (
                refl,
                (
                  λ e. failed-not_done e,
                  λ h. let (u, _, _, all) = h in absurd (ground (arith, all)),
                ),
              )
        | inl all ↦ rw (good, all) (refl, (λ e. (t, refl, good, refl), λ h. refl))
      ]
    ]
