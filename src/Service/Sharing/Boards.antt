-- ===== src/Service/Sharing/Boards.antt =====
-- The boards that internal/service/kanban.go leaves out.
use interest_memory.Prelude.{
  ◌≡◌, ◌↔◌, ◌⊎◌, ◌≢◌, refl, sym, subst, inl, inr, Bool, true, ◌&&◌, List, [], ◌∷◌, ◌==◌, nat_eq,
  text_eq, Text, trim_space, Among, Among-cases, Among-cons, not_Among, Bool-cases, arith,
  list_beq_iff,
}
use interest_memory.Service.Sharing.{entry_matches, any_entry, kanban_board_excluded}

-- An entry that is not blank is, up to case and outer spaces, the board's id or its name, which is
-- not blank either.
abbrev pub Matches : (Text → Text → Bool) → Text → Text → Text → Type 0
Matches fold e id name =
    (trim_space e ≢ [])
    × (((trim_space id ≢ []) × (fold (trim_space e) (trim_space id) ≡ true))
        ⊎ ((trim_space name ≢ []) × (fold (trim_space e) (trim_space name) ≡ true)))

entry_matches-Matches :
    (fold : Text → Text → Bool) (e id name : Text)
    → (entry_matches fold (trim_space e) (trim_space id) (trim_space name) ≡ true)
      ↔ Matches fold e id name
unfolding entry_matches
entry_matches-Matches fold e id name = ground (
  arith,
  list_beq_iff (trim_space e) [],
  list_beq_iff (trim_space id) [],
  list_beq_iff (trim_space name) [],
)

any_entry-Matches :
    (fold : Text → Text → Bool) (excludes : List Text) (id name : Text)
    → (any_entry fold excludes (trim_space id) (trim_space name) ≡ true)
      ↔ ((e : Text) × Among e excludes × Matches fold e id name)
any_entry-Matches fold [] id name = ((λ q. absurd (cc)), λ h. not_Among h.0 h.1)
any_entry-Matches fold (e ∷ excludes) id name =
    elim (Bool-cases (entry_matches fold (trim_space e) (trim_space id) (trim_space name))) [
      | inl here ↦ rw here (
        (λ q. (e, ([], excludes, refl), (entry_matches-Matches fold e id name).0 here)),
        λ h. refl,
      )
      | inr differs ↦
          let rest = any_entry-Matches fold excludes id name in
          rw differs (
            (λ q. let (d, i, n) = rest.0 q in (d, Among-cons d e excludes i, n)),
            λ h. elim (Among-cases h.0 e excludes h.1) [
              | inl same ↦
                  let names = subst (λ u. Matches fold u id name) (sym same) h.2 in
                  absurd (let q = (entry_matches-Matches fold e id name).1 names in cc)
              | inr later ↦ rest.1 (h.0, later, h.2)
            ],
          )
    ]

-- A board is excluded exactly where an entry of the list is, trimmed and up to case, its id or
-- its name, trimmed; neither a blank entry nor a blank id or name ever matches.
kanban_board_excluded-Matches :
    (fold : Text → Text → Bool) (excludes : List Text) (board_id board_name : Text)
    → (kanban_board_excluded fold excludes board_id board_name ≡ true)
      ↔ ((e : Text) × Among e excludes × Matches fold e board_id board_name)
unfolding kanban_board_excluded
kanban_board_excluded-Matches fold [] board_id board_name =
    any_entry-Matches fold [] board_id board_name
kanban_board_excluded-Matches fold (e ∷ excludes) board_id board_name =
    elim (Bool-cases (trim_space board_id == [] && trim_space board_name == [])) [
      | inr named ↦ rw named (any_entry-Matches fold (e ∷ excludes) board_id board_name)
      | inl nameless ↦ rw nameless (
        (λ q. absurd (cc)),
        λ h. absurd (
            ground (
              arith,
              nameless,
              list_beq_iff (trim_space board_id) [],
              list_beq_iff (trim_space board_name) [],
              h.2,
            )),
      )
    ]
