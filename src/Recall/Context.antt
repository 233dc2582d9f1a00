-- ===== src/Recall/Context.antt =====
-- internal/recall/recall.go, Recall: the grading by namespace, the rendered lines, and the cache of
-- rendered contexts. Times are in seconds.
use interest_memory.Prelude.{
  ℕ, ◌+◌, ℤ, pos, positive_or, Bool, true, false, not, ◌&&◌, Option, none, some, List, [], ◌∷◌,
  ◌++◌, String, string_eq, text_eq, ◌==◌, Text, codes, trim_space, Float, if◌then◌else◌, ltb, eqb,
}
use interest_memory.Cache
use interest_memory.Cache.{Cache}
use interest_memory.Vec.{Hit}
use interest_memory.Verify.{Graded}
use interest_memory.Recall.{Options, visible, rank}
use interest_memory.Recall.Retrieve.{Sources, retrieve}

-- The verbs of fmt and time that the source uses: `%d`, `%.4f`, `%.2f`, RFC 3339 and the date.
pub record Format (F : Type 0) : Type 0 where
  pub integer : ℤ → Text
  pub four_digits : F → Text
  pub two_digits : F → Text
  pub rfc3339 : ℕ → Text
  pub date : ℕ → Text

-- The groups of gradeByAgent under their keys, in order.
abbrev pub group_key : Text → Text
group_key agent = if agent == [] then 0 ∷ [] else agent

abbrev pub group_agent : Text → Text
group_agent key = if key == (0 ∷ []) then [] else key

module _ {F : Type 0} where
  abbrev pub add_to_group : Hit F → List (Text × List (Hit F)) → List (Text × List (Hit F))
  add_to_group h [] = (group_key h.agent_id, h ∷ []) ∷ []
  add_to_group h ((k, hs) ∷ groups) =
      if k == group_key h.agent_id
      then (k, hs ++ h ∷ []) ∷ groups
      else (k, hs) ∷ add_to_group h groups

  abbrev pub group_hits : List (Text × List (Hit F)) → List (Hit F) → List (Text × List (Hit F))
  group_hits groups [] = groups
  group_hits groups (h ∷ hits) = group_hits (add_to_group h groups) hits

  -- The grader of one namespace may fail.
  abbrev pub grade_groups :
      (Text → List (Hit F) → Option (List (Graded F)))
      → List (Text × List (Hit F))
      → Option (List (Graded F))
  grade_groups grader [] = some []
  grade_groups grader ((k, hs) ∷ groups) = elim (grader (group_agent k) hs) [
    | none ↦ none
    | some gs ↦ elim (grade_groups grader groups) [ none ↦ none | some rest ↦ some (gs ++ rest) ]
  ]

  unfoldable pub grade_by_agent :
      (Text → List (Hit F) → Option (List (Graded F))) → List (Hit F) → Option (List (Graded F))
  grade_by_agent grader hits = grade_groups grader (group_hits [] hits)

  abbrev pub title_of : Graded F → Text
  title_of g = if g.title == [] then g.hit.id else g.title

module _ (fl : Float) (fm : Format fl.F) where
  open fl use {F, lt, zero_f}

  -- One line of the context.
  unfoldable pub render_one_with_source : Graded F → Bool → Text
  render_one_with_source g annotate =
      codes "- ["
      ++ g.hit.id
      ++ codes "] "
      ++ title_of g
      ++ codes " ["
      ++ codes g.hit.kind
      ++ codes "]"
      ++ (if eqb g.event_time 0 then [] else codes " (at " ++ fm.date g.event_time ++ codes ")")
      ++ (if lt zero_f g.confidence
          then codes " (confidence "
            ++ fm.two_digits g.confidence
            ++ codes ", "
            ++ codes g.status
            ++ codes ")"
          else [])
      ++ (if not (g.fresh_level == "") && not (g.fresh_level == "unknown")
          then codes " freshness=" ++ codes g.fresh_level
          else [])
      ++ (if g.note == [] then [] else codes " — " ++ g.note)
      ++ (if annotate && not (g.hit.agent_id == [])
          then codes " [from: " ++ g.hit.agent_id ++ codes "]"
          else [])
      ++ codes "\n"

  abbrev pub assemble_context : Bool → List (Graded F) → Text
  assemble_context annotate [] = []
  assemble_context annotate (g ∷ graded) =
      render_one_with_source g annotate ++ assemble_context annotate graded

  abbrev pub key_time : String → Option ℕ → Text
  key_time word none = []
  key_time word (some t) = codes word ++ fm.rfc3339 t ++ codes ";"

  abbrev pub show_bool : Bool → Text
  show_bool true = codes "true"
  show_bool false = codes "false"

  unfoldable pub recall_cache_key : Text → Text → Options F → Text
  recall_cache_key agent query opts =
      agent
      ++ 0 ∷ query
      ++ 0 ∷ codes "topk="
      ++ fm.integer opts.top_k
      ++ codes ";wiki="
      ++ show_bool opts.include_wiki
      ++ codes ";minscore="
      ++ fm.four_digits opts.min_score
      ++ codes ";"
      ++ key_time "after=" opts.after
      ++ key_time "before=" opts.before
      ++ codes "days="
      ++ fm.integer opts.recent_days

-- `recallCacheEntry`
pub record CacheEntry : Type 0 where
  pub text : Text
  pub expires : ℕ

abbrev pub recall_cache_ttl : ℕ
recall_cache_ttl = 30

-- The fields of `service`.
pub record Service (F : Type 0) : Type 0 where
  pub sources : Sources F
  pub grader : Text → List (Hit F) → Option (List (Graded F))
  pub resolver : Option (Text → Option (List Text))
  pub annotate : Bool

abbrev pub store_context :
    Cache Text CacheEntry → Text → ℕ → Option (Option Text) → Cache Text CacheEntry × Option Text
store_context c key stored_at none = (c, none)
store_context c key stored_at (some none) = (c, some [])
store_context c key stored_at (some (some text)) =
    (Cache.set c key (record { text = text; expires = stored_at + recall_cache_ttl }), some text)

-- The text of an entry that has not expired.
abbrev pub unexpired : ℕ → Option CacheEntry → Option Text
unexpired now none = none
unexpired now (some e) = if ltb now e.expires then some e.text else none

abbrev pub or_fresh :
    Option Text
    → Cache Text CacheEntry
    → Text
    → ℕ
    → Option (Option Text)
    → Cache Text CacheEntry × Option Text
or_fresh (some text) c key stored_at fresh = (c, some text)
or_fresh none c key stored_at fresh = store_context c key stored_at fresh

-- `opts` with its default for TopK.
abbrev pub with_default : {F : Type 0} → Options F → Options F
with_default opts = record opts { top_k = pos (positive_or 8 opts.top_k) }

module _ (fl : Float) (narrow : fl.F → fl.F) (half : fl.F) (fm : Format fl.F) where
  open fl use {F}

  -- The loop over the namespaces; `none` is an error or a panic of one.
  abbrev pub retrieve_all : Sources F → ℕ → List Text → Text → Options F → ℕ → Option (List (Hit F))
  retrieve_all s now [] query opts top_k = some []
  retrieve_all s now (ns ∷ nss) query opts top_k =
      elim (retrieve fl narrow half s now ns query opts top_k) [
        | none ↦ none
        | some hits ↦ elim (retrieve_all s now nss query opts top_k) [
          | none ↦ none
          | some all ↦ some (hits ++ all)
        ]
      ]

  abbrev pub context_of : Service F → Option (List (Graded F)) → Option (Option Text)
  context_of sv none = none
  context_of sv (some graded) = some (some (assemble_context fl fm sv.annotate graded))

  abbrev pub ranked_context : Service F → ℕ → Option (List (Hit F)) → Option (Option Text)
  ranked_context sv top_k none = none
  ranked_context sv top_k (some []) = some none
  ranked_context sv top_k (some (h ∷ hits)) =
      context_of sv (grade_by_agent sv.grader (rank fl top_k (h ∷ hits)))

  -- The context that is not in the cache: `some none` where there are no hits, which is not stored.
  unfoldable pub fresh_context : Service F → ℕ → Text → Text → Options F → ℕ → Option (Option Text)
  fresh_context sv now agent query opts top_k =
      ranked_context sv top_k
        (retrieve_all sv.sources now (visible sv.resolver agent) query opts top_k)

  -- Recall, which reads the clock at `now` and, to store its context, at `stored_at`.
  unfoldable pub recall :
      Service F
      → ℕ
      → ℕ
      → Cache Text CacheEntry
      → Text
      → Text
      → Options F
      → Cache Text CacheEntry × Option Text
  recall sv now stored_at c agent query opts =
      if trim_space query == []
      then (c, some [])
      else (let key = recall_cache_key fl fm agent query (with_default opts) in
          let (c', found) = Cache.get c key in
          or_fresh (unexpired now found) c' key stored_at
            (fresh_context sv now agent query (with_default opts) (positive_or 8 opts.top_k)))
