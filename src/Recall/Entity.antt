-- ===== src/Recall/Entity.antt =====
-- internal/recall/recall.go: structured results. Search, GetByID, resultFor and what they call, with
-- the cache of one request passed along. A body is valid UTF-8, so that it is its code points.
pub mod Cut
use interest_memory.Prelude.{
  ℕ, zero, suc, ◌+◌, ◌-◌, ℤ, pos, negsuc, positive_or, Bool, true, false, not, ◌||◌, ◌&&◌, Option,
  none, some, List, [], ◌∷◌, ◌++◌, String, string_eq, text_eq, ◌==◌, Eq, Text, codes, trim_space,
  Float, if◌then◌else◌, ltb, leb, eqb, length, take, lookup, insert,
}
use interest_memory.Store.{
  EdgeType, Evidence, Reliability, Freshness, InterestPoint, Claim, Page, Edge, Reads, archived,
  active_page,
}
use interest_memory.Store.Replace.{Replacement}
use interest_memory.Vec.{Hit}
use interest_memory.Verify.{is_point}
use interest_memory.Recall.{visible, rank}
use interest_memory.Recall.Retrieve.{RecallStore, Sources, search_hits, or_empty}
use interest_memory.Recall.Context.{Service}

pub record EdgeRef (F : Type 0) : Type 0 where
  pub id : Text
  pub title : Text
  pub kind : EdgeType
  pub weight : F

pub record ReplacementRef : Type 0 where
  pub kind : String
  pub id : Text
  pub title : Text
  pub status : String

-- `reliability` is nil-like, `none`, where the source leaves the zero value.
pub record Result (F : Type 0) : Type 0 where
  pub kind : String
  pub id : Text
  pub title : Text
  pub body_md : Text
  pub status : String
  pub subjective : Bool
  pub agent : Text
  pub claims : List (Claim F)
  pub evidence : List Evidence
  pub reliability : Option (Reliability F)
  pub freshness : Freshness
  pub outlinks : List (EdgeRef F)
  pub backlinks : List (EdgeRef F)
  pub replacement : Option ReplacementRef

pub record EntityCache (F : Type 0) : Type 0 where
  pub ips : List (Text × InterestPoint F)
  pub pgs : List (Text × Page F)
  pub titles : List (Text × Text)

abbrev pub new_entity_cache : {F : Type 0} → EntityCache F
new_entity_cache = record { ips = []; pgs = []; titles = [] }

-- The bytes of a code point in UTF-8.
unfoldable pub rune_len : ℕ → ℕ
rune_len c = if ltb c 0x80 then 1 else if ltb c 0x800 then 2 else if ltb c 0x10000 then 3 else 4

unfoldable pub byte_len : Text → ℕ
byte_len [] = 0
byte_len (c ∷ s) = rune_len c + byte_len s

-- The runes that lie wholly in the first `n` bytes: the cut, backed off to a rune boundary.
unfoldable pub whole_runes : ℕ → Text → Text
whole_runes n [] = []
whole_runes n (c ∷ s) =
    let rest = whole_runes (n - rune_len c) s in if leb (rune_len c) n then c ∷ rest else []

unfoldable pub truncate : Text → ℤ → Text
truncate s (pos zero) = s
truncate s (pos (suc n)) =
    if leb (byte_len s) (suc n) then s else whole_runes (suc n) s ++ codes "..."
truncate s (negsuc n) = s

-- The known titles of the ids, and the ids without one.
abbrev pub known_titles : List (Text × Text) → List Text → List (Text × Text)
known_titles titles [] = []
known_titles titles (id ∷ ids) = elim (lookup id titles) [
  | none ↦ known_titles titles ids
  | some t ↦ insert id t (known_titles titles ids)
]

abbrev pub uncached : List (Text × Text) → List Text → List Text
uncached titles [] = []
uncached titles (id ∷ ids) = elim (lookup id titles) [
  | none ↦ id ∷ uncached titles ids
  | some t ↦ uncached titles ids
]

abbrev pub title_or_empty : Option Text → Text
title_or_empty none = []
title_or_empty (some t) = t

module _ {F : Type 0} where
  abbrev pub keep_point :
      Text
      → EntityCache F
      → Option (Option (InterestPoint F))
      → Option (InterestPoint F) × EntityCache F
  keep_point id ec none = (none, ec)
  keep_point id ec (some none) = (none, ec)
  keep_point id ec (some (some p)) = (some p, record ec { ips = insert id p ec.ips })

  abbrev pub or_read_point :
      Reads F
      → Text
      → EntityCache F
      → Option (InterestPoint F)
      → Option (InterestPoint F) × EntityCache F
  or_read_point r id ec (some p) = (some p, ec)
  or_read_point r id ec none = keep_point id ec (r.get_interest_point id)

  -- entityCache.interestPoint; its callers take an error for no point.
  unfoldable pub cached_point :
      Reads F → Text → EntityCache F → Option (InterestPoint F) × EntityCache F
  cached_point r id ec = or_read_point r id ec (lookup id ec.ips)

  abbrev pub keep_page :
      Text → EntityCache F → Option (Option (Page F)) → Option (Page F) × EntityCache F
  keep_page id ec none = (none, ec)
  keep_page id ec (some none) = (none, ec)
  keep_page id ec (some (some pg)) = (some pg, record ec { pgs = insert id pg ec.pgs })

  abbrev pub or_read_page :
      Reads F → Text → EntityCache F → Option (Page F) → Option (Page F) × EntityCache F
  or_read_page r id ec (some pg) = (some pg, ec)
  or_read_page r id ec none = keep_page id ec (r.get_page id)

  unfoldable pub cached_page : Reads F → Text → EntityCache F → Option (Page F) × EntityCache F
  cached_page r id ec = or_read_page r id ec (lookup id ec.pgs)

  abbrev pub targets : List (Edge F) → List Text
  targets [] = []
  targets (e ∷ es) = e.target_id ∷ targets es

  abbrev pub origins : List (Edge F) → List Text
  origins [] = []
  origins (e ∷ es) = e.source_id ∷ origins es

  -- `out` and `ec.titles` after the points, and after the pages, which give way to a title in `out`.
  abbrev pub put_point_titles :
      List (Text × Text) × List (Text × Text)
      → List (InterestPoint F)
      → List (Text × Text) × List (Text × Text)
  put_point_titles (out, memo) [] = (out, memo)
  put_point_titles (out, memo) (p ∷ ps) =
      put_point_titles (insert p.id p.name out, insert p.id p.name memo) ps

  abbrev pub put_page_title :
      Option Text
      → Page F
      → List (Text × Text) × List (Text × Text)
      → List (Text × Text) × List (Text × Text)
  put_page_title (some t) pg (out, memo) = (out, memo)
  put_page_title none pg (out, memo) = (insert pg.id pg.title out, insert pg.id pg.title memo)

  abbrev pub put_page_titles :
      List (Text × Text) × List (Text × Text)
      → List (Page F)
      → List (Text × Text) × List (Text × Text)
  put_page_titles (out, memo) [] = (out, memo)
  put_page_titles (out, memo) (pg ∷ pgs) =
      put_page_titles (put_page_title (lookup pg.id out) pg (out, memo)) pgs

  abbrev pub batch_titles :
      RecallStore F
      → Text
      → List Text
      → List (Text × Text) × List (Text × Text)
      → List (Text × Text) × List (Text × Text)
  batch_titles st ns [] state = state
  batch_titles st ns (id ∷ ids) state =
      put_page_titles (put_point_titles state (or_empty (st.points_by_ids ns (id ∷ ids))))
        (or_empty (st.pages_by_ids ns (id ∷ ids)))

  -- The titles of the ids, and the cache with those that were read.
  unfoldable pub resolve_titles :
      RecallStore F → Text → List Text → EntityCache F → List (Text × Text) × EntityCache F
  resolve_titles st ns ids ec =
      let (out, memo) =
        batch_titles st ns (uncached ec.titles ids) (known_titles ec.titles ids, ec.titles) in
      (out, record ec { titles = memo })

  abbrev pub out_refs : List (Text × Text) → List (Edge F) → List (EdgeRef F)
  out_refs titles [] = []
  out_refs titles (e ∷ es) =
      record {
        id = e.target_id;
        title = title_or_empty (lookup e.target_id titles);
        kind = e.kind;
        weight = e.weight;
      }
      ∷ out_refs titles es

  abbrev pub in_refs : List (Text × Text) → List (Edge F) → List (EdgeRef F)
  in_refs titles [] = []
  in_refs titles (e ∷ es) =
      record {
        id = e.source_id;
        title = title_or_empty (lookup e.source_id titles);
        kind = e.kind;
        weight = e.weight;
      }
      ∷ in_refs titles es

  unfoldable pub attach_edges :
      RecallStore F → Text → Text → Result F → EntityCache F → Result F × EntityCache F
  attach_edges st ns id r ec =
      let outs = or_empty ((st.reads ns).outlinks id) in
      let ins = or_empty ((st.reads ns).backlinks id) in
      let (titles, ec') = resolve_titles st ns (targets outs ++ origins ins) ec in
      (
        record r {
          outlinks = r.outlinks ++ out_refs titles outs;
          backlinks = r.backlinks ++ in_refs titles ins;
        },
        ec',
      )

  abbrev pub point_result : InterestPoint F → ℤ → Result F
  point_result p max_body_len = record {
    kind = "interest_point";
    id = p.id;
    title = p.name;
    body_md = truncate p.summary max_body_len;
    status = p.status;
    subjective = p.subjective;
    agent = [];
    claims = [];
    evidence = p.reliability.evidence;
    reliability = some p.reliability;
    freshness = p.freshness;
    outlinks = [];
    backlinks = [];
    replacement = none;
  }

  abbrev pub page_result : Reads F → Page F → ℤ → Result F
  page_result r pg max_body_len = record {
    kind = "wiki_page";
    id = pg.id;
    title = pg.title;
    body_md = truncate pg.body_md max_body_len;
    status = pg.status;
    subjective = false;
    agent = [];
    claims = or_empty (r.list_claims pg.id);
    evidence = [];
    reliability = none;
    freshness = record { level = "unknown"; updated_at = 0; ttl_days = pos 0 };
    outlinks = [];
    backlinks = [];
    replacement = none;
  }
