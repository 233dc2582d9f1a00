-- ===== src/Store.antt =====
-- internal/store/types.go: the entities. Ids, namespaces and bodies are texts, the words of a closed
-- list are strings, and a time is a number of seconds, with 0 for the zero time. `F` is float64.
pub mod Replace
use interest_memory.Prelude.{ℕ, ℤ, Bool, Option, List, String, Text, string_eq, ◌==◌, ◌||◌, not}
use interest_memory.Fork.Candidates.{Range}

pub data EdgeType : Type 0 where
  related : EdgeType
  contradict : EdgeType
  sequel : EdgeType
  reference : EdgeType
  has_page : EdgeType

pub record Evidence : Type 0 where
  pub kind : String
  pub source_id : Text
  pub url : Text
  pub turn_range : Range
  pub query : Text
  pub captured_at : ℕ
  pub excerpt : Text

pub record Reliability (F : Type 0) : Type 0 where
  pub confidence : F
  pub evidence : List Evidence
  pub status : String

pub record Freshness : Type 0 where
  pub level : String
  pub updated_at : ℕ
  pub ttl_days : ℤ

pub record InterestPoint (F : Type 0) : Type 0 where
  pub id : Text
  pub agent_id : Text
  pub name : Text
  pub summary : Text
  pub keywords : List Text
  pub importance : F
  pub status : String
  pub subjective : Bool
  pub turn_range : Range
  pub event_time : ℕ
  pub reliability : Reliability F
  pub freshness : Freshness
  pub first_seen_at : ℕ
  pub last_seen_at : ℕ
  pub seen_count : ℕ
  pub source_sessions : List Text
  pub wiki_worthy : Option Bool

pub record Claim (F : Type 0) : Type 0 where
  pub id : Text
  pub agent_id : Text
  pub page_id : Text
  pub text : Text
  pub status : String
  pub confidence : F
  pub evidence : List Evidence
  pub freshness : Freshness

pub record Page (F : Type 0) : Type 0 where
  pub id : Text
  pub agent_id : Text
  pub page_type : String
  pub title : Text
  pub body_md : Text
  pub status : String
  pub tags : List Text
  pub sources : List Text
  pub event_time : ℕ
  pub claims : List (Claim F)
  pub created_at : ℕ
  pub updated_at : ℕ

pub record Edge (F : Type 0) : Type 0 where
  pub source_id : Text
  pub target_id : Text
  pub kind : EdgeType
  pub weight : F
  pub created_at : ℕ

pub record Contradiction : Type 0 where
  pub id : Text
  pub agent_id : Text
  pub left_id : Text
  pub right_id : Text
  pub description : Text
  pub status : String
  pub created_at : ℕ

-- `p.Status == "archived"`
abbrev pub archived : {F : Type 0} → InterestPoint F → Bool
archived p = p.status == "archived"

-- `pg.Status != "" && pg.Status != "active"`, negated.
abbrev pub active_page : {F : Type 0} → Page F → Bool
active_page pg = pg.status == "" || pg.status == "active"

-- The queries of one namespace's tables that the read paths make. The outer `none` is an error of
-- the database, the inner one an id that is not there.
pub record Reads (F : Type 0) : Type 0 where
  pub get_interest_point : Text → Option (Option (InterestPoint F))
  pub get_page : Text → Option (Option (Page F))
  pub list_claims : Text → Option (List (Claim F))
  pub outlinks : Text → Option (List (Edge F))
  pub backlinks : Text → Option (List (Edge F))
