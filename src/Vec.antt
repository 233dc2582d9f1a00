-- ===== src/Vec.antt =====
-- internal/vec/vec.go: the entries of the vector index, and the hits of a search.
use interest_memory.Prelude.{List, String, Text}

pub record Entry (F : Type 0) : Type 0 where
  pub id : Text
  pub agent_id : Text
  pub kind : String
  pub vector : List F
  pub metadata : List (String × Text)

pub record Hit (F : Type 0) : Type 0 where
  pub id : Text
  pub agent_id : Text
  pub kind : String
  pub score : F
  pub meta : List (String × Text)
