-- ===== src/Fork/Candidates.antt =====
-- internal/fork/fork.go: Candidate, renderIndices, mapTurnRange, dedupe and what they call.
pub mod Ranges
pub mod Dedupe
pub mod Topics
pub mod Absorbed
use interest_memory.Prelude.{
  ℕ, zero, suc, ◌+◌, ◌-◌, String, Bool, true, false, not, ◌&&◌, ◌||◌, Option, none, some, List, [],
  ◌∷◌, ◌++◌, ℤ, pos, negsuc, positive_or, length, get_elem?, Eq, ◌==◌, nat_eq, string_eq, list_beq,
  ltb, leb, if◌then◌else◌, Text, codes, trim_space, fields, join, to_lower, Float,
}
use interest_memory.Fork.Message.{Message}
use interest_memory.Fork.Windows.{◌>>=◌}

-- `[2]int`
pub record Range : Type 0 where
  pub start : ℤ
  pub stop : ℤ

pub record Candidate (F : Type 0) : Type 0 where
  pub topic : Text
  pub reason : Text
  pub confidence : F
  pub tags : List Text
  pub turn_range : Range
  pub subjective : Bool
  pub wiki_worthy : Option Bool
  pub event_time : ℕ

-- Whether the prompt shows the message.
unfoldable pub rendered : Bool → Message → Bool
rendered include_tool m =
    (m.role == "user" || (m.role == "assistant" || (include_tool && m.role == "tool")))
    && not (list_beq (trim_space m.content) [])

unfoldable pub render_from : ℕ → List Message → Bool → List ℕ
render_from i [] include_tool = []
render_from i (m ∷ ms) include_tool =
    let rest = render_from (suc i) ms include_tool in
    if rendered include_tool m then i ∷ rest else rest

unfoldable pub render_indices : List Message → Bool → List ℕ
render_indices turns include_tool = render_from 0 turns include_tool

abbrev pub is_zero : ℤ → Bool
is_zero (pos zero) = true
is_zero (pos (suc n)) = false
is_zero (negsuc n) = false

abbrev pub is_zero_range : Range → Bool
is_zero_range r = is_zero r.start && is_zero r.stop

-- The clamps on the end, after those that make both ends at least 1.
abbrev pub clamp_end : ℕ → ℕ → ℕ → ℕ
clamp_end size s e = let top = (if ltb size e then size else e) in if ltb top s then s else top

-- `none` is an index out of range.
pub map_turn_range : {F : Type 0} → Candidate F → List ℕ → Option (Candidate F)
map_turn_range c idx =
    if length idx == 0 || is_zero_range c.turn_range
    then some c
    else (let s = positive_or 1 c.turn_range.start in
        let e = clamp_end (length idx) s (positive_or 1 c.turn_range.stop) in
        if ltb (length idx) s then some c else (do
          start ← get_elem? idx (s - 1)
          end ← get_elem? idx (e - 1)
          some (record c { turn_range = record { start = pos start; stop = pos end } })))

-- strings.ToLower(strings.Join(strings.Fields(strings.TrimSpace(s)), " "))
unfoldable pub normalize_topic : (ℕ → ℕ) → Text → Text
normalize_topic lower s = to_lower lower (join (codes " ") (fields (trim_space s)))

abbrev pub contains_string : List Text → Text → Bool
contains_string [] v = false
contains_string (x ∷ s) v = list_beq x v || contains_string s v

-- The tags of the duplicate that the first one lacks, in order.
abbrev pub fold_tags : List Text → List Text → List Text
fold_tags tags [] = tags
fold_tags tags (t ∷ ts) = fold_tags (if contains_string tags t then tags else tags ++ t ∷ []) ts

-- Comparisons of `int`.
abbrev pub ltz : ℤ → ℤ → Bool
ltz (pos a) (pos b) = ltb a b
ltz (pos a) (negsuc b) = false
ltz (negsuc a) (pos b) = true
ltz (negsuc a) (negsuc b) = ltb b a

unfoldable pub merge_range : Range → Range → Range
merge_range m c = record {
  start =
      if ltz (pos 0) c.start && (is_zero m.start || ltz c.start m.start) then c.start else m.start;
  stop = if ltz m.stop c.stop then c.stop else m.stop;
}

abbrev first_verdict : Option Bool → Option Bool → Option Bool
first_verdict none v = v
first_verdict (some b) v = some b

module _ (fl : Float) (lower : ℕ → ℕ) where
  open fl use {F, lt}

  -- A duplicate `c` folded into the first candidate `m` of its topic.
  unfoldable pub merge_into : Candidate F → Candidate F → Candidate F
  merge_into m c =
      let better = lt m.confidence c.confidence in
      record {
        topic = if better then c.topic else m.topic;
        reason = if better then c.reason else m.reason;
        confidence = if better then c.confidence else m.confidence;
        tags = fold_tags m.tags c.tags;
        turn_range = merge_range m.turn_range c.turn_range;
        subjective = if better then c.subjective else m.subjective;
        wiki_worthy = first_verdict m.wiki_worthy c.wiki_worthy;
        event_time = m.event_time;
      }

  -- The search for the first candidate of the topic, and the write or the append.
  unfoldable pub place : Text → Candidate F → List (Candidate F) → List (Candidate F)
  place key c [] = c ∷ []
  place key c (m ∷ out) =
      if list_beq (normalize_topic lower m.topic) key
      then merge_into m c ∷ out
      else m ∷ place key c out

  -- One round of the loop.
  unfoldable pub dedupe_step : List (Candidate F) → Candidate F → List (Candidate F)
  dedupe_step out c =
      let key = normalize_topic lower c.topic in
      if list_beq key [] then out ++ c ∷ [] else place key c out

  unfoldable pub dedupe_loop : List (Candidate F) → List (Candidate F) → List (Candidate F)
  dedupe_loop out [] = out
  dedupe_loop out (c ∷ cands) = dedupe_loop (dedupe_step out c) cands

  unfoldable pub dedupe : List (Candidate F) → List (Candidate F)
  dedupe cands = dedupe_loop [] cands
