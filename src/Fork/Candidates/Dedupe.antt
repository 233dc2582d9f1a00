-- ===== src/Fork/Candidates/Dedupe.antt =====
-- What dedupe keeps of the candidates.
use interest_memory.Prelude.{
  ℕ, zero, suc, ◌≡◌, ◌≢◌, refl, subst, Bool, true, false, ◌||◌, List, [], ◌∷◌, ◌++◌, ℤ, pos, negsuc,
  Eq, ◌==◌, nat_eq, list_beq, list_beq_iff, ltb, min, if◌then◌else◌, arith, Bool-cases, inl, inr,
  Text, Float, All, All-map,
}
use mathlib.Core.List.{append_assoc}
use interest_memory.Fork.Candidates.{
  Candidate, normalize_topic, contains_string, fold_tags, ltz, merge_range, merge_into,
}

instance abbrev pub text_eq : Eq Text
text_eq = record { beq = list_beq; beq_iff = list_beq_iff }

contains-append :
    (s : List Text) (t v : Text)
    → contains_string (s ++ t ∷ []) v ≡ (contains_string s v || list_beq t v)
contains-append [] t v = ground arith
contains-append (x ∷ s) t v = ground (arith, contains-append s t v)

-- Folding keeps the old tags, and takes the new ones in.
fold_tags-keeps :
    (tags ts : List Text) (v : Text)
    → contains_string tags v ≡ true
    → contains_string (fold_tags tags ts) v ≡ true
fold_tags-keeps tags [] v h = h
fold_tags-keeps tags (t ∷ ts) v h = elim (Bool-cases (contains_string tags t)) [
  | inl old ↦ rw old (fold_tags-keeps tags ts v h)
  | inr new ↦
      rw new (fold_tags-keeps (tags ++ t ∷ []) ts v (ground (arith, contains-append tags t v)))
]

fold_tags-takes : (tags ts : List Text) → All (λ t. contains_string (fold_tags tags ts) t ≡ true) ts
fold_tags-takes tags [] = tt
fold_tags-takes tags (t ∷ ts) = (fold_tags-keeps next ts t now, fold_tags-takes next ts)
  where
    next : List Text
    next = if contains_string tags t then tags else tags ++ t ∷ []

    now : contains_string next t ≡ true
    now = ground (arith, contains-append tags t t, list_beq_iff t t)

contains_self : (pre ts : List Text) → All (λ t. contains_string (pre ++ ts) t ≡ true) ts
contains_self pre [] = tt
contains_self pre (t ∷ ts) = (
  contains-middle pre t ts,
  subst (λ u. All (λ v. contains_string u v ≡ true) ts) (append_assoc pre (t ∷ []) ts)
      (contains_self (pre ++ t ∷ []) ts),
)
  where
    contains-middle :
        (pre : List Text) (t : Text) (ts : List Text) → contains_string (pre ++ t ∷ ts) t ≡ true
    contains-middle [] t ts = ground (arith, list_beq_iff t t)
    contains-middle (x ∷ pre) t ts = ground (arith, contains-middle pre t ts)

ltz_irrefl : (a : ℤ) → ltz a a ≡ false
ltz_irrefl (pos a) = ground arith
ltz_irrefl (negsuc a) = ground arith

-- What is not below `m` is not below a greater end.
ltz-trans_false : (m c d : ℤ) → ltz m c ≡ true → ltz m d ≡ false → ltz c d ≡ false
ltz-trans_false (pos m) (pos c) (pos d) h k = ground arith
ltz-trans_false (pos m) (pos c) (negsuc d) h k = refl
ltz-trans_false (pos m) (negsuc c) d h k = cc
ltz-trans_false (negsuc m) (pos c) (pos d) h k = cc
ltz-trans_false (negsuc m) (pos c) (negsuc d) h k = refl
ltz-trans_false (negsuc m) (negsuc c) (pos d) h k = cc
ltz-trans_false (negsuc m) (negsuc c) (negsuc d) h k = ground arith

-- The range of a merged candidate: the end is the greater one, and the start the smaller one, but
-- a start of 0 counts as no start, on either side.
pub merge_range-span :
    (a b a' b' : ℕ)
    → merge_range
        (record { start = pos a; stop = pos b })
        (record { start = pos a'; stop = pos b' })
      ≡ record {
        start = pos (if a == 0 then a' else if a' == 0 then a else min a a');
        stop = pos (if ltb b b' then b' else b);
      }
unfolding merge_range
merge_range-span zero b zero b' = ground arith
merge_range-span zero b (suc a') b' = ground arith
merge_range-span (suc a) b zero b' = ground arith
merge_range-span (suc a) b (suc a') b' = ground arith

module _ (fl : Float) (lower : ℕ → ℕ) where
  open fl use {F, lt, lt_irrefl, lt_trans}

  abbrev pub key : Candidate F → Text
  key c = normalize_topic lower c.topic

  abbrev pub has_key : Text → List (Candidate F) → Bool
  has_key k [] = false
  has_key k (m ∷ out) = list_beq (key m) k || has_key k out

  -- No topic stands twice, up to case and spaces.
  abbrev pub DistinctTopics : List (Candidate F) → Type 0
  DistinctTopics [] = Unit
  DistinctTopics (c ∷ cs) = (key c ≢ [] → has_key (key c) cs ≡ false) × DistinctTopics cs

  -- All that `c` has, `o` has too: confidence, tags, and the end of its turns.
  pub record Absorbs (o c : Candidate F) : Type 0 where
    pub confident : lt o.confidence c.confidence ≡ false
    pub tagged : All (λ t. contains_string o.tags t ≡ true) c.tags
    pub reaches : ltz o.turn_range.stop c.turn_range.stop ≡ false

  pub key-merge_into : (m c : Candidate F) → key c ≡ key m → key (merge_into fl lower m c) ≡ key m
  unfolding merge_into
  key-merge_into m c e = elim (Bool-cases (lt m.confidence c.confidence)) [
    | inl better ↦ rw better e
    | inr worse ↦ rw worse
  ]

  pub merge_into-Absorbs : (m c : Candidate F) → Absorbs (merge_into fl lower m c) c
  unfolding merge_into merge_range
  merge_into-Absorbs m c = record {
    confident = ground (arith, lt_irrefl c.confidence);
    tagged = fold_tags-takes m.tags c.tags;
    reaches = ground (arith, ltz_irrefl c.turn_range.stop);
  }

  pub merge_into-Absorbs_old :
      (m c d : Candidate F) → Absorbs m d → Absorbs (merge_into fl lower m c) d
  unfolding merge_into merge_range
  merge_into-Absorbs_old m c d a = record {
    confident = ground (arith, a.confident, lt_trans m.confidence c.confidence d.confidence);
    tagged = All-map (λ t h. fold_tags-keeps m.tags c.tags t h) d.tags a.tagged;
    reaches =
        ground
          (arith, a.reaches, ltz-trans_false m.turn_range.stop c.turn_range.stop d.turn_range.stop);
  }

  pub Absorbs-refl : (c : Candidate F) → Absorbs c c
  Absorbs-refl c = record {
    confident = lt_irrefl c.confidence;
    tagged = contains_self [] c.tags;
    reaches = ltz_irrefl c.turn_range.stop;
  }
