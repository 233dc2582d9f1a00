-- ===== src/Usage.antt =====
-- internal/usage/usage.go: the tracker of token usage. The day is the date key that todayKey reads
-- from the clock, a number here; `saved_rows` are the calls of the persist callback, the latest
-- first. The counts are not negative and stay below 2^63.
pub mod Conserved
use interest_memory.Prelude.{
  ℕ, ◌+◌, Bool, true, false, not, ◌||◌, ◌&&◌, List, [], ◌∷◌, Eq, ◌==◌, nat_eq, if◌then◌else◌,
}

pub record Usage : Type 0 where
  pub input : ℕ
  pub output : ℕ
  pub cache_hit : ℕ

abbrev pub no_usage : Usage
no_usage = record { input = 0; output = 0; cache_hit = 0 }

-- `t.acc.Input += u.Input` and so on.
abbrev pub plus : Usage → Usage → Usage
plus a u = record {
  input = a.input + u.input;
  output = a.output + u.output;
  cache_hit = a.cache_hit + u.cache_hit;
}

-- `batched`: the flush interval is positive. `persists`: the callback is not nil.
pub record Tracker : Type 0 where
  pub today : ℕ
  pub acc : Usage
  pub dirty : Bool
  pub batched : Bool
  pub persists : Bool
  pub saved_rows : List (ℕ × Usage)

unfoldable pub new_tracker : ℕ → Bool → Bool → Tracker
new_tracker day batched persists = record {
  today = day;
  acc = no_usage;
  dirty = false;
  batched = batched;
  persists = persists;
  saved_rows = [];
}

-- The day's change, in Add and in Today.
abbrev pub roll : ℕ → Tracker → Tracker
roll day t = if day == t.today then t else record t { today = day; acc = no_usage }

abbrev pub save : ℕ → Usage → Tracker → Tracker
save day u t = if t.persists then record t { saved_rows = (day, u) ∷ t.saved_rows } else t

unfoldable pub flush : ℕ → Tracker → Tracker
flush day t =
    if not t.dirty
    then t
    else (if not (day == t.today)
        then record t { today = day; acc = no_usage; dirty = false }
        else record (save day t.acc t) { acc = no_usage; dirty = false })

abbrev pub count : Usage → Tracker → Tracker
count u t = record t { acc = plus t.acc u; dirty = true }

unfoldable pub add : ℕ → Usage → Tracker → Tracker
add day u t =
    let counted = count u (roll day t) in
    if not counted.batched then save day u counted else counted

unfoldable pub ask_today : ℕ → Tracker → Tracker × (ℕ × Usage)
ask_today day t = let rolled = roll day t in (rolled, (rolled.today, rolled.acc))

-- What Close persists: the loop's last flush, in batched mode.
unfoldable pub close : ℕ → Tracker → Tracker
close day t = if t.batched then flush day t else t
