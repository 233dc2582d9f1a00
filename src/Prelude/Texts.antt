-- ===== src/Prelude/Texts.antt =====
-- Text as a list of code points, with the functions of Go's `strings` that the source calls.
-- `unicode.ToLower` is a table of the Go library: it enters as the argument `lower`.
use mathlib.Core.Bool.{Bool, ◌&&◌, ◌||◌}
use mathlib.Core.List.{List, [], ◌∷◌, ◌++◌, map, reverse}
use Prim.Native.Nat.{ℕ}
use Prim.Native.String.{String}
use Prim.Native.Char.{code}
use interest_memory.Prelude.Tests.{eqb, leb, if◌then◌else◌}

abbrev pub Text : Type 0
Text = List ℕ

-- A literal of the source.
abbrev pub codes : String → Text
codes String.[] = []
codes (String.◌∷◌ c s) = code c ∷ codes s

-- unicode.IsSpace
unfoldable pub is_space : ℕ → Bool
is_space c =
    (leb 0x09 c && leb c 0x0d)
    || eqb c 0x20
    || eqb c 0x85
    || eqb c 0xa0
    || eqb c 0x1680
    || (leb 0x2000 c && leb c 0x200a)
    || eqb c 0x2028
    || eqb c 0x2029
    || eqb c 0x202f
    || eqb c 0x205f
    || eqb c 0x3000

unfoldable pub trim_left : Text → Text
unfolding is_space
trim_left [] = []
trim_left (c ∷ s) = let rest = trim_left s in if is_space c then rest else c ∷ s

-- strings.TrimSpace
unfoldable pub trim_space : Text → Text
unfolding trim_left
trim_space s = reverse (trim_left (reverse (trim_left s)))

abbrev emit : Text → List Text → List Text
emit [] fs = fs
emit (c ∷ w) fs = reverse (c ∷ w) ∷ fs

-- strings.Fields, from the word that has been read so far, last character first.
unfoldable pub fields_from : Text → Text → List Text
unfolding is_space
fields_from w [] = emit w []
fields_from w (c ∷ s) =
    let stop = emit w (fields_from [] s) in
    let go = fields_from (c ∷ w) s in if is_space c then stop else go

unfoldable pub fields : Text → List Text
unfolding fields_from
fields s = fields_from [] s

-- strings.Join
unfoldable pub join : Text → List Text → Text
join sep [] = []
join sep (w ∷ []) = w
join sep (w ∷ v ∷ ws) = w ++ (sep ++ join sep (v ∷ ws))

-- strings.ToLower
abbrev pub to_lower : (ℕ → ℕ) → Text → Text
to_lower lower = map lower
