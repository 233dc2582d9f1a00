-- ===== src/Recall/Entity/Cut.antt =====
-- The bodies that truncate of internal/recall/recall.go cuts.
use interest_memory.Prelude.{
  ℕ, suc, ◌+◌, ◌-◌, ◌≤◌, ◌<◌, ◌≡◌, ◌⊎◌, inl, inr, refl, ap, pos, [], ◌∷◌, ◌++◌, Text, codes, leb,
  arith, Bool-cases, leb→le,
}
use interest_memory.Recall.Entity.{rune_len, byte_len, whole_runes, truncate}

byte_len-append : (s t : Text) → byte_len (s ++ t) ≡ byte_len s + byte_len t
unfolding byte_len
byte_len-append [] t = omega arith
byte_len-append (c ∷ s) t = omega (arith, byte_len-append s t)

-- The longest prefix that fits: it fits, and with the next rune it does not.
whole_runes-fits :
    (n : ℕ) (s : Text)
    → n < byte_len s
    → (c : ℕ) × (rest : Text) × (s ≡ whole_runes n s ++ c ∷ rest)
      × (byte_len (whole_runes n s) ≤ n)
      × (n < byte_len (whole_runes n s) + rune_len c)
unfolding whole_runes byte_len
whole_runes-fits n [] h = absurd (omega (arith, h))
whole_runes-fits n (c ∷ s) h = elim (Bool-cases (leb (rune_len c) n)) [
  | inr over ↦ rw over (c, s, refl, omega arith, ground (arith, over))
  | inl fits ↦
      let l = leb→le (rune_len c) n fits in
      let (d, rest, cut, short, long) = whole_runes-fits (n - rune_len c) s (omega (arith, h, l)) in
      rw fits (d, rest, ap (◌∷◌ c) cut, omega (arith, l, short), omega (arith, l, long))
]

dots : byte_len (codes "...") ≤ 3
unfolding byte_len rune_len
dots = omega arith

-- A body of no more bytes than the bound stays as it is. Any other one becomes its longest prefix of
-- whole runes within the bound, followed by "..."; so it has up to three bytes more than the bound.
pub truncate_bounds :
    (s : Text) (n : ℕ)
    → ((byte_len s ≤ suc n) × (truncate s (pos (suc n)) ≡ s))
      ⊎ ((c : ℕ) × (cut rest : Text) × (s ≡ cut ++ c ∷ rest)
          × (truncate s (pos (suc n)) ≡ cut ++ codes "...")
          × (byte_len cut ≤ suc n)
          × (suc n < byte_len cut + rune_len c)
          × (byte_len (truncate s (pos (suc n))) ≤ suc n + 3))
unfolding truncate
truncate_bounds s n = elim (Bool-cases (leb (byte_len s) (suc n))) [
  | inl fits ↦ inl (leb→le (byte_len s) (suc n) fits, rw fits refl)
  | inr over ↦
      let (c, rest, cut, short, long) = whole_runes-fits (suc n) s (ground (arith, over)) in
      inr (
        c,
        whole_runes (suc n) s,
        rest,
        cut,
        rw over refl,
        short,
        long,
        rw over (omega (arith, byte_len-append (whole_runes (suc n) s) (codes "..."), short, dots)),
      )
]
