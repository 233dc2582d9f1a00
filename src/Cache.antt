-- ===== src/Cache.antt =====
-- internal/cache/lru.go. An element of the `container/list` has a handle, which stands for its
-- pointer: the map holds handles, the list holds the elements, the front first.
pub mod Elems
pub mod Valid
pub mod Refines
pub mod History
use interest_memory.Prelude.{
  ℕ, zero, suc, ◌+◌, ◌≡◌, arith, Bool, true, false, Option, none, some, List, [], ◌∷◌, ℤ, pos,
  negsuc, length, Eq, ◌==◌, lookup, insert, delete, ltb, eqb, if◌then◌else◌,
}

pub record Elem {ℓ} (K V : Type ℓ) : Type ℓ where
  pub handle : ℕ
  pub key : K
  pub val : V

-- `next` numbers the elements that PushFront allocates.
pub record Cache {ℓ} (K V : Type ℓ) : Type ℓ where
  pub cap : ℤ
  pub ll : List (Elem K V)
  pub idx : List (K × ℕ)
  pub next : ℕ

unfoldable pub new {ℓ} : {K V : Type ℓ} → ℤ → Cache K V
new capacity = record { cap = capacity; ll = []; idx = []; next = 0 }

-- `c.cap <= 0`: caching is off.
abbrev pub disabled : ℤ → Bool
disabled (pos zero) = true
disabled (pos (suc n)) = false
disabled (negsuc n) = true

abbrev pub room : ℤ → ℕ
room (pos n) = n
room (negsuc n) = 0

-- `n > c.cap`
abbrev pub exceeds : ℕ → ℤ → Bool
exceeds n (pos c) = ltb c n
exceeds n (negsuc c) = true

module _ {ℓ} {K V : Type ℓ} where
  -- The element behind a pointer, and the list without it.
  unfoldable pub take_out : ℕ → List (Elem K V) → Option (Elem K V × List (Elem K V))
  take_out h [] = none
  take_out h (x ∷ l) =
      if eqb x.handle h
      then some (x, l)
      else elim (take_out h l) [ none ↦ none | some (y, r) ↦ some (y, x ∷ r) ]

  -- `Back`, and the list that `Remove` leaves.
  unfoldable pub split_last : List (Elem K V) → Option (Elem K V × List (Elem K V))
  split_last [] = none
  split_last (x ∷ l) = elim (split_last l) [ none ↦ some (x, []) | some (y, r) ↦ some (y, x ∷ r) ]

  pub len : Cache K V → ℕ
  len c = length c.idx

module _ {ℓ} {K V : Type ℓ} ⦃e : Eq K⦄ where
  -- The hit of `Get`: MoveToFront, and the element's value.
  abbrev touch_elem : Cache K V → Option (Elem K V × List (Elem K V)) → Cache K V × Option V
  touch_elem c none = (c, none)
  touch_elem c (some (x, rest)) = (record c { ll = x ∷ rest }, some x.val)

  abbrev get_at : Cache K V → Option ℕ → Cache K V × Option V
  get_at c none = (c, none)
  get_at c (some h) = touch_elem c (take_out h c.ll)

  -- `none` is the pair of the zero value and false.
  unfoldable pub get : Cache K V → K → Cache K V × Option V
  get c k = if disabled c.cap then (c, none) else get_at c (lookup k c.idx)

  -- The end of `Set`: the oldest element goes when the map is over the capacity.
  abbrev drop_oldest : Cache K V → Option (Elem K V × List (Elem K V)) → Cache K V
  drop_oldest c none = c
  drop_oldest c (some (oldest, rest)) = record c { ll = rest; idx = delete oldest.key c.idx }

  unfoldable pub evict : Cache K V → Cache K V
  evict c = if exceeds (length c.idx) c.cap then drop_oldest c (split_last c.ll) else c

  unfoldable pub push_front : Cache K V → K → V → Cache K V
  push_front c k v = record c {
    ll = record { handle = c.next; key = k; val = v } ∷ c.ll;
    idx = insert k c.next c.idx;
    next = suc c.next;
  }

  abbrev update_elem : Cache K V → V → Option (Elem K V × List (Elem K V)) → Cache K V
  update_elem c v none = c
  update_elem c v (some (x, rest)) = record c { ll = record x { val = v } ∷ rest }

  abbrev set_at : Cache K V → K → V → Option ℕ → Cache K V
  set_at c k v (some h) = update_elem c v (take_out h c.ll)
  set_at c k v none = evict (push_front c k v)

  pub set : Cache K V → K → V → Cache K V
  set c k v = if disabled c.cap then c else set_at c k v (lookup k c.idx)

  pub get-cap : (c : Cache K V) (k : K) → (get c k).0.cap ≡ c.cap
  unfolding get
  get-cap c k = ground arith

  pub set-cap : (c : Cache K V) (k : K) (v : V) → (set c k v).cap ≡ c.cap
  unfolding set evict push_front
  set-cap c k v = ground arith
