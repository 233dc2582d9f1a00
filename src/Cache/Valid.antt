-- ===== src/Cache/Valid.antt =====
-- The map and the list of the cache of internal/cache/lru.go.
use interest_memory.Prelude.{
  ℕ, suc, ◌≤◌, ◌<◌, ◌≡◌, refl, ◌≢◌, ◌∙◌, ap, sym, subst, false, none, some, List, [], ◌∷◌, ◌++◌, ℤ,
  length, Eq, lookup, delete, arith, All, DistinctKeys, lookup-insert, lookup-delete,
  insert-DistinctKeys, delete-DistinctKeys, length-insert_new, length-delete, Bool-cases,
  Option-cases, inl, inr, length-append, All-map,
}
use interest_memory.Cache.{Elem, Cache, new, disabled, exceeds, room, get, set, evict, push_front}
use interest_memory.Cache.Elems.{
  handle_of, DistinctElems, without, handle_of-without, All-without, without-Distinct,
  length-without, handle-without, take_out-without, split_last-append, handle_of-last,
  handle_of-init, All-init, handle_of-All, init-Distinct,
}

module _ {ℓ} {K V : Type ℓ} ⦃e : Eq K⦄ where
  -- The map holds the handle of each key of the list, and nothing else.
  pub record IsConsistent (c : Cache K V) : Type ℓ where
    pub agree : (k : K) → lookup k c.idx ≡ handle_of k c.ll
    pub sizes : length c.idx ≡ length c.ll
    pub distinct : DistinctElems c.ll
    pub keys : DistinctKeys c.idx
    pub fresh : All (λ x. x.handle < c.next) c.ll

  pub record IsValid (c : Cache K V) : Type ℓ where
    pub consistent : IsConsistent c
    pub open consistent use *
    pub bounded : length c.ll ≤ room c.cap

  pub new-IsValid : (cap : ℤ) → IsValid (new cap)
  unfolding new
  new-IsValid cap = record {
    consistent = record { agree = λ k. refl; sizes = refl; distinct = tt; keys = tt; fresh = tt };
    bounded = omega arith;
  }

  -- An element moved to the front, with any value.
  move-IsValid :
      (c : Cache K V) (k : K) (h : ℕ) (x : Elem K V)
      → IsValid c
      → lookup k c.idx ≡ some h
      → x.key ≡ k
      → x.handle ≡ h
      → IsValid (record c { ll = x ∷ without k c.ll })
  move-IsValid c k h x v q same at = record {
    consistent = record {
      agree = λ j. ground (
        arith,
        v.agree j,
        v.agree k,
        handle_of-without k j c.ll,
        e.beq_iff x.key j,
        e.beq_iff k j,
      );
      sizes = omega (arith, v.sizes, long);
      distinct = (absent, apart, without-Distinct k c.ll v.distinct);
      keys = v.keys;
      fresh = (young, All-without _ k c.ll v.fresh);
    };
    bounded = omega (arith, v.bounded, long);
  }
    where
      at_key : handle_of k c.ll ≡ some h
      at_key = sym (v.agree k) ∙ q

      long : suc (length (without k c.ll)) ≡ length c.ll
      long = length-without k h c.ll v.distinct at_key

      absent : handle_of x.key (without k c.ll) ≡ none
      absent = ground (arith, handle_of-without k x.key c.ll, e.beq_iff k x.key)

      apart : All (λ y. y.handle ≢ x.handle) (without k c.ll)
      apart = rw at (handle-without k h c.ll v.distinct at_key)

      young : x.handle < c.next
      young = rw at (handle_of-All _ k h c.ll v.fresh at_key)

  pub push_front-IsConsistent :
      (c : Cache K V) (k : K) (v : V)
      → IsConsistent c
      → lookup k c.idx ≡ none
      → IsConsistent (push_front c k v)
  unfolding push_front
  push_front-IsConsistent c k v w q = record {
    agree = λ j. ground (arith, w.agree j, lookup-insert k j c.next c.idx);
    sizes = ground (arith, length-insert_new k c.next c.idx q, w.sizes);
    distinct = (sym (w.agree k) ∙ q, All-map (λ y h. omega arith) c.ll w.fresh, w.distinct);
    keys = insert-DistinctKeys k c.next c.idx w.keys;
    fresh = (omega arith, All-map (λ y h. omega arith) c.ll w.fresh);
  }

  -- The last element leaves the list, and its key the map.
  pub drop-IsConsistent :
      (c : Cache K V) (y : Elem K V) (r : List (Elem K V))
      → IsConsistent c
      → c.ll ≡ r ++ y ∷ []
      → IsConsistent (record c { ll = r; idx = delete y.key c.idx })
  drop-IsConsistent c y r w parts = record {
    agree = λ j. ground (arith, w.agree j, lookup-delete y.key j c.idx, handle_of-init y j r d);
    sizes = omega (arith, w.sizes, longer, ap length parts, length-append r (y ∷ []));
    distinct = init-Distinct y r d;
    keys = delete-DistinctKeys y.key _ w.keys;
    fresh = All-init _ y r (subst (All (λ x. x.handle < c.next)) parts w.fresh);
  }
    where
      d : DistinctElems (r ++ y ∷ [])
      d = subst DistinctElems parts w.distinct

      longer : suc (length (delete y.key c.idx)) ≡ length c.idx
      longer =
          let (h, q) = handle_of-last y r d in
          length-delete y.key h c.idx w.keys (w.agree y.key ∙ ap (handle_of y.key) parts ∙ q)

  -- `Set` of a new key: over the capacity the oldest element goes, below it nothing does.
  pub evict-IsValid :
      (c : Cache K V) (x : Elem K V) (l : List (Elem K V))
      → IsConsistent c
      → c.ll ≡ x ∷ l
      → length l ≤ room c.cap
      → disabled c.cap ≡ false
      → IsValid (evict c)
  unfolding evict
  evict-IsValid c x l w front fits on = elim (Bool-cases (exceeds (length c.idx) c.cap)) [
    | inl over ↦
        let (y, r, split, parts) = split_last-append x l in
        rw (over, front, split)
          (record {
            consistent = drop-IsConsistent c y r w (front ∙ parts);
            bounded = omega (arith, ap length parts, length-append r (y ∷ []));
          })
    | inr under ↦ rw under (record { consistent = w; bounded = ground (arith, w.sizes) })
  ]

  -- Every call of `Get` keeps the cache valid.
  pub get-IsValid : (c : Cache K V) (k : K) → IsValid c → IsValid (get c k).0
  unfolding get
  get-IsValid c k w = elim (Bool-cases (disabled c.cap)) [
    | inl off ↦ rw off w
    | inr on ↦ rw on (elim (Option-cases (lookup k c.idx)) [
      | inl miss ↦ rw miss w
      | inr (h, hit) ↦
          let (x, out, same, at) = take_out-without k h c.ll w.distinct (sym (w.agree k) ∙ hit) in
          rw (hit, out) (move-IsValid c k h x w hit same at)
    ])
  ]

  -- Every call of `Set` keeps the cache valid.
  pub set-IsValid : (c : Cache K V) (k : K) (v : V) → IsValid c → IsValid (set c k v)
  unfolding set push_front
  set-IsValid c k v w = elim (Bool-cases (disabled c.cap)) [
    | inl off ↦ rw off w
    | inr on ↦ rw on (elim (Option-cases (lookup k c.idx)) [
      | inl miss ↦ rw miss (
          evict-IsValid (push_front c k v) _ c.ll (push_front-IsConsistent c k v w.consistent miss)
            refl w.bounded on)
      | inr (h, hit) ↦
          let (x, out, same, at) = take_out-without k h c.ll w.distinct (sym (w.agree k) ∙ hit) in
          rw (hit, out) (move-IsValid c k h (record x { val = v }) w hit same at)
    ])
  ]
