-- ===== src/Prelude/Members.antt =====
-- Membership in a list, with the place kept.
use mathlib.Core.Bool.{Bool, true}
use mathlib.Core.List.{List, [], ◌∷◌, ◌++◌, append_assoc}
use mathlib.Core.Logic.{◌⊎◌, inl, inr}
use mathlib.Core.Path.{◌≡◌, sym, ap, ◌∙◌}
use native.Mathlib.Omega.{arith}
use interest_memory.Prelude.Lists.{keep}

-- The value stands in the list.
abbrev pub Among : {A : Type 0} → A → List A → Type 0
Among {A = A} p out = (before after : List A) × (out ≡ before ++ p ∷ after)

module _ {A : Type 0} where
  pub Among-left : (p : A) (xs ys : List A) → Among p xs → Among p (xs ++ ys)
  Among-left p xs ys (b, a, e) = (b, a ++ ys, ap (λ u. u ++ ys) e ∙ append_assoc b (p ∷ a) ys)

  pub Among-right : (p : A) (xs ys : List A) → Among p ys → Among p (xs ++ ys)
  Among-right p xs ys (b, a, e) =
      (xs ++ b, a, ap (λ u. xs ++ u) e ∙ sym (append_assoc xs b (p ∷ a)))

  pub Among-cons : (p x : A) (xs : List A) → Among p xs → Among p (x ∷ xs)
  Among-cons p x xs (b, a, e) = (x ∷ b, a, ap (λ u. x ∷ u) e)

  pub not_Among : (p : A) → Among p [] → {X : Type 0} → X
  not_Among p ([], a, e) = absurd (cc)
  not_Among p (x ∷ b, a, e) = absurd (cc)

  -- The first one, or one of the others.
  pub Among-cases : (p x : A) (xs : List A) → Among p (x ∷ xs) → (x ≡ p) ⊎ Among p xs
  Among-cases p x xs ([], a, e) = inl (ground (arith, e))
  Among-cases p x xs (y ∷ b, a, e) = inr (b, a, ground (arith, e))

  pub keep-split :
      (f : A → Bool) (p : A) (b a : List A)
      → f p ≡ true
      → keep f (b ++ p ∷ a) ≡ keep f b ++ p ∷ keep f a
  keep-split f p [] a h = ground (arith, h)
  keep-split f p (x ∷ b) a h = ground (arith, keep-split f p b a h)

  pub Among-keep :
      (f : A → Bool) (p : A) (xs : List A) → f p ≡ true → Among p xs → Among p (keep f xs)
  Among-keep f p xs h (b, a, e) = (keep f b, keep f a, ap (keep f) e ∙ keep-split f p b a h)
