-- ===== src/Prelude/Sets.antt =====
-- Python sets and dicts of hashable keys, as lists; only membership and size are ever read.
use Prim.Native.Nat.{◌≤◌}
use mathlib.Core.Path.{◌≡◌, refl}
use mathlib.Core.Bool.{Bool, true, false, not, ◌&&◌, ◌||◌}
use mathlib.Core.List.{List, [], ◌∷◌, ◌++◌}
use native.Mathlib.Omega.{arith}
use visible_agent_loop_proto.Prelude.Tests.{if◌then◌else◌}
use visible_agent_loop_proto.Prelude.Lists.{length, all}
use visible_agent_loop_proto.Prelude.Equality.{Eq, ◌==◌, nat_eq}

module _ {ℓ} {A : Type ℓ} ⦃e : Eq A⦄ where
  -- `a in xs`
  unfoldable pub contains : List A → A → Bool
  contains [] a = false
  contains (x ∷ xs) a = a == x || contains xs a

  -- `set(xs)`
  pub to_set : List A → List A
  to_set [] = []
  to_set (x ∷ xs) = let rest = to_set xs in if contains rest x then rest else x ∷ rest

  -- `set(xs).issubset(ys)`
  unfoldable pub is_subset : List A → List A → Bool
  is_subset xs ys = all (contains ys) xs

  -- `len(xs) == len(set(xs))`
  unfoldable pub is_distinct : List A → Bool
  unfolding to_set
  is_distinct xs = length xs == length (to_set xs)

  -- The same by recursion.
  abbrev pub nodup : List A → Bool
  nodup [] = true
  nodup (x ∷ xs) = not (contains xs x) && nodup xs

  length-to_set-le : (xs : List A) → length (to_set xs) ≤ length xs
  unfolding to_set
  length-to_set-le [] = omega arith
  length-to_set-le (x ∷ xs) = ground (arith, length-to_set-le xs)

  contains-to_set : (xs : List A) (a : A) → contains (to_set xs) a ≡ contains xs a
  unfolding to_set contains
  contains-to_set [] a = refl
  contains-to_set (x ∷ xs) a =
      ground (arith, contains-to_set xs a, contains-to_set xs x, e.beq_iff a x)

  pub is_distinct-eq-nodup : (xs : List A) → is_distinct xs ≡ nodup xs
  unfolding is_distinct
  is_distinct-eq-nodup [] = refl
  is_distinct-eq-nodup (x ∷ xs) =
      ground (arith, length-to_set-le xs, contains-to_set xs x, is_distinct-eq-nodup xs)

  pub contains-append :
      (xs ys : List A) (a : A) → contains (xs ++ ys) a ≡ (contains xs a || contains ys a)
  unfolding contains
  contains-append [] ys a = refl
  contains-append (x ∷ xs) ys a = ground (arith, contains-append xs ys a)

  nodup-append :
      (xs : List A) (x : A) → nodup xs ≡ true → contains xs x ≡ false → nodup (xs ++ x ∷ []) ≡ true
  unfolding contains
  nodup-append [] x h n = ground arith
  nodup-append (y ∷ xs) x h n =
      ground (arith, nodup-append xs x, contains-append xs (x ∷ []) y, e.beq_iff x y, e.beq_iff y x)

  pub is_distinct-append :
      (xs : List A) (x : A)
      → is_distinct xs ≡ true
      → contains xs x ≡ false
      → is_distinct (xs ++ x ∷ []) ≡ true
  is_distinct-append xs x h n =
      ground
        (arith, nodup-append xs x, is_distinct-eq-nodup xs, is_distinct-eq-nodup (xs ++ x ∷ []))
