-- ===== src/Base/Sort.antt =====
-- `Array.sort` by a number, stable: `sort_desc` for `(a, b) => key(b) - key(a)`.
use mathlib.Core.List.{Perm}
use mathlib.Core.List.Perm
use soqtec.Base.Tests.{leb, if◌then◌else◌}
use Prim.Native.Nat.{ℕ, ◌+◌}
use mathlib.Core.Path.{◌≡◌}
use mathlib.Core.List.{List, [], ◌∷◌}
use soqtec.Base.Lists.{All}
use native.Mathlib.Omega.{arith}

module _ {ℓ} {A : Type ℓ} where
  abbrev pub total : (A → ℕ) → List A → ℕ
  total f [] = 0
  total f (x ∷ xs) = f x + total f xs

module _ {ℓ} {A : Type ℓ} (key : A → ℕ) where
  -- Before the first entry that is not above it, so that equal entries keep their order.
  insert_desc : A → List A → List A
  insert_desc x [] = x ∷ []
  insert_desc x (y ∷ ys) = if leb (key y) (key x) then x ∷ y ∷ ys else y ∷ insert_desc x ys

  unfoldable pub sort_desc : List A → List A
  unfolding insert_desc
  sort_desc [] = []
  sort_desc (x ∷ xs) = insert_desc x (sort_desc xs)

  insert_desc-perm : (x : A) (ys : List A) → Perm (insert_desc x ys) (x ∷ ys)
  unfolding insert_desc
  insert_desc-perm x [] = Perm.refl (x ∷ [])
  insert_desc-perm x (y ∷ ys) =
      let rest = Perm.trans (Perm.cons y (insert_desc-perm x ys)) (Perm.swap x y ys) in
      let same = Perm.refl (x ∷ y ∷ ys) in ground (arith, rest, same)

  pub sort_desc-perm : (xs : List A) → Perm (sort_desc xs) xs
  unfolding sort_desc
  sort_desc-perm [] = Perm.refl []
  sort_desc-perm (x ∷ xs) =
      Perm.trans (insert_desc-perm x (sort_desc xs)) (Perm.cons x (sort_desc-perm xs))

  insert_desc-All :
      (P : A → Type 0) (x : A) (ys : List A) → P x → All P ys → All P (insert_desc x ys)
  unfolding insert_desc
  insert_desc-All P x [] hx hs = (hx, tt)
  insert_desc-All P x (y ∷ ys) hx (hy, hs) = let rest = insert_desc-All P x ys hx hs in ground arith

  pub sort_desc-All : (P : A → Type 0) (xs : List A) → All P xs → All P (sort_desc xs)
  unfolding sort_desc
  sort_desc-All P [] h = tt
  sort_desc-All P (x ∷ xs) (hx, hs) = insert_desc-All P x (sort_desc xs) hx (sort_desc-All P xs hs)

  insert_desc-total :
      (f : A → ℕ) (x : A) (ys : List A) → total f (insert_desc x ys) ≡ f x + total f ys
  unfolding insert_desc
  insert_desc-total f x [] = omega arith
  insert_desc-total f x (y ∷ ys) = let rest = insert_desc-total f x ys in grind arith

  -- The sum of a sorted list is that of the list.
  pub sort_desc-total : (f : A → ℕ) (xs : List A) → total f (sort_desc xs) ≡ total f xs
  unfolding sort_desc
  sort_desc-total f [] = omega arith
  sort_desc-total f (x ∷ xs) =
      omega (arith, insert_desc-total f x (sort_desc xs), sort_desc-total f xs)
