-- ===== src/Base/Sort.antt =====
-- Array.prototype.sort, which is stable: an insertion sort, by a test for "not after".
use fusion_on_prem_server.Base.Tests.{if◌then◌else◌, Bool-cases}
use fusion_on_prem_server.Base.Lists.{length, All}
use Prim.Native.Nat.{suc}
use mathlib.Core.Path.{◌≡◌, refl, ◌∙◌, ap, sym, subst}
use mathlib.Core.Logic.{inl, inr}
use mathlib.Core.Bool.{Bool}
use mathlib.Core.List.{List, [], ◌∷◌, ◌++◌, flat_map, Perm, append_assoc, perm_append_comm}
use mathlib.Core.List.Perm
use native.Mathlib.Omega.{arith}

module _ {ℓ} {A : Type ℓ} (le : A → A → Bool) where
  unfoldable pub insert_by : A → List A → List A
  insert_by x [] = x ∷ []
  insert_by x (y ∷ ys) = if le x y then x ∷ y ∷ ys else y ∷ insert_by x ys

  unfoldable pub sort_by : List A → List A
  unfolding insert_by
  sort_by [] = []
  sort_by (x ∷ xs) = insert_by x (sort_by xs)

  pub insert_by-perm : (x : A) (ys : List A) → Perm (insert_by x ys) (x ∷ ys)
  unfolding insert_by
  insert_by-perm x [] = Perm.refl (x ∷ [])
  insert_by-perm x (y ∷ ys) = elim (Bool-cases (le x y)) [
    | inl e ↦ rw e (Perm.refl (x ∷ y ∷ ys))
    | inr e ↦ rw e (Perm.trans (Perm.cons y (insert_by-perm x ys)) (Perm.swap x y ys))
  ]

  pub sort_by-perm : (xs : List A) → Perm (sort_by xs) xs
  unfolding sort_by
  sort_by-perm [] = Perm.refl []
  sort_by-perm (x ∷ xs) = Perm.trans (insert_by-perm x (sort_by xs)) (Perm.cons x (sort_by-perm xs))

  pub length-insert_by : (x : A) (ys : List A) → length (insert_by x ys) ≡ suc (length ys)
  unfolding insert_by
  length-insert_by x [] = refl
  length-insert_by x (y ∷ ys) = ground (arith, length-insert_by x ys)

  pub length-sort_by : (xs : List A) → length (sort_by xs) ≡ length xs
  unfolding sort_by
  length-sort_by [] = refl
  length-sort_by (x ∷ xs) = length-insert_by x (sort_by xs) ∙ ap suc (length-sort_by xs)

module _ {ℓ κ} {A : Type ℓ} (le : A → A → Bool) (P : A → Type κ) where
  pub insert_by-All : (x : A) (ys : List A) → P x → All P ys → All P (insert_by le x ys)
  unfolding insert_by
  insert_by-All x [] px h = (px, tt)
  insert_by-All x (y ∷ ys) px (py, h) = ground (arith, insert_by-All x ys px h)

  pub sort_by-All : (xs : List A) → All P xs → All P (sort_by le xs)
  unfolding sort_by
  sort_by-All [] h = tt
  sort_by-All (x ∷ xs) (px, h) = insert_by-All x (sort_by le xs) px (sort_by-All xs h)

pub perm_swap_append {ℓ} : {B : Type ℓ} (a b r : List B) → Perm (a ++ (b ++ r)) (b ++ (a ++ r))
perm_swap_append a b r =
    subst (λ l. Perm l (b ++ (a ++ r))) (append_assoc a b r)
      (subst (λ l. Perm ((a ++ b) ++ r) l) (append_assoc b a r)
        (Perm.append_right r (perm_append_comm a b)))

-- What the sorted elements hold is what the elements hold.
module _ {ℓ κ} {A : Type ℓ} {B : Type κ} (le : A → A → Bool) (f : A → List B) where
  flat_map-insert_by :
      (x : A) (xs : List A) → Perm (flat_map f (insert_by le x xs)) (f x ++ flat_map f xs)
  unfolding insert_by flat_map
  flat_map-insert_by x [] = Perm.refl _
  flat_map-insert_by x (y ∷ ys) = elim (Bool-cases (le x y)) [
    | inl e ↦ rw e (Perm.refl _)
    | inr e ↦ rw e (
        Perm.trans (Perm.append_left (f y) (flat_map-insert_by x ys))
          (perm_swap_append (f y) (f x) (flat_map f ys)))
  ]

  pub flat_map-sort_by : (xs : List A) → Perm (flat_map f (sort_by le xs)) (flat_map f xs)
  unfolding sort_by flat_map
  flat_map-sort_by [] = Perm.refl _
  flat_map-sort_by (x ∷ xs) =
      Perm.trans (flat_map-insert_by x (sort_by le xs))
        (Perm.append_left (f x) (flat_map-sort_by xs))

module _ {ℓ κ} {A : Type ℓ} {B : Type κ} (f : A → List B) where
  pub flat_map-append : (a b : List A) → flat_map f (a ++ b) ≡ flat_map f a ++ flat_map f b
  unfolding flat_map
  flat_map-append [] b = refl
  flat_map-append (x ∷ a) b =
      ap (λ l. f x ++ l) (flat_map-append a b)
      ∙ sym (append_assoc (f x) (flat_map f a) (flat_map f b))
