-- ===== src/Base/Dict.antt =====
-- JavaScript's objects, `Map`s and `Set`s with string keys: lists in order of insertion, where a
-- write to a present key keeps its place. (An object lists integer-like keys first; no key of the
-- modelled code is one.)
use Prim.Native.String.{String}
use mathlib.Core.Path.{◌≡◌, refl}
use mathlib.Core.Bool.{Bool, true, false, ◌||◌}
use mathlib.Core.Option.{Option, none, some}
use mathlib.Core.List.{List, [], ◌∷◌}
use native.Mathlib.Omega.{arith}
use text.Mathlib.Text.{◌==◌}
use text.Mathlib.TextEquality.{eq_iff}
use fusion_on_prem_server.Base.Tests.{if◌then◌else◌}

abbrev pub Dict : Type 0 → Type 0
Dict V = List (String × V)

module _ {V : Type 0} where
  -- d[k]
  abbrev pub lookup : String → Dict V → Option V
  lookup k [] = none
  lookup k ((j, v) ∷ m) = if j == k then some v else lookup k m

  -- d[k] = v
  abbrev pub insert : String → V → Dict V → Dict V
  insert k v [] = (k, v) ∷ []
  insert k v ((j, w) ∷ m) = if j == k then (k, v) ∷ m else (j, w) ∷ insert k v m

  -- delete d[k]
  abbrev pub erase : String → Dict V → Dict V
  erase k [] = []
  erase k ((j, v) ∷ m) = if j == k then erase k m else (j, v) ∷ erase k m

  pub lookup-insert :
      (k j : String) (v : V) (m : Dict V)
      → lookup j (insert k v m) ≡ (if k == j then some v else lookup j m)
  lookup-insert k j v [] = refl
  lookup-insert k j v ((i, w) ∷ m) =
      ground (arith, eq_iff k j, eq_iff i k, eq_iff i j, lookup-insert k j v m)

  pub lookup-erase :
      (k j : String) (m : Dict V) → lookup j (erase k m) ≡ (if k == j then none else lookup j m)
  lookup-erase k j [] = ground arith
  lookup-erase k j ((i, w) ∷ m) =
      ground (arith, eq_iff k j, eq_iff i k, eq_iff i j, lookup-erase k j m)

-- Every entry has a key of its own, as in any object.
abbrev pub HasUniqueKeys : {V : Type 0} → Dict V → Type 0
HasUniqueKeys [] = Unit
HasUniqueKeys ((k, v) ∷ m) = (lookup k m ≡ none) × HasUniqueKeys m

module _ {V : Type 0} where
  pub insert-HasUniqueKeys :
      (k : String) (v : V) (m : Dict V) → HasUniqueKeys m → HasUniqueKeys (insert k v m)
  insert-HasUniqueKeys k v [] h = (refl, tt)
  insert-HasUniqueKeys k v ((j, w) ∷ m) (new, h) =
      ground (arith, eq_iff j k, eq_iff k j, lookup-insert k j v m, insert-HasUniqueKeys k v m h)

  pub erase-HasUniqueKeys : (k : String) (m : Dict V) → HasUniqueKeys m → HasUniqueKeys (erase k m)
  erase-HasUniqueKeys k [] h = tt
  erase-HasUniqueKeys k ((j, w) ∷ m) (new, h) =
      ground (arith, lookup-erase k j m, erase-HasUniqueKeys k m h)

-- A `Set` of strings.
abbrev pub elem : String → List String → Bool
elem k [] = false
elem k (j ∷ ks) = j == k || elem k ks

abbrev pub add_elem : String → List String → List String
add_elem k [] = k ∷ []
add_elem k (j ∷ ks) = if j == k then j ∷ ks else j ∷ add_elem k ks

abbrev pub delete_elem : String → List String → List String
delete_elem k [] = []
delete_elem k (j ∷ ks) = if j == k then delete_elem k ks else j ∷ delete_elem k ks

pub elem-add_elem :
    (k j : String) (ks : List String)
    → elem j (add_elem k ks) ≡ (if k == j then true else elem j ks)
elem-add_elem k j [] = ground arith
elem-add_elem k j (i ∷ ks) =
    ground (arith, eq_iff k j, eq_iff i k, eq_iff i j, elem-add_elem k j ks)

pub elem-delete_elem :
    (k j : String) (ks : List String)
    → elem j (delete_elem k ks) ≡ (if k == j then false else elem j ks)
elem-delete_elem k j [] = ground arith
elem-delete_elem k j (i ∷ ks) =
    ground (arith, eq_iff k j, eq_iff i k, eq_iff i j, elem-delete_elem k j ks)
