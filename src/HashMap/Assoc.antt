-- ===== src/HashMap/Assoc.antt =====
-- Lists of pairs under the interface of `HashMap`: a map to evaluate examples with.
use mathlib.Core.Option
use vectro.Common.{◌≡◌, refl, none, some, List, [], ◌∷◌, Key, ◌==◌, if◌then◌else◌, arith}
use vectro.HashMap.{lookup, HasUniqueKeys, HashMap}

module _ {K : Type 0} ⦃e : Key K⦄ {V : Type 0} where
  abbrev pub put : K → V → List (K × V) → List (K × V)
  put k v [] = (k, v) ∷ []
  put k v ((j, w) ∷ m) = if j == k then (k, v) ∷ m else (j, w) ∷ put k v m

  abbrev pub add : K → V → List (K × V) → List (K × V)
  add k v [] = (k, v) ∷ []
  add k v ((j, w) ∷ m) = if j == k then (j, w) ∷ m else (j, w) ∷ add k v m

  abbrev pub remove : K → List (K × V) → List (K × V)
  remove k [] = []
  remove k ((j, w) ∷ m) = if j == k then remove k m else (j, w) ∷ remove k m

  pub lookup-put :
      (j k : K) (v : V) (m : List (K × V))
      → lookup j (put k v m) ≡ (if k == j then some v else lookup j m)
  lookup-put j k v [] = refl
  lookup-put j k v ((i, w) ∷ m) =
      ground (arith, e.same_iff k j, e.same_iff i k, e.same_iff i j, lookup-put j k v m)

  pub lookup-add :
      (j k : K) (v : V) (m : List (K × V))
      → lookup j (add k v m) ≡ (if k == j then some (Option.get_or (lookup k m) v) else lookup j m)
  lookup-add j k v [] = refl
  lookup-add j k v ((i, w) ∷ m) =
      ground (arith, e.same_iff k j, e.same_iff i k, e.same_iff i j, lookup-add j k v m)

  pub lookup-remove :
      (j k : K) (m : List (K × V)) → lookup j (remove k m) ≡ (if k == j then none else lookup j m)
  lookup-remove j k [] = ground arith
  lookup-remove j k ((i, w) ∷ m) =
      ground (arith, e.same_iff k j, e.same_iff i k, e.same_iff i j, lookup-remove j k m)

  pub put-HasUniqueKeys :
      (k : K) (v : V) (m : List (K × V)) → HasUniqueKeys m → HasUniqueKeys (put k v m)
  put-HasUniqueKeys k v [] u = (refl, tt)
  put-HasUniqueKeys k v ((i, w) ∷ m) u =
      ground
        (arith, e.same_iff i k, e.same_iff k i, lookup-put i k v m, put-HasUniqueKeys k v m u.1)

  pub add-HasUniqueKeys :
      (k : K) (v : V) (m : List (K × V)) → HasUniqueKeys m → HasUniqueKeys (add k v m)
  add-HasUniqueKeys k v [] u = (refl, tt)
  add-HasUniqueKeys k v ((i, w) ∷ m) u =
      ground
        (arith, e.same_iff i k, e.same_iff k i, lookup-add i k v m, add-HasUniqueKeys k v m u.1)

  pub remove-HasUniqueKeys :
      (k : K) (m : List (K × V)) → HasUniqueKeys m → HasUniqueKeys (remove k m)
  remove-HasUniqueKeys k [] u = tt
  remove-HasUniqueKeys k ((i, w) ∷ m) u =
      ground (arith, lookup-remove i k m, remove-HasUniqueKeys k m u.1)

pub record UniqueMap (K V : Type 0) ⦃e : Key K⦄ : Type 0 where
  pub pairs : List (K × V)
  pub unique : HasUniqueKeys pairs

abbrev pub assoc_map : (K V : Type 0) ⦃e : Key K⦄ → HashMap K V
assoc_map K V ⦃e⦄ = record {
  Map = UniqueMap K V;
  empty = record { pairs = []; unique = tt };
  find = λ k m. lookup k m.pairs;
  assign =
      λ k v m. record { pairs = put k v m.pairs; unique = put-HasUniqueKeys k v m.pairs m.unique };
  emplace =
      λ k v m. record { pairs = add k v m.pairs; unique = add-HasUniqueKeys k v m.pairs m.unique };
  erase =
      λ k m. record { pairs = remove k m.pairs; unique = remove-HasUniqueKeys k m.pairs m.unique };
  entries = λ m. m.pairs;
  entries-empty = refl;
  find-assign = λ j k v m. lookup-put j k v m.pairs;
  find-emplace = λ j k v m. lookup-add j k v m.pairs;
  find-erase = λ j k m. lookup-remove j k m.pairs;
  find-entries = λ k m. refl;
  entries-unique = λ m. m.unique;
}
