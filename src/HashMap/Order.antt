-- ===== src/HashMap/Order.antt =====
-- absl::node_hash_map: maps in which the same keys are found differ in the order of iteration only.
use mathlib.Core.List.{Perm}
use mathlib.Core.List.Perm
use mathlib.Core.Path.{subst}
use vectro.Common.{
  ◌≡◌, ◌∙◌, refl, sym, none, some, List, [], ◌∷◌, Key, ◌==◌, Bool-cases, inl, inr, arith,
}
use vectro.HashMap.{lookup, HasUniqueKeys, HashMap}
use vectro.HashMap.Assoc.{remove, lookup-remove, remove-HasUniqueKeys}

module _ {K : Type 0} ⦃e : Key K⦄ {V : Type 0} where
  remove_missing : (k : K) (xs : List (K × V)) → lookup k xs ≡ none → remove k xs ≡ xs
  remove_missing k [] h = refl
  remove_missing k ((j, w) ∷ xs) h = ground (arith, h, remove_missing k xs)

  same-Perm : (xs ys : List (K × V)) → xs ≡ ys → Perm xs ys
  same-Perm xs ys p = subst (λ zs. Perm xs zs) p (Perm.refl xs)

  -- A pair that is found may be put first.
  Perm-remove :
      (k : K) (v : V) (xs : List (K × V))
      → HasUniqueKeys xs
      → lookup k xs ≡ some v
      → Perm xs ((k, v) ∷ remove k xs)
  Perm-remove k v [] u h = absurd (ground (arith, h))
  Perm-remove k v ((j, w) ∷ xs) u h = elim (Bool-cases (j == k)) [
    | inl here ↦ same-Perm _ _ (ground (arith, here, e.same_iff j k, h, u.0, remove_missing k xs))
    | inr there ↦ rw there (
        Perm.trans (Perm.cons (j, w) (Perm-remove k v xs u.1 (ground (arith, there, h))))
          (Perm.swap (k, v) (j, w) (remove k xs)))
  ]

  lookup_rest :
      (k j : K) (v : V) (xs ys : List (K × V))
      → lookup k xs ≡ none
      → lookup j ((k, v) ∷ xs) ≡ lookup j ys
      → lookup j xs ≡ lookup j (remove k ys)
  lookup_rest k j v xs ys none_left h =
      ground (arith, lookup-remove j k ys, h, none_left, e.same_iff k j)

  -- Lists of pairs with unique keys in which every lookup finds the same are the same but for order.
  lookup-Perm :
      (xs ys : List (K × V))
      → HasUniqueKeys xs
      → HasUniqueKeys ys
      → ((j : K) → lookup j xs ≡ lookup j ys)
      → Perm xs ys
  lookup-Perm [] [] u w h = Perm.nil
  lookup-Perm [] ((k, v) ∷ ys) u w h = absurd (ground (arith, h k, e.same_iff k k))
  lookup-Perm ((k, v) ∷ xs) ys u w h =
      let found : lookup k ys ≡ some v = sym (h k) ∙ ground (arith, e.same_iff k k) in
      Perm.trans
        (Perm.cons (k, v)
          (lookup-Perm xs (remove k ys) u.1 (remove-HasUniqueKeys k ys w)
            (λ j. lookup_rest k j v xs ys u.0 (h j))))
        (Perm.symm (Perm-remove k v ys w found))

-- Two states of a hash map that find the same under every key are iterated over the same pairs, up to
-- their order.
pub entries-Perm :
    {K V : Type 0} ⦃e : Key K⦄ (hm : HashMap K V) (m n : hm.Map)
    → ((j : K) → hm.find j m ≡ hm.find j n)
    → Perm (hm.entries m) (hm.entries n)
entries-Perm hm m n h =
    lookup-Perm (hm.entries m) (hm.entries n) (hm.entries-unique m) (hm.entries-unique n)
      (λ j. sym (hm.find-entries j m) ∙ h j ∙ hm.find-entries j n)
