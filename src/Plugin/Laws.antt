-- ===== src/Plugin/Laws.antt =====
-- plugin/plugin_bundle.cc: what a bundle holds after each operation, as a partial function of keys.
use Prim.Native.String.{String}
use vectro.Common.{
  ◌≡◌, ◌↔◌, refl, sym, ◌∙◌, true, false, Option, none, some, List, [], ◌∷◌, string_key, arith,
  is_empty as is_nil,
}
use vectro.HashMap.{lookup, HasUniqueKeys, HashMap}
use vectro.Plugin.{PluginBundle, has, insert_all, merge_from, assign_all, overlay_with, is_empty}

-- The value on the left, or else the one on the right.
abbrev or_else {ℓ} : {A : Type ℓ} → Option A → Option A → Option A
or_else none y = y
or_else (some x) y = some x

module _ {P : Type 0} (hm : HashMap String (Option P)) where
  open hm use {
    find, assign, emplace, entries, find-assign, find-emplace, find-entries, find-erase,
    entries-unique,
  }

  find-insert_all :
      (k : String) (kvs : List (String × Option P)) (b : PluginBundle hm)
      → find k (insert_all hm kvs b) ≡ or_else (find k b) (lookup k kvs)
  find-insert_all k [] b = ground arith
  find-insert_all k ((j, v) ∷ kvs) b =
      ground (
        arith,
        find-insert_all k kvs (emplace j v b),
        find-emplace k j v b,
        string_key.same_iff j k,
      )

  find-assign_all :
      (k : String) (kvs : List (String × Option P)) (b : PluginBundle hm)
      → HasUniqueKeys kvs
      → find k (assign_all hm kvs b) ≡ or_else (lookup k kvs) (find k b)
  find-assign_all k [] b u = refl
  find-assign_all k ((j, v) ∷ kvs) b u = ground (
    arith,
    find-assign_all k kvs (assign j v b) u.1,
    find-assign k j v b,
    string_key.same_iff j k,
  )

  -- After a merge a key has the bundle's own plugin if it had one, and else the fallback's.
  find-merge_from :
      (k : String) (b fallback : PluginBundle hm)
      → find k (merge_from hm b fallback) ≡ or_else (find k b) (find k fallback)
  unfolding merge_from
  find-merge_from k b fallback =
      rw (find-entries k fallback) (find-insert_all k (entries fallback) b)

  -- After an overlay a key has the upper bundle's plugin if there is one, and else the bundle's own.
  find-overlay_with :
      (k : String) (b upper : PluginBundle hm)
      → find k (overlay_with hm b upper) ≡ or_else (find k upper) (find k b)
  unfolding overlay_with
  find-overlay_with k b upper =
      rw (find-entries k upper) (find-assign_all k (entries upper) b (entries-unique upper))

  -- Under every key, overlaying a bundle with an upper one holds what merging the bundle into the upper
  -- one as its fallback holds.
  pub find-overlay_with-merge_from :
      (k : String) (b upper : PluginBundle hm)
      → find k (overlay_with hm b upper) ≡ find k (merge_from hm upper b)
  find-overlay_with-merge_from k b upper =
      find-overlay_with k b upper ∙ sym (find-merge_from k upper b)

  -- Overlays of three bundles may be grouped either way: every key holds the same.
  find-overlay_with_assoc :
      (k : String) (b c d : PluginBundle hm)
      → find k (overlay_with hm (overlay_with hm b c) d)
        ≡ find k (overlay_with hm b (overlay_with hm c d))
  find-overlay_with_assoc k b c d = ground (
    arith,
    find-overlay_with k (overlay_with hm b c) d,
    find-overlay_with k b c,
    find-overlay_with k b (overlay_with hm c d),
    find-overlay_with k c d,
  )

  is_nil_of_lookup :
      (kvs : List (String × Option P)) → ((k : String) → lookup k kvs ≡ none) → is_nil kvs ≡ true
  is_nil_of_lookup [] h = refl
  is_nil_of_lookup ((k, v) ∷ kvs) h = ground (arith, h k, string_key.same_iff k k)

  lookup_of_is_nil :
      (k : String) (kvs : List (String × Option P)) → is_nil kvs ≡ true → lookup k kvs ≡ none
  lookup_of_is_nil k [] h = refl
  lookup_of_is_nil k (kv ∷ kvs) h = cc

  -- `IsEmpty` answers true exactly for the bundles in which `Has` answers false for every key.
  is_empty_iff :
      (b : PluginBundle hm) → (is_empty hm b ≡ true) ↔ ((k : String) → has hm k b ≡ false)
  unfolding is_empty has
  is_empty_iff b = (
    λ h k. ground (arith, find-entries k b, lookup_of_is_nil k (entries b) h),
    λ h. is_nil_of_lookup (entries b) (λ k. ground (arith, find-entries k b, h k)),
  )
