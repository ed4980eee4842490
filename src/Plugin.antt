-- ===== src/Plugin.antt =====
-- plugin/plugin_bundle.h and plugin/plugin_bundle.cc: the plugins that a component owns, by key.
-- A plugin pointer is an `Option`, with `none` for nullptr; `P` is what a pointer points to. The
-- hash map is a parameter.
pub mod Laws
pub mod Tests
use Prim.Native.String.{String}
use vectro.Common.{
  Bool, true, false, Option, none, some, List, [], ◌∷◌, is_empty as is_nil, string_key,
}
use vectro.HashMap.{HashMap}

module _ {P : Type 0} (hm : HashMap String (Option P)) where
  open hm use {Map, find, assign, emplace, erase, entries}

  abbrev pub PluginBundle : Type 0
  PluginBundle = Map

  abbrev pub set : String → Option P → PluginBundle → PluginBundle
  set key plugin b = assign key plugin b

  pub get : String → PluginBundle → Option P
  get key b = elim (find key b) [ none ↦ none | some plugin ↦ plugin ]

  -- The reference is to a static null pointer where the key is missing.
  pub get_ref : String → PluginBundle → Option P
  get_ref key b = elim (find key b) [ none ↦ none | some plugin ↦ plugin ]

  abbrev pub remove : String → PluginBundle → PluginBundle
  remove key b = erase key b

  pub has : String → PluginBundle → Bool
  has key b = elim (find key b) [ none ↦ false | some _ ↦ true ]

  abbrev pub insert_all : List (String × Option P) → PluginBundle → PluginBundle
  insert_all [] b = b
  insert_all ((k, v) ∷ kvs) b = insert_all kvs (emplace k v b)

  pub merge_from : PluginBundle → PluginBundle → PluginBundle
  merge_from b fallback = insert_all (entries fallback) b

  abbrev pub assign_all : List (String × Option P) → PluginBundle → PluginBundle
  assign_all [] b = b
  assign_all ((k, v) ∷ kvs) b = assign_all kvs (assign k v b)

  pub overlay_with : PluginBundle → PluginBundle → PluginBundle
  overlay_with b upper = assign_all (entries upper) b

  pub is_empty : PluginBundle → Bool
  is_empty b = is_nil (entries b)

  -- `GetTypedPlugin<T>`, with `dynamic_pointer_cast<T>` as the parameter `cast`.
  pub get_typed_plugin : {T : Type 0} → (P → Option T) → String → PluginBundle → Option T
  unfolding get
  get_typed_plugin cast key b = elim (get key b) [ none ↦ none | some p ↦ cast p ]
