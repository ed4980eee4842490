-- ===== src/Plugin/Tests.antt =====
-- plugin/plugin_bundle.cc: bundles over lists of pairs, and the theorems at them.
use Prim.Native.String.{String}
use vectro.Common.{ℕ, ◌≡◌, refl, false, Option, none, some, string_key}
use vectro.HashMap.{HashMap}
use vectro.HashMap.Assoc.{assoc_map}
use vectro.Plugin.{
  PluginBundle, set, get, get_ref, remove, has, merge_from, overlay_with, get_typed_plugin,
}
use vectro.Plugin.Laws.{find-overlay_with-merge_from}

-- A plugin is a number.
abbrev plugins : HashMap String (Option ℕ)
plugins = assoc_map String (Option ℕ)

abbrev tls : String
tls = "tls"

abbrev lower : PluginBundle plugins
lower = set plugins tls (some 1) (set plugins "log" (some 2) (HashMap.empty plugins))

abbrev upper : PluginBundle plugins
upper = set plugins tls (some 3) (HashMap.empty plugins)

-- A merge keeps what is there, an overlay replaces it.
merged : get plugins tls (merge_from plugins lower upper) ≡ some 1
unfolding get merge_from
merged = refl

overlaid : get plugins tls (overlay_with plugins lower upper) ≡ some 3
unfolding get overlay_with
overlaid = refl

missing :
    (get_ref plugins "x" lower ≡ none)
    × (has plugins "log" (remove plugins "log" lower) ≡ false)
    × (get_typed_plugin plugins (λ p. some p) tls upper ≡ some 3)
unfolding get_ref has get_typed_plugin
missing = (refl, refl, refl)

find-overlay_with-merge_from_example :
    HashMap.find plugins tls (overlay_with plugins lower upper)
    ≡ HashMap.find plugins tls (merge_from plugins upper lower)
find-overlay_with-merge_from_example = find-overlay_with-merge_from plugins tls lower upper
