-- ===== src/PluginMgr/Config/Kept.antt =====
-- The reading of the configuration file and the rest of the manager's state.
use opae_libs.Prelude.{ℕ, ◌+◌, Bool, true, false, Option, none, some, List, [], ◌∷◌}
use opae_libs.Prelude.{length, ltb, leb, ◌≡◌, refl, ◌∙◌, inl, inr, Bool-cases}
use opae_libs.PluginMgr.{Text, PluginMgr}
use opae_libs.PluginMgr.Config.{
  plugin_name_max, JsonConfig, JsonPlugin, Json, CfgFile, max_plugin_cfg_size, max_cfg_size,
  copy_text, process_text, process_members, process_got, process_plugin, process_found,
  process_plugins, process_root, process_cfg_buffer, read_from, text_in, parse_text, parse_ended,
  parse_read, opae_plugin_mgr_parse_config,
}

-- Reading the configuration changes the list of the configurations and their number, and no more.
abbrev pub Kept : PluginMgr → PluginMgr → Type 0
Kept m m' =
    (m'.adapter_list ≡ m.adapter_list)
    × (m'.calls ≡ m.calls)
    × (m'.platforms ≡ m.platforms)
    × (m'.ready ≡ m.ready)

same-Kept : (m : PluginMgr) → Kept m m
same-Kept m = (refl, refl, refl, refl)

process_text-Kept :
    (name plugin : Text) (enabled has_node has_text : Bool) (o : Option Text) (m : PluginMgr)
    → Kept m (process_text name plugin enabled has_node has_text o m).1
unfolding process_text copy_text
process_text-Kept name plugin enabled false has_text o m = same-Kept m
process_text-Kept name plugin enabled true has_text none m = same-Kept m
process_text-Kept name plugin enabled true false (some text) m =
    elim (Bool-cases (leb max_plugin_cfg_size (length text + 1))) [
      | inl y ↦ rw y (same-Kept m)
      | inr y ↦ rw y (same-Kept m)
    ]
process_text-Kept name plugin enabled true true (some text) m =
    elim (Bool-cases (leb max_plugin_cfg_size (length text + 1))) [
      | inl y ↦ rw y (same-Kept m)
      | inr y ↦ rw y (refl, refl, refl, refl)
    ]

process_got-Kept :
    (name : Text) (j : JsonConfig) (p : Option Text) (c : Option (Option Text)) (e : Option Bool)
    (m : PluginMgr)
    → Kept m (process_got name j p c e m).1
unfolding process_got process_members
process_got-Kept name j none c e m = same-Kept m
process_got-Kept name j (some plugin) none e m = same-Kept m
process_got-Kept name j (some plugin) (some text) none m = same-Kept m
process_got-Kept name j (some plugin) (some text) (some enabled) m =
    elim (Bool-cases (ltb plugin_name_max (length plugin))) [
      | inl y ↦ rw y (same-Kept m)
      | inr y ↦ rw y (process_text-Kept name plugin enabled j.has_node j.has_text text m)
    ]

process_found-Kept :
    (name : Text) (o : Option JsonConfig) (m : PluginMgr) → Kept m (process_found name o m).1
unfolding process_found process_plugin
process_found-Kept name none m = same-Kept m
process_found-Kept name (some j) m = process_got-Kept name j j.plugin j.configuration j.enabled m

process_plugins-Kept : (ps : List JsonPlugin) (m : PluginMgr) → Kept m (process_plugins ps m).1
unfolding process_plugins
process_plugins-Kept [] m = same-Kept m
process_plugins-Kept (p ∷ ps) m =
    let (a, c, f, r) = process_found-Kept p.name p.config m in
    let (a', c', f', r') = process_plugins-Kept ps (process_found p.name p.config m).1 in
    (a' ∙ a, c' ∙ c, f' ∙ f, r' ∙ r)

process_root-Kept :
    (has_configs : Bool) (o : Option (Option (List JsonPlugin))) (m : PluginMgr)
    → Kept m (process_root has_configs o m).1
unfolding process_root
process_root-Kept has_configs none m = same-Kept m
process_root-Kept false (some plugins) m = same-Kept m
process_root-Kept true (some none) m = same-Kept m
process_root-Kept true (some (some plugins)) m = process_plugins-Kept plugins m

process_cfg_buffer-Kept : (o : Option Json) (m : PluginMgr) → Kept m (process_cfg_buffer o m).1
unfolding process_cfg_buffer
process_cfg_buffer-Kept none m = same-Kept m
process_cfg_buffer-Kept (some root) m = process_root-Kept root.has_configs root.plugins m

-- What a result of reading says, where there is one.
abbrev pub IsKept : PluginMgr → Option (ℕ × PluginMgr) → Type 0
IsKept m none = Unit
IsKept m (some r) = Kept m r.1

parse_text-IsKept :
    (json : Text → Option Json) (o : Option Text) (m : PluginMgr) → IsKept m (parse_text json o m)
unfolding parse_text
parse_text-IsKept json none m = tt
parse_text-IsKept json (some text) m = process_cfg_buffer-Kept (json text) m

parse_ended-IsKept :
    (json : Text → Option Json) (failed ended : Bool) (written : List ℕ) (m : PluginMgr)
    → IsKept m (parse_ended json failed ended written m)
unfolding parse_ended
parse_ended-IsKept json true ended written m = same-Kept m
parse_ended-IsKept json false false written m = same-Kept m
parse_ended-IsKept json false true written m =
    parse_text-IsKept json (text_in max_cfg_size written) m

parse_read-IsKept :
    (json : Text → Option Json) (read_error : Bool) (r : List ℕ × Bool) (m : PluginMgr)
    → IsKept m (parse_read json read_error r m)
unfolding parse_read
parse_read-IsKept json read_error (written, at_end) m =
    elim (Bool-cases (ltb max_cfg_size (length written))) [
      | inl y ↦ rw y tt
      | inr y ↦ rw y (parse_ended-IsKept json read_error at_end written m)
    ]

pub opae_plugin_mgr_parse_config-IsKept :
    (json : Text → Option Json) (o : Option CfgFile) (m : PluginMgr)
    → IsKept m (opae_plugin_mgr_parse_config json o m)
unfolding opae_plugin_mgr_parse_config
opae_plugin_mgr_parse_config-IsKept json none m = same-Kept m
opae_plugin_mgr_parse_config-IsKept json (some file) m =
    parse_read-IsKept json file.read_error (read_from file.bytes 0) m
