-- ===== src/PluginMgr/Tests.antt =====
-- A loader that finds every plugin, and plugins whose start fails or not.
use opae_libs.Prelude.{
  ℕ, Bool, true, false, Option, none, some, List, [], ◌∷◌, length, ◌≡◌, refl, arith, All, inl, inr,
  Bool-cases,
}
use opae_libs.PluginMgr.{
  Text, same_text, Call, Env, PluginMgr, PlatformData, load_plugin, load_cfg_from,
  opae_plugin_mgr_load_cfg_plugin, opae_plugin_mgr_load_dflt_plugins,
}
use opae_libs.PluginMgr.Config.{Json, opae_plugin_mgr_parse_config}
use opae_libs.PluginMgr.Config.Read.{opae_plugin_mgr_parse_config_lem, read_of}
use opae_libs.PluginMgr.Life.{
  Setup, opae_plugin_mgr_finalize_all, opae_plugin_mgr_initialize, opae_plugin_mgr_initialize_all,
}
use opae_libs.PluginMgr.Balance.{IsBalanced, Op, start, finish, run, run-IsBalanced}
use opae_libs.PluginMgr.Handles.{opens, closes}
use opae_libs.PluginMgr.Once.{Once}
use opae_libs.PluginMgr.Native.{Loaded, opae_plugin_mgr_load_dflt_plugins-Loaded}

-- A handle is the number of the calls made before it is opened; the start of a plugin fails where the
-- Boolean says so.
abbrev routine : Bool → List Call → ℕ
routine true calls = 1
routine false calls = 0

abbrev loader : Bool → Env
loader failing = record {
  search_paths = (47 ∷ []) ∷ [];
  dlopen = λ calls path. some (length calls);
  configure = λ calls h.
      some (λ config. record { code = 0; initialize = some (routine failing); finalize = none });
  dlclose = λ calls h. 0;
  calloc = λ calls. true;
}

abbrev platform : ℕ → Text → PlatformData
platform device plugin = record {
  vendor_id = 7170;
  device_id = device;
  native_plugin = plugin;
  detected = false;
  loaded = false;
}

abbrev fresh : PluginMgr
fresh = record {
  adapter_list = [];
  config_list = [];
  plugin_count = 0;
  platforms = platform 1 (120 ∷ []) ∷ platform 2 (120 ∷ []) ∷ platform 2 (118 ∷ []) ∷ [];
  ready = false;
  calls = [];
}

abbrev devices : Option (List (Option (ℕ × ℕ)))
devices = some (some (7170, 1) ∷ some (7170, 2) ∷ some (4660, 5) ∷ [])

abbrev no_config : Setup
no_config = record { json = λ text. none; use_cfg = none; directory = devices }

-- The configuration names one plugin.
abbrev one_plugin : Text → Option Json
one_plugin text = some (record {
  plugins = some (
      some (
        record {
          name = 112 ∷ [];
          config = some (record {
            plugin = some (120 ∷ []);
            configuration = some (some (123 ∷ 125 ∷ []));
            enabled = some true;
            has_node = true;
            has_text = true;
          });
        }
        ∷ []));
  has_configs = true;
})

abbrev with_config : Setup
with_config = record {
  json = one_plugin;
  use_cfg = some (some (record { bytes = 123 ∷ 125 ∷ []; read_error = false }));
  directory = devices;
}

-- Two plugins for three platforms.
abbrev number_of : Option (ℕ × PluginMgr) → Option (ℕ × ℕ × ℕ)
number_of none = none
number_of (some (n, m)) = some (n, length m.adapter_list, length m.config_list)

started : number_of (opae_plugin_mgr_initialize (loader false) no_config fresh) ≡ some (0, 2, 0)
unfolding opae_plugin_mgr_initialize opae_plugin_mgr_load_dflt_plugins load_plugin
    opae_plugin_mgr_initialize_all
started = refl

abbrev again : Env → Setup → Option (ℕ × PluginMgr) → Option (ℕ × PluginMgr)
again env s none = none
again env s (some (n, m)) = opae_plugin_mgr_initialize env s m

-- A start that fails keeps the plugin and its configuration, and the next start loads the plugin once
-- for each of the configurations, so that it is on the list three times.
failed_twice :
    number_of
      (again (loader true) with_config (opae_plugin_mgr_initialize (loader true) with_config fresh))
    ≡ some (3, 3, 2)
unfolding opae_plugin_mgr_initialize opae_plugin_mgr_parse_config load_cfg_from
    opae_plugin_mgr_load_cfg_plugin load_plugin opae_plugin_mgr_initialize_all
failed_twice = refl

abbrev or_fresh : Option PluginMgr → PluginMgr
or_fresh none = fresh
or_fresh (some m) = m

abbrev ops : List Op
ops = start no_config ∷ finish ∷ start with_config ∷ []

abbrev ran : PluginMgr
ran = or_fresh (run (loader false) ops fresh)

none_yet : Once [] fresh.platforms
none_yet t = elim (Bool-cases (same_text t (120 ∷ []))) [
  | inl y ↦ elim (Bool-cases (same_text t (118 ∷ []))) [
    | inl z ↦ rw (y, z) (refl, omega arith)
    | inr z ↦ rw (y, z) (refl, omega arith)
  ]
  | inr y ↦ elim (Bool-cases (same_text t (118 ∷ []))) [
    | inl z ↦ rw (y, z) (refl, omega arith)
    | inr z ↦ rw (y, z) (refl, omega arith)
  ]
]

run-IsBalanced_example :
    let m = (opae_plugin_mgr_finalize_all (loader false) ran).1 in
    IsBalanced ran
    × ((h : ℕ) → opens h m.calls ≡ closes h m.calls)
    × (m.adapter_list ≡ [])
    × (m.config_list ≡ [])
    × (m.plugin_count ≡ 0)
    × (m.ready ≡ false)
    × All (λ p. (p.detected ≡ false) × (p.loaded ≡ false)) m.platforms
unfolding opae_plugin_mgr_initialize opae_plugin_mgr_parse_config opae_plugin_mgr_finalize_all
run-IsBalanced_example = run-IsBalanced (loader false) ops fresh ran (λ h. refl) refl

opae_plugin_mgr_load_dflt_plugins-Loaded_example :
    Loaded (opae_plugin_mgr_load_dflt_plugins (loader false) devices fresh)
opae_plugin_mgr_load_dflt_plugins-Loaded_example =
    opae_plugin_mgr_load_dflt_plugins-Loaded (loader false) devices fresh none_yet

opae_plugin_mgr_parse_config_lem_example :
    opae_plugin_mgr_parse_config one_plugin
      (some (record { bytes = 123 ∷ 125 ∷ []; read_error = false }))
      fresh
    ≡ read_of one_plugin (123 ∷ 125 ∷ []) fresh false false true
opae_plugin_mgr_parse_config_lem_example =
    opae_plugin_mgr_parse_config_lem one_plugin
      (record { bytes = 123 ∷ 125 ∷ []; read_error = false }) fresh
