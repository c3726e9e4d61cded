-- ===== src/PluginMgr.antt =====
-- libopae-c/pluginmgr.c: the plugins that are loaded, with the lists that the file keeps. What the
-- dynamic loader, `calloc` and the plugins answer is an argument, which may depend on the calls made
-- so far. A text is its bytes, without the 0 at its end. `adapter_list_lock` is held for the whole
-- of an operation, and no plugin calls back.
pub mod Config
pub mod Life
pub mod Handles
pub mod Balance
pub mod Once
pub mod Native
mod Tests
use opae_libs.Prelude.{ℕ, ◌+◌, ◌%◌, ◌^◌, Bool, true, false, not, ◌&&◌, ◌||◌, Option, none, some}
use opae_libs.Prelude.{List, [], ◌∷◌, ◌++◌, map, take, ltb, ◌==◌, if◌then◌else◌}

abbrev pub Text : Type 0
Text = List ℕ

-- `!strcmp(s, t)`.
abbrev pub same_text : Text → Text → Bool
same_text [] [] = true
same_text [] (d ∷ t) = false
same_text (c ∷ s) [] = false
same_text (c ∷ s) (d ∷ t) = (c == d) && same_text s t

-- A call that is made: a `dlopen` that succeeds, a `dlclose`, and the two routines of a plugin.
pub data Call : Type 0 where
  opened closed : ℕ → Call
  initialized finalized : Text → Call

-- Of a plugin's adapter table, what the file uses; a routine that is not there is none.
pub record Adapter : Type 0 where
  pub path : Text
  pub dl_handle : ℕ
  pub initialize : Option (List Call → ℕ)
  pub finalize : Option (List Call → ℕ)

-- What `opae_plugin_configure` returns, and the routines that it puts into the adapter table.
pub record Configured : Type 0 where
  pub code : ℕ
  pub initialize : Option (List Call → ℕ)
  pub finalize : Option (List Call → ℕ)

-- `dlopen` of a search path and a name; `configure`: `dlsym` of a handle, and the function that it
-- finds; `dlclose` gives its result; `calloc`: whether there is memory.
pub record Env : Type 0 where
  pub search_paths : List Text
  pub dlopen : List Call → Text → Option ℕ
  pub configure : List Call → ℕ → Option (Text → Configured)
  pub dlclose : List Call → ℕ → ℕ
  pub calloc : List Call → Bool

pub record PluginCfg : Type 0 where
  pub name : Text
  pub plugin : Text
  pub enabled : Bool
  pub cfg : Text

-- The two bits of `flags` are the two Booleans.
pub record PlatformData : Type 0 where
  pub vendor_id : ℕ
  pub device_id : ℕ
  pub native_plugin : Text
  pub detected : Bool
  pub loaded : Bool

-- The static variables of the file, and the calls made so far, the last one first.
pub record PluginMgr : Type 0 where
  pub adapter_list : List Adapter
  pub config_list : List PluginCfg
  pub plugin_count : ℕ
  pub platforms : List PlatformData
  pub ready : Bool
  pub calls : List Call

-- The buffer for the path, `plugin_path`, has PATH_MAX bytes.
opae_plugin_mgr_find_plugin : Env → List Call → List Text → Text → Option ℕ
opae_plugin_mgr_find_plugin env calls [] lib_path = none
opae_plugin_mgr_find_plugin env calls (path ∷ paths) lib_path =
    elim (env.dlopen calls (take 4095 (path ++ lib_path))) [
      | some h ↦ some h
      | none ↦ opae_plugin_mgr_find_plugin env calls paths lib_path
    ]

alloc_found : Env → List Call → Text → Option ℕ → Option Adapter × List Call
alloc_found env calls lib_path none = (none, calls)
alloc_found env calls lib_path (some h) =
    if env.calloc calls
    then (
      some (record { path = lib_path; dl_handle = h; initialize = none; finalize = none }),
      opened h ∷ calls,
    )
    else (none, closed h ∷ opened h ∷ calls)

opae_plugin_mgr_alloc_adapter : Env → List Call → Text → Option Adapter × List Call
unfolding alloc_found opae_plugin_mgr_find_plugin
opae_plugin_mgr_alloc_adapter env calls lib_path =
    alloc_found env calls lib_path (opae_plugin_mgr_find_plugin env calls env.search_paths lib_path)

-- The result of `dlclose`, and the calls.
pub opae_plugin_mgr_free_adapter : Env → List Call → Adapter → ℕ × List Call
opae_plugin_mgr_free_adapter env calls adapter =
    (env.dlclose calls adapter.dl_handle, closed adapter.dl_handle ∷ calls)

configured_with : Adapter → Text → Option (Text → Configured) → ℕ × Adapter
configured_with adapter config none = (1, adapter)
configured_with adapter config (some cfg) =
    let c = cfg config in
    (c.code, record adapter { initialize = c.initialize; finalize = c.finalize })

opae_plugin_mgr_configure_plugin : Env → List Call → Adapter → Text → ℕ × Adapter
unfolding configured_with
opae_plugin_mgr_configure_plugin env calls adapter config =
    configured_with adapter config (env.configure calls adapter.dl_handle)

-- New entries go to the end of the list; the result is always 0.
abbrev pub opae_plugin_mgr_register_adapter : List Adapter → Adapter → List Adapter
opae_plugin_mgr_register_adapter [] adapter = adapter ∷ []
opae_plugin_mgr_register_adapter (a ∷ rest) adapter =
    a ∷ opae_plugin_mgr_register_adapter rest adapter

-- How the steps that both loops below make with a plugin end: it is not there, it was configured
-- with an error, or it is registered.
pub data Load : Type 0 where
  no_adapter not_configured registered : Load

load_configured : Env → PluginMgr → ℕ × Adapter → Load × PluginMgr
load_configured env m (code, adapter) =
    if code == 0
    then (
      registered,
      record m { adapter_list = opae_plugin_mgr_register_adapter m.adapter_list adapter },
    )
    else (not_configured, record m { calls = (opae_plugin_mgr_free_adapter env m.calls adapter).1 })

load_allocated : Env → PluginMgr → Text → Option Adapter × List Call → Load × PluginMgr
unfolding load_configured opae_plugin_mgr_configure_plugin
load_allocated env m config (none, calls) = (no_adapter, record m { calls = calls })
load_allocated env m config (some adapter, calls) =
    load_configured env (record m { calls = calls })
      (opae_plugin_mgr_configure_plugin env calls adapter config)

pub load_plugin : Env → PluginMgr → Text → Text → Load × PluginMgr
unfolding load_allocated opae_plugin_mgr_alloc_adapter
load_plugin env m lib_path config =
    load_allocated env m config (opae_plugin_mgr_alloc_adapter env m.calls lib_path)

abbrev pub load_errors : Load → ℕ
load_errors registered = 0
load_errors _ = 1

-- `cfg` is not NULL and `cfg_size` not 0 for a configuration on the list.
pub opae_plugin_mgr_load_cfg_plugin : Env → PluginMgr → PluginCfg → ℕ × PluginMgr
opae_plugin_mgr_load_cfg_plugin env m cfg =
    if cfg.enabled
    then (let (l, m') = load_plugin env m cfg.plugin cfg.cfg in (load_errors l, m'))
    else (0, m)

-- The loop over the list.
pub load_cfg_from : Env → PluginMgr → List PluginCfg → ℕ × PluginMgr
load_cfg_from env m [] = (0, m)
load_cfg_from env m (cfg ∷ cfgs) =
    let (n, m') = opae_plugin_mgr_load_cfg_plugin env m cfg in
    let (n', m'') = load_cfg_from env m' cfgs in (n + n', m'')

pub opae_plugin_mgr_load_cfg_plugins : Env → PluginMgr → ℕ × PluginMgr
opae_plugin_mgr_load_cfg_plugins env m = load_cfg_from env m m.config_list

abbrev pub detect_one : ℕ → ℕ → PlatformData → PlatformData
detect_one vendor device p =
    if (p.vendor_id == vendor) && (p.device_id == device) then record p { detected = true } else p

abbrev pub opae_plugin_mgr_detect_platform : List PlatformData → ℕ → ℕ → List PlatformData
opae_plugin_mgr_detect_platform platforms vendor device = map (detect_one vendor device) platforms

-- The directory entries, with what the two files of each say, none where a name cannot be formed or
-- a file not be read; the directory is none where it cannot be opened.
detect_from : List PlatformData → List (Option (ℕ × ℕ)) → ℕ × List PlatformData
detect_from platforms [] = (0, platforms)
detect_from platforms (none ∷ entries) = (1, platforms)
detect_from platforms (some (vendor, device) ∷ entries) =
    detect_from (opae_plugin_mgr_detect_platform platforms (vendor % 2 ^ 16) (device % 2 ^ 16))
      entries

pub opae_plugin_mgr_detect_platforms :
    List PlatformData → Option (List (Option (ℕ × ℕ))) → ℕ × List PlatformData
unfolding detect_from
opae_plugin_mgr_detect_platforms platforms none = (1, platforms)
opae_plugin_mgr_detect_platforms platforms (some entries) = detect_from platforms entries

-- The inner loop: whether a platform with the same plugin is loaded.
abbrev pub already_loaded : Text → List PlatformData → Bool
already_loaded native [] = false
already_loaded native (p ∷ ps) =
    (same_text native p.native_plugin && p.loaded) || already_loaded native ps

-- The state of the outer loop: the platforms before the one that is looked at, the errors, and the
-- number of platforms detected. The manager's own platforms are written back at the end.
pub record Loading : Type 0 where
  pub mgr : PluginMgr
  pub errors : ℕ
  pub platforms_detected : ℕ
  pub before : List PlatformData

abbrev pub pass : Loading → PlatformData → PluginMgr → ℕ → ℕ → Loading
pass l p m errors found = record {
  mgr = m;
  errors = l.errors + errors;
  platforms_detected = l.platforms_detected + found;
  before = l.before ++ p ∷ [];
}

-- After the attempt to load a plugin; the Boolean is whether the function returns.
loaded_one : Loading → PlatformData → Load × PluginMgr → Bool × Loading
loaded_one l p (no_adapter, m) = (true, pass l p m 1 1)
loaded_one l p (not_configured, m) = (false, pass l p m 1 1)
loaded_one l p (registered, m) = (false, pass l (record p { loaded = true }) m 0 1)

-- The two Booleans are whether the platform was detected and its plugin is already loaded; the
-- configuration of a native plugin is the empty text.
native_step : Env → Loading → PlatformData → Bool → Bool → Bool × Loading
unfolding loaded_one
native_step env l p false already = (false, pass l p l.mgr 0 0)
native_step env l p true true = (false, pass l p l.mgr 0 1)
native_step env l p true false = loaded_one l p (load_plugin env l.mgr p.native_plugin [])

-- One round.
load_native : Env → Loading → PlatformData → List PlatformData → Bool × Loading
unfolding native_step
load_native env l p after =
    native_step env l p p.detected (already_loaded p.native_plugin (l.before ++ p ∷ after))

native_from : Env → Loading → List PlatformData → Loading
unfolding load_native
native_from env l [] = l
native_from env l (p ∷ after) =
    let (stop, l') = load_native env l p after in
    elim stop [
      | true ↦ record l' { before = l'.before ++ after }
      | false ↦ native_from env l' after
    ]

abbrev pub loading : PluginMgr → Loading
loading m = record { mgr = m; errors = 0; platforms_detected = 0; before = [] }

abbrev pub write_back : Loading → PluginMgr
write_back l = record l.mgr { platforms = l.before }

-- The errors, the number of platforms detected, and the manager; after an error in the detection the
-- number stays 0.
unfoldable pub opae_plugin_mgr_load_dflt_plugins :
    Env → Option (List (Option (ℕ × ℕ))) → PluginMgr → ℕ × ℕ × PluginMgr
unfolding opae_plugin_mgr_detect_platforms native_from
opae_plugin_mgr_load_dflt_plugins env directory m =
    let (errors, platforms) = opae_plugin_mgr_detect_platforms m.platforms directory in
    if errors == 0
    then (let l = native_from env (loading m) platforms in
        (l.errors, l.platforms_detected, write_back l))
    else (errors, 0, record m { platforms = platforms })
