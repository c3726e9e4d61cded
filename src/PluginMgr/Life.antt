-- ===== src/PluginMgr/Life.antt =====
-- The start and the end of libopae-c/pluginmgr.c.
use opae_libs.Prelude.{
  ℕ, ◌+◌, Bool, true, false, not, ◌&&◌, ◌||◌, Option, none, some, List, [], ◌∷◌, map, ◌==◌,
  if◌then◌else◌,
}
use opae_libs.PluginMgr.{
  Text, Call, initialized, finalized, Adapter, Env, PluginMgr, PlatformData,
  opae_plugin_mgr_free_adapter, opae_plugin_mgr_load_cfg_plugins, opae_plugin_mgr_load_dflt_plugins,
}
use opae_libs.PluginMgr.Config.{Json, CfgFile, opae_plugin_mgr_parse_config}

-- A routine of a plugin, if it has it: whether it fails, as 0 or 1, and the calls.
abbrev pub call_routine : Call → Option (List Call → ℕ) → List Call → ℕ × List Call
call_routine call none calls = (0, calls)
call_routine call (some routine) calls = (if routine calls == 0 then 0 else 1, call ∷ calls)

-- The loop of `opae_plugin_mgr_initialize_all`.
unfoldable pub opae_plugin_mgr_initialize_all : List Adapter → List Call → ℕ × List Call
opae_plugin_mgr_initialize_all [] calls = (0, calls)
opae_plugin_mgr_initialize_all (a ∷ adapters) calls =
    let (n, calls') = call_routine (initialized a.path) a.initialize calls in
    let (n', calls'') = opae_plugin_mgr_initialize_all adapters calls' in (n + n', calls'')

-- The loop of `opae_plugin_mgr_finalize_all`.
unfoldable pub finalize_from : Env → List Adapter → List Call → ℕ × List Call
unfolding opae_plugin_mgr_free_adapter
finalize_from env [] calls = (0, calls)
finalize_from env (a ∷ adapters) calls =
    let (n, calls') = call_routine (finalized a.path) a.finalize calls in
    let (res, calls'') = opae_plugin_mgr_free_adapter env calls' a in
    let (n', calls''') = finalize_from env adapters calls'' in
    (n + ((if res == 0 then 0 else 1) + n'), calls''')

abbrev pub reset_platform : PlatformData → PlatformData
reset_platform p = record p { detected = false; loaded = false }

abbrev pub opae_plugin_mgr_reset_cfg : PluginMgr → PluginMgr
opae_plugin_mgr_reset_cfg m = record m { config_list = []; plugin_count = 0 }

-- `finalizing` is not set, since no plugin calls back.
unfoldable pub opae_plugin_mgr_finalize_all : Env → PluginMgr → ℕ × PluginMgr
unfolding finalize_from
opae_plugin_mgr_finalize_all env m =
    let (errors, calls) = finalize_from env m.adapter_list m.calls in
    (
      errors,
      opae_plugin_mgr_reset_cfg (record m {
        adapter_list = [];
        platforms = map reset_platform m.platforms;
        ready = false;
        calls = calls;
      }),
    )

-- What the system answers to an initialization: the configuration file, none where none is named and
-- none found; and the directory of the devices.
pub record Setup : Type 0 where
  pub json : Text → Option Json
  pub use_cfg : Option (Option CfgFile)
  pub directory : Option (List (Option (ℕ × ℕ)))

-- The result of reading the configuration is not looked at.
abbrev pub read_result : Option (ℕ × PluginMgr) → Option PluginMgr
read_result none = none
read_result (some r) = some r.1

unfoldable pub read_config : Setup → PluginMgr → Option (Option CfgFile) → Option PluginMgr
read_config s m none = some m
read_config s m (some file) = read_result (opae_plugin_mgr_parse_config s.json file m)

-- From the test of `errors` on; `found` is the number of platforms detected.
unfoldable pub start_plugins : ℕ × ℕ × PluginMgr → ℕ × PluginMgr
start_plugins (errors, found, m) =
    if errors == 0
    then (let (n, calls) = opae_plugin_mgr_initialize_all m.adapter_list m.calls in
        let ready = (n == 0) && (not (m.plugin_count == 0) || not (found == 0)) in
        (n, record m { ready = if ready then true else m.ready; calls = calls }))
    else (errors, m)

unfoldable pub load_plugins : Env → Setup → PluginMgr → ℕ × ℕ × PluginMgr
unfolding opae_plugin_mgr_load_cfg_plugins
load_plugins env s m =
    if m.plugin_count == 0
    then opae_plugin_mgr_load_dflt_plugins env s.directory m
    else (let (errors, m') = opae_plugin_mgr_load_cfg_plugins env m in (errors, 0, m'))

unfoldable pub initialize_with : Env → Setup → Option PluginMgr → Option (ℕ × PluginMgr)
unfolding start_plugins load_plugins
initialize_with env s none = none
initialize_with env s (some m) = some (start_plugins (load_plugins env s m))

-- The Boolean is whether the manager is started already.
unfoldable pub initialize_unless : Env → Setup → Bool → PluginMgr → Option (ℕ × PluginMgr)
unfolding initialize_with read_config
initialize_unless env s true m = some (0, m)
initialize_unless env s false m = initialize_with env s (read_config s m s.use_cfg)

-- The number of plugins is reset before anything is tested. Undefined behaviour is none.
unfoldable pub opae_plugin_mgr_initialize : Env → Setup → PluginMgr → Option (ℕ × PluginMgr)
unfolding initialize_unless
opae_plugin_mgr_initialize env s m = initialize_unless env s m.ready (record m { plugin_count = 0 })
