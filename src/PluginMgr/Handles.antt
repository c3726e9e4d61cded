-- ===== src/PluginMgr/Handles.antt =====
-- The handles of the dynamic loader, as the plugins are loaded.
use opae_libs.Prelude.{
  ℕ, ◌+◌, Bool, true, false, Option, none, some, List, [], ◌∷◌, ◌++◌, ◌==◌, if◌then◌else◌,
}
use opae_libs.Prelude.{◌≡◌, refl, sym, ap, ◌∙◌, arith, inl, inr, Bool-cases}
use opae_libs.PluginMgr.{
  Text, Call, opened, closed, initialized, finalized, Adapter, Env, PluginMgr, PluginCfg,
  PlatformData, Load, Loading,
}
use opae_libs.PluginMgr.{
  opae_plugin_mgr_find_plugin, alloc_found, opae_plugin_mgr_alloc_adapter, configured_with,
  opae_plugin_mgr_configure_plugin, opae_plugin_mgr_free_adapter, opae_plugin_mgr_register_adapter,
  load_configured, load_allocated, load_plugin, opae_plugin_mgr_load_cfg_plugin, load_cfg_from,
  opae_plugin_mgr_load_cfg_plugins, load_errors, opae_plugin_mgr_detect_platforms, loaded_one,
  load_native, native_step, native_from, loading, pass, already_loaded,
  opae_plugin_mgr_load_dflt_plugins, no_adapter, not_configured, registered, write_back,
}
use opae_libs.PluginMgr.Life.{Setup, load_plugins}

-- How often a handle was opened and closed, and how many plugins have it.
abbrev pub opens : ℕ → List Call → ℕ
opens h [] = 0
opens h (opened k ∷ calls) = (if k == h then 1 else 0) + opens h calls
opens h (closed k ∷ calls) = opens h calls
opens h (initialized t ∷ calls) = opens h calls
opens h (finalized t ∷ calls) = opens h calls

abbrev pub closes : ℕ → List Call → ℕ
closes h [] = 0
closes h (opened k ∷ calls) = closes h calls
closes h (closed k ∷ calls) = (if k == h then 1 else 0) + closes h calls
closes h (initialized t ∷ calls) = closes h calls
closes h (finalized t ∷ calls) = closes h calls

abbrev pub holds : ℕ → List Adapter → ℕ
holds h [] = 0
holds h (a ∷ adapters) = (if a.dl_handle == h then 1 else 0) + holds h adapters

-- The handles that are open are those of the plugins.
abbrev pub Balanced : List Adapter → List Call → Type 0
Balanced adapters calls = (h : ℕ) → opens h calls ≡ closes h calls + holds h adapters

holds-register :
    (h : ℕ) (adapters : List Adapter) (a : Adapter)
    → holds h (opae_plugin_mgr_register_adapter adapters a)
      ≡ (if a.dl_handle == h then 1 else 0) + holds h adapters
holds-register h [] a = refl
holds-register h (b ∷ adapters) a = omega (arith, holds-register h adapters a)

configured_with-handle :
    (a : Adapter) (config : Text) (o : Option (Text → opae_libs.PluginMgr.Configured))
    → (configured_with a config o).1.dl_handle ≡ a.dl_handle
unfolding configured_with
configured_with-handle a config none = refl
configured_with-handle a config (some cfg) = refl

load_configured-Balanced :
    (env : Env) (m : PluginMgr) (r : ℕ × Adapter)
    → ((h : ℕ)
        → opens h m.calls
          ≡ closes h m.calls + ((if r.1.dl_handle == h then 1 else 0) + holds h m.adapter_list))
    → let m' = (load_configured env m r).1 in Balanced m'.adapter_list m'.calls
unfolding load_configured opae_plugin_mgr_free_adapter
load_configured-Balanced env m (code, a) b = elim (Bool-cases (code == 0)) [
  | inl y ↦
      rw (load_configured, y)
        (λ h. b h ∙ ap (λ n. closes h m.calls + n) (sym (holds-register h m.adapter_list a)))
  | inr y ↦ rw (load_configured, y) (λ h. omega (arith, b h))
]

alloc_found-Balanced :
    (env : Env) (m : PluginMgr) (config lib_path : Text) (o : Option ℕ)
    → Balanced m.adapter_list m.calls
    → let m' = (load_allocated env m config (alloc_found env m.calls lib_path o)).1 in
      Balanced m'.adapter_list m'.calls
unfolding alloc_found load_allocated opae_plugin_mgr_configure_plugin
alloc_found-Balanced env m config lib_path none b = b
alloc_found-Balanced env m config lib_path (some k) b = elim (Bool-cases (env.calloc m.calls)) [
  | inl y ↦
      let a : Adapter = record {
        path = lib_path;
        dl_handle = k;
        initialize = none;
        finalize = none;
      } in
      let calls = opened k ∷ m.calls in
      let o = env.configure calls k in
      rw y (
        load_configured-Balanced env (record m { calls = calls }) (configured_with a config o)
          (λ h. rw (configured_with-handle a config o) (omega (arith, b h))))
  | inr y ↦ rw y (λ h. omega (arith, b h))
]

pub load_plugin-Balanced :
    (env : Env) (m : PluginMgr) (lib_path config : Text)
    → Balanced m.adapter_list m.calls
    → let m' = (load_plugin env m lib_path config).1 in Balanced m'.adapter_list m'.calls
unfolding load_plugin opae_plugin_mgr_alloc_adapter
load_plugin-Balanced env m lib_path config b =
    alloc_found-Balanced env m config lib_path
      (opae_plugin_mgr_find_plugin env m.calls env.search_paths lib_path) b

load_cfg_plugin-Balanced :
    (env : Env) (m : PluginMgr) (cfg : PluginCfg)
    → Balanced m.adapter_list m.calls
    → let m' = (opae_plugin_mgr_load_cfg_plugin env m cfg).1 in Balanced m'.adapter_list m'.calls
unfolding opae_plugin_mgr_load_cfg_plugin
load_cfg_plugin-Balanced env m cfg b = elim (Bool-cases cfg.enabled) [
  | inl y ↦
      rw (opae_plugin_mgr_load_cfg_plugin, y) (load_plugin-Balanced env m cfg.plugin cfg.cfg b)
  | inr y ↦ rw (opae_plugin_mgr_load_cfg_plugin, y) b
]

load_cfg_from-Balanced :
    (env : Env) (m : PluginMgr) (cfgs : List PluginCfg)
    → Balanced m.adapter_list m.calls
    → let m' = (load_cfg_from env m cfgs).1 in Balanced m'.adapter_list m'.calls
unfolding load_cfg_from
load_cfg_from-Balanced env m [] b = b
load_cfg_from-Balanced env m (cfg ∷ cfgs) b =
    load_cfg_from-Balanced env (opae_plugin_mgr_load_cfg_plugin env m cfg).1 cfgs
      (load_cfg_plugin-Balanced env m cfg b)

loaded_one-Balanced :
    (l : Loading) (p : PlatformData) (r : Load × PluginMgr)
    → Balanced r.1.adapter_list r.1.calls
    → let m' = (loaded_one l p r).1.mgr in Balanced m'.adapter_list m'.calls
unfolding loaded_one
loaded_one-Balanced l p (no_adapter, m) b = b
loaded_one-Balanced l p (not_configured, m) b = b
loaded_one-Balanced l p (registered, m) b = b

native_step-Balanced :
    (env : Env) (l : Loading) (p : PlatformData) (detected already : Bool)
    → Balanced l.mgr.adapter_list l.mgr.calls
    → let m' = (native_step env l p detected already).1.mgr in Balanced m'.adapter_list m'.calls
unfolding native_step
native_step-Balanced env l p false already b = b
native_step-Balanced env l p true true b = b
native_step-Balanced env l p true false b =
    loaded_one-Balanced l p (load_plugin env l.mgr p.native_plugin [])
      (load_plugin-Balanced env l.mgr p.native_plugin [] b)

native_from-Balanced :
    (env : Env) (l : Loading) (after : List PlatformData)
    → Balanced l.mgr.adapter_list l.mgr.calls
    → let m' = (native_from env l after).mgr in Balanced m'.adapter_list m'.calls
unfolding native_from load_native
native_from-Balanced env l [] b = b
native_from-Balanced env l (p ∷ after) b =
    let (stop, l') = load_native env l p after in
    let b' =
      native_step-Balanced env l p p.detected
        (already_loaded p.native_plugin (l.before ++ p ∷ after)) b in
    elim (Bool-cases stop) [
      | inl y ↦ rw (native_from, y) b'
      | inr y ↦ rw (native_from, y) (native_from-Balanced env l' after b')
    ]

load_dflt-Balanced :
    (env : Env) (directory : Option (List (Option (ℕ × ℕ)))) (m : PluginMgr)
    → Balanced m.adapter_list m.calls
    → let m' = (opae_plugin_mgr_load_dflt_plugins env directory m).2 in
      Balanced m'.adapter_list m'.calls
unfolding opae_plugin_mgr_load_dflt_plugins
load_dflt-Balanced env directory m b =
    let (errors, platforms) = opae_plugin_mgr_detect_platforms m.platforms directory in
    elim (Bool-cases (errors == 0)) [
      | inl y ↦
          rw (opae_plugin_mgr_load_dflt_plugins, y)
            (native_from-Balanced env (loading m) platforms b)
      | inr y ↦ rw (opae_plugin_mgr_load_dflt_plugins, y) b
    ]

pub load_plugins-Balanced :
    (env : Env) (s : Setup) (m : PluginMgr)
    → Balanced m.adapter_list m.calls
    → let m' = (load_plugins env s m).2 in Balanced m'.adapter_list m'.calls
unfolding load_plugins opae_plugin_mgr_load_cfg_plugins
load_plugins-Balanced env s m b = elim (Bool-cases (m.plugin_count == 0)) [
  | inl y ↦ rw (load_plugins, y) (load_dflt-Balanced env s.directory m b)
  | inr y ↦ rw (load_plugins, y) (load_cfg_from-Balanced env m m.config_list b)
]
