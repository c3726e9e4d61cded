-- ===== src/PluginMgr/Balance.antt =====
-- The handles of the dynamic loader: as many are open as plugins are registered.
use opae_libs.Prelude.{ℕ, Bool, true, false, Option, none, some, List, [], ◌∷◌, ◌==◌}
use opae_libs.Prelude.{◌≡◌, refl, arith, inl, inr, Bool-cases, All, map}
use mathlib.Core.Path.{subst}
use opae_libs.PluginMgr.{
  Text, Call, closed, initialized, finalized, Adapter, Env, PluginMgr, PlatformData,
}
use opae_libs.PluginMgr.{opae_plugin_mgr_free_adapter}
use opae_libs.PluginMgr.Config.{CfgFile, opae_plugin_mgr_parse_config}
use opae_libs.PluginMgr.Config.Kept.{IsKept, opae_plugin_mgr_parse_config-IsKept}
use opae_libs.PluginMgr.Life.{
  Setup, call_routine, opae_plugin_mgr_initialize_all, finalize_from, opae_plugin_mgr_finalize_all,
  start_plugins, load_plugins, opae_plugin_mgr_initialize, read_result, read_config,
  initialize_with, initialize_unless, reset_platform,
}
use opae_libs.PluginMgr.Handles.{opens, closes, Balanced, load_plugins-Balanced}

call_routine-Balanced :
    (adapters : List Adapter) (t : Text) (o : Option (List Call → ℕ)) (calls : List Call)
    → Balanced adapters calls
    → Balanced adapters (call_routine (initialized t) o calls).1
      × Balanced adapters (call_routine (finalized t) o calls).1
call_routine-Balanced adapters t none calls b = (b, b)
call_routine-Balanced adapters t (some routine) calls b = (b, b)

initialize_all-Balanced :
    (all adapters : List Adapter) (calls : List Call)
    → Balanced all calls
    → Balanced all (opae_plugin_mgr_initialize_all adapters calls).1
unfolding opae_plugin_mgr_initialize_all
initialize_all-Balanced all [] calls b = b
initialize_all-Balanced all (a ∷ adapters) calls b =
    initialize_all-Balanced all adapters (call_routine (initialized a.path) a.initialize calls).1
      (call_routine-Balanced all a.path a.initialize calls b).0

start_plugins-Balanced :
    (r : ℕ × ℕ × PluginMgr)
    → Balanced r.2.adapter_list r.2.calls
    → let m' = (start_plugins r).1 in Balanced m'.adapter_list m'.calls
unfolding start_plugins
start_plugins-Balanced (errors, found, m) b = elim (Bool-cases (errors == 0)) [
  | inl y ↦ rw (start_plugins, y) (initialize_all-Balanced m.adapter_list m.adapter_list m.calls b)
  | inr y ↦ rw (start_plugins, y) b
]

-- The last handle goes with the last plugin.
finalize_from-Balanced :
    (env : Env) (adapters : List Adapter) (calls : List Call)
    → Balanced adapters calls
    → Balanced [] (finalize_from env adapters calls).1
unfolding finalize_from opae_plugin_mgr_free_adapter
finalize_from-Balanced env [] calls b = b
finalize_from-Balanced env (a ∷ adapters) calls b =
    let calls' = (call_routine (finalized a.path) a.finalize calls).1 in
    let b' = (call_routine-Balanced (a ∷ adapters) a.path a.finalize calls b).1 in
    finalize_from-Balanced env adapters (closed a.dl_handle ∷ calls') (λ h. omega (arith, b' h))

abbrev pub IsBalanced : PluginMgr → Type 0
IsBalanced m = Balanced m.adapter_list m.calls

abbrev After : Option PluginMgr → Type 0
After none = Unit
After (some m) = IsBalanced m

parsed-After :
    (m : PluginMgr) (o : Option (ℕ × PluginMgr)) → IsBalanced m → IsKept m o → After (read_result o)
parsed-After m none b k = tt
parsed-After m (some r) b (a, c, f, y) = rw (a, c) b

read_config-After :
    (s : Setup) (m : PluginMgr) (o : Option (Option CfgFile))
    → IsBalanced m
    → After (read_config s m o)
unfolding read_config
read_config-After s m none b = b
read_config-After s m (some file) b =
    parsed-After m (opae_plugin_mgr_parse_config s.json file m) b
      (opae_plugin_mgr_parse_config-IsKept s.json file m)

initialize_with-After :
    (env : Env) (s : Setup) (o : Option PluginMgr)
    → After o
    → After (read_result (initialize_with env s o))
unfolding initialize_with
initialize_with-After env s none b = tt
initialize_with-After env s (some m) b =
    start_plugins-Balanced (load_plugins env s m) (load_plugins-Balanced env s m b)

initialize_unless-After :
    (env : Env) (s : Setup) (ready : Bool) (m : PluginMgr)
    → IsBalanced m
    → After (read_result (initialize_unless env s ready m))
unfolding initialize_unless
initialize_unless-After env s true m b = b
initialize_unless-After env s false m b =
    initialize_with-After env s (read_config s m s.use_cfg) (read_config-After s m s.use_cfg b)

initialize-After :
    (env : Env) (s : Setup) (m : PluginMgr)
    → IsBalanced m
    → After (read_result (opae_plugin_mgr_initialize env s m))
unfolding opae_plugin_mgr_initialize
initialize-After env s m b = initialize_unless-After env s m.ready (record m { plugin_count = 0 }) b

finalize_all-IsBalanced :
    (env : Env) (m : PluginMgr) → IsBalanced m → IsBalanced (opae_plugin_mgr_finalize_all env m).1
unfolding opae_plugin_mgr_finalize_all
finalize_all-IsBalanced env m b = finalize_from-Balanced env m.adapter_list m.calls b

-- A start of the manager and its end, one after the other. Where the behaviour of a start is undefined,
-- nothing is said of what follows.
pub data Op : Type 0 where
  start : Setup → Op
  finish : Op

abbrev pub run_op : Env → Op → PluginMgr → Option PluginMgr
run_op env (start s) m = read_result (opae_plugin_mgr_initialize env s m)
run_op env finish m = some (opae_plugin_mgr_finalize_all env m).1

abbrev run_on : (PluginMgr → Option PluginMgr) → Option PluginMgr → Option PluginMgr
run_on next none = none
run_on next (some m) = next m

abbrev pub run : Env → List Op → PluginMgr → Option PluginMgr
run env [] m = some m
run env (op ∷ ops) m = run_on (run env ops) (run_op env op m)

run_op-After : (env : Env) (op : Op) (m : PluginMgr) → IsBalanced m → After (run_op env op m)
run_op-After env (start s) m b = initialize-After env s m b
run_op-After env finish m b = finalize_all-IsBalanced env m b

run_on-After :
    (next : PluginMgr → Option PluginMgr) (o : Option PluginMgr)
    → ((m : PluginMgr) → IsBalanced m → After (next m))
    → After o
    → After (run_on next o)
run_on-After next none f b = tt
run_on-After next (some m) f b = f m b

run-After : (env : Env) (ops : List Op) (m : PluginMgr) → IsBalanced m → After (run env ops m)
run-After env [] m b = b
run-After env (op ∷ ops) m b =
    run_on-After (run env ops) (run_op env op m) (run-After env ops) (run_op-After env op m b)

map_reset :
    (ps : List PlatformData)
    → All (λ p. (p.detected ≡ false) × (p.loaded ≡ false)) (map reset_platform ps)
map_reset [] = tt
map_reset (p ∷ ps) = ((refl, refl), map_reset ps)

-- From a manager where the handles that are open are those of the plugins on the list, after any
-- sequence of starts and ends, with any configurations, devices, plugins and answers of the loader,
-- also failed ones, but none whose behaviour is undefined, the same holds: each handle is open as often
-- as plugins have it. An end then closes each of them, and leaves no plugin, no configuration and no
-- mark on a platform, and the manager not started.
pub run-IsBalanced :
    (env : Env) (ops : List Op) (m m' : PluginMgr)
    → IsBalanced m
    → run env ops m ≡ some m'
    → let m'' = (opae_plugin_mgr_finalize_all env m').1 in
      IsBalanced m'
      × ((h : ℕ) → opens h m''.calls ≡ closes h m''.calls)
      × (m''.adapter_list ≡ [])
      × (m''.config_list ≡ [])
      × (m''.plugin_count ≡ 0)
      × (m''.ready ≡ false)
      × All (λ p. (p.detected ≡ false) × (p.loaded ≡ false)) m''.platforms
unfolding opae_plugin_mgr_finalize_all
run-IsBalanced env ops m m' b e =
    let b' : IsBalanced m' = subst After e (run-After env ops m b) in
    (
      b',
      λ h. omega (arith, finalize_all-IsBalanced env m' b' h),
      refl,
      refl,
      refl,
      refl,
      map_reset m'.platforms,
    )
