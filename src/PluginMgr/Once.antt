-- ===== src/PluginMgr/Once.antt =====
-- How often a plugin is on the list, and how often a platform is marked with it.
use opae_libs.Prelude.{
  ℕ, ◌+◌, ◌≤◌, true, false, ◌&&◌, Option, none, some, List, [], ◌∷◌, ◌++◌, ◌==◌, ==_iff,
  if◌then◌else◌,
}
use opae_libs.Prelude.{◌≡◌, refl, sym, ap₂, arith, inl, inr, Bool-cases}
use opae_libs.PluginMgr.{
  Text, same_text, opened, Adapter, Configured, Env, PluginMgr, PlatformData, Load,
}
use opae_libs.PluginMgr.{
  opae_plugin_mgr_find_plugin, alloc_found, opae_plugin_mgr_alloc_adapter, configured_with,
  opae_plugin_mgr_configure_plugin, opae_plugin_mgr_register_adapter, load_configured,
  load_allocated, load_plugin, already_loaded, registered,
}

-- How many plugins have a path, and how many platforms with that plugin are marked as loaded.
abbrev pub paths : Text → List Adapter → ℕ
paths t [] = 0
paths t (a ∷ adapters) = (if same_text t a.path then 1 else 0) + paths t adapters

abbrev pub marked : Text → List PlatformData → ℕ
marked t [] = 0
marked t (p ∷ ps) = (if same_text t p.native_plugin && p.loaded then 1 else 0) + marked t ps

abbrev pub detected_in : List PlatformData → ℕ
detected_in [] = 0
detected_in (p ∷ ps) = (if p.detected then 1 else 0) + detected_in ps

-- The plugins of the platforms: a plugin is on the list once where a platform is marked with it, and
-- else not.
abbrev pub Once : List Adapter → List PlatformData → Type 0
Once adapters ps = (t : Text) → (paths t adapters ≡ marked t ps) × (paths t adapters ≤ 1)

pub same_text-eq : (s t : Text) → same_text s t ≡ true → s ≡ t
same_text-eq [] [] e = refl
same_text-eq [] (d ∷ t) e = cc
same_text-eq (c ∷ s) [] e = cc
same_text-eq (c ∷ s) (d ∷ t) e = elim (Bool-cases (c == d)) [
  | inl y ↦
      let f : ((c == d) && same_text s t) ≡ true → same_text s t ≡ true = rw y (λ h. h) in
      ap₂ (λ x u. x ∷ u) ((==_iff c d).0 y) (same_text-eq s t (f e))
  | inr y ↦ cc
]

paths-register :
    (t : Text) (adapters : List Adapter) (a : Adapter)
    → paths t (opae_plugin_mgr_register_adapter adapters a)
      ≡ (if same_text t a.path then 1 else 0) + paths t adapters
paths-register t [] a = refl
paths-register t (b ∷ adapters) a = omega (arith, paths-register t adapters a)

pub marked-append :
    (t : Text) (ps qs : List PlatformData) → marked t (ps ++ qs) ≡ marked t ps + marked t qs
marked-append t [] qs = omega arith
marked-append t (p ∷ ps) qs = omega (arith, marked-append t ps qs)

pub detected_in-append :
    (ps qs : List PlatformData) → detected_in (ps ++ qs) ≡ detected_in ps + detected_in qs
detected_in-append [] qs = omega arith
detected_in-append (p ∷ ps) qs = omega (arith, detected_in-append ps qs)

-- What the attempt to load a plugin adds to the list.
gain : Text → Text → Load → ℕ
gain t lib_path registered = if same_text t lib_path then 1 else 0
gain t lib_path _ = 0

unfoldable pub Gained : List Adapter → Text → Load × PluginMgr → Type 0
unfolding gain
Gained adapters lib_path r =
    (t : Text) → paths t r.1.adapter_list ≡ gain t lib_path r.0 + paths t adapters

configured_with-path :
    (a : Adapter) (config : Text) (o : Option (Text → Configured))
    → (configured_with a config o).1.path ≡ a.path
unfolding configured_with
configured_with-path a config none = refl
configured_with-path a config (some cfg) = refl

load_configured-Gained :
    (env : Env) (m : PluginMgr) (lib_path : Text) (r : ℕ × Adapter)
    → r.1.path ≡ lib_path
    → Gained m.adapter_list lib_path (load_configured env m r)
unfolding load_configured Gained
load_configured-Gained env m lib_path (code, a) e = elim (Bool-cases (code == 0)) [
  | inl y ↦ rw (load_configured, y, sym e) (λ t. paths-register t m.adapter_list a)
  | inr y ↦ rw (load_configured, y) (λ t. omega arith)
]

alloc_found-Gained :
    (env : Env) (m : PluginMgr) (config lib_path : Text) (o : Option ℕ)
    → Gained m.adapter_list lib_path
        (load_allocated env m config (alloc_found env m.calls lib_path o))
unfolding alloc_found load_allocated opae_plugin_mgr_configure_plugin Gained
alloc_found-Gained env m config lib_path none = λ t. omega arith
alloc_found-Gained env m config lib_path (some k) = elim (Bool-cases (env.calloc m.calls)) [
  | inl y ↦
      let a : Adapter = record {
        path = lib_path;
        dl_handle = k;
        initialize = none;
        finalize = none;
      } in
      let calls = opened k ∷ m.calls in
      let o = env.configure calls k in
      rw y (
        load_configured-Gained env (record m { calls = calls }) lib_path
          (configured_with a config o) (configured_with-path a config o))
  | inr y ↦ rw y (λ t. omega arith)
]

pub load_plugin-Gained :
    (env : Env) (m : PluginMgr) (lib_path config : Text)
    → Gained m.adapter_list lib_path (load_plugin env m lib_path config)
unfolding load_plugin opae_plugin_mgr_alloc_adapter
load_plugin-Gained env m lib_path config =
    alloc_found-Gained env m config lib_path
      (opae_plugin_mgr_find_plugin env m.calls env.search_paths lib_path)

pub already_loaded-marked :
    (t : Text) (ps : List PlatformData)
    → (already_loaded t ps ≡ true → 1 ≤ marked t ps)
      × (already_loaded t ps ≡ false → marked t ps ≡ 0)
already_loaded-marked t [] = (λ e. cc, λ e. refl)
already_loaded-marked t (p ∷ ps) = elim (Bool-cases (same_text t p.native_plugin && p.loaded)) [
  | inl y ↦ rw y (λ e. omega arith, λ e. cc)
  | inr y ↦
      let (f, g) = already_loaded-marked t ps in
      rw y (λ e. omega (arith, f e), λ e. omega (arith, g e))
]

-- How many of the platforms with a plugin are detected.
abbrev pub wanted : Text → List PlatformData → ℕ
wanted t [] = 0
wanted t (p ∷ ps) = (if same_text t p.native_plugin && p.detected then 1 else 0) + wanted t ps

pub wanted-append :
    (t : Text) (ps qs : List PlatformData) → wanted t (ps ++ qs) ≡ wanted t ps + wanted t qs
wanted-append t [] qs = omega arith
wanted-append t (p ∷ ps) qs = omega (arith, wanted-append t ps qs)
