-- ===== src/PluginMgr/Native.antt =====
-- The plugins of the devices that are found: each is loaded once.
use opae_libs.Prelude.{
  ℕ, ◌+◌, ◌≤◌, ◌%◌, ◌^◌, Bool, true, false, ◌&&◌, Option, none, some, List, [], ◌∷◌, ◌++◌, ◌==◌,
  ==_iff, if◌then◌else◌,
}
use opae_libs.Prelude.{◌≡◌, refl, sym, ◌∙◌, arith, inl, inr, ◌⊎◌, Bool-cases}
use opae_libs.PluginMgr.{Text, same_text, Env, PluginMgr, PlatformData, Load, Loading}
use opae_libs.PluginMgr.{
  load_plugin, opae_plugin_mgr_detect_platforms, detect_from, opae_plugin_mgr_detect_platform,
  loaded_one, load_native, native_step, native_from, loading, pass, already_loaded,
  opae_plugin_mgr_load_dflt_plugins, no_adapter, not_configured, registered, write_back,
}
use opae_libs.PluginMgr.Once.{
  paths, marked, detected_in, Once, same_text-eq, marked-append, detected_in-append, Gained,
  load_plugin-Gained, already_loaded-marked, wanted, wanted-append,
}

-- Of one text, in the loop over the platforms.
abbrev Track : Text → Loading → List PlatformData → Type 0
Track t l after =
    (paths t l.mgr.adapter_list ≡ marked t l.before + marked t after)
    × (paths t l.mgr.adapter_list ≤ 1)
    × (l.errors ≡ 0 → 1 ≤ wanted t l.before → 1 ≤ paths t l.mgr.adapter_list)

skip-Track :
    (t : Text) (l : Loading) (p : PlatformData) (after : List PlatformData) (found : ℕ)
    → Track t l (p ∷ after)
    → (1 ≤ (if same_text t p.native_plugin && p.detected then 1 else 0)
        → 1 ≤ paths t l.mgr.adapter_list)
    → Track t (pass l p l.mgr 0 found) after
skip-Track t l p after found (a, b, c) f =
    let mk = marked-append t l.before (p ∷ []) in
    let wa = wanted-append t l.before (p ∷ []) in (omega (arith, a, mk), b, λ e w. ground arith)

loaded-Track :
    (t : Text) (l : Loading) (p : PlatformData) (after : List PlatformData) (r : Load × PluginMgr)
    → Track t l (p ∷ after)
    → Gained l.mgr.adapter_list p.native_plugin r
    → marked p.native_plugin (l.before ++ p ∷ after) ≡ 0
    → Track t (loaded_one l p r).1 after
unfolding loaded_one Gained
loaded-Track t l p after (no_adapter, m) (a, b, c) g e =
    let mk = marked-append t l.before (p ∷ []) in
    (omega (arith, a, mk, g t), omega (arith, b, g t), λ f. omega (arith, f))
loaded-Track t l p after (not_configured, m) (a, b, c) g e =
    let mk = marked-append t l.before (p ∷ []) in
    (omega (arith, a, mk, g t), omega (arith, b, g t), λ f. omega (arith, f))
loaded-Track t l p after (registered, m) (a, b, c) g e =
    let p' : PlatformData = record p { loaded = true } in
    let mk = marked-append t l.before (p' ∷ []) in
    let wa = wanted-append t l.before (p' ∷ []) in
    elim (Bool-cases (same_text t p.native_plugin)) [
      | inl y ↦
          let e' : marked t (l.before ++ p ∷ after) ≡ 0 = rw (same_text-eq t p.native_plugin y) e in
          let ma = marked-append t l.before (p ∷ after) in
          let gt = g t in (ground arith, ground arith, λ f w. ground arith)
      | inr y ↦ let gt = g t in (ground arith, ground arith, λ f w. ground arith)
    ]

native_step-Track :
    (env : Env) (t : Text) (l : Loading) (p : PlatformData) (after : List PlatformData)
    (detected already : Bool)
    → p.detected ≡ detected
    → (already ≡ true → 1 ≤ marked p.native_plugin (l.before ++ p ∷ after))
    → (already ≡ false → marked p.native_plugin (l.before ++ p ∷ after) ≡ 0)
    → Track t l (p ∷ after)
    → Track t (native_step env l p detected already).1 after
unfolding native_step
native_step-Track env t l p after false already d f g k =
    skip-Track t l p after 0 k (elim (Bool-cases (same_text t p.native_plugin)) [
      | inl y ↦ rw (y, d) (λ w. omega (arith, w))
      | inr y ↦ rw y (λ w. omega (arith, w))
    ])
native_step-Track env t l p after true true d f g k =
    skip-Track t l p after 1 k (elim (Bool-cases (same_text t p.native_plugin)) [
      | inl y ↦ λ w.
          let f' : 1 ≤ marked t (l.before ++ p ∷ after) =
            rw (same_text-eq t p.native_plugin y) (f refl) in
          omega (arith, f', marked-append t l.before (p ∷ after), k.0)
      | inr y ↦ rw y (λ w. omega (arith, w))
    ])
native_step-Track env t l p after true false d f g k =
    loaded-Track t l p after (load_plugin env l.mgr p.native_plugin []) k
      (load_plugin-Gained env l.mgr p.native_plugin []) (g refl)

loaded_stop :
    (l : Loading) (p : PlatformData) (r : Load × PluginMgr)
    → (loaded_one l p r).0 ≡ true
    → 1 ≤ (loaded_one l p r).1.errors
unfolding loaded_one
loaded_stop l p (no_adapter, m) e = omega arith
loaded_stop l p (not_configured, m) e = cc
loaded_stop l p (registered, m) e = cc

native_stop :
    (env : Env) (l : Loading) (p : PlatformData) (detected already : Bool)
    → (native_step env l p detected already).0 ≡ true
    → 1 ≤ (native_step env l p detected already).1.errors
unfolding native_step
native_stop env l p false already e = cc
native_stop env l p true true e = cc
native_stop env l p true false e = loaded_stop l p (load_plugin env l.mgr p.native_plugin []) e

-- A return leaves the platforms behind as they are.
returned-Track :
    (t : Text) (l : Loading) (after : List PlatformData)
    → 1 ≤ l.errors
    → Track t l after
    → Track t (record l { before = l.before ++ after }) []
returned-Track t l after s (a, b, c) =
    (omega (arith, a, marked-append t l.before after), b, λ e w. omega (arith, s, e))

native_from-Track :
    (env : Env) (t : Text) (l : Loading) (after : List PlatformData)
    → Track t l after
    → Track t (native_from env l after) []
unfolding native_from load_native
native_from-Track env t l [] k = k
native_from-Track env t l (p ∷ after) k =
    let (stop, l') = load_native env l p after in
    let already = already_loaded p.native_plugin (l.before ++ p ∷ after) in
    let (f, g) = already_loaded-marked p.native_plugin (l.before ++ p ∷ after) in
    let k' = native_step-Track env t l p after p.detected already refl f g k in
    elim (Bool-cases stop) [
      | inl y ↦
          rw (native_from, y)
            (returned-Track t l' after (native_stop env l p p.detected already y) k')
      | inr y ↦ rw (native_from, y) (native_from-Track env t l' after k')
    ]

detected_in-last :
    (ps : List PlatformData) (p : PlatformData) (detected : Bool)
    → p.detected ≡ detected
    → detected_in (ps ++ p ∷ []) ≡ (if detected then 1 else 0) + detected_in ps
detected_in-last ps p detected d = rw (sym d) (omega (arith, detected_in-append ps (p ∷ [])))

abbrev Counted : Loading → Type 0
Counted l = l.errors ≡ 0 → l.platforms_detected ≡ detected_in l.before

loaded-Counted :
    (l : Loading) (p : PlatformData) (r : Load × PluginMgr)
    → p.detected ≡ true
    → Counted l
    → Counted (loaded_one l p r).1
unfolding loaded_one
loaded-Counted l p (no_adapter, m) d k = λ e. omega (arith, e)
loaded-Counted l p (not_configured, m) d k = λ e. omega (arith, e)
loaded-Counted l p (registered, m) d k = λ e.
    omega
      (arith, k (omega (arith, e)), detected_in-last l.before (record p { loaded = true }) true d)

native_step-Counted :
    (env : Env) (l : Loading) (p : PlatformData) (detected already : Bool)
    → p.detected ≡ detected
    → Counted l
    → Counted (native_step env l p detected already).1
unfolding native_step
native_step-Counted env l p false already d k =
    λ e. omega (arith, k (omega (arith, e)), detected_in-last l.before p false d)
native_step-Counted env l p true true d k =
    λ e. omega (arith, k (omega (arith, e)), detected_in-last l.before p true d)
native_step-Counted env l p true false d k =
    loaded-Counted l p (load_plugin env l.mgr p.native_plugin []) d k

native_from-Counted :
    (env : Env) (l : Loading) (after : List PlatformData)
    → Counted l
    → Counted (native_from env l after)
unfolding native_from load_native
native_from-Counted env l [] k = k
native_from-Counted env l (p ∷ after) k =
    let (stop, l') = load_native env l p after in
    let already = already_loaded p.native_plugin (l.before ++ p ∷ after) in
    elim (Bool-cases stop) [
      | inl y ↦
          rw (native_from, y) (λ e. omega (arith, native_stop env l p p.detected already y, e))
      | inr y ↦
          rw (native_from, y)
            (native_from-Counted env l' after
              (native_step-Counted env l p p.detected already refl k))
    ]

detect_one-marked :
    (t : Text) (vendor device : ℕ) (ps : List PlatformData)
    → marked t (opae_plugin_mgr_detect_platform ps vendor device) ≡ marked t ps
detect_one-marked t vendor device [] = refl
detect_one-marked t vendor device (p ∷ ps) =
    elim (Bool-cases ((p.vendor_id == vendor) && (p.device_id == device))) [
      | inl y ↦ rw y (omega (arith, detect_one-marked t vendor device ps))
      | inr y ↦ rw y (omega (arith, detect_one-marked t vendor device ps))
    ]

detect_from-marked :
    (t : Text) (ps : List PlatformData) (entries : List (Option (ℕ × ℕ)))
    → marked t (detect_from ps entries).1 ≡ marked t ps
unfolding detect_from
detect_from-marked t ps [] = refl
detect_from-marked t ps (none ∷ entries) = refl
detect_from-marked t ps (some (vendor, device) ∷ entries) =
    detect_from-marked t (opae_plugin_mgr_detect_platform ps (vendor % 2 ^ 16) (device % 2 ^ 16))
      entries
    ∙ detect_one-marked t (vendor % 2 ^ 16) (device % 2 ^ 16) ps

detect_platforms-marked :
    (t : Text) (ps : List PlatformData) (directory : Option (List (Option (ℕ × ℕ))))
    → marked t (opae_plugin_mgr_detect_platforms ps directory).1 ≡ marked t ps
unfolding opae_plugin_mgr_detect_platforms
detect_platforms-marked t ps none = refl
detect_platforms-marked t ps (some entries) = detect_from-marked t ps entries

-- What a loading of the devices' plugins leaves: the errors, the number of platforms and the manager.
abbrev pub Loaded : ℕ × ℕ × PluginMgr → Type 0
Loaded (errors, found, m) =
    Once m.adapter_list m.platforms
    × ((1 ≤ errors)
        ⊎ ((found ≡ detected_in m.platforms)
            × ((t : Text) → (wanted t m.platforms ≡ 0) ⊎ (paths t m.adapter_list ≡ 1))))

native-Loaded :
    (env : Env) (m : PluginMgr) (ps : List PlatformData)
    → Once m.adapter_list ps
    → let l = native_from env (loading m) ps in
      Loaded (l.errors, l.platforms_detected, write_back l)
native-Loaded env m ps o =
    let l = native_from env (loading m) ps in
    let track : (t : Text) → Track t l [] = λ t.
      native_from-Track env t (loading m) ps
        (omega (arith, (o t).0), (o t).1, λ e w. omega (arith, w)) in
    (
      λ t. (omega (arith, (track t).0), (track t).1),
      elim (Bool-cases (l.errors == 0)) [
        | inl y ↦
            let e : l.errors ≡ 0 = (==_iff l.errors 0).0 y in
            inr (
              native_from-Counted env (loading m) ps (λ e. refl) e,
              λ t.
                  let (a, b, c) = track t in
                  let served = c e in
                  elim (Bool-cases (wanted t l.before == 0)) [
                    | inl z ↦ inl ((==_iff (wanted t l.before) 0).0 z)
                    | inr z ↦ inr (ground arith)
                  ],
            )
        | inr y ↦ inl (ground arith)
      ],
    )

-- Where each plugin is on the list once if a platform is marked with it, and else not, the same holds
-- after the plugins of the devices are loaded, however the loader, the plugins and the directory of
-- the devices answer: no plugin is loaded twice, though many platforms name it and though the
-- directory is read again. Without an error, the number returned is that of the platforms detected,
-- and the plugin of each of them is on the list.
pub opae_plugin_mgr_load_dflt_plugins-Loaded :
    (env : Env) (directory : Option (List (Option (ℕ × ℕ)))) (m : PluginMgr)
    → Once m.adapter_list m.platforms
    → Loaded (opae_plugin_mgr_load_dflt_plugins env directory m)
unfolding opae_plugin_mgr_load_dflt_plugins
opae_plugin_mgr_load_dflt_plugins-Loaded env directory m o =
    let (errors, ps) = opae_plugin_mgr_detect_platforms m.platforms directory in
    let o' : Once m.adapter_list ps =
      λ t. ((o t).0 ∙ sym (detect_platforms-marked t m.platforms directory), (o t).1) in
    elim (Bool-cases (errors == 0)) [
      | inl y ↦ rw (opae_plugin_mgr_load_dflt_plugins, y) (native-Loaded env m ps o')
      | inr y ↦ rw (opae_plugin_mgr_load_dflt_plugins, y) (o', inl (ground arith))
    ]
