-- ===== src/VfioPlugin/Shared.antt =====
-- A port in a region that has a token already.
use opae_libs.Prelude.{ℕ, suc, true, Option, none, some, List, [], ◌∷◌, ◌++◌, length, ◌==◌}
use opae_libs.Prelude.{◌≡◌, refl, ap, ◌∙◌, inl, inr, Bool-cases}
use opae_libs.VfioPlugin.{
  Window, Walk, done, null, outside, no_fuel, then_walk, for_each_dfh, VfioToken, PciDevice, System,
  find_token, get_found, get_token, write_token, stp_body, with_stp, port_token, port_walked,
  walk_port, legacy_port_reset,
}
use opae_libs.VfioPlugin.Headers.{Ended, for_each_dfh-Ended}

pub find_first :
    (u : VfioToken) (ts : List VfioToken) (region : ℕ)
    → (u.region == region) ≡ true
    → find_token (u ∷ ts) region ≡ some u
find_first u ts region y = rw y refl

pub find_token-write :
    (ts : List VfioToken) (region : ℕ) (t : VfioToken) (f : VfioToken → VfioToken)
    → ((u : VfioToken) → (f u).region ≡ u.region)
    → find_token ts region ≡ some t
    → find_token (write_token ts region f) region ≡ some (f t)
find_token-write [] region t f k e = cc
find_token-write (u ∷ ts) region t f k e = elim (Bool-cases (u.region == region)) [
  | inl y ↦
      let g : find_token (u ∷ ts) region ≡ some t → some u ≡ some t = rw y (λ x. x) in
      let same : u ≡ t = let e' = g e in cc in
      let first : find_token (f u ∷ ts) region ≡ some (f t) =
        find_first (f u) ts region (ap (λ n. n == region) (k u) ∙ y) ∙ ap (λ v. some (f v)) same in
      rw y first
  | inr y ↦
      let g : find_token (u ∷ ts) region ≡ some t → find_token ts region ≡ some t = rw y (λ x. x) in
      rw (y, y) (find_token-write ts region t f k (g e))
]

length-write :
    (ts : List VfioToken) (region : ℕ) (f : VfioToken → VfioToken)
    → length (write_token ts region f) ≡ length ts
length-write [] region f = refl
length-write (u ∷ ts) region f = elim (Bool-cases (u.region == region)) [
  | inl y ↦ rw y refl
  | inr y ↦ rw y (ap suc (length-write ts region f))
]

-- What there is in the region after a port was found there: no token more, and one that keeps its kind.
abbrev pub Shared : PciDevice → VfioToken → ℕ → Walk PciDevice → Type 0
Shared d t region (done d') =
    (length d'.tokens ≡ length d.tokens)
    × ((t' : VfioToken) × (find_token d'.tokens region ≡ some t')
        × (t'.objtype ≡ t.objtype)
        × (t'.parent ≡ some region)
        × (t'.legacy_reset ≡ true))
Shared d t region null = ⊥
Shared d t region (outside h) = Unit
Shared d t region no_fuel = ⊥

walked-Shared :
    (system : System) (d : PciDevice) (t : VfioToken) (region : ℕ) (m : Window)
    (w : Walk (Option ℕ))
    → Ended m w
    → find_token d.tokens region ≡ some t
    → Shared d t region (
        then_walk w (λ found. done (record {
          tokens = write_token d.tokens region (λ t. with_stp found (port_token system m region t));
          resets = d.resets ++ (region, legacy_port_reset (system.ack region)) ∷ [];
        })))
walked-Shared system d t region m (done none) k e = (
  length-write d.tokens region (λ t. port_token system m region t),
  (
    port_token system m region t,
    find_token-write d.tokens region t (λ t. port_token system m region t) (λ u. refl) e,
    refl,
    refl,
    refl,
  ),
)
walked-Shared system d t region m (done (some h)) k e = (
  length-write d.tokens region (λ t. with_stp (some h) (port_token system m region t)),
  (
    with_stp (some h) (port_token system m region t),
    find_token-write d.tokens region t (λ t. with_stp (some h) (port_token system m region t))
        (λ u. refl) e,
    refl,
    refl,
    refl,
  ),
)
walked-Shared system d t region m null k e = k
walked-Shared system d t region m (outside h) k e = tt
walked-Shared system d t region m no_fuel k e = k

-- A port whose registers are in the region of its management engine gets no token of its own: the walk
-- of the port, unless a header leads out of the region, writes the engine's token instead. The device
-- has as many tokens as before, the token stays a device if it was one, it is its own parent, and it
-- has the port's reset.
pub walk_port-Shared :
    (system : System) (d : PciDevice) (t : VfioToken) (region : ℕ) (m : Window)
    → find_token d.tokens region ≡ some t
    → Shared d t region (walk_port system d region region m)
unfolding walk_port port_walked get_token get_found
walk_port-Shared system d t region m e = rw e (
    walked-Shared system d t region m (for_each_dfh m (stp_body m) none)
      (for_each_dfh-Ended m (stp_body m) none) e)
