-- ===== src/VfioPlugin/Kept.antt =====
-- What a walk leaves: at most one token of a device for a region.
use opae_libs.Prelude.{
  ℕ, ◌+◌, ◌≤◌, false, Option, none, some, List, [], ◌∷◌, ◌==◌, ==_iff, if◌then◌else◌,
}
use opae_libs.Prelude.{◌≡◌, refl, sym, arith, inl, inr, Bool-cases}
use opae_libs.VfioPlugin.{
  Window, Walk, done, null, outside, no_fuel, then_walk, VfioToken, PciDevice, System, find_token,
  get_found, get_token, write_token, with_stp, with_compat,
}
use opae_libs.VfioPlugin.Headers.{Inside, Ended}

-- How many tokens there are for a region.
abbrev pub tokens_of : ℕ → List VfioToken → ℕ
tokens_of r [] = 0
tokens_of r (t ∷ ts) = (if t.region == r then 1 else 0) + tokens_of r ts

abbrev pub AtMostOne : List VfioToken → Type 0
AtMostOne ts = (r : ℕ) → tokens_of r ts ≤ 1

-- `malloc` gives no memory for a token, with some tokens there are.
abbrev pub NoMemory : System → Type 0
NoMemory system = (ts : List VfioToken) × (system.malloc ts ≡ false)

-- The walk has a result, with at most one token for a region, or there is no memory for a token.
abbrev pub Kept : System → Walk PciDevice → Type 0
Kept system (done d) = AtMostOne d.tokens
Kept system null = NoMemory system
Kept system (outside h) = ⊥
Kept system no_fuel = ⊥

abbrev pub KeptTokens : System → Walk (List VfioToken) → Type 0
KeptTokens system (done ts) = AtMostOne ts
KeptTokens system null = NoMemory system
KeptTokens system (outside h) = ⊥
KeptTokens system no_fuel = ⊥

pub then-Kept :
    (system : System) (w : Walk (List VfioToken)) (f : List VfioToken → Walk PciDevice)
    → KeptTokens system w
    → ((ts : List VfioToken) → AtMostOne ts → Kept system (f ts))
    → Kept system (then_walk w f)
then-Kept system (done ts) f k g = g ts k
then-Kept system null f k g = k
then-Kept system (outside h) f k g = k
then-Kept system no_fuel f k g = k

pub found-Kept :
    (system : System) (w : Walk PciDevice) (f : PciDevice → Walk PciDevice)
    → Kept system w
    → ((d : PciDevice) → AtMostOne d.tokens → Kept system (f d))
    → Kept system (then_walk w f)
found-Kept system (done d) f k g = g d k
found-Kept system null f k g = k
found-Kept system (outside h) f k g = k
found-Kept system no_fuel f k g = k

-- After a walk over a list that stays in its region.
pub any-Kept {ℓ} :
    {A : Type ℓ} (system : System) (m : Window) (w : Walk A) (f : A → Walk PciDevice)
    → Inside m
    → Ended m w
    → ((a : A) → Kept system (f a))
    → Kept system (then_walk w f)
any-Kept system m (done a) f i e g = g a
any-Kept system m null f i e g = absurd e
any-Kept system m (outside h) f i e g = absurd (omega (arith, i h e.0, e.1))
any-Kept system m no_fuel f i e g = absurd e

-- What is written does not change the region of a token.
tokens_of-write :
    (r region : ℕ) (f : VfioToken → VfioToken) (ts : List VfioToken)
    → ((t : VfioToken) → (f t).region ≡ t.region)
    → tokens_of r (write_token ts region f) ≡ tokens_of r ts
tokens_of-write r region f [] k = refl
tokens_of-write r region f (t ∷ ts) k = elim (Bool-cases (t.region == region)) [
  | inl y ↦ rw (y, k t) refl
  | inr y ↦ rw (y, tokens_of-write r region f ts k) refl
]

pub write-AtMostOne :
    (region : ℕ) (f : VfioToken → VfioToken) (ts : List VfioToken)
    → ((t : VfioToken) → (f t).region ≡ t.region)
    → AtMostOne ts
    → AtMostOne (write_token ts region f)
write-AtMostOne region f ts k a r = omega (arith, a r, tokens_of-write r region f ts k)

find_token-none :
    (ts : List VfioToken) (region : ℕ) → find_token ts region ≡ none → tokens_of region ts ≡ 0
find_token-none [] region e = refl
find_token-none (t ∷ ts) region e = elim (Bool-cases (t.region == region)) [
  | inl y ↦
      let f : find_token (t ∷ ts) region ≡ none → some t ≡ none = rw y (λ g. g) in let g = f e in cc
  | inr y ↦
      let f : find_token (t ∷ ts) region ≡ none → find_token ts region ≡ none = rw y (λ g. g) in
      rw y (omega (arith, find_token-none ts region (f e)))
]

get_found-Kept :
    (system : System) (ts : List VfioToken) (region objtype : ℕ) (o : Option VfioToken)
    → (o ≡ none → tokens_of region ts ≡ 0)
    → AtMostOne ts
    → KeptTokens system (get_found system ts region objtype o)
unfolding get_found
get_found-Kept system ts region objtype (some t) f a = a
get_found-Kept system ts region objtype none f a = elim (Bool-cases (system.malloc ts)) [
  | inl y ↦ rw y (λ r. elim (Bool-cases (region == r)) [
    | inl z ↦
        let same : region ≡ r = (==_iff region r).0 z in
        let g : tokens_of r ts ≡ 0 = rw (sym same) (f refl) in rw z (omega (arith, g))
    | inr z ↦ rw z (omega (arith, a r))
  ])
  | inr y ↦ rw y (ts, y)
]

pub get_token-Kept :
    (system : System) (ts : List VfioToken) (region objtype : ℕ)
    → AtMostOne ts
    → KeptTokens system (get_token system ts region objtype)
unfolding get_token
get_token-Kept system ts region objtype a =
    get_found-Kept system ts region objtype (find_token ts region) (find_token-none ts region) a

pub with_stp-region : (o : Option ℕ) (t : VfioToken) → (with_stp o t).region ≡ t.region
with_stp-region none t = refl
with_stp-region (some h) t = refl

pub with_compat-region : (o : Option (ℕ × ℕ)) (t : VfioToken) → (with_compat o t).region ≡ t.region
with_compat-region none t = refl
with_compat-region (some guid) t = refl
