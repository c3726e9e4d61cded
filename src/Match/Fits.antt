-- ===== src/Match/Fits.antt =====
-- One test of a comparison, and what the getter of its property gives.
use opae_libs.Prelude.{ℕ, Bool, true, false, ◌&&◌, Option, none, some, ◌==◌, ==_iff, if◌then◌else◌}
use opae_libs.Prelude.{◌≡◌, refl, inl, inr, ◌⊎◌, Bool-cases}
use opae_libs.Types.{FpgaResult, fpga_invalid_param}
use opae_libs.Props.{Properties, fpga_property_magic, field_valid, get_with, if_valid}
use opae_libs.Props.Common.{fpga_property_objtype}
use opae_libs.Props.Common.{}
use opae_libs.Props.Union.{is_object}
use opae_libs.Props.Union.{}
use opae_libs.Props.Bodies.{get_with-valid}
use opae_libs.Match.{passes}

-- What a getter gives passes a test, or there is no value.
abbrev pub fits {ℓ} : {A : Type ℓ} → (A → Bool) → FpgaResult × Option A → Bool
fits test (res, none) = true
fits test (res, some v) = test v

pub passes_value {ℓ} :
    {A : Type ℓ} (p : Properties) (f : ℕ) (read : Properties → A) (test : A → Bool)
    (rest rest' : Bool)
    → p.magic ≡ fpga_property_magic
    → rest ≡ rest'
    → passes (field_valid p f) (test (read p)) rest
      ≡ (fits test (get_with true (some p) (λ q. if_valid q f (read q))) && rest')
passes_value p f read test rest rest' m e =
    rw (get_with-valid p (λ q. if_valid q f (read q)) m, e)
      (elim (Bool-cases (field_valid p f)) [
        | inl y ↦ elim (Bool-cases (test (read p))) [
          | inl z ↦ rw (y, z) refl
          | inr z ↦ rw (y, z) refl
        ]
        | inr y ↦ rw y refl
      ])

-- The type, which what follows may use.
pub passes_objtype :
    (p : Properties) (kind : ℕ) (rest rest' : Bool)
    → p.magic ≡ fpga_property_magic
    → ((field_valid p fpga_property_objtype ≡ false) ⊎ (p.objtype ≡ kind) → rest ≡ rest')
    → passes (field_valid p fpga_property_objtype) (p.objtype == kind) rest ≡ (
        fits
          (λ v. v == kind)
          (get_with true (some p) (λ q. if_valid q fpga_property_objtype q.objtype))
        && rest')
passes_objtype p kind rest rest' m e =
    rw (get_with-valid p (λ q. if_valid q fpga_property_objtype q.objtype) m)
      (elim (Bool-cases (field_valid p fpga_property_objtype)) [
        | inl y ↦ elim (Bool-cases (p.objtype == kind)) [
          | inl z ↦ rw (y, z) (e (inr ((==_iff p.objtype kind).0 z)))
          | inr z ↦ rw (y, z) refl
        ]
        | inr y ↦ let same = e (inl y) in rw y same
      ])

pub passes_kind :
    (p : Properties) (kind objtype f : ℕ) (read : Properties → ℕ) (test : ℕ → Bool)
    (rest rest' : Bool)
    → p.magic ≡ fpga_property_magic
    → is_object p kind ≡ true
    → (objtype == kind) ≡ true
    → rest ≡ rest'
    → passes (field_valid p f) ((objtype == kind) && test (read p)) rest ≡ (
        fits test (
          get_with true
            (some p)
            (λ q. if is_object q kind then if_valid q f (read q) else (fpga_invalid_param, none)))
        && rest')
passes_kind p kind objtype f read test rest rest' m o k e =
    rw
      (
        get_with-valid p
            (λ q. if is_object q kind then if_valid q f (read q) else (fpga_invalid_param, none)) m,
        o,
        k,
        e,
      )
      (elim (Bool-cases (field_valid p f)) [
        | inl y ↦ elim (Bool-cases (test (read p))) [
          | inl z ↦ rw (y, z) refl
          | inr z ↦ rw (y, z) refl
        ]
        | inr y ↦ rw y refl
      ])

pub fits_kind :
    (p : Properties) (kind f : ℕ) (read : Properties → ℕ) (test : ℕ → Bool) (rest : Bool)
    → p.magic ≡ fpga_property_magic
    → is_object p kind ≡ false
    → (fits test (
          get_with true
            (some p)
            (λ q. if is_object q kind then if_valid q f (read q) else (fpga_invalid_param, none)))
        && rest)
      ≡ rest
fits_kind p kind f read test rest m o =
    rw
      (
        get_with-valid p
            (λ q. if is_object q kind then if_valid q f (read q) else (fpga_invalid_param, none)) m,
        o,
      )
      refl
