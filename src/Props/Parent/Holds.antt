-- ===== src/Props/Parent/Holds.antt =====
-- The parent token of a property object: counted while the object holds it.
use opae_libs.Prelude.{ℕ, ◌+◌, ◌-◌, ◌^◌, ◌<◌, true, Option, none, some, ◌≡◌, ◌≢◌, refl}
use opae_libs.Prelude.{arith, ap, ◌∙◌, ◌==◌, if◌then◌else◌, ==_iff}
use opae_libs.Types.{FpgaResult, fpga_ok, fpga_invalid_param, fpga_exception}
use opae_libs.Token.{Tokens, opae_upref_wrapped_token}
use opae_libs.Token.{opae_downref_wrapped_token}
use opae_libs.Token.Count.{IsValid, refs, opae_validate_wrapped_token_iff}
use opae_libs.Token.Count.{opae_upref_wrapped_token_lem, opae_downref_wrapped_token_lem}
use opae_libs.Props.{Properties, Created, fpga_property_magic, field_valid}
use opae_libs.Props.{opae_properties_create}
use opae_libs.Props.Bodies.{validated}
use opae_libs.Props.Parent.{fpga_property_parent, upref_valid, drop_parent}
use opae_libs.Props.Parent.{fpga_destroy_properties, fpga_clone_properties}

-- A live wrapped token.
abbrev pub IsLive : Tokens → ℕ → Type 0
IsLive ts t = (t ≢ 0) × (0 < refs ts t)

-- A valid object that holds a live parent.
abbrev pub HasParent : Tokens → Properties → Type 0
HasParent ts p =
    (p.magic ≡ fpga_property_magic)
    × (field_valid p fpga_property_parent ≡ true)
    × IsLive ts p.parent

pub upref_valid-live :
    (ts : Tokens) (t : ℕ)
    → IsValid ts
    → IsLive ts t
    → upref_valid ts t ≡ opae_upref_wrapped_token ts t
unfolding upref_valid
upref_valid-live ts t v live =
    ap (λ o. elim o [ none ↦ ts | some wt ↦ opae_upref_wrapped_token ts wt ])
      ((opae_validate_wrapped_token_iff ts t v).1 live)

pub drop_parent-live :
    (ts : Tokens) (p : Properties)
    → IsValid ts
    → HasParent ts p
    → drop_parent ts p ≡ (opae_downref_wrapped_token ts p.parent).1
unfolding drop_parent
drop_parent-live ts p v (h, f, live) = rw f (
    ap (λ o. elim o [ none ↦ ts | some wt ↦ (opae_downref_wrapped_token ts wt).1 ])
      ((opae_validate_wrapped_token_iff ts p.parent v).1 live))

destroy-eq :
    (ts : Tokens) (p : Properties)
    → p.magic ≡ fpga_property_magic
    → fpga_destroy_properties ts (some (some p)) ≡ (fpga_ok, some none, drop_parent ts p)
unfolding fpga_destroy_properties
destroy-eq ts p h =
    ap {B = FpgaResult × Option (Option Properties) × Tokens}
      (λ o. elim o [
        | none ↦ (fpga_invalid_param, some (some p), ts)
        | some q ↦ (fpga_ok, some none, drop_parent ts q)
      ])
      (validated p h)

-- Destroying an object that holds a live parent returns FPGA_OK, resets the caller's pointer, and
-- gives back exactly one reference of the parent.
pub fpga_destroy_properties_lem :
    (ts : Tokens) (p : Properties)
    → IsValid ts
    → HasParent ts p
    → let (res, prop, ts') = fpga_destroy_properties ts (some (some p)) in
      (res ≡ fpga_ok)
      × (prop ≡ some none)
      × IsValid ts'
      × ((q : ℕ) → refs ts' q ≡ (if p.parent == q then refs ts p.parent - 1 else refs ts q))
fpga_destroy_properties_lem ts p v h =
    rw (destroy-eq ts p h.0, drop_parent-live ts p v h)
      (let (v', counts) = opae_downref_wrapped_token_lem ts p.parent v h.2.1 in
        (refl, refl, v', counts))

clone-eq :
    (c : Created) (ts : Tokens) (p fresh : Properties)
    → opae_properties_create c ≡ some fresh
    → p.magic ≡ fpga_property_magic
    → field_valid p fpga_property_parent ≡ true
    → fpga_clone_properties c ts (some p) true ≡ (fpga_ok, some p, upref_valid ts p.parent)
unfolding fpga_clone_properties
clone-eq c ts p fresh made h f =
    ap {B = FpgaResult × Option Properties × Tokens}
      (λ o. elim o [
        | none ↦ (fpga_invalid_param, none, ts)
        | some q ↦ elim (opae_properties_create c) [
          | none ↦ (fpga_exception, none, ts)
          | some clone ↦ (
            fpga_ok,
            some q,
            if field_valid q fpga_property_parent then upref_valid ts q.parent else ts,
          )
        ]
      ])
      (validated p h)
    ∙ ap {B = FpgaResult × Option Properties × Tokens}
        (λ o. elim o [
          | none ↦ (fpga_exception, none, ts)
          | some clone ↦ (
            fpga_ok,
            some p,
            if field_valid p fpga_property_parent then upref_valid ts p.parent else ts,
          )
        ])
        made
    ∙ rw f refl

-- A clone of an object that holds a live parent has the contents of the object, and takes exactly
-- one more reference of the parent, if the new object can be made and the count does not overflow.
pub fpga_clone_properties_lem :
    (c : Created) (ts : Tokens) (p fresh : Properties)
    → opae_properties_create c ≡ some fresh
    → IsValid ts
    → HasParent ts p
    → refs ts p.parent + 1 < 2 ^ 32
    → let (res, dst, ts') = fpga_clone_properties c ts (some p) true in
      (res ≡ fpga_ok)
      × (dst ≡ some p)
      × IsValid ts'
      × ((q : ℕ) → refs ts' q ≡ (if p.parent == q then refs ts p.parent + 1 else refs ts q))
fpga_clone_properties_lem c ts p fresh made v h few =
    rw (clone-eq c ts p fresh made h.0 h.1, upref_valid-live ts p.parent v h.2)
      (let (v', counts, _) = opae_upref_wrapped_token_lem ts p.parent v h.2.1 few in
        (refl, refl, v', counts))

-- In a valid store, cloning an object that holds a live parent, below 2 ^ 32 - 1 references, and
-- destroying the clone leave every reference count as it was, and the store valid, if the clone is
-- given memory.
pub clone-destroy :
    (c : Created) (ts : Tokens) (p fresh : Properties)
    → opae_properties_create c ≡ some fresh
    → IsValid ts
    → HasParent ts p
    → refs ts p.parent + 1 < 2 ^ 32
    → let (_, dst, ts') = fpga_clone_properties c ts (some p) true in
      let (_, _, ts'') = fpga_destroy_properties ts' (some dst) in
      IsValid ts'' × ((q : ℕ) → refs ts'' q ≡ refs ts q)
clone-destroy c ts p fresh made v h few =
    let (_, same, v', more) = fpga_clone_properties_lem c ts p fresh made v h few in
    let ts' = (fpga_clone_properties c ts (some p) true).2 in
    let own : (p.parent == p.parent) ≡ true = (==_iff _ _).1 refl in
    let one_more : refs ts' p.parent ≡ refs ts p.parent + 1 = more p.parent ∙ rw own refl in
    let (_, _, v'', less) = fpga_destroy_properties_lem ts' p v' (h.0, h.1, (h.2.0, omega arith)) in
    rw same (v'', λ q. ground (arith, more q, less q))
