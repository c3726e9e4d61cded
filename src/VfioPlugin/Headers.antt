-- ===== src/VfioPlugin/Headers.antt =====
-- The loops of plugins/vfio/dfl.c: the headers of a region, and the poll of a reset.
use opae_libs.Prelude.{
  ℕ, zero, suc, ◌+◌, ◌≤◌, ◌<◌, Bool, true, false, ◌||◌, none, some, ltb, ◌==◌, if◌then◌else◌,
}
use opae_libs.Prelude.{◌≡◌, refl, arith, inl, inr, Bool-cases, Option-cases}
use opae_libs.Types.{fpga_ok, fpga_exception}
use opae_libs.VfioPlugin.{
  Window, Walk, done, null, outside, no_fuel, dfh_next, dfh_eol, next_dfh, for_each_from,
  for_each_dfh, port_timeout, reset_from, legacy_port_reset,
}

next_behind :
    (last ends : Bool) (n h h' : ℕ)
    → (last ≡ false → 1 ≤ n)
    → (if last || ends then none else some (h + n)) ≡ some h'
    → h < h'
next_behind true ends n h h' p e = cc
next_behind false true n h h' p e = cc
next_behind false false n h h' p e = let f : h + n ≡ h' = cc in omega (arith, f, p refl)

next_dfh_behind : (m : Window) (h h' : ℕ) → next_dfh m h ≡ some h' → h < h'
unfolding next_dfh
next_dfh_behind m h h' e =
    next_behind (dfh_next (m.word h) == 0) (dfh_eol (m.word h) == 1) (dfh_next (m.word h)) h h'
      (λ y. ground arith) e

-- The headers of a region that the code comes to: the first one, and from a header inside the region the
-- next one.
pub data Header (m : Window) : ℕ → Type 0 where
  at_start : Header m 0
  follow : {h h' : ℕ} → Header m h → h + 8 ≤ m.size → next_dfh m h ≡ some h' → Header m h'

-- The feature list stays in its region.
abbrev pub Inside : Window → Type 0
Inside m = (h : ℕ) → Header m h → h + 8 ≤ m.size

-- What a walk over the headers can end with: a result, or a header that the code comes to and that is
-- not inside the region.
abbrev pub Ended {ℓ} : {A : Type ℓ} → Window → Walk A → Type 0
Ended m (done a) = Unit
Ended m null = ⊥
Ended m (outside h) = Header m h × (m.size < h + 8)
Ended m no_fuel = ⊥

for_each_from-Ended {ℓ} :
    {A : Type ℓ} (fuel : ℕ) (m : Window) (body : A → ℕ → Bool × A) (a : A) (h : ℕ)
    → Header m h
    → 1 ≤ fuel
    → m.size < fuel + h
    → Ended m (for_each_from fuel m body a h)
unfolding for_each_from
for_each_from-Ended zero m body a h c p q = absurd (omega (arith, p))
for_each_from-Ended (suc fuel) m body a h c p q =
    let (stop, a') = body a h in
    elim (Bool-cases (ltb m.size (h + 8))) [
      | inl y ↦ rw y (c, ground arith)
      | inr y ↦ elim (Bool-cases stop) [
        | inl z ↦ rw (y, z) tt
        | inr z ↦ elim (Option-cases (next_dfh m h)) [
          | inl n ↦ rw (y, z, n) tt
          | inr (h', n) ↦
              let b = next_dfh_behind m h h' n in
              let inside : h + 8 ≤ m.size = ground arith in
              rw (y, z, n)
                (for_each_from-Ended fuel m body a' h' (follow c inside n)
                  (omega (arith, q, inside)) (omega (arith, q, b)))
        ]
      ]
    ]

-- A walk over the headers from the start of a region on ends, whatever the region holds and whatever
-- the body does: the rounds given suffice, and it ends with a result or with a header of the list
-- that is not inside the region. No region makes it read the headers in a circle.
pub for_each_dfh-Ended {ℓ} :
    {A : Type ℓ} (m : Window) (body : A → ℕ → Bool × A) (a : A) → Ended m (for_each_dfh m body a)
unfolding for_each_dfh
for_each_dfh-Ended m body a =
    for_each_from-Ended (suc m.size) m body a 0 at_start (omega arith) (omega arith)

-- Whether one of the polls from a number on, as many as given, is acknowledged.
abbrev pub acked : (ℕ → Bool) → ℕ → ℕ → Bool
acked ack cycles zero = false
acked ack cycles (suc n) = ack cycles || acked ack (cycles + 1) n

reset_from_lem :
    (fuel : ℕ) (ack : ℕ → Bool) (cycles : ℕ)
    → 1 ≤ fuel
    → fuel + cycles ≡ port_timeout + 1
    → reset_from fuel ack cycles
      ≡ some (if acked ack cycles fuel then (fpga_ok, false) else (fpga_exception, true))
unfolding reset_from
reset_from_lem zero ack cycles p q = absurd (omega (arith, p))
reset_from_lem (suc fuel) ack cycles p q = elim (Bool-cases (ack cycles)) [
  | inl y ↦ rw y refl
  | inr y ↦ elim (Bool-cases (ltb port_timeout (cycles + 1))) [
    | inl z ↦ let f : fuel ≡ 0 = ground arith in rw (y, z, f) refl
    | inr z ↦ rw (y, z) (reset_from_lem fuel ack (cycles + 1) (ground arith) (omega (arith, q)))
  ]
]

-- A reset of a port always ends, after 1001 polls at most, however the port answers: with FPGA_OK and
-- the bit cleared where one of them is acknowledged, and else with FPGA_EXCEPTION and the bit still set.
pub legacy_port_reset_lem :
    (ack : ℕ → Bool)
    → legacy_port_reset ack
      ≡ some (if acked ack 0 (port_timeout + 1) then (fpga_ok, false) else (fpga_exception, true))
unfolding legacy_port_reset
legacy_port_reset_lem ack = reset_from_lem (port_timeout + 1) ack 0 (omega arith) refl
