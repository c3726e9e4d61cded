-- ===== src/Irq/Bounds.antt =====
-- What the operations on interrupts ask the kernel.
use opae_libs.Prelude.{
  ℕ, ◌≤◌, ◌<◌, Bool, true, false, ◌&&◌, Option, none, some, List, [], ◌∷◌, ◌++◌, All,
}
use opae_libs.Prelude.{ltb, ◌==◌, ◌≡◌, refl, ap, ◌⊎◌, inl, inr, arith, Bool-cases}
use opae_libs.Irq.{DeviceIrq, IrqAction, IrqResult, code, kernel, find_irq, irq_found, irq_set}
use opae_libs.Irq.{trigger, unmask, mask, no_trigger, has_eventfd, is_maskable}
use opae_libs.Irq.{
  opae_vfio_irq_enable, opae_vfio_irq_unmask, opae_vfio_irq_mask, opae_vfio_irq_disable,
}

-- Whether an interrupt is at the index and has the capability.
abbrev matches : (ℕ → Bool) → ℕ → DeviceIrq → Bool
matches has index irq = (irq.index == index) && has irq.flags

-- The first interrupt of the list that matches, behind others that do not.
abbrev pub IsFirst : (ℕ → Bool) → ℕ → List DeviceIrq → DeviceIrq → Type 0
IsFirst has index irqs irq =
    (before : List DeviceIrq) × (after : List DeviceIrq) × (irqs ≡ before ++ irq ∷ after)
    × All (λ x. matches has index x ≡ false) before
    × (irq.index ≡ index)
    × (has irq.flags ≡ true)

abbrev FoundIrq : (ℕ → Bool) → ℕ → List DeviceIrq → Option DeviceIrq → Type 0
FoundIrq has index irqs none = All (λ x. matches has index x ≡ false) irqs
FoundIrq has index irqs (some irq) = IsFirst has index irqs irq

found_behind :
    (has : ℕ → Bool) (index : ℕ) (x : DeviceIrq) (irqs : List DeviceIrq) (o : Option DeviceIrq)
    → matches has index x ≡ false
    → FoundIrq has index irqs o
    → FoundIrq has index (x ∷ irqs) o
found_behind has index x irqs none miss f = (miss, f)
found_behind has index x irqs (some irq) miss (before, after, e, all, i, h) =
    (x ∷ before, after, ap (λ l. x ∷ l) e, (miss, all), i, h)

find_irq-FoundIrq :
    (has : ℕ → Bool) (index : ℕ) (irqs : List DeviceIrq)
    → FoundIrq has index irqs (find_irq has index irqs)
unfolding find_irq
find_irq-FoundIrq has index [] = tt
find_irq-FoundIrq has index (irq ∷ irqs) = elim (Bool-cases (matches has index irq)) [
  | inl y ↦ rw y ([], irqs, refl, tt, ground arith, ground arith)
  | inr y ↦ rw y (
      found_behind has index irq irqs (find_irq has index irqs) y
        (find_irq-FoundIrq has index irqs))
]

-- A request is in range, or a code says which test failed.
abbrev pub InRange : (ℕ → Bool) → IrqAction → List DeviceIrq → ℕ → ℕ → IrqResult → Type 0
InRange has action irqs index subindex (kernel r) =
    (irq : DeviceIrq) × IsFirst has index irqs irq
    × (subindex < irq.count)
    × (r ≡ record { action = action; index = index; start = subindex })
InRange has action irqs index subindex (code n) =
    ((n ≡ 2) × All (λ x. matches has index x ≡ false) irqs)
    ⊎ ((n ≡ 3) × (irq : DeviceIrq) × IsFirst has index irqs irq × (irq.count ≤ subindex))

irq_found-InRange :
    (has : ℕ → Bool) (action : IrqAction) (irqs : List DeviceIrq) (index subindex : ℕ)
    (o : Option DeviceIrq)
    → FoundIrq has index irqs o
    → InRange has action irqs index subindex (irq_found action index subindex o)
unfolding irq_found
irq_found-InRange has action irqs index subindex none f = inl (refl, f)
irq_found-InRange has action irqs index subindex (some irq) f =
    elim (Bool-cases (ltb subindex irq.count)) [
      | inl y ↦ rw y (irq, f, ground arith, refl)
      | inr y ↦ rw y (inr (refl, irq, f, ground arith))
    ]

irq_set-InRange :
    (has : ℕ → Bool) (action : IrqAction) (irqs : List DeviceIrq) (index subindex : ℕ)
    → InRange has action irqs index subindex (irq_set has action (some irqs) index subindex)
unfolding irq_set
irq_set-InRange has action irqs index subindex =
    irq_found-InRange has action irqs index subindex (find_irq has index irqs)
      (find_irq-FoundIrq has index irqs)

-- On an open device, each of the four operations asks the kernel only about the first interrupt of
-- the list at the index that has the capability, event descriptors to enable and disable and masking
-- to mask and unmask, and only with a subindex below its count; otherwise it returns 3, where
-- there is such an interrupt and the subindex is not below its count, or 2, where there is none.
pub opae_vfio_irq-InRange :
    (irqs : List DeviceIrq) (index subindex event_fd : ℕ)
    → InRange has_eventfd
        (trigger event_fd)
        irqs
        index
        subindex
        (opae_vfio_irq_enable (some irqs) index subindex event_fd)
      × InRange is_maskable unmask irqs index subindex
          (opae_vfio_irq_unmask (some irqs) index subindex)
      × InRange is_maskable mask irqs index subindex (opae_vfio_irq_mask (some irqs) index subindex)
      × InRange has_eventfd no_trigger irqs index subindex
          (opae_vfio_irq_disable (some irqs) index subindex)
unfolding opae_vfio_irq_enable opae_vfio_irq_unmask opae_vfio_irq_mask opae_vfio_irq_disable
opae_vfio_irq-InRange irqs index subindex event_fd = (
  irq_set-InRange has_eventfd (trigger event_fd) irqs index subindex,
  irq_set-InRange is_maskable unmask irqs index subindex,
  irq_set-InRange is_maskable mask irqs index subindex,
  irq_set-InRange has_eventfd no_trigger irqs index subindex,
)
