-- ===== src/Irq.antt =====
-- libopaevfio/opaevfio.c: the interrupts of a VFIO device. The four operations look the interrupt up
-- in the list that the device was opened with, and ask the kernel, whose answer is an argument.
pub mod Bounds
mod Tests
use opae_libs.Prelude.{ℕ, ◌+◌, ◌/◌, ◌%◌, Bool, ◌&&◌, Option, none, some, List, [], ◌∷◌}
use opae_libs.Prelude.{ltb, ◌==◌, if◌then◌else◌}

pub record DeviceIrq : Type 0 where
  pub flags : ℕ
  pub index : ℕ
  pub count : ℕ

-- VFIO_IRQ_INFO_EVENTFD and VFIO_IRQ_INFO_MASKABLE, the bits 0 and 1 of the flags.
abbrev pub has_eventfd : ℕ → Bool
has_eventfd flags = flags % 2 == 1

abbrev pub is_maskable : ℕ → Bool
is_maskable flags = flags / 2 % 2 == 1

-- What VFIO_DEVICE_SET_IRQS is asked to do with the interrupt at an index, from a subindex on: to
-- trigger the descriptor, to unmask, to mask, and to trigger nothing any more.
pub data IrqAction : Type 0 where
  trigger : ℕ → IrqAction
  unmask mask no_trigger : IrqAction

pub record SetIrqs : Type 0 where
  pub action : IrqAction
  pub index : ℕ
  pub start : ℕ

-- The loop: the first interrupt at the index whose flags have the bit.
pub find_irq : (ℕ → Bool) → ℕ → List DeviceIrq → Option DeviceIrq
find_irq has index [] = none
find_irq has index (irq ∷ irqs) =
    if (irq.index == index) && has irq.flags then some irq else find_irq has index irqs

-- What is returned: 1 to 3, or what the kernel answers.
pub data IrqResult : Type 0 where
  code : ℕ → IrqResult
  kernel : SetIrqs → IrqResult

irq_found : IrqAction → ℕ → ℕ → Option DeviceIrq → IrqResult
irq_found action index subindex none = code 2
irq_found action index subindex (some irq) =
    if ltb subindex irq.count
    then kernel (record { action = action; index = index; start = subindex })
    else code 3

-- The body that the four operations share. The list is none for a NULL device.
pub irq_set : (ℕ → Bool) → IrqAction → Option (List DeviceIrq) → ℕ → ℕ → IrqResult
unfolding find_irq irq_found
irq_set has action none index subindex = code 1
irq_set has action (some irqs) index subindex =
    irq_found action index subindex (find_irq has index irqs)

unfoldable pub opae_vfio_irq_enable : Option (List DeviceIrq) → ℕ → ℕ → ℕ → IrqResult
unfolding irq_set
opae_vfio_irq_enable irqs index subindex event_fd =
    irq_set has_eventfd (trigger event_fd) irqs index subindex

unfoldable pub opae_vfio_irq_unmask : Option (List DeviceIrq) → ℕ → ℕ → IrqResult
unfolding irq_set
opae_vfio_irq_unmask irqs index subindex = irq_set is_maskable unmask irqs index subindex

unfoldable pub opae_vfio_irq_mask : Option (List DeviceIrq) → ℕ → ℕ → IrqResult
unfolding irq_set
opae_vfio_irq_mask irqs index subindex = irq_set is_maskable mask irqs index subindex

unfoldable pub opae_vfio_irq_disable : Option (List DeviceIrq) → ℕ → ℕ → IrqResult
unfolding irq_set
opae_vfio_irq_disable irqs index subindex = irq_set has_eventfd no_trigger irqs index subindex
