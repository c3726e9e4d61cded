-- ===== src/Irq/Tests.antt =====
-- A device with two interrupts, the second one maskable.
use opae_libs.Prelude.{◌≡◌, refl, some, List, [], ◌∷◌}
use opae_libs.Irq.{
  DeviceIrq, code, kernel, trigger, unmask, mask, no_trigger, has_eventfd, is_maskable,
}
use opae_libs.Irq.{
  opae_vfio_irq_enable, opae_vfio_irq_unmask, opae_vfio_irq_mask, opae_vfio_irq_disable,
}
use opae_libs.Irq.Bounds.{InRange, opae_vfio_irq-InRange}

abbrev irqs : List DeviceIrq
irqs = record { flags = 1; index = 0; count = 1 } ∷ record { flags = 3; index = 2; count = 4 } ∷ []

last_one :
    opae_vfio_irq_enable (some irqs) 2 3 9
    ≡ kernel (record { action = trigger 9; index = 2; start = 3 })
unfolding opae_vfio_irq_enable
last_one = refl

out_of_range : opae_vfio_irq_mask (some irqs) 2 4 ≡ code 3
unfolding opae_vfio_irq_mask
out_of_range = refl

not_maskable : opae_vfio_irq_unmask (some irqs) 0 0 ≡ code 2
unfolding opae_vfio_irq_unmask
not_maskable = refl

opae_vfio_irq-InRange_example :
    InRange has_eventfd (trigger 9) irqs 2 3 (opae_vfio_irq_enable (some irqs) 2 3 9)
    × InRange is_maskable unmask irqs 2 3 (opae_vfio_irq_unmask (some irqs) 2 3)
    × InRange is_maskable mask irqs 2 3 (opae_vfio_irq_mask (some irqs) 2 3)
    × InRange has_eventfd no_trigger irqs 2 3 (opae_vfio_irq_disable (some irqs) 2 3)
opae_vfio_irq-InRange_example = opae_vfio_irq-InRange irqs 2 3 9
