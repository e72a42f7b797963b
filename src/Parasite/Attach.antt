-- ===== src/Parasite/Attach.antt =====
-- pk_main.c: devices as they come to the module and leave it.
use xdk.Prelude.{
  ℕ, Bool, true, false, not, Option, none, some, List, [], ◌∷◌, if◌then◌else◌, ◌==◌, ◌&&◌, ltb,
}
use xdk.Parasite.{Outcome, done, IrqMode, Pci, Device, Kernel}

-- What the handlers call of the kernel: `MAX_DEVICES`, the allocations and calls that can fail, the
-- id that `idr_get_new` finds unused, and the name that `snprintf` makes of a minor.
pub record Linux : Type 0 where
  pub max_devices : ℕ
  pub kzalloc : Bool
  pub idr_get_new : List Device → Option ℕ
  pub device_create : Bool
  pub name : ℕ → List ℕ

-- `strcmp(..) == 0`
abbrev pub same_string : List ℕ → List ℕ → Bool
same_string [] [] = true
same_string [] (d ∷ ds) = false
same_string (c ∷ cs) [] = false
same_string (c ∷ cs) (d ∷ ds) = (c == d) && same_string cs ds

module _ (linux : Linux) where
  -- `get_minor`: an id that is too large is given back.
  unfoldable pub get_minor : Kernel → Option ℕ
  get_minor k = elim (linux.idr_get_new k.devices) [
    | none ↦ none
    | some id ↦ if ltb id linux.max_devices then some id else none
  ]

  -- The last part of `sysfs_class_register_device`, with the minor; a device that is not created
  -- gives it back.
  unfoldable pub add_device : Pci → ℕ → Kernel → Option ℕ → Option Device × Kernel
  add_device pci dma_mask k none = (none, k)
  add_device pci dma_mask k (some minor) =
      let d : Device = record {
        pci = pci;
        minor = minor;
        dma_mask = dma_mask;
        irq_mode = IrqMode.nonmasking;
        areas = [];
      } in
      if not linux.device_create then (none, k) else (some d, record k { devices = d ∷ k.devices })

  -- `sysfs_class_register_device` of a `pci_dev` with this DMA mask
  unfoldable pub register_device : Pci → ℕ → Kernel → Option Device × Kernel
  unfolding add_device get_minor
  register_device pci dma_mask k =
      if not linux.kzalloc then (none, k) else add_device pci dma_mask k (get_minor k)

  -- `pk_detach_store`: the first device of this name goes, with all its areas.
  unfoldable pub detach : List ℕ → List Device → List Device
  detach tmp [] = []
  detach tmp (d ∷ ds) =
      let rest = detach tmp ds in if same_string (linux.name d.minor) tmp then ds else d ∷ rest

  unfoldable pub detach_store : List ℕ → ℕ → Kernel → Outcome × Kernel
  unfolding detach
  detach_store tmp count k = (done count, record k { devices = detach tmp k.devices })

-- `major_cleanup`, as far as devices and grants go: `release_all_devices`, and the grants
unfoldable pub major_cleanup : Kernel → Kernel
major_cleanup k = record { devices = []; grants = [] }
