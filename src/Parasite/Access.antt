-- ===== src/Parasite/Access.antt =====
-- The handlers in any order, as programs call them: who can come to own DMA memory.
use xdk.Prelude.{ℕ, ◌≡◌, Bool, Option, List, [], ◌∷◌, ◌++◌}
use xdk.Parasite.{Device, Kernel, Caller, Pci, grant_device_store}
use xdk.Parasite.Dma.{
  Linux, AllocRequest, FreeRequest, dma_alloc_store, dma_free_store, grant_access_store,
}
use xdk.Parasite.Config
use xdk.Parasite.Config.{dma_mask_store, irq_mode_store}
use xdk.Parasite.Attach
use xdk.Parasite.Attach.{register_device, detach_store, major_cleanup}
use xdk.Parasite.Granted.{Granted}

-- A handler of a device in the list, which it exchanges
pub record At (k : Kernel) : Type 0 where
  pub before : List Device
  pub device : Device
  pub after : List Device
  pub place : k.devices ≡ before ++ (device ∷ after)

abbrev pub exchanged : (k : Kernel) → At k → Device → Kernel
exchanged k a d = record k { devices = a.before ++ (d ∷ a.after) }

-- One call of a handler, with the callers of `dma_alloc_store` until then and afterwards. The kernel
-- behind the handlers may answer otherwise each time, and a process id may come back with another
-- user; processes come and go without a step, since `fops_release` does nothing.
pub data Step (callers : List Caller) (k : Kernel) : List Caller → Kernel → Type 0 where
  grant :
      (kmalloc : Bool) (buf : Option (ℕ × ℕ × ℕ × ℕ)) (count : ℕ)
      → Step callers k callers (grant_device_store kmalloc buf count k).1
  register :
      (core : Attach.Linux) (pci : Pci) (dma_mask : ℕ)
      → Step callers k callers (register_device core pci dma_mask k).1
  unregister :
      (core : Attach.Linux) (name : List ℕ) (count : ℕ)
      → Step callers k callers (detach_store core name count k).1
  cleanup : Step callers k callers (major_cleanup k)
  share :
      (caller : Caller) (buf : Option ℕ) (count : ℕ) (d : Device)
      → Step callers k callers (grant_access_store caller buf count d k).1
  alloc :
      (a : At k) (linux : Linux) (caller : Caller) (buf : AllocRequest) (count : ℕ)
      → Step callers k
          (caller ∷ callers)
          (exchanged k a (dma_alloc_store linux k.grants caller buf count a.device).1)
  free :
      (a : At k) (caller : Caller) (buf : FreeRequest) (count : ℕ)
      → Step callers k callers (exchanged k a (dma_free_store k.grants caller buf count a.device).1)
  set_mask :
      (a : At k) (linux : Config.Linux) (caller : Caller) (buf : Option ℕ) (count : ℕ)
      → Step callers k callers
          (exchanged k a (dma_mask_store linux k.grants caller buf count a.device).1)
  set_irq_mode :
      (a : At k) (caller : Caller) (vectors : List ℕ) (buf : Option ℕ) (count : ℕ)
      → Step callers k callers
          (exchanged k a (irq_mode_store k.grants caller vectors buf count a.device).1)

pub data Reach : List Caller → Kernel → Type 0 where
  loaded : Reach [] (record { devices = []; grants = [] })
  next : {cs ds : List Caller} {k l : Kernel} → Reach cs k → Step cs k ds l → Reach ds l
