-- ===== src/Parasite.antt =====
-- kernel/modules/parasite: the kernel module that hands PCI devices and DMA memory to programs in
-- user space. pk.h, and the grants of pk_main.c.
pub mod Dma
pub mod Order
pub mod Attach
pub mod Alloc
pub mod Config
pub mod Own
pub mod Share
pub mod Granted
pub mod Access
mod Tests
use xdk.Prelude.{ℕ, Bool, true, false, Option, none, some, List, [], ◌∷◌, if◌then◌else◌, ◌==◌, ◌&&◌}

-- What a handler returns: the number of bytes, an error, or nothing, where it writes through NULL.
pub data Errno : Type 0 where
  inval perm nomem range again io : Errno

pub data Outcome : Type 0 where
  done : ℕ → Outcome
  error : Errno → Outcome
  oops : Outcome

-- `pk_dma_area`
pub record Area : Type 0 where
  pub dma_direction : ℕ
  pub node_id : ℕ
  pub order : ℕ
  pub handle : ℕ
  pub phys_addr : ℕ
  pub owner_pid : ℕ
  pub flags : ℕ

-- `pk_device_grant`
pub record Grant : Type 0 where
  pub bus : ℕ
  pub slot : ℕ
  pub func : ℕ
  pub uid : ℕ

-- The place of a PCI device, as `PCI_SLOT` and `PCI_FUNC` take it from `devfn`
pub record Pci : Type 0 where
  pub bus : ℕ
  pub slot : ℕ
  pub func : ℕ

-- `irq_mode_t`
pub data IrqMode : Type 0 where
  nonmasking masking : IrqMode

-- `pk_device`, without its interrupts and entries in /proc
pub record Device : Type 0 where
  pub pci : Pci
  pub minor : ℕ
  pub dma_mask : ℕ
  pub irq_mode : IrqMode
  pub areas : List Area

-- `g_pkdevice_list` and `g_pkdevice_grant_list`, newest entry first
pub record Kernel : Type 0 where
  pub devices : List Device
  pub grants : List Grant

-- `current`: `task_pid_nr` and the user id of the process that makes the call
pub record Caller : Type 0 where
  pub pid : ℕ
  pub uid : ℕ

-- The test of `is_device_granted` on an entry
abbrev pub is_grant : Grant → ℕ → ℕ → ℕ → ℕ → Bool
is_grant g bus slot func uid =
    (g.bus == bus) && ((g.slot == slot) && ((g.func == func) && (g.uid == uid)))

unfoldable pub is_device_granted : List Grant → ℕ → ℕ → ℕ → ℕ → Bool
is_device_granted [] bus slot func uid = false
is_device_granted (g ∷ gs) bus slot func uid =
    if is_grant g bus slot func uid then true else is_device_granted gs bus slot func uid

unfoldable pub check_authority : List Grant → Caller → Pci → Bool
check_authority grants caller pci = is_device_granted grants pci.bus pci.slot pci.func caller.uid

-- `pk_grant_device_store`, with the four fields that `sscanf` finds; `kmalloc` is false where it
-- returns NULL.
unfoldable pub grant_device_store : Bool → Option (ℕ × ℕ × ℕ × ℕ) → ℕ → Kernel → Outcome × Kernel
grant_device_store kmalloc none count k = (error Errno.inval, k)
grant_device_store kmalloc (some (bus, slot, func, uid)) count k =
    let grant : Grant = record { bus = bus; slot = slot; func = func; uid = uid } in
    if kmalloc then (done count, record k { grants = grant ∷ k.grants }) else (oops, k)
