-- ===== src/Parasite/Config.antt =====
-- pk_pci_config.c and pk_class.c: the PCI configuration space, the DMA mask and the interrupt mode
-- of a device.
use mathlib.Core.List.{Memᴰ}
use xdk.Prelude.{
  ℕ, ◌≡◌, ◌≢◌, refl, ap, arith, Bool-cases, inl, inr, Bool, true, false, not, Option, none, some,
  List, [], ◌∷◌, if◌then◌else◌, ◌==◌,
}
use xdk.Parasite.{
  Errno, Outcome, done, error, oops, IrqMode, nonmasking, masking, Grant, Device, Caller,
  check_authority,
}

-- What the handlers call of the kernel: accesses of the configuration space by width and offset,
-- which return 0 or an error, and the two calls that set a DMA mask, true where they succeed.
pub record Linux : Type 0 where
  pub access : (width offset : ℕ) → ℕ
  pub set_dma_mask : ℕ → Bool
  pub set_consistent_dma_mask : ℕ → Bool

-- The accesses that a call makes, by width and offset, and its result; a result that `access`
-- returned is `passed`.
pub data Result : Type 0 where
  refused : Result
  size : ℕ → Result
  passed : ℕ → Result

unfoldable pub access_at : Linux → ℕ → ℕ → Result × List (ℕ × ℕ)
access_at linux width offset =
    let rc = linux.access width offset in
    (if not (rc == 0) then passed rc else size width, (width, offset) ∷ [])

-- `pci_config_proc_read` and `pci_config_proc_write`, which differ in the access only
unfoldable pub pci_config_proc :
    Linux → List Grant → Caller → Device → ℕ → ℕ → Result × List (ℕ × ℕ)
unfolding access_at
pci_config_proc linux grants caller d width offset =
    if not (check_authority grants caller d.pci)
    then (refused, [])
    else (if width == 4
        then access_at linux 4 offset
        else (if width == 2
            then access_at linux 2 offset
            else (if width == 1 then access_at linux 1 offset else (size 0, []))))

-- `dma_mask_store`, with the mask that `sscanf` finds. The device's mask is what
-- `pci_set_dma_mask` sets.
unfoldable pub dma_mask_at : Linux → Option ℕ → ℕ → Device → Outcome × Device
dma_mask_at linux none count d = (error Errno.inval, d)
dma_mask_at linux (some new_mask) count d =
    if not (linux.set_dma_mask new_mask)
    then (error Errno.io, d)
    else (if not (linux.set_consistent_dma_mask new_mask)
        then (error Errno.io, record d { dma_mask = new_mask })
        else (done count, record d { dma_mask = new_mask }))

unfoldable pub dma_mask_store :
    Linux → List Grant → Caller → Option ℕ → ℕ → Device → Outcome × Device
unfolding dma_mask_at
dma_mask_store linux grants caller buf count d =
    if not (check_authority grants caller d.pci)
    then (error Errno.perm, d)
    else dma_mask_at linux buf count d

-- The loop of `irq_mode_store` over the MSI-X vectors: the calls of `enable_irq`, true, and of
-- `disable_irq`, false, and whether it ends before a vector 0
unfoldable pub reset_masking : ℕ → List ℕ → Bool × List (ℕ × Bool)
reset_masking mode [] = (true, [])
reset_masking mode (v ∷ vs) =
    let rest = reset_masking mode vs in
    if v == 0 then (false, []) else (rest.0, (v, mode == 1) ∷ rest.1)

-- `irq_mode_store`, with the mode that `sscanf` finds and the vectors of the device
abbrev pub mode_of : ℕ → IrqMode → IrqMode
mode_of mode old = if mode == 1 then nonmasking else (if mode == 2 then masking else old)

unfoldable pub irq_mode_at : List ℕ → Option ℕ → ℕ → Device → Outcome × Device × List (ℕ × Bool)
irq_mode_at vectors none count d = (error Errno.inval, d, [])
irq_mode_at vectors (some mode) count d =
    let calls = reset_masking mode vectors in
    (if calls.0 then done count else oops, record d { irq_mode = mode_of mode d.irq_mode }, calls.1)

unfoldable pub irq_mode_store :
    List Grant → Caller → List ℕ → Option ℕ → ℕ → Device → Outcome × Device × List (ℕ × Bool)
unfolding irq_mode_at
irq_mode_store grants caller vectors buf count d =
    if not (check_authority grants caller d.pci)
    then (error Errno.perm, d, [])
    else irq_mode_at vectors buf count d

-- The vectors before the first one that is 0
abbrev pub assigned : List ℕ → List ℕ
assigned [] = []
assigned (v ∷ vs) = if v == 0 then [] else v ∷ assigned vs

-- The calls for all vectors of one kind
abbrev pub all_set : Bool → List ℕ → List (ℕ × Bool)
all_set on [] = []
all_set on (v ∷ vs) = (v, on) ∷ all_set on vs

reset_masking-all_set :
    (mode : ℕ) (vs : List ℕ) → (reset_masking mode vs).1 ≡ all_set (mode == 1) (assigned vs)
unfolding reset_masking
reset_masking-all_set mode [] = refl
reset_masking-all_set mode (v ∷ vs) = elim (Bool-cases (v == 0)) [
  | inl e ↦ rw (e, reset_masking) refl
  | inr e ↦ rw (e, reset_masking) (ap (λ t. (v, mode == 1) ∷ t) (reset_masking-all_set mode vs))
]

reset_masking-ends :
    (mode : ℕ) (vs : List ℕ)
    → (((v : ℕ) → Memᴰ v vs → v ≢ 0) → (reset_masking mode vs).0 ≡ true)
      × (Memᴰ 0 vs → (reset_masking mode vs).0 ≡ false)
unfolding reset_masking
reset_masking-ends mode [] = (λ h. refl, λ m. elim m [ ])
reset_masking-ends mode (v ∷ vs) =
    let (all, one) = reset_masking-ends mode vs in
    elim (Bool-cases (v == 0)) [
      | inl e ↦ (λ h. absurd (h v (Memᴰ.head refl) (ground arith)), λ m. rw (e, reset_masking) refl)
      | inr e ↦ (
        λ h. rw (e, reset_masking) (all (λ w m. h w (Memᴰ.tail m))),
        λ m.
            rw (e, reset_masking)
              (elim m [ Memᴰ.head p ↦ absurd (ground arith) | Memᴰ.tail m' ↦ one m' ]),
      )
    ]

-- The device and the vectors after a call with a mode
pub record SetsMode (vectors : List ℕ) (mode count : ℕ) (d : Device)
    (r : Outcome × Device × List (ℕ × Bool)) : Type 0 where
  pub one : mode ≡ 1 → r.1 ≡ record d { irq_mode = nonmasking }
  pub two : mode ≡ 2 → r.1 ≡ record d { irq_mode = masking }
  pub other : mode ≢ 1 → mode ≢ 2 → r.1 ≡ d
  pub enables : mode ≡ 1 → r.2 ≡ all_set true (assigned vectors)
  pub disables : mode ≢ 1 → r.2 ≡ all_set false (assigned vectors)
  pub returns : ((v : ℕ) → Memᴰ v vectors → v ≢ 0) → r.0 ≡ done count
  pub crashes : Memᴰ 0 vectors → r.0 ≡ oops

at-SetsMode :
    (vectors : List ℕ) (mode count : ℕ) (d : Device)
    → SetsMode vectors mode count d (irq_mode_at vectors (some mode) count d)
unfolding irq_mode_at
at-SetsMode vectors mode count d =
    let calls = reset_masking-all_set mode vectors in
    let (all, one) = reset_masking-ends mode vectors in
    record {
      one = λ e. rw e refl;
      two = λ e. rw e refl;
      other = λ p q.
          let a : (mode == 1) ≡ false = ground arith in
          let b : (mode == 2) ≡ false = ground arith in rw (a, irq_mode_at) (rw b refl);
      enables = λ e. let a : (mode == 1) ≡ true = ground arith in rw a at calls;
      disables = λ p. let a : (mode == 1) ≡ false = ground arith in rw a at calls;
      returns = λ h. rw (all h) refl;
      crashes = λ m. rw (one m) refl;
    }

-- `irq_mode_store` refuses permission to a caller whose user has not been granted the device, and
-- answers an unreadable request with EINVAL; neither changes anything. Otherwise mode 1 makes the
-- device non-masking and enables the vectors, mode 2 makes it masking and disables them, and any
-- other mode disables them and leaves the device as it is. The vectors are those before the first
-- that is 0; if there is one that is 0 the kernel stops, and if not the number of bytes is returned.
pub irq_mode_store_lem :
    (grants : List Grant) (caller : Caller) (vectors : List ℕ) (buf : Option ℕ) (count : ℕ)
    (d : Device)
    → let r = irq_mode_store grants caller vectors buf count d in
      (check_authority grants caller d.pci ≡ false → r ≡ (error Errno.perm, d, []))
      × (check_authority grants caller d.pci ≡ true
          → (buf ≡ none → r ≡ (error Errno.inval, d, []))
            × ((mode : ℕ) → buf ≡ some mode → SetsMode vectors mode count d r))
unfolding irq_mode_store irq_mode_at
irq_mode_store_lem grants caller vectors buf count d = (
  λ h. rw (h, irq_mode_store),
  λ h. (
    λ e. rw (h, irq_mode_store) (rw (e, irq_mode_at)),
    λ mode e. rw (h, irq_mode_store) (rw e (at-SetsMode vectors mode count d)),
  ),
)
