-- ===== src/Parasite/Granted.antt =====
-- What the handlers keep: every area has the process id of a caller of `dma_alloc_store` whose user
-- has been granted the device.
use xdk.Prelude.{
  ℕ, ◌*◌, ◌^◌, leb, ◌≡◌, refl, arith, true, Option, none, some, List, [], ◌∷◌, ◌++◌, ◌==◌,
  Bool-cases, inl, inr,
}
use xdk.Parasite.{
  Area, Grant, Device, Kernel, Caller, Pci, is_grant, is_device_granted, check_authority,
}
use xdk.Parasite.Dma.{
  Linux, page_size, AllocRequest, FreeRequest, address, all, neither, dma_alloc_store, alloc_area,
  alloc_request, page_or_error, map_area, dma_free_store, free_areas, free_area, free_all_areas,
  zone_of, order_of,
}
use mathlib.Core.List.{Memᴰ}
use xdk.Parasite.Config
use xdk.Parasite.Config.{dma_mask_at, dma_mask_store, irq_mode_at, irq_mode_store}
use xdk.Parasite.Attach
use xdk.Parasite.Attach.{register_device, add_device, get_minor, detach, detach_store}

-- `callers` are those who have called `dma_alloc_store`.
module _ (callers : List Caller) where
  -- One of the callers had the id of the area's owner, and the user of that one has been granted the
  -- device.
  pub record Granted (grants : List Grant) (pci : Pci) (a : Area) : Type 0 where
    pub who : Caller
    pub called : Memᴰ who callers
    pub same_pid : who.pid ≡ a.owner_pid
    pub granted : check_authority grants who pci ≡ true

  abbrev pub AllGranted : List Grant → Pci → List Area → Type 0
  AllGranted grants pci [] = Unit
  AllGranted grants pci (a ∷ l) = Granted grants pci a × AllGranted grants pci l

  abbrev pub Inv : List Grant → List Device → Type 0
  Inv grants [] = Unit
  Inv grants (d ∷ ds) = AllGranted grants d.pci d.areas × Inv grants ds

  granted_more :
      (g : Grant) (gs : List Grant) (bus slot func uid : ℕ)
      → is_device_granted gs bus slot func uid ≡ true
      → is_device_granted (g ∷ gs) bus slot func uid ≡ true
  unfolding is_device_granted
  granted_more g gs bus slot func uid h = elim (Bool-cases (is_grant g bus slot func uid)) [
    | inl e ↦ rw (e, is_device_granted)
    | inr e ↦ rw (e, is_device_granted) h
  ]

  AllGranted-more :
      (g : Grant) (gs : List Grant) (pci : Pci) (l : List Area)
      → AllGranted gs pci l
      → AllGranted (g ∷ gs) pci l
  unfolding check_authority
  AllGranted-more g gs pci [] h = tt
  AllGranted-more g gs pci (a ∷ l) (h, hs) = (
    record {
      who = h.who;
      called = h.called;
      same_pid = h.same_pid;
      granted = granted_more g gs pci.bus pci.slot pci.func h.who.uid h.granted;
    },
    AllGranted-more g gs pci l hs,
  )

  pub Inv-more : (g : Grant) (gs : List Grant) (ds : List Device) → Inv gs ds → Inv (g ∷ gs) ds
  Inv-more g gs [] i = tt
  Inv-more g gs (d ∷ ds) (h, i) = (AllGranted-more g gs d.pci d.areas h, Inv-more g gs ds i)

  -- A device in the list is exchanged.
  pub Inv-exchange :
      (gs : List Grant) (before after : List Device) (d d' : Device)
      → (AllGranted gs d.pci d.areas → AllGranted gs d'.pci d'.areas)
      → Inv gs (before ++ (d ∷ after))
      → Inv gs (before ++ (d' ∷ after))
  Inv-exchange gs [] after d d' f (h, i) = (f h, i)
  Inv-exchange gs (b ∷ before) after d d' f (h, i) = (h, Inv-exchange gs before after d d' f i)

  pub detach-Inv :
      (core : Attach.Linux) (gs : List Grant) (name : List ℕ) (ds : List Device)
      → Inv gs ds
      → Inv gs (detach core name ds)
  unfolding detach
  detach-Inv core gs name [] i = tt
  detach-Inv core gs name (d ∷ ds) (h, i) =
      elim (Bool-cases (Attach.same_string (core.name d.minor) name)) [
        | inl e ↦ rw (e, detach) i
        | inr e ↦ rw (e, detach) (h, detach-Inv core gs name ds i)
      ]

  pub register-Inv :
      (core : Attach.Linux) (pci : Pci) (dma_mask : ℕ) (k : Kernel)
      → Inv k.grants k.devices
      → Inv
          (register_device core pci dma_mask k).1.grants
          (register_device core pci dma_mask k).1.devices
  unfolding register_device add_device
  register-Inv core pci dma_mask k i = elim (Bool-cases core.kzalloc) [
    | inr e ↦ rw (e, register_device) i
    | inl e ↦ rw (e, register_device) (added (get_minor core k))
  ]
    where
      added :
          (m : Option ℕ)
          → Inv
              (add_device core pci dma_mask k m).1.grants
              (add_device core pci dma_mask k m).1.devices
      added none = i
      added (some minor) = elim (Bool-cases core.device_create) [
        | inr e ↦ rw (e, add_device) i
        | inl e ↦ rw (e, add_device) (tt, i)
      ]

  free_area-granted :
      (gs : List Grant) (pci : Pci) (pid addr : ℕ) (l : List Area)
      → AllGranted gs pci l
      → AllGranted gs pci (free_area pid addr l)
  unfolding free_area
  free_area-granted gs pci pid addr [] h = tt
  free_area-granted gs pci pid addr (a ∷ l) (h, hs) = elim (Bool-cases (a.owner_pid == pid)) [
    | inr e ↦ rw (e, free_area) (h, free_area-granted gs pci pid addr l hs)
    | inl e ↦ elim (Bool-cases (a.phys_addr == addr)) [
      | inl f ↦ rw (e, free_area) (rw (f, free_area) hs)
      | inr f ↦ rw (e, free_area) (rw (f, free_area) (h, free_area-granted gs pci pid addr l hs))
    ]
  ]

  free_all-granted :
      (gs : List Grant) (pci : Pci) (pid : ℕ) (l : List Area)
      → AllGranted gs pci l
      → AllGranted gs pci (free_all_areas pid l)
  unfolding free_all_areas
  free_all-granted gs pci pid [] h = tt
  free_all-granted gs pci pid (a ∷ l) (h, hs) = elim (Bool-cases (a.owner_pid == pid)) [
    | inl e ↦ rw (e, free_all_areas) (free_all-granted gs pci pid l hs)
    | inr e ↦ rw (e, free_all_areas) (h, free_all-granted gs pci pid l hs)
  ]

  free_areas-granted :
      (gs : List Grant) (pci : Pci) (pid : ℕ) (buf : FreeRequest) (l : List Area)
      → AllGranted gs pci l
      → AllGranted gs pci (free_areas pid buf l)
  unfolding free_areas
  free_areas-granted gs pci pid (address addr) l h = free_area-granted gs pci pid addr l h
  free_areas-granted gs pci pid all l h = free_all-granted gs pci pid l h
  free_areas-granted gs pci pid neither l h = free_area-granted gs pci pid 0 l h

  pub free-granted :
      (gs : List Grant) (caller : Caller) (buf : FreeRequest) (count : ℕ) (d : Device)
      → AllGranted gs d.pci d.areas
      → let d' = (dma_free_store gs caller buf count d).1 in AllGranted gs d'.pci d'.areas
  unfolding dma_free_store
  free-granted gs caller buf count d h = elim (Bool-cases (check_authority gs caller d.pci)) [
    | inl e ↦ rw (e, dma_free_store) (free_areas-granted gs d.pci caller.pid buf d.areas h)
    | inr e ↦ rw (e, dma_free_store) h
  ]

  map-granted :
      (linux : Linux) (gs : List Grant) (caller : Caller) (order node direction page count : ℕ)
      (d : Device)
      → Memᴰ caller callers
      → check_authority gs caller d.pci ≡ true
      → AllGranted gs d.pci d.areas
      → let d' = (map_area linux caller order node direction page count d).1 in
        AllGranted gs d'.pci d'.areas
  unfolding map_area
  map-granted linux gs caller order node direction page count d called auth h =
      elim (Bool-cases (linux.dma_map_page page (2 ^ order * page_size) direction == 0)) [
        | inl e ↦ rw (e, map_area) h
        | inr e ↦
            rw (e, map_area)
              (record { who = caller; called = called; same_pid = refl; granted = auth }, h)
      ]

  alloc_area-granted :
      (linux : Linux) (gs : List Grant) (caller : Caller) (order node direction count : ℕ)
      (d : Device)
      → Memᴰ caller callers
      → check_authority gs caller d.pci ≡ true
      → AllGranted gs d.pci d.areas
      → let d' = (alloc_area linux caller order node direction count d).1 in
        AllGranted gs d'.pci d'.areas
  unfolding alloc_area map_area zone_of
  alloc_area-granted linux gs caller order node direction count d called auth h =
      elim (Bool-cases linux.kmalloc) [
        | inr e ↦ rw (e, alloc_area) h
        | inl e ↦ rw (e, alloc_area) (paged (linux.alloc_pages (zone_of linux d.dma_mask) order))
      ]
    where
      paged :
          (r : Option ℕ)
          → let d' : Device = (page_or_error linux caller order node direction count d r).1 in
            AllGranted gs d'.pci d'.areas
      paged none = h
      paged (some page) =
          map-granted linux gs caller order node direction page count d called auth h

  pub alloc-granted :
      (linux : Linux) (gs : List Grant) (caller : Caller) (buf : AllocRequest) (count : ℕ)
      (d : Device)
      → Memᴰ caller callers
      → AllGranted gs d.pci d.areas
      → let d' = (dma_alloc_store linux gs caller buf count d).1 in AllGranted gs d'.pci d'.areas
  unfolding dma_alloc_store
  alloc-granted linux gs caller buf count d called h =
      elim (Bool-cases (check_authority gs caller d.pci)) [
        | inr e ↦ rw (e, dma_alloc_store) h
        | inl e ↦ rw (e, dma_alloc_store) (requested buf e)
      ]
    where
      requested :
          (b : AllocRequest)
          → check_authority gs caller d.pci ≡ true
          → let d' : Device = (alloc_request linux caller b count d).1 in
            AllGranted gs d'.pci d'.areas
      requested AllocRequest.invalid auth = h
      requested (AllocRequest.request num_pages node_id direction) auth =
          elim (Bool-cases (leb linux.max_order (order_of linux num_pages))) [
            | inl e ↦ rw (e, alloc_request) h
            | inr e ↦
                rw (e, alloc_request)
                  (alloc_area-granted linux gs caller (order_of linux num_pages) _ direction count d
                    called auth h)
          ]

  -- The mask and the mode of a device have no bearing on its areas.
  pub dma_mask-granted :
      (linux : Config.Linux) (gs : List Grant) (caller : Caller) (buf : Option ℕ) (count : ℕ)
      (d : Device)
      → AllGranted gs d.pci d.areas
      → let d' = (dma_mask_store linux gs caller buf count d).1 in AllGranted gs d'.pci d'.areas
  unfolding dma_mask_store dma_mask_at
  dma_mask-granted linux gs caller none count d h = ground arith
  dma_mask-granted linux gs caller (some mask) count d h = ground arith

  pub irq_mode-granted :
      (gs : List Grant) (caller : Caller) (vectors : List ℕ) (buf : Option ℕ) (count : ℕ)
      (d : Device)
      → AllGranted gs d.pci d.areas
      → let d' = (irq_mode_store gs caller vectors buf count d).1 in AllGranted gs d'.pci d'.areas
  unfolding irq_mode_store irq_mode_at
  irq_mode-granted gs caller vectors none count d h = ground arith
  irq_mode-granted gs caller vectors (some mode) count d h = ground arith

-- A caller more
AllGranted-called :
    (c : Caller) (cs : List Caller) (gs : List Grant) (pci : Pci) (l : List Area)
    → AllGranted cs gs pci l
    → AllGranted (c ∷ cs) gs pci l
AllGranted-called c cs gs pci [] h = tt
AllGranted-called c cs gs pci (a ∷ l) (h, hs) = (
  record { who = h.who; called = Memᴰ.tail h.called; same_pid = h.same_pid; granted = h.granted },
  AllGranted-called c cs gs pci l hs,
)

pub Inv-called :
    (c : Caller) (cs : List Caller) (gs : List Grant) (ds : List Device)
    → Inv cs gs ds
    → Inv (c ∷ cs) gs ds
Inv-called c cs gs [] i = tt
Inv-called c cs gs (d ∷ ds) (h, i) =
    (AllGranted-called c cs gs d.pci d.areas h, Inv-called c cs gs ds i)
