-- ===== src/Parasite/Own.antt =====
-- What the handlers of DMA areas do to the areas of the caller and to those of other processes.
use xdk.Prelude.{ℕ, ◌≡◌, refl, ap, List, [], ◌∷◌, if◌then◌else◌, ◌==◌, Bool-cases, inl, inr}
use xdk.Parasite.{Errno, done, error, Area, Grant, Device, Caller, check_authority}
use xdk.Parasite.Dma.{
  FreeRequest, address, all, neither, free_all_areas, free_area, free_areas, dma_free_store,
}

-- The areas of a process, and those of the others
abbrev pub own : ℕ → List Area → List Area
own pid [] = []
own pid (a ∷ l) = if a.owner_pid == pid then a ∷ own pid l else own pid l

abbrev pub others : ℕ → List Area → List Area
others pid [] = []
others pid (a ∷ l) = if a.owner_pid == pid then others pid l else a ∷ others pid l

-- What a request frees of the caller's areas
abbrev pub without : ℕ → List Area → List Area
without addr [] = []
without addr (a ∷ l) = if a.phys_addr == addr then l else a ∷ without addr l

abbrev pub freed : FreeRequest → List Area → List Area
freed (address addr) l = without addr l
freed all l = []
freed neither l = without 0 l

free_all-parts :
    (pid : ℕ) (l : List Area)
    → (others pid (free_all_areas pid l) ≡ others pid l) × (own pid (free_all_areas pid l) ≡ [])
unfolding free_all_areas
free_all-parts pid [] = (refl, refl)
free_all-parts pid (a ∷ l) =
    let (o, w) = free_all-parts pid l in
    elim (Bool-cases (a.owner_pid == pid)) [
      | inl e ↦ rw (e, free_all_areas) (o, w)
      | inr e ↦ rw (e, free_all_areas) (rw e (ap (λ t. a ∷ t) o, w))
    ]

free-parts :
    (pid addr : ℕ) (l : List Area)
    → (others pid (free_area pid addr l) ≡ others pid l)
      × (own pid (free_area pid addr l) ≡ without addr (own pid l))
unfolding free_area
free-parts pid addr [] = (refl, refl)
free-parts pid addr (a ∷ l) =
    let (o, w) = free-parts pid addr l in
    elim (Bool-cases (a.owner_pid == pid)) [
      | inr e ↦ rw (e, free_area) (rw e (ap (λ t. a ∷ t) o, w))
      | inl e ↦ elim (Bool-cases (a.phys_addr == addr)) [
        | inl f ↦ rw (e, free_area) (rw (f, free_area) (refl, refl))
        | inr f ↦ rw (e, free_area) (rw (f, free_area) (rw e (o, ap (λ t. a ∷ t) w)))
      ]
    ]

-- `dma_free_store` without authority changes nothing. With it, the areas of other processes stay as
-- they are, and of the caller's areas all go, or the first one at the address that is asked for, if
-- there is one; a request that cannot be read counts as one for address 0.
pub dma_free_store_lem :
    (grants : List Grant) (caller : Caller) (buf : FreeRequest) (count : ℕ) (d : Device)
    → let (out, d') = dma_free_store grants caller buf count d in
      if check_authority grants caller d.pci
      then (out ≡ done count)
        × (others caller.pid d'.areas ≡ others caller.pid d.areas)
        × (own caller.pid d'.areas ≡ freed buf (own caller.pid d.areas))
      else (out ≡ error Errno.perm) × (d' ≡ d)
unfolding dma_free_store free_areas
dma_free_store_lem grants caller buf count d =
    elim (Bool-cases (check_authority grants caller d.pci)) [
      | inl e ↦ let (o, w) = freed-parts buf in rw (e, dma_free_store) (refl, o, w)
      | inr e ↦ rw (e, dma_free_store) (refl, refl)
    ]
  where
    freed-parts :
        (b : FreeRequest)
        → (others caller.pid (free_areas caller.pid b d.areas) ≡ others caller.pid d.areas)
          × (own caller.pid (free_areas caller.pid b d.areas) ≡ freed b (own caller.pid d.areas))
    freed-parts (address addr) = free-parts caller.pid addr d.areas
    freed-parts all = free_all-parts caller.pid d.areas
    freed-parts neither = free-parts caller.pid 0 d.areas
