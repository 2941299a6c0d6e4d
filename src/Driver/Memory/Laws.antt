-- ===== src/Driver/Memory/Laws.antt =====
-- The list of mapped areas of axitangxi_dev.c after a mapping, a failing one, and a closing.
use mathlib.Core.Path.{ap₂}
use deep_space_detection.Base.{
  ==_refl, ◌+◌, ◌*◌, ◌%◌, ◌^◌, ◌<◌, ◌>>>◌, u64, ap, ℕ, ◌≡◌, ◌≢◌, refl, ◌∙◌, arith, List, [], ◌∷◌,
  ◌++◌, Option, some, none, true, false, ◌==◌, if◌then◌else◌, ok, fault, Bool-cases, inl, inr,
}
use deep_space_detection.Driver.Memory.{
  Allocation, Memory, Vma, Rc, Errno, update, mapped, axitangxi_mmap, axitangxi_vma_close,
  find_phys, axitangxi_uservirt_to_phys, visit, unset,
}

-- Every node of a list is allocated.
abbrev pub Live : (ℕ → Option Allocation) → List ℕ → Type 0
Live objects [] = Unit
Live objects (p ∷ ps) = ((a : Allocation) × (objects p ≡ some a)) × Live objects ps

abbrev pub Absent : ℕ → List ℕ → Type 0
Absent p [] = Unit
Absent p (q ∷ qs) = (p ≢ q) × Absent p qs

-- An update elsewhere changes nothing.
find_phys-update :
    (objects : ℕ → Option Allocation) (p : ℕ) (v : Option Allocation) (ps : List ℕ) (u : ℕ)
    → Absent p ps
    → find_phys (update objects p v) ps u ≡ find_phys objects ps u
unfolding find_phys
find_phys-update objects p v [] u h = refl
find_phys-update objects p v (q ∷ qs) u h =
    ap₂ (λ o r. visit o u r) other (find_phys-update objects p v qs u h.1)
  where
    other : update objects p v q ≡ objects q
    other = ground arith

pub update_self : {A : Type 0} (f : ℕ → A) (p : ℕ) (v : A) → update f p v p ≡ v
update_self f p v = rw (==_refl p)

mapped-phys_addr :
    (vma : Vma) (kbuff page phys : ℕ)
    → phys ≡ 4096 * page
    → page + vma.vm_pgoff < 2 ^ 64
    → (mapped vma kbuff phys).phys_addr ≡ (phys + 4096 * vma.vm_pgoff) % 2 ^ 32
unfolding mapped
mapped-phys_addr vma kbuff page phys aligned small =
    let whole : phys >>> 12 ≡ page = omega arith in
    let fits : u64 ((phys >>> 12) + vma.vm_pgoff) ≡ page + vma.vm_pgoff = omega arith in
    rw (fits, aligned) (omega arith)

-- After a successful `axitangxi_mmap`, for an object that is new to the list and a buffer of
-- whole pages, the address of the area is found, and leads to the physical address of the buffer
-- plus the area's offset in bytes, modulo 2 ^ 32 and so truncated from 4 GiB on, whatever other
-- areas there were; all other addresses are found as before. The data buffer itself, though
-- mapped and listed, is no longer allocated. The number of the first page is below 2 ^ 64.
pub axitangxi_mmap-uservirt_to_phys :
    (vma : Vma) (object kbuff page : ℕ) (virt_to_phys : ℕ → ℕ) (m : Memory)
    → Absent object m.addr_list
    → virt_to_phys kbuff ≡ 4096 * page
    → page + vma.vm_pgoff < 2 ^ 64
    → let r = axitangxi_mmap vma (some object) (some kbuff) virt_to_phys none m in
      (r.0 ≡ none)
      × ((u : ℕ)
          → axitangxi_uservirt_to_phys r.1 u ≡ (
              if vma.vm_start == u
              then ok ((virt_to_phys kbuff + 4096 * vma.vm_pgoff) % 2 ^ 32)
              else axitangxi_uservirt_to_phys m u))
      × (r.1.buffers kbuff ≡ false)
unfolding axitangxi_mmap axitangxi_uservirt_to_phys find_phys
axitangxi_mmap-uservirt_to_phys vma object kbuff page virt_to_phys m new aligned small = (
  refl,
  λ u.
      let a = some (mapped vma kbuff (virt_to_phys kbuff)) in
      let before = update m.objects object (some unset) in
      ap₂ (λ o r. visit o u r) (update_self before object a)
        (find_phys-update before object a m.addr_list u new
          ∙ find_phys-update m.objects object (some unset) m.addr_list u new)
      ∙ ap (λ p. if vma.vm_start == u then ok p else axitangxi_uservirt_to_phys m u)
          (mapped-phys_addr vma kbuff page (virt_to_phys kbuff) aligned small),
  update_self (update m.buffers kbuff true) kbuff false,
)

-- A failing `axitangxi_mmap`, for an object that is new to the list, leaves the list and what it
-- leads to as they were, and keeps no data buffer; but it does keep the object that `kmalloc`
-- had made, to which nothing leads.
pub axitangxi_mmap_fails :
    (vma : Vma) (object : ℕ) (kbuff : Option ℕ) (virt_to_phys : ℕ → ℕ) (remapped : Rc) (e : Errno)
    (m : Memory)
    → Absent object m.addr_list
    → (axitangxi_mmap vma (some object) kbuff virt_to_phys remapped m).0 ≡ some e
    → let m' = (axitangxi_mmap vma (some object) kbuff virt_to_phys remapped m).1 in
      (m'.addr_list ≡ m.addr_list)
      × ((u : ℕ) → axitangxi_uservirt_to_phys m' u ≡ axitangxi_uservirt_to_phys m u)
      × (m'.objects object ≡ some unset)
      × ((b : ℕ) → m.buffers b ≡ false → m'.buffers b ≡ false)
unfolding axitangxi_mmap axitangxi_uservirt_to_phys
axitangxi_mmap_fails vma object none virt_to_phys remapped e m new h = (
  refl,
  λ u. find_phys-update m.objects object _ m.addr_list u new,
  update_self m.objects object (some unset),
  λ b free. free,
)
axitangxi_mmap_fails vma object (some kbuff) virt_to_phys none e m new h = cc
axitangxi_mmap_fails vma object (some kbuff) virt_to_phys (some e') e m new h = (
  refl,
  λ u. find_phys-update m.objects object _ m.addr_list u new,
  update_self m.objects object (some unset),
  λ b free. ground arith,
)

-- While every node of the list is allocated, the search for an address does not fault.
pub Live-uservirt_to_phys :
    (m : Memory) (u : ℕ)
    → Live m.objects m.addr_list
    → (a : ℕ) × (axitangxi_uservirt_to_phys m u ≡ ok a)
unfolding axitangxi_uservirt_to_phys find_phys
Live-uservirt_to_phys m u h = walk m.addr_list h
  where
    walk : (ps : List ℕ) → Live m.objects ps → (a : ℕ) × (find_phys m.objects ps u ≡ ok a)
    walk [] l = (0, refl)
    walk (p ∷ ps) ((a, e), l) =
        let (x, f) = walk ps l in
        rw (e, f)
          (elim (Bool-cases (a.user_addr == u)) [
            | inl eq ↦ (a.phys_addr, rw eq)
            | inr ne ↦ (x, rw ne)
          ])

pub mapped-user_addr :
    (vma : Vma) (kbuff phys : ℕ) → (mapped vma kbuff phys).user_addr ≡ vma.vm_start
unfolding mapped
mapped-user_addr vma kbuff phys = refl

-- The areas of a list are others than the one of an address.
abbrev pub Passes : (ℕ → Option Allocation) → ℕ → List ℕ → Type 0
Passes objects u [] = Unit
Passes objects u (p ∷ ps) =
    ((a : Allocation) × (objects p ≡ some a) × (a.user_addr ≢ u)) × Passes objects u ps

find_phys-freed :
    (objects : ℕ → Option Allocation) (object u : ℕ) (front rest : List ℕ)
    → Passes objects u front
    → find_phys (update objects object none) (front ++ object ∷ rest) u ≡ fault
unfolding find_phys
find_phys-freed objects object u [] rest h = rw (==_refl object) refl
find_phys-freed objects object u (p ∷ front) rest ((a, e, other), h) =
    elim (Bool-cases (object == p)) [
      | inl same ↦ rw same refl
      | inr apart ↦
          let passed : (a.user_addr == u) ≡ false = ground arith in
          rw (apart, e, passed) (find_phys-freed objects object u front rest h)
    ]

-- Closing an area leaves its freed object in the list: every later search for an address that is
-- not that of an area in front of it, the newer ones, faults.
pub axitangxi_vma_close-uservirt_to_phys :
    (m : Memory) (object : ℕ) (front rest : List ℕ) (u : ℕ)
    → m.addr_list ≡ front ++ object ∷ rest
    → Passes m.objects u front
    → axitangxi_uservirt_to_phys (axitangxi_vma_close object m) u ≡ fault
unfolding axitangxi_vma_close axitangxi_uservirt_to_phys
axitangxi_vma_close-uservirt_to_phys m object front rest u e passes =
    rw e (find_phys-freed m.objects object u front rest passes)
