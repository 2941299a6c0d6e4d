-- ===== src/Driver/Memory.antt =====
-- The buffers that user space maps: `axitangxi_mmap`, `axitangxi_vma_close` and
-- `axitangxi_uservirt_to_phys` of axitangxi_dev.c. What the kernel's allocator and
-- `remap_pfn_range` return are arguments.
pub mod Laws
use deep_space_detection.Base.{
  ◌||◌, ◌&&◌, leb, ℕ, ◌+◌, ◌-◌, ◌^◌, List, [], ◌∷◌, Option, some, none, Bool, true, false, ◌==◌,
  if◌then◌else◌, u32, u64, ◌<<<◌, ◌>>>◌, Run, ok, fault, ◌>>=◌,
}

-- The error codes of <errno.h> that the driver returns; `other` is one that the kernel chose.
pub data Errno : Type 0 where
  einval enomem efault enotty etime : Errno
  other : ℕ → Errno

-- An `int` or `long` result: `none` is 0, `some e` is `-e`.
abbrev pub Rc : Type 0
Rc = Option Errno

-- `struct axitangxi_allocation`, less its links.
pub record Allocation : Type 0 where
  pub size : ℕ
  pub user_addr : ℕ
  pub kern_addr : ℕ
  pub phys_addr : ℕ

-- The kernel's memory: the allocations that `kmalloc` made and that are not freed, by address
-- (`none`: no object there), which data buffers are allocated, and the nodes of `addr_list`; and at
-- which of the user's addresses the kernel can read a word of four bytes.
pub record Memory : Type 0 where
  pub objects : ℕ → Option Allocation
  pub buffers : ℕ → Bool
  pub addr_list : List ℕ
  pub reads : ℕ → Bool

-- The fields of `struct vm_area_struct` that are read.
pub record Vma : Type 0 where
  pub vm_start : ℕ
  pub vm_end : ℕ
  pub vm_pgoff : ℕ

abbrev pub page_shift : ℕ
page_shift = 12

abbrev pub update {ℓ} : {A : Type ℓ} → (ℕ → A) → ℕ → A → ℕ → A
update f p v q = if p == q then v else f q

-- `kfree` of a data buffer.
abbrev pub free_buffer : ℕ → Memory → Memory
free_buffer p m = record m { buffers = update m.buffers p false }

-- The uninitialised object that `kmalloc` gives, until its fields are set.
abbrev pub unset : Allocation
unset = record { size = 0; user_addr = 0; kern_addr = 0; phys_addr = 0 }

-- The object behind a successful mapping.
pub mapped : Vma → ℕ → ℕ → Allocation
mapped vma kbuff phys =
    let pfn_start = u64 ((phys >>> page_shift) + vma.vm_pgoff) in
    record {
      size = u64 (vma.vm_end + 2 ^ 64 - vma.vm_start);
      user_addr = vma.vm_start;
      kern_addr = kbuff;
      phys_addr = u32 (u32 pfn_start <<< page_shift);
    }

-- `remap_pfn_range` makes the words of the area readable.
abbrev pub with_area : Vma → (ℕ → Bool) → ℕ → Bool
with_area vma reads a = (leb vma.vm_start a && leb (a + 4) vma.vm_end) || reads a

-- From `kzalloc` on. Both ways out run through the label `free_data`, the successful one too.
map_buffer : Vma → ℕ → Option ℕ → (ℕ → ℕ) → Rc → Memory → Rc × Memory
map_buffer vma object none virt_to_phys remapped m = (some enomem, m)
map_buffer vma object (some kbuff) virt_to_phys (some e) m =
    (some e, free_buffer kbuff (record m { buffers = update m.buffers kbuff true }))
map_buffer vma object (some kbuff) virt_to_phys none m = (
  none,
  free_buffer kbuff (record m {
    buffers = update m.buffers kbuff true;
    objects = update m.objects object (some (mapped vma kbuff (virt_to_phys kbuff)));
    addr_list = object ∷ m.addr_list;
    reads = with_area vma m.reads;
  }),
)

-- `axitangxi_mmap`: `object` and `kbuff` are the results of `kmalloc` and `kzalloc`, and
-- `remapped` that of `remap_pfn_range`. On success the object is the private data of the area.
unfoldable pub axitangxi_mmap : Vma → Option ℕ → Option ℕ → (ℕ → ℕ) → Rc → Memory → Rc × Memory
unfolding map_buffer mapped
axitangxi_mmap vma none kbuff virt_to_phys remapped m = (some enomem, m)
axitangxi_mmap vma (some object) kbuff virt_to_phys remapped m =
    map_buffer vma object kbuff virt_to_phys remapped
      (record m { objects = update m.objects object (some unset) })

-- `axitangxi_vma_close`: the object is freed, and stays in the list.
unfoldable pub axitangxi_vma_close : ℕ → Memory → Memory
axitangxi_vma_close object m = record m { objects = update m.objects object none }

-- One node of the walk of `axitangxi_uservirt_to_phys`, before the rest: a freed one faults.
abbrev pub visit : Option Allocation → ℕ → Run ℕ → Run ℕ
visit none user_addr rest = fault
visit (some a) user_addr rest = if a.user_addr == user_addr then ok a.phys_addr else rest

-- The walk; 0 stands for "not found".
unfoldable pub find_phys : (ℕ → Option Allocation) → List ℕ → ℕ → Run ℕ
find_phys objects [] user_addr = ok 0
find_phys objects (p ∷ ps) user_addr = visit (objects p) user_addr (find_phys objects ps user_addr)

unfoldable pub axitangxi_uservirt_to_phys : Memory → ℕ → Run ℕ
unfolding find_phys
axitangxi_uservirt_to_phys m user_addr = find_phys m.objects m.addr_list user_addr
