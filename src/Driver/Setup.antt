-- ===== src/Driver/Setup.antt =====
-- `axitangxi_init` and `axitangxi_exit` of axitangxi_dev.c. What the kernel answers is an argument.
pub mod Laws
mod Tests
use deep_space_detection.Base.{
  ℕ, ◌^◌, List, [], ◌∷◌, ◌++◌, Bool, true, false, not, ◌==◌, ltb, if◌then◌else◌, none, some, u32,
  map,
}
use deep_space_detection.Base.Signed.{ℤ, pos, negsuc, pattern64}
use deep_space_detection.Driver.Memory.{Errno, Rc, einval, efault}
use deep_space_detection.Driver.Registers.{Register, physical, reg_map, reg_unmap}

-- What the module holds of the kernel.
pub data Resource : Type 0 where
  interrupt device_numbers character_device device_class device_node : Resource
  mapping : Register → Resource

-- The results of the calls, in the order of the calls; of `ioremap`, whether it maps a register. Of `class_create` and `device_create` it is
-- the error of the pointer, `none` for a pointer that is none. The result of
-- `of_property_read_u32_array` is only printed.
pub record Answers : Type 0 where
  pub finds_node : Bool
  pub request_irq : ℤ
  pub alloc_chrdev_region : ℤ
  pub cdev_add : ℤ
  pub class_create : Rc
  pub device_create : Rc
  pub ioremap : Register → Bool

abbrev pub returns_zero : ℤ → Bool
returns_zero (pos n) = n == 0
returns_zero (negsuc n) = false

-- A call that returns 0 grants its resource.
abbrev pub grant : Resource → Bool → List Resource → List Resource
grant r granted held = if granted then held ++ r ∷ [] else held

-- The registers that an answer tells of.
abbrev pub those : (Register → Bool) → List Register → List Register
those answer [] = []
those answer (r ∷ rs) = let rest = those answer rs in if answer r then r ∷ rest else rest

-- `reg_map` tests none of the pointers that `ioremap` returns.
abbrev make_device : (Register → Bool) → Rc → List Resource → Rc × List Resource
make_device ioremap (some e) held = (some e, held)
make_device ioremap none held = (none, held ++ device_node ∷ map mapping (those ioremap reg_map))

abbrev make_class : (Register → Bool) → Rc → Rc → List Resource → Rc × List Resource
make_class ioremap (some e) device held = (some e, held)
make_class ioremap none device held = make_device ioremap device (held ++ device_class ∷ [])

-- The result, and the resources that are held after it. `ret` is a `u32`.
unfoldable pub axitangxi_init : Answers → Rc × List Resource
axitangxi_init a =
    if not a.finds_node
    then (some einval, [])
    else (let ret = u32 (pattern64 a.request_irq) in
        let held = grant interrupt (returns_zero a.request_irq) [] in
        if ltb ret 0
        then (some efault, held)
        else (let held = grant device_numbers (returns_zero a.alloc_chrdev_region) held in
            let held = grant character_device (returns_zero a.cdev_add) held in
            make_class a.ioremap a.class_create a.device_create held))

-- What is held, and what was given back without being held.
pub record Released : Type 0 where
  pub held : List Resource
  pub not_held : List Resource

-- The registers are told apart by their addresses.
abbrev pub same : Resource → Resource → Bool
same interrupt interrupt = true
same device_numbers device_numbers = true
same character_device character_device = true
same device_class device_class = true
same device_node device_node = true
same (mapping r) (mapping s) = physical r == physical s
same _ _ = false

abbrev pub found : Resource → List Resource → Bool
found r [] = false
found r (s ∷ ss) = if same r s then true else found r ss

abbrev pub without : Resource → List Resource → List Resource
without r [] = []
without r (s ∷ ss) = let rest = without r ss in if same r s then ss else s ∷ rest

abbrev pub release : Resource → Released → Released
release r s =
    if found r s.held
    then record s { held = without r s.held }
    else record s { not_held = s.not_held ++ r ∷ [] }

abbrev pub release_all : List Resource → Released → Released
release_all [] s = s
release_all (r ∷ rs) s = release_all rs (release r s)

unfoldable pub axitangxi_exit : List Resource → Released
axitangxi_exit held =
    release_all
      ((interrupt ∷ map mapping reg_unmap)
        ++ character_device ∷ device_numbers ∷ device_node ∷ device_class ∷ [])
      (record { held = held; not_held = [] })
