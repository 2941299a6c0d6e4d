-- ===== src/Driver/Setup/Laws.antt =====
-- Starting and stopping the driver.
use mathlib.Core.List.{append-nil, append_assoc}
use deep_space_detection.Base.{
  ==_refl, inr, inl, Bool-cases, ◌==◌, ◌∙◌, ap, not, ◌&&◌, map, ◌≡◌, refl, List, [], ◌∷◌, ◌++◌,
  Bool, true, false, if◌then◌else◌, none, some, arith,
}
use deep_space_detection.Driver.Memory.{Rc, einval}
use deep_space_detection.Driver.Registers.{Register, reg_map, reg_unmap, physical}
use deep_space_detection.Driver.Setup.{
  Resource, interrupt, device_numbers, character_device, device_class, device_node, mapping, those,
  release, release_all, found, without, same, Answers, grant, returns_zero, axitangxi_init,
  axitangxi_exit,
}

-- The first of two errors.
abbrev first_error : Rc → Rc → Rc
first_error (some e) f = some e
first_error none f = f

-- The result of `axitangxi_init` depends on the device tree's node and on the class and the
-- device alone: a refused interrupt, refused device numbers and a refused character device go
-- unnoticed.
pub axitangxi_init-result :
    (a : Answers)
    → (axitangxi_init a).0
      ≡ (if a.finds_node then first_error a.class_create a.device_create else some einval)
unfolding axitangxi_init
axitangxi_init-result a = ground (arith, a.finds_node)

-- What a call refused.
abbrev refused : Resource → Bool → List Resource
refused r granted = if granted then [] else r ∷ []

-- What is held where there is no error.
abbrev held_with : Bool → Bool → Bool → List Resource
held_with i n c =
    grant character_device c (grant device_numbers n (grant interrupt i [])) ++ device_class ∷ []

-- The rest of it without the interrupt.
abbrev others_with : Bool → Bool → List Resource
others_with n c =
    grant character_device c (grant device_numbers n []) ++ device_class ∷ device_node ∷ []

-- The registers of a list are at other addresses than one.
abbrev fresh : Register → List Register → Bool
fresh r [] = true
fresh r (s ∷ ss) = not (physical r == physical s) && fresh r ss

abbrev distinct : List Register → Bool
distinct [] = true
distinct (r ∷ rs) = fresh r rs && distinct rs

-- No resource of a list is the mapping of a register.
abbrev IsPlain : List Resource → Type 0
IsPlain [] = Unit
IsPlain (x ∷ xs) = ((r : Register) → same (mapping r) x ≡ false) × IsPlain xs

others-IsPlain : (n c : Bool) → IsPlain (others_with n c)
others-IsPlain true true = ((λ r. refl), ((λ r. refl), ((λ r. refl), ((λ r. refl), tt))))
others-IsPlain true false = ((λ r. refl), ((λ r. refl), ((λ r. refl), tt)))
others-IsPlain false true = ((λ r. refl), ((λ r. refl), ((λ r. refl), tt)))
others-IsPlain false false = ((λ r. refl), ((λ r. refl), tt))

found_after :
    (r : Register) (xs ys : List Resource)
    → IsPlain xs
    → found (mapping r) (xs ++ ys) ≡ found (mapping r) ys
found_after r [] ys h = refl
found_after r (x ∷ xs) ys (e, h) = rw (e r) (found_after r xs ys h)

without_after :
    (r : Register) (xs ys : List Resource)
    → IsPlain xs
    → without (mapping r) (xs ++ ys) ≡ xs ++ without (mapping r) ys
without_after r [] ys h = refl
without_after r (x ∷ xs) ys (e, h) = rw (e r) (ap (λ l. x ∷ l) (without_after r xs ys h))

release_held :
    (r : Register) (xs ys not_held : List Resource)
    → IsPlain xs
    → release (mapping r) (record { held = xs ++ mapping r ∷ ys; not_held = not_held })
      ≡ record { held = xs ++ ys; not_held = not_held }
release_held r xs ys not_held h =
    rw
      (
        found_after r xs (mapping r ∷ ys) h,
        without_after r xs (mapping r ∷ ys) h,
        ==_refl (physical r),
      )
      refl

release_missing :
    (r : Register) (xs ys not_held : List Resource)
    → IsPlain xs
    → found (mapping r) ys ≡ false
    → release (mapping r) (record { held = xs ++ ys; not_held = not_held })
      ≡ record { held = xs ++ ys; not_held = not_held ++ mapping r ∷ [] }
release_missing r xs ys not_held h e = rw (found_after r xs ys h, e) refl

found-interrupt : (rs : List Register) → found interrupt (map mapping rs) ≡ false
found-interrupt [] = refl
found-interrupt (r ∷ rs) = found-interrupt rs

module _ (ioremap : Register → Bool) where
  refuses : Register → Bool
  refuses r = not (ioremap r)

  found-fresh :
      (r : Register) (rs : List Register)
      → fresh r rs ≡ true
      → found (mapping r) (map mapping (those ioremap rs)) ≡ false
  found-fresh r [] h = refl
  found-fresh r (s ∷ rs) h =
      let apart : (physical r == physical s) ≡ false = ground (arith, h) in
      let rest : fresh r rs ≡ true = ground (arith, h) in
      elim (Bool-cases (ioremap s)) [
        | inl e ↦ rw (e, apart) (found-fresh r rs rest)
        | inr e ↦ rw e (found-fresh r rs rest)
      ]

  -- `reg_unmap`, where the pointers of some registers are null.
  release_registers :
      (rs : List Register) (xs others not_held : List Resource)
      → distinct rs ≡ true
      → IsPlain xs
      → release_all
          (map mapping rs ++ others)
          (record { held = xs ++ map mapping (those ioremap rs); not_held = not_held })
        ≡ release_all others
            (record { held = xs; not_held = not_held ++ map mapping (those refuses rs) })
  unfolding refuses
  release_registers [] xs others not_held h plain = rw (append-nil xs, append-nil not_held) refl
  release_registers (r ∷ rs) xs others not_held h plain =
      let new : fresh r rs ≡ true = ground (arith, h) in
      let rest : distinct rs ≡ true = ground (arith, h) in
      let left = map mapping (those ioremap rs) in
      elim (Bool-cases (ioremap r)) [
        | inl e ↦ rw e (
            ap (release_all (map mapping rs ++ others)) (release_held r xs left not_held plain)
            ∙ release_registers rs xs others not_held rest plain)
        | inr e ↦ rw e (
            ap (release_all (map mapping rs ++ others))
              (release_missing r xs left not_held plain (found-fresh r rs new))
            ∙ release_registers rs xs others (not_held ++ mapping r ∷ []) rest plain
            ∙ ap (λ l. release_all others (record { held = xs; not_held = l }))
                (append_assoc not_held (mapping r ∷ []) (map mapping (those refuses rs))))
      ]

  release-interrupt :
      (i n c : Bool) (rs : List Register)
      → release interrupt
          (record { held = held_with i n c ++ device_node ∷ map mapping rs; not_held = [] })
        ≡ record { held = others_with n c ++ map mapping rs; not_held = refused interrupt i }
  release-interrupt true true true rs = refl
  release-interrupt true true false rs = refl
  release-interrupt true false true rs = refl
  release-interrupt true false false rs = refl
  release-interrupt false true true rs = rw (found-interrupt rs) refl
  release-interrupt false true false rs = rw (found-interrupt rs) refl
  release-interrupt false false true rs = rw (found-interrupt rs) refl
  release-interrupt false false false rs = rw (found-interrupt rs) refl

  release_others :
      (n c : Bool) (not_held : List Resource)
      → release_all
          (character_device ∷ device_numbers ∷ device_node ∷ device_class ∷ [])
          (record { held = others_with n c; not_held = not_held })
        ≡ record {
          held = [];
          not_held = not_held ++ refused character_device c ++ refused device_numbers n;
        }
  release_others true true l = rw (append-nil l, append-nil l) refl
  release_others true false l = rw (append-nil (l ++ character_device ∷ [])) refl
  release_others false true l = rw (append-nil l) refl
  release_others false false l = refl

  all_distinct : distinct reg_unmap ≡ true
  unfolding reg_unmap physical
  all_distinct = refl

  unmaps_all : reg_map ≡ reg_unmap
  unfolding reg_map reg_unmap
  unmaps_all = refl

  exit_held :
      (i n c : Bool)
      → axitangxi_exit (held_with i n c ++ device_node ∷ map mapping (those ioremap reg_map))
        ≡ record {
          held = [];
          not_held =
              refused interrupt i
              ++ map mapping (those refuses reg_unmap)
              ++ refused character_device c
              ++ refused device_numbers n;
        }
  unfolding axitangxi_exit
  exit_held i n c =
      let others = character_device ∷ device_numbers ∷ device_node ∷ device_class ∷ [] in
      rw unmaps_all (
        ap (release_all (map mapping reg_unmap ++ others))
          (release-interrupt i n c (those ioremap reg_unmap))
        ∙ release_registers reg_unmap (others_with n c) others (refused interrupt i) all_distinct
            (others-IsPlain n c)
        ∙ release_others n c (refused interrupt i ++ map mapping (those refuses reg_unmap)))

-- If `axitangxi_init` returned 0, then whatever the kernel had refused, `axitangxi_exit` leaves
-- nothing held; what it gives back without holding it are, in this order, the interrupt, the
-- mappings of registers, the character device and the device numbers, each exactly if it had
-- been refused.
pub axitangxi_exit-axitangxi_init :
    (a : Answers)
    → (axitangxi_init a).0 ≡ none
    → axitangxi_exit ((axitangxi_init a).1) ≡ record {
      held = [];
      not_held =
          refused interrupt (returns_zero a.request_irq)
          ++ map mapping (those (λ r. not (a.ioremap r)) reg_unmap)
          ++ refused character_device (returns_zero a.cdev_add)
          ++ refused device_numbers (returns_zero a.alloc_chrdev_region);
    }
unfolding axitangxi_init refuses
axitangxi_exit-axitangxi_init a h =
    let i = returns_zero a.request_irq in
    let n = returns_zero a.alloc_chrdev_region in
    let c = returns_zero a.cdev_add in
    let same : (axitangxi_init a).1
        ≡ held_with i n c ++ device_node ∷ map mapping (those a.ioremap reg_map) =
      ground (arith, a.finds_node, h) in
    rw same (exit_held a.ioremap i n c)
