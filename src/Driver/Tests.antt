-- ===== src/Driver/Tests.antt =====
-- Runs of the driver, with a completion that counts.
use deep_space_detection.Base.{
  ℕ, suc, zero, ◌+◌, ◌-◌, ◌*◌, ◌/◌, ◌≡◌, ◌<◌, ◌≤◌, ◌++◌, ◌%◌, ◌^◌, refl, arith, List, [], ◌∷◌,
  Option, some, none, true, false, ok, fault, if◌then◌else◌, ◌==◌, length, get_elem?, u32,
}
use deep_space_detection.Driver.Registers.{pl_irq_task_num}
use deep_space_detection.Driver.Burst.{transfer}
use deep_space_detection.Driver.Burst.Plan.{Item, plan, burst}
use deep_space_detection.Driver.Burst.Cover.{total_units, item_at, note, transfer-note}
use deep_space_detection.Driver.Device.{Completion, Device, to, dangling, initial, writel}
use deep_space_detection.Driver.Irq.{irq_handler, interrupts}
use deep_space_detection.Driver.Irq.Laws.{ends, after, clears, irq_handler_lem, interrupts_lem}
use deep_space_detection.Driver.Memory.{
  other, Memory, Vma, mapped, unset, axitangxi_mmap, axitangxi_vma_close,
  axitangxi_uservirt_to_phys,
}
use deep_space_detection.Driver.Memory.Laws.{
  Absent, Live, mapped-user_addr, axitangxi_mmap-uservirt_to_phys, axitangxi_mmap_fails,
  axitangxi_vma_close-uservirt_to_phys,
}
use deep_space_detection.Driver.Loopback.{
  Transaction, reads_words, later, axitangxi_psddr_plddr_loopback,
}
use deep_space_detection.Driver.Loopback.Laws.{
  axitangxi_psddr_plddr_loopback_faults, loopback_log, axitangxi_psddr_plddr_loopback_lem,
}
use deep_space_detection.Driver.Ioctl.{IoctlNumbers}

transfer-note_example :
    (bursts : List Item) × (transfer note 4 [] (burst 2 100 70) ≡ some bursts)
    × ((70 ≤ length bursts * 32) × (length bursts * 32 < 70 + 32))
    × (total_units bursts ≡ (70 + 15) / 16)
    × ((i : ℕ)
        → i * 32 < 70
        → get_elem? bursts i ≡ some (item_at 2 (u32 (100 + i * 32)) (70 - i * 32)))
transfer-note_example =
    transfer-note 4 2 100 70 (omega arith) (omega arith) (omega arith) (omega arith)

-- Completions are counted, and a wait takes one.
abbrev pub counted : ℕ → Option ℕ
counted zero = none
counted (suc n) = some n

abbrev pub counter : Completion
counter = record {
  State = ℕ;
  init = 0;
  complete = suc;
  wait = counted;
  wait-init = refl;
  wait-complete = λ s. (s, refl);
}

-- The flags after a first transfer to the card.
abbrev pub busy : Device ℕ
busy = record initial { last_s2mm_pl_done = true; comp = to 0 }

irq_handler_lem_example :
    irq_handler counter 259 busy
    ≡ ok (
        writel 0 pl_irq_task_num
          (if ends false true 259 then record busy { comp = to 1 } else busy))
irq_handler_lem_example = irq_handler_lem counter 259 busy 0 refl

interrupts_lem_example :
    interrupts counter (256 ∷ 259 ∷ []) busy
    ≡ ok (record busy {
      comp = to (after counter false true 0 (256 ∷ 259 ∷ []));
      written = [] ++ clears (256 ∷ 259 ∷ []);
    })
interrupts_lem_example = interrupts_lem counter (256 ∷ 259 ∷ []) busy 0 refl

abbrev pub nothing : Memory
nothing = record { objects = λ p. none; buffers = λ p. false; addr_list = []; reads = λ a. false }

abbrev pub area : Vma
area = record { vm_start = 0x7000; vm_end = 0x9000; vm_pgoff = 0 }

-- The memory with that area mapped.
abbrev pub one_area : Memory
one_area = (axitangxi_mmap area (some 1) (some 5000) (λ p. p + 0x10_0000) none nothing).1

axitangxi_mmap-uservirt_to_phys_example :
    let r = axitangxi_mmap area (some 1) (some 0x5000) (λ p. p + 0x10_0000) none nothing in
    (r.0 ≡ none)
    × ((u : ℕ)
        → axitangxi_uservirt_to_phys r.1 u ≡ (
            if 0x7000 == u
            then ok ((0x10_5000 + 4096 * 0) % 2 ^ 32)
            else axitangxi_uservirt_to_phys nothing u))
    × (r.1.buffers 0x5000 ≡ false)
axitangxi_mmap-uservirt_to_phys_example =
    axitangxi_mmap-uservirt_to_phys area 1 0x5000 0x105 (λ p. p + 0x10_0000) nothing tt refl
      (omega arith)

one_area_lacks_2 : Absent 2 one_area.addr_list
unfolding axitangxi_mmap
one_area_lacks_2 = ground arith

fails_with_11 :
    (axitangxi_mmap area (some 2) (some 9000) (λ p. p) (some (other 11)) one_area).0
    ≡ some (other 11)
unfolding axitangxi_mmap
fails_with_11 = refl

axitangxi_mmap_fails_example :
    let m = (axitangxi_mmap area (some 2) (some 9000) (λ p. p) (some (other 11)) one_area).1 in
    (m.addr_list ≡ one_area.addr_list)
    × ((u : ℕ) → axitangxi_uservirt_to_phys m u ≡ axitangxi_uservirt_to_phys one_area u)
    × (m.objects 2 ≡ some unset)
    × ((b : ℕ) → one_area.buffers b ≡ false → m.buffers b ≡ false)
axitangxi_mmap_fails_example =
    axitangxi_mmap_fails area 2 (some 9000) (λ p. p) (some (other 11)) (other 11) one_area
      one_area_lacks_2 fails_with_11

abbrev pub other_area : Vma
other_area = record { vm_start = 0xa000; vm_end = 0xc000; vm_pgoff = 0 }

-- The memory with two areas mapped.
abbrev pub two_areas : Memory
two_areas = (axitangxi_mmap other_area (some 2) (some 9000) (λ p. p + 0x10_0000) none one_area).1

pub find_first : axitangxi_uservirt_to_phys two_areas 0x7000 ≡ ok 0x10_1000
unfolding axitangxi_mmap axitangxi_uservirt_to_phys
find_first = refl

pub find_second : axitangxi_uservirt_to_phys two_areas 0xa000 ≡ ok 0x10_2000
unfolding axitangxi_mmap axitangxi_uservirt_to_phys
find_second = refl

two_areas-Live : Live two_areas.objects two_areas.addr_list
unfolding axitangxi_mmap
two_areas-Live = ((mapped other_area 9000 1057576, refl), ((mapped area 5000 1053576, refl), tt))

newest_is : two_areas.objects 2 ≡ some (mapped other_area 9000 1057576)
unfolding axitangxi_mmap
newest_is = refl

newest_first : two_areas.addr_list ≡ 2 ∷ 1 ∷ []
unfolding axitangxi_mmap
newest_first = refl

-- The older of the two areas is closed, and the newer one is still found; but no third one is.
axitangxi_vma_close-uservirt_to_phys_example :
    axitangxi_uservirt_to_phys (axitangxi_vma_close 1 two_areas) 0x5000 ≡ fault
axitangxi_vma_close-uservirt_to_phys_example =
    axitangxi_vma_close-uservirt_to_phys two_areas 1 (2 ∷ []) [] 0x5000 newest_first (
      (
        mapped other_area 9000 1057576,
        newest_is,
        (λ e. omega (arith, mapped-user_addr other_area 9000 1057576, e)),
      ),
      tt,
    )

-- 70 bytes in bursts of two units.
abbrev pub transaction : Transaction
transaction = record {
  tx_data_size = 70;
  rx_data_size = 70;
  burst_size = 2;
  burst_count = 3;
  burst_data = 32;
  tx_data_ps_ptr = 0x7000;
  rx_data_ps_ptr = 0xa000;
  node = 0;
}

-- The last burst of each direction is reported while its wait lasts.
abbrev pub reported : List (List ℕ)
reported = [] ∷ [] ∷ [] ∷ [] ∷ (259 ∷ []) ∷ [] ∷ [] ∷ [] ∷ (257 ∷ []) ∷ []

-- The ten words are in the first area.
pub words_read : reads_words two_areas.reads 10 0x7000 ≡ true
unfolding axitangxi_mmap
words_read = refl

axitangxi_psddr_plddr_loopback_lem_example :
    (e : Device ℕ) × (axitangxi_psddr_plddr_loopback counter 3 two_areas transaction initial
        reported
      ≡ some (ok (none, e)))
    × (e.comp ≡ dangling)
    × (e.written
        ≡ []
          ++ clears []
          ++ loopback_log counter 3 transaction 0x10_1000 0x10_2000 initial (later reported))
unfolding plan
axitangxi_psddr_plddr_loopback_lem_example =
    axitangxi_psddr_plddr_loopback_lem counter 3 transaction (omega arith) refl (omega arith)
      (omega arith) two_areas 0x10_1000 0x10_2000 initial reported find_second find_first words_read
      refl

-- After a transfer to the card an interrupt reports its end again.
axitangxi_psddr_plddr_loopback_faults_example :
    axitangxi_psddr_plddr_loopback counter 3 two_areas transaction busy ((259 ∷ []) ∷ [])
    ≡ some fault
axitangxi_psddr_plddr_loopback_faults_example =
    axitangxi_psddr_plddr_loopback_faults counter 3 two_areas transaction 0x10_1000 0x10_2000 busy
      ((259 ∷ []) ∷ []) find_second find_first (rw words_read refl)

-- The layout of <asm-generic/ioctl.h>.
abbrev pub numbers : IoctlNumbers
numbers = record {
  ioc_type = λ c. c / 256 % 256;
  ioc_nr = λ c. c % 256;
  ior = λ magic nr size. 2 ^ 31 + size * 2 ^ 16 + magic * 256 + nr;
  ioc_type-ior = λ magic nr size h k l. omega arith;
  ioc_nr-ior = λ magic nr size h k l. omega arith;
}
