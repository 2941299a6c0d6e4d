-- ===== src/Driver/Irq.antt =====
-- `irq_handler` of axitangxi_dev.c.
pub mod Laws
use deep_space_detection.Base.{ℕ, ◌==◌, ◌&&◌, if◌then◌else◌, List, [], ◌∷◌, Run, ok, fault, ◌>>=◌}
use deep_space_detection.Driver.Registers.{pl_irq_task_num}
use deep_space_detection.Driver.Device.{
  Completion, Pointer, null, to, dangling, uninitialised, Device, writel,
}

abbrev pub mm2s_ps_done : ℕ
mm2s_ps_done = 256

abbrev pub s2mm_ps_done : ℕ
s2mm_ps_done = 257

abbrev pub s2mm_pl_done : ℕ
s2mm_pl_done = 259

module _ (K : Completion) where
  -- `complete(axitangxi_irq_data.comp)`
  unfoldable pub complete_at : Device K.State → Pointer K.State → Run (Device K.State)
  complete_at d null = fault
  complete_at d (to c) = ok (record d { comp = to (K.complete c) })
  complete_at d dangling = fault
  complete_at d uninitialised = fault

  -- `irq_TX` is the value that `get_irq` reads from the card. All other cases of the switch only
  -- print. The handler ends with `clean_irq`.
  unfoldable pub irq_handler : ℕ → Device K.State → Run (Device K.State)
  irq_handler irq_TX d = do
    d ←
        (if irq_TX == s2mm_ps_done && d.last_s2mm_ps_done
          then complete_at d d.comp
          else if irq_TX == s2mm_pl_done && d.last_s2mm_pl_done
          then complete_at d d.comp
          else ok d)
    ok (writel 0 pl_irq_task_num d)

  -- Interrupts, one after the other.
  unfoldable pub interrupts : List ℕ → Device K.State → Run (Device K.State)
  interrupts [] d = ok d
  interrupts (i ∷ is) d = do d ← irq_handler i d; interrupts is d
