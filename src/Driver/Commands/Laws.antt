-- ===== src/Driver/Commands/Laws.antt =====
-- The registers that one burst of the loopback writes.
use deep_space_detection.Base.{ℕ, ◌≡◌, ap, ◌∙◌, List, [], ◌∷◌, ◌++◌}
use mathlib.Core.List.{append_assoc}
use deep_space_detection.Driver.Registers.{
  Register, dma_mm2s_ps_addr, dma_mm2s_ps_size, dma_s2mm_pl_addr, dma_s2mm_pl_size,
  dma_mm2s_pl_addr, dma_mm2s_pl_size, dma_s2mm_ps_addr, dma_s2mm_ps_size,
}
use deep_space_detection.Driver.Device.{Completion, Device}
use deep_space_detection.Driver.Commands.{minus_one, mm2s_ps_data_s2mm_pl, s2mm_ps_data_mm2s_pl}

-- The registers of one burst in each direction, in the order in which they are written.
abbrev pub psddr_plddr_registers : ℕ → ℕ → ℕ → List (Register × ℕ)
psddr_plddr_registers pl next size =
    (dma_mm2s_ps_addr, next)
    ∷ (dma_mm2s_ps_size, minus_one size)
    ∷ (dma_s2mm_pl_addr, pl)
    ∷ (dma_s2mm_pl_size, minus_one size)
    ∷ []

abbrev pub plddr_psddr_registers : ℕ → ℕ → ℕ → List (Register × ℕ)
plddr_psddr_registers pl next size =
    (dma_mm2s_pl_addr, pl)
    ∷ (dma_mm2s_pl_size, minus_one size)
    ∷ (dma_s2mm_ps_addr, next)
    ∷ (dma_s2mm_ps_size, minus_one size)
    ∷ []

four :
    {A : Type 0} (l : List A) (a b c e : A)
    → l ++ (a ∷ []) ++ (b ∷ []) ++ (c ∷ []) ++ (e ∷ []) ≡ l ++ (a ∷ b ∷ c ∷ e ∷ [])
four l a b c e =
    append_assoc (l ++ (a ∷ []) ++ (b ∷ [])) (c ∷ []) (e ∷ [])
    ∙ append_assoc (l ++ (a ∷ [])) (b ∷ []) (c ∷ e ∷ [])
    ∙ append_assoc l (a ∷ []) (b ∷ c ∷ e ∷ [])

module _ (K : Completion) where
  pub to_card :
      (pl n size : ℕ) (d : Device K.State)
      → mm2s_ps_data_s2mm_pl n pl size d
        ≡ record d { written = d.written ++ psddr_plddr_registers pl n size }
  unfolding mm2s_ps_data_s2mm_pl
  to_card pl n size d =
      ap (λ l. record d { written = l })
        (four d.written (dma_mm2s_ps_addr, n) (dma_mm2s_ps_size, minus_one size)
          (dma_s2mm_pl_addr, pl) (dma_s2mm_pl_size, minus_one size))

  pub from_card :
      (pl n size : ℕ) (d : Device K.State)
      → s2mm_ps_data_mm2s_pl n pl size d
        ≡ record d { written = d.written ++ plddr_psddr_registers pl n size }
  unfolding s2mm_ps_data_mm2s_pl
  from_card pl n size d =
      ap (λ l. record d { written = l })
        (four d.written (dma_mm2s_pl_addr, pl) (dma_mm2s_pl_size, minus_one size)
          (dma_s2mm_ps_addr, n) (dma_s2mm_ps_size, minus_one size))
