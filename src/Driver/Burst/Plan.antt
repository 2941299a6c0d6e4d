-- ===== src/Driver/Burst/Plan.antt =====
-- The bursts that the loop sets up, against a description by division with remainder.
use deep_space_detection.Base.{
  ℕ, zero, suc, ◌+◌, ◌-◌, ◌*◌, ◌/◌, ◌^◌, ◌≤◌, ◌<◌, ◌≡◌, ◌≢◌, refl, ◌∙◌, arith, List, [], ◌∷◌, some,
  false, leb, ◌==◌, if◌then◌else◌, u32, Bool-cases, inl, inr,
}
use deep_space_detection.Base.Bits.{bit_and_mask}
use deep_space_detection.Driver.Burst.{Burst, align, prepare, advance, transfer}

-- One burst: where it starts, how many units of 16 bytes it has, and how many bytes remain.
pub record Item : Type 0 where
  pub address : ℕ
  pub units : ℕ
  pub left : ℕ

-- The bursts for `r` bytes from address `a` on, at most `units` units each, in `n` rounds at most.
unfoldable pub plan : ℕ → ℕ → ℕ → ℕ → List Item
plan zero units a r = []
plan (suc n) units a r =
    if r == 0
    then []
    else if leb r (16 * units)
    then record { address = a; units = (r + 15) / 16; left = 0 } ∷ []
    else record { address = a; units = units; left = r - 16 * units }
      ∷ plan n units (u32 (a + 16 * units)) (r - 16 * units)

-- The device after the bursts of a plan, in order.
abbrev pub run_plan {ℓ} : {S : Type ℓ} → (S → ℕ → ℕ → ℕ → S) → S → List Item → S
run_plan issue s [] = s
run_plan issue s (i ∷ is) = run_plan issue (issue s i.address i.units i.left) is

pub align_up : (r : ℕ) → r ≤ 2 ^ 32 - 16 → align r ≡ 16 * ((r + 15) / 16)
unfolding align
align_up r h = ground (arith, bit_and_mask 4 r)

abbrev pub burst : ℕ → ℕ → ℕ → Burst
burst units a r = record {
  data_remaining = r;
  burst_size = units;
  burst_data = 16 * units;
  next = a;
}

prepare_last :
    (units a r : ℕ)
    → r ≤ 16 * units
    → r ≤ 2 ^ 32 - 16
    → prepare (burst units a r) ≡ burst ((r + 15) / 16) a (16 * ((r + 15) / 16))
unfolding prepare
prepare_last units a r le fits = ground (arith, align_up r fits)

advance_last :
    (units a : ℕ) → advance (burst units a (16 * units)) ≡ burst units (u32 (a + 16 * units)) 0
unfolding advance
advance_last units a = ground arith

module _ {ℓ} {S : Type ℓ} (issue : S → ℕ → ℕ → ℕ → S) where
  transfer_done : (k : ℕ) (s : S) (b : Burst) → b.data_remaining ≡ 0 → transfer issue k s b ≡ some s
  unfolding transfer
  transfer_done zero s b e = ground arith
  transfer_done (suc k) s b e = ground arith

  transfer_step :
      (k : ℕ) (s : S) (b : Burst)
      → b.data_remaining ≢ 0
      → let p = prepare b in
        transfer issue (suc k) s b
        ≡ transfer issue k (issue s p.next p.burst_size (advance p).data_remaining) (advance p)
  unfolding transfer
  transfer_step k s b busy =
      let e : (b.data_remaining == 0) ≡ false = ground arith in rw (transfer, e)

  transfer_last :
      (k : ℕ) (s : S) (units a r : ℕ)
      → 0 < r
      → r ≤ 16 * units
      → r ≤ 2 ^ 32 - 16
      → transfer issue (suc k) s (burst units a r) ≡ some (issue s a ((r + 15) / 16) 0)
  unfolding transfer
  transfer_last k s units a r pos le fits =
      let units' = (r + 15) / 16 in
      transfer_step k s (burst units a r) (omega arith)
      ∙ rw (prepare_last units a r le fits, advance_last units' a)
          (transfer_done k (issue s a units' 0) (burst units' (u32 (a + 16 * units')) 0) refl)

  transfer_more :
      (k : ℕ) (s : S) (units a r : ℕ)
      → 0 < units
      → 16 * units < r
      → r < 2 ^ 32
      → transfer issue (suc k) s (burst units a r)
        ≡ transfer issue k
            (issue s a units (r - 16 * units))
            (burst units (u32 (a + 16 * units)) (r - 16 * units))
  unfolding transfer prepare advance
  transfer_more k s units a r pos lt fits = ground arith

  -- With fuel for one round for each `16 * units` bytes begun, the loop over at most 2 ^ 32 - 16
  -- bytes in bursts of some units each ends, and what it has issued are the bursts of the plan,
  -- in order, whatever issuing one does.
  pub transfer-plan :
      (k : ℕ) (s : S) (units a r : ℕ)
      → 0 < units
      → r ≤ 2 ^ 32 - 16
      → r ≤ k * (16 * units)
      → transfer issue k s (burst units a r) ≡ some (run_plan issue s (plan k units a r))
  unfolding plan
  transfer-plan zero s units a r pos fits fuel =
      transfer_done zero s (burst units a r) (omega arith)
  transfer-plan (suc k) s units a r pos fits fuel = elim (Bool-cases (r == 0)) [
    | inl e ↦ rw e (transfer_done (suc k) s (burst units a r) (ground arith))
    | inr e ↦ elim (Bool-cases (leb r (16 * units))) [
      | inl le ↦ rw (e, le) (transfer_last k s units a r (ground arith) (ground arith) fits)
      | inr gt ↦
          rw (e, gt)
            (transfer_more k s units a r pos (ground arith) (omega arith)
              ∙ transfer-plan k (issue s a units (r - 16 * units)) units (u32 (a + 16 * units))
                  (r - 16 * units) pos (omega arith) (omega arith))
    ]
  ]
