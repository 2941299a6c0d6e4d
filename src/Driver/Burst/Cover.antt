-- ===== src/Driver/Burst/Cover.antt =====
-- What the bursts of axi_tangxi.c cover.
use deep_space_detection.Base.{
  ℕ, zero, suc, ◌+◌, ◌-◌, ◌*◌, ◌/◌, ◌^◌, ◌≤◌, ◌<◌, ◌≡◌, ap, sym, ◌∙◌, arith, List, [], ◌∷◌, ◌++◌,
  some, false, leb, ◌==◌, if◌then◌else◌, u32, length, get_elem?, Bool-cases, inl, inr,
}
use mathlib.Core.List.{append-nil, append_assoc}
use deep_space_detection.Driver.Burst.{transfer}
use deep_space_detection.Driver.Burst.Plan.{Item, plan, run_plan, burst, transfer-plan}

-- The number of bursts is the number of bytes over the size of a burst, rounded up.
pub length-plan :
    (k units a r : ℕ)
    → 0 < units
    → r ≤ k * (16 * units)
    → let n = length (plan k units a r) in
      (r ≤ n * (16 * units)) × (n * (16 * units) < r + 16 * units)
unfolding plan
length-plan zero units a r pos fuel = (omega arith, omega arith)
length-plan (suc k) units a r pos fuel = elim (Bool-cases (r == 0)) [
  | inl e ↦ rw e (ground arith)
  | inr e ↦ elim (Bool-cases (leb r (16 * units))) [
    | inl le ↦ rw (e, le) (ground arith)
    | inr gt ↦
        let rest = length-plan k units (u32 (a + 16 * units)) (r - 16 * units) pos (omega arith) in
        rw (e, gt) (ground (arith, rest))
  ]
]

abbrev pub total_units : List Item → ℕ
total_units [] = 0
total_units (i ∷ is) = i.units + total_units is

-- Together the bursts move the bytes, rounded up to a multiple of 16, and no more.
pub total_units-plan :
    (k units a r : ℕ)
    → 0 < units
    → r ≤ k * (16 * units)
    → total_units (plan k units a r) ≡ (r + 15) / 16
unfolding plan
total_units-plan zero units a r pos fuel = omega arith
total_units-plan (suc k) units a r pos fuel = elim (Bool-cases (r == 0)) [
  | inl e ↦ rw e (ground arith)
  | inr e ↦ elim (Bool-cases (leb r (16 * units))) [
    | inl le ↦ rw (e, le) (omega arith)
    | inr gt ↦
        let rest =
          total_units-plan k units (u32 (a + 16 * units)) (r - 16 * units) pos (omega arith) in
        rw (e, gt) (ground (arith, rest))
  ]
]

-- The burst at address `a` while `rest` bytes remain.
abbrev pub item_at : ℕ → ℕ → ℕ → Item
item_at units a rest = record {
  address = a;
  units = if leb rest (16 * units) then (rest + 15) / 16 else units;
  left = rest - 16 * units;
}

first-plan :
    (k units a r : ℕ) → 0 < r → get_elem? (plan (suc k) units a r) 0 ≡ some (item_at units a r)
unfolding plan
first-plan k units a r pos =
    let busy : (r == 0) ≡ false = ground arith in
    elim (Bool-cases (leb r (16 * units))) [
      | inl le ↦
          rw (busy, le)
            (ap (λ l. some (record { address = a; units = (r + 15) / 16; left = l }))
              (ground arith))
      | inr gt ↦ rw (busy, gt)
    ]

-- The `i`-th burst starts `i` bursts behind the start, modulo 2 ^ 32, and holds as much as a burst
-- may, or, in the last place, what is left.
pub get_elem?-plan :
    (k units a r i : ℕ)
    → a < 2 ^ 32
    → i * (16 * units) < r
    → r ≤ k * (16 * units)
    → get_elem? (plan k units a r) i
      ≡ some (item_at units (u32 (a + i * (16 * units))) (r - i * (16 * units)))
unfolding plan
get_elem?-plan zero units a r i range lt fuel = absurd (omega arith)
get_elem?-plan (suc k) units a r zero range lt fuel =
    let start : u32 (a + 0 * (16 * units)) ≡ a = omega arith in
    let all : r - 0 * (16 * units) ≡ r = omega arith in
    rw (start, all) (first-plan k units a r (omega arith))
get_elem?-plan (suc k) units a r (suc i) range lt fuel =
    let busy : (r == 0) ≡ false = ground arith in
    let more : leb r (16 * units) ≡ false = ground arith in
    let start : u32 (u32 (a + 16 * units) + i * (16 * units)) ≡ u32 (a + suc i * (16 * units)) =
      omega arith in
    let rest : r - 16 * units - i * (16 * units) ≡ r - suc i * (16 * units) = omega arith in
    rw (busy, more, ← start, ← rest)
      (get_elem?-plan k units (u32 (a + 16 * units)) (r - 16 * units) i (omega arith) (omega arith)
        (omega arith))

abbrev pub note : List Item → ℕ → ℕ → ℕ → List Item
note is a units left = is ++ record { address = a; units = units; left = left } ∷ []

run_plan-note : (done is : List Item) → run_plan note done is ≡ done ++ is
run_plan-note done [] = sym (append-nil done)
run_plan-note done (i ∷ is) = run_plan-note (done ++ i ∷ []) is ∙ append_assoc done (i ∷ []) is

-- The loop over `r` bytes, at most 2 ^ 32 - 16, in bursts of some units of 16 bytes each, noting
-- its bursts: with fuel for one round for each `16 * units` bytes begun it ends; there are as
-- many bursts as that; together they move the bytes rounded up to a multiple of 16; and the
-- `i`-th starts `i` full bursts behind the start, modulo 2 ^ 32, and is full or holds what is
-- left.
pub transfer-note :
    (k units a r : ℕ)
    → 0 < units
    → a < 2 ^ 32
    → r ≤ 2 ^ 32 - 16
    → r ≤ k * (16 * units)
    → (bursts : List Item) × (transfer note k [] (burst units a r) ≡ some bursts)
      × ((r ≤ length bursts * (16 * units)) × (length bursts * (16 * units) < r + 16 * units))
      × (total_units bursts ≡ (r + 15) / 16)
      × ((i : ℕ)
          → i * (16 * units) < r
          → get_elem? bursts i
            ≡ some (item_at units (u32 (a + i * (16 * units))) (r - i * (16 * units))))
transfer-note k units a r pos range fits fuel = (
  plan k units a r,
  transfer-plan note k [] units a r pos fits fuel ∙ ap some (run_plan-note [] (plan k units a r)),
  length-plan k units a r pos fuel,
  total_units-plan k units a r pos fuel,
  λ i lt. get_elem?-plan k units a r i range lt fuel,
)
