-- ===== src/Library/Example/Laws.antt =====
-- What the demonstration program finds and reports.
use deep_space_detection.Base.{
  ℕ, zero, suc, ◌+◌, ◌≤◌, ◌≡◌, refl, ap, Bool, true, List, [], ◌∷◌, none, some, ok, fault, length,
  take,
}
use deep_space_detection.Driver.Device.{Completion, Device}
use deep_space_detection.Driver.Memory.{Memory}
use deep_space_detection.Driver.Ioctl.{IoctlNumbers, NetworkAccReg}
use deep_space_detection.Library.{AxitangxiDev, zeroed, axitangxi_dev_init, axitangxi_data_init}
use deep_space_detection.Library.Accelerator.{NetworkAccDev}
use deep_space_detection.Library.Example.{size, fill, Answers, main}

-- A count that is 0 exactly if the first `n` words are the same.
abbrev pub Counts : ℕ → List ℕ → List ℕ → ℕ → Type 0
Counts n rx tx c = (c ≤ n) × (c ≡ 0 → take n rx ≡ take n tx) × (take n rx ≡ take n tx → c ≡ 0)

abbrev head_of : List ℕ → ℕ
head_of [] = 0
head_of (a ∷ rest) = a

abbrev tail_of : List ℕ → List ℕ
tail_of [] = []
tail_of (a ∷ rest) = rest

pub length-fill : (n i : ℕ) → length (fill n i) ≡ n
unfolding fill
length-fill zero i = refl
length-fill (suc n) i = ap suc (length-fill n (i + 1))

module _ (K : Completion) (N : IoctlNumbers) (m : Memory) (iargs : NetworkAccReg)
    (as_acc : NetworkAccDev) (rx : List ℕ) (arrivals : List (List ℕ)) (d : Device K.State)
    (fd tx_buffer rx_buffer tx_phys rx_phys : ℕ) (unmaps : ℕ → Bool) where
  abbrev pub answered : Answers
  answered = record {
    opened = some fd;
    tx_mapped = some tx_buffer;
    rx_mapped = some rx_buffer;
    unmaps = unmaps;
    closes = true;
  }

  abbrev opened_dev : AxitangxiDev
  opened_dev = record zeroed { fd = some fd; initialized = true }

  abbrev transferring : AxitangxiDev
  transferring = axitangxi_data_init size size tx_buffer rx_buffer opened_dev

module _ (K : Completion) (N : IoctlNumbers) (k : ℕ) (m : Memory) (iargs : NetworkAccReg)
    (as_acc : NetworkAccDev) (rx : List ℕ) (arrivals : List (List ℕ)) (d : Device K.State) where
  -- The three refusals.
  pub main_fails :
      (a : Answers)
      → (a.opened ≡ none → main K N k m iargs as_acc rx arrivals a d ≡ some (ok none))
        × ((fd : ℕ)
            → a.opened ≡ some fd
            → a.tx_mapped ≡ none
            → main K N k m iargs as_acc rx arrivals a d ≡ some fault)
        × ((fd tx : ℕ)
            → a.opened ≡ some fd
            → a.tx_mapped ≡ some tx
            → a.rx_mapped ≡ none
            → main K N k m iargs as_acc rx arrivals a d ≡ some fault)
  unfolding main axitangxi_dev_init
  main_fails a = ((λ e. rw e refl), (λ fd e t. rw (e, t) refl), (λ fd tx e t r. rw (e, t, r) refl))
