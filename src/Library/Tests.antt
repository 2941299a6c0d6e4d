-- ===== src/Library/Tests.antt =====
-- Runs of the library, over the driver's test memory.
use deep_space_detection.Base.{ℕ, ◌≡◌, ◌/◌, List, ◌∷◌, true, some, none, ok}
use deep_space_detection.Library.Example.{size, fill}
use deep_space_detection.Driver.Device.{Device, initial}
use deep_space_detection.Library.Accelerator.{
  NetworkAccDev, acc_config_test, acc_start_test, acc_get_test,
}
use deep_space_detection.Library.Accelerator.Laws.{acc-tests}
use deep_space_detection.Driver.Ioctl.{NetworkAccReg}
use deep_space_detection.Driver.Tests.{counter, numbers, two_areas}
use deep_space_detection.Library.{AxitangxiDev, zeroed, axitangxi_data_init}

-- 3 MB and a byte.
abbrev prepared : AxitangxiDev
prepared = axitangxi_data_init 3145729 3145729 0x7000 0xa000 zeroed

abbrev accelerator : NetworkAccDev
accelerator = record {
  initialized = true;
  fd = some 3;
  control = 0;
  weight_addr = 0x1000;
  weight_size = 64;
  quantify_addr = 0x2000;
  quantify_size = 64;
  picture_addr = 0x3000;
  picture_size = 64;
  trans_addr = 0;
  trans_size = 0;
  entropy_addr = 0;
  entropy_size = 0;
}

-- What was on the stack.
abbrev left_over : NetworkAccReg
left_over = record {
  control = 1;
  weight_addr = 2;
  weight_size = 3;
  quantify_addr = 4;
  quantify_size = 5;
  picture_addr = 6;
  picture_size = 7;
  trans_addr = 8;
  trans_size = 9;
  entropy_addr = 10;
  entropy_size = 11;
}

acc-tests_example :
    (acc_config_test counter numbers 9 two_areas left_over accelerator initial
      ≡ some (ok (none, initial)))
    × (acc_start_test counter numbers 9 two_areas left_over accelerator initial
        ≡ some (ok (none, initial)))
    × ((acc_get_test counter numbers 9 two_areas left_over accelerator initial).1
        ≡ some (ok (none, initial)))
acc-tests_example = acc-tests counter numbers 9 two_areas left_over accelerator initial

-- What the card has brought back: every word is one less than that which was sent.
abbrev back : List ℕ
back = 0 ∷ fill (size / 4) 1
