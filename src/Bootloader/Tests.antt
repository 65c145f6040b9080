-- ===== src/Bootloader/Tests.antt =====
-- The theorems on the bootloader and on updates, at a flash with the same small image in both partitions.
use tinyos_rtos.Prelude.{
  ℕ, ◌%◌, ◌≡◌, refl, ◌∙◌, true, false, List, [], arith, ◌==◌, if◌then◌else◌, inr, take,
}
use tinyos_rtos.Prelude.Memory.{copy_out}
use tinyos_rtos.Flash.{Flash, flash_init}
use tinyos_rtos.Flash.Frame.{flash_read_lem}
use tinyos_rtos.Ota.{app_a, app_b, ota_ok}
use tinyos_rtos.Ota.Update.{Ota, no_progress, ota_verify_image_header, default_info}
use tinyos_rtos.Ota.Layout.{IsInfo}
use tinyos_rtos.Bootloader.{
  BootloaderInfo, bootloader_main, bootloader_verify_partition, bootloader_write_boot_info,
}
use tinyos_rtos.Bootloader.Checks.{
  Sound, bootloader_main-Sound, verify-SameImages, write-SameImages,
}
use tinyos_rtos.Bootloader.Info.{IsOpen, IsBootloaderInfo, write_read_info}
use tinyos_rtos.Bootloader.Boots.{Jumped, first_boot, later_boot, rolled_back, three_boots}
use tinyos_rtos.Bootloader.Updates.{Updated, update_boots, verified_lem}

-- The bytes of an image of 4 bytes behind its header.
abbrev image : ℕ → ℕ
image n =
    if n == 0
    then 0x46
    else if n == 1
    then 0x53
    else if n == 2
    then 0x4F
    else if n == 3
    then 0x54
    else if n == 40
    then 4
    else 0

abbrev stored : Flash
stored = record {
  simulated_flash = λ a. image (a % 16384);
  flash_initialized = true;
  write_protection_enabled = false;
  protected_start = 0;
  protected_size = 0;
}

stored-IsOpen : IsOpen stored
stored-IsOpen = record { init = refl; open_all = refl }

header_a : ota_verify_image_header (copy_out 104 0x4000 stored.simulated_flash) ≡ ota_ok
unfolding ota_verify_image_header copy_out
header_a = refl

header_b : ota_verify_image_header (copy_out 104 0x40000 stored.simulated_flash) ≡ ota_ok
unfolding ota_verify_image_header copy_out
header_b = refl

verified_a : bootloader_verify_partition app_a stored ≡ true
verified_a =
    (verified_lem app_a _ stored (omega arith) refl
      (flash_read_lem 0x4000 104 stored refl (omega arith) (omega arith)) header_a).1

verified_b : bootloader_verify_partition app_b stored ≡ true
verified_b =
    (verified_lem app_b _ stored (omega arith) refl
      (flash_read_lem 0x40000 104 stored refl (omega arith) (omega arith)) header_b).1

bootloader_main-Sound_example : Sound (flash_init stored).1 (bootloader_main stored)
bootloader_main-Sound_example = bootloader_main-Sound stored

-- B is pending.
abbrev pending_b : BootloaderInfo
pending_b = record {
  common = record default_info { pending_partition = app_b; boot_confirmed = false };
  boot_attempts = 77;
  last_boot_timestamp = 0;
  crc32 = 0;
}

pending_b-IsBootloaderInfo : IsBootloaderInfo pending_b
pending_b-IsBootloaderInfo = ground arith

abbrev noted : Flash
noted = (bootloader_write_boot_info pending_b stored).1

three_boots_example :
    (first : Jumped noted 0x40000 (first_boot pending_b)) × (second : Jumped first.boot.flash
      0x40000
      (later_boot (first_boot pending_b)))
    × Jumped second.boot.flash 0x4000 (rolled_back (later_boot (first_boot pending_b)))
three_boots_example =
    three_boots noted pending_b
      (write_read_info pending_b stored pending_b-IsBootloaderInfo stored-IsOpen).0
      (write_read_info pending_b stored pending_b-IsBootloaderInfo stored-IsOpen).1
      pending_b-IsBootloaderInfo refl (λ e. ground arith) refl refl (omega arith)
      (verify-SameImages app_b stored noted (omega arith) (write-SameImages pending_b stored)
        ∙ verified_b)
      (verify-SameImages app_a stored noted (omega arith) (write-SameImages pending_b stored)
        ∙ verified_a)

abbrev firmware : List ℕ
firmware = copy_out 104 0x4000 stored.simulated_flash

abbrev updater : Ota
updater = record {
  initialized = true;
  progress = no_progress;
  running_partition = app_a;
  update_partition = app_b;
  boot_info = default_info;
  current_header = [];
}

default-IsInfo : IsInfo default_info
default-IsInfo = ground arith

firmware_ok : ota_verify_image_header (take 104 firmware) ≡ ota_ok
unfolding ota_verify_image_header copy_out
firmware_ok = refl

update_boots_example : Updated 129 firmware updater stored
unfolding copy_out
update_boots_example =
    update_boots 129 firmware updater stored (omega arith) refl stored-IsOpen default-IsInfo refl
      (inr refl) (λ e. ground arith) (omega arith) (omega arith) firmware_ok
