-- ===== src/Bootloader.antt =====
-- bootloader.c: the choice of the partition to boot. The messages are not modelled.
pub mod Saved
pub mod Checks
pub mod Info
pub mod Stages
pub mod Boots
pub mod Updates
mod Tests
use tinyos_rtos.Prelude.{
  ◌>>=◌, ℕ, ◌+◌, ◌-◌, ◌%◌, ◌^◌, Bool, true, false, not, ◌&&◌, ◌||◌, Option, none, some, List, [],
  ◌∷◌, ◌++◌, ltb, leb, ◌==◌, if◌then◌else◌, drop,
}
use tinyos_rtos.Prelude.Word.{u32}
use tinyos_rtos.Flash.{
  Flash, FlashError, is_ok, flash_init, flash_read, flash_write, flash_erase_sector,
}
use tinyos_rtos.Ota.{
  app_a, app_b, PartitionInfo, ota_get_partition_info, flash_data_start, le32, word_of, BootInfo,
  info_bytes, info_of, ota_bootinfo_magic, header_magic, header_image_size,
}
use tinyos_rtos.Ota.Update.{default_info, other_app}

-- `bootloader_boot_info_t`: behind the common fields it has two that `boot_info_t` lacks.
pub record BootloaderInfo : Type 0 where
  pub common : BootInfo
  pub boot_attempts : ℕ
  pub last_boot_timestamp : ℕ
  pub crc32 : ℕ

unfoldable pub bootloader_bytes : BootloaderInfo → List ℕ
bootloader_bytes i =
    info_bytes i.common ++ (le32 i.boot_attempts ++ (le32 i.last_boot_timestamp ++ le32 i.crc32))

unfoldable pub bootloader_info_of : List ℕ → BootloaderInfo
bootloader_info_of bytes = record {
  common = info_of bytes;
  boot_attempts = word_of (drop 24 bytes);
  last_boot_timestamp = word_of (drop 28 bytes);
  crc32 = word_of (drop 32 bytes);
}

-- `none` for false
unfoldable pub bootloader_read_boot_info : Flash → Option BootloaderInfo
bootloader_read_boot_info f =
    let (err, bytes) = flash_read flash_data_start true 36 f in
    if not (is_ok err)
    then none
    else (if not ((info_of bytes).magic == ota_bootinfo_magic)
        then none
        else some (bootloader_info_of bytes))

unfoldable pub bootloader_write_boot_info : BootloaderInfo → Flash → Bool × Flash
bootloader_write_boot_info i f =
    let (erased, f1) = flash_erase_sector flash_data_start f in
    if not (is_ok erased)
    then (false, f1)
    else (let (written, f2) = flash_write flash_data_start (some (bootloader_bytes i)) f1 in
        (is_ok written, f2))

-- An image fits in a partition.
unfoldable pub header_fits : ℕ → List ℕ → Bool
header_fits size header =
    (header_magic header == 0x544F5346)
    && (not (header_image_size header == 0) && not (ltb size (header_image_size header)))

unfoldable pub verify_at : PartitionInfo → Flash → Bool
unfolding header_fits
verify_at p f =
    let (err, header) = flash_read p.start_address true 104 f in
    is_ok err && header_fits p.size header

abbrev pub verify_known : Option PartitionInfo → Flash → Bool
verify_known none f = false
verify_known (some p) f = verify_at p f

unfoldable pub bootloader_verify_partition : ℕ → Flash → Bool
bootloader_verify_partition partition f = verify_known (ota_get_partition_info partition) f

-- What `bootloader_main` works on: the boot information, the partition to boot, the flash.
pub record Boot : Type 0 where
  pub info : BootloaderInfo
  pub partition : ℕ
  pub flash : Flash

-- The information is written; the answer is ignored.
abbrev pub saved : Boot → Boot
saved b = record b { flash = (bootloader_write_boot_info b.info b.flash).1 }

abbrev pub with_common : BootloaderInfo → BootInfo → BootloaderInfo
with_common i c = record i { common = c }

-- The roll back, with the partition that is chosen then.
unfoldable pub bootloader_handle_boot_failure : Boot → Boot
bootloader_handle_boot_failure b =
    let c = b.info.common in
    let p = other_app c.active_partition in
    saved (record b {
      info = record b.info {
        common = record c {
          rollback_count = u32 (c.rollback_count + 1);
          active_partition = p;
          pending_partition = p;
          boot_confirmed = true;
        };
        boot_attempts = 0;
      };
      partition = p;
    })

-- The information of the flash, or the default one, which is written.
unfoldable pub load_from : Flash → Option BootloaderInfo → Boot
load_from f (some i) = record { info = i; partition = i.common.active_partition; flash = f }
load_from f none = saved (record {
  info = record { common = default_info; boot_attempts = 0; last_boot_timestamp = 0; crc32 = 0 };
  partition = app_a;
  flash = f;
})

abbrev pub load : Flash → Boot
load f = load_from f (bootloader_read_boot_info f)

-- The pending partition becomes the active one, or the active one stays.
abbrev pub switched : Boot → Boot
switched b =
    let c = b.info.common in
    record b {
      info = record b.info {
        common = record c { active_partition = c.pending_partition };
        boot_attempts = 0;
      };
      partition = c.pending_partition;
    }

abbrev pub refused : Boot → Boot
refused b =
    let c = b.info.common in
    record b {
      info =
          with_common b.info
            (record c { pending_partition = c.active_partition; boot_confirmed = true });
      partition = c.active_partition;
    }

-- A pending update takes the place of the active partition if it is verified.
unfoldable pub switch_pending : Boot → Boot
switch_pending b =
    let c = b.info.common in
    if not (c.pending_partition == c.active_partition) && not c.boot_confirmed
    then saved
        (if bootloader_verify_partition c.pending_partition b.flash then switched b else refused b)
    else record b { partition = c.active_partition }

abbrev pub counted : Boot → Boot
counted b = record b { info = record b.info { boot_attempts = u32 (b.info.boot_attempts + 1) } }

-- The attempts of an unconfirmed boot; `none` where the bootloader returns.
unfoldable pub count_attempt : Boot → Option Boot
count_attempt b =
    if b.info.common.boot_confirmed
    then some b
    else (if leb 3 (counted b).info.boot_attempts
        then (if b.info.common.rollback_enabled
            then some (saved (bootloader_handle_boot_failure (counted b)))
            else none)
        else some (saved (counted b)))

-- The verification of the partition, with a roll back if it fails.
unfoldable pub verify_chosen : Boot → Option Boot
verify_chosen b =
    if bootloader_verify_partition b.partition b.flash
    then some b
    else (if b.info.common.rollback_enabled
        then (let b1 = bootloader_handle_boot_failure b in
            if bootloader_verify_partition b1.partition b1.flash then some b1 else none)
        else none)

abbrev pub boot_counted : Boot → Boot
boot_counted b = saved (record b {
  info =
      with_common b.info (record b.info.common { boot_count = u32 (b.info.common.boot_count + 1) });
})

abbrev pub address_of : Option PartitionInfo → Option ℕ
address_of none = none
address_of (some p) = some p.start_address

-- The address that `bootloader_jump_to_app` gets, if it is called.
unfoldable pub jump_of : Boot → Option ℕ
jump_of b = address_of (ota_get_partition_info b.partition)

-- `none` where it returns before the boot count; `flash_init` never fails.
unfoldable pub bootloader_main : Flash → Option (Option ℕ × Boot)
bootloader_main f = count_attempt (switch_pending (load (flash_init f).1)) >>= λ b.
    verify_chosen b >>= λ b1. some (jump_of (boot_counted b1), boot_counted b1)
