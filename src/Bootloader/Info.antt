-- ===== src/Bootloader/Info.antt =====
-- The boot information that is written is read back.
use tinyos_rtos.Prelude.{
  ◌+◌, ◌<◌, ◌≤◌, ℕ, ◌^◌, ◌<◌, ◌≤◌, ◌≡◌, refl, ap, sym, ◌∙◌, true, false, some, List, [], ◌++◌,
  arith, length,
}
use tinyos_rtos.Flash.{
  is_write_protected_range, Flash, flash_ok, FlashError, flash_read, flash_write,
  flash_erase_sector, fill, with_bytes,
}
use tinyos_rtos.Flash.Bytes.{fill-at}
use tinyos_rtos.Flash.Content.{sector_erased, write_read}
use tinyos_rtos.Flash.Frame.{flash_write-SameFlags}
use tinyos_rtos.Ota.{flash_data_start, ota_bootinfo_magic, le32, info_bytes, info_of}
use tinyos_rtos.Ota.Layout.{IsInfo, info_of-info_bytes, word_of-le32}
use tinyos_rtos.Bootloader.{
  BootInfo, BootloaderInfo, bootloader_bytes, bootloader_info_of, bootloader_read_boot_info,
  bootloader_write_boot_info,
}

-- Flash that can be written.
pub record IsOpen (f : Flash) : Type 0 where
  pub init : f.flash_initialized ≡ true
  pub open_all : f.write_protection_enabled ≡ false

pub record IsBootloaderInfo (i : BootloaderInfo) : Type 0 where
  pub common_ok : IsInfo i.common
  pub magic_ok : i.common.magic ≡ ota_bootinfo_magic
  pub attempts_u32 : i.boot_attempts < 2 ^ 32
  pub timestamp_u32 : i.last_boot_timestamp < 2 ^ 32
  pub crc_u32 : i.crc32 < 2 ^ 32

bootloader_info_of-bytes :
    (i : BootloaderInfo) → IsBootloaderInfo i → bootloader_info_of (bootloader_bytes i) ≡ i
unfolding bootloader_info_of bootloader_bytes info_bytes
bootloader_info_of-bytes i h =
    let rest = le32 i.boot_attempts ++ (le32 i.last_boot_timestamp ++ le32 i.crc32) in
    let common = info_of-info_bytes i.common rest h.common_ok in
    let attempts = word_of-le32 i.boot_attempts [] h.attempts_u32 in
    let timestamp = word_of-le32 i.last_boot_timestamp [] h.timestamp_u32 in
    let crc = word_of-le32 i.crc32 [] h.crc_u32 in
    λ t. record {
      common = common t;
      boot_attempts = attempts t;
      last_boot_timestamp = timestamp t;
      crc32 = crc t;
    }

bootloader_bytes-length : (i : BootloaderInfo) → length (bootloader_bytes i) ≡ 36
unfolding bootloader_bytes info_bytes
bootloader_bytes-length i = refl

-- A record of 1 to 4096 bytes, written to the erased sector of the data partition.
pub data_sector :
    (xs : List ℕ) (f : Flash)
    → 0 < length xs
    → length xs ≤ 4096
    → IsOpen f
    → (f1 f2 : Flash) × (flash_erase_sector flash_data_start f ≡ (flash_ok, f1))
      × (flash_write flash_data_start (some xs) f1 ≡ (flash_ok, f2))
      × (flash_read flash_data_start true (length xs) f2 ≡ (flash_ok, xs))
      × ((a : ℕ)
          → flash_data_start + length xs ≤ a
          → a < flash_data_start + 4096
          → f2.simulated_flash a ≡ 255)
      × IsOpen f2
data_sector xs f some_bytes few w =
    let f1 = with_bytes f (fill 4096 flash_data_start 255 f.simulated_flash) in
    let free : is_write_protected_range f1 flash_data_start (length xs) ≡ false =
      ground (arith, w.open_all) in
    let (f2, written, read, others, _) =
      write_read flash_data_start xs f1 w.init some_bytes (omega (arith, few)) free in
    let flags = flash_write-SameFlags flash_data_start xs f1 in
    let same : (flash_write flash_data_start (some xs) f1).1 ≡ f2 =
      ap (λ (r : FlashError × Flash). r.1) written in
    (
      f1,
      f2,
      sector_erased 124 f w.init w.open_all (omega arith),
      written,
      read,
      λ a above below.
          others a (ground (arith, above))
          ∙ ground (arith, fill-at 4096 flash_data_start 255 f.simulated_flash a),
      record {
        init = ap (λ (g : Flash). g.flash_initialized) (sym same) ∙ (flags.init ∙ w.init);
        open_all =
            ap (λ (g : Flash). g.write_protection_enabled) (sym same)
            ∙ (flags.protection ∙ w.open_all);
      },
    )

common_of : (bytes : List ℕ) → (bootloader_info_of bytes).common ≡ info_of bytes
unfolding bootloader_info_of
common_of bytes = refl

pub read_info :
    (bytes : List ℕ) (i : BootloaderInfo) (f : Flash)
    → flash_read flash_data_start true 36 f ≡ (flash_ok, bytes)
    → bootloader_info_of bytes ≡ i
    → i.common.magic ≡ ota_bootinfo_magic
    → bootloader_read_boot_info f ≡ some i
unfolding bootloader_read_boot_info
read_info bytes i f read e m =
    let magic : (info_of bytes).magic ≡ ota_bootinfo_magic =
      ap (λ (c : BootInfo). c.magic) (sym (common_of bytes))
      ∙ (ap (λ (j : BootloaderInfo). j.common.magic) e ∙ m) in
    rw read (rw magic (ap (λ (j : BootloaderInfo). some j) e))

-- What is written on open flash is read back.
pub write_read_info :
    (i : BootloaderInfo) (f : Flash)
    → IsBootloaderInfo i
    → IsOpen f
    → IsOpen (bootloader_write_boot_info i f).1
      × (bootloader_read_boot_info (bootloader_write_boot_info i f).1 ≡ some i)
unfolding bootloader_write_boot_info
write_read_info i f h w =
    let size = bootloader_bytes-length i in
    let (f1, f2, erased, written, read, _, w2) =
      data_sector (bootloader_bytes i) f (omega (arith, size)) (omega (arith, size)) w in
    let read' = ap (λ (n : ℕ). flash_read flash_data_start true n f2) (sym size) ∙ read in
    let got = read_info (bootloader_bytes i) i f2 read' (bootloader_info_of-bytes i h) h.magic_ok in
    rw (erased, written) (w2, got)

pub write-IsOpen :
    (i : BootloaderInfo) (f : Flash) → IsOpen f → IsOpen (bootloader_write_boot_info i f).1
unfolding bootloader_write_boot_info
write-IsOpen i f w =
    let size = bootloader_bytes-length i in
    let (f1, f2, erased, written, _, _, w2) =
      data_sector (bootloader_bytes i) f (omega (arith, size)) (omega (arith, size)) w in
    rw (erased, written) w2
