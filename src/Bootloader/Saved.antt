-- ===== src/Bootloader/Saved.antt =====
-- ota.c and bootloader.c: the image and the boot information that an update stores, as the bootloader
-- reads them.
use tinyos_rtos.Prelude.{
  zero, suc, ℕ, ◌+◌, ◌-◌, ◌^◌, ◌<◌, ◌≤◌, ◌≡◌, refl, ap, sym, ◌∙◌, true, false, some, List, [], ◌∷◌,
  ◌++◌, arith, length, take,
}
use tinyos_rtos.Prelude.Memory.{copy_out}
use tinyos_rtos.Flash.{
  Flash, FlashError, flash_ok, flash_read, flash_write, flash_erase_range, is_write_protected_range,
}
use tinyos_rtos.Flash.Content.{write_read, flash_erase_range_lem}
use tinyos_rtos.Flash.Frame.{
  SameBelow-trans, SameFlags, flash_write-SameFlags, flash_erase_range-KeepsFlags, flash_read_lem,
  take-copy_out, copy_out-append, flash_write-SameBelow, flash_erase_sector-SameBelow,
}
use tinyos_rtos.Ota.{
  BootInfo, flash_data_start, le32, word_of, info_bytes, crc32_calculate, ota_bootinfo_magic,
}
use tinyos_rtos.Ota.Layout.{IsInfo, info_of-info_bytes}
use tinyos_rtos.Ota.Update.{Ota, save_boot_info}
use tinyos_rtos.Ota.{ota_ok}
use tinyos_rtos.Bootloader.{BootloaderInfo, bootloader_info_of, bootloader_read_boot_info}
use tinyos_rtos.Bootloader.Checks.{SameImages}
use tinyos_rtos.Bootloader.Info.{IsOpen, IsBootloaderInfo, data_sector, read_info}

-- The image is stored in a partition of an application.
pub store_lem :
    (start : ℕ) (firmware : List ℕ) (f : Flash)
    → start + 245760 ≤ 507904
    → 104 ≤ length firmware
    → length firmware ≤ 245760
    → IsOpen f
    → (f1 : Flash) × (flash_write start (some firmware) f ≡ (flash_ok, f1))
      × (flash_read start true 104 f1 ≡ (flash_ok, take 104 firmware))
      × (flash_read start true (length firmware) f1 ≡ (flash_ok, firmware))
      × IsOpen f1
store_lem start firmware f room big small w =
    let free : is_write_protected_range f start (length firmware) ≡ false =
      ground (arith, w.open_all) in
    let (f1, written, read, _, _) =
      write_read start firmware f w.init (omega (arith, big)) (omega (arith, room, small)) free in
    let flags = flash_write-SameFlags start firmware f in
    let same : (flash_write start (some firmware) f).1 ≡ f1 =
      ap (λ (r : FlashError × Flash). r.1) written in
    let init : f1.flash_initialized ≡ true =
      ap (λ (g : Flash). g.flash_initialized) (sym same) ∙ (flags.init ∙ w.init) in
    let all =
      flash_read_lem start (length firmware) f1 init (omega (arith, big))
        (omega (arith, room, small)) in
    let content : copy_out (length firmware) start f1.simulated_flash ≡ firmware =
      ap (λ (r : FlashError × List ℕ). r.1) (sym all ∙ read) in
    let head = flash_read_lem start 104 f1 init (omega arith) (omega (arith, room)) in
    let first : copy_out 104 start f1.simulated_flash ≡ take 104 firmware =
      sym (take-copy_out 104 (length firmware) start f1.simulated_flash big)
      ∙ ap (take 104) content in
    (
      f1,
      written,
      head ∙ ap (λ (l : List ℕ). (flash_ok, l)) first,
      read,
      record {
        init = init;
        open_all =
            ap (λ (g : Flash). g.write_protection_enabled) (sym same)
            ∙ (flags.protection ∙ w.open_all);
      },
    )

-- The erasure goes through.
pub erase_lem :
    (fuel start : ℕ) (f : Flash)
    → start + 245760 ≤ 507904
    → 128 < fuel
    → IsOpen f
    → (f1 : Flash) × (flash_erase_range fuel start 245760 f ≡ some (flash_ok, f1)) × IsOpen f1
erase_lem fuel start f room more w =
    let (f1, run, _, _) =
      flash_erase_range_lem fuel start 245760 f w.init w.open_all (omega (arith, room)) more in
    let flags = flash_erase_range-KeepsFlags fuel start 245760 f in
    let same : SameFlags f f1 = rw run at flags in
    (f1, run, record { init = same.init ∙ w.init; open_all = same.protection ∙ w.open_all })

-- Erased bytes
abbrev erased : ℕ → List ℕ
erased zero = []
erased (suc n) = 255 ∷ erased n

copy_out-erased :
    (n a : ℕ) (m : ℕ → ℕ) → ((b : ℕ) → a ≤ b → b < a + n → m b ≡ 255) → copy_out n a m ≡ erased n
unfolding copy_out
copy_out-erased zero a m h = refl
copy_out-erased (suc n) a m h = rw (
  h a (omega arith) (omega arith),
  copy_out-erased n (a + 1) m (λ b ge lt. h b (omega arith) (omega arith)),
)

-- What the bootloader finds in the information that an update saved: its two more fields and its CRC
-- are the CRC of the update and erased bytes.
unfoldable pub found : BootInfo → BootloaderInfo
found c = record {
  common = c;
  boot_attempts = word_of (le32 (crc32_calculate (info_bytes c)));
  last_boot_timestamp = 2 ^ 32 - 1;
  crc32 = 2 ^ 32 - 1;
}

saved_bytes : BootInfo → List ℕ
saved_bytes c = info_bytes c ++ le32 (crc32_calculate (info_bytes c))

saved_bytes-length : (c : BootInfo) → length (saved_bytes c) ≡ 28
unfolding saved_bytes info_bytes
saved_bytes-length c = refl

found_lem : (c : BootInfo) → IsInfo c → bootloader_info_of (saved_bytes c ++ erased 8) ≡ found c
unfolding bootloader_info_of saved_bytes found info_bytes
found_lem c h =
    let common = info_of-info_bytes c (le32 (crc32_calculate (info_bytes c)) ++ erased 8) h in
    λ t. record {
      common = common t;
      boot_attempts = word_of (le32 (crc32_calculate (info_bytes c)));
      last_boot_timestamp = 2 ^ 32 - 1;
      crc32 = 2 ^ 32 - 1;
    }

pub found-IsBootloaderInfo :
    (c : BootInfo) → IsInfo c → c.magic ≡ ota_bootinfo_magic → IsBootloaderInfo (found c)
unfolding found
found-IsBootloaderInfo c h m = record {
  common_ok = h;
  magic_ok = m;
  attempts_u32 = omega arith;
  timestamp_u32 = omega arith;
  crc_u32 = omega arith;
}

-- The 36 bytes that the bootloader reads
read_saved :
    (xs : List ℕ) (f : Flash)
    → length xs ≡ 28
    → IsOpen f
    → flash_read flash_data_start true (length xs) f ≡ (flash_ok, xs)
    → ((a : ℕ)
        → flash_data_start + length xs ≤ a
        → a < flash_data_start + 4096
        → f.simulated_flash a ≡ 255)
    → flash_read flash_data_start true 36 f ≡ (flash_ok, xs ++ erased 8)
read_saved xs f size w read behind =
    let m = f.simulated_flash in
    let all =
      flash_read_lem flash_data_start (length xs) f w.init (omega (arith, size))
        (omega (arith, size)) in
    let first : copy_out 28 flash_data_start m ≡ xs =
      ap (λ (n : ℕ). copy_out n flash_data_start m) (sym size)
      ∙ ap (λ (r : FlashError × List ℕ). r.1) (sym all ∙ read) in
    let rest : copy_out 8 (flash_data_start + 28) m ≡ erased 8 =
      copy_out-erased 8 (flash_data_start + 28) m
        (λ b ge lt. behind b (omega (arith, size, ge)) (omega (arith, lt))) in
    let split = copy_out-append 28 8 flash_data_start m in
    flash_read_lem flash_data_start 36 f w.init (omega arith) (omega arith)
    ∙ ap (λ (l : List ℕ). (flash_ok, l))
        (split
          ∙ (ap (λ (l : List ℕ). l ++ copy_out 8 (flash_data_start + 28) m) first
              ∙ ap (λ (l : List ℕ). xs ++ l) rest))

pub save_lem :
    (s : Ota) (f : Flash)
    → IsOpen f
    → IsInfo s.boot_info
    → s.boot_info.magic ≡ ota_bootinfo_magic
    → (f2 : Flash) × (save_boot_info s f ≡ (ota_ok, f2))
      × IsOpen f2
      × (bootloader_read_boot_info f2 ≡ some (found s.boot_info))
      × SameImages f f2
unfolding save_boot_info saved_bytes
save_lem s f w h m =
    let c = s.boot_info in
    let xs = saved_bytes c in
    let size = saved_bytes-length c in
    let (f1, f2, wiped, written, read, behind, w2) =
      data_sector xs f (omega (arith, size)) (omega (arith, size)) w in
    let before : SameImages f f1 =
      rw wiped at (flash_erase_sector-SameBelow flash_data_start f refl) in
    let after : SameImages f1 f2 = rw written at (flash_write-SameBelow flash_data_start xs f1) in
    (
      f2,
      rw (wiped, written),
      w2,
      read_info (xs ++ erased 8) (found c) f2 (read_saved xs f2 size w2 read behind) (found_lem c h)
          (found-IsBootloaderInfo c h m).magic_ok,
      SameBelow-trans before after,
    )
