-- ===== src/Bootloader/Updates.antt =====
-- An update that succeeds is what the bootloader boots next.
use mathlib.Core.Path.{subst}
use tinyos_rtos.Prelude.{
  ◌⊎◌, inl, inr, ℕ, ◌+◌, ◌<◌, ◌≤◌, ◌≡◌, ◌≢◌, refl, ap, sym, ◌∙◌, Bool, true, false, not, ◌||◌, some,
  List, arith, length, take, leb, ltb, ◌==◌,
}
use tinyos_rtos.Flash.{Flash, flash_ok, flash_read, flash_erase_range}
use tinyos_rtos.Flash.Frame.{flash_read-SameBelow}
use tinyos_rtos.Ota.{app_a, app_b, BootInfo, partition_table, ota_bootinfo_magic}
use tinyos_rtos.Ota.Layout.{IsInfo}
use tinyos_rtos.Ota.Update.{
  Ota, writing, with_info, with_progress, complete, ota_verify_image_header, ota_verify_partition,
  wrote_all, store_image, write_image, ota_start_update_from_buffer,
}
use tinyos_rtos.Ota.{OtaError, ota_ok}
use tinyos_rtos.Bootloader.{
  BootloaderInfo, bootloader_read_boot_info, bootloader_verify_partition, verify_at, header_fits,
}
use tinyos_rtos.Bootloader.Checks.{verify-SameImages}
use tinyos_rtos.Bootloader.Info.{IsOpen}
use tinyos_rtos.Bootloader.Boots.{Jumped, first_boot, pending_boots}
use tinyos_rtos.Bootloader.Saved.{store_lem, erase_lem, found, found-IsBootloaderInfo, save_lem}

known :
    (u : ℕ)
    → (u ≡ app_a) ⊎ (u ≡ app_b)
    → ((partition_table u).start_address + 245760 ≤ 507904)
      × ((partition_table u).size ≡ 245760)
      × (u < 3)
known u (inl e) = rw e (omega arith, refl, omega arith)
known u (inr e) = rw e (omega arith, refl, omega arith)

header_lem :
    (header : List ℕ) → ota_verify_image_header header ≡ ota_ok → header_fits 245760 header ≡ true
unfolding ota_verify_image_header header_fits
header_lem header ok = ground (arith, ok)

-- A partition whose header is in order, for the update and for the bootloader.
pub verified_lem :
    (u : ℕ) (header : List ℕ) (f : Flash)
    → u < 3
    → (partition_table u).size ≡ 245760
    → flash_read (partition_table u).start_address true 104 f ≡ (flash_ok, header)
    → ota_verify_image_header header ≡ ota_ok
    → (ota_verify_partition u f ≡ ota_ok) × (bootloader_verify_partition u f ≡ true)
unfolding ota_verify_partition bootloader_verify_partition verify_at
verified_lem u header f low size read ok =
    let four : leb 4 u ≡ false = ground arith in
    (rw (four, read) ok, rw (four, read, size) (header_lem header ok))

-- The rest of an update whose image was erased for.
store_image_lem :
    (firmware : List ℕ) (s : Ota) (f : Flash)
    → IsOpen f
    → IsInfo s.boot_info
    → s.boot_info.magic ≡ ota_bootinfo_magic
    → (s.update_partition ≡ app_a) ⊎ (s.update_partition ≡ app_b)
    → 104 ≤ length firmware
    → length firmware ≤ 245760
    → ota_verify_image_header (take 104 firmware) ≡ ota_ok
    → (s2 : Ota) × (f2 : Flash) × (store_image firmware s f ≡ (ota_ok, s2, f2))
      × (s2.progress.state ≡ complete)
      × IsOpen f2
      × (s2.boot_info
          ≡ record s.boot_info { pending_partition = s.update_partition; boot_confirmed = false })
      × (bootloader_read_boot_info f2 ≡ some (found s2.boot_info))
      × (bootloader_verify_partition s.update_partition f2 ≡ true)
      × (flash_read (partition_table s.update_partition).start_address true (length firmware) f2
          ≡ (flash_ok, firmware))
unfolding store_image
store_image_lem firmware s f w h m app big small ok =
    let (room, size, low) = known s.update_partition app in
    let start = (partition_table s.update_partition).start_address in
    let (f1, written, read, whole, w1) = store_lem start firmware f room big small w in
    let (ota_fine, boot_fine) =
      verified_lem s.update_partition (take 104 firmware) f1 low size read ok in
    let s1 =
      with_info (wrote_all (length firmware) s)
        (record s.boot_info { pending_partition = s.update_partition; boot_confirmed = false }) in
    let h1 : IsInfo s1.boot_info = ground (arith, h, low) in
    let (f2, saved, w2, found2, same) = save_lem s1 f1 w1 h1 m in
    (
      with_progress s1 (record s1.progress { state = complete }),
      f2,
      rw (written, ota_fine, saved),
      refl,
      w2,
      refl,
      found2,
      verify-SameImages s.update_partition f1 f2 low same ∙ boot_fine,
      flash_read-SameBelow start (length firmware) 507904 f1 f2 same (omega (arith, room, small))
          ∙ whole,
    )

write_image_lem :
    (fuel : ℕ) (firmware : List ℕ) (s : Ota) (f f1 : Flash) (r : OtaError × Ota × Flash)
    → (partition_table s.update_partition).size ≡ 245760
    → flash_erase_range fuel (partition_table s.update_partition).start_address 245760 f
      ≡ some (flash_ok, f1)
    → store_image firmware s f1 ≡ r
    → write_image fuel firmware s f ≡ some r
unfolding write_image
write_image_lem fuel firmware s f f1 r size wiped stored =
    rw (size, wiped) (ap (λ t. some t) stored)

-- The header of the firmware is noted, and the progress.
abbrev begun : List ℕ → Ota → Ota
begun firmware s =
    let s1 = record s { current_header = take 104 firmware } in
    with_progress s1 (record s1.progress {
      state = writing;
      total_bytes = length firmware;
      downloaded_bytes = length firmware;
    })

sizes_lem :
    (b : Bool) (n : ℕ)
    → b ≡ true
    → 104 ≤ n
    → n ≤ 245760
    → ((not b || n == 0) ≡ false) × (ltb 245760 n ≡ false) × (ltb n 104 ≡ false)
sizes_lem b n h big small = (ground (arith, h), ground arith, ground arith)

start_lem :
    (fuel : ℕ) (firmware : List ℕ) (s : Ota) (f : Flash)
    → s.initialized ≡ true
    → 104 ≤ length firmware
    → length firmware ≤ 245760
    → ota_verify_image_header (take 104 firmware) ≡ ota_ok
    → ota_start_update_from_buffer fuel (some firmware) s f
      ≡ write_image fuel firmware (begun firmware s) f
unfolding ota_start_update_from_buffer
start_lem fuel firmware s f init big small ok =
    let (ready, fits, whole) = sizes_lem s.initialized (length firmware) init big small in
    rw (ready, fits, whole, ok)

-- What a successful update leaves, and what happens at the next boot.
pub record Updated (fuel : ℕ) (firmware : List ℕ) (s : Ota) (f : Flash) : Type 0 where
  pub after : Ota
  pub flash : Flash
  pub runs : ota_start_update_from_buffer fuel (some firmware) s f ≡ some (ota_ok, after, flash)
  pub done : after.progress.state ≡ complete
  pub info : BootloaderInfo
  pub info_saved : info.common ≡ after.boot_info
  pub pending : after.boot_info.pending_partition ≡ s.update_partition
  pub unconfirmed : after.boot_info.boot_confirmed ≡ false
  pub image :
      flash_read (partition_table s.update_partition).start_address true (length firmware) flash
      ≡ (flash_ok, firmware)
  pub boots : Jumped flash (partition_table s.update_partition).start_address (first_boot info)

-- An update from a buffer of 104 bytes to 240 KB with a valid header, on open flash, by an initialised
-- update system with valid boot information whose update partition is the application partition that is
-- not active (129 rounds of the erasure are enough): it succeeds and is complete, the partition holds
-- the firmware, byte for byte, and is pending and not confirmed. The bootloader, started on the flash
-- that it leaves, reads this boot information and jumps to the start of that partition, which becomes
-- the active one with one attempt.
pub update_boots :
    (fuel : ℕ) (firmware : List ℕ) (s : Ota) (f : Flash)
    → 128 < fuel
    → s.initialized ≡ true
    → IsOpen f
    → IsInfo s.boot_info
    → s.boot_info.magic ≡ ota_bootinfo_magic
    → (s.update_partition ≡ app_a) ⊎ (s.update_partition ≡ app_b)
    → s.update_partition ≢ s.boot_info.active_partition
    → 104 ≤ length firmware
    → length firmware ≤ 245760
    → ota_verify_image_header (take 104 firmware) ≡ ota_ok
    → Updated fuel firmware s f
unfolding found
update_boots fuel firmware s f more init w h m app differ big small ok =
    let (room, size, low) = known s.update_partition app in
    let start = (partition_table s.update_partition).start_address in
    let (f1, wiped, w1) = erase_lem fuel start f room more w in
    let s2 = begun firmware s in
    let (s3, f3, stored, done, w3, info, reads, fine, image) =
      store_image_lem firmware s2 f1 w1 h m app big small ok in
    let h3 : IsInfo s3.boot_info = rw info (ground (arith, h, low)) in
    let m3 : s3.boot_info.magic ≡ ota_bootinfo_magic = ap (λ (c : BootInfo). c.magic) info ∙ m in
    let pending = ap (λ (c : BootInfo). c.pending_partition) info in
    let active = ap (λ (c : BootInfo). c.active_partition) info in
    let unconfirmed = ap (λ (c : BootInfo). c.boot_confirmed) info in
    record {
      after = s3;
      flash = f3;
      runs =
          start_lem fuel firmware s f init big small ok
          ∙ write_image_lem fuel firmware s2 f f1 (ota_ok, s3, f3) size wiped stored;
      done = done;
      info = found s3.boot_info;
      info_saved = refl;
      pending = pending;
      unconfirmed = unconfirmed;
      image = image;
      boots =
          subst
            (λ (p : ℕ).
              Jumped f3 (partition_table p).start_address (first_boot (found s3.boot_info)))
            pending
            (pending_boots f3 (found s3.boot_info) w3 reads
              (found-IsBootloaderInfo s3.boot_info h3 m3) (λ e. differ (sym pending ∙ (e ∙ active)))
              unconfirmed (rw pending low)
              (ap (λ (p : ℕ). bootloader_verify_partition p f3) pending ∙ fine));
    }
