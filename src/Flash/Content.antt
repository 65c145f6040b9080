-- ===== src/Flash/Content.antt =====
-- What is written is read, and what is erased is 0xFF.
use tinyos_rtos.Prelude.{
  ℕ, zero, suc, ◌+◌, ◌-◌, ◌*◌, ◌/◌, ◌≤◌, ◌<◌, ◌≡◌, true, false, some, List, arith, length, ltb, leb,
  ◌||◌, ◌&&◌, if◌then◌else◌,
}
use tinyos_rtos.Prelude.Word.{u32}
use tinyos_rtos.Flash.{
  flash_ok, Flash, is_address_valid, is_write_protected_range, copy_in, fill, with_bytes, sector_of,
  end_sector, flash_read, flash_write, flash_write_verify, flash_erase_sector, erase_from,
  flash_erase_range,
}
use tinyos_rtos.Flash.Bytes.{copy_in-outside, copy_out-copy_in, fill-at, same_bytes_refl}

-- A buffer that is not empty, written on initialised flash within its size and outside the protected
-- range: the write succeeds, reading the same range gives the buffer, the other bytes stay, and the
-- write with verification has the same effect and succeeds if there is memory for it.
pub write_read :
    (address : ℕ) (xs : List ℕ) (f : Flash)
    → f.flash_initialized ≡ true
    → 0 < length xs
    → address + length xs ≤ 524288
    → is_write_protected_range f address (length xs) ≡ false
    → (f' : Flash) × (flash_write address (some xs) f ≡ (flash_ok, f'))
      × (flash_read address true (length xs) f' ≡ (flash_ok, xs))
      × ((a : ℕ)
          → (ltb a address || leb (address + length xs) a) ≡ true
          → f'.simulated_flash a ≡ f.simulated_flash a)
      × (flash_write_verify true address xs f ≡ (flash_ok, f'))
unfolding flash_write flash_read flash_write_verify
write_read address xs f init some_bytes fits free =
    let f' = with_bytes f (copy_in address xs f.simulated_flash) in
    let valid : is_address_valid address (length xs) ≡ true = ground arith in
    let written : flash_write address (some xs) f ≡ (flash_ok, f') =
      ground (arith, init, valid, free) in
    let back = copy_out-copy_in address xs f.simulated_flash in
    let read : flash_read address true (length xs) f' ≡ (flash_ok, xs) =
      ground (arith, init, valid, back) in
    (
      f',
      written,
      read,
      λ a out. copy_in-outside address xs f.simulated_flash a out,
      ground (arith, written, read, same_bytes_refl xs),
    )

-- One sector on unprotected flash.
pub sector_erased :
    (k : ℕ) (f : Flash)
    → f.flash_initialized ≡ true
    → f.write_protection_enabled ≡ false
    → k < 128
    → flash_erase_sector (k * 4096) f
      ≡ (flash_ok, with_bytes f (fill 4096 (k * 4096) 255 f.simulated_flash))
unfolding flash_erase_sector
sector_erased k f init off lt =
    let same : sector_of (k * 4096) ≡ k * 4096 = omega arith in ground (arith, same, init, off)

-- `n` sectors from sector `k` on.
erase_from_lem :
    (fuel n k : ℕ) (f : Flash)
    → f.flash_initialized ≡ true
    → f.write_protection_enabled ≡ false
    → k + n ≤ 128
    → n < fuel
    → (f' : Flash) × (erase_from fuel (k * 4096) ((k + n) * 4096) f ≡ some (flash_ok, f'))
      × ((a : ℕ)
          → f'.simulated_flash a
            ≡ (if leb (k * 4096) a && ltb a ((k + n) * 4096) then 255 else f.simulated_flash a))
unfolding erase_from
erase_from_lem zero n k f init off fits more = absurd (omega arith)
erase_from_lem (suc fuel) zero k f init off fits more =
    let e : ltb (k * 4096) ((k + 0) * 4096) ≡ false = ground arith in (f, rw e, λ a. ground arith)
erase_from_lem (suc fuel) (suc n) k f init off fits more =
    let f1 = with_bytes f (fill 4096 (k * 4096) 255 f.simulated_flash) in
    let (f', run, bytes) = erase_from_lem fuel n (k + 1) f1 init off (omega arith) (omega arith) in
    let on : ltb (k * 4096) ((k + suc n) * 4096) ≡ true = ground arith in
    let step = sector_erased k f init off (omega arith) in
    let next : u32 (k * 4096 + 4096) ≡ (k + 1) * 4096 = omega arith in
    let end : (k + suc n) * 4096 ≡ (k + 1 + n) * 4096 = omega arith in
    (
      f',
      rw (on, step, next, end) run,
      λ a. ground (arith, bytes a, fill-at 4096 (k * 4096) 255 f.simulated_flash a),
    )

-- On initialised flash without protection, the erasure of a range within its size succeeds (129 rounds
-- of the loop are enough): the sectors that the range touches hold 0xFF, and so does every byte of the
-- range; the other bytes stay.
pub flash_erase_range_lem :
    (fuel start size : ℕ) (f : Flash)
    → f.flash_initialized ≡ true
    → f.write_protection_enabled ≡ false
    → start + size ≤ 524288
    → 128 < fuel
    → (f' : Flash) × (flash_erase_range fuel start size f ≡ some (flash_ok, f'))
      × ((a : ℕ) → start ≤ a → a < start + size → f'.simulated_flash a ≡ 255)
      × ((a : ℕ)
          → f'.simulated_flash a ≡ (
              if leb (start / 4096 * 4096) a && ltb a ((start + size + 4095) / 4096 * 4096)
              then 255
              else f.simulated_flash a))
unfolding flash_erase_range
flash_erase_range_lem fuel start size f init off fits more =
    let k = start / 4096 in
    let n = (start + size + 4095) / 4096 - k in
    let (f', run, bytes) = erase_from_lem fuel n k f init off (omega arith) (omega arith) in
    let end : end_sector start size ≡ (k + n) * 4096 = omega arith in
    let end' : (start + size + 4095) / 4096 * 4096 ≡ (k + n) * 4096 = omega arith in
    (f', ground (arith, init, end, run), λ a ge lt. ground (arith, bytes a), λ a. rw end' (bytes a))
