-- ===== src/Flash.antt =====
-- drivers/flash.c: the flash driver on its simulated flash, with the default `platform_` functions.
-- A buffer is the list of its bytes, and `size` its length; `none` is NULL.
pub mod Bytes
pub mod Guard
pub mod Content
pub mod Frame
mod Tests
use tinyos_rtos.Prelude.{
  ℕ, zero, suc, ◌+◌, ◌-◌, ◌*◌, ◌/◌, ◌%◌, ◌^◌, Bool, true, false, not, ◌&&◌, ◌||◌, Option, none,
  some, List, [], ◌∷◌, ltb, leb, ◌==◌, if◌then◌else◌, update, length,
}
use tinyos_rtos.Prelude.Word.{u32}
unfoldable pub use tinyos_rtos.Prelude.Memory.{copy_out, copy_in}

-- `flash_error_t`
pub data FlashError : Type 0 where
  flash_ok invalid_param not_aligned out_of_range write_protected : FlashError
  erase_failed write_failed verify_failed busy timeout : FlashError

pub record Flash : Type 0 where
  pub simulated_flash : ℕ → ℕ
  pub flash_initialized : Bool
  pub write_protection_enabled : Bool
  pub protected_start : ℕ  -- uint32_t
  pub protected_size : ℕ  -- uint32_t

abbrev flash_total_size : ℕ
flash_total_size = 524288

abbrev pub flash_sector_size : ℕ
flash_sector_size = 4096

abbrev pub is_ok : FlashError → Bool
is_ok flash_ok = true
is_ok _ = false

abbrev pub is_address_valid : ℕ → ℕ → Bool
is_address_valid address size = leb size flash_total_size && leb address (flash_total_size - size)

-- The additions wrap at 32 bits.
abbrev pub is_write_protected_range : Flash → ℕ → ℕ → Bool
is_write_protected_range f address size =
    if not f.write_protection_enabled
    then false
    else not (
        leb (u32 (address + size)) f.protected_start
        || leb (u32 (f.protected_start + f.protected_size)) address)

-- `memset`
pub fill : ℕ → ℕ → ℕ → (ℕ → ℕ) → ℕ → ℕ
fill zero a v m = m
fill (suc n) a v m = fill n (a + 1) v (update m a v)

abbrev pub with_bytes : Flash → (ℕ → ℕ) → Flash
with_bytes f m = record f { simulated_flash = m }

-- The weak `platform_flash_init` returns FLASH_OK.
unfoldable pub flash_init : Flash → FlashError × Flash
flash_init f =
    if f.flash_initialized
    then (flash_ok, f)
    else (flash_ok, record f { simulated_flash = λ a. 255; flash_initialized = true })

-- The bytes read stand for the buffer; `wanted` tells whether it is not NULL. The weak
-- `platform_flash_read` fails, so that the simulated flash is read.
pub flash_read : ℕ → Bool → ℕ → Flash → FlashError × List ℕ
unfolding copy_out
flash_read address wanted size f =
    if not wanted || size == 0
    then (invalid_param, [])
    else (if not f.flash_initialized
        then (invalid_param, [])
        else (if not (is_address_valid address size)
            then (out_of_range, [])
            else (flash_ok, copy_out size address f.simulated_flash)))

unfoldable flash_read_byte : ℕ → Bool → Flash → FlashError × List ℕ
flash_read_byte address wanted f = flash_read address wanted 1 f

unfoldable flash_read_word : ℕ → Bool → Flash → FlashError × List ℕ
unfolding flash_read
flash_read_word address wanted f =
    if not (address % 4 == 0) then (not_aligned, []) else flash_read address wanted 4 f

-- The checks of `flash_write` behind those of the arguments.
pub flash_write : ℕ → Option (List ℕ) → Flash → FlashError × Flash
flash_write address none f = (invalid_param, f)
flash_write address (some buffer) f =
    if length buffer == 0
    then (invalid_param, f)
    else (if not f.flash_initialized
        then (invalid_param, f)
        else (if not (is_address_valid address (length buffer))
            then (out_of_range, f)
            else (if is_write_protected_range f address (length buffer)
                then (write_protected, f)
                else (flash_ok, with_bytes f (copy_in address buffer f.simulated_flash)))))

unfoldable flash_write_byte : ℕ → ℕ → Flash → FlashError × Flash
flash_write_byte address value f = flash_write address (some (value ∷ [])) f

-- A word is its four bytes, the lowest first.
unfoldable flash_write_word : ℕ → ℕ → Flash → FlashError × Flash
unfolding flash_write
flash_write_word address value f =
    if not (address % 4 == 0)
    then (not_aligned, f)
    else flash_write address
        (some (value % 256 ∷ value / 256 % 256 ∷ value / 65536 % 256 ∷ value / 16777216 % 256 ∷ []))
        f

-- `memcmp(a, b, size) == 0`
pub same_bytes : List ℕ → List ℕ → Bool
same_bytes [] ys = true
same_bytes (x ∷ xs) [] = false
same_bytes (x ∷ xs) (y ∷ ys) = (x == y) && same_bytes xs ys

-- `has_memory` tells whether `os_malloc` gives the buffer to compare with.
pub flash_write_verify : Bool → ℕ → List ℕ → Flash → FlashError × Flash
flash_write_verify has_memory address buffer f =
    let (err, f1) = flash_write address (some buffer) f in
    if not (is_ok err)
    then (err, f1)
    else (if not has_memory
        then (verify_failed, f1)
        else (let (err', bytes) = flash_read address true (length buffer) f1 in
            if not (is_ok err')
            then (err', f1)
            else (if same_bytes buffer bytes then (flash_ok, f1) else (verify_failed, f1))))

abbrev pub sector_of : ℕ → ℕ
sector_of address = address / flash_sector_size * flash_sector_size

pub flash_erase_sector : ℕ → Flash → FlashError × Flash
flash_erase_sector address f =
    if not f.flash_initialized
    then (invalid_param, f)
    else (let sector = sector_of address in
        if not (is_address_valid sector flash_sector_size)
        then (out_of_range, f)
        else (if is_write_protected_range f sector flash_sector_size
            then (write_protected, f)
            else (flash_ok, with_bytes f (fill flash_sector_size sector 255 f.simulated_flash))))

-- The loop of `flash_erase_range`, with fuel; `none` says that it ran out.
pub erase_from : ℕ → ℕ → ℕ → Flash → Option (FlashError × Flash)
erase_from zero address end f = none
erase_from (suc fuel) address end f =
    let r = flash_erase_sector address f in
    let rest = erase_from fuel (u32 (address + flash_sector_size)) end r.1 in
    if not (ltb address end) then some (flash_ok, f) else (if is_ok r.0 then rest else some r)

-- The end is rounded up to a sector; both additions wrap at 32 bits.
abbrev pub end_sector : ℕ → ℕ → ℕ
end_sector start size = u32 (u32 (start + size) + 4095) / flash_sector_size * flash_sector_size

pub flash_erase_range : ℕ → ℕ → ℕ → Flash → Option (FlashError × Flash)
flash_erase_range fuel start size f =
    if not f.flash_initialized
    then some (invalid_param, f)
    else erase_from fuel (sector_of start) (end_sector start size) f

pub flash_erase_chip : Flash → FlashError × Flash
flash_erase_chip f =
    if not f.flash_initialized
    then (invalid_param, f)
    else (if f.write_protection_enabled
        then (write_protected, f)
        else (flash_ok, with_bytes f (fill flash_total_size 0 255 f.simulated_flash)))

unfoldable flash_enable_write_protection : ℕ → ℕ → Flash → FlashError × Flash
flash_enable_write_protection start size f =
    if not (is_address_valid start size) then (out_of_range, f) else (
      flash_ok,
      record f { protected_start = start; protected_size = size; write_protection_enabled = true },
    )

unfoldable flash_disable_write_protection : Flash → Flash
flash_disable_write_protection f = record f {
  write_protection_enabled = false;
  protected_start = 0;
  protected_size = 0;
}

unfoldable flash_is_write_protected : ℕ → Flash → Bool
flash_is_write_protected address f =
    if not f.write_protection_enabled
    then false
    else leb f.protected_start address && ltb address (u32 (f.protected_start + f.protected_size))
