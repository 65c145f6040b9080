-- ===== src/Ramdisk.antt =====
-- drivers/ramdisk.c: a disk of 256 blocks of 512 bytes in memory. The result 0 is `success`, and -1
-- `failure`. A buffer is a function from offsets to bytes.
pub mod Content
mod Tests
use tinyos_rtos.Prelude.{
  ℕ, zero, suc, ◌+◌, ◌-◌, ◌*◌, Bool, true, false, not, ◌&&◌, ◌||◌, ltb, leb, if◌then◌else◌,
}

pub data Status : Type 0 where
  success failure : Status

pub record Disk : Type 0 where
  pub ramdisk_storage : ℕ → ℕ → ℕ
  pub ramdisk_initialized : Bool

abbrev ramdisk_blocks : ℕ
ramdisk_blocks = 256

abbrev pub block_size : ℕ
block_size = 512

-- `count > RAMDISK_BLOCKS || block > RAMDISK_BLOCKS - count`
abbrev pub out_of_bounds : ℕ → ℕ → Bool
out_of_bounds block count = ltb ramdisk_blocks count || ltb (ramdisk_blocks - count) block

-- `memcpy(buffer + i * 512, storage[block + i], 512)` for `n` rounds from `i` on.
pub read_from : ℕ → ℕ → ℕ → (ℕ → ℕ → ℕ) → (ℕ → ℕ) → ℕ → ℕ
read_from zero i block storage buffer = buffer
read_from (suc n) i block storage buffer = read_from n (i + 1) block storage (λ j.
    if leb (i * block_size) j && ltb j (i * block_size + block_size)
    then storage (block + i) (j - i * block_size)
    else buffer j)

pub ramdisk_read : ℕ → (ℕ → ℕ) → ℕ → Disk → Status × (ℕ → ℕ)
ramdisk_read block buffer count d =
    if not d.ramdisk_initialized
    then (failure, buffer)
    else (if out_of_bounds block count
        then (failure, buffer)
        else (success, read_from count 0 block d.ramdisk_storage buffer))

-- A change of the first 512 bytes of one block.
abbrev pub set_block : (ℕ → ℕ → ℕ) → ℕ → (ℕ → ℕ) → ℕ → ℕ → ℕ
set_block storage b bytes c j =
    if leb b c && leb c b && ltb j block_size then bytes j else storage c j

-- `memcpy(storage[block + i], buffer + i * 512, 512)` for `n` rounds from `i` on.
pub write_from : ℕ → ℕ → ℕ → (ℕ → ℕ) → (ℕ → ℕ → ℕ) → ℕ → ℕ → ℕ
write_from zero i block buffer storage = storage
write_from (suc n) i block buffer storage =
    write_from n (i + 1) block buffer
      (set_block storage (block + i) (λ j. buffer (i * block_size + j)))

pub ramdisk_write : ℕ → (ℕ → ℕ) → ℕ → Disk → Status × Disk
ramdisk_write block buffer count d =
    if not d.ramdisk_initialized
    then (failure, d)
    else (if out_of_bounds block count then (failure, d) else (
      success,
      record d { ramdisk_storage = write_from count 0 block buffer d.ramdisk_storage },
    ))

unfoldable pub erase_from : ℕ → ℕ → ℕ → (ℕ → ℕ → ℕ) → ℕ → ℕ → ℕ
erase_from zero i block storage = storage
erase_from (suc n) i block storage =
    erase_from n (i + 1) block (set_block storage (block + i) (λ j. 0))

unfoldable ramdisk_erase : ℕ → ℕ → Disk → Status × Disk
ramdisk_erase block count d =
    if not d.ramdisk_initialized
    then (failure, d)
    else (if out_of_bounds block count
        then (failure, d)
        else (success, record d { ramdisk_storage = erase_from count 0 block d.ramdisk_storage }))

unfoldable ramdisk_init : Disk → Disk
ramdisk_init d = record { ramdisk_storage = λ b j. 0; ramdisk_initialized = true }

-- The state behind `ramdisk_get_device`, which returns a constant table of the functions.
unfoldable ramdisk_get_device : Disk → Disk
ramdisk_get_device d = if not d.ramdisk_initialized then ramdisk_init d else d
