-- ===== src/Ramdisk/Tests.antt =====
-- The theorem on the disk at two blocks.
use tinyos_rtos.Prelude.{ℕ, ◌+◌, ◌*◌, ◌<◌, ◌≡◌, refl, true, ltb, leb, ◌||◌, if◌then◌else◌, arith}
use tinyos_rtos.Ramdisk.{success, Disk, ramdisk_read, ramdisk_write}
use tinyos_rtos.Ramdisk.Content.{ramdisk_write_read}

abbrev zeros : Disk
zeros = record { ramdisk_storage = λ b j. 0; ramdisk_initialized = true }

ramdisk_write_read_example :
    (d' : Disk) × (out : ℕ → ℕ) × (ramdisk_write 254 (λ j. j) 2 zeros ≡ (success, d'))
    × (ramdisk_read 254 (λ j. 7) 2 d' ≡ (success, out))
    × ((j : ℕ) → out j ≡ (if ltb j (2 * 512) then j else 7))
    × ((c j : ℕ) → j < 512 → (ltb c 254 || leb (254 + 2) c) ≡ true → d'.ramdisk_storage c j ≡ 0)
ramdisk_write_read_example = ramdisk_write_read 254 2 (λ j. j) (λ j. 7) zeros refl (omega arith)
