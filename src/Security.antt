-- ===== src/Security.antt =====
-- security.c: the memory protection unit. The registers RBAR and RASR are those of the region that RNR
-- selects. The checks of memory accesses and of the boot are stubs in the source that give true.
pub mod Region
mod Tests
use tinyos_rtos.Prelude.{
  ℕ, zero, suc, ◌+◌, ◌-◌, ◌*◌, ◌/◌, ◌%◌, ◌^◌, ◌≡◌, Bool, true, false, not, ◌||◌, Option, none, some,
  ltb, leb, ◌==◌, if◌then◌else◌, update,
}

pub record Mpu : Type 0 where
  pub ctrl : ℕ
  pub rnr : ℕ
  pub rbar : ℕ → ℕ
  pub rasr : ℕ → ℕ

-- `memory_region_t`
pub record MemoryRegion : Type 0 where
  pub start_addr : ℕ
  pub size : ℕ
  pub permissions : ℕ

-- `MPU_CTRL_ENABLE | MPU_CTRL_PRIVDEFENA`, or 0
abbrev pub os_mpu_enable : Bool → Mpu → Mpu
os_mpu_enable enable m = record m { ctrl = if enable then 5 else 0 }

-- The loop that counts `size_bits`, with `32 - size_bits` rounds left.
unfoldable pub count_bits : ℕ → ℕ → ℕ → ℕ
count_bits zero size_bits size = size_bits
count_bits (suc rounds) size_bits size =
    let rest = count_bits rounds (size_bits + 1) size in
    if ltb (2 ^ size_bits) size then rest else size_bits

unfoldable pub size_bits_of : ℕ → ℕ
unfolding count_bits
size_bits_of size = count_bits 32 0 size

-- `permissions & PERM_READ` and `permissions & PERM_WRITE`
abbrev pub may_read : ℕ → Bool
may_read permissions = permissions % 2 == 1

abbrev pub may_write : ℕ → Bool
may_write permissions = permissions / 2 % 2 == 1

-- The access permissions, in bits 24 to 26 of RASR
abbrev pub ap_bits : ℕ → ℕ
ap_bits permissions =
    if permissions == 0
    then 0
    else (if may_write permissions
        then 3 * 2 ^ 24
        else (if may_read permissions then 6 * 2 ^ 24 else 0))

-- The three parts of RASR have different bits, so that `|` adds them.
abbrev pub configure : ℕ → MemoryRegion → ℕ → Mpu → Mpu
configure region_id region size_bits m = record m {
  rnr = region_id;
  rbar = update m.rbar region_id region.start_addr;
  rasr = update m.rasr region_id (1 + (size_bits - 1) * 2 + ap_bits region.permissions);
}

-- `none` is NULL. Whether the call succeeds, which otherwise is OS_ERROR_INVALID_PARAM.
unfoldable pub os_mpu_set_region : ℕ → Option MemoryRegion → Mpu → Bool × Mpu
unfolding size_bits_of
os_mpu_set_region region_id none m = (false, m)
os_mpu_set_region region_id (some region) m =
    let size_bits = size_bits_of region.size in
    if leb 8 region_id || not (region.start_addr % 32 == 0)
    then (false, m)
    else (if ltb size_bits 5 || ltb 31 size_bits
        then (false, m)
        else (true, configure region_id region size_bits m))

abbrev pub flash_region : MemoryRegion
flash_region = record { start_addr = 0; size = 256 * 1024; permissions = 5 }

abbrev pub sram_region : MemoryRegion
sram_region = record { start_addr = 0x20000000; size = 64 * 1024; permissions = 3 }

abbrev pub peripheral_region : MemoryRegion
peripheral_region = record { start_addr = 0x40000000; size = 512 * 1024 * 1024; permissions = 3 }

unfoldable pub os_mpu_configure_default : Mpu → Mpu
unfolding os_mpu_set_region
os_mpu_configure_default m =
    let m0 = (os_mpu_set_region 0 (some flash_region) m).1 in
    let m1 = (os_mpu_set_region 1 (some sram_region) m0).1 in
    let m2 = (os_mpu_set_region 2 (some peripheral_region) m1).1 in os_mpu_enable true m2

-- The verification of the boot always succeeds.
abbrev pub os_security_init : Mpu → Mpu
os_security_init m = os_mpu_configure_default m
