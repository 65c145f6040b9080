-- ===== src/Ota.antt =====
-- ota.c: firmware updates on the flash. A callback is code of the application, taken to leave the state
-- of the updates alone; its calls are not recorded.
pub mod Layout
pub mod Update
use Prim.Native.Nat.{bit_xor}
use tinyos_rtos.Prelude.{
  ℕ, zero, suc, ◌+◌, ◌-◌, ◌*◌, ◌/◌, ◌%◌, ◌^◌, Bool, true, false, not, ◌||◌, Option, none, some,
  List, [], ◌∷◌, ◌++◌, ltb, leb, ◌==◌, if◌then◌else◌, length, take, drop,
}

-- `ota_error_t`
pub data OtaError : Type 0 where
  ota_ok invalid_param not_initialized flash_error download_failed verification_failed : OtaError
  no_space invalid_image rollback_failed timeout network busy : OtaError

-- `ota_partition_type_t`
abbrev pub bootloader_partition : ℕ
bootloader_partition = 0

abbrev pub app_a : ℕ
app_a = 1

abbrev pub app_b : ℕ
app_b = 2

abbrev pub data_partition : ℕ
data_partition = 3

-- The part of `ota_partition_info_t` that is read; the rest of the table is constant.
pub record PartitionInfo : Type 0 where
  pub start_address : ℕ
  pub size : ℕ

abbrev pub partition_table : ℕ → PartitionInfo
partition_table zero = record { start_address = 0; size = 16384 }
partition_table (suc zero) = record { start_address = 0x4000; size = 245760 }
partition_table (suc (suc zero)) = record { start_address = 0x40000; size = 245760 }
partition_table (suc (suc (suc n))) = record { start_address = 0x7C000; size = 16384 }

-- `none` for OTA_ERROR_INVALID_PARAM
abbrev pub ota_get_partition_info : ℕ → Option PartitionInfo
ota_get_partition_info type = if leb 4 type then none else some (partition_table type)

abbrev pub flash_data_start : ℕ
flash_data_start = 0x7C000

-- A uint32_t in memory, the lowest byte first.
abbrev pub le32 : ℕ → List ℕ
le32 n = n % 256 ∷ n / 256 % 256 ∷ n / 65536 % 256 ∷ n / 16777216 % 256 ∷ []

abbrev pub word_of : List ℕ → ℕ
word_of [] = 0
word_of (a ∷ []) = 0
word_of (a ∷ b ∷ []) = 0
word_of (a ∷ b ∷ c ∷ []) = 0
word_of (a ∷ b ∷ c ∷ d ∷ rest) = a + b * 256 + c * 65536 + d * 16777216

-- A bool in memory
abbrev pub bool_byte : Bool → ℕ
bool_byte false = 0
bool_byte true = 1

abbrev pub flag_of : List ℕ → Bool
flag_of [] = false
flag_of (b ∷ rest) = not (b == 0)

-- The fields that `boot_info_t` shares with the `bootloader_boot_info_t` of the bootloader.
pub record BootInfo : Type 0 where
  pub magic : ℕ
  pub active_partition : ℕ
  pub pending_partition : ℕ
  pub boot_count : ℕ
  pub rollback_count : ℕ
  pub rollback_enabled : Bool
  pub boot_confirmed : Bool

abbrev pub ota_bootinfo_magic : ℕ
ota_bootinfo_magic = 0x424F4F54

-- The first 24 bytes of both structures; the last two are padding.
unfoldable pub info_bytes : BootInfo → List ℕ
info_bytes i =
    le32 i.magic
    ++ (le32 i.active_partition
        ++ (le32 i.pending_partition
            ++ (le32 i.boot_count
                ++ (le32 i.rollback_count
                    ++ (bool_byte i.rollback_enabled ∷ bool_byte i.boot_confirmed ∷ 0 ∷ 0 ∷ [])))))

unfoldable pub info_of : List ℕ → BootInfo
info_of bytes = record {
  magic = word_of bytes;
  active_partition = word_of (drop 4 bytes);
  pending_partition = word_of (drop 8 bytes);
  boot_count = word_of (drop 12 bytes);
  rollback_count = word_of (drop 16 bytes);
  rollback_enabled = flag_of (drop 20 bytes);
  boot_confirmed = flag_of (drop 21 bytes);
}

-- The fields of `ota_image_header_t`, 104 bytes, that are checked.
abbrev pub header_magic : List ℕ → ℕ
header_magic bytes = word_of bytes

abbrev pub header_image_size : List ℕ → ℕ
header_image_size bytes = word_of (drop 40 bytes)

-- One step of the table of crc32_init_table, and an entry of it
abbrev pub crc_shift : ℕ → ℕ
crc_shift crc = if crc % 2 == 1 then bit_xor (crc / 2) 0xEDB88320 else crc / 2

unfoldable pub crc_entry : ℕ → ℕ → ℕ
crc_entry zero crc = crc
crc_entry (suc n) crc = crc_entry n (crc_shift crc)

unfoldable pub crc_loop : ℕ → List ℕ → ℕ
unfolding crc_entry
crc_loop crc [] = crc
crc_loop crc (byte ∷ bytes) =
    crc_loop (bit_xor (crc / 256) (crc_entry 8 (bit_xor crc byte % 256))) bytes

unfoldable pub crc32_calculate : List ℕ → ℕ
unfolding crc_loop
crc32_calculate bytes = 2 ^ 32 - 1 - crc_loop (2 ^ 32 - 1) bytes
