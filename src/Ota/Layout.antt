-- ===== src/Ota/Layout.antt =====
-- The boot information in memory is read back.
use tinyos_rtos.Prelude.{ℕ, ◌^◌, ◌<◌, ◌≡◌, refl, Bool, true, false, List, [], ◌∷◌, ◌++◌, arith}
use tinyos_rtos.Ota.{le32, word_of, bool_byte, flag_of, BootInfo, info_bytes, info_of}

-- The numbers are uint32_t.
pub record IsInfo (i : BootInfo) : Type 0 where
  pub magic_u32 : i.magic < 2 ^ 32
  pub active_u32 : i.active_partition < 2 ^ 32
  pub pending_u32 : i.pending_partition < 2 ^ 32
  pub boot_count_u32 : i.boot_count < 2 ^ 32
  pub rollback_count_u32 : i.rollback_count < 2 ^ 32

pub word_of-le32 : (n : ℕ) (rest : List ℕ) → n < 2 ^ 32 → word_of (le32 n ++ rest) ≡ n
word_of-le32 n rest h = omega arith

pub flag_of-bool_byte : (b : Bool) (rest : List ℕ) → flag_of (bool_byte b ∷ rest) ≡ b
flag_of-bool_byte true rest = refl
flag_of-bool_byte false rest = refl

pub info_of-info_bytes :
    (i : BootInfo) (rest : List ℕ) → IsInfo i → info_of (info_bytes i ++ rest) ≡ i
unfolding info_of info_bytes
info_of-info_bytes i rest h =
    let magic = word_of-le32 i.magic [] h.magic_u32 in
    let active = word_of-le32 i.active_partition [] h.active_u32 in
    let pending = word_of-le32 i.pending_partition [] h.pending_u32 in
    let boots = word_of-le32 i.boot_count [] h.boot_count_u32 in
    let rollbacks = word_of-le32 i.rollback_count [] h.rollback_count_u32 in
    let enabled = flag_of-bool_byte i.rollback_enabled [] in
    let confirmed = flag_of-bool_byte i.boot_confirmed [] in
    λ t. record {
      magic = magic t;
      active_partition = active t;
      pending_partition = pending t;
      boot_count = boots t;
      rollback_count = rollbacks t;
      rollback_enabled = enabled t;
      boot_confirmed = confirmed t;
    }
