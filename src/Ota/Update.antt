-- ===== src/Ota/Update.antt =====
-- ota.c: the calls that update, verify, roll back and confirm.
use tinyos_rtos.Prelude.{
  ℕ, ◌+◌, ◌*◌, ◌/◌, Bool, true, false, not, ◌&&◌, ◌||◌, Option, none, some, List, ◌++◌, ltb, leb,
  ◌==◌, if◌then◌else◌, length, take, ◌>>=◌,
}
use tinyos_rtos.Prelude.Word.{u8, u32}
use tinyos_rtos.Flash.{
  Flash, is_ok, flash_init, flash_read, flash_write, flash_erase_sector, flash_erase_range,
}
use tinyos_rtos.Ota.{
  OtaError, ota_ok, invalid_param, not_initialized, flash_error, no_space, invalid_image, app_a,
  app_b, partition_table, flash_data_start, le32, BootInfo, info_bytes, info_of, ota_bootinfo_magic,
  header_magic, header_image_size, crc32_calculate,
}

-- `ota_state_t`
pub data UpdateState : Type 0 where
  idle downloading verifying writing complete failed rolling_back : UpdateState

abbrev pub is_complete : UpdateState → Bool
is_complete complete = true
is_complete _ = false

-- `ota_progress_t`
pub record Progress : Type 0 where
  pub state : UpdateState
  pub total_bytes : ℕ
  pub downloaded_bytes : ℕ
  pub written_bytes : ℕ
  pub progress_percent : ℕ
  pub last_error : OtaError

-- The static struct `ota_state`, less the configuration and the callback; `current_header` is the list
-- of its bytes, and the CRC of `boot_info` is computed when it is saved.
pub record Ota : Type 0 where
  pub initialized : Bool
  pub progress : Progress
  pub running_partition : ℕ
  pub update_partition : ℕ
  pub boot_info : BootInfo
  pub current_header : List ℕ

abbrev pub with_info : Ota → BootInfo → Ota
with_info s i = record s { boot_info = i }

abbrev pub with_progress : Ota → Progress → Ota
with_progress s p = record s { progress = p }

-- Erase, then write.
unfoldable pub save_boot_info : Ota → Flash → OtaError × Flash
save_boot_info s f =
    let common = info_bytes s.boot_info in
    let (erased, f1) = flash_erase_sector flash_data_start f in
    if not (is_ok erased)
    then (flash_error, f1)
    else (let (written, f2) =
          flash_write flash_data_start (some (common ++ le32 (crc32_calculate common))) f1 in
        if not (is_ok written) then (flash_error, f2) else (ota_ok, f2))

abbrev pub default_info : BootInfo
default_info = record {
  magic = ota_bootinfo_magic;
  active_partition = app_a;
  pending_partition = app_a;
  boot_count = 0;
  rollback_count = 0;
  rollback_enabled = true;
  boot_confirmed = true;
}

unfoldable pub load_boot_info : Ota → Flash → OtaError × Ota × Flash
unfolding save_boot_info
load_boot_info s f =
    let (err, bytes) = flash_read flash_data_start true 28 f in
    if not (is_ok err)
    then (flash_error, s, f)
    else (if not ((info_of bytes).magic == ota_bootinfo_magic)
        then (let s1 = with_info s default_info in
            let (saved, f1) = save_boot_info s1 f in (saved, s1, f1))
        else (ota_ok, with_info s (info_of bytes), f))

abbrev pub is_ota_ok : OtaError → Bool
is_ota_ok ota_ok = true
is_ota_ok _ = false

abbrev pub other_app : ℕ → ℕ
other_app p = if p == app_a then app_b else app_a

abbrev pub no_progress : Progress
no_progress = record {
  state = idle;
  total_bytes = 0;
  downloaded_bytes = 0;
  written_bytes = 0;
  progress_percent = 0;
  last_error = ota_ok;
}

unfoldable pub ota_init : Ota → Flash → OtaError × Ota × Flash
unfolding load_boot_info
ota_init s f =
    if s.initialized
    then (ota_ok, s, f)
    else (let (err, s1, f1) = load_boot_info s (flash_init f).1 in
        if not (is_ota_ok err) then (err, s1, f1) else (
          ota_ok,
          record s1 {
            running_partition = s1.boot_info.active_partition;
            update_partition = other_app s1.boot_info.active_partition;
            progress = no_progress;
            initialized = true;
          },
          f1,
        ))

unfoldable pub ota_verify_image_header : List ℕ → OtaError
ota_verify_image_header header =
    if not (header_magic header == 0x544F5346)
    then invalid_image
    else (if header_image_size header == 0 || ltb 245760 (header_image_size header)
        then invalid_image
        else ota_ok)

unfoldable pub ota_verify_partition : ℕ → Flash → OtaError
unfolding ota_verify_image_header
ota_verify_partition type f =
    if leb 4 type
    then invalid_param
    else (let (err, bytes) = flash_read (partition_table type).start_address true 104 f in
        if not (is_ok err) then flash_error else ota_verify_image_header bytes)

-- A failure notes its error.
abbrev pub failed_with : OtaError → Ota → Ota
failed_with e s = with_progress s (record s.progress { state = failed; last_error = e })

-- The end of an update, behind a verification without an error: the new partition is pending, and what
-- `save_boot_info` answers is ignored.
abbrev pub completed : Ota → Flash → Ota × Flash
completed s f =
    let s1 =
      with_info s
        (record s.boot_info { pending_partition = s.update_partition; boot_confirmed = false }) in
    let f1 = (save_boot_info s1 f).1 in
    (with_progress s1 (record s1.progress { state = complete }), f1)

abbrev pub wrote_all : ℕ → Ota → Ota
wrote_all size s =
    with_progress s
      (record s.progress { state = verifying; written_bytes = size; progress_percent = 100 })

-- The image is written and verified.
unfoldable pub store_image : List ℕ → Ota → Flash → OtaError × Ota × Flash
store_image firmware s f =
    let (written, f1) =
      flash_write (partition_table s.update_partition).start_address (some firmware) f in
    if not (is_ok written)
    then (flash_error, failed_with flash_error s, f1)
    else (let s1 = wrote_all (length firmware) s in
        let err = ota_verify_partition s1.update_partition f1 in
        if not (is_ota_ok err)
        then (err, failed_with err s1, f1)
        else (let (s2, f2) = completed s1 f1 in (ota_ok, s2, f2)))

-- The partition is erased first; the update partition is one of the table.
unfoldable pub write_image : ℕ → List ℕ → Ota → Flash → Option (OtaError × Ota × Flash)
unfolding store_image
write_image fuel firmware s f =
    let p = partition_table s.update_partition in
    flash_erase_range fuel p.start_address p.size f >>= λ (erased, f1).
    if not (is_ok erased)
    then some (flash_error, failed_with flash_error s, f1)
    else some (store_image firmware s f1)

-- With fuel for the erasure. The header is the first 104 bytes of the firmware.
unfoldable pub ota_start_update_from_buffer :
    ℕ → Option (List ℕ) → Ota → Flash → Option (OtaError × Ota × Flash)
ota_start_update_from_buffer fuel none s f = some (invalid_param, s, f)
ota_start_update_from_buffer fuel (some firmware) s f =
    let size = length firmware in
    if not s.initialized || size == 0
    then some (invalid_param, s, f)
    else (if ltb 245760 size
        then some (no_space, s, f)
        else (if ltb size 104
            then some (invalid_image, failed_with invalid_image s, f)
            else (let s1 = record s { current_header = take 104 firmware } in
                let err = ota_verify_image_header (take 104 firmware) in
                if not (is_ota_ok err)
                then some (err, failed_with err s1, f)
                else write_image fuel firmware
                    (with_progress s1 (record s1.progress {
                      state = writing;
                      total_bytes = size;
                      downloaded_bytes = size;
                    }))
                    f)))

-- Sizes and offsets are uint32_t.
unfoldable pub ota_write_chunk : Option (List ℕ) → ℕ → Ota → Flash → OtaError × Ota × Flash
ota_write_chunk none offset s f = (invalid_param, s, f)
ota_write_chunk (some bytes) offset s f =
    let p = partition_table s.update_partition in
    if not s.initialized
    then (invalid_param, s, f)
    else (if ltb p.size (u32 (offset + length bytes))
        then (no_space, s, f)
        else (let (written, f1) = flash_write (u32 (p.start_address + offset)) (some bytes) f in
            if not (is_ok written)
            then (flash_error, s, f1)
            else (let n = u32 (s.progress.written_bytes + length bytes) in
                let total = s.progress.total_bytes in
                (
                  ota_ok,
                  with_progress s (record s.progress {
                    written_bytes = n;
                    progress_percent =
                        if ltb 0 total
                        then u8 (u32 (n * 100) / total)
                        else s.progress.progress_percent;
                  }),
                  f1,
                ))))

unfoldable pub ota_set_boot_partition : ℕ → Ota → Flash → OtaError × Ota × Flash
ota_set_boot_partition type s f =
    if leb 4 type
    then (invalid_param, s, f)
    else (let s1 =
          with_info s (record s.boot_info { pending_partition = type; boot_confirmed = false }) in
        let (err, f1) = save_boot_info s1 f in (err, s1, f1))

unfoldable pub ota_finalize_update : Ota → Flash → OtaError × Ota × Flash
unfolding ota_set_boot_partition
ota_finalize_update s f =
    if not s.initialized
    then (not_initialized, s, f)
    else (if not (is_complete s.progress.state)
        then (invalid_param, s, f)
        else ota_set_boot_partition s.update_partition s f)

-- `last_error` stays.
unfoldable pub ota_abort_update : Ota → OtaError × Ota
ota_abort_update s =
    if not s.initialized
    then (not_initialized, s)
    else (ota_ok, with_progress s (record no_progress { last_error = s.progress.last_error }))

-- `ota_reboot` only prints.
unfoldable pub ota_rollback : Ota → Flash → OtaError × Ota × Flash
ota_rollback s f =
    if not s.initialized
    then (not_initialized, s, f)
    else (let p = other_app s.running_partition in
        let s1 = with_info s (record s.boot_info {
          active_partition = p;
          pending_partition = p;
          boot_confirmed = true;
          rollback_count = u32 (s.boot_info.rollback_count + 1);
        }) in
        (ota_ok, s1, (save_boot_info s1 f).1))

unfoldable pub ota_confirm_boot : Ota → Flash → OtaError × Ota × Flash
ota_confirm_boot s f =
    if not s.initialized
    then (not_initialized, s, f)
    else (let s1 =
          with_info s (record s.boot_info {
            boot_confirmed = true;
            active_partition = s.running_partition;
          }) in
        let (err, f1) = save_boot_info s1 f in (err, s1, f1))

abbrev pub ota_is_rollback_needed : Ota → Bool
ota_is_rollback_needed s =
    s.initialized && (not s.boot_info.boot_confirmed && s.boot_info.rollback_enabled)
