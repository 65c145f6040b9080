-- ===== src/Bootloader/Stages.antt =====
-- The stages of the bootloader on each of their ways.
use tinyos_rtos.Prelude.{
  ◌&&◌, if◌then◌else◌, ◌==◌, ◌<◌, ◌≡◌, ◌≢◌, ap, ◌∙◌, true, false, some, none, arith, if_true,
  if_false,
}
use tinyos_rtos.Bootloader.{
  leb, not, Boot, saved, switched, refused, counted, switch_pending, count_attempt, verify_chosen,
  bootloader_verify_partition, bootloader_handle_boot_failure,
}

pub switch_pending-verified :
    (b : Boot)
    → b.info.common.pending_partition ≢ b.info.common.active_partition
    → b.info.common.boot_confirmed ≡ false
    → bootloader_verify_partition b.info.common.pending_partition b.flash ≡ true
    → switch_pending b ≡ saved (switched b)
unfolding switch_pending
switch_pending-verified b differ open_boot ok =
    let c = b.info.common in
    let now : (not (c.pending_partition == c.active_partition) && not c.boot_confirmed) ≡ true =
      ground (arith, differ, open_boot) in
    let ok' = bootloader_verify_partition c.pending_partition b.flash in
    if_true _ (saved (if ok' then switched b else refused b))
      (record b { partition = c.active_partition }) now
    ∙ ap saved (if_true ok' (switched b) (refused b) ok)

pub switch_pending-none :
    (b : Boot)
    → b.info.common.pending_partition ≡ b.info.common.active_partition
    → switch_pending b ≡ record b { partition = b.info.common.active_partition }
unfolding switch_pending
switch_pending-none b same =
    let c = b.info.common in
    let idle : (not (c.pending_partition == c.active_partition) && not c.boot_confirmed) ≡ false =
      ground (arith, same) in
    let ok = bootloader_verify_partition c.pending_partition b.flash in
    if_false _ (saved (if ok then switched b else refused b))
      (record b { partition = c.active_partition }) idle

pub count_attempt-again :
    (b : Boot)
    → b.info.common.boot_confirmed ≡ false
    → b.info.boot_attempts < 2
    → count_attempt b ≡ some (saved (counted b))
unfolding count_attempt
count_attempt-again b open_boot few =
    let low : leb 3 (counted b).info.boot_attempts ≡ false = ground arith in
    let back =
      if b.info.common.rollback_enabled
      then some (saved (bootloader_handle_boot_failure (counted b)))
      else none in
    if_false _ (some b) _ open_boot ∙ if_false _ back (some (saved (counted b))) low

pub count_attempt-rollback :
    (b : Boot)
    → b.info.common.boot_confirmed ≡ false
    → b.info.boot_attempts ≡ 2
    → b.info.common.rollback_enabled ≡ true
    → count_attempt b ≡ some (saved (bootloader_handle_boot_failure (counted b)))
unfolding count_attempt
count_attempt-rollback b open_boot two enabled =
    let many : leb 3 (counted b).info.boot_attempts ≡ true = ground (arith, two) in
    let rolled = some (saved (bootloader_handle_boot_failure (counted b))) in
    let back = if b.info.common.rollback_enabled then rolled else none in
    if_false _ (some b) _ open_boot
    ∙ (if_true _ back (some (saved (counted b))) many ∙ if_true _ rolled none enabled)

pub verify_chosen-first :
    (b : Boot) → bootloader_verify_partition b.partition b.flash ≡ true → verify_chosen b ≡ some b
unfolding verify_chosen
verify_chosen-first b ok = if_true _ (some b) _ ok
