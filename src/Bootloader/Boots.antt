-- ===== src/Bootloader/Boots.antt =====
-- Runs of the bootloader: a pending update, and a boot that is not confirmed.
use mathlib.Core.Path.{subst}
use tinyos_rtos.Prelude.{
  sym, ◌≢◌, ◌≢◌, ◌+◌, if_false, if_true, ℕ, ◌<◌, ◌≡◌, refl, ap, ◌∙◌, true, false, Option, none,
  some, arith, leb, ◌>>=◌,
}
use tinyos_rtos.Flash.{flash_ok, Flash, flash_init}
use tinyos_rtos.Ota.{partition_table}
use tinyos_rtos.Bootloader.{
  counted, switched, other_app, u32, with_common, saved, address_of, FlashError, Boot,
  BootloaderInfo, bootloader_read_boot_info, boot_counted, load, load_from, switch_pending,
  count_attempt, verify_chosen, jump_of, bootloader_main, bootloader_verify_partition,
}
use tinyos_rtos.Bootloader.Info.{IsOpen, IsBootloaderInfo, write_read_info, write-IsOpen}
use tinyos_rtos.Bootloader.Checks.{SameImages, write-SameImages, verify-SameImages}
use tinyos_rtos.Flash.Frame.{SameBelow-trans, SameBelow-refl}
use tinyos_rtos.Ota.Update.{other_app}
use tinyos_rtos.Bootloader.{switched, counted, bootloader_handle_boot_failure}
use tinyos_rtos.Bootloader.Stages.{
  switch_pending-verified, count_attempt-again, count_attempt-rollback, switch_pending-none,
  verify_chosen-first,
}

flash_init_lem : (f : Flash) → f.flash_initialized ≡ true → (flash_init f).1 ≡ f
unfolding flash_init
flash_init_lem f init = ap (λ (r : FlashError × Flash). r.1) (if_true _ (flash_ok, f) _ init)

load_from_lem :
    (f : Flash) (i : BootloaderInfo)
    → load_from f (some i) ≡ record { info = i; partition = i.common.active_partition; flash = f }
unfolding load_from
load_from_lem f i = refl

jump_to :
    (b : Boot) → b.partition < 3 → jump_of b ≡ some (partition_table b.partition).start_address
unfolding jump_of
jump_to b low =
    let known : leb 4 b.partition ≡ false = ground arith in
    ap address_of (if_false _ none (some (partition_table b.partition)) known)

-- The stages put together: the boot ends with a jump.
run_stages :
    (f : Flash) (i : BootloaderInfo) (b1 b2 : Boot)
    → f.flash_initialized ≡ true
    → bootloader_read_boot_info f ≡ some i
    → switch_pending (record { info = i; partition = i.common.active_partition; flash = f }) ≡ b1
    → count_attempt b1 ≡ some b2
    → b2.partition < 3
    → bootloader_verify_partition b2.partition b2.flash ≡ true
    → bootloader_main f ≡ some (some (partition_table b2.partition).start_address, boot_counted b2)
unfolding bootloader_main
run_stages f i b1 b2 init read e1 e2 low ok =
    let tail = λ (b : Boot). some (jump_of (boot_counted b), boot_counted b) in
    let counts : count_attempt (switch_pending (load (flash_init f).1)) ≡ some b2 =
      ap (λ (g : Flash). count_attempt (switch_pending (load g))) (flash_init_lem f init)
      ∙ (ap (λ (o : Option BootloaderInfo). count_attempt (switch_pending (load_from f o))) read
          ∙ (ap (λ (b : Boot). count_attempt (switch_pending b)) (load_from_lem f i)
              ∙ (ap count_attempt e1 ∙ e2))) in
    ap (λ (o : Option Boot). o >>= λ b. verify_chosen b >>= tail) counts
    ∙ (ap (λ (o : Option Boot). o >>= tail) (verify_chosen-first b2 ok)
        ∙ ap (λ (j : Option ℕ). some (j, boot_counted b2)) (jump_to (boot_counted b2) low))

-- The bootloader jumped to `address`; the flash it leaves is open, has the same images, and holds the
-- boot information `j`.
pub record Jumped (f : Flash) (address : ℕ) (j : BootloaderInfo) : Type 0 where
  pub boot : Boot
  pub runs : bootloader_main f ≡ some (some address, boot)
  pub open_after : IsOpen boot.flash
  pub reads : bootloader_read_boot_info boot.flash ≡ some j
  pub images : SameImages f boot.flash

-- The flash of a stage.
Stands : Flash → Boot → Type 0
Stands f b = IsOpen b.flash × SameImages f b.flash

saved-Stands : (f : Flash) (b : Boot) → Stands f b → Stands f (saved b)
unfolding Stands
saved-Stands f b (w, s) =
    (write-IsOpen b.info b.flash w, SameBelow-trans s (write-SameImages b.info b.flash))

-- The last write.
jumped :
    (f : Flash) (b : Boot)
    → bootloader_main f ≡ some (some (partition_table b.partition).start_address, boot_counted b)
    → Stands f b
    → IsBootloaderInfo (boot_counted b).info
    → Jumped f (partition_table b.partition).start_address (boot_counted b).info
unfolding Stands
jumped f b runs (w, s) h =
    let (w', read) = write_read_info (boot_counted b).info b.flash h w in
    record {
      boot = boot_counted b;
      runs = runs;
      open_after = w';
      reads = read;
      images = SameBelow-trans s (write-SameImages (boot_counted b).info b.flash);
    }

-- The boot counter of some information
abbrev pub once_more : BootloaderInfo → BootloaderInfo
once_more i = with_common i (record i.common { boot_count = u32 (i.common.boot_count + 1) })

-- The first boot of an update, and a later one.
abbrev pub first_boot : BootloaderInfo → BootloaderInfo
first_boot i = once_more (record i {
  common = record i.common { active_partition = i.common.pending_partition };
  boot_attempts = 1;
})

abbrev pub later_boot : BootloaderInfo → BootloaderInfo
later_boot i = once_more (record i { boot_attempts = u32 (i.boot_attempts + 1) })

abbrev pub rolled_back : BootloaderInfo → BootloaderInfo
rolled_back i = once_more (record i {
  common = record i.common {
    rollback_count = u32 (i.common.rollback_count + 1);
    active_partition = other_app i.common.active_partition;
    pending_partition = other_app i.common.active_partition;
    boot_confirmed = true;
  };
  boot_attempts = 0;
})

first_boot-IsBootloaderInfo :
    (i : BootloaderInfo) → IsBootloaderInfo i → IsBootloaderInfo (first_boot i)
first_boot-IsBootloaderInfo i h = ground (arith, h)

later_boot-IsBootloaderInfo :
    (i : BootloaderInfo) → IsBootloaderInfo i → IsBootloaderInfo (later_boot i)
later_boot-IsBootloaderInfo i h = ground (arith, h)

rolled_back-IsBootloaderInfo :
    (i : BootloaderInfo)
    → IsBootloaderInfo i
    → other_app i.common.active_partition < 3
    → IsBootloaderInfo (rolled_back i)
rolled_back-IsBootloaderInfo i h low = ground (arith, h)

pub pending_boots :
    (f : Flash) (i : BootloaderInfo)
    → IsOpen f
    → bootloader_read_boot_info f ≡ some i
    → IsBootloaderInfo i
    → i.common.pending_partition ≢ i.common.active_partition
    → i.common.boot_confirmed ≡ false
    → i.common.pending_partition < 3
    → bootloader_verify_partition i.common.pending_partition f ≡ true
    → Jumped f (partition_table i.common.pending_partition).start_address (first_boot i)
unfolding Stands
pending_boots f i w read h differ open_boot low ok =
    let b0 : Boot = record { info = i; partition = i.common.active_partition; flash = f } in
    let b1 = saved (switched b0) in
    let b2 = saved (counted b1) in
    let stands = saved-Stands f (counted b1) (saved-Stands f (switched b0) (w, SameBelow-refl f)) in
    let ok2 = verify-SameImages i.common.pending_partition f b2.flash low stands.1 ∙ ok in
    let runs =
      run_stages f i b1 b2 w.init read (switch_pending-verified b0 differ open_boot ok)
        (count_attempt-again b1 open_boot (omega arith)) low ok2 in
    jumped f b2 runs stands (first_boot-IsBootloaderInfo i h)

pub unconfirmed_boots :
    (f : Flash) (i : BootloaderInfo)
    → IsOpen f
    → bootloader_read_boot_info f ≡ some i
    → IsBootloaderInfo i
    → i.common.pending_partition ≡ i.common.active_partition
    → i.common.boot_confirmed ≡ false
    → i.boot_attempts < 2
    → i.common.active_partition < 3
    → bootloader_verify_partition i.common.active_partition f ≡ true
    → Jumped f (partition_table i.common.active_partition).start_address (later_boot i)
unfolding Stands
unconfirmed_boots f i w read h same open_boot few low ok =
    let b0 : Boot = record { info = i; partition = i.common.active_partition; flash = f } in
    let b2 = saved (counted b0) in
    let stands = saved-Stands f (counted b0) (w, SameBelow-refl f) in
    let ok2 = verify-SameImages i.common.active_partition f b2.flash low stands.1 ∙ ok in
    let runs =
      run_stages f i b0 b2 w.init read (switch_pending-none b0 same)
        (count_attempt-again b0 open_boot few) low ok2 in
    jumped f b2 runs stands (later_boot-IsBootloaderInfo i h)

pub rollback_boots :
    (f : Flash) (i : BootloaderInfo)
    → IsOpen f
    → bootloader_read_boot_info f ≡ some i
    → IsBootloaderInfo i
    → i.common.pending_partition ≡ i.common.active_partition
    → i.common.boot_confirmed ≡ false
    → i.boot_attempts ≡ 2
    → i.common.rollback_enabled ≡ true
    → bootloader_verify_partition (other_app i.common.active_partition) f ≡ true
    → Jumped f (partition_table (other_app i.common.active_partition)).start_address (rolled_back i)
unfolding Stands bootloader_handle_boot_failure
rollback_boots f i w read h same open_boot two enabled ok =
    let b0 : Boot = record { info = i; partition = i.common.active_partition; flash = f } in
    let b1 = bootloader_handle_boot_failure (counted b0) in
    let b2 = saved b1 in
    let low : other_app i.common.active_partition < 3 = ground arith in
    let stands = saved-Stands f b1 (write-IsOpen b1.info f w, write-SameImages b1.info f) in
    let ok2 = verify-SameImages b2.partition f b2.flash low stands.1 ∙ ok in
    let runs =
      run_stages f i b0 b2 w.init read (switch_pending-none b0 same)
        (count_attempt-rollback b0 open_boot two enabled) low ok2 in
    jumped f b2 runs stands (rolled_back-IsBootloaderInfo i h low)

-- On open flash that holds valid boot information with a pending update that is not confirmed, and
-- verified images in both partitions: while the update is not confirmed, the first boot and the second
-- jump to it, and the third rolls back and jumps to the other partition, whose boot is confirmed. (So a
-- limit of 3 attempts gives 2 boots.)
pub three_boots :
    (f : Flash) (i : BootloaderInfo)
    → IsOpen f
    → bootloader_read_boot_info f ≡ some i
    → IsBootloaderInfo i
    → i.common.active_partition ≡ other_app i.common.pending_partition
    → i.common.pending_partition ≢ i.common.active_partition
    → i.common.boot_confirmed ≡ false
    → i.common.rollback_enabled ≡ true
    → i.common.pending_partition < 3
    → bootloader_verify_partition i.common.pending_partition f ≡ true
    → bootloader_verify_partition i.common.active_partition f ≡ true
    → (first : Jumped f (partition_table i.common.pending_partition).start_address (first_boot i))
      × (second : Jumped first.boot.flash
          (partition_table i.common.pending_partition).start_address
          (later_boot (first_boot i)))
      × Jumped second.boot.flash
          (partition_table i.common.active_partition).start_address
          (rolled_back (later_boot (first_boot i)))
three_boots f i w read h other differ open_boot enabled low new_ok old_ok =
    let p = i.common.pending_partition in
    let first = pending_boots f i w read h differ open_boot low new_ok in
    let h1 = first_boot-IsBootloaderInfo i h in
    let still_new = verify-SameImages p f first.boot.flash low first.images ∙ new_ok in
    let second =
      unconfirmed_boots first.boot.flash (first_boot i) first.open_after first.reads h1 refl
        open_boot (omega arith) low still_new in
    let h2 = later_boot-IsBootloaderInfo (first_boot i) h1 in
    let low' : other_app p < 3 = ground arith in
    let still_old =
      verify-SameImages (other_app p) f second.boot.flash low'
        (SameBelow-trans first.images second.images)
      ∙ (ap (λ (q : ℕ). bootloader_verify_partition q f) (sym other) ∙ old_ok) in
    let third =
      rollback_boots second.boot.flash (later_boot (first_boot i)) second.open_after second.reads h2
        refl open_boot refl enabled still_old in
    let back =
      subst
        (λ (q : ℕ).
          Jumped second.boot.flash (partition_table q).start_address
            (rolled_back (later_boot (first_boot i))))
        (sym other) third in
    (first, second, back)
