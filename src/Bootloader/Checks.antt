-- ===== src/Bootloader/Checks.antt =====
-- The bootloader jumps to verified images only.
use tinyos_rtos.Prelude.{
  ◌⊎◌, Bool-cases, inl, inr, ℕ, zero, suc, ◌<◌, ◌≡◌, refl, sym, ◌∙◌, Bool, true, false, Option,
  none, some, arith, leb, if◌then◌else◌, Bool-cases, inl, inr, ◌>>=◌,
}
use tinyos_rtos.Flash.{Flash, flash_init, is_ok, flash_erase_sector}
use tinyos_rtos.Flash.Frame.{
  SameBelow, SameBelow-refl, SameBelow-trans, flash_write-SameBelow, flash_erase_sector-SameBelow,
  flash_read-SameBelow,
}
use tinyos_rtos.Ota.{partition_table, flash_data_start}
use tinyos_rtos.Bootloader.{
  refused, switched, load_from, bootloader_read_boot_info, Boot, BootloaderInfo,
  bootloader_write_boot_info, bootloader_bytes, saved, switch_pending, count_attempt, verify_chosen,
  bootloader_handle_boot_failure, boot_counted, counted, jump_of, bootloader_main, verify_at,
  bootloader_verify_partition,
}

-- The data partition stands last.
abbrev pub SameImages : Flash → Flash → Type 0
SameImages f g = SameBelow 507904 f g

pub write-SameImages :
    (i : BootloaderInfo) (f : Flash) → SameImages f (bootloader_write_boot_info i f).1
unfolding bootloader_write_boot_info
write-SameImages i f =
    let f1 = (flash_erase_sector flash_data_start f).1 in
    let first = flash_erase_sector-SameBelow flash_data_start f refl in
    let both =
      SameBelow-trans first (flash_write-SameBelow flash_data_start (bootloader_bytes i) f1) in
    elim (Bool-cases (is_ok (flash_erase_sector flash_data_start f).0)) [
      | inl e ↦ rw e both
      | inr e ↦ rw e first
    ]

saved-SameImages : (f : Flash) (b : Boot) → SameImages f b.flash → SameImages f (saved b).flash
saved-SameImages f b s = SameBelow-trans s (write-SameImages b.info b.flash)

failure-SameImages :
    (f : Flash) (b : Boot)
    → SameImages f b.flash
    → SameImages f (bootloader_handle_boot_failure b).flash
unfolding bootloader_handle_boot_failure
failure-SameImages f b s = SameBelow-trans s (write-SameImages _ b.flash)

load_from-SameImages : (f : Flash) (o : Option BootloaderInfo) → SameImages f (load_from f o).flash
unfolding load_from
load_from-SameImages f none = write-SameImages _ f
load_from-SameImages f (some i) = SameBelow-refl f

if-SameImages :
    (f : Flash) (x y : Boot) (c : Bool)
    → SameImages f x.flash
    → SameImages f y.flash
    → SameImages f (if c then x else y).flash
if-SameImages f x y true s t = s
if-SameImages f x y false s t = t

switch-SameImages :
    (f : Flash) (b : Boot) → SameImages f b.flash → SameImages f (switch_pending b).flash
unfolding switch_pending
switch-SameImages f b s =
    let ok = bootloader_verify_partition b.info.common.pending_partition b.flash in
    let now = if ok then switched b else refused b in
    if-SameImages f (saved now) (record b { partition = b.info.common.active_partition }) _
      (saved-SameImages f now (if-SameImages f (switched b) (refused b) ok s s)) s

-- A stage that goes on kept the images, and has what `P` says.
abbrev Keeps : (Boot → Type 0) → Flash → Option Boot → Type 0
Keeps P f none = Unit {0}
Keeps P f (some b) = SameImages f b.flash × P b

if-Keeps :
    (P : Boot → Type 0) (f : Flash) (x y : Option Boot) (c : Bool)
    → (c ≡ true → Keeps P f x)
    → Keeps P f y
    → Keeps P f (if c then x else y)
if-Keeps P f x y true s t = s refl
if-Keeps P f x y false s t = t

abbrev Anything : Boot → Type 0
Anything b = Unit {0}

count-Keeps : (f : Flash) (b : Boot) → SameImages f b.flash → Keeps Anything f (count_attempt b)
unfolding count_attempt
count-Keeps f b s =
    let c = counted b in
    let back = saved (bootloader_handle_boot_failure c) in
    let back-Same =
      saved-SameImages f (bootloader_handle_boot_failure c) (failure-SameImages f c s) in
    let many = if b.info.common.rollback_enabled then some back else none in
    let try = if leb 3 c.info.boot_attempts then many else some (saved c) in
    if-Keeps Anything f (some b) try b.info.common.boot_confirmed (λ e. (s, tt))
      (if-Keeps Anything f many (some (saved c)) (leb 3 c.info.boot_attempts)
        (λ e.
          if-Keeps Anything f (some back) none b.info.common.rollback_enabled
            (λ e'. (back-Same, tt)) tt)
        (saved-SameImages f c s, tt))

-- What the verification lets pass is verified.
abbrev IsVerified : Boot → Type 0
IsVerified b = bootloader_verify_partition b.partition b.flash ≡ true

verify_chosen-Keeps :
    (f : Flash) (b : Boot) → SameImages f b.flash → Keeps IsVerified f (verify_chosen b)
unfolding verify_chosen
verify_chosen-Keeps f b s =
    let b1 = bootloader_handle_boot_failure b in
    let again = if bootloader_verify_partition b1.partition b1.flash then some b1 else none in
    let other = if b.info.common.rollback_enabled then again else none in
    if-Keeps IsVerified f (some b) other (bootloader_verify_partition b.partition b.flash)
      (λ e. (s, e))
      (if-Keeps IsVerified f again none b.info.common.rollback_enabled
        (λ e.
          if-Keeps IsVerified f (some b1) none (bootloader_verify_partition b1.partition b1.flash)
            (λ e'. (failure-SameImages f b s, e')) tt)
        tt)

-- The images of the first three partitions are checked the same.
pub verify-SameImages :
    (p : ℕ) (f g : Flash)
    → p < 3
    → SameImages f g
    → bootloader_verify_partition p g ≡ bootloader_verify_partition p f
unfolding bootloader_verify_partition verify_at
verify-SameImages zero f g h s = rw (flash_read-SameBelow 0 104 507904 f g s (omega arith))
verify-SameImages (suc zero) f g h s =
    rw (flash_read-SameBelow 0x4000 104 507904 f g s (omega arith))
verify-SameImages (suc (suc zero)) f g h s =
    rw (flash_read-SameBelow 0x40000 104 507904 f g s (omega arith))
verify-SameImages (suc (suc (suc p))) f g h s = absurd (omega arith)

-- What a boot that jumped has chosen.
abbrev pub Sound : Flash → Option (Option ℕ × Boot) → Type 0
Sound f none = Unit {0}
Sound f (some (none, b)) = Unit {0}
Sound f (some (some address, b)) =
    (address ≡ (partition_table b.partition).start_address)
    × (b.partition < 4)
    × (b.partition < 3 → bootloader_verify_partition b.partition f ≡ true)

jump_of_lem :
    (b : Boot)
    → (jump_of b ≡ none)
      ⊎ ((jump_of b ≡ some (partition_table b.partition).start_address) × (b.partition < 4))
unfolding jump_of
jump_of_lem b = elim (Bool-cases (leb 4 b.partition)) [
  | inl e ↦ inl (rw e)
  | inr e ↦ inr (rw e, ground (arith, e))
]

last_stage :
    (f : Flash) (b : Boot)
    → SameImages f b.flash
    → IsVerified b
    → Sound f (some (jump_of (boot_counted b), boot_counted b))
last_stage f b s v = elim (jump_of_lem (boot_counted b)) [
  | inl e ↦ rw e tt
  | inr (e, lt) ↦ rw e (refl, lt, λ low. sym (verify-SameImages b.partition f b.flash low s) ∙ v)
]

verified_stages :
    (f : Flash) (o : Option Boot)
    → Keeps IsVerified f o
    → Sound f (o >>= λ b1. some (jump_of (boot_counted b1), boot_counted b1))
verified_stages f none k = tt
verified_stages f (some b) (s, v) = last_stage f b s v

counted_stages :
    (f : Flash) (o : Option Boot)
    → Keeps Anything f o
    → Sound f
        (o >>= λ b. verify_chosen b >>= λ b1. some (jump_of (boot_counted b1), boot_counted b1))
counted_stages f none k = tt
counted_stages f (some b) (s, _) = verified_stages f (verify_chosen b) (verify_chosen-Keeps f b s)

-- The address that the bootloader jumps to is the start of a partition of the table, which is the one it
-- notes; and if that is not the data partition, the flash as it was before holds an image in it whose
-- magic number is right and whose size is not 0 and fits in the partition.
pub bootloader_main-Sound : (f : Flash) → Sound (flash_init f).1 (bootloader_main f)
unfolding bootloader_main
bootloader_main-Sound f =
    let f0 = (flash_init f).1 in
    let b = load_from f0 (bootloader_read_boot_info f0) in
    counted_stages f0 (count_attempt (switch_pending b)) (
      count-Keeps f0 (switch_pending b)
        (switch-SameImages f0 b (load_from-SameImages f0 (bootloader_read_boot_info f0))))
