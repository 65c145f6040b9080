-- ===== src/Flash/Guard.antt =====
-- Write protection: no call changes a protected byte.
use mathlib.Core.Path.{subst}
use tinyos_rtos.Prelude.{
  ℕ, zero, suc, ◌+◌, ◌≤◌, ◌<◌, ◌≡◌, ◌∙◌, refl, Bool, true, false, Option, none, some, List, arith,
  length, Bool-cases, inl, inr, ltb, leb, not, ◌==◌, ◌&&◌, if◌then◌else◌,
}
use tinyos_rtos.Prelude.Word.{u32}
use tinyos_rtos.Flash.{
  FlashError, flash_ok, Flash, is_ok, is_address_valid, is_write_protected_range, copy_in, fill,
  with_bytes, flash_sector_size, sector_of, end_sector, flash_write, flash_write_verify,
  flash_erase_sector, erase_from, flash_erase_range, flash_erase_chip,
}
use tinyos_rtos.Flash.Bytes.{copy_in-outside, fill-at}

-- The range that `flash_enable_write_protection` accepts.
pub record Guarded (f : Flash) : Type 0 where
  pub enabled : f.write_protection_enabled ≡ true
  pub in_range : f.protected_start + f.protected_size ≤ 524288

-- The protected bytes and the protection stay.
pub record Keeps (f f' : Flash) : Type 0 where
  pub bytes :
      (a : ℕ)
      → f.protected_start ≤ a
      → a < f.protected_start + f.protected_size
      → f'.simulated_flash a ≡ f.simulated_flash a
  pub enabled : f'.write_protection_enabled ≡ f.write_protection_enabled
  pub start : f'.protected_start ≡ f.protected_start
  pub size : f'.protected_size ≡ f.protected_size

Keeps-self : (f : Flash) → Keeps f f
Keeps-self f = record { bytes = λ a ge lt. refl; enabled = refl; start = refl; size = refl }

Keeps-trans : {f g h : Flash} → Keeps f g → Keeps g h → Keeps f h
Keeps-trans {f} {g} {h} k l = record {
  bytes = λ a ge lt. l.bytes a (rw k.start ge) (rw (k.start, k.size) lt) ∙ k.bytes a ge lt;
  enabled = l.enabled ∙ k.enabled;
  start = l.start ∙ k.start;
  size = l.size ∙ k.size;
}

Guarded-keep : {f g : Flash} → Guarded f → Keeps f g → Guarded g
Guarded-keep v k = record {
  enabled = k.enabled ∙ v.enabled;
  in_range = rw (k.start, k.size) v.in_range;
}

-- A range that passes the test shares no byte with the protected one.
unprotected :
    (f : Flash) (address size a : ℕ)
    → Guarded f
    → is_address_valid address size ≡ true
    → is_write_protected_range f address size ≡ false
    → f.protected_start ≤ a
    → a < f.protected_start + f.protected_size
    → (leb address a && ltb a (address + size)) ≡ false
unprotected f address size a v valid free ge lt = ground (arith, v.enabled, v.in_range)

write-Keeps :
    (f : Flash) (address : ℕ) (xs : List ℕ)
    → Guarded f
    → is_address_valid address (length xs) ≡ true
    → is_write_protected_range f address (length xs) ≡ false
    → Keeps f (with_bytes f (copy_in address xs f.simulated_flash))
write-Keeps f address xs v valid free = record {
  bytes = λ a ge lt.
      copy_in-outside address xs f.simulated_flash a
        (ground (arith, unprotected f address (length xs) a v valid free ge lt));
  enabled = refl;
  start = refl;
  size = refl;
}

fill-Keeps :
    (f : Flash) (address n : ℕ)
    → Guarded f
    → is_address_valid address n ≡ true
    → is_write_protected_range f address n ≡ false
    → Keeps f (with_bytes f (fill n address 255 f.simulated_flash))
fill-Keeps f address n v valid free = record {
  bytes = λ a ge lt.
      fill-at n address 255 f.simulated_flash a
      ∙ ground (arith, unprotected f address n a v valid free ge lt);
  enabled = refl;
  start = refl;
  size = refl;
}

-- Behind two checks that refuse, a change that needs them both passed.
behind :
    (P : FlashError × Flash → Type 0) (invalid locked : Bool) (x y z : FlashError × Flash)
    → P x
    → P y
    → (invalid ≡ false → locked ≡ false → P z)
    → P (if invalid then x else (if locked then y else z))
behind P true locked x y z px py pz = px
behind P false true x y z px py pz = py
behind P false false x y z px py pz = pz refl refl

either :
    (P : FlashError × Flash → Type 0) (b : Bool) (x y : FlashError × Flash)
    → P x
    → P y
    → P (if b then x else y)
either P true x y px py = px
either P false x y px py = py

not-false : (b : Bool) → not b ≡ false → b ≡ true
not-false true e = refl
not-false false e = absurd cc

flash_write-Keeps :
    (address : ℕ) (buffer : Option (List ℕ)) (f : Flash)
    → Guarded f
    → Keeps f (flash_write address buffer f).1
unfolding flash_write
flash_write-Keeps address none f v = Keeps-self f
flash_write-Keeps address (some xs) f v =
    let P = λ (r : FlashError × Flash). Keeps f r.1 in
    let y = Keeps-self f in
    either P (length xs == 0) _ _ y (
      either P (not f.flash_initialized) _ _ y (
        behind P (not (is_address_valid address (length xs)))
          (is_write_protected_range f address (length xs)) _ _ _ y y
          (λ valid free.
            write-Keeps f address xs v (not-false (is_address_valid address (length xs)) valid)
              free)))

flash_erase_sector-Keeps :
    (address : ℕ) (f : Flash) → Guarded f → Keeps f (flash_erase_sector address f).1
unfolding flash_erase_sector
flash_erase_sector-Keeps address f v =
    let P = λ (r : FlashError × Flash). Keeps f r.1 in
    let y = Keeps-self f in
    either P (not f.flash_initialized) _ _ y (
      behind P (not (is_address_valid (sector_of address) 4096))
        (is_write_protected_range f (sector_of address) 4096) _ _ _ y y
        (λ valid free.
          fill-Keeps f (sector_of address) 4096 v
            (not-false (is_address_valid (sector_of address) 4096) valid) free))

flash_write_verify-Keeps :
    (has_memory : Bool) (address : ℕ) (xs : List ℕ) (f : Flash)
    → Guarded f
    → Keeps f (flash_write_verify has_memory address xs f).1
unfolding flash_write_verify
flash_write_verify-Keeps has_memory address xs f v =
    let same : (flash_write_verify has_memory address xs f).1
        ≡ (flash_write address (some xs) f).1 =
      ground arith in
    rw same (flash_write-Keeps address (some xs) f v)

erase_from-Keeps :
    (fuel address end : ℕ) (f : Flash) (r : FlashError × Flash)
    → Guarded f
    → erase_from fuel address end f ≡ some r
    → Keeps f r.1
unfolding erase_from
erase_from-Keeps zero address end f r v e = absurd cc
erase_from-Keeps (suc fuel) address end f r v e =
    let step = flash_erase_sector-Keeps address f v in
    let f1 = (flash_erase_sector address f).1 in
    elim (Bool-cases (ltb address end)) [
      | inr over ↦
          let same : some (flash_ok, f) ≡ some r = rw over at e in
          let same' : f ≡ r.1 = ground (arith, same) in subst (λ z. Keeps f z) same' (Keeps-self f)
      | inl more ↦ elim (Bool-cases (is_ok (flash_erase_sector address f).0)) [
        | inl fine ↦
            let e' : erase_from fuel (u32 (address + flash_sector_size)) end f1 ≡ some r =
              ground (arith, e, more, fine) in
            Keeps-trans step (
              erase_from-Keeps fuel (u32 (address + flash_sector_size)) end f1 r
                (Guarded-keep v step) e')
        | inr failed ↦
            let same : flash_erase_sector address f ≡ r = ground (arith, e, more, failed) in
            subst (λ (z : FlashError × Flash). Keeps f z.1) same step
      ]
    ]

flash_erase_chip-Keeps : (f : Flash) → Guarded f → Keeps f (flash_erase_chip f).1
unfolding flash_erase_chip
flash_erase_chip-Keeps f v =
    let same : (flash_erase_chip f).1 ≡ f = ground (arith, v.enabled) in rw same (Keeps-self f)

-- While a range that `flash_enable_write_protection` accepts is protected, no call that writes or
-- erases, whatever its arguments and whether it succeeds, changes a byte of the range or the protection.
pub protected-Keeps :
    (f : Flash)
    → Guarded f
    → ((address : ℕ) (buffer : Option (List ℕ)) → Keeps f (flash_write address buffer f).1)
      × ((has_memory : Bool) (address : ℕ) (xs : List ℕ)
          → Keeps f (flash_write_verify has_memory address xs f).1)
      × ((address : ℕ) → Keeps f (flash_erase_sector address f).1)
      × ((fuel start size : ℕ) (r : FlashError × Flash)
          → flash_erase_range fuel start size f ≡ some r
          → Keeps f r.1)
      × Keeps f (flash_erase_chip f).1
unfolding flash_erase_range
protected-Keeps f v = (
  λ address buffer. flash_write-Keeps address buffer f v,
  λ has_memory address xs. flash_write_verify-Keeps has_memory address xs f v,
  λ address. flash_erase_sector-Keeps address f v,
  λ fuel start size r e. elim (Bool-cases f.flash_initialized) [
    | inl on ↦
        erase_from-Keeps fuel (sector_of start) (end_sector start size) f r v
          (ground (arith, e, on))
    | inr off ↦
        let same : f ≡ r.1 = ground (arith, e, off) in subst (λ z. Keeps f z) same (Keeps-self f)
  ],
  flash_erase_chip-Keeps f v,
)
