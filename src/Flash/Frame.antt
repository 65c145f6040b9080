-- ===== src/Flash/Frame.antt =====
-- What the calls leave alone, whatever they answer.
use tinyos_rtos.Prelude.{
  false, Option, none, if◌then◌else◌, Bool, not, take, ◌++◌, zero, suc, ◌∙◌, ℕ, ◌+◌, ◌*◌, ◌/◌, ◌<◌,
  ◌≤◌, ◌≡◌, refl, true, some, List, arith,
}
use tinyos_rtos.Prelude.Word.{u32}
use tinyos_rtos.Flash.{
  ltb, FlashError, invalid_param, sector_of, end_sector, is_ok, flash_ok, erase_from,
  flash_erase_range, flash_ok, Flash, copy_out, flash_read, flash_write, flash_erase_sector,
  is_address_valid,
}
use tinyos_rtos.Flash.Bytes.{copy_in-outside, fill-at}

-- Below `limit` the bytes are the same, and both are initialised or neither is.
pub record SameBelow (limit : ℕ) (f g : Flash) : Type 0 where
  pub init : g.flash_initialized ≡ f.flash_initialized
  pub bytes : (a : ℕ) → a < limit → g.simulated_flash a ≡ f.simulated_flash a

pub SameBelow-trans :
    {limit : ℕ} {f g h : Flash} → SameBelow limit f g → SameBelow limit g h → SameBelow limit f h
SameBelow-trans s t = record { init = t.init ∙ s.init; bytes = λ a lt. t.bytes a lt ∙ s.bytes a lt }

pub SameBelow-refl : {limit : ℕ} (f : Flash) → SameBelow limit f f
SameBelow-refl f = record { init = refl; bytes = λ a lt. refl }

pub flash_write-SameBelow :
    (address : ℕ) (xs : List ℕ) (f : Flash)
    → SameBelow address f (flash_write address (some xs) f).1
unfolding flash_write
flash_write-SameBelow address xs f = record {
  init = ground arith;
  bytes = λ a lt. ground (arith, copy_in-outside address xs f.simulated_flash a);
}

pub flash_erase_sector-SameBelow :
    (address : ℕ) (f : Flash)
    → address / 4096 * 4096 ≡ address
    → SameBelow address f (flash_erase_sector address f).1
unfolding flash_erase_sector
flash_erase_sector-SameBelow address f aligned = record {
  init = ground arith;
  bytes = λ a lt. ground (arith, aligned, fill-at 4096 address 255 f.simulated_flash a);
}

pub flash_read_lem :
    (address size : ℕ) (f : Flash)
    → f.flash_initialized ≡ true
    → 0 < size
    → address + size ≤ 524288
    → flash_read address true size f ≡ (flash_ok, copy_out size address f.simulated_flash)
unfolding flash_read
flash_read_lem address size f init some_bytes fits =
    let valid : is_address_valid address size ≡ true = ground arith in ground (arith, init, valid)

copy_out-same :
    (n a limit : ℕ) (m m' : ℕ → ℕ)
    → ((b : ℕ) → b < limit → m' b ≡ m b)
    → a + n ≤ limit
    → copy_out n a m' ≡ copy_out n a m
unfolding copy_out
copy_out-same zero a limit m m' same fits = refl
copy_out-same (suc n) a limit m m' same fits =
    rw (same a (omega arith), copy_out-same n (a + 1) limit m m' same (omega arith))

-- A read below the limit gives the same.
pub flash_read-SameBelow :
    (address size limit : ℕ) (f g : Flash)
    → SameBelow limit f g
    → address + size ≤ limit
    → flash_read address true size g ≡ flash_read address true size f
unfolding flash_read
flash_read-SameBelow address size limit f g same fits = rw (
  same.init,
  copy_out-same size address limit f.simulated_flash g.simulated_flash same.bytes fits,
)

-- The flags of the protection stay.
pub record SameFlags (f g : Flash) : Type 0 where
  pub init : g.flash_initialized ≡ f.flash_initialized
  pub protection : g.write_protection_enabled ≡ f.write_protection_enabled

pub flash_write-SameFlags :
    (address : ℕ) (xs : List ℕ) (f : Flash) → SameFlags f (flash_write address (some xs) f).1
unfolding flash_write
flash_write-SameFlags address xs f = ground arith

pub flash_erase_sector-SameFlags :
    (address : ℕ) (f : Flash) → SameFlags f (flash_erase_sector address f).1
unfolding flash_erase_sector
flash_erase_sector-SameFlags address f = ground arith

SameFlags-refl : (f : Flash) → SameFlags f f
SameFlags-refl f = record { init = refl; protection = refl }

SameFlags-trans : (f g h : Flash) → SameFlags f g → SameFlags g h → SameFlags f h
SameFlags-trans f g h s t = record {
  init = t.init ∙ s.init;
  protection = t.protection ∙ s.protection;
}

-- A loop that ended kept the flags.
abbrev pub KeepsFlags : Flash → Option (FlashError × Flash) → Type 0
KeepsFlags f none = Unit {0}
KeepsFlags f (some r) = SameFlags f r.1

if-KeepsFlags :
    (f : Flash) (x y : Option (FlashError × Flash)) (c : Bool)
    → KeepsFlags f x
    → KeepsFlags f y
    → KeepsFlags f (if c then x else y)
if-KeepsFlags f x y true s t = s
if-KeepsFlags f x y false s t = t

KeepsFlags-trans :
    (f g : Flash) (o : Option (FlashError × Flash))
    → SameFlags f g
    → KeepsFlags g o
    → KeepsFlags f o
KeepsFlags-trans f g none s k = tt
KeepsFlags-trans f g (some r) s k = SameFlags-trans f g r.1 s k

erase_from-KeepsFlags :
    (fuel address end : ℕ) (f : Flash) → KeepsFlags f (erase_from fuel address end f)
unfolding erase_from
erase_from-KeepsFlags zero address end f = tt
erase_from-KeepsFlags (suc fuel) address end f =
    let r = flash_erase_sector address f in
    let same = flash_erase_sector-SameFlags address f in
    let rest = erase_from fuel (u32 (address + 4096)) end r.1 in
    let kept =
      KeepsFlags-trans f r.1 rest same
        (erase_from-KeepsFlags fuel (u32 (address + 4096)) end r.1) in
    if-KeepsFlags f (some (flash_ok, f)) (if is_ok r.0 then rest else some r)
      (not (ltb address end)) (SameFlags-refl f)
      (if-KeepsFlags f rest (some r) (is_ok r.0) kept same)

pub flash_erase_range-KeepsFlags :
    (fuel start size : ℕ) (f : Flash) → KeepsFlags f (flash_erase_range fuel start size f)
unfolding flash_erase_range
flash_erase_range-KeepsFlags fuel start size f =
    if-KeepsFlags f (some (invalid_param, f)) _ (not f.flash_initialized) (SameFlags-refl f)
      (erase_from-KeepsFlags fuel (sector_of start) (end_sector start size) f)

pub take-copy_out : (k n a : ℕ) (m : ℕ → ℕ) → k ≤ n → take k (copy_out n a m) ≡ copy_out k a m
unfolding copy_out
take-copy_out zero n a m h = refl
take-copy_out (suc k) zero a m h = absurd (omega arith)
take-copy_out (suc k) (suc n) a m h = rw (take-copy_out k n (a + 1) m (omega arith))

pub copy_out-append :
    (n k a : ℕ) (m : ℕ → ℕ) → copy_out (n + k) a m ≡ copy_out n a m ++ copy_out k (a + n) m
unfolding copy_out
copy_out-append zero k a m =
    let e : 0 + k ≡ k = omega arith in let e' : a + 0 ≡ a = omega arith in rw (e, e')
copy_out-append (suc n) k a m =
    let e : suc n + k ≡ suc (n + k) = omega arith in
    let e' : a + suc n ≡ a + 1 + n = omega arith in rw (e, e', copy_out-append n k (a + 1) m)
