-- ===== src/Flash/Tests.antt =====
-- The flash's theorems at small contents.
use tinyos_rtos.Prelude.{
  ℕ, ◌≡◌, refl, Bool, true, Option, some, List, [], ◌∷◌, arith, ltb, leb, ◌||◌,
}
use tinyos_rtos.Flash.{
  FlashError, flash_ok, Flash, flash_read, flash_write, flash_write_verify, flash_erase_sector,
  flash_erase_range, flash_erase_chip,
}
use tinyos_rtos.Flash.Guard.{Keeps, protected-Keeps}
use tinyos_rtos.Flash.Content.{write_read}

-- All bytes 0, with or without protection of the second sector.
abbrev blank : Bool → Flash
blank locked = record {
  simulated_flash = λ a. 0;
  flash_initialized = true;
  write_protection_enabled = locked;
  protected_start = 4096;
  protected_size = 4096;
}

protected-Keeps_example :
    ((address : ℕ) (buffer : Option (List ℕ))
      → Keeps (blank true) (flash_write address buffer (blank true)).1)
    × ((has_memory : Bool) (address : ℕ) (xs : List ℕ)
        → Keeps (blank true) (flash_write_verify has_memory address xs (blank true)).1)
    × ((address : ℕ) → Keeps (blank true) (flash_erase_sector address (blank true)).1)
    × ((fuel start size : ℕ) (r : FlashError × Flash)
        → flash_erase_range fuel start size (blank true) ≡ some r
        → Keeps (blank true) r.1)
    × Keeps (blank true) (flash_erase_chip (blank true)).1
protected-Keeps_example =
    protected-Keeps (blank true) (record { enabled = refl; in_range = omega arith })

write_read_example :
    (f' : Flash) × (flash_write 100 (some (1 ∷ 2 ∷ 3 ∷ [])) (blank true) ≡ (flash_ok, f'))
    × (flash_read 100 true 3 f' ≡ (flash_ok, 1 ∷ 2 ∷ 3 ∷ []))
    × ((a : ℕ) → (ltb a 100 || leb 103 a) ≡ true → f'.simulated_flash a ≡ 0)
    × (flash_write_verify true 100 (1 ∷ 2 ∷ 3 ∷ []) (blank true) ≡ (flash_ok, f'))
write_read_example =
    write_read 100 (1 ∷ 2 ∷ 3 ∷ []) (blank true) refl (omega arith) (omega arith) refl
