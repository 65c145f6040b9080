-- ===== src/Ramdisk/Content.antt =====
-- What is written is read.
use tinyos_rtos.Prelude.{
  ℕ, zero, suc, ◌+◌, ◌-◌, ◌*◌, ◌/◌, ◌%◌, ◌≤◌, ◌<◌, ◌≡◌, true, false, ◌&&◌, ◌||◌, ltb, leb,
  if◌then◌else◌, arith, Bool-cases, inl, inr,
}
use tinyos_rtos.Ramdisk.{
  success, Disk, out_of_bounds, read_from, ramdisk_read, set_block, write_from, ramdisk_write,
  block_size,
}

read_from-at :
    (n i block : ℕ) (storage : ℕ → ℕ → ℕ) (buffer : ℕ → ℕ) (j : ℕ)
    → read_from n i block storage buffer j ≡ (
        if leb (i * 512) j && ltb j ((i + n) * 512)
        then storage (block + j / 512) (j % 512)
        else buffer j)
unfolding read_from
read_from-at zero i block storage buffer j = ground arith
read_from-at (suc n) i block storage buffer j =
    let buffer1 = λ (x : ℕ).
      if leb (i * block_size) x && ltb x (i * block_size + block_size)
      then storage (block + i) (x - i * block_size)
      else buffer x in
    let rest = read_from-at n (i + 1) block storage buffer1 j in
    elim (Bool-cases (leb (i * 512) j && ltb j (i * 512 + 512))) [
      | inl here ↦
          let b : j / 512 ≡ i = ground arith in
          let o : j % 512 ≡ j - i * 512 = ground arith in ground (arith, rest, here, b, o)
      | inr there ↦ ground (arith, rest, there)
    ]

write_from-at :
    (n i block : ℕ) (buffer : ℕ → ℕ) (storage : ℕ → ℕ → ℕ) (c j : ℕ)
    → j < 512
    → write_from n i block buffer storage c j ≡ (
        if leb (block + i) c && ltb c (block + i + n)
        then buffer ((c - block) * 512 + j)
        else storage c j)
unfolding write_from
write_from-at zero i block buffer storage c j lt = ground arith
write_from-at (suc n) i block buffer storage c j lt =
    let storage1 = set_block storage (block + i) (λ x. buffer (i * block_size + x)) in
    let rest = write_from-at n (i + 1) block buffer storage1 c j lt in
    elim (Bool-cases (leb (block + i) c && leb c (block + i))) [
      | inl here ↦
          let o : (c - block) * 512 + j ≡ i * 512 + j = ground arith in
          ground (arith, rest, here, o)
      | inr there ↦ ground (arith, rest, there)
    ]

-- Blocks within the disk, written from a buffer on an initialised disk: the write succeeds, a read of the
-- same blocks into any buffer succeeds and gives the bytes written and keeps the rest of that buffer, and
-- the other blocks stay.
pub ramdisk_write_read :
    (block count : ℕ) (bytes buffer : ℕ → ℕ) (d : Disk)
    → d.ramdisk_initialized ≡ true
    → block + count ≤ 256
    → (d' : Disk) × (out : ℕ → ℕ) × (ramdisk_write block bytes count d ≡ (success, d'))
      × (ramdisk_read block buffer count d' ≡ (success, out))
      × ((j : ℕ) → out j ≡ (if ltb j (count * 512) then bytes j else buffer j))
      × ((c j : ℕ)
          → j < 512
          → (ltb c block || leb (block + count) c) ≡ true
          → d'.ramdisk_storage c j ≡ d.ramdisk_storage c j)
unfolding ramdisk_write ramdisk_read
ramdisk_write_read block count bytes buffer d init fits =
    let storage = write_from count 0 block bytes d.ramdisk_storage in
    let d' = record d { ramdisk_storage = storage } in
    let inside : out_of_bounds block count ≡ false = ground arith in
    (
      d',
      read_from count 0 block storage buffer,
      ground (arith, init, inside),
      ground (arith, init, inside),
      λ j.
          let r = read_from-at count 0 block storage buffer j in
          let w =
            write_from-at count 0 block bytes d.ramdisk_storage (block + j / 512) (j % 512)
              (omega arith) in
          let o : (block + j / 512 - block) * 512 + j % 512 ≡ j = omega arith in
          ground (arith, r, w, o),
      λ c j lt out. ground (arith, write_from-at count 0 block bytes d.ramdisk_storage c j lt),
    )
