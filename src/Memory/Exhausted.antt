-- ===== src/Memory/Exhausted.antt =====
-- memory.c: os_free on a heap whose pool was taken up to its end, so that the free list starts behind it.
use tinyos_rtos.Prelude.{
  ℕ, zero, suc, ◌+◌, ◌/◌, ◌≤◌, ◌<◌, ◌≡◌, refl, ◌⊎◌, inl, inr, true, false, not, ◌&&◌, some, arith,
  ltb, ◌∙◌, ap, Option,
}
use tinyos_rtos.Prelude.Outcome.{failed}
use tinyos_rtos.Memory.{Heap, endless, coalesce, freed, os_free}

-- Two headers that lead to each other: block `c`, and the fields of the heap behind the pool. Neither
-- has a free neighbour.
record Loops (c : ℕ) (h : Heap) : Type 0 where
  own : c < 128
  there : h.next c ≡ some 128
  back : h.free_list ≡ some c
  no_neighbor : (ltb (c + h.size c / 32) 128 && not (h.allocated (c + h.size c / 32))) ≡ false

-- From either of them, no number of rounds ends the loop.
coalesce-endless :
    (rounds c : ℕ) (h : Heap)
    → Loops c h
    → (coalesce rounds (some c) h ≡ failed endless)
      × (coalesce rounds (some 128) h ≡ failed endless)
unfolding coalesce
coalesce-endless zero c h l = (refl, refl)
coalesce-endless (suc rounds) c h l =
    let (here, behind) = coalesce-endless rounds c h l in
    let own : ltb c 128 ≡ true = ground (arith, l.own) in
    let out : ltb (128 + h.allocated_bytes / 32) 128 ≡ false = ground arith in
    (
      rw (own, l.no_neighbor, l.there, behind) refl,
      rw out (ap (λ (o : Option ℕ). coalesce rounds o h) l.back ∙ here),
    )

-- When the free list starts behind the pool, which is what an allocation of the rest of the pool leaves,
-- then os_free of a block without a free neighbour behind it does not return: no number of rounds is
-- enough for the loop that joins neighbours.
pub os_free-endless :
    (rounds c : ℕ) (h : Heap)
    → h.free_list ≡ some 128
    → c < 128
    → h.allocated c ≡ true
    → 32 ≤ h.size c
    → (128 ≤ c + h.size c / 32) ⊎ (h.allocated (c + h.size c / 32) ≡ true)
    → os_free rounds (some c) h ≡ failed endless
unfolding os_free
os_free-endless rounds c h full inside used big neighbor =
    let loops : Loops c (freed c h) = record {
      own = inside;
      there = ground (arith, full);
      back = refl;
      no_neighbor = elim neighbor [
        | inl far ↦ ground (arith, far)
        | inr taken ↦ ground (arith, taken, big)
      ];
    } in
    let own : ltb c 128 ≡ true = ground arith in
    rw (own, used) ((coalesce-endless rounds c (freed c h) loops).0)
