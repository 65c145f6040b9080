-- ===== src/Memory/Search.antt =====
-- memory.c: the search of os_malloc, on a heap from which blocks were taken in order.
use tinyos_rtos.Prelude.{
  ℕ, zero, suc, ◌+◌, ◌-◌, ◌^◌, ◌≤◌, ◌<◌, ◌≡◌, refl, ap, ◌∙◌, true, false, ◌⊎◌, inl, inr, Option,
  none, some, arith, ltb, leb, ltb→lt, ◌==◌, if◌then◌else◌, Bool-cases, if_true, if_false, ◌%◌,
  ==→eq,
}
use tinyos_rtos.Prelude.Outcome.{done, fault}
use tinyos_rtos.Memory.{Heap, count_from, allocate, search_list, blocks_needed, os_mem_init}

-- The free list starts at block `k`, and from there on every block is free.
pub record IsBump (k : ℕ) (h : Heap) : Type 0 where
  pub start : h.free_list ≡ some k
  pub free : (i : ℕ) → k ≤ i → i < 128 → h.allocated i ≡ false
  pub small : (i : ℕ) → k < i → i < 128 → h.size i ≡ 32
  pub last : h.next 127 ≡ none

pub os_mem_init-IsBump : IsBump 0 os_mem_init
unfolding os_mem_init
os_mem_init-IsBump = record {
  start = refl;
  free = λ i low high. refl;
  small = λ i low high. refl;
  last = refl;
}

count_from_behind : (left available : ℕ) (h : Heap) → count_from left available 129 h ≡ fault
unfolding count_from
count_from_behind zero available h = refl
count_from_behind (suc left) available h = refl

-- At the end of the pool the low byte of free_bytes is read.
count_from_end :
    (left available : ℕ) (h : Heap)
    → count_from (suc left) available 128 h
      ≡ (if h.free_bytes % 2 ^ 8 == 0 then fault else done available)
unfolding count_from
count_from_end left available h = elim (Bool-cases (h.free_bytes % 2 ^ 8 == 0)) [
  | inl low ↦ rw low (count_from_behind left (available + 1) h)
  | inr low ↦ rw low refl
]

-- The count of free blocks from `check` on, for a heap whose blocks are free up to the end.
count_from_lem :
    (k : ℕ) (h : Heap)
    → IsBump k h
    → (left available check : ℕ) → k ≤ check
    → check ≤ 128
    → count_from left available check h ≡ (
        if leb (check + left) 128
        then done (available + left)
        else (if h.free_bytes % 2 ^ 8 == 0 then fault else done (available + (128 - check))))
unfolding count_from
count_from_lem k h bump zero available check low high = elim (Bool-cases (ltb check 128)) [
  | inl inside ↦ rw inside (ground arith)
  | inr outside ↦
      let at_end : check ≡ 128 = ground (arith, outside) in
      let here : (check == 128) ≡ true = ground arith in rw (outside, here) (ground arith)
]
count_from_lem k h bump (suc left) available check low high = elim (Bool-cases (ltb check 128)) [
  | inl inside ↦
      let ih =
        count_from_lem k h bump left (available + 1) (check + 1) (omega arith)
          (ground (arith, inside)) in
      rw (inside, bump.free check low (ltb→lt check 128 inside), ih) (ground arith)
  | inr outside ↦
      let at_end : check ≡ 128 = ground (arith, outside) in
      rw at_end (count_from_end left available h ∙ ground arith)
]

-- The heap after an allocation
abbrev pub taken : ℕ → ℕ → Heap → Heap
taken k size h = allocate k (blocks_needed size) none h

-- From block `k` on, the free list goes from a block to the next, or ends.
abbrev pub Walks : ℕ → Heap → Type 0
Walks k h = (i : ℕ) → k ≤ i → i < 128 → (h.next i ≡ none) ⊎ (h.next i ≡ some (i + 1))

-- The search takes the first block when there is room behind it.
pub search_fits :
    (rounds k blocks : ℕ) (h : Heap)
    → IsBump k h
    → k < 128
    → k + blocks ≤ 128
    → search_list (suc rounds) blocks (some k) none h ≡ done (some k, allocate k blocks none h)
unfolding search_list
search_fits rounds k blocks h bump inside fits =
    let in_pool : ltb k 128 ≡ true = ground arith in
    let first = bump.free k (omega arith) inside in
    let room : leb (k + blocks) 128 ≡ true = ground arith in
    let found : count_from blocks 0 k h ≡ done (0 + blocks) =
      count_from_lem k h bump blocks 0 k (omega arith) (omega arith) ∙ if_true _ _ _ room in
    let enough : leb blocks (0 + blocks) ≡ true = ground arith in
    rw (in_pool, first, found, enough) refl

search_none :
    (rounds blocks : ℕ) (prev : Option ℕ) (h : Heap)
    → 0 < rounds
    → search_list rounds blocks none prev h ≡ done (none, h)
unfolding search_list
search_none zero blocks prev h some_left = absurd (omega arith)
search_none (suc rounds) blocks prev h some_left = refl

-- Without room the count ends at the low byte of free_bytes: it is not 0, and the search goes on,
pub search_over :
    (rounds k i blocks : ℕ) (prev : Option ℕ) (h : Heap)
    → IsBump k h
    → Walks k h
    → (h.free_bytes % 2 ^ 8 == 0) ≡ false
    → k ≤ i
    → i < 128
    → 128 < i + blocks
    → 129 ≤ i + rounds
    → search_list rounds blocks (some i) prev h ≡ done (none, h)
unfolding search_list
search_over zero k i blocks prev h bump walks low le inside over enough = absurd (omega arith)
search_over (suc rounds) k i blocks prev h bump walks low le inside over enough =
    let in_pool : ltb i 128 ≡ true = ground arith in
    let first = bump.free i le inside in
    let no_room : leb (i + blocks) 128 ≡ false = ground arith in
    let short : count_from blocks 0 i h ≡ done (0 + (128 - i)) =
      count_from_lem k h bump blocks 0 i le (omega arith)
      ∙ (if_false _ _ _ no_room ∙ if_false _ _ _ low) in
    let few : leb blocks (0 + (128 - i)) ≡ false = ground arith in
    elim (walks i le inside) [
      | inl ends ↦
          rw (in_pool, first, short, few, ends) (search_none rounds blocks (some i) h (omega arith))
      | inr goes ↦
          let on : i + 1 < 128 = elim (Bool-cases (i == 127)) [
            | inl last ↦ absurd (cc (ap h.next (==→eq i 127 last), bump.last, goes))
            | inr more ↦ ground (arith, more)
          ] in
          rw (in_pool, first, short, few, goes)
            (search_over rounds k (i + 1) blocks (some i) h bump walks low (omega arith) on
              (omega arith) (omega arith))
    ]

-- or it is 0, and the next header that is read is not the heap's.
pub search_behind :
    (rounds k blocks : ℕ) (h : Heap)
    → IsBump k h
    → (h.free_bytes % 2 ^ 8 == 0) ≡ true
    → k < 128
    → 128 < k + blocks
    → search_list (suc rounds) blocks (some k) none h ≡ fault
unfolding search_list
search_behind rounds k blocks h bump low inside over =
    let in_pool : ltb k 128 ≡ true = ground arith in
    let first = bump.free k (omega arith) inside in
    let no_room : leb (k + blocks) 128 ≡ false = ground arith in
    let behind : count_from blocks 0 k h ≡ fault =
      count_from_lem k h bump blocks 0 k (omega arith) (omega arith)
      ∙ (if_false _ _ _ no_room ∙ if_true _ _ _ low) in
    rw (in_pool, first, behind) refl
