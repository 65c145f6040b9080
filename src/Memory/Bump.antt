-- ===== src/Memory/Bump.antt =====
-- A heap from which blocks were taken in order, and given back from the end.
use tinyos_rtos.Prelude.{
  ℕ, zero, suc, ◌+◌, ◌-◌, ◌/◌, ◌^◌, ◌≤◌, ◌<◌, ◌≡◌, refl, ap, ◌∙◌, true, false, ◌⊎◌, inl, inr,
  Option, none, some, arith, ltb, leb, ltb→lt, ◌==◌, ◌||◌, if◌then◌else◌, Bool-cases, if_true,
  if_false, update, ◌%◌,
}
use tinyos_rtos.Prelude.Outcome.{done, fault}
use tinyos_rtos.Memory.{Heap, search_list, blocks_needed, os_malloc, coalesce, freed, os_free}
use tinyos_rtos.Memory.Search.{IsBump, taken, Walks, search_fits, search_over, search_behind}

os_malloc-search :
    (k size : ℕ) (h : Heap)
    → IsBump k h
    → 0 < size
    → size ≤ 4096
    → os_malloc size h ≡ search_list 129 (blocks_needed size) (some k) none h
unfolding os_malloc
os_malloc-search k size h bump pos few =
    let real : ((size == 0) || ltb 4096 size) ≡ false = ground arith in
    if_false _ _ _ real
    ∙ ap (λ (o : Option ℕ). search_list 129 (blocks_needed size) o none h) bump.start

-- On such a heap, whose list goes on in order, os_malloc of 1 to 4096 bytes takes the next blocks if they
-- are in the pool. Otherwise it returns NULL and changes nothing, if the low byte of free_bytes is not
-- 0, and if it is 0 it reads a header behind all fields of the heap.
pub os_malloc_lem :
    (k size : ℕ) (h : Heap)
    → IsBump k h
    → Walks k h
    → k < 128
    → 0 < size
    → size ≤ 4096
    → os_malloc size h ≡ (
        if leb (k + blocks_needed size) 128
        then done (some k, taken k size h)
        else (if h.free_bytes % 2 ^ 8 == 0 then fault else done (none, h)))
os_malloc_lem k size h bump walks inside pos few =
    let n = blocks_needed size in
    os_malloc-search k size h bump pos few ∙ elim (Bool-cases (leb (k + n) 128)) [
      | inl fits ↦ rw fits (search_fits 128 k n h bump inside (ground (arith, fits)))
      | inr over ↦ elim (Bool-cases (h.free_bytes % 2 ^ 8 == 0)) [
        | inl low ↦ rw (over, low) (search_behind 128 k n h bump low inside (ground (arith, over)))
        | inr low ↦
            rw (over, low)
              (search_over 129 k k n none h bump walks low (omega arith) inside
                (ground (arith, over)) (omega arith))
      ]
    ]

pub taken-IsBump :
    (k size : ℕ) (h : Heap)
    → IsBump k h
    → k + blocks_needed size < 128
    → IsBump (k + blocks_needed size) (taken k size h)
taken-IsBump k size h bump fits = record {
  start = refl;
  free = λ i low high. ground (arith, bump.free i (omega arith) high);
  small = λ i low high. ground (arith, bump.small i (omega arith) high);
  last = bump.last;
}

-- A block `c` that reaches to block `j`, with free blocks of 32 bytes behind its start
record Joins (c j : ℕ) (h : Heap) : Type 0 where
  bump : IsBump c h
  reach : c + h.size c / 32 ≡ j
  ending : (h.next c ≡ none) ⊎ (j < 128)

-- One round joins one block.
abbrev joined : ℕ → ℕ → Heap → Heap
joined c j h = record h {
  size = update h.size c (h.size c + h.size j);
  next = update h.next c (h.next j);
}

joined-Joins : (c j : ℕ) (h : Heap) → Joins c j h → c < j → j < 128 → Joins c (j + 1) (joined c j h)
joined-Joins c j h s behind inside = record {
  bump = record {
    start = s.bump.start;
    free = s.bump.free;
    small = λ i low high. ground (arith, s.bump.small i low high);
    last = ground (arith, s.bump.last);
  };
  reach = ground (arith, s.bump.small j behind inside, s.reach);
  ending = elim (Bool-cases (ltb (j + 1) 128)) [
    | inl more ↦ inr (ltb→lt (j + 1) 128 more)
    | inr last ↦
        let e : j ≡ 127 = ground (arith, last) in
        inl (if_true (c == c) (h.next j) (h.next c) (ground arith) ∙ (ap h.next e ∙ s.bump.last))
  ];
}

coalesce-joined :
    (rounds c j : ℕ) (h : Heap)
    → Joins c j h
    → c < j
    → ltb j 128 ≡ true
    → coalesce (suc rounds) (some c) h ≡ coalesce rounds (some c) (joined c j h)
unfolding coalesce
coalesce-joined rounds c j h s behind more =
    let own : ltb c 128 ≡ true = ground (arith, more) in
    rw (own, s.reach, more, s.bump.free j (omega arith) (ltb→lt j 128 more)) refl

coalesce-ends :
    (rounds c j : ℕ) (h : Heap)
    → Joins c j h
    → c < 128
    → ltb j 128 ≡ false
    → 0 < rounds
    → coalesce (suc rounds) (some c) h ≡ done h
unfolding coalesce
coalesce-ends (suc rounds) c j h s inside last more = elim s.ending [
  | inl e ↦ let own : ltb c 128 ≡ true = ground arith in rw (own, s.reach, last, e) refl
  | inr small ↦ absurd (ground (arith, last))
]
coalesce-ends zero c j h s inside last more = absurd (omega arith)

-- Joining goes on to the end of the pool.
coalesce_lem :
    (rounds c j : ℕ) (h : Heap)
    → Joins c j h
    → c < j
    → j ≤ 128
    → 130 - j ≤ rounds
    → (h' : Heap) × (coalesce rounds (some c) h ≡ done h')
      × IsBump c h'
      × (h'.free_bytes ≡ h.free_bytes)
      × (h'.allocated_bytes ≡ h.allocated_bytes)
coalesce_lem zero c j h s behind inside enough = absurd (omega arith)
coalesce_lem (suc rounds) c j h s behind inside enough = elim (Bool-cases (ltb j 128)) [
  | inl more ↦
      let (h', e, bump, f, a) =
        coalesce_lem rounds c (j + 1) (joined c j h)
          (joined-Joins c j h s behind (ltb→lt j 128 more)) (omega arith) (ground (arith, more))
          (omega arith) in
      (h', coalesce-joined rounds c j h s behind more ∙ e, bump, f, a)
  | inr last ↦
      (h, coalesce-ends rounds c j h s (omega arith) last (omega arith), s.bump, refl, refl)
]

freed-Joins :
    (k size : ℕ) (h : Heap)
    → IsBump k h
    → k + blocks_needed size < 128
    → Joins k (k + blocks_needed size) (freed k (taken k size h))
freed-Joins k size h bump fits = record {
  bump = record {
    start = refl;
    free = λ i low high. ground (arith, bump.free i low high);
    small = λ i low high. ground (arith, bump.small i low high);
    last = ground (arith, bump.last);
  };
  reach = ground arith;
  ending = inr fits;
}

freed_lem :
    (rounds k size : ℕ) (h : Heap)
    → k < 128
    → os_free rounds (some k) (taken k size h) ≡ coalesce rounds (some k) (freed k (taken k size h))
unfolding os_free
freed_lem rounds k size h inside =
    let e : ltb k 128 ≡ true = ground arith in
    let e' : (k == k) ≡ true = ground arith in rw (e, e') refl

counts :
    (k size : ℕ) (h : Heap)
    → h.free_bytes < 2 ^ 32
    → h.allocated_bytes < 2 ^ 32
    → size ≤ 4096
    → ((freed k (taken k size h)).free_bytes ≡ h.free_bytes)
      × ((freed k (taken k size h)).allocated_bytes ≡ h.allocated_bytes)
counts k size h f32 a32 few =
    let e' : (k == k) ≡ true = ground arith in rw e' (omega arith, omega arith)

-- On such a heap, an allocation of 1 to 4096 bytes that leaves a block at the end gives block `k`, and
-- leaves such a heap that starts behind it. When the block is given back, 130 rounds are enough to join
-- it with all that is free behind it; the heap then starts at `k` again, with the counts of free and
-- allocated bytes that it had.
pub os_free-os_malloc :
    (rounds k size : ℕ) (h : Heap)
    → IsBump k h
    → 0 < size
    → size ≤ 4096
    → k + blocks_needed size < 128
    → 130 ≤ rounds
    → h.free_bytes < 2 ^ 32
    → h.allocated_bytes < 2 ^ 32
    → (h1 h2 : Heap) × (os_malloc size h ≡ done (some k, h1))
      × IsBump (k + blocks_needed size) h1
      × (os_free rounds (some k) h1 ≡ done h2)
      × IsBump k h2
      × (h2.free_bytes ≡ h.free_bytes)
      × (h2.allocated_bytes ≡ h.allocated_bytes)
os_free-os_malloc rounds k size h bump pos few fits enough f32 a32 =
    let n = blocks_needed size in
    let (h2, e, bump2, f, a) =
      coalesce_lem rounds k (k + n) (freed k (taken k size h)) (freed-Joins k size h bump fits)
        (omega arith) (omega arith) (omega arith) in
    let counted = counts k size h f32 a32 few in
    (
      taken k size h,
      h2,
      os_malloc-search k size h bump pos few
          ∙ search_fits 128 k n h bump (omega arith) (omega arith),
      taken-IsBump k size h bump fits,
      freed_lem rounds k size h (omega arith) ∙ e,
      bump2,
      f ∙ counted.0,
      a ∙ counted.1,
    )
