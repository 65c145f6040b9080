-- ===== src/Memory.antt =====
-- memory.c: the heap. A pointer to a block is the number of the block in the pool, its header is kept in
-- three functions, and a pointer that os_malloc returns stands 12 bytes behind the start of its block.
-- Sizes are those of blocks of the pool, so that no address wraps.
pub mod Search
pub mod Bump
pub mod Exhausted
mod Tests
use tinyos_rtos.Prelude.{
  ℕ, zero, suc, ◌+◌, ◌-◌, ◌*◌, ◌/◌, ◌<◌, Bool, true, false, not, ◌&&◌, ◌||◌, Option, none, some,
  ltb, leb, ◌==◌, ◌%◌, ◌^◌, if◌then◌else◌, update,
}
use tinyos_rtos.Prelude.Word.{u32, sub_u32}
use tinyos_rtos.Prelude.Outcome.{Outcome, done, failed, fault, ◌>>=◌}

-- A loop that has not ended after its rounds.
pub data HeapError : Type 0 where
  endless : HeapError

abbrev pub num_blocks : ℕ
num_blocks = 128

-- The headers of the blocks, and `mem`.
pub record Heap : Type 0 where
  pub next : ℕ → Option ℕ
  pub allocated : ℕ → Bool
  pub size : ℕ → ℕ
  pub free_list : Option ℕ
  pub free_bytes : ℕ
  pub allocated_bytes : ℕ
  pub allocation_count : ℕ
  pub free_count : ℕ

unfoldable pub os_mem_init : Heap
os_mem_init = record {
  next = λ i. if ltb i (num_blocks - 1) then some (i + 1) else none;
  allocated = λ i. false;
  size = λ i. 32;
  free_list = some 0;
  free_bytes = 4096;
  allocated_bytes = 0;
  allocation_count = 0;
  free_count = 0;
}

-- Reads of a header's fields. Behind the pool `mem` goes on, with pointers of 32 bits, little-endian: a
-- header of block 128 would have `free_list` as `next`, the low byte of `free_bytes` as `allocated`, and
-- `allocated_bytes` as `size`. What stands behind these is not the heap's: a read of it is a fault.
abbrev pub field_of : {A : Type 0} → (ℕ → A) → A → ℕ → Outcome HeapError A
field_of field behind block =
    if ltb block num_blocks
    then done (field block)
    else (if block == num_blocks then done behind else fault)

abbrev pub read_allocated : Heap → ℕ → Outcome HeapError Bool
read_allocated h block = field_of h.allocated (not (h.free_bytes % 2 ^ 8 == 0)) block

abbrev pub read_next : Heap → ℕ → Outcome HeapError (Option ℕ)
read_next h block = field_of h.next h.free_list block

abbrev pub read_size : Heap → ℕ → Outcome HeapError ℕ
read_size h block = field_of h.size h.allocated_bytes block

-- The loop that counts free blocks, with those that are still to be found: the header is read before
-- the count is compared.
unfoldable pub count_from : ℕ → ℕ → ℕ → Heap → Outcome HeapError ℕ
count_from zero available check h = read_allocated h check >>= λ a. done available
count_from (suc left) available check h =
    let rest = count_from left (available + 1) (check + 1) h in
    read_allocated h check >>= λ a. if a then done available else rest

abbrev pub take_out : Option ℕ → ℕ → Heap → Heap
take_out none behind h = record h { free_list = some behind }
take_out (some prev) behind h = record h { next = update h.next prev (some behind) }

abbrev pub allocate : ℕ → ℕ → Option ℕ → Heap → Heap
allocate block blocks prev h =
    let h' = take_out prev (block + blocks) (record h {
      allocated = update h.allocated block true;
      size = update h.size block (blocks * 32);
    }) in
    record h' {
      free_bytes = sub_u32 h.free_bytes (blocks * 32);
      allocated_bytes = u32 (h.allocated_bytes + blocks * 32);
      allocation_count = u32 (h.allocation_count + 1);
    }

-- The search of the free list, which holds at most 128 blocks.
unfoldable pub search_list :
    ℕ → ℕ → Option ℕ → Option ℕ → Heap → Outcome HeapError (Option ℕ × Heap)
unfolding count_from
search_list zero blocks block prev h = failed endless
search_list (suc rounds) blocks none prev h = done (none, h)
search_list (suc rounds) blocks (some block) prev h =
    let rest = read_next h block >>= λ next. search_list rounds blocks next (some block) h in
    read_allocated h block >>= λ a.
    if a
    then rest
    else (count_from blocks 0 block h >>= λ available.
        if leb blocks available then done (some block, allocate block blocks prev h) else rest)

abbrev pub blocks_needed : ℕ → ℕ
blocks_needed size = (size + 12 + 31) / 32

-- The block, or `none` for NULL.
unfoldable pub os_malloc : ℕ → Heap → Outcome HeapError (Option ℕ × Heap)
unfolding search_list
os_malloc size h =
    if (size == 0) || ltb 4096 size
    then done (none, h)
    else search_list 129 (blocks_needed size) h.free_list none h

-- The loop that joins neighbours, with the rounds that are left.
unfoldable pub coalesce : ℕ → Option ℕ → Heap → Outcome HeapError Heap
coalesce zero cur h = failed endless
coalesce (suc rounds) none h = done h
coalesce (suc rounds) (some cur) h = read_size h cur >>= λ size.
    let neighbor = cur + size / 32 in
    let joined = coalesce rounds (some cur) (record h {
      size = update h.size cur (size + h.size neighbor);
      next = update h.next cur (h.next neighbor);
    }) in
    let rest = read_next h cur >>= λ next. coalesce rounds next h in
    if ltb neighbor num_blocks && not (h.allocated neighbor) then joined else rest

abbrev pub freed : ℕ → Heap → Heap
freed block h = record h {
  allocated = update h.allocated block false;
  free_bytes = u32 (h.free_bytes + h.size block);
  allocated_bytes = sub_u32 h.allocated_bytes (h.size block);
  free_count = u32 (h.free_count + 1);
  next = update h.next block h.free_list;
  free_list = some block;
}

-- The argument is the block of the pointer, which is a fault behind the pool; the rounds are those of
-- the loop.
unfoldable pub os_free : ℕ → Option ℕ → Heap → Outcome HeapError Heap
unfolding coalesce
os_free rounds none h = done h
os_free rounds (some block) h =
    if not (ltb block num_blocks)
    then fault
    else (if not (h.allocated block) then done h else coalesce rounds (some block) (freed block h))

abbrev pub os_get_free_memory : Heap → ℕ
os_get_free_memory h = h.free_bytes

-- Free, used, the allocations and the frees
abbrev pub os_get_memory_stats : Heap → ℕ × ℕ × ℕ × ℕ
os_get_memory_stats h = (h.free_bytes, h.allocated_bytes, h.allocation_count, h.free_count)
