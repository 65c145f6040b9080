-- ===== src/Memory/Tests.antt =====
-- The theorems on the heap, after os_mem_init.
use tinyos_rtos.Prelude.{◌≡◌, refl, some, none, arith, Bool-cases, inl, inr, ltb}
use tinyos_rtos.Prelude.Outcome.{done, failed}
use tinyos_rtos.Memory.{Heap, endless, os_mem_init, os_malloc, os_free}
use tinyos_rtos.Memory.Exhausted.{os_free-endless}
use tinyos_rtos.Memory.Search.{IsBump, Walks, taken, os_mem_init-IsBump}
use tinyos_rtos.Memory.Bump.{taken-IsBump, os_malloc_lem, os_free-os_malloc}

-- One block is taken; then a request for the whole pool.
abbrev one_taken : Heap
one_taken = taken 0 1 os_mem_init

one_taken-IsBump : IsBump 1 one_taken
one_taken-IsBump = taken-IsBump 0 1 os_mem_init os_mem_init-IsBump (omega arith)

one_taken-Walks : Walks 1 one_taken
unfolding os_mem_init
one_taken-Walks i low high = elim (Bool-cases (ltb i 127)) [
  | inl more ↦ inr (rw more refl)
  | inr last ↦ inl (rw last refl)
]

os_malloc_lem_example : os_malloc 4096 one_taken ≡ done (none, one_taken)
unfolding os_mem_init
os_malloc_lem_example =
    os_malloc_lem 1 4096 one_taken one_taken-IsBump one_taken-Walks (omega arith) (omega arith)
      (omega arith)

os_free-os_malloc_example :
    (h1 h2 : Heap) × (os_malloc 100 os_mem_init ≡ done (some 0, h1))
    × IsBump 4 h1
    × (os_free 130 (some 0) h1 ≡ done h2)
    × IsBump 0 h2
    × (h2.free_bytes ≡ 4096)
    × (h2.allocated_bytes ≡ 0)
unfolding os_mem_init
os_free-os_malloc_example =
    os_free-os_malloc 130 0 100 os_mem_init os_mem_init-IsBump (omega arith) (omega arith)
      (omega arith) (omega arith) (omega arith) (omega arith)

-- One allocation takes the whole pool, and is given back.
os_free-endless_example : os_free 1000 (some 0) (taken 0 4084 os_mem_init) ≡ failed endless
os_free-endless_example =
    os_free-endless 1000 0 (taken 0 4084 os_mem_init) refl (omega arith) refl (omega arith)
      (inl (omega arith))
