-- ===== src/Security/Region.antt =====
-- Which regions the memory protection unit takes, and how it encodes them.
use tinyos_rtos.Prelude.{ℕ, ◌%◌, ◌^◌, ◌≤◌, ◌<◌, ◌≡◌}
use tinyos_rtos.Security.{MemoryRegion}

-- A region is acceptable.
abbrev pub Acceptable : ℕ → MemoryRegion → Type 0
Acceptable id region =
    (id < 8) × (region.start_addr % 32 ≡ 0) × (16 < region.size) × (region.size ≤ 2 ^ 31)
