-- ===== src/Security/Tests.antt =====
-- The theorem on regions, at the region of the SRAM.
use tinyos_rtos.Prelude.{◌+◌, ◌≡◌, refl}
use tinyos_rtos.Security.{Mpu, os_mpu_configure_default}

abbrev fresh : Mpu
fresh = record { ctrl = 0; rnr = 0; rbar = λ i. 0; rasr = λ i. 0 }

-- 512 MB of peripherals: enabled, SIZE 28, full access
peripherals : (os_mpu_configure_default fresh).rasr 2 ≡ 1 + 56 + 50331648
unfolding os_mpu_configure_default
peripherals = refl
