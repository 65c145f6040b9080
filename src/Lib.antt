-- ===== src/Lib.antt =====
-- A verification library for TinyOS, a small real-time operating system in C. It models the parts
-- below as functions on explicit states, and proves what makes them correct.
--
-- The kernel (src/kernel.c, include/tinyos.h) is the scheduler, the task calls and the priority
-- calls.
--   Kernel.antt       the task control block `tcb_t`, the static struct `kernel`, the error codes
--   Kernel/Queue      scheduler_add_ready_task, scheduler_get_next_task, scheduler_remove_task, on
--                     256 linked queues and a bitmap of 8 words
--   Kernel/Sched      os_scheduler (one tick), os_task_yield, os_start, os_task_delay
--   Kernel/Tasks      os_init, os_task_create, os_task_delete, os_task_suspend, os_task_resume
--   Kernel/Priority   os_task_set_priority, os_task_raise_priority, os_task_reset_priority
--   Kernel/Stats      the statistics calls
-- A `Kernel` holds the fields of the struct, and as a function from addresses the control blocks of
-- all tasks, so that two pointers to one block see each other's writes. Address 0 is NULL; the pool
-- of the struct lies at 1 to 8. Numbers are natural numbers with the wrap of the C type written out.
-- A critical section disables the interrupts on the one core: a call is one step, except where it
-- waits. The assembly function context_switch is an argument, a function on the stacks alone.
--
-- Links.antt holds the two walks along a linked list that the kernel makes. These and other loops
-- take fuel and return `none` without it; each theorem gives the fuel that is enough, as the number
-- of live tasks or timers. `Chain next p xs` says that the links lead from `p` through the nodes
-- `xs`.
--
-- The invariant of the kernel is `Sound live k q` in Kernel/Sched/Sound.antt: the linked queues and
-- the bitmap hold the lists `q`; each task in `q p` is ready, has priority `p`, is one of `live` and
-- is in no other queue; the running task is one of `live` and in no queue.
--
-- Prelude.antt passes on the names that all modules share: tests on numbers, lists, words, bits.
--
-- The watchdog (src/watchdog.c, include/tinyos/watchdog.h) keeps a table of at most 8 tasks.
--   Watchdog.antt          its state `wdt_state_t`, the error codes, find_task_entry
--   Watchdog/Control       wdt_init, wdt_deinit, wdt_start, wdt_stop, wdt_set_timeout, the status
--   Watchdog/Registry      wdt_register_task, wdt_unregister_task, wdt_feed_task and the like
--   Watchdog/Check         wdt_check_tasks, wdt_feed, wdt_reset_stats, wdt_trigger_reset
-- The HAL functions and the callback are code of the platform and of the application. The model
-- records each call of one; hal_wdt_trigger_reset does not return, which the type `Run` tells. The
-- callback is taken not to call the watchdog. The printing functions are not modelled.
--
-- The flash driver (drivers/flash.c, drivers/flash.h), on its simulated flash of 512 KB.
--   Flash.antt             the storage, reads, writes, erasures, write protection
-- A buffer is a list of bytes. The weak platform_ functions are the defaults of the file. The loop
-- of flash_erase_range takes fuel; 129 rounds are enough for a range within the flash.
--
-- The software timers (src/timer.c) stand in a linked list sorted by their expiry.
--   Timer.antt             the timers, os_timer_create, os_timer_start, os_timer_stop and the like,
--                          timer_insert_sorted, os_timer_process
-- `Lists m xs` in Timer/Insert.antt says that the list holds the timers `xs` and that they are
-- counted. A callback is code of the application: os_timer_process returns the timers whose
-- callbacks it called, in order, and the callbacks are taken not to touch the timers.
--
-- Mutexes and semaphores (src/sync.c) work on the kernel.
--   Sync.antt              os_mutex_lock with its priority inheritance, os_mutex_unlock, semaphores
-- A loop that waits takes a list of functions: each is what one os_task_yield does until the task
-- runs again. What other tasks do in the yields of os_mutex_unlock and os_semaphore_post themselves
-- is not in the model.
--   Sync/MsgQueue.antt     message queues, a ring in the caller's buffer
--   Sync/Events.antt       event groups
--   Sync/Cond.antt         condition variables, whose waiters are linked through the kernel's control blocks
-- The loops of queues and groups take a list of rounds: what the others did before the round,
-- whether the lock is had, and the tick count at the check of the timeout. `items` in
-- Sync/MsgQueue/Ring.antt is the list that a ring holds; `Chance` in Sync/MsgQueue/Rounds.antt and
-- `Comes` in Sync/Events/Wake.antt say that a round in which the call can go through comes.
--
-- The RAM disk (drivers/ramdisk.c) has 256 blocks of 512 bytes.
--   Ramdisk.antt           ramdisk_read, ramdisk_write, ramdisk_erase, ramdisk_init
--
-- Updates and the bootloader (src/ota.c, src/bootloader.c) work on the flash.
--   Ota.antt               the partition table, the boot information in memory, the CRC
--   Ota/Update.antt        ota_init, ota_start_update_from_buffer, ota_write_chunk, ota_rollback and the like
--   Bootloader.antt        bootloader_main, in stages
-- The two files declare the boot information differently: `found` in Bootloader/Saved.antt is what
-- the bootloader reads of what an update saved. Jumping to the application, the messages, the HTTP
-- download of ota_start_update, the configuration and the signature (a stub in the source) are not
-- modelled.
--
-- CoAP (src/coap.c, include/tinyos/coap.h)
--   Coap.antt              the PDU and its encoding; Coap/Decode.antt its decoding
--   Coap/Server.antt       coap_process, the resources; Coap/Client.antt coap_send_request_internal
-- A read past the end of a message, and a payload that is written past the buffer of a PDU, is a
-- `fault`. The sockets are arguments: what was received, whether sending failed. Handlers are
-- functions; pointers to contexts and PDUs are taken not to be NULL.
--
-- MQTT (src/mqtt.c, include/tinyos/mqtt.h)
--   Mqtt.antt              the client, the packets that it sends; `none` is a write past the transmit buffer
--   Mqtt/Receive.antt      mqtt_receive_packet, the handlers of packets, mqtt_loop
--   Mqtt/Calls.antt        mqtt_connect, mqtt_disconnect, mqtt_publish, mqtt_subscribe, mqtt_unsubscribe
--   Mqtt/Topics.antt       mqtt_topic_matches, which no code calls
-- The network is a record: whether its calls and os_task_create succeed, and the pieces that
-- net_recv brings. Time stands during a call, the mutex of the client is had, callbacks do not call
-- back. The length of a packet takes 5 rounds at most, the receiving loop as many as the bytes that
-- it waits for.
--
-- Security.antt models src/security.c: the encoding of regions of the memory protection unit, and
-- the default regions. The unit is a record of its registers, with one RBAR and RASR for each
-- region. The barriers, the handler of faults and the stubs that give true are left out.
--
-- Memory.antt models the heap of src/memory.c. A block is its number in the pool, a header is kept
-- in three functions of the number, and reads of a header of block 128, right behind the pool, give
-- the fields of `mem` that stand there, with pointers of 32 bits and the low byte first; a read
-- further behind is a fault. The search of the free list has 129 rounds, more than blocks; the
-- rounds of the loop that joins blocks are an argument of os_free. The headers lie in memory that
-- allocated blocks hand out: what a program writes over the headers inside a block of several is not
-- modelled.
--
-- Not modelled: power management (src/power.c), the file system (src/filesystem.c), the network
-- stack (src/net), the functions that print, and the strings that name errors, states and
-- priorities.
pub mod Prelude
pub mod Links
pub mod Kernel
pub mod Timer
pub mod Watchdog
pub mod Flash
pub mod Ota
pub mod Bootloader
pub mod Ramdisk
pub mod Sync
pub mod Coap
pub mod Mqtt
pub mod Security
pub mod Memory
