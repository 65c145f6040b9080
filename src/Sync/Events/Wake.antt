-- ===== src/Sync/Events/Wake.antt =====
-- When a wait for events returns, bit by bit.
use Prim.Native.Nat.{bit_and, min}
use native.Mathlib.Nat.{mul_comm}
use tinyos_rtos.Prelude.{
  zero, suc, ℕ, ◌-◌, ◌^◌, ◌≤◌, ◌<◌, ◌≡◌, refl, Bool, true, false, Option, none, some, List, [], ◌∷◌,
  ◌==◌, if◌then◌else◌, All, arith, Bool-cases, inl, inr, ◌⊎◌, ==→eq, ◌*◌, ap, ◌∙◌,
}
use tinyos_rtos.Prelude.Bits.{
  bit, bit-bit_and, bit-ext, some_bit, bit-lt-two, bit-zero, bit-not_u32, bit_and-lt, not_u32,
}
use tinyos_rtos.Kernel.{OsError, ok, timeout}
use tinyos_rtos.Sync.MsgQueue.{expired}
use tinyos_rtos.Sync.MsgQueue.Rounds.{Passed, expired-Passed, expired-not_Passed, not_now}
use tinyos_rtos.Sync.Events.{
  EventGroup, EventRound, wait_all, clear_on_exit, condition_met, cleared_if, event_loop,
  os_event_group_wait_bits,
}

-- All of the bits are set, or one of them.
abbrev pub AllSet : ℕ → ℕ → Type 0
AllSet bits events = (i : ℕ) → bit bits i ≤ bit events i

abbrev pub AnySet : ℕ → ℕ → Type 0
AnySet bits events = (i : ℕ) × (bit bits i ≡ 1) × (bit events i ≡ 1)

abbrev pub Wanted : Bool → ℕ → ℕ → Type 0
Wanted true bits events = AllSet bits events
Wanted false bits events = AnySet bits events

condition_met-Wanted :
    (all : Bool) (events bits : ℕ)
    → bits < 2 ^ 32
    → events < 2 ^ 32
    → condition_met all events bits ≡ true
    → Wanted all bits events
unfolding condition_met
condition_met-Wanted true events bits hb he met = λ i.
    let b : bit (bit_and events bits) i ≡ bit bits i = ap (λ (w : ℕ). bit w i) (==→eq _ _ met) in
    omega (arith, bit-bit_and events bits i, b)
condition_met-Wanted false events bits hb he met =
    let pos : 0 < bit_and events bits = ground (arith, met) in
    let (i, e) = some_bit 32 (bit_and events bits) (bit_and-lt 32 events bits he) pos in
    (
      i,
      omega (arith, e, bit-bit_and events bits i, bit-lt-two bits i, bit-lt-two events i),
      omega (arith, e, bit-bit_and events bits i, bit-lt-two bits i, bit-lt-two events i),
    )

Wanted-condition_met :
    (all : Bool) (events bits : ℕ)
    → bits < 2 ^ 32
    → events < 2 ^ 32
    → Wanted all bits events
    → condition_met all events bits ≡ true
unfolding condition_met
Wanted-condition_met true events bits hb he w =
    let e : bit_and events bits ≡ bits =
      bit-ext 32 (bit_and events bits) bits (bit_and-lt 32 events bits he) hb
        (λ i. omega (arith, bit-bit_and events bits i, w i)) in
    ground (arith, e)
Wanted-condition_met false events bits hb he (i, b, e) =
    let one : bit (bit_and events bits) i ≡ 1 = omega (arith, bit-bit_and events bits i, b, e) in
    elim (Bool-cases (bit_and events bits == 0)) [
      | inl z ↦
          let none_set : bit (bit_and events bits) i ≡ 0 =
            ap (λ w. bit w i) (==→eq _ _ z) ∙ bit-zero i in
          absurd (omega (arith, one, none_set))
      | inr nz ↦ rw nz
    ]

-- The others keep the events within 32 bits.
abbrev pub IsWord : EventRound → Type 0
IsWord r = (g : EventGroup) → g.events < 2 ^ 32 → (r.others g).events < 2 ^ 32

-- In some round the events are set.
abbrev pub Comes : Bool → ℕ → List EventRound → EventGroup → Type 0
Comes all bits [] g = ⊥
Comes all bits (r ∷ rounds) g =
    Wanted all bits (r.others g).events ⊎ Comes all bits rounds (r.others g)

-- A wait that returned, round by round: it found the bits as asked in the group that the others left
-- and cleared what it had to; or they were not set and its timeout had passed, and it left the group as
-- the others did; or neither, and a later round ended it.
pub data Woken (bits options start limit : ℕ) (out : Option (OsError × Option ℕ × EventGroup))
    : List EventRound → EventGroup → Type 0 where
  woken :
      (r : EventRound) (rounds : List EventRound) (g g1 : EventGroup) (received : ℕ)
      → Wanted (wait_all options) bits (r.others g).events
      → out ≡ some (ok, some received, g1)
      → ((i : ℕ) → bit received i ≡ bit bits i * bit (r.others g).events i)
      → ((i : ℕ)
          → i < 32
          → bit g1.events i ≡ (
              if clear_on_exit options
              then bit (r.others g).events i * (1 - bit bits i)
              else bit (r.others g).events i))
      → Woken bits options start limit out (r ∷ rounds) g
  late :
      (r : EventRound) (rounds : List EventRound) (g : EventGroup)
      → ¬ Wanted (wait_all options) bits (r.others g).events
      → Passed limit start r.tick
      → out ≡ some (timeout, none, r.others g)
      → Woken bits options start limit out (r ∷ rounds) g
  later :
      (r : EventRound) (rounds : List EventRound) (g : EventGroup)
      → ¬ Wanted (wait_all options) bits (r.others g).events
      → ¬ Passed limit start r.tick
      → Woken bits options start limit out rounds (r.others g)
      → Woken bits options start limit out (r ∷ rounds) g

min_bits : (x y : ℕ) → x < 2 → y < 2 → min x y ≡ y * x
min_bits zero y h k = omega arith
min_bits (suc zero) y h k = omega arith
min_bits (suc (suc x)) y h k = absurd (omega arith)

and_bit : (a b i : ℕ) → bit (bit_and a b) i ≡ bit b i * bit a i
and_bit a b i = bit-bit_and a b i ∙ min_bits (bit a i) (bit b i) (bit-lt-two a i) (bit-lt-two b i)

cleared_bit :
    (clear : Bool) (bits : ℕ) (g : EventGroup) (i : ℕ)
    → bits < 2 ^ 32
    → i < 32
    → bit (cleared_if clear bits g).events i
      ≡ (if clear then bit g.events i * (1 - bit bits i) else bit g.events i)
cleared_bit true bits g i hb lt =
    and_bit g.events (not_u32 bits) i
    ∙ (rw (bit-not_u32 bits i hb lt) (mul_comm (1 - bit bits i) (bit g.events i)))
cleared_bit false bits g i hb lt = refl

event_loop-Woken :
    (rounds : List EventRound) (start bits options limit : ℕ) (g : EventGroup)
    → All IsWord rounds
    → g.events < 2 ^ 32
    → bits < 2 ^ 32
    → Comes (wait_all options) bits rounds g
    → Woken bits options start limit (event_loop rounds start bits options limit g) rounds g
unfolding event_loop
event_loop-Woken [] start bits options limit g words word hb comes = absurd comes
event_loop-Woken (r ∷ rounds) start bits options limit g (w, ws) word hb comes =
    let g1 = r.others g in
    let word1 = w g word in
    let all = wait_all options in
    elim (Bool-cases (condition_met all g1.events bits)) [
      | inl met ↦
          woken r rounds g (cleared_if (clear_on_exit options) bits g1) (bit_and g1.events bits)
            (condition_met-Wanted all g1.events bits hb word1 met) (rw met)
            (λ i. and_bit g1.events bits i)
            (λ i lt. cleared_bit (clear_on_exit options) bits g1 i hb lt)
      | inr unmet ↦
          let not_yet : ¬ Wanted all bits g1.events =
            λ wanted. cc (unmet, Wanted-condition_met all g1.events bits hb word1 wanted) in
          elim (Bool-cases (expired limit start r.tick)) [
            | inl out ↦
                late r rounds g not_yet (expired-Passed limit start r.tick out) (rw (unmet, out))
            | inr more ↦
                rw (unmet, more)
                  (later r rounds g not_yet (expired-not_Passed limit start r.tick more) (
                    event_loop-Woken rounds start bits options limit g1 ws word1 hb
                      (not_now comes not_yet)))
          ]
    ]

-- A wait for some bits, in rounds in which the events stay within 32 bits: if in some round all of the
-- bits are set (or one, without EVENT_WAIT_ALL), the wait returns. It returns in the first round in
-- which they are set as asked, or its timeout, which is not 0, has passed. With the bits set, it
-- received exactly those of the bits that the others left set; with EVENT_CLEAR_ON_EXIT it cleared
-- exactly the bits it waited for, and nothing otherwise. Else it reports the timeout and leaves the
-- group as it was.
pub os_event_group_wait_bits_lem :
    (rounds : List EventRound) (start bits options limit : ℕ) (g : EventGroup)
    → All IsWord rounds
    → g.events < 2 ^ 32
    → bits < 2 ^ 32
    → 0 < bits
    → Comes (wait_all options) bits rounds g
    → Woken bits options start limit
        (os_event_group_wait_bits rounds start bits options limit g)
        rounds
        g
unfolding os_event_group_wait_bits
os_event_group_wait_bits_lem rounds start bits options limit g words word hb some_bits comes =
    let real : (bits == 0) ≡ false = ground arith in
    rw real (event_loop-Woken rounds start bits options limit g words word hb comes)
