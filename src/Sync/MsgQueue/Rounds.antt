-- ===== src/Sync/MsgQueue/Rounds.antt =====
-- sync.c: the rounds of a call that waits.
use tinyos_rtos.Prelude.{
  Bool, ℕ, ◌<◌, ◌≤◌, ◌≡◌, refl, ◌≢◌, ◌⊎◌, inl, inr, true, false, ◌&&◌, List, [], ◌∷◌, ltb, ltb→lt,
  arith,
}
use tinyos_rtos.Prelude.Word.{sub_u32}
use tinyos_rtos.Sync.MsgQueue.{MsgQueue, Round, put, remove_front, expired}
use tinyos_rtos.Sync.MsgQueue.Ring.{IsRing}

-- The other tasks keep a ring of items of this size.
abbrev pub IsTame : ℕ → Round → Type 0
IsTame size r =
    (q : MsgQueue)
    → IsRing q
    → q.item_size ≡ size
    → IsRing (r.others q) × ((r.others q).item_size ≡ size)

-- In this round the lock is had and the queue passes the test.
abbrev pub Open : (MsgQueue → Type 0) → Round → MsgQueue → Type 0
Open P r q = (r.locks ≡ true) × P (r.others q)

-- In some round the lock is had and the queue, as the others leave it, passes the test.
abbrev pub Chance : (MsgQueue → Type 0) → List Round → MsgQueue → Type 0
Chance P [] q = ⊥
Chance P (r ∷ rounds) q = Open P r q ⊎ Chance P rounds (r.others q)

abbrev pub HasRoom : MsgQueue → Type 0
HasRoom q = q.count < q.max_items

abbrev pub HasItem : MsgQueue → Type 0
HasItem q = 0 < q.count

-- The timeout has passed at this tick count.
abbrev pub Passed : ℕ → ℕ → ℕ → Type 0
Passed limit start tick = (limit ≢ 0) × (limit ≤ sub_u32 tick start)

-- The sizes of the ring stay.
abbrev pub SameSizes : MsgQueue → MsgQueue → Type 0
SameSizes q q1 = (q1.item_size ≡ q.item_size) × (q1.max_items ≡ q.max_items)

pub put-SameSizes : (x : List ℕ) (q : MsgQueue) → SameSizes q (put x q)
unfolding put
put-SameSizes x q = (refl, refl)

pub remove_front-SameSizes : (q : MsgQueue) → SameSizes q (remove_front q)
unfolding remove_front
remove_front-SameSizes q = (refl, refl)

pub expired-Passed :
    (limit start tick : ℕ) → expired limit start tick ≡ true → Passed limit start tick
expired-Passed limit start tick h = ground (arith, h)

pub expired-not_Passed :
    (limit start tick : ℕ) → expired limit start tick ≡ false → ¬ Passed limit start tick
expired-not_Passed limit start tick h (real, le) = ground (arith, h, real, le)

pub taken-lt : (locks : Bool) (a b : ℕ) → (locks && ltb a b) ≡ true → (locks ≡ true) × (a < b)
taken-lt true a b h = (refl, ltb→lt a b h)
taken-lt false a b h = ground (arith, h)

pub shut : (locks : Bool) (a b : ℕ) → (locks && ltb a b) ≡ false → ¬ ((locks ≡ true) × (a < b))
shut locks a b idle (l, lt) = ground (arith, l, lt, idle)

-- A round that does not go through leaves the chance to the later ones.
pub not_now : {A C : Type 0} → A ⊎ C → ¬ A → C
not_now (inl now) never = absurd (never now)
not_now (inr rest) never = rest
