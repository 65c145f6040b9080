-- ===== src/Sync/MsgQueue/Ring.antt =====
-- The ring holds a list of items, first in, first out.
use tinyos_rtos.Prelude.{
  sym, inl, inr, Bool-cases, ltb→lt, Bool-cases, ◌≢◌, ℕ, zero, suc, ◌+◌, ◌-◌, ◌*◌, ◌%◌, ◌≤◌, ◌<◌,
  ◌≡◌, refl, ap, ◌∙◌, true, ◌||◌, List, [], ◌∷◌, ◌++◌, ltb, leb, if◌then◌else◌, length, arith,
}
use native.Mathlib.Nat.{mod-add-mod, mod-eq_of_lt, mod-eq-sub-mod}
use tinyos_rtos.Prelude.Memory.{copy_in, copy_out, copy_out-copy_in, copy_out-copy_in_elsewhere}
use tinyos_rtos.Sync.MsgQueue.{front, MsgQueue, put, remove_front}

pub record IsRing (q : MsgQueue) : Type 0 where
  pub some_room : 0 < q.max_items
  pub head_lt : q.head < q.max_items
  pub tail_at : q.tail ≡ (q.head + q.count) % q.max_items
  pub count_le : q.count ≤ q.max_items

-- The place of an item, and its bytes.
abbrev place : MsgQueue → ℕ → ℕ
place q k = (q.head + k) % q.max_items

abbrev item_at : MsgQueue → ℕ → List ℕ
item_at q k = copy_out q.item_size (place q k * q.item_size) q.buffer

-- The `n` items behind the first `k`.
unfoldable pub items_from : MsgQueue → ℕ → ℕ → List (List ℕ)
items_from q k zero = []
items_from q k (suc n) = item_at q k ∷ items_from q (k + 1) n

-- The list that the queue stands for.
unfoldable pub items : MsgQueue → List (List ℕ)
unfolding items_from
items q = items_from q 0 q.count

wrap : (i k n : ℕ) → i < n → k ≤ n → (i + k) % n ≡ (if ltb (i + k) n then i + k else i + k - n)
wrap i k n h le = elim (Bool-cases (ltb (i + k) n)) [
  | inl lt ↦ rw lt (mod-eq_of_lt (ltb→lt _ _ lt))
  | inr ge ↦
      let le' : n ≤ i + k = ground (arith, ge) in
      rw ge (mod-eq-sub-mod le' ∙ mod-eq_of_lt (omega arith))
]

spread : (i j size : ℕ) → i < j → i * size + size ≤ j * size
spread i j size lt = grind arith

-- Two places do not overlap.
apart :
    (i j size : ℕ)
    → i ≢ j
    → (leb (i * size + size) (j * size) || leb (j * size + size) (i * size)) ≡ true
apart i j size h = elim (Bool-cases (ltb i j)) [
  | inl lt ↦
      let le : i * size + size ≤ j * size = spread i j size (ltb→lt i j lt) in ground (arith, le)
  | inr ge ↦
      let le : j * size + size ≤ i * size = spread j i size (ground (arith, h, ge)) in
      ground (arith, le)
]

-- Places behind the same head differ.
place-ne : (head k m n : ℕ) → head < n → k < m → m < n → (head + k) % n ≢ (head + m) % n
place-ne head k m n h lt lt' e =
    ground (arith, wrap head k n h (omega arith), wrap head m n h (omega arith))

read_back :
    (n a b : ℕ) (x : List ℕ) (m : ℕ → ℕ) → length x ≡ n → a ≡ b → copy_out n a (copy_in b x m) ≡ x
read_back n a b x m size e = rw (← size, e) (copy_out-copy_in b x m)

-- A write behind the last of these items keeps them, and a new item comes last.
items_from-put :
    (n k : ℕ) (x : List ℕ) (q : MsgQueue)
    → IsRing q
    → length x ≡ q.item_size
    → k + n ≡ q.count
    → q.count < q.max_items
    → items_from (put x q) k (suc n) ≡ items_from q k n ++ (x ∷ [])
unfolding items_from put
items_from-put zero k x q ring size at less =
    let e : place q k ≡ q.tail =
      ap (λ (c : ℕ). (q.head + c) % q.max_items) (omega (arith, at)) ∙ sym ring.tail_at in
    rw (
      read_back q.item_size (place q k * q.item_size) (q.tail * q.item_size) x q.buffer size
        (ap (λ (i : ℕ). i * q.item_size) e))
items_from-put (suc n) k x q ring size at less =
    let differ = place-ne q.head k q.count q.max_items ring.head_lt (omega (arith, at)) less in
    let far = apart (place q k) q.tail q.item_size (rw ring.tail_at differ) in
    rw (
      copy_out-copy_in_elsewhere q.item_size (place q k * q.item_size) (q.tail * q.item_size) x
          q.buffer (rw size far),
      items_from-put n (k + 1) x q ring size (omega (arith, at)) less,
    )

items_from-remove_front :
    (n k : ℕ) (q : MsgQueue)
    → IsRing q
    → k + n < q.max_items
    → items_from (remove_front q) k n ≡ items_from q (k + 1) n
unfolding items_from remove_front
items_from-remove_front zero k q ring less = refl
items_from-remove_front (suc n) k q ring less =
    let shift : place (remove_front q) k ≡ place q (k + 1) = ground (
      arith,
      wrap q.head 1 q.max_items ring.head_lt (omega (arith, less)),
      wrap ((q.head + 1) % q.max_items) k q.max_items
          (ground (arith, wrap q.head 1 q.max_items ring.head_lt (omega (arith, less)), ring, less))
          (omega (arith, less)),
      wrap q.head (k + 1) q.max_items ring.head_lt (omega (arith, less)),
    ) in
    rw (shift, items_from-remove_front n (k + 1) q ring (omega (arith, less)))

pub put-IsRing : (x : List ℕ) (q : MsgQueue) → IsRing q → q.count < q.max_items → IsRing (put x q)
unfolding put
put-IsRing x q ring less = record {
  some_room = ring.some_room;
  head_lt = ring.head_lt;
  tail_at = rw ring.tail_at (
      mod-add-mod (q.head + q.count) q.max_items 1 ∙ ap (λ (n : ℕ). n % q.max_items) (omega arith));
  count_le = omega (arith, less);
}

pub items-put :
    (x : List ℕ) (q : MsgQueue)
    → IsRing q
    → length x ≡ q.item_size
    → q.count < q.max_items
    → items (put x q) ≡ items q ++ (x ∷ [])
unfolding items put
items-put x q ring size less =
    let one_more : q.count + 1 ≡ suc q.count = omega arith in
    ap (items_from (put x q) 0) one_more ∙ items_from-put q.count 0 x q ring size (omega arith) less

pub remove_front-IsRing : (q : MsgQueue) → IsRing q → 0 < q.count → IsRing (remove_front q)
unfolding remove_front
remove_front-IsRing q ring some_item =
    let next = wrap q.head 1 q.max_items ring.head_lt (omega (arith, ring.some_room)) in
    record {
      some_room = ring.some_room;
      head_lt = ground (arith, next, ring);
      tail_at =
          ring.tail_at
          ∙ (ap (λ (n : ℕ). n % q.max_items) (omega (arith, some_item))
              ∙ sym (mod-add-mod (q.head + 1) q.max_items (q.count - 1)));
      count_le = omega (arith, ring.count_le);
    }

pub items-remove_front :
    (q : MsgQueue) → IsRing q → 0 < q.count → items q ≡ front q ∷ items (remove_front q)
unfolding items items_from remove_front front
items-remove_front q ring some_item =
    let count : q.count ≡ suc (q.count - 1) = omega (arith, some_item) in
    let here : place q 0 ≡ q.head =
      ap (λ (n : ℕ). n % q.max_items) (omega arith) ∙ mod-eq_of_lt ring.head_lt in
    let rest =
      items_from-remove_front (q.count - 1) 0 q ring (omega (arith, some_item, ring.count_le)) in
    ap (items_from q 0) count
    ∙ (ap
          (λ (i : ℕ).
            copy_out q.item_size (i * q.item_size) q.buffer ∷ items_from q (0 + 1) (q.count - 1))
          here
        ∙ ap (λ (l : List (List ℕ)). front q ∷ l) (sym rest))
