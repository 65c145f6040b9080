-- ===== src/Mqtt/Calls/Connects.antt =====
-- What mqtt_connect leaves.
use tinyos_rtos.Prelude.{
  ℕ, ◌+◌, ◌≤◌, ◌≡◌, refl, sym, ap, ◌∙◌, Bool, true, false, ◌&&◌, ◌⊎◌, inl, inr, some, List, ◌∷◌,
  ◌++◌, arith, ltb, ◌==◌, if◌then◌else◌, Bool-cases, if_true, if_false, length,
}
use tinyos_rtos.Mqtt.{
  MqttError, ok, network, not_connected, protocol, broker_refused, connected, connecting,
  disconnected, Client, Net, opened, closed, started, is_open, sent, told, then_effect, Reply,
  connect_rest, mqtt_encode_remaining_length, send_built, mqtt_send_packet, mqtt_send_connect,
}
use tinyos_rtos.Mqtt.Receive.{second, mqtt_receive_packet, mqtt_handle_connack}
use tinyos_rtos.Mqtt.Calls.{
  give_up, start_task, after_connack, wait_connack, after_send, handshake, mqtt_connect,
}
use tinyos_rtos.Mqtt.Calls.Counts.{
  socket_step, task_step, counted, sockets, tasks, counted-last, receive-effects, receive-creates,
}

abbrev pub is_ok : MqttError → Bool
is_ok ok = true
is_ok other = false

-- Against the state `n0` at the call: connected, marked as running the task, with one more socket, and
-- one more task if the kernel had room; or an error, with no connection, no more sockets and tasks.
abbrev pub Settled : Net → Reply → Type 0
Settled n0 (e, c, n) =
    ((e ≡ ok)
      × (c.state ≡ connected)
      × (c.task_running ≡ true)
      × (sockets n ≡ sockets n0 + 1)
      × (tasks n ≡ tasks n0 + (if n0.creates then 1 else 0)))
    ⊎ ((is_ok e ≡ false)
        × (c.state ≡ disconnected)
        × (sockets n ≡ sockets n0)
        × (tasks n ≡ tasks n0))

-- During the call: its socket is open, and its task is not yet created.
record Going (n0 n : Net) : Type 0 where
  one : sockets n ≡ sockets n0 + 1
  same : tasks n ≡ tasks n0
  room : n.creates ≡ n0.creates

-- Effects that touch neither
carry_on :
    (n0 n n' : Net)
    → Going n0 n
    → sockets n' ≡ sockets n
    → tasks n' ≡ tasks n
    → n'.creates ≡ n.creates
    → Going n0 n'
carry_on n0 n n' g a b c = record { one = a ∙ g.one; same = b ∙ g.same; room = c ∙ g.room }

give_up-Settled :
    (n0 : Net) (e : MqttError) (c : Client) (n : Net)
    → is_ok e ≡ false
    → Going n0 n
    → Settled n0 (give_up e c n)
give_up-Settled n0 e c n failure g = inr (
  failure,
  refl,
  omega (arith, counted-last socket_step 0 n.effects closed, g.one),
  counted-last task_step 0 n.effects closed ∙ g.same,
)

start-Settled :
    (n0 : Net) (c : Client) (n : Net)
    → c.state ≡ connected
    → Going n0 n
    → Settled n0 (start_task c n)
start-Settled n0 c n online g = elim (Bool-cases n.creates) [
  | inl creates ↦
      rw (creates, sym g.room ∙ creates)
        (inl (
          refl,
          online,
          refl,
          counted-last socket_step 0 n.effects started ∙ g.one,
          omega (arith, counted-last task_step 0 n.effects started, g.same),
        ))
  | inr full ↦ rw (full, sym g.room ∙ full) (inl (refl, online, refl, g.one, omega (arith, g.same)))
]

told-Going :
    (n0 : Net) (callback : Bool) (n : Net)
    → Going n0 n
    → Going n0 (if callback then then_effect (told true) n else n)
told-Going n0 true n g =
    carry_on n0 n (then_effect (told true) n) g (counted-last socket_step 0 n.effects (told true))
      (counted-last task_step 0 n.effects (told true)) refl
told-Going n0 false n g = g

connack-Settled :
    (n0 : Net) (c : Client) (n : Net)
    → Going n0 n
    → Settled n0 (after_connack (mqtt_handle_connack c n))
unfolding mqtt_handle_connack
connack-Settled n0 c n g = elim (Bool-cases (ltb c.rx_buffer_pos 2)) [
  | inl short ↦ rw short (give_up-Settled n0 protocol c n refl g)
  | inr whole ↦ elim (Bool-cases (second c.rx_buffer == 0)) [
    | inl accepted ↦
        let n' = if c.connection_callback then then_effect (told true) n else n in
        rw (whole, accepted)
          (start-Settled n0 (record c { state = connected }) n' refl
            (told-Going n0 c.connection_callback n g))
    | inr refused ↦ rw (whole, refused) (give_up-Settled n0 broker_refused c n refl g)
  ]
]

wait-Settled :
    (n0 : Net) (e : MqttError) (type : ℕ) (c : Client) (n : Net)
    → Going n0 n
    → Settled n0 (wait_connack e type c n)
unfolding wait_connack
wait-Settled n0 ok type c n g = elim (Bool-cases (type == 2)) [
  | inl ack ↦ rw ack (connack-Settled n0 c n g)
  | inr other ↦ rw other (give_up-Settled n0 protocol c n refl g)
]
wait-Settled n0 e type c n g = give_up-Settled n0 e c n refl g

after_send-Settled : (n0 : Net) (r : Reply) → Going n0 r.2 → Settled n0 (after_send r)
unfolding after_send
after_send-Settled n0 (ok, c, n) g =
    let (e, type, c', n') = mqtt_receive_packet c n in
    let same = receive-effects c n in
    wait-Settled n0 e type c' n' (
      carry_on n0 n n' g (ap (counted socket_step 0) same) (ap (counted task_step 0) same)
        (receive-creates c n))
after_send-Settled n0 (e, c, n) g = give_up-Settled n0 e c n refl g

either-Going :
    (n0 : Net) (a b : Bool) (x y z : Reply)
    → Going n0 x.2
    → Going n0 y.2
    → Going n0 z.2
    → Going n0 (if a then (if b then x else y) else z).2
either-Going n0 true true x y z gx gy gz = gx
either-Going n0 true false x y z gx gy gz = gy
either-Going n0 false b x y z gx gy gz = gz

-- Sending moves no socket and no task.
send-Going :
    (n0 : Net) (bytes : List ℕ) (c : Client) (n : Net)
    → Going n0 n
    → Going n0 (mqtt_send_packet bytes c n).2
unfolding mqtt_send_packet
send-Going n0 bytes c n g =
    either-Going n0 (is_open c.state) n.sends
      (ok, record c { last_activity_ms = n.now }, then_effect (sent bytes) n) (network, c, n)
      (not_connected, c, n)
      (carry_on n0 n (then_effect (sent bytes) n) g
        (counted-last socket_step 0 n.effects (sent bytes))
        (counted-last task_step 0 n.effects (sent bytes)) refl)
      g g

-- The CONNECT packet
abbrev pub connect_packet : Client → List ℕ
connect_packet c =
    0x10 ∷ (mqtt_encode_remaining_length (length (connect_rest c.config)) ++ connect_rest c.config)

pub handshake-sends :
    (c : Client) (n : Net)
    → length (connect_rest c.config) ≤ 1019
    → n.resolves && n.connects ≡ true
    → handshake c n ≡ some (after_send (mqtt_send_packet (connect_packet c) c n))
unfolding handshake mqtt_send_connect send_built
handshake-sends c n fits up =
    let size : ltb 1024 (5 + length (connect_rest c.config)) ≡ false = ground arith in
    if_true (n.resolves && n.connects) _ _ up ∙ rw size refl

handshake-Settled :
    (n0 : Net) (c : Client) (n : Net)
    → length (connect_rest c.config) ≤ 1019
    → Going n0 n
    → (r : Reply) × (handshake c n ≡ some r) × Settled n0 r
unfolding handshake
handshake-Settled n0 c n fits g = elim (Bool-cases (n.resolves && n.connects)) [
  | inl up ↦ (
    after_send (mqtt_send_packet (connect_packet c) c n),
    handshake-sends c n fits up,
    after_send-Settled n0 (mqtt_send_packet (connect_packet c) c n)
        (send-Going n0 (connect_packet c) c n g),
  )
  | inr down ↦ (give_up network c n, rw down refl, give_up-Settled n0 network c n refl g)
]

pub connect-opens :
    (c : Client) (n : Net)
    → c.state ≡ disconnected
    → n.opens ≡ true
    → mqtt_connect c n ≡ handshake (record c { state = connecting }) (then_effect opened n)
unfolding mqtt_connect
connect-opens c n offline opens = rw offline (if_true n.opens _ _ opens)

connect-fails :
    (c : Client) (n : Net)
    → c.state ≡ disconnected
    → n.opens ≡ false
    → mqtt_connect c n ≡ some (network, c, n)
unfolding mqtt_connect
connect-fails c n offline fails = rw offline (if_false n.opens _ _ fails)

-- A client that is not connected, whose CONNECT packet has at most 1019 bytes behind the fixed header:
-- mqtt_connect returns. Either it succeeds, the client is connected and marked as running its task, one
-- socket more is open, and its task was created exactly if the kernel had room for it; or it fails, the
-- client is disconnected, every socket that it opened is closed, and no task was created.
pub mqtt_connect_lem :
    (c : Client) (n : Net)
    → c.state ≡ disconnected
    → length (connect_rest c.config) ≤ 1019
    → (r : Reply) × (mqtt_connect c n ≡ some r) × Settled n r
mqtt_connect_lem c n offline fits = elim (Bool-cases n.opens) [
  | inl opens ↦
      let going : Going n (then_effect opened n) = record {
        one = counted-last socket_step 0 n.effects opened;
        same = counted-last task_step 0 n.effects opened;
        room = refl;
      } in
      let (r, e, settled) =
        handshake-Settled n (record c { state = connecting }) (then_effect opened n) fits going in
      (r, connect-opens c n offline opens ∙ e, settled)
  | inr fails ↦ ((network, c, n), connect-fails c n offline fails, inr (refl, offline, refl, refl))
]
