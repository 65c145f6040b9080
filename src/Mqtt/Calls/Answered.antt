-- ===== src/Mqtt/Calls/Answered.antt =====
-- mqtt_connect, when the broker answers.
use tinyos_rtos.Prelude.{
  ℕ, ◌≤◌, ◌≡◌, refl, sym, ap, ◌∙◌, true, ◌&&◌, inl, inr, some, List, [], ◌∷◌, arith, ◌==◌,
  if◌then◌else◌, Bool-cases, length,
}
use tinyos_rtos.Mqtt.{
  MqttError, ok, broker_refused, connecting, disconnected, Client, Net, opened, sent, then_effect,
  Reply, connect_rest, mqtt_send_packet,
}
use tinyos_rtos.Mqtt.Receive.{Packet, mqtt_handle_connack}
use tinyos_rtos.Mqtt.Receive.Lengths.{only_byte}
use tinyos_rtos.Mqtt.Receive.Streams.{Flows}
use tinyos_rtos.Mqtt.Calls.{after_send, after_connack, wait_connack, handshake, mqtt_connect}
use tinyos_rtos.Mqtt.Calls.Connects.{
  connect-opens, connect_packet, handshake-sends, mqtt_connect_lem, Settled,
}
use tinyos_rtos.Mqtt.Calls.Delivery.{receive_lem, holding}

-- The answer of the call to the return code of CONNACK
abbrev pub answer : ℕ → MqttError
answer code = if code == 0 then ok else broker_refused

connack_lem :
    (session code now : ℕ) (c : Client) (n : Net)
    → (after_connack (mqtt_handle_connack (holding (session ∷ code ∷ []) now c) n)).0 ≡ answer code
unfolding mqtt_handle_connack
connack_lem session code now c n = elim (Bool-cases (code == 0)) [
  | inl accepted ↦ rw accepted refl
  | inr refused ↦ rw refused refl
]

sent_lem :
    (session code : ℕ) (tail : List ℕ) (c : Client) (n : Net)
    → Flows n.incoming (0x20 ∷ 2 ∷ session ∷ code ∷ tail)
    → (after_send (ok, c, n)).0 ≡ answer code
unfolding after_send wait_connack
sent_lem session code tail c n flows =
    let (n', e, _, _) =
      receive_lem 0x20 (session ∷ code ∷ []) session (code ∷ []) tail c n refl (omega arith)
        (rw (only_byte 4 2 refl) flows) in
    ap (λ (p : Packet). (wait_connack p.0 p.1 p.2 p.3).0) e ∙ connack_lem session code n.now c n'

send-ok :
    (bytes : List ℕ) (c : Client) (n : Net)
    → c.state ≡ connecting
    → n.sends ≡ true
    → mqtt_send_packet bytes c n
      ≡ (ok, record c { last_activity_ms = n.now }, then_effect (sent bytes) n)
unfolding mqtt_send_packet
send-ok bytes c n starting sends = rw (starting, sends) refl

handshake_lem :
    (session code : ℕ) (tail : List ℕ) (c : Client) (n : Net) (r : Reply)
    → length (connect_rest c.config) ≤ 1019
    → c.state ≡ connecting
    → n.resolves && n.connects ≡ true
    → n.sends ≡ true
    → Flows n.incoming (0x20 ∷ 2 ∷ session ∷ code ∷ tail)
    → handshake c n ≡ some r
    → r.0 ≡ answer code
handshake_lem session code tail c n r fits starting up sends flows e =
    let bytes = connect_packet c in
    let same : r ≡ after_send (mqtt_send_packet bytes c n) = cc (e, handshake-sends c n fits up) in
    let c' = record c { last_activity_ms = n.now } in
    ap (λ (q : Reply). q.0) same
    ∙ (ap (λ (q : Reply). (after_send q).0) (send-ok bytes c n starting sends)
        ∙ sent_lem session code tail c' (then_effect (sent bytes) n) flows)

-- A client that is not connected, with a CONNECT packet that fits, where the socket, the name, the
-- connection and the sending all succeed, and CONNACK arrives: mqtt_connect returns MQTT_OK if the
-- return code of CONNACK is 0 and MQTT_ERROR_BROKER_REFUSED otherwise. With MQTT_OK the client is
-- connected and marked as running its task, one socket more is open, and its task was created exactly
-- if the kernel had room for it; otherwise it is disconnected, every socket that it opened is closed,
-- and no task was created.
pub mqtt_connect_answered :
    (session code : ℕ) (tail : List ℕ) (c : Client) (n : Net)
    → c.state ≡ disconnected
    → length (connect_rest c.config) ≤ 1019
    → n.opens ≡ true
    → n.resolves && n.connects ≡ true
    → n.sends ≡ true
    → Flows n.incoming (0x20 ∷ 2 ∷ session ∷ code ∷ tail)
    → (r : Reply) × (mqtt_connect c n ≡ some r) × (r.0 ≡ answer code) × Settled n r
mqtt_connect_answered session code tail c n offline fits opens up sends flows =
    let (r, e, settled) = mqtt_connect_lem c n offline fits in
    let started = record c { state = connecting } in
    let e' = sym (connect-opens c n offline opens) ∙ e in
    (
      r,
      e,
      handshake_lem session code tail started (then_effect opened n) r fits refl up sends flows e',
      settled,
    )
