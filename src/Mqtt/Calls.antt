-- ===== src/Mqtt/Calls.antt =====
-- mqtt.c: the public calls. The mutex of the client is taken to be had.
pub mod Counts
pub mod Connects
pub mod Publishing
pub mod Delivery
pub mod Answered
mod Tests
use tinyos_rtos.Prelude.{
  ℕ, zero, suc, ◌>>=◌, ◌-◌, ◌==◌, Bool, true, false, not, ◌&&◌, Option, none, some, List, [], ◌∷◌,
  if◌then◌else◌, take,
}
use tinyos_rtos.Coap.Server.{same_string}
use tinyos_rtos.Mqtt.{
  MqttError, ok, not_connected, already_connected, network, protocol, no_memory, ConnectionState,
  disconnected, connecting, connected, disconnecting, Qos, qos_0, Config, Client, Subscription, Net,
  Effect, opened, closed, started, told, then_effect, Reply, mqtt_send_packet, mqtt_send_connect,
  mqtt_send_publish, mqtt_send_subscribe, mqtt_send_unsubscribe, mqtt_next_message_id,
  has_message_id,
}
use tinyos_rtos.Mqtt.Receive.{mqtt_receive_packet, mqtt_handle_connack, is_connected}

-- Copies of a value
replicate {ℓ} : {A : Type ℓ} → ℕ → A → List A
replicate zero x = []
replicate (suc n) x = x ∷ replicate n x

-- `memset` to 0, then the configuration with its defaults
unfoldable pub mqtt_client_init : Config → Client
unfolding replicate
mqtt_client_init config = record {
  config = record config {
    broker_port = if config.broker_port == 0 then 1883 else config.broker_port;
    keepalive_sec = if config.keepalive_sec == 0 then 60 else config.keepalive_sec;
    timeout_ms = if config.timeout_ms == 0 then 5000 else config.timeout_ms;
  };
  state = disconnected;
  next_message_id = 1;
  last_activity_ms = 0;
  last_ping_ms = 0;
  message_callback = false;
  connection_callback = false;
  subscriptions = replicate 16 (record { topic = []; qos = qos_0; active = false });
  rx_buffer = replicate 1024 0;
  rx_buffer_pos = 0;
  task_running = false;
}

-- `net_close`, back to the state without a connection
abbrev pub give_up : MqttError → Client → Net → Reply
give_up e c n = (e, record c { state = disconnected }, then_effect closed n)

-- The background task is created, if the kernel has room for it; the result of os_task_create is not
-- looked at.
abbrev pub start_task : Client → Net → Reply
start_task c n = (
  ok,
  record c { task_running = true; last_activity_ms = n.now; last_ping_ms = n.now },
  if n.creates then then_effect started n else n,
)

abbrev pub after_connack : Reply → Reply
after_connack (ok, c, n) = start_task c n
after_connack (e, c, n) = give_up e c n

unfoldable pub wait_connack : MqttError → ℕ → Client → Net → Reply
unfolding mqtt_handle_connack
wait_connack ok type c n =
    if type == 2 then after_connack (mqtt_handle_connack c n) else give_up protocol c n
wait_connack e type c n = give_up e c n

unfoldable pub after_send : Reply → Reply
unfolding mqtt_receive_packet wait_connack
after_send (ok, c, n) = let (e, type, c', n') = mqtt_receive_packet c n in wait_connack e type c' n'
after_send (e, c, n) = give_up e c n

-- Behind the opened socket
unfoldable pub handshake : Client → Net → Option Reply
unfolding mqtt_send_connect after_send
handshake c n =
    if n.resolves && n.connects
    then (mqtt_send_connect c n >>= λ r. some (after_send r))
    else some (give_up network c n)

is_disconnected : ConnectionState → Bool
is_disconnected disconnected = true
is_disconnected other = false

unfoldable pub mqtt_connect : Client → Net → Option Reply
unfolding handshake is_disconnected
mqtt_connect c n =
    if not (is_disconnected c.state)
    then some (already_connected, c, n)
    else (if n.opens
        then handshake (record c { state = connecting }) (then_effect opened n)
        else some (network, c, n))

unfoldable pub mqtt_disconnect : Client → Net → Reply
unfolding mqtt_send_packet
mqtt_disconnect c n =
    if not (is_connected c.state)
    then (not_connected, c, n)
    else (let (_, c', n') =
          mqtt_send_packet (0xe0 ∷ 0 ∷ [])
            (record c { state = disconnecting; task_running = false }) n in
        let n'' = then_effect closed n' in
        (
          ok,
          record c' { state = disconnected },
          if c.connection_callback then then_effect (told false) n'' else n'',
        ))

abbrev pub publish_id : Qos → Client → ℕ × Client
publish_id qos c = if has_message_id qos then mqtt_next_message_id c else (0, c)

unfoldable pub mqtt_publish : List ℕ → List ℕ → Qos → Bool → Client → Net → Option Reply
unfolding mqtt_next_message_id mqtt_send_publish
mqtt_publish topic payload qos retained c n =
    if not (is_connected c.state)
    then some (not_connected, c, n)
    else mqtt_send_publish topic payload qos retained (publish_id qos c).0 (publish_id qos c).1 n

-- A free place is taken; a topic is cut to 127 characters. `none` where no place is free.
unfoldable pub place : List ℕ → Qos → List Subscription → Option (List Subscription)
place topic qos [] = none
place topic qos (s ∷ ss) =
    if s.active
    then (place topic qos ss >>= λ rest. some (s ∷ rest))
    else some (record { topic = take 127 topic; qos = qos; active = true } ∷ ss)

abbrev pub subscribed : List Subscription → Reply → Reply
subscribed ss (ok, c, n) = (ok, record c { subscriptions = ss }, n)
subscribed ss (e, c, n) = (e, c, n)

unfoldable pub mqtt_subscribe : List ℕ → Qos → Client → Net → Option Reply
unfolding place mqtt_send_subscribe
mqtt_subscribe topic qos c n =
    if not (is_connected c.state)
    then some (not_connected, c, n)
    else elim (place topic qos c.subscriptions) [
      | none ↦ some (no_memory, c, n)
      | some ss ↦ (mqtt_send_subscribe topic qos c n >>= λ r. some (subscribed ss r))
    ]

-- The first active subscription with the topic is freed.
unfoldable pub release : List ℕ → List Subscription → List Subscription
unfolding same_string
release topic [] = []
release topic (s ∷ ss) =
    if s.active && same_string s.topic topic
    then record s { active = false } ∷ ss
    else s ∷ release topic ss

unfoldable pub mqtt_unsubscribe : List ℕ → Client → Net → Option Reply
unfolding release mqtt_send_unsubscribe
mqtt_unsubscribe topic c n =
    if not (is_connected c.state)
    then some (not_connected, c, n)
    else mqtt_send_unsubscribe topic (record c { subscriptions = release topic c.subscriptions }) n

abbrev pub mqtt_set_message_callback : Bool → Client → Client
mqtt_set_message_callback callback c = record c { message_callback = callback }

abbrev pub mqtt_set_connection_callback : Bool → Client → Client
mqtt_set_connection_callback callback c = record c { connection_callback = callback }

abbrev pub mqtt_is_connected : Client → Bool
mqtt_is_connected c = is_connected c.state
