-- ===== src/Mqtt/Calls/Tests.antt =====
-- The theorems on MQTT at small packets.
use tinyos_rtos.Prelude.{ℕ, ◌≡◌, ◌<◌, ◌↔◌, refl, true, false, none, some, List, [], ◌∷◌, arith}
use tinyos_rtos.Mqtt.{
  mqtt_next_message_id, publish_packet, encode_length, mqtt_encode_string, ok, disconnected,
  connected, qos_0, qos_1, Config, Client, Net, Reply, sent, delivered,
}
use tinyos_rtos.Mqtt.Receive.{mqtt_loop}
use tinyos_rtos.Mqtt.Receive.Streams.{Flows}
use tinyos_rtos.Mqtt.Calls.{mqtt_connect, mqtt_publish}
use tinyos_rtos.Mqtt.Calls.Connects.{mqtt_connect_lem, Settled}
use tinyos_rtos.Mqtt.Calls.Answered.{mqtt_connect_answered, answer}
use tinyos_rtos.Mqtt.Calls.Publishing.{mqtt_publish_overflow, publish_body, remaining}
use tinyos_rtos.Mqtt.Calls.Delivery.{publish_loop, holding}

abbrev config : Config
config = record {
  broker_port = 0;
  client_id = 120 ∷ [];
  username = none;
  password = none;
  keepalive_sec = 0;
  clean_session = true;
  will_topic = none;
  will_message = [];
  will_qos = qos_0;
  will_retained = false;
  timeout_ms = 0;
}

abbrev quiet : Net
quiet = record {
  opens = true;
  resolves = true;
  connects = true;
  sends = true;
  creates = true;
  now = 100;
  incoming = [];
  effects = [];
}

abbrev client : Client
client = record {
  config = record config { broker_port = 1883; keepalive_sec = 60; timeout_ms = 5000 };
  state = connected;
  next_message_id = 1;
  last_activity_ms = 0;
  last_ping_ms = 0;
  message_callback = true;
  connection_callback = false;
  subscriptions = [];
  rx_buffer = 0 ∷ 0 ∷ 0 ∷ [];
  rx_buffer_pos = 0;
  task_running = true;
}

mqtt_publish_overflow_example :
    (mqtt_publish (97 ∷ []) (1 ∷ []) qos_1 false client quiet ≡ none)
    ↔ (1021 < remaining (97 ∷ []) (1 ∷ []) qos_1)
mqtt_publish_overflow_example =
    mqtt_publish_overflow (97 ∷ []) (1 ∷ []) qos_1 false client quiet refl (omega arith)

-- PUBLISH of "a" with the payload 7 and the message id 2, in two pieces
abbrev packet : List ℕ
packet = 0x32 ∷ 6 ∷ 0 ∷ 1 ∷ 97 ∷ 0 ∷ 2 ∷ 7 ∷ []

abbrev arriving : Net
arriving = record quiet {
  incoming = some (0x32 ∷ 6 ∷ 0 ∷ []) ∷ some (1 ∷ 97 ∷ 0 ∷ 2 ∷ 7 ∷ []) ∷ [];
}

published :
    mqtt_publish (97 ∷ []) (7 ∷ []) qos_1 false client quiet
    ≡ some (
      ok,
      record client { next_message_id = 2; last_activity_ms = 100 },
      record quiet { effects = sent packet ∷ [] },
    )
unfolding mqtt_publish publish_packet encode_length mqtt_encode_string
published = refl

publish_loop_example :
    (p : List ℕ) × ((sent packet ∷ []) ≡ sent p ∷ [])
    × (n' : Net) × (mqtt_loop client arriving
        ≡ (ok, holding (publish_body (97 ∷ []) (7 ∷ []) qos_1 2) 100 client, n'))
    × (n'.effects ≡ delivered (97 ∷ []) (0 ∷ 2 ∷ 7 ∷ []) ∷ [])
    × Flows n'.incoming []
unfolding mqtt_next_message_id
publish_loop_example =
    publish_loop (97 ∷ []) (7 ∷ []) [] qos_1 false client
      (record client { next_message_id = 2; last_activity_ms = 100 }) client quiet
      (record quiet { effects = sent packet ∷ [] }) arriving refl published refl refl refl
      (omega arith) (omega arith) (1 ∷ 97 ∷ 0 ∷ 2 ∷ 7 ∷ [], refl, ([], refl, refl))

mqtt_connect_answered_example :
    (r : Reply) × (mqtt_connect
        (record client { state = disconnected })
        (record quiet { incoming = some (0x20 ∷ 2 ∷ 0 ∷ 5 ∷ []) ∷ [] })
      ≡ some r)
    × (r.0 ≡ answer 5)
    × Settled (record quiet { incoming = some (0x20 ∷ 2 ∷ 0 ∷ 5 ∷ []) ∷ [] }) r
unfolding mqtt_encode_string
mqtt_connect_answered_example =
    mqtt_connect_answered 0 5 [] (record client { state = disconnected })
      (record quiet { incoming = some (0x20 ∷ 2 ∷ 0 ∷ 5 ∷ []) ∷ [] }) refl (omega arith) refl refl
      refl ([], refl, refl)

-- The broker closes the connection, and the kernel has no room for a task.
mqtt_connect_lem_example :
    (r : Reply) × (mqtt_connect
        (record client { state = disconnected })
        (record quiet { incoming = none ∷ []; creates = false })
      ≡ some r)
    × Settled (record quiet { incoming = none ∷ []; creates = false }) r
unfolding mqtt_encode_string
mqtt_connect_lem_example =
    mqtt_connect_lem (record client { state = disconnected })
      (record quiet { incoming = none ∷ []; creates = false }) refl (omega arith)
