-- ===== src/Mqtt.antt =====
-- mqtt.c: the client's state, and the packets that it sends. A C string is the list of its characters.
pub mod Receive
pub mod Calls
pub mod Topics
use tinyos_rtos.Prelude.{
  ℕ, zero, suc, ◌+◌, ◌*◌, ◌/◌, ◌%◌, ◌^◌, Bool, true, false, ◌||◌, Option, none, some, List, [], ◌∷◌,
  ◌++◌, ltb, leb, ◌==◌, if◌then◌else◌, length, take,
}
use Prim.Native.Nat.{bit_or}
use tinyos_rtos.Prelude.Word.{u16}

-- `mqtt_error_t`
pub data MqttError : Type 0 where
  ok invalid_param not_connected already_connected network timeout protocol : MqttError
  buffer_overflow broker_refused subscribe_failed publish_failed no_memory : MqttError

-- `mqtt_state_t`
pub data ConnectionState : Type 0 where
  disconnected connecting connected disconnecting : ConnectionState

-- `mqtt_qos_t`
pub data Qos : Type 0 where
  qos_0 qos_1 qos_2 : Qos

abbrev pub qos_value : Qos → ℕ
qos_value qos_0 = 0
qos_value qos_1 = 1
qos_value qos_2 = 2

-- `qos > MQTT_QOS_0`
abbrev pub has_message_id : Qos → Bool
has_message_id qos_0 = false
has_message_id qos_1 = true
has_message_id qos_2 = true

-- `mqtt_config_t`, with NULL as `none`
pub record Config : Type 0 where
  pub broker_port : ℕ
  pub client_id : List ℕ
  pub username : Option (List ℕ)
  pub password : Option (List ℕ)
  pub keepalive_sec : ℕ
  pub clean_session : Bool
  pub will_topic : Option (List ℕ)
  pub will_message : List ℕ
  pub will_qos : Qos
  pub will_retained : Bool
  pub timeout_ms : ℕ

-- `mqtt_subscription_t`
pub record Subscription : Type 0 where
  pub topic : List ℕ
  pub qos : Qos
  pub active : Bool

-- `mqtt_client_t`. Of a callback only its presence is kept.
pub record Client : Type 0 where
  pub config : Config
  pub state : ConnectionState
  pub next_message_id : ℕ  -- uint16_t
  pub last_activity_ms : ℕ
  pub last_ping_ms : ℕ
  pub message_callback : Bool
  pub connection_callback : Bool
  pub subscriptions : List Subscription
  pub rx_buffer : List ℕ
  pub rx_buffer_pos : ℕ
  pub task_running : Bool

-- What the client does to its surroundings, in order; `started` is its task, put in the kernel's table.
pub data Effect : Type 0 where
  opened closed started : Effect
  sent : List ℕ → Effect
  delivered : List ℕ → List ℕ → Effect
  told : Bool → Effect

-- The network during a call: whether net_socket, net_dns_resolve, net_connect and net_send succeed,
-- whether os_task_create has room, the time, and what arrives. `none` is an error of net_recv, `some []` that the time ran out.
pub record Net : Type 0 where
  pub opens : Bool
  pub resolves : Bool
  pub connects : Bool
  pub sends : Bool
  pub creates : Bool
  pub now : ℕ
  pub incoming : List (Option (List ℕ))
  pub effects : List Effect

abbrev pub then_effect : Effect → Net → Net
then_effect e n = record n { effects = n.effects ++ (e ∷ []) }

-- The rounds that are left, at most 5 for a uint32_t.
unfoldable pub encode_length : ℕ → ℕ → List ℕ
encode_length zero length = []
encode_length (suc rounds) length =
    let rest = encode_length rounds (length / 128) in
    if ltb 0 (length / 128) then bit_or (length % 128) 0x80 ∷ rest else length % 128 ∷ []

abbrev pub mqtt_encode_remaining_length : ℕ → List ℕ
mqtt_encode_remaining_length length = encode_length 5 length

-- The high byte and the low byte of a uint16_t
abbrev pub two_bytes : ℕ → List ℕ
two_bytes n = n / 256 ∷ n % 256 ∷ []

unfoldable pub mqtt_encode_string : List ℕ → List ℕ
mqtt_encode_string str = two_bytes (u16 (length str)) ++ take (u16 (length str)) str

unfoldable pub mqtt_next_message_id : Client → ℕ × Client
mqtt_next_message_id c =
    let next = u16 (c.next_message_id + 1) in
    let id = if next == 0 then 1 else next in (id, record c { next_message_id = id })

-- The result, and what the call changed.
abbrev pub Reply : Type 0
Reply = MqttError × Client × Net

abbrev pub is_open : ConnectionState → Bool
is_open disconnected = false
is_open connecting = true
is_open connected = true
is_open disconnecting = false

unfoldable pub mqtt_send_packet : List ℕ → Client → Net → Reply
mqtt_send_packet bytes c n =
    if is_open c.state
    then (if n.sends
        then (ok, record c { last_activity_ms = n.now }, then_effect (sent bytes) n)
        else (network, c, n))
    else (not_connected, c, n)

-- A packet that is built in `tx_buffer`, up to an end. `none` is a write past its 1024 bytes.
unfoldable pub send_built : ℕ → List ℕ → Client → Net → Option Reply
unfolding mqtt_send_packet
send_built end bytes c n = if ltb 1024 end then none else some (mqtt_send_packet bytes c n)

-- An optional string of CONNECT
abbrev pub string_if : Option (List ℕ) → List ℕ
string_if none = []
string_if (some str) = mqtt_encode_string str

abbrev pub will_part : Config → Option (List ℕ) → List ℕ
will_part config none = []
will_part config (some topic) =
    mqtt_encode_string topic
    ++ (two_bytes (u16 (length config.will_message)) ++ config.will_message)

abbrev pub flag_if : {A : Type 0} → ℕ → Option A → ℕ
flag_if flag none = 0
flag_if flag (some a) = flag

abbrev pub will_flags : Config → Option (List ℕ) → ℕ
will_flags config none = 0
will_flags config (some topic) =
    4 + qos_value config.will_qos * 2 ^ 3 + (if config.will_retained then 0x20 else 0)

-- The flags are different bits, so that `|` adds them.
abbrev pub connect_flags : Config → ℕ
connect_flags config =
    (if config.clean_session then 2 else 0)
    + will_flags config config.will_topic
    + flag_if 0x80 config.username
    + flag_if 0x40 config.password

abbrev pub connect_rest : Config → List ℕ
connect_rest config =
    mqtt_encode_string (b'M' ∷ b'Q' ∷ b'T' ∷ b'T' ∷ [])
    ++ (4
        ∷ connect_flags config
        ∷ config.keepalive_sec / 256
        ∷ config.keepalive_sec % 256
        ∷ (mqtt_encode_string config.client_id
            ++ (will_part config config.will_topic
                ++ (string_if config.username ++ string_if config.password))))

-- The rest is built behind five bytes, and moved to the length.
unfoldable pub mqtt_send_connect : Client → Net → Option Reply
unfolding send_built
mqtt_send_connect c n =
    let rest = connect_rest c.config in
    send_built (5 + length rest) (0x10 ∷ (mqtt_encode_remaining_length (length rest) ++ rest)) c n

abbrev pub publish_flags : Qos → Bool → ℕ
publish_flags qos retained = bit_or (if retained then 1 else 0) (qos_value qos * 2)

abbrev pub id_bytes : Qos → ℕ → List ℕ
id_bytes qos message_id = if has_message_id qos then two_bytes message_id else []

unfoldable pub publish_packet : List ℕ → List ℕ → Qos → Bool → ℕ → List ℕ
publish_packet topic payload qos retained message_id =
    bit_or 0x30 (publish_flags qos retained)
    ∷ (mqtt_encode_remaining_length
          (2 + u16 (length topic) + length payload + (if has_message_id qos then 2 else 0))
        ++ (mqtt_encode_string topic ++ (id_bytes qos message_id ++ payload)))

-- The payload is its `payload_len` bytes.
unfoldable pub mqtt_send_publish : List ℕ → List ℕ → Qos → Bool → ℕ → Client → Net → Option Reply
unfolding send_built
mqtt_send_publish topic payload qos retained message_id c n =
    let packet = publish_packet topic payload qos retained message_id in
    send_built (length packet) packet c n

-- SUBSCRIBE and UNSUBSCRIBE, with the bytes behind the topic
abbrev pub filter_packet : ℕ → ℕ → List ℕ → List ℕ → List ℕ
filter_packet first message_id topic last =
    first
    ∷ (mqtt_encode_remaining_length (4 + u16 (length topic) + length last)
        ++ (two_bytes message_id ++ (mqtt_encode_string topic ++ last)))

unfoldable pub mqtt_send_subscribe : List ℕ → Qos → Client → Net → Option Reply
unfolding send_built mqtt_next_message_id
mqtt_send_subscribe topic qos c n =
    let (id, c') = mqtt_next_message_id c in
    let packet = filter_packet 0x82 id topic (qos_value qos ∷ []) in
    send_built (length packet) packet c' n

unfoldable pub mqtt_send_unsubscribe : List ℕ → Client → Net → Option Reply
unfolding send_built mqtt_next_message_id
mqtt_send_unsubscribe topic c n =
    let (id, c') = mqtt_next_message_id c in
    let packet = filter_packet 0xa2 id topic [] in send_built (length packet) packet c' n
