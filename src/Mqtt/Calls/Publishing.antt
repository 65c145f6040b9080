-- ===== src/Mqtt/Calls/Publishing.antt =====
-- What mqtt_publish sends, and where it writes past its buffer.
use tinyos_rtos.Prelude.{
  ℕ, ◌+◌, ◌≤◌, ◌<◌, ◌≡◌, ◌↔◌, refl, ap, ◌∙◌, Bool, inl, inr, none, some, List, [], ◌∷◌, ◌++◌, arith,
  ltb, ltb→lt, if◌then◌else◌, Bool-cases, length, length-append, take, take-length,
}
use tinyos_rtos.Prelude.Word.{u16}
use tinyos_rtos.Mqtt.{
  publish_flags, bit_or, ok, connected, Qos, qos_0, qos_1, qos_2, has_message_id, Client, Net, sent,
  publish_packet, id_bytes, mqtt_encode_string, mqtt_encode_remaining_length, send_built,
  mqtt_send_packet, mqtt_send_publish,
}
use tinyos_rtos.Mqtt.Receive.Lengths.{length-encode_length, two-le-length}
use tinyos_rtos.Mqtt.Calls.{publish_id, mqtt_publish}

-- The length that the packet announces
abbrev pub remaining : List ℕ → List ℕ → Qos → ℕ
remaining topic payload qos =
    2 + length topic + length payload + (if has_message_id qos then 2 else 0)

-- The bytes behind the length
unfoldable pub publish_body : List ℕ → List ℕ → Qos → ℕ → List ℕ
publish_body topic payload qos id = mqtt_encode_string topic ++ (id_bytes qos id ++ payload)

pub length-id_bytes :
    (payload : List ℕ) (qos : Qos) (id : ℕ)
    → length (id_bytes qos id ++ payload) ≡ (if has_message_id qos then 2 else 0) + length payload
length-id_bytes payload qos_0 id = omega arith
length-id_bytes payload qos_1 id = omega arith
length-id_bytes payload qos_2 id = omega arith

pub length-publish_body :
    (topic payload : List ℕ) (qos : Qos) (id : ℕ)
    → length topic < 65536
    → length (publish_body topic payload qos id) ≡ remaining topic payload qos
unfolding mqtt_encode_string publish_body
length-publish_body topic payload qos id short =
    let e : u16 (length topic) ≡ length topic = omega arith in
    let whole : take (u16 (length topic)) topic ≡ topic =
      ap (λ (k : ℕ). take k topic) e ∙ take-length topic in
    let s = length-append topic (id_bytes qos id ++ payload) in
    let ids = length-id_bytes payload qos id in rw whole (omega (arith, s, ids))

send_built-none :
    (end : ℕ) (bytes : List ℕ) (c : Client) (n : Net)
    → (send_built end bytes c n ≡ none) ↔ (1024 < end)
unfolding send_built
send_built-none end bytes c n = elim (Bool-cases (ltb 1024 end)) [
  | inl long ↦ (λ h. ltb→lt 1024 end long, λ h. rw long refl)
  | inr fits ↦ rw fits (λ h. absurd (cc h), λ h. absurd (ground (arith, fits)))
]

too_long : (size : ℕ) → 1024 < 1 + length (mqtt_encode_remaining_length size) + size → 1021 < size
too_long size h = elim (Bool-cases (ltb 1021 size)) [
  | inl long ↦ ltb→lt 1021 size long
  | inr fits ↦
      let small : size ≤ 1021 = ground (arith, fits) in
      absurd (omega (arith, length-encode_length 1 5 size (omega arith)))
]

-- The whole packet
pub publish_packet_lem :
    (topic payload : List ℕ) (qos : Qos) (retained : Bool) (id : ℕ)
    → length topic < 65536
    → publish_packet topic payload qos retained id
      ≡ bit_or 0x30 (publish_flags qos retained)
        ∷ (mqtt_encode_remaining_length (remaining topic payload qos)
            ++ publish_body topic payload qos id)
unfolding publish_packet publish_body
publish_packet_lem topic payload qos retained id short =
    let e : u16 (length topic) ≡ length topic = omega arith in rw e refl

module _ (topic payload : List ℕ) (qos : Qos) (retained : Bool) where
  pub length-publish_packet :
      (id : ℕ)
      → length topic < 65536
      → length (publish_packet topic payload qos retained id)
        ≡ 1
          + length (mqtt_encode_remaining_length (remaining topic payload qos))
          + remaining topic payload qos
  length-publish_packet id short =
      let size = remaining topic payload qos in
      let body = publish_body topic payload qos id in
      let s = length-append (mqtt_encode_remaining_length size) body in
      let b = length-publish_body topic payload qos id short in
      ap length (publish_packet_lem topic payload qos retained id short) ∙ omega (arith, s, b)

  -- A publish that succeeds sends one packet, which fits in the buffer.
  pub mqtt_publish-ok :
      (c c' : Client) (n n' : Net)
      → mqtt_publish topic payload qos retained c n ≡ some (ok, c', n')
      → (length (publish_packet topic payload qos retained (publish_id qos c).0) ≤ 1024)
        × (n'.effects
            ≡ n.effects
              ++ (sent (publish_packet topic payload qos retained (publish_id qos c).0) ∷ []))
  unfolding mqtt_publish mqtt_send_publish send_built mqtt_send_packet
  mqtt_publish-ok c c' n n' e = ground arith

  mqtt_publish_lem :
      (c : Client) (n : Net)
      → c.state ≡ connected
      → mqtt_publish topic payload qos retained c n
        ≡ send_built
            (length (publish_packet topic payload qos retained (publish_id qos c).0))
            (publish_packet topic payload qos retained (publish_id qos c).0)
            (publish_id qos c).1
            n
  unfolding mqtt_publish mqtt_send_publish
  mqtt_publish_lem c n online = rw online refl

  -- A publish of a connected client, with a topic shorter than 65,536 characters, writes past
  -- the transmit buffer exactly if the length that the packet announces is above 1021: whatever the
  -- caller asks for is copied.
  pub mqtt_publish_overflow :
      (c : Client) (n : Net)
      → c.state ≡ connected
      → length topic < 65536
      → (mqtt_publish topic payload qos retained c n ≡ none) ↔ (1021 < remaining topic payload qos)
  unfolding send_built
  mqtt_publish_overflow c n online short =
      let size = remaining topic payload qos in
      let long = length-publish_packet (publish_id qos c).0 short in
      let cut =
        send_built-none (length (publish_packet topic payload qos retained (publish_id qos c).0))
          (publish_packet topic payload qos retained (publish_id qos c).0) (publish_id qos c).1 n in
      rw (mqtt_publish_lem c n online) (
        λ h. too_long size (omega (arith, cut.0 h, long)),
        λ h. cut.1 (omega (arith, two-le-length size, long)),
      )
