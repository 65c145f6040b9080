-- ===== src/Mqtt/Calls/Counts.antt =====
-- mqtt.c: the sockets that are open and the tasks that were created after some effects.
use tinyos_rtos.Prelude.{ℕ, zero, suc, ◌+◌, ◌-◌, ◌≡◌, refl, List, [], ◌∷◌, ◌++◌, arith}
use tinyos_rtos.Mqtt.{Client, Net, Effect, opened, closed, started}
use tinyos_rtos.Mqtt.Receive.{receive_body, receive_length, mqtt_receive_packet}

-- The sockets that are open after an effect, and the tasks that were created.
abbrev pub socket_step : Effect → ℕ → ℕ
socket_step opened k = k + 1
socket_step closed k = k - 1
socket_step other k = k

abbrev pub task_step : Effect → ℕ → ℕ
task_step started k = k + 1
task_step other k = k

pub counted : (Effect → ℕ → ℕ) → ℕ → List Effect → ℕ
counted step k [] = k
counted step k (e ∷ es) = counted step (step e k) es

abbrev pub sockets : Net → ℕ
sockets n = counted socket_step 0 n.effects

abbrev pub tasks : Net → ℕ
tasks n = counted task_step 0 n.effects

pub counted-last :
    (step : Effect → ℕ → ℕ) (k : ℕ) (es : List Effect) (e : Effect)
    → counted step k (es ++ (e ∷ [])) ≡ step e (counted step k es)
unfolding counted
counted-last step k [] e = refl
counted-last step k (x ∷ es) e = counted-last step (step x k) es e

body-effects :
    (type size : ℕ) (c : Client) (n : Net) → (receive_body type size c n).3.effects ≡ n.effects
unfolding receive_body
body-effects type zero c n = refl
body-effects type (suc r) c n = ground arith

length-effects : (type : ℕ) (c : Client) (n : Net) → (receive_length type c n).3.effects ≡ n.effects
unfolding receive_length
length-effects type c n = grind (arith, body-effects)

-- Receiving calls nobody and closes nothing.
pub receive-effects : (c : Client) (n : Net) → (mqtt_receive_packet c n).3.effects ≡ n.effects
unfolding mqtt_receive_packet
receive-effects c n = grind (arith, length-effects)

body-creates :
    (type size : ℕ) (c : Client) (n : Net) → (receive_body type size c n).3.creates ≡ n.creates
unfolding receive_body
body-creates type zero c n = refl
body-creates type (suc r) c n = ground arith

length-creates : (type : ℕ) (c : Client) (n : Net) → (receive_length type c n).3.creates ≡ n.creates
unfolding receive_length
length-creates type c n = grind (arith, body-creates)

pub receive-creates : (c : Client) (n : Net) → (mqtt_receive_packet c n).3.creates ≡ n.creates
unfolding mqtt_receive_packet
receive-creates c n = grind (arith, length-creates)
