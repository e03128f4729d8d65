-- ===== src/Mqtt/Topics.antt =====
-- The device id of a topic.
use taffy_assistant.Base.{ℕ, List, [], ◌∷◌, ◌++◌, ◌≡◌, refl, false, eqb, All, arith, length-append}
use taffy_assistant.Mqtt.{slash, until_slash, extract_device_id, topic_of}

until_slash-append :
    (id kind : List ℕ) → All (λ b. eqb b slash ≡ false) id → until_slash (id ++ slash ∷ kind) ≡ id
unfolding until_slash
until_slash-append [] kind h = refl
until_slash-append (b ∷ rest) kind h = ground (arith, until_slash-append rest kind h.1)

-- The id that is read off a topic is the id that the topic was made of, for any id that holds no
-- slash and any kind of topic.
pub extract_device_id-topic_of :
    (id kind : List ℕ)
    → All (λ b. eqb b slash ≡ false) id
    → extract_device_id (topic_of id kind) ≡ id
unfolding extract_device_id topic_of
extract_device_id-topic_of id kind h =
    ground (arith, until_slash-append id kind h, length-append id (slash ∷ kind))
