-- ===== src/Mqtt.antt =====
-- The MQTT bridge: server/internal/mqtt/bridge.go. Topics are texts as their bytes.
pub mod Topics
pub mod Bridge
use taffy_assistant.Base.{
  ℕ, ◌-◌, String, Bool, true, false, Option, none, some, List, [], ◌∷◌, ◌++◌, eqb, leb, length,
  if◌then◌else◌,
}

-- The bytes of "taffy/device/".
abbrev pub topic_prefix : List ℕ
topic_prefix = 116 ∷ 97 ∷ 102 ∷ 102 ∷ 121 ∷ 47 ∷ 100 ∷ 101 ∷ 118 ∷ 105 ∷ 99 ∷ 101 ∷ 47 ∷ []

-- The byte of "/".
abbrev pub slash : ℕ
slash = 47

unfoldable pub drop : ℕ → List ℕ → List ℕ
drop ℕ.zero xs = xs
drop (ℕ.suc n) [] = []
drop (ℕ.suc n) (x ∷ xs) = drop n xs

-- The loop: what stands before the first slash, or all of it.
unfoldable pub until_slash : List ℕ → List ℕ
until_slash [] = []
until_slash (b ∷ rest) = if eqb b slash then [] else b ∷ until_slash rest

-- `extractDeviceID`. The prefix is taken off without being looked at.
unfoldable pub extract_device_id : List ℕ → List ℕ
unfolding drop until_slash
extract_device_id topic =
    if leb (length topic) (length topic_prefix)
    then []
    else until_slash (drop (length topic_prefix) topic)

-- `fmt.Sprintf(topicCmdFmt, deviceID)`, and the topics of the other kinds.
unfoldable pub topic_of : List ℕ → List ℕ → List ℕ
topic_of id kind = topic_prefix ++ (id ++ slash ∷ kind)
