-- ===== src/Examples.antt =====
-- A small household, and libraries to run the server and the worker with.
pub mod Server
pub mod Session
pub mod Worker
pub mod Tokens
pub mod Runs
use taffy_assistant.Base.{
  ℕ, String, Bool, true, false, Option, none, some, List, [], ◌∷◌, ◌≡◌, refl, ◌∙◌, sym, ◌==◌,
  eq_iff, arith, ◌≤◌, leb, char_count, exists_row, if◌then◌else◌,
}
use taffy_assistant.Json.{Json, Items, str, obj, end, field, Raw, doc}
use taffy_assistant.Model.{User, Device, light, speaker, online, waiting_bind, DeviceState, Scene}
use taffy_assistant.Service.Users.{Bcrypt}
use taffy_assistant.Store.{Collation, Db, World}
use taffy_assistant.Service.Devices.{DeviceService}

pub same_refl : (s : String) → (s == s) ≡ true
same_refl s = ground (arith, eq_iff s s)

pub same_sym : (s t : String) → (s == t) ≡ true → (t == s) ≡ true
same_sym s t h = ground (arith, eq_iff s t, eq_iff t s)

pub same_trans : (s t u : String) → (s == t) ≡ true → (t == u) ≡ true → (s == u) ≡ true
same_trans s t u h k = ground (arith, eq_iff s t, eq_iff t u, eq_iff s u)

-- Columns that hold what fits as it is, and nothing else.
abbrev pub short : ℕ → String → Option String
short n s = if leb (char_count s) n then some s else none

pub short-fits : (n : ℕ) (s : String) → char_count s ≤ n → short n s ≡ some s
short-fits n s h = ground arith

abbrev pub labelled : List String → String → Option String
labelled ls s = if exists_row (λ x. x == s) ls then some s else none

pub labelled-own :
    (ls : List String) (s : String) → exists_row (λ x. x == s) ls ≡ true → labelled ls s ≡ some s
labelled-own ls s h = rw h refl

-- A binary collation.
instance abbrev pub binary : Collation
binary = record {
  same = ◌==◌;
  same_refl = same_refl;
  same_sym = same_sym;
  same_trans = same_trans;
  varchar = short;
  varchar_short = short-fits;
  enum = labelled;
  enum_label = labelled-own;
}

abbrev pub owner : User
owner = record {
  user_id = 1;
  phone = "13800000001";
  email = "a@b.c";
  password_hash = "secret";
  nickname = "owner";
  avatar_url = "";
}

abbrev pub lamp : Device
lamp = record {
  device_id = "lamp";
  owner_id = some 1;
  type = light;
  name = "lamp";
  room = "hall";
  status = online;
  token = "t1";
  bind_code = "";
  last_seen = none;
}

abbrev pub fresh : Device
fresh = record {
  device_id = "fresh";
  owner_id = none;
  type = speaker;
  name = "speaker";
  room = "";
  status = waiting_bind;
  token = "t2";
  bind_code = "1234";
  last_seen = none;
}

abbrev pub lamp_state : DeviceState
lamp_state = record {
  device_id = "lamp";
  power = false;
  brightness = none;
  temperature = none;
  mode = none;
  position = none;
}

abbrev pub turn_on_lamp : Raw
turn_on_lamp = doc (obj (field "device_id" (str "lamp") (field "action" (str "turn_on") end)))

abbrev pub evening : Scene
evening = record {
  scene_id = 7;
  user_id = 1;
  name = "evening";
  command_list = doc (Json.arr (Items.cons (str "bad") Items.nil));
}

abbrev pub household : World
household = record {
  db = record {
    users = owner ∷ [];
    devices = lamp ∷ fresh ∷ [];
    states = lamp_state ∷ [];
    conversations = [];
    messages = [];
    commands = [];
    scenes = evening ∷ [];
    next_user = 2;
    next_conversation = 1;
    next_message = 1;
    next_command = 1;
    next_scene = 8;
  };
  now = 100;
  faults = [];
  published = [];
}

abbrev pub service : DeviceService
service = record { mqtt_pub = true; scene_svc = true }

pub plain_compared :
    (salt password hash : String) → some password ≡ some hash → (hash == password) ≡ true
plain_compared salt password hash h = ground (arith, eq_iff hash password)

-- A hash that is the password.
instance abbrev pub plain_hash : Bcrypt
plain_hash = record {
  generate_from_password = λ salt password. some password;
  compare_hash_and_password = ◌==◌;
  compare_generated = plain_compared;
}
