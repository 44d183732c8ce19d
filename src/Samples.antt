-- ===== src/Samples.antt =====
-- Concrete functions for what the program takes from GLib, JSON-GLib and rabbitmq-c, and data, for
-- the tests of the other modules.
use chamge.Prelude.{
  ℕ, true, false, Option, none, some, List, [], ◌∷◌, Text, codes, take, text_eq, ◌==◌,
  if◌then◌else◌,
}
use chamge.Glib.{Glib}
use chamge.Amqp.{
  Rabbit, Net, RpcReply, normal, library_exception, timeout, Properties, Envelope, ConnectionInfo,
}
use chamge.Backend.{Config}

abbrev push_code : ℕ → List Text → List Text
push_code c [] = (c ∷ []) ∷ []
push_code c (t ∷ ts) = (c ∷ t) ∷ ts

-- The parts of a text between its quotation marks.
abbrev pub parts : Text → List Text
parts [] = [] ∷ []
parts (c ∷ t) = let rest = parts t in if c == 34 then [] ∷ rest else push_code c rest

-- The strings of an object of strings, keys and values in turn.
abbrev strings : List Text → List Text
strings [] = []
strings (outside ∷ []) = []
strings (outside ∷ inside ∷ rest) = inside ∷ strings rest

abbrev value_of : Text → List Text → Option (Option Text)
value_of name [] = none
value_of name (key ∷ []) = none
value_of name (key ∷ value ∷ rest) =
    if text_eq key name then some (some value) else value_of name rest

-- A document is an object of strings; any text that begins with a brace is one.
abbrev load_strings : Text → Option (List Text)
load_strings [] = none
load_strings (c ∷ t) = if c == 123 then some (strings (parts t)) else none

-- The value of a hexadecimal digit in lower case.
abbrev digit_value : Text → ℕ
digit_value [] = 0
digit_value (c ∷ t) = if c == 97 then 10 else if c == 55 then 7 else 0

abbrev pub sample_glib : Glib
sample_glib = record {
  md5_hex = λ t. t;
  sha256_hex = λ t. t;
  strtoull16 = digit_value;
  same_ascii = λ a b n. text_eq (take n a) (take n b);
  Document = List Text;
  load = load_strings;
  member = λ doc name. value_of name doc;
  decimal = λ n. codes "0";
  hex8 = λ n. codes "00000000";
}

abbrev pub no_properties : Properties
no_properties = record {
  content_type = none;
  delivery_mode = 0;
  reply_to = none;
  correlation_id = none;
}

abbrev empty_envelope : Envelope
empty_envelope = record { channel = 0; properties = no_properties; body = none }

-- The messages that will come; when there is none left the wait ends by its timeout.
abbrev pub Inbox : Type 0
Inbox = List (RpcReply × Envelope)

abbrev next_message : Inbox → (RpcReply × Envelope) × Inbox
next_message [] = ((library_exception timeout, empty_envelope), [])
next_message (m ∷ inbox) = (m, inbox)

abbrev sample_url : Text → Option ConnectionInfo
sample_url [] = none
sample_url (c ∷ t) = some (record {
  host = codes "localhost";
  port = 5672;
  vhost = codes "/";
  user = codes "guest";
  password = codes "guest";
})

-- The broker chooses the name of a queue that has none.
abbrev chosen : Text → Text
chosen [] = codes "amq.gen"
chosen (c ∷ t) = c ∷ t

-- A broker that accepts everything; the first uuid is "7a".
abbrev pub sample_rabbit : Rabbit
sample_rabbit = record {
  World = Inbox;
  Connection = Unit {0};
  parse_url = sample_url;
  new_connection = λ w. (some tt, w);
  socket_open = λ c host port w. (true, w);
  login = λ c info w. (normal, w);
  channel_open = λ c n w. (true, w);
  get_rpc_reply = λ c w. (normal, w);
  queue_declare = λ c n name passive w. (some (chosen name), w);
  queue_bind = λ c n queue exchange key w. (true, w);
  basic_consume = λ c n queue w. (true, w);
  basic_publish = λ c n exchange queue props body w. (none, w);
  frames_enqueued = λ c w. false;
  consume_message = λ c w. next_message w;
  channel_close = λ c n w. (normal, w);
  connection_close = λ c w. (normal, w);
  destroy_connection = λ c w. (none, w);
  error_string2 = λ e. codes "error";
  uuid_string_random = λ w. (codes "7a", w);
  source_add = λ w. (1, w);
  source_remove = λ id w. w;
}

abbrev pub sample_config : Config
sample_config = record {
  amqp_uri = codes "amqp://";
  amqp_channel = 1;
  enroll_queue_name = codes "enroll";
  enroll_exchange_name = codes "amq.direct";
}

-- A normal message with the given correlation id and body.
abbrev pub message : Option Text → Text → RpcReply × Envelope
message id body = (
  normal,
  record {
    channel = 1;
    properties = record no_properties { correlation_id = id };
    body = some body;
  },
)

abbrev pub net : Inbox → Net sample_rabbit
net inbox = record { world = inbox; log = [] }

-- A broker that hands over one answer, as often as it is asked.
abbrev pub answering : Text → Rabbit
answering text = record sample_rabbit {
  consume_message = λ c w. (message (some (codes "7a")) text, w);
}
