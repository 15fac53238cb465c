-- ===== src/Chat/Wire/SmallJson.antt =====
-- A JSON of association lists that fulfils the laws of the wire format, for its examples, and a
-- message.
use chatdesktop.Prelude.{
  ◌≡◌, refl, ap, ℤ, pos, String, Bool, true, false, Option, none, some, List, [], ◌∷◌, str_eq,
  if◌then◌else◌,
}
use chatdesktop.Chat.Entity.{image}
use chatdesktop.Chat.Wire.{JsonApi, JsonLaws, PayloadDto, payload_to_json}

mutual
  pub data Json : Type 0 where
    undefined : Json
    string : String → Json
    number : ℤ → Json
    object : Members → Json
    array : Elements → Json

  pub data Members : Type 0 where
    no_members : Members
    member : String → Json → Members → Members

  pub data Elements : Type 0 where
    no_elements : Elements
    element : Json → Elements → Elements

abbrev pub of_list : List Json → Elements
of_list [] = no_elements
of_list (v ∷ vs) = element v (of_list vs)

abbrev pub to_list : Elements → List Json
to_list no_elements = []
to_list (element v vs) = v ∷ to_list vs

to_list-of_list : (vs : List Json) → to_list (of_list vs) ≡ vs
to_list-of_list [] = refl
to_list-of_list (v ∷ vs) = ap (◌∷◌ v) (to_list-of_list vs)

abbrev pub json_string : Json → String
json_string (string s) = s
json_string undefined = ""
json_string (number n) = ""
json_string (object ms) = ""
json_string (array vs) = ""

abbrev pub json_number : ℤ → Json → ℤ
json_number d (number n) = n
json_number d undefined = d
json_number d (string s) = d
json_number d (object ms) = d
json_number d (array vs) = d

abbrev pub json_object : Json → Members
json_object (object ms) = ms
json_object undefined = no_members
json_object (string s) = no_members
json_object (number n) = no_members
json_object (array vs) = no_members

abbrev pub json_array : Json → List Json
json_array (array vs) = to_list vs
json_array undefined = []
json_array (string s) = []
json_array (number n) = []
json_array (object ms) = []

abbrev pub is_json_string : Json → Bool
is_json_string (string s) = true
is_json_string undefined = false
is_json_string (number n) = false
is_json_string (object ms) = false
is_json_string (array vs) = false

abbrev pub is_json_object : Json → Bool
is_json_object (object ms) = true
is_json_object undefined = false
is_json_object (string s) = false
is_json_object (number n) = false
is_json_object (array vs) = false

abbrev pub is_json_array : Json → Bool
is_json_array (array vs) = true
is_json_array undefined = false
is_json_array (string s) = false
is_json_array (number n) = false
is_json_array (object ms) = false

abbrev pub lookup : Members → String → Json
lookup no_members j = undefined
lookup (member k v ms) j = if str_eq k j then v else lookup ms j

-- An object is printed as the name of its first member, and read back from a list of known objects.
abbrev pub printed : Members → String
printed no_members = "{}"
printed (member k v ms) = k

abbrev pub find_printed : List Members → String → Option Members
find_printed [] s = none
find_printed (o ∷ os) s = if str_eq s (printed o) then some o else find_printed os s

abbrev pub json_of : List Members → JsonApi
json_of sent = record {
  Value = Json;
  Object = Members;
  missing = undefined;
  of_string = string;
  of_int = number;
  of_object = object;
  of_array = λ vs. array (of_list vs);
  to_string = json_string;
  to_int = json_number;
  to_long = json_number (pos 0);
  to_object = json_object;
  to_array = json_array;
  is_string = is_json_string;
  is_object = is_json_object;
  is_array = is_json_array;
  empty = no_members;
  insert = λ ms k v. member k v ms;
  value = lookup;
  parse = find_printed sent;
  print = printed;
  plain = λ s. s;
}

pub json_laws : (sent : List Members) → JsonLaws (json_of sent)
json_laws sent = record {
  value-insert = λ o k v j. refl;
  value-empty = λ k. refl;
  to_string-of_string = λ s. refl;
  to_string-missing = refl;
  to_int-of_int = λ d n h. refl;
  to_int-missing = λ d. refl;
  to_long-of_int = λ n h. refl;
  to_long-missing = refl;
  to_object-of_object = λ o. refl;
  is_object-of_object = λ o. refl;
  to_array-of_array = to_list-of_list;
  is_array-of_array = λ vs. refl;
  is_string-of_object = λ o. refl;
}

abbrev pub no_json : JsonApi
no_json = json_of []

abbrev pub picture : (json : JsonApi) → PayloadDto json
picture json = record {
  message_id = "m1";
  sender_id = "u1";
  receiver_id = "u2";
  reply_message_id = "";
  timestamp = "2024-01-02T03:04:05Z";
  content = record {
    type = image;
    body_text = "look";
    media_url = "https://x/y.png";
    file_name = "y.png";
    file_size = pos 1234;
    duration = pos 7;
  };
  attachment_batch_id = "b1";
  attachment_index = pos 1;
}

abbrev pub sent_picture : Members
sent_picture = payload_to_json no_json (picture no_json)

abbrev pub json : JsonApi
json = json_of (sent_picture ∷ [])
