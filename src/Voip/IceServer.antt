-- ===== src/Voip/IceServer.antt =====
-- src/features/voip/signaling/ice_server.hpp, and the servers that service discovery brings.
use chatdesktop.Prelude.{ℕ, String, Option, none, some, List, [], ◌∷◌, str_eq, if◌then◌else◌}

pub data IceType : Type 0 where
  turn turns stun : IceType

pub record IceServer : Type 0 where
  pub type : IceType
  pub host : String
  pub port : String
  pub username : String
  pub credential : String

unfoldable pub ice_type_to_string : IceType → String
ice_type_to_string turn = "turn"
ice_type_to_string stun = "stun"
ice_type_to_string turns = "turns"

unfoldable pub ice_type_of_string : String → Option IceType
ice_type_of_string s =
    if str_eq s "turn"
    then some turn
    else if str_eq s "turns"
    then some turns
    else if str_eq s "stun"
    then some stun
    else none

-- `QXmppExternalService`.
pub record ExternalService : Type 0 where
  pub type : String
  pub host : String
  pub port : Option ℕ
  pub username : Option String
  pub password : Option String

abbrev pub text_or_empty : Option String → String
text_or_empty none = ""
text_or_empty (some s) = s

-- `number` is `QString::number`.
module _ (number : ℕ → String) where
  abbrev pub port_text : Option ℕ → String
  port_text none = ""
  port_text (some n) = number n

  unfoldable pub cons_server : Option IceType → ExternalService → List IceServer → List IceServer
  cons_server none s rest = rest
  cons_server (some t) s rest =
      record {
        type = t;
        host = s.host;
        port = port_text s.port;
        username = text_or_empty s.username;
        credential = text_or_empty s.password;
      }
      ∷ rest

  -- The servers of the types that are known.
  unfoldable pub ice_servers : List ExternalService → List IceServer
  ice_servers [] = []
  ice_servers (s ∷ ss) = cons_server (ice_type_of_string s.type) s (ice_servers ss)
