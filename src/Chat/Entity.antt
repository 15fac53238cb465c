-- ===== src/Chat/Entity.antt =====
-- src/features/chat/domain/entity/messag_payload.hpp: the messages of a conversation.
use chatdesktop.Prelude.{ℤ, pos, negsuc, String, Bool, false, List}

pub data MessageType : Type 0 where
  text voice video location image file sticker : MessageType

pub record Content : Type 0 where
  pub type : MessageType
  pub body_text : String
  pub media_url : String
  pub file_name : String
  pub file_size : ℤ
  pub duration : ℤ
  pub localpath : String

pub record Payload : Type 0 where
  pub is_mine : Bool
  pub message_id : String
  pub sender_id : String
  pub receiver_id : String
  pub reply_message_id : String
  pub timestamp : String
  pub content : Content
  pub attachment_batch_id : String
  pub attachment_index : ℤ

pub record MessageItem : Type 0 where
  pub id : String
  pub sender_id : String
  pub recipient_id : String
  pub body : Payload
  pub sent_at : String
  pub is_mine : Bool
  pub sending : Bool
  pub send_success : Bool

pub record MessageResponse : Type 0 where
  pub messages : List MessageItem
  pub page : ℤ
  pub limit : ℤ
  pub total : ℤ
  pub total_pages : ℤ

-- The member initialisers.
abbrev pub no_content : Content
no_content = record {
  type = text;
  body_text = "";
  media_url = "";
  file_name = "";
  file_size = pos 0;
  duration = pos 0;
  localpath = "";
}

abbrev pub no_payload : Payload
no_payload = record {
  is_mine = false;
  message_id = "";
  sender_id = "";
  receiver_id = "";
  reply_message_id = "";
  timestamp = "";
  content = no_content;
  attachment_batch_id = "";
  attachment_index = negsuc 0;
}

abbrev pub no_message : MessageItem
no_message = record {
  id = "";
  sender_id = "";
  recipient_id = "";
  body = no_payload;
  sent_at = "";
  is_mine = false;
  sending = false;
  send_success = false;
}
