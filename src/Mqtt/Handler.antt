-- ===== src/Mqtt/Handler.antt =====
-- The state of `MQTTSocketHandler`, the calls that it makes on its owner, and its constants.
use pico_https.Common.{ℕ, Bool, false, Bytes}

abbrev pub mqtt_qos1 : ℕ
mqtt_qos1 = 0x02

abbrev pub mqtt_qos2 : ℕ
mqtt_qos2 = 0x04

abbrev pub mqtt_retain : ℕ
mqtt_retain = 0x01

abbrev pub mqtt_max_header_size : ℕ
mqtt_max_header_size = 5

abbrev pub mqtt_buffer_size : ℕ
mqtt_buffer_size = 256

-- `mqtt_message_type_t`
abbrev pub mqtt_connect : ℕ
mqtt_connect = 0x10

abbrev pub mqtt_connack : ℕ
mqtt_connack = 0x20

abbrev pub mqtt_publish : ℕ
mqtt_publish = 0x30

abbrev pub mqtt_puback : ℕ
mqtt_puback = 0x40

abbrev pub mqtt_subscribe : ℕ
mqtt_subscribe = 0x80

abbrev pub mqtt_suback : ℕ
mqtt_suback = 0x90

abbrev pub mqtt_pingreq : ℕ
mqtt_pingreq = 0xC0

abbrev pub mqtt_pingresp : ℕ
mqtt_pingresp = 0xD0

pub data SocketState : Type 0 where
  wait_packet wait_data : SocketState

-- The calls on `MQTTSocketInterface` while bytes are decoded. The code drops their results, so a
-- call is its arguments.
pub data Callback : Type 0 where
  on_pub_ack : (message_id : ℕ) → Callback
  on_sub_ack : (message_id : ℕ) → Callback
  on_conn_ack : (code flags : ℕ) → Callback
  on_ping_req : Callback
  on_ping_resp : Callback
  on_publish_header : Bytes → (topic_length message_id message_length : ℕ) → Callback
  on_publish_data : Bytes → (last_chunk : Bool) → Callback

-- The private fields, without `m_debug` and the two pointers.
pub record MqttSocketHandler : Type 0 where
  pub pending_ping : Bool
  pub keepalive_seconds : ℕ
  pub message_id : ℕ
  pub recv_buffer_idx : ℕ
  pub recv_buffer : Bytes
  pub state : SocketState
  pub last_keepalive_us : ℕ
  pub pending_data_len : ℕ
  pub pending_send_data_len : ℕ

-- `reset`, at the time `now_us`
unfoldable pub reset : ℕ → MqttSocketHandler → MqttSocketHandler
reset now_us h = record h {
  pending_ping = false;
  message_id = 1;
  recv_buffer_idx = 0;
  state = wait_packet;
  last_keepalive_us = now_us;
  pending_data_len = 0;
  pending_send_data_len = 0;
}
