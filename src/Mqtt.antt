-- ===== src/Mqtt.antt =====
-- pico_simple_mqtt/mqtt_handler.cpp and mqtt_handler.h: an MQTT 3.1 client on a byte stream.
pub mod Handler
pub mod Receive
pub mod Idle
pub mod Rounds
pub mod Buffer
pub mod Returns
pub mod Hang
pub mod Send
pub mod Connect
pub mod ConnectTexts
pub mod ConnectTrip
pub mod Length
pub mod Publish
pub mod PublishTrip
pub mod RoundTrip
pub mod Contiguous
mod Tests
