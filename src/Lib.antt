-- ===== src/Lib.antt =====
-- pico_https: network libraries for the Raspberry Pi Pico W, above lwIP and mbedtls.
--
-- The program's layers. `pico_tls` owns a TCP or TLS connection and hands received bytes to its
-- owner; `pico_http` parses a request and may turn the connection into a web socket; the web
-- socket codec and the MQTT client each read frames from the bytes of one connection, in pieces of
-- any size, and call the owner for what they find; `pico_simple_ota` stores a firmware image and
-- installs it; `pico_logger` sends messages and keeps a crash over the restart; `pico_sleep`
-- switches the board off. The upgrade clears the crash that the logger has kept.
-- Modelled are the sessions and listeners of pico_tls, the requests and sessions of pico_http with
-- the header parser, the web socket codec, the MQTT client, the upgrade, the logger and the sleep.
-- What a part calls below it is a parameter of its model: of pico_tls lwIP, of pico_http a
-- connection, of the upgrade the flash, of the logger lwIP and what cm_backtrace finds and prints, of the
-- sleep the SDK.
--
-- Files and code:
--   Common               arrays as lists of bytes over native numbers, Boolean tests, and bit masks
--                        as remainders and digits; texts, decimal numbers and `snprintf`.
--   Http/Header          pico_http/http_header.cpp and .h: `parse` on the bytes of the data, in which
--                        it writes zeros; a pointer is an offset. One function for each loop.
--   Http/Header/Scan, Bounds, Inside
--                        the first byte that is looked for, the bounds of what is stored, and that
--                        nothing behind the data is touched.
--   Http/Header/Print, Lines, Read, FirstLine, RoundTrip, Strings
--                        a request as it is written, and what `parse` makes of it.
--   Http/Header/Response the response code.
--   Http/Request         pico_http/http_request.cpp and .h: a request that is built in its buffer.
--   Http/Request/Built, Whole
--                        what the buffer holds, and what is sent of it.
--   Http/Session         pico_http/http_session.cpp and .h; Http/State has its states. The functions
--                        that a subclass overrides are a record, as are mbedtls and the connection.
--   Http/Session/Deliver, Handshake
--                        a request that comes in, and its upgrade to a web socket.
--   Http/Session/Exchange
--                        a client's request on one end, and a session on the other.
--   WebSocket            pico_http/websocket_handler.cpp and .h. `decode_data` is `decodeData`: one
--                        round of the loop is `decode_step`, with a function for each branch of
--                        `m_state`; `encode_data` is `encodeData`. The owner is a record of
--                        functions on a state of its own, as in `WebSocketInterface`.
--   WebSocket/Stream     a decoder of the same format that takes one byte at a time.
--   WebSocket/Header, WaitPacket, Unmask, Refine
--                        how each branch, and then the loop, does what that decoder does.
--   WebSocket/Chunks     how the bytes may be cut into calls.
--   WebSocket/Frames, Payload, Messages
--                        the frames of RFC 6455, received and sent.
--   Mqtt/Handler         the fields and constants of pico_simple_mqtt/mqtt_handler.h, `reset`.
--   Mqtt/Receive         decode_data and the functions that it calls, in mqtt_handler.cpp.
--   Mqtt/Rounds, Returns how far a round gets, and when the loop ends.
--   Mqtt/Buffer          the bounds of the receive buffer.
--   Mqtt/Hang            a packet on which it does not end.
--   Mqtt/Send            update, write_header and the other functions send_* of the file; the
--                        connection below is a function on a state of its own.
--   Mqtt/Connect         send_connect, and on_connected.
--   Mqtt/ConnectTexts, ConnectTrip
--                        its packet, as a broker reads it.
--   Mqtt/Length          the remaining length, written and read.
--   Mqtt/Idle, Publish, PublishTrip, RoundTrip
--                        a published message, sent and received.
--   Mqtt/Contiguous      requests in the midst of a message.
--   Ota/Flash            the flash of the board, as the SDK documents it: a parameter.
--   Ota/Store            storeData and writeToFlash in pico_simple_ota/upgrade_helper.cpp, and the
--                        block of uf2.h, read where it lies in the buffer.
--   Ota/Feed, Chunks     storeData byte by byte, and in calls of any size.
--   Ota/Bounds           what of the flash it may change.
--   Ota/Upgrade, Install upgrade_binary, and the flash after it.
--   Ota/Fields, Stored   a block, from storeData to the program.
--   Ota/Marks, Kept, Blocks, Image
--                        an image of several blocks: what a later one leaves of an earlier one.
--   Ota/Rom, Protocol    upgrade_binary as its calls of the ROM, and the order that these allow.
--   Tls/State            the fields of Session in pico_tls/session.h, lwIP and the owner.
--   Tls/Session          pico_tls/session.cpp, a function for each method, and one for what follows
--                        a loop or a guard that a proof passes. Each takes and returns the session
--                        and the state of everything else, since a call of lwIP or of the owner may
--                        change both.
--   Tls/Accepted, Send, Acknowledged
--                        the chunks that lwIP is given, and the notifications that come back.
--   Tls/Closed, Lookup   the calls of on_closed, and a name lookup that ends too late.
--   Tls/Settled, Events, Sending, Run
--                        the calls of lwIP and the owner as steps, and on_closed over any run of them.
--   Tls/Listener         pico_tls/listener.cpp and tls_listener.cpp, one record for both.
--   Logger/Message       the messages of pico_logger/pico_logger.c, formatted in its buffer.
--   Logger/Line, Written, Sent, Numbers
--                        what is sent of a message, and the numbers of a run of messages.
--   Logger/Crash, Restart
--                        the call stack in memory that outlives a restart, write by write.
--   Logger/Server, Boot, Recover, Watchdog
--                        start_logging_server on each branch, its report of a crash, and its alarm.
--   Sleep                pico_sleep/pico_sleep.c: each function, with its calls of the SDK in order.
--   Sleep/Order          what the board has been told when it is switched off.
--   Tls/Tests, Http/Tests, WebSocket/Tests, Mqtt/Tests, Http/Header/Tests, Ota/Tests,
--   Logger/Tests, Sleep/Tests
--                        runs on concrete bytes.
--
-- Modelling. A `uint32_t` wraps at 2 ^ 32, written out where a sum or difference can reach it; a
-- byte is any number, and the masks of the code are applied to it. A pointer and a length that are
-- passed by reference are a list that is returned. Arrays have their contents in the state, and an
-- index past the end reads as 0; a block of the upgrade whose payload does not lie in the buffer is read
-- and written by a parameter. A callback of the MQTT handler is recorded as an event, since the
-- code drops its result; the calls of the web socket codec decide what the code does next. Traces
-- and debug output are left out, but for the logger's own and those of pico_sleep.
--
-- Loops. The loops of the codecs, of storeData and of `Session::send` run on fuel, and give `none` when
-- it is used up. The web socket loop has two rounds for each byte and one more: a round takes a byte,
-- or ends a frame, after which the next one takes a byte. The MQTT loop has three rounds for each byte
-- and three more, for what the buffer holds from earlier calls. The loops of storeData and of
-- `Session::send` take a byte at least in each round, the latter if a TLS record holds one, and have
-- one round for each byte. The loops of `parse` count the bytes that are left.
--
-- Not modelled: the deletion of an object by its owner; the values that pico_sleep writes to the
-- registers of the SDK; the assembly of the fault handler; cm_backtrace is a copy of another project.
pub mod Common
pub mod Http
pub mod WebSocket
pub mod Mqtt
pub mod Ota
pub mod Tls
pub mod Logger
pub mod Sleep
