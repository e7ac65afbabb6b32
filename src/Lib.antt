-- ===== src/Lib.antt =====
-- BoosterNX: a client of the Boosteroid game streaming service for the Switch.
--
-- The program receives a game's audio and video over WebRTC and sends the controller's state back.
-- libpeer hands RTP packets to the WebRTC session (app/src/webrtc). Audio packets go through a
-- jitter buffer to the decoder thread, video access units through a decode queue and, once decoded,
-- through a frame queue to the renderer. The audio's media clock tells the frame queue which frame
-- is due. Signaling and control run over HTTP and a WebSocket. Before that the session client asks
-- the service for a machine, waits in its queue and confirms the start. The library views show cover
-- images, which worker threads load through a cache in memory and one on disk.
--
-- Files and the code they model:
--   Common           numbers, lists, words and integers that the models share
--   Audio.Rtp        app/src/stream/audio/AudioRtpUtils.hpp: RED payloads, RTP and NTP clocks
--   Audio.Latency    app/src/stream/audio/AudioLatencyPolicy.hpp, AudioPipeline::configure
--   Audio.Pipeline   app/src/stream/audio/AudioPipeline.cpp: submit, take_next, set_sender_report,
--                    playback_ntp_us, start and stop on the jitter buffer
--   Video.Timing     app/src/stream/ffmpeg/VideoFrameTiming.hpp
--   Video.Queue      app/src/stream/ffmpeg/AVFrameHolder.cpp: push, pop and cleanup, with the frames
--                    that each frees
--   Net.Socket       app/src/WebSocketClient.cpp: send_all, send_frame, send_message, poll and
--                    disconnect, with the bytes read, sent and still buffered
--   Session.H264     app/src/webrtc/shared.cpp: ContainsH264Idr
--   Session.Decode   app/src/webrtc/media.cpp: the decode queue between the network thread and the
--                    decoder thread; DecodeQueuePolicy.hpp
--   Session.Keyframe app/src/webrtc/media.cpp, session.cpp: keyframe requests
--   Session.Sync     app/src/webrtc/media.cpp: packets, sender reports and the target time stamp
--   Session.Input    app/src/webrtc/input.cpp, session.cpp: controllers
--   Session.Ice      app/src/webrtc/session.cpp: candidates and ICE servers
--   Session.Control  app/src/webrtc/session.cpp: control events, poll, start and stop
--   App.Replace      app/src/atomic_file_replace.hpp
--   App.History      app/src/play_history.cpp, app_state.cpp: time stamps of games played
--   App.Pulse        app/src/controller_delivery_policy.hpp
--   App.Ports        app/src/stream/RemoteCandidatePolicy.hpp
--   App.Histogram    app/src/webrtc/shared.cpp: the latency histogram
--   App.Settings     app/src/models.hpp, stream_settings.cpp, stream_settings_policy.hpp
--   App.StreamEnd    app/src/stream_end_policy.hpp
--   App.Journal      app/src/runtime_journal.cpp: what is logged of a URL
--   Images.Memory    app/src/cover_image_cache.cpp: the images kept in memory, and their eviction
--   Images.Loader    app/src/cover_image_cache.cpp: requests, priorities and the workers
--   Images.Disk      app/src/cover_image_cache.cpp: the cached files and Load
--   Client.Json      app/src/json_utils.hpp: strings, integers and gateways in JSON
--   Client.World     app/src/http_client.hpp: requests, answers, and what they throw
--   Client.Session   app/src/boosteroid_client.cpp: last-session, details, hang-up, enqueueing
--   Client.Waiting   app/src/boosteroid_client.cpp: the state of CreateAndAwaitSession
--   Client.Await     app/src/boosteroid_client.cpp: CreateAndAwaitSession with its realtime socket
--   Client.Dates     app/src/boosteroid_client.cpp: ParseUtcTimestampMs
-- Tests modules hold runs at concrete inputs. The other modules below these prove their properties.
--
-- Each operation is a function on the state of its class. A mutex makes the operations atomic, so a
-- run is a list of calls. A machine word is a native number with its wrap-around written out.
--
-- Bounds and fuel: the second loop of `poll` runs on fuel, the length of the buffer, which is enough
-- because each round takes two bytes at least. The eviction of images has a round for each entry,
-- since each round drops one; a decimal has twenty digits, which 64 bits do not exceed. The loop of
-- CreateAndAwaitSession has no bound, so its rounds are an argument, and its theorems hold for every
-- number of them. All other loops are structural recursion over the packets, frames, bytes or
-- answers of a library.
--
-- Not modelled: the decoders, renderers and views, which are calls of libraries (FFmpeg, libopus,
-- OpenGL, deko3d, borealis) with little logic of their own; login, the catalogue of games and the
-- saved account, which assemble JSON. jansson is a parameter of the models that read JSON. What
-- libcurl answers is a list of outcomes in the state, and so are the clock, the messages of the
-- realtime socket and random bytes.
pub mod Common
pub mod Audio
pub mod Video
pub mod Net
pub mod Session
pub mod App
pub mod Images
pub mod Client
