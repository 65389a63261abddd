-- ===== src/Lib.antt =====
-- A model of mQUIC, a camera streamer over WebTransport on multipath QUIC.
--
-- The server (src/quic_server.c) captures JPEG frames in one thread and sends them in another, over
-- a double buffer. Each verified path of the connection gets a unidirectional WebTransport stream,
-- a scheduler (src/path_algo.c) picks the path of each frame, and a frame goes out as its length
-- in a variable-length integer and its bytes in chunks of 16 KiB.
--
-- Prelude: shared names, Boolean tests, lists and integers over the native numbers, `Eff` for code
--   that acts on the world, and bit operations as arithmetic.
-- Varint: `quic_varint_encode` of src/quic_server.c, and the codecs of client/wt_client.c and
--   src/pico_webtransport.c.
-- PathAlgo: src/path_algo.c with include/path_algo.h.
-- Quic: the calls of picoquic and of the operating system, as a parameter `Quic W` over a world
--   `W`. `Quic/Laws.antt` states what the proofs assume of it, and `Quic/Bench.antt` is a small
--   instance at which they hold.
-- Server: src/quic_server.c. `Server/Frames.antt` is the double buffer with the camera thread, and
--   its child `Interleave` runs the two threads against each other; `Server/Pacing.antt` is
--   `wait_for_pacing` and `send_with_pacing`; `Server/Bindings.antt` is `ensure_stream_for_path`
--   and `finish_all_bindings`; `Server/Network.antt` is `network_thread_func`;
--   `Server/Handlers.antt` is `camera_thread_func`, the two callbacks and `run_server`, as a
--   list of what it does;
--   `Server/Invariant.antt` and its child put the threads and the callbacks together.
-- WebTransport: src/pico_webtransport.c, the stream contexts, the answer to CONNECT and the capsules.
-- Client: `Client/Request.antt` is client/h3zero_qpack.c and client/h3zero_client.c;
--   `Client/Jpeg.antt` is `extract_jpegs` and `Client/Stream.antt` the rest of the receiving side of
--   client/wt_client.c, with `wt_handle_stream_data` cut at its parts A to D, and
--   `Client/Stream/Frames.antt` frames behind their lengths on such a stream; `Client/Receive.antt`
--   is `client_cb` of client/client_main.c, `Client/Options.antt` its command line, and
--   `Client/Main.antt` its `main`, with `ClientQuic` for what it calls besides `Quic`;
--   `Client/Control.antt` is the control messages and client/wt_callback.c.
-- Alpn: the ALPN selectors of both programs and `h3zero_server_parse_path` of
--   src/h3zero_server_min.c.
-- Logger: src/logger.c, the log file. Its calls are left out of the other modules.
-- ProtocolInit: `h3zero_protocol_init` of src/h3zero_common.c.
-- Delivery: a frame on its way from the server's buffer to the file of client/client_main.c, and
--   `Delivery/Images.antt` the images of a stream on their way to those of client/wt_client.c.
--
-- Fuel: the wait for pacing takes a number of rounds, of which one is enough where pacing permits the
-- write when it is first asked (`Permits`). Where pacing refuses and names no later time, the code asks
-- again at the time that it read first, and no number of rounds is enough. The loop over the chunks of a frame of n bytes takes n + 1
-- rounds, and each round sends at least one byte. The main loop of the network thread takes one round
-- more than the other threads and the callbacks act before `is_sending` is cleared. The client's
-- handler takes three rounds for each byte of its input and three more: a round without a byte only
-- leaves the length framing.
-- The search for images takes one round more than there are bytes, and each image uses up four.
--
-- The client waits for the handshake in as many rounds as there are microseconds in ten seconds,
-- since the clock moves on in each, and its main loop takes as many rounds as calls of the packet
-- loop are left to the connection.
--
-- Not modelled: picoquic and picotls, the HTTP/3 layer h3zero that the repository copies from
-- picoquic but for the function above, the camera (src/camera.cpp), and what is only printed. Of
-- `run_server` the order and the values of what it acquires, sets up and releases are there, but not
-- what the calls of picoquic then do.
pub mod Prelude
pub mod Varint
pub mod PathAlgo
pub mod Quic
pub mod Server
pub mod WebTransport
pub mod Client
pub mod Delivery
pub mod Alpn
pub mod Logger
pub mod ProtocolInit
