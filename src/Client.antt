-- ===== src/Client.antt =====
-- The client: `Request` builds the CONNECT request (client/h3zero_qpack.c and
-- client/h3zero_client.c), `Jpeg` cuts frames out of a byte stream and `Stream` receives the frames
-- of a WebTransport stream (client/wt_client.c), with `Control` for its messages, and `Receive`,
-- `Options` and `Main` are the program (client/client_main.c).
pub mod Request
pub mod Jpeg
pub mod Stream
pub mod Receive
pub mod Main
pub mod Options
pub mod Control
