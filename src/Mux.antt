-- ===== src/Mux.antt =====
-- proxy/mux.go and web/mux.go: the streams that share one websocket. Each stream starts with a header,
-- two bytes of length and a JSON text, and the proxy's one byte of status. The JSON package, the
-- websocket and the yamux session are the library's, and parameters here.
pub mod Header
pub mod Server
pub mod Client
pub mod Link
pub mod Race
pub mod Examples
