-- ===== src/Network.antt =====
-- pkg/internal/httpclient.go and pkg/internal/sse/sseclient.go: how configs come in. What is sent and
-- received is an argument.
pub mod Http
pub mod Sse
pub mod Source
