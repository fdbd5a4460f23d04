-- ===== src/Http.antt =====
-- src/proxy/http_proxy.cpp: requests and responses as text, the tunnel of a host name, and the way of
-- a request to its agent. This file has the steps of reading a text that the proxy's and the agent
-- connection's parsers share: `std::getline`, `>>` into a string, and the loop over the header lines.
pub mod Text
pub mod Request
pub mod Fuel
pub mod Lines
pub mod RoundTrip
pub mod Response
pub mod Proxy
pub mod Status
pub mod Examples
