-- ===== src/Proxy.antt =====
-- src/http/http_connection.h, src/http/http_connection.cpp, src/http/backend_connection.h and
-- src/http/backend_connection.cpp: a proxied connection, that is an `HttpConnection` and its
-- `BackendConnection`, which call each other on one thread.
pub mod State
pub mod Download
pub mod Upload
pub mod Drive
pub mod Events
pub mod Steps
pub mod Persist
pub mod DownloadSteps
pub mod UploadSteps
pub mod StartSteps
pub mod DriveSteps
pub mod Invariant
pub mod Forwarded
pub mod Pace
pub mod HalfClose
pub mod Histories
pub mod DownloadFuel
pub mod UploadFuel
mod Tests
