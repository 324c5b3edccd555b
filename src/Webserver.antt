-- ===== src/Webserver.antt =====
-- webserver/server_thread.c: the queue of requests between the main thread and the workers, and the cache
-- of files.
pub mod Requests
pub mod Cache
pub mod Rio
