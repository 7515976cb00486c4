-- ===== src/Lib.antt =====
-- A server offers one release of a package to many clients over TLS: an acceptor queues connections,
-- workers take them and run a session with each client, which authenticates, asks for the version and
-- downloads the package. The sources are C, under Project_3/Project_3/src and its include directory.
--
-- Prelude: C strings, numbers and lines of text, arrays, and the lemmas that the parts share.
-- ThreadPool: common/threadpool.c, the bounded queue between the acceptor and the workers;
-- ThreadPool.Traces sets its runs beside those of a waiting line.
-- Net: common/netutil.c, reading and writing whole buffers over a connection.
-- Protocol: common/protocol.c, frames; Protocol.Fields the key=value payloads.
-- Version: common/version.c. Config: common/config.c. Stats: common/stats.c.
-- Auth: common/auth.c, the registry of clients; Auth.Enabled describes the lines that let a client in.
-- Sha256: common/sha256.c, with its compression function and the hexadecimal text.
-- Package: server/package_service.c, streaming a package with pauses.
-- VersionManager: server/version_manager.c, the manifest of the release, over Config, Version, Package
-- and Sha256.
-- ActiveIds: server/worker.c, the ids that have a session.
-- Session: server/worker.c, authenticate_client and handle_client_session, over all of these.
-- Acceptor: server/acceptor.c, the loop that fills the queue. Worker: server/worker.c, worker_thread, the
-- loop that takes a connection off it and runs its session.
-- ServerConfig: server/server_main.c, server_config_load, over Config.
-- Logger: common/logger.c, the queue of log lines, the thread that writes them and the ring of the last.
-- VersionTable: client/downloader.c, the table of the clients' versions (getCurrentVersion,
-- write_version_file), with the ways in which reading it can go wrong.
-- Download: client/downloader.c, receiving an update; Download.Receive is receive_update itself, and
-- Download.Served sets its loop against the server's Package.
-- CheckForUpdate: client/downloader.c, run_attempt and the loop over the attempts.
--
-- A function keeps its name. A structure is a record, and what a function writes through a pointer is
-- part of its result; a return of 0 or -1 is a Bool or an Option. NULL tests are left out where no
-- caller passes NULL, and so are the log lines. An array of characters is the text before its zero
-- byte, and text files hold no zero bytes. Numbers of a fixed width keep their wrap-around where they
-- can reach it. A function that holds a mutex is one step; waiting on the condition variable is a
-- result of its own.
--
-- What the kernel, OpenSSL and the file system return is part of the state: a list of outcomes for
-- send, recv, select and fread, which the loops take one by one, so that each loop is a structural
-- recursion. Behind the end of a list every call fails. In the same way a download gets a list of the
-- rounds of its loop, with the requests to pause, resume and stop that come in them, and the loops over
-- attempts, connections and sessions a list of what their passes meet; behind the rounds of a download
-- the client is asked to stop. The client's files are a function of their path, and a call that removes
-- one is taken to succeed. The version table may fail to open, or an error may end the reading of it,
-- which the code cannot tell from a missing or a shorter table: it is then replaced by what was found,
-- and the rows that were not read are lost (VersionTable.Reading). The text of a registry is what is
-- read of it, up to its end or an error. Fuel is used in three places: a decimal number n is printed in n + 1 rounds,
-- a text of n bytes is read in n lines at most, and the logger's thread that is asked to stop takes a
-- round for each line that waits and one more.
--
-- Not modelled: setting up sockets and TLS, the threads themselves and signals, sessions that run at
-- the same time, the start of the threads and the shutdown of the server, the client's start and its
-- configuration, directories and lock files, and both user interfaces.
pub mod Prelude
pub mod Acceptor
pub mod ActiveIds
pub mod Auth
pub mod CheckForUpdate
pub mod Config
pub mod Download
pub mod Logger
pub mod Net
pub mod Package
pub mod Protocol
pub mod ServerConfig
pub mod Session
pub mod Sha256
pub mod Stats
pub mod ThreadPool
pub mod Version
pub mod VersionManager
pub mod VersionTable
pub mod Worker
