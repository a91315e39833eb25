-- ===== src/Lib.antt =====
-- DocBunker opens untrusted documents in a sandbox and shows their pages as plain rasters. The
-- library models the host's core, the wire protocol, the worker inside the sandbox, the transport to a
-- worker process and to a virtual machine, the renderers for images, RTF and Office text, and the
-- choice of the backend by the desktop application.
--
-- The parts and how they interact. The host's document manager (crates/core) keeps one sandbox
-- session for each open document and a small cache of rendered pages. It reaches a worker through
-- a sandbox backend (crates/sandbox). Requests and responses are frames of the protocol
-- (crates/protocol); each side validates what it receives against limits that a handshake fixes.
-- The worker (crates/renderer-worker) holds a renderer for each document and answers one request
-- at a time. The domain types and hard limits that all parts share are in crates/renderer-api.
--
-- Which file models which part:
--   RendererApi        crates/renderer-api/src: types.rs (Types, Pages), limits.rs (Limits) and
--                      error.rs (Error). `validate_page` is `RenderedPage::validate`,
--                      `validate_info` is `DocumentInfo::validate`.
--   RendererApi.Detect crates/renderer-api/src/format.rs: `detect` and `zip_kind`.
--   Image.Scaling, Image.Renderer
--                      crates/renderer-image/src: scaling.rs and image.rs. `open` is `open_image`.
--                      Image.Serving puts this renderer under the worker.
--   Protocol.Message   crates/protocol/src/message.rs, a record for each message.
--   Protocol.Payload   the payload half of crates/protocol/src/framing.rs: encode_*, decode_*.
--   Protocol.Stream, Protocol.Framing
--                      `FrameReader` and `FrameWriter` of crates/protocol/src/framing.rs.
--   Protocol.Validate, Protocol.ShmName
--                      crates/protocol/src/validate.rs: negotiation, validation, conversion, and
--                      `is_valid_shm_name`.
--   Worker             crates/renderer-worker/src/worker.rs: `Worker::handle` and each handler.
--                      A handler takes the worker to its response and the worker after it.
--   Worker.Process     crates/renderer-worker/src/main.rs: `run` and `send_error`, over any output.
--   Ooxml.Container, Ooxml.Rtf
--                      crates/renderer-ooxml/src: `push_line` of container.rs, and rtf.rs.
--   Ooxml.Archive, Ooxml.Markup, Ooxml.Sheet, Ooxml.Members, Ooxml.Office
--                      the same folder: the caps of container.rs on archives; the text of markup
--                      and Office parts; `extract_table`; and `extract` of text.rs.
--   Sandbox            crates/sandbox/src: config.rs, error.rs, session.rs, the trait of backend.rs
--                      as a record of operations, and `InProcessTransport` of transport.rs.
--   Sandbox.Process    `ProcessTransport` of crates/sandbox/src/process.rs: `send_raw`, `send` and
--                      `validate_response`. Sandbox.Handshake is its `from_child_io`,
--                      Sandbox.Region its shared page buffer, Sandbox.Reader its `read_loop` with
--                      the channel, and Sandbox.Session is `WorkerSession`, over any transport.
--   Sandbox.Subprocess crates/sandbox/src/process_backend.rs.
--   Sandbox.Version    crates/sandbox/src/version.rs.
--   Sandbox.Vm, Sandbox.Vm.Backend
--                      crates/sandbox/src/platforms/vm: config.rs, command.rs and mod.rs.
--   App.Manifest, App.Config
--                      src-tauri/src/app_config.rs: `parse_vm_hash_manifest`, and
--                      `AppConfig::from_env` with `vm_config`.
--   Core.Cache         crates/core/src/cache.rs. Core.Cache.Recency holds its specification, a
--                      list of pages with the last used first.
--   Core.Manager       crates/core/src/manager.rs. `open` is `open_document` here. A manager is
--                      its locked state and whether the lock is poisoned.
--   Core.Error         crates/core/src/error.rs.
--   Core.Imaging, Core.Io
--                      crates/core/src: imaging.rs and io.rs.
--   Prelude            lists over native numbers, `Result`, checked words, strings as code
--                      points, and `HashMap` as an association list.
--
-- Numbers. Machine integers are natural numbers; conversions and products are checked where the
-- code checks them, for a usize of 64 bits, and the session counter wraps at 2 ^ 64.
--
-- Fuel. The loop that fills a buffer runs on the number of events of the stream and two more: each
-- round takes an event or is the last one. The eviction loop runs on the length of the order: each
-- round takes a key off it. The loop that enqueues a request in `send_raw` runs on one round for
-- each five milliseconds of the timeout and two more, since each round but the last sleeps that
-- long; `read_exact_at` on the buffer's length and one more. The RTF scan
-- runs on the number of bytes and one more, and the loop of the worker process on the number of
-- frames and one more: each round takes a byte, or a frame.
--
-- Parameters. What the code calls but does not define: postcard's encoding (`Codec`, with its
-- round trip as a named hypothesis where it is used), whether an allocation succeeds (`reserve`),
-- the renderers, their factory and the shared page buffer (Worker.Interfaces), and the backend of
-- the manager. Nothing is assumed of the last three. Files and the PNG encoder
-- are what their calls answer. Events of quick-xml and members of an archive are lists that these
-- packages read. The environment, and what the host of a virtual machine answers, are records
-- (`Host`, `Machine`). For format detection the zip package is a function from bytes to
-- entry names, and the packages that decode images are the fields of `Decoders`, of which it is
-- assumed that they return bytes (`ReturnBytes`). What the child process, the channels of its two
-- pipe threads and the clock answer during one exchange is a value of `Exchange`; a theorem on
-- time assumes that a sleep takes its time (`IsTicking`). Where the image code would panic the
-- result is `panicked`.
--
-- Not modelled: third-party renderers and parsers, the drawing of text with fonts, the runsc backend
-- and its bundle, EPUB spines, the native broker, the set-up of child processes, files and
-- sockets, the waiting inside `reap`, logging, the user interface, and the scheduling of threads
-- before the manager's lock.
pub mod Prelude
pub mod RendererApi
pub mod Protocol
pub mod Worker
pub mod App
pub mod Sandbox
pub mod Core
pub mod Image
pub mod Ooxml
