-- ===== src/Lib.antt =====
-- lite-nvr, a network video recorder in Rust: a verification library beside its code.
--
-- The program pulls cameras (RTSP, Xiaomi's CS2 transport, GB/T 28181 over SIP) through media pipes
-- built on FFmpeg, publishes them in ZLMediaKit, records them in segments, keeps the segments in a
-- database, prunes old ones and copies new ones to remote targets. The library models these parts:
--
--   Cs2       crates/xiaomi/src/cs2.rs. Channel: `DataChannel`, which puts the numbered frames of a
--             channel back in order (push_seq) and cuts their bytes into records (push). Wire: the
--             frames that the connection writes and reads. Worker: `Worker::run` over one frame
--             (handle), the readers, and the retransmission of commands (write_command).
--   Gb        Ptz: crates/gb28181/src/ptz.rs, the control command as sixteen hexadecimal digits.
--             Ssrc: crates/gb28181/src/gbcode.rs, codes and the generator of SSRC values. Registrar:
--             crates/gb28181/src/registrar.rs, registrations with expiry and keepalive. StreamMap and
--             Bridge: nvr/src/gb/stream_map.rs and nvr/src/gb/bridge.rs, pulls on demand. A pull is an
--             async function; Bridge cuts it at each `await`, and `step` takes the calls and the ends
--             of what the pulls await in any order. Digest: crates/gb28181/src/auth.rs. Server:
--             crates/gb28181/src/server.rs, who may register and whom it reaches. Catalog: the chunks of an answer, from
--             crates/gb28181/src/manscdp.rs. Sdp: crates/gb28181/src/sdp.rs, the offer and the answer. How MD5 digests a text and how a number is printed are
--             parameters there.
--   Storage   Segments: nvr-db/src/record_segment.rs, the table of segments and its queries. Cleanup:
--             nvr/src/cleanup.rs, the retention pass. Migrations: nvr-db/src/migrations.rs. Transport: nvr-db/src/transport_job.rs and the
--             sweep of nvr/src/transport/worker.rs. Targets:
--             nvr-db/src/transport_target.rs. Sessions: nvr-db/src/session.rs and the session cache of
--             nvr/src/auth.rs.
--   Playback  nvr/src/handler/playback.rs. Range: the bytes of a segment that a player asks for. Delete:
--             the deletion of segments with their files. Playlist: the HLS playlists.
--   Recorder  crates/nvr-recorder. Rotation: rotation.rs, when a recording goes on to a new segment.
--             Config: config.rs, the choice of streams and the delays. Ticks and Segment: segment.rs,
--             the times of a packet and the writer of one file. Session: recorder.rs, the packet loop of
--             a connection (record_once) and the loop over the connections (run).
--   Compositor  Layout: crates/nvr-compositor/src/layout.rs, the grid.
--   Switcher  crates/nvr-switcher, switcher.rs and program.rs: one source of several is shown.
--   Bus       Muxer: crates/ffmpeg-bus/src/output.rs, how a packet goes to FFmpeg's muxer. The rest is of
--             crates/ffmpeg-bus/src/bus.rs, the media bus. Choice: which streams are decoded, encoded,
--             transcoded or copied. State and Tasks: the state of the bus and how input, decoder and
--             encoder tasks start. Outputs: what is built for each destination. Commands:
--             `inner_command_handler`. Forward: the loops of the spawned tasks.
--   Common    what they share: Boolean tests, lists and bytes over the native numbers, the hash map as
--             an association list (Dict), signed numbers (Int), decimal and hexadecimal digits.
--
-- State is passed explicitly: a record per struct, a function per method that gives the new state and
-- the result. Errors, panics and a hanging thread are constructors of a method's result. Unsigned
-- numbers are native numbers with their wrap-around written out where the code can reach it; i64 sums
-- of the registrar wrap as in a release build. The association list's order stands for the hash map's
-- unspecified order, and a table is the list of its rows. A connected channel between threads is a
-- queue with a capacity.
--
-- Fuel: the loop of `DataChannel::push` is fuelled by the bytes that it holds, and each round takes
-- some off or stops; `flush` is fuelled by the frames that are buffered, of which each round removes
-- one. The printing of a number is fuelled by the number and one, and the search for the columns of a
-- grid by the number of sources. Theorems say that none of these runs out. The trimming of ".sql" is
-- fuelled by the length of the name, of which each round takes four. All other loops are structural.
--
-- Parameters: how "ip:port" parses (Bridge, Sdp), which deletions the database refuses (Cleanup), what a
-- backend answers and the keys and ids it is given (Transport). What the SIP server and the ZLM worker
-- answer are events of the bridge; what FFmpeg answers when a command opens an input, a decoder, an
-- encoder or a muxer is a record of functions (Bus.State.Media), one for each command. What a bus
-- task receives from a channel is a list, and the merging of channels is a relation.
--
-- The recorder's connection is a list of what the packet loop receives, with the times at which it
-- takes the packets, and its output is a record of tests (Recorder.Segment.Output) that say what
-- succeeds. Floating point numbers are bit patterns: what the playlists make of a duration is a
-- parameter, and a segment's duration is kept in microseconds. The contents and lengths of files
-- are functions of their paths.
--
-- A history of the SIP server takes each request as one step, and one of the login sessions each
-- validation; Gb.Server.Late and Storage.Sessions.History also cut them at an await. The two writes of
-- a switch, and the check and the push of a frame, are steps of their own.
--
-- Not modelled: sockets, timers and the clock; the handshake of CS2 and Xiaomi's cloud and crypto; the
-- SIP transactions and dialogs, and the XML bodies of GB/T 28181; FFmpeg, its wrappers and the
-- pipes over them; ZLMediaKit; the other web handlers and the dashboard; inserting a segment into the database, where a conflict on the id and
-- one on the path compete inside the database.
pub mod Common
pub mod Cs2
pub mod Gb
pub mod Storage
pub mod Playback
pub mod Recorder
pub mod Compositor
pub mod Bus
pub mod Switcher
