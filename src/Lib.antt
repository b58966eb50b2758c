-- ===== src/Lib.antt =====
-- castd, the daemon of a meeting-room receiver on a Raspberry Pi: it shows either a Miracast (WFD)
-- stream or an AirPlay stream, whoever connects first. All paths are below castd/.
--
-- The parts, and the files that model them:
--
-- * fsm/state_machine.py decides who holds the display: Arbiter (`table` is `_TABLE`, `handle` is
--   `CastArbiter.handle`), and Arbiter/Policy for its policy.
-- * p2p/wfd_ie.py builds the bytes that announce the sink: Wfd, with a reader of the framing in
--   Wfd/Subelements.
-- * config.py reads receiver.conf: Config, with Config/Pin for the WPS checksum, Config/Parser
--   and Config/Lines for the parser, and Config/Printer for a file that is written from a
--   configuration.
-- * wfdsink/rtsp.py is the sink's side of the handshake M1 to M7: Header has its patterns, Rtsp the
--   class `WfdNegotiator`, one function per method; Rtsp/Order is about sequences of calls, Rtsp/Encodable
--   and Rtsp/Texts about the encoding of what is sent, Rtsp/BodyLength about a Content-Length, and
--   Rtsp/Capabilities, with Rtsp/Lines, about what a source reads in the M3 response.
-- * wfdsink/session.py runs the handshake over a socket: Session. `next_bytes` is the loop of
--   `RtspReader.next_message`, `frame` the test whether a message is complete, `pump` the loop of
--   `run_steady_state`, `dial` that of `open_control_connection`. Session/Framing, Session/Rounds and
--   Session/Chunks are about the reader, Session/Steady about the end of the loop; Session/Turns,
--   Session/Handshake and Session/KeepAlive follow a source that keeps to the protocol, turn by turn.
--   Session/Standard and Session/Upkeep, on Session/Headers, Session/Requests, Session/Responses and
--   Header/Numbers, write the messages of such a source in the standard form, with any numbers.
-- * render/gstreamer.py and airplay/uxplay.py own the child processes: Process, with the command
--   lines and the text of the pipeline in Process/Pipeline, and Process/Arguments about them.
-- * render/idle_screen.py draws the screen between two sessions: IdleScreen, with a reader in
--   IdleScreen/Reader, and its file in IdleScreen/Saved. render/framebuffer.py writes it to the
--   display: Framebuffer, with the pixels in Framebuffer/Pixels and Framebuffer/Bits, the rows in
--   Framebuffer/Scanlines, and the numbers of sysfs in Framebuffer/Geometry.
-- * p2p/dbus_go.py, `P2PGroupOwner`, drives wpa_supplicant: P2p, with P2p/Pairing for the PIN,
--   P2p/Credentials for the network of the group, P2p/Availability for the WFD element, and
--   P2p/Announced for the availability that the arbiter's actions announce. P2p/Signals has the
--   subscriptions to signals, and P2p/Signals/Routes what a signal reaches.
-- * health.py and sdnotify.py report to the outside: Health, with Health/History, and SdNotify.
-- * airplay/uxplay.py also reads the log of uxplay for its clients: Clients, with Clients/Edges.
-- * airplay/qrcode_wifi.py builds the text of the Wi-Fi QR code: Qr, with a scanner in Qr/Scan.
-- * p2p/group_network.py serves the group's addresses: Group, with the lookup of a lease in
--   Group/Lease and the start of the services in Group/Service.
-- * stream_watchdog.py is the stall detector: StreamWatchdog.
-- * main.py wires them: Daemon. Each handler of `CastDaemon` is a state transformer that keeps what
--   it has written when it raises. `deliver` is `arbiter.handle` followed by `_apply_actions`.
--   Daemon/Sessions is about a Miracast session, Daemon/Conducted about one from its first byte to
--   its last, Daemon/Standard about one with a source that writes the standard messages,
--   Daemon/Presenting about AirPlay sessions, as the log of uxplay tells them,
--   Daemon/WatchLoop about the watch over a stream, Daemon/Accepting about the sources that dial
--   the sink, and Daemon/Heartbeat about what systemd is told. In Startup/Arrivals stations join and
--   sources dial in, one after another.
--   Startup is `start` and what the signals of the group cause, with Startup/Ready,
--   Startup/Answers and Startup/Success for the start-up, Startup/Regroup for a new group, Startup/Station for the
--   stations, and Startup/Main for `main`.
--
-- Base holds the language's own part: texts as lists of code points, searching and splitting, `int`
-- on decimal digits, UTF-8 with replacement, results that may be an exception, and steps that
-- change a state and may raise. Tests has concrete runs.
--
-- Conventions. A method that raises gives `err`; a socket is the list of what its `recv` calls will
-- give, with an end of the list for a closed peer, and a predicate that says which sends fail. Loops
-- over texts and lists are structural. The steady state runs on fuel, since the peer decides how
-- long it lasts: one unit for each round, and each round that does not end the loop uses up bytes
-- or a `recv` result, so more fuel than there are of these is enough. `int` refuses more than 4300
-- digits, as the interpreter does by default. Which characters `\w` matches is a parameter, of which
-- some results assume that it matches the digits of ASCII, no semicolon and no surrogate;
-- `str.lower` is a parameter too.
--
-- Handlers of main.py run on several threads. Daemon models the stretches between two waits as
-- atomic. `_on_uxplay_exited` is interrupted by its sleep, so it is two functions; the attempts of
-- `_recover_render_cold_start` take what the other threads do as an argument. Daemon/Threads drops
-- the assumption for the actions of a transition, which the code applies outside the lock: there a
-- step delivers one event or applies one action of one thread, in any order.
--
-- Parameters: wpa_supplicant is what each of its calls answers (`Bus`), so a theorem about a bus
-- holds whatever it answers; a command succeeds or fails; the picture library gives the bytes of a
-- resized picture and the pieces of a picture's file; whether an idle screen can be painted and
-- whether the bus takes a new WFD element is kept with the daemon's state (`screen`, `takes_ies`),
-- and both are so in a consistent daemon and in the one that the program starts with; the clock
-- gives naturals, in milliseconds for the health state. A source keeps to the protocol
-- (`IsConforming`) when its messages are whole, its requests are numbered, and its answers to SETUP
-- and PLAY say what the sink looks for.
--
-- Not modelled: the files of the fonts, the environment for tracing, logging, serving HTTP, the main
-- loop of the signals, the message that the daemon is ready, and failures to spawn a process.
pub mod Base
pub mod Arbiter
pub mod Wfd
pub mod Config
pub mod Header
pub mod Rtsp
pub mod Session
pub mod Process
pub mod StreamWatchdog
pub mod Daemon
pub mod Tests
pub mod Qr
pub mod Clients
pub mod Group
pub mod P2p
pub mod Startup
pub mod SdNotify
pub mod Health
pub mod Framebuffer
pub mod IdleScreen
