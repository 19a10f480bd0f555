-- ===== src/Lib.antt =====
-- ghost-vpn: a model of the core of the tunnel, with the theorems that make it correct.
--
-- The program is a VPN whose traffic looks like ordinary HTTPS. A client's packets pass a stack of
-- layers, put together in cmd/ghost-client/main.go and cmd/ghost-server/main.go: a multiplexer of
-- streams writes frames (internal/mux) into a coalescer that batches and pads them
-- (internal/shaper/coalesce.go), which writes into a cipher that seals every write
-- (internal/crypto/frame_cipher.go over internal/auth/session.go), whose frames are the body of an
-- HTTP/2 request that the camouflage layer of the server hands to the tunnel or to a fallback
-- website (internal/camouflage). The layers meet in io.Reader and io.Writer.
--
-- Base, Io. Numbers, lists, maps and big-endian words over the native numbers. A Go string or
-- []byte is a list of numbers below 256. A reader is the bytes that will still arrive and the error
-- that follows them; a writer is an interface with the documented contract of io.Writer as its law
-- (Io.Writer, Io.WriterLaws). Io/Buffer.antt is a writer in memory, for concrete runs.
--
-- Mux. Mux/Frame.antt and Mux/Codec.antt are frame.go and codec.go: encode is the buffer that
-- Encoder.WriteFrame builds, write_frame and read_frame are WriteFrame and Decoder.ReadFrame.
-- Mux/Stream.antt is stream.go: read, write, close, deliver_data and deliver_err pass a Stream from
-- call to call; a Read that waits is none. Mux/Conn.antt is conn.go: streams are kept in a store,
-- and the map streams holds handles into it, since callers hold pointers to streams that the map
-- has forgotten; dispatch, read_loop, open_conn_stream, send_ping, send_padding and close are the
-- methods of the same names, and a round of pingLoop, in Mux/Conn/Ping.antt, is ping_check, ping_send
-- and ping_store, between which the read loop may run, as it may between the three steps of
-- OpenStream: register_stream, announce_stream and abandon_stream. Mux/Conn/Steps.antt interleaves
-- all of them as a step relation.
--
-- Shaper. Shaper/Coalesce.antt is coalesce.go: write, timer_flush, cover_tick, flush_locked and close;
-- the random draws are a parameter, and the timer is whether one is pending. Shaper/Burst.antt is
-- burst.go with ShouldDelay of shaper.go. Shaper/Asymmetry.antt is asymmetry.go and
-- Shaper/Distribution.antt is distribution.go, over the operations on float64 as an interface,
-- Floats; Shaper/Padding.antt is the ticks of the padding and keepalive loops of shaper.go, and
-- Shaper/Make.antt its configuration, New and what is asked of a shaper, over a profile of
-- internal/profile (Shaper/Profile.antt).
--
-- Auth and Crypto. Auth/Replay.antt is replay.go, with its uint64 bitmap. Auth/Session.antt is
-- session.go; the cipher state of github.com/flynn/noise is an interface, CipherState, and
-- CipherLaws says what it is documented to do: the paired state opens, in order, what a state
-- seals, and sealing adds sixteen bytes. Crypto/Cipher.antt is frame_cipher.go. Auth/Noise.antt and
-- Auth/Keys.antt are noise.go and keys.go: the handshake state of that package is an interface too,
-- HandshakeState, with the laws NoiseLaws of the IK pattern; Curve25519 and base64 are parameters.
-- Crypto/Handshake.antt goes from the handshake to the two ciphers.
--
-- Camouflage. Camouflage/Prefix.antt is the length prefix of h2_server.go, and
-- Camouflage/Server.antt is TunnelHandler, with the router of router.go before it; authentication is
-- a parameter. Camouflage/Bridge.antt is bridge: its two copies and its return in any order.
-- Camouflage/Client.antt is Handshake of h2_client.go, where net/http is one.
--
-- Tun. Tun/Packet.antt is what router.go of internal/tun reads of an IP packet, and Tun/Router.antt its
-- TunRouter: routes by address, queues that drop their tail, and a read loop whose lookup and send
-- are two steps. Tun/Bridge.antt is the start of its Bridge, and Tun/Bridge/Session.antt the two
-- goroutines that it starts, with errc and the channel between them, while the read loop and other
-- sessions go on changing the router. Tun/Device.antt is device.go: which commands New runs, on what
-- the system answers.
--
-- Config. Config.antt is config.go of internal/config: load_server and load_client with defaults and
-- validation, front_host_or_sni and conn_lifetime. What os.ReadFile and the YAML parser return is a
-- parameter.
--
-- NmPlugin. NmPlugin/Settings.antt is nm-plugin/config.go, which builds a client configuration from
-- the settings of a NetworkManager connection. The other files are nm-plugin/plugin.go:
-- NmPlugin/Service.antt has the plugin with what it changes outside (signals, files, processes and
-- goroutines) as one World; NmPlugin/Service/Connect.antt is Connect; NmPlugin/Service/Watch.antt
-- has the other methods and the goroutines, watch being one step of watchTunAndReport, cut where it
-- takes its lock, sends a signal or looks at its context; NmPlugin/Service/Steps.antt lets them run
-- in any order, with the processes that exit. Parsing an address and a number are parameters.
--
-- Server. Server/Sessions.antt is the body of cmd/ghost-server/main.go that serves: on_auth is onAuth,
-- which runs the handshake and replaces the session of its client, close_session is closeSession, and
-- forget is the goroutine that waits for a session's end. Server/Single.antt interleaves them.
-- Server/Admission.antt puts on_auth under the camouflage layer as its callback.
--
-- Startup. Startup.antt is what the main functions share: a list of actions and how they end, by going
-- on, by a return, which runs what was deferred, or by an exit, which does not. Startup/Ends.antt is
-- what holds at each end. Server/Startup.antt and Client/Startup.antt are the two main functions over
-- a Machine, which is what the files, the parsers, the network and the system answer, with load_server,
-- decode_key, new_device, listen and establish of the other modules called where the code calls them.
-- Server/Startup/Host.antt and Client/Startup/Shutdown.antt say what the actions change.
--
-- Keygen. Keygen.antt is cmd/ghost-tools/keygen.go: keygen_cmd, write_key_file and print_keys over a
-- list of files with their modes.
--
-- Transport and Fallback. Transport/Dialer.antt is dialer.go and fingerprint.go,
-- Transport/Listener.antt is listener.go, over what sockets and TLS answer. Fallback.antt is the
-- target of proxy.go and what it does to headers.
--
-- Client. Client/Establish.antt is establish and tunnelSession.close of cmd/ghost-client/main.go, with
-- the order in which parts are opened and closed. Client/Sessions.antt is the active session with
-- the rotation loop and the watchdog, where a session just set up or just replaced is a variable of
-- the goroutine that holds it. Client/Rotation.antt is how long the loop waits, Client/Watchdog.antt
-- when the watchdog tries to replace a session, and Client/Packets.antt the two goroutines from the TUN device
-- to the stream.
--
-- Bounds and fuel. A uint16, uint32 or uint64 that can wrap has its wrap-around written out. The loop
-- of Stream.Write runs on the number of bytes left, of which each round takes at least one. The
-- read loop runs on any fuel above the number of bytes that will arrive, of which each frame takes
-- at least eight. Times are nanoseconds without an upper bound, and Unix cuts them to seconds; the
-- wait of the rotation loop is an int64 with its wrap-around, and so are the durations that the shaper
-- draws, which may be negative. The padding loop runs on any fuel above
-- the padding, of which each chunk takes at least one.
--
-- Not modelled. The Noise protocol itself, TLS and HTTP/2, system calls, D-Bus, and the JSON and YAML
-- parsers are calls of other packages, and so is the reverse proxy itself. The results of
-- floating-point operations are not looked into. The function Bridge of internal/tun, which no
-- command calls, flags and logging are left out. Memory orderings
-- of single fields and two concurrent writers of one cipher are left out too: a method under its
-- mutex is one step.
pub mod Auth
pub mod Base
pub mod Camouflage
pub mod Client
pub mod Config
pub mod Crypto
pub mod Fallback
pub mod Io
pub mod Keygen
pub mod Mux
pub mod NmPlugin
pub mod Server
pub mod Shaper
pub mod Startup
pub mod Transport
pub mod Tun
