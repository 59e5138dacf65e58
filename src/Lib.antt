-- ===== src/Lib.antt =====
-- micelio: a peer-to-peer node with a chat ("partyline"). Nodes keep authenticated connections to
-- some peers, learn of others by exchanging peer records, and flood signed messages by gossip. The
-- local users of a node share a hub of chat sessions.
--
-- How the parts interact. A connection (internal/transport/peer.go) says hello, checks who the peer
-- is, and hands each envelope that it reads to the manager or to the gossip engine. The engine
-- (internal/gossip) drops, delivers and relays. Chat messages that it delivers reach the hub
-- (internal/partyline), whose own messages go to the transport. The manager
-- (internal/transport/manager.go, discovery.go) keeps the connected and the known peers, and adds
-- what it learns to the engine's key ring. Local users come over SSH (internal/ssh/server.go), whose
-- sessions join the hub. A node keeps its key pair on disk (internal/identity).
--
-- The files.
-- Base: what the parts share. Numbers are natural, a byte string is a list of them, a Go map is an
-- association list (Base/Dict) whose order stands for the order of a range loop. Base/Int has the
-- integers, Base/Results the results with errors.
-- Stdlib: what the program uses of Go's library: encoding/binary, encoding/hex,
-- net.SplitHostPort, strings.TrimSpace (Trim), and the signatures and the hash as a record of operations with their laws.
-- Proto: pkg/proto, the messages and envelope.go. Proto/SignData: what a signature covers.
-- Gossip/Seen, Gossip/KeyRing, Gossip/Limiter: seen.go, keyring.go and ratelimit.go of
-- internal/gossip. Gossip/State and Gossip/Engine: gossip.go. `handle_incoming` is
-- HandleIncoming, cut at its numbered steps into `admit`, `find_key`, `authenticate`, `accept`,
-- `deliver` and `forward`; `broadcast` and `forward_to` are Broadcast and forwardTo. A call
-- returns the engine after it, with its deliveries and its sends as lists. Gossip/Concurrent: the
-- same HandleIncoming as turns, one for each access to what the calls of different peers share;
-- Gossip/Concurrent/System interleaves any number of calls with each other, with the clean-up
-- loops, with broadcasts and with keys that the manager adds.
-- Transport/Frame: frame.go. Transport/Hello: the hello and recvLoop of peer.go (sendHello is in
-- Transport/Hello/Greeting). Transport/Peers: addPeer, removePeer and advertiseAddr of manager.go, SendRaw.
-- Transport/Discovery, Exchange and Dials: discovery.go. Transport/Noise: noise.go, the connection as
-- a stream of bytes (Noise/Stream, Noise/Frames) and the handshake (Noise/Handshake), cut at the
-- reads of each side. Transport/Connections: NewManager, handleInbound and dial of manager.go, with
-- ExchangeHello of peer.go and sendPeerExchangeTo of discovery.go. Transport/Chat: fanoutLoop, the
-- chat handler and gossipMessageHandler of manager.go. All are in internal/transport.
-- Identity: identity.go of internal/identity, over a table of files. Config: config.go of
-- internal/config; Stdlib/Ip is net.ParseIP.
-- Partyline: partyline.go. The hub's loop serves one request at a time, as `serve` does.
-- Commands: commands.go of internal/ssh, the registry of commands and the built-in ones. A text is
-- its bytes; Stdlib/Fields is strings.Fields. Ssh: runTerminal, handleSession and the authorized keys
-- of server.go; Ssh/Shutdown: the connections of Serve, handleConnection and Stop.
-- Tests: runs of the model on concrete data.
--
-- What the model takes as given. The cryptography, the Noise library, the protobuf, JSON and PEM
-- codecs, the conversion of keys and rand.Shuffle are parameters; a theorem that relies on one of
-- them says how (IsKeyPair: a signature has its size and verifies; IsShuffle: a shuffle rearranges;
-- IsXx and IsCipher: the two ends of a handshake pair up; IsChatCodec and IsKeyLib: what is encoded
-- decodes). One reading of the clock stands for those of a call; times are natural numbers. A call
-- under a mutex is one step. The limiter's floats are whole numbers of 10^-9 tokens, so that their
-- rounding is left out. What a goroutine saves is saved before the call returns. A 64-bit counter
-- wraps. The lines of a terminal come with what others ask of the hub before each.
--
-- Loops are structural recursion, but for two. io.ReadFull on an encrypted connection has fuel: a
-- unit for each byte that is buffered or on the wire, and each turn takes one of them. The loop over
-- the authorized keys has the length of the file. Where a call can block for ever, the model says so:
-- a session's call of a hub that has stopped ends as `blocked` (Ssh), and a call of HandleIncoming
-- whose handler blocks gets no further turn (Gossip/Concurrent). Elsewhere a hub that has stopped
-- drops a request, and theorems about its effect are for a hub that runs.
--
-- Not modelled: sockets and deadlines, the send loop, the waits between dials, the SSH protocol, what
-- is printed and logged, durations and paths of the configuration, the store's files, and the main
-- program.
pub mod Base
pub mod Stdlib
pub mod Proto
pub mod Identity
pub mod Gossip
pub mod Transport
pub mod Partyline
pub mod Commands
pub mod Ssh
pub mod Tests
pub mod Config
