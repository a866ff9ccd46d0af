-- ===== src/Lib.antt =====
-- AkurAI VPN: an overlay network of devices that reach each other over a relay.
--
-- The program and how its parts interact. A node (crates/akurai-node) reads IP packets from a TUN device,
-- routes each to a peer of its peer table, asks its access list, seals the packet in the session it has
-- with the peer, and sends it in an envelope to the relay. The relay (crates/akurai-relay) learns from
-- every envelope where its sender is, and forwards it. Sessions come from a Noise_IK handshake
-- (crates/akurai-transport) over the primitives of crates/akurai-crypto. The control plane
-- (crates/akurai-control) gives each device its overlay address. crates/akurai-common holds the envelope,
-- route blocks, the address plan and the policy that the others share.
--
-- The files, and the source that each is about:
--   Base and its children: shared types, list, map and bit lemmas. Base/Outcome has a panic as a value;
--     Base/Net and Base/Ipv4 have the address types of the standard library and their text.
--   Common/Frame: crates/akurai-common/src/frame.rs. `new`, `encode`, `decode` are the functions of that
--     name; an index out of bounds is `panic`.
--   Common/Cidr, Common/Overlay, Common/Policy: cidr.rs, overlay.rs and policy.rs beside it.
--   Crypto/Chacha20, Crypto/Poly1305, Crypto/Chacha20Poly1305: crates/akurai-crypto/src/chacha20poly1305.rs;
--     `unseal` is `open`. Crypto/Blake2s and Crypto/Hkdf: blake2s.rs and hkdf.rs.
--     Crypto/Field25519 and Crypto/X25519: x25519.rs, the field operations and what is built on them;
--     Crypto/X25519/Curve is the function of RFC 7748 on numbers.
--   Transport/Session: crates/akurai-transport/src/session.rs. `slide` is the part of `decrypt` behind the
--     tag check. Transport/Aead is what the channel needs of a cipher, and Transport/Cipher the proof that
--     ChaCha20-Poly1305 is one. Transport/Noise: noise.rs; the locals `ck` and `h` are a `Symmetric`.
--     Transport/Exchange is the X25519 of crates/akurai-crypto, for which the handshake is proved.
--   Relay: crates/akurai-relay/src/forward.rs. `handle` is `forward_one` behind the decoder, and an
--     `Effect` is the relay afterwards with the datagrams it sent.
--   Control/Ipam, Control/VpnEndpoint, Control/Heartbeat, Control/PeerMap: ipam.rs, vpn_endpoint.rs,
--     heartbeat.rs and peermap.rs of crates/akurai-control/src. Control/Registry: the handlers of
--     listener.rs there that change the devices, each from an `AppState` to its reply and the state
--     afterwards; the clock, the random values and whether `save` succeeded are arguments. Enrollment
--     below it registers a device, Authentication checks its token. A `Request` is a call of a handler,
--     and `run` a sequence of calls. Control/Json: `json_esc` of vpn_endpoint.rs and `extract_json_str`
--     of auth.rs.
--   Node/Peers, Node/Acl: crates/akurai-node/src/peers.rs and acl.rs. Node/Paths and Node/Tunnel: tunnel.rs;
--     Outbound is one pass of `tun_pump` and Inbound one pass of `udp_pump`, from a state table to the
--     table afterwards, what was sent and what was written to the TUN. The time and the entropy of a
--     pass are arguments. Node/Echo: `icmp_echo_reply` there, with fuel for two rounds of the loop of
--     carries, which are enough.
--   Common/Base64: b64.rs beside frame.rs, over the bytes of ASCII text. Transport/Channel: the handshake and
--     the sessions together.
--   Dns/Wire: crates/akurai-dns/src/wire.rs, Dns: lib.rs beside it; `answer_datagram` is one round of `serve`.
--   Tests: test vectors, and the theorems at concrete inputs.
--
-- Numbers are natural numbers with the wrap-around of the machine written out. A byte array is a list of
-- numbers; a string is the list of its code points. A hash map is an association list in an order that is
-- left open. Loops over data are structural; `xor_loop` and `update_loop` run on as much fuel as there
-- are bytes, and take at least one byte in each round.
--
-- Not modelled: sockets, files, threads, system calls and commands; the group law of Curve25519, so that
-- the theorems on the handshake take as a hypothesis, of the curve of RFC 7748 and the secrets at hand, that
-- multiples of the base point commute (its section 6.1), as they do for every pair of secrets; the readers
-- of the peer, access and ingress configuration; the HTTP reader, the JSON of arrays and records and the
-- login of the control plane, whose handlers take what those readers return as arguments; the ingress
-- proxy; the command lines.
pub mod Base
pub mod Common
pub mod Control
pub mod Crypto
pub mod Dns
pub mod Node
pub mod Relay
pub mod Transport
pub mod Tests
