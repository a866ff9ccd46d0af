-- ===== src/Tests/Wire.antt =====
-- The envelope and the relay at concrete datagrams.
use akur_ai_vpn.Base.{
  ℕ, ◌+◌, ◌≡◌, refl, List, [], ◌∷◌, ◌++◌, some, arith, ipv4, Ipv4Addr, SocketAddr,
}
use akur_ai_vpn.Base.Eq.{nat_eq}
use akur_ai_vpn.Base.Maps.{get}
use akur_ai_vpn.Base.Outcome.{done}
use akur_ai_vpn.Common.Frame.{Frame, handshake_init, payload_data, encode, decode}
use akur_ai_vpn.Common.Frame.RoundTrip.{EncodesPrefix, decode-encode, encode-decode}
use akur_ai_vpn.Relay.{Relay, learn, handle, run, empty}
use akur_ai_vpn.Relay.Learning.{last_heard, run-last_heard}
use akur_ai_vpn.Relay.Counters.{settled, traffic_of, settled-run}
use akur_ai_vpn.Relay.Forwarding.{Sends, Tells, sent-handle, sent-introduces}

abbrev data_frame : Frame
data_frame = record {
  kind = payload_data;
  dest = ipv4 100 88 0 3;
  src = ipv4 100 88 0 2;
  payload = 7 ∷ 8 ∷ 9 ∷ [];
}

decode-encode_example : decode (encode data_frame ++ (1 ∷ [])) ≡ done (some data_frame)
decode-encode_example =
    decode-encode data_frame (1 ∷ [])
      (record { dest_fits = omega arith; src_fits = omega arith; payload_fits = omega arith })

abbrev data_bytes : List ℕ
data_bytes = 0xAC ∷ 0x01 ∷ 1 ∷ 4 ∷ 100 ∷ 88 ∷ 0 ∷ 3 ∷ 100 ∷ 88 ∷ 0 ∷ 2 ∷ 0 ∷ 3 ∷ 7 ∷ 8 ∷ 9 ∷ []

data_bytes-decode : decode data_bytes ≡ done (some data_frame)
unfolding decode
data_bytes-decode = refl

encode-decode_example : EncodesPrefix data_bytes data_frame
encode-decode_example = encode-decode data_bytes data_frame (omega arith) data_bytes-decode

abbrev home : SocketAddr
home = SocketAddr.v4 (ipv4 10 0 0 1) 4000

abbrev office : SocketAddr
office = SocketAddr.v4 (ipv4 10 0 0 2) 5000

abbrev arrivals : List (List ℕ × SocketAddr)
arrivals = (data_bytes, home) ∷ (1 ∷ 2 ∷ [], office) ∷ []

run-last_heard_example :
    (r' : Relay) × (run empty arrivals ≡ done r')
    × ((ip : Ipv4Addr) → get ip r'.table ≡ last_heard ip (get ip empty.table) arrivals)
run-last_heard_example = run-last_heard empty arrivals

sent-handle_example : Sends data_frame data_bytes (handle empty (some data_frame) data_bytes home)
sent-handle_example = sent-handle empty data_frame data_bytes home

abbrev knows_office : Relay
knows_office = record empty { table = (ipv4 100 88 0 3, office) ∷ [] }

abbrev init_bytes : List ℕ
init_bytes = 0xAC ∷ 0x01 ∷ 1 ∷ 2 ∷ 100 ∷ 88 ∷ 0 ∷ 3 ∷ 100 ∷ 88 ∷ 0 ∷ 2 ∷ 0 ∷ 1 ∷ 7 ∷ []

abbrev init_frame : Frame
init_frame = record {
  kind = handshake_init;
  dest = ipv4 100 88 0 3;
  src = ipv4 100 88 0 2;
  payload = 7 ∷ [];
}

init_bytes-decode : decode init_bytes ≡ done (some init_frame)
unfolding decode
init_bytes-decode = refl

office_known : get init_frame.dest (learn knows_office init_frame.src home).table ≡ some office
unfolding learn
office_known = refl

sent-introduces_example :
    (h1 h2 : List ℕ) × ((handle knows_office (some init_frame) init_bytes home).sent
      ≡ (init_bytes, office) ∷ (h1, office) ∷ (h2, home) ∷ [])
    × Tells init_frame.src init_frame.dest home h1
    × Tells init_frame.dest init_frame.src office h2
sent-introduces_example =
    sent-introduces knows_office init_bytes init_frame (ipv4 10 0 0 1) 4000 (ipv4 10 0 0 2) 5000
      (omega arith) init_bytes-decode refl (omega arith) (omega arith) (omega arith) (omega arith)
      office_known

abbrev after_arrivals : Relay
after_arrivals = record {
  table = (ipv4 100 88 0 2, home) ∷ [];
  stats = record { forwarded = 0; dropped_unknown = 1; malformed = 1; learned = 1 };
}

arrivals-run : run empty arrivals ≡ done after_arrivals
unfolding run
arrivals-run = refl

settled-run_example : settled after_arrivals ≡ settled empty + traffic_of arrivals
settled-run_example = settled-run empty after_arrivals arrivals (omega arith) arrivals-run
