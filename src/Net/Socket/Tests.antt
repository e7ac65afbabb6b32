-- ===== src/Net/Socket/Tests.antt =====
-- Runs of WebSocketClient.cpp on concrete frames, and its theorems at inputs that meet their
-- hypotheses.
use booster_nx.Common.{ℕ, ◌≡◌, refl, true, false, some, none, List, [], ◌∷◌, ◌++◌, arith}
use booster_nx.Net.Socket.{
  Client, no_error, send_again, accepted, send_all, send_message, send_loop, send_frame,
  build_frame, parse_frame, split_frame, frame, out_of_bounds, apply_mask, poll, read_loop, drain,
  handle_frame, handle_close,
}
use booster_nx.Net.Socket.Wire.{Key, key_bytes, wire_frame}
use booster_nx.Net.Socket.Masking.{build_frame-eq-wire_frame}
use booster_nx.Net.Socket.Parsing.{parse_frame-wire_frame}
use booster_nx.Net.Socket.Feed.{poll_reads, poll_reads-append, poll_reads-wire_frame}
use booster_nx.Net.Socket.Sending.{Sends, send_all-Sends, send_message-wire}

abbrev open_client : Client
open_client = record {
  connected = true;
  last_error = no_error;
  rx_buffer = [];
  messages = [];
  faulted = false;
  incoming = [];
  outgoing = accepted 3 ∷ send_again ∷ accepted 100 ∷ [];
  entropy = 55 ∷ 250 ∷ 33 ∷ 61 ∷ 1 ∷ 2 ∷ 3 ∷ 4 ∷ [];
  wire = [];
}

abbrev rfc_key : Key
rfc_key = record { k0 = 55; k1 = 250; k2 = 33; k3 = 61 }

-- "Hello".
abbrev hello : List ℕ
hello = 72 ∷ 101 ∷ 108 ∷ 108 ∷ 111 ∷ []

-- The masked "Hello" of RFC 6455, section 5.7.
abbrev masked_hello : List ℕ
masked_hello = 129 ∷ 133 ∷ 55 ∷ 250 ∷ 33 ∷ 61 ∷ 127 ∷ 159 ∷ 77 ∷ 81 ∷ 88 ∷ []

hello_sent : (send_message open_client hello).wire ≡ masked_hello
unfolding send_message send_frame send_all send_loop build_frame apply_mask
hello_sent = refl

hello_read : parse_frame masked_hello ≡ frame 1 hello []
unfolding parse_frame split_frame apply_mask
hello_read = refl

-- A length near 2^64 passes the test of the buffer's size.
huge_length :
    parse_frame (130 ∷ 127 ∷ 255 ∷ 255 ∷ 255 ∷ 255 ∷ 255 ∷ 255 ∷ 255 ∷ 250 ∷ []) ≡ out_of_bounds
unfolding parse_frame split_frame
huge_length = refl

-- A text frame behind a Close frame is delivered all the same.
text_after_close :
    (poll_reads open_client ((136 ∷ 0 ∷ 129 ∷ 1 ∷ 72 ∷ []) ∷ [])).messages ≡ (72 ∷ []) ∷ []
unfolding poll read_loop drain parse_frame split_frame handle_frame handle_close send_frame send_all
    send_loop build_frame apply_mask
text_after_close = refl

send_all-Sends_example : Sends open_client hello (send_all open_client hello)
send_all-Sends_example = send_all-Sends open_client hello

send_message-wire_example :
    (send_message open_client hello).wire ≡ [] ++ wire_frame 129 (some rfc_key) hello
unfolding send_message send_frame send_all send_loop build_frame apply_mask
send_message-wire_example = send_message-wire open_client rfc_key hello refl (omega arith) refl

build_frame-eq-wire_frame_example :
    build_frame 129 (key_bytes rfc_key) hello ≡ wire_frame 129 (some rfc_key) hello
build_frame-eq-wire_frame_example =
    build_frame-eq-wire_frame 129 rfc_key hello (omega arith) (omega arith) (omega arith)

parse_frame-wire_frame_example :
    parse_frame (wire_frame 137 (some rfc_key) hello ++ (129 ∷ [])) ≡ frame 9 hello (129 ∷ [])
parse_frame-wire_frame_example =
    parse_frame-wire_frame 137 (some rfc_key) hello (129 ∷ [])
      (omega arith, omega arith, omega arith, omega arith)
      (omega arith, (omega arith, (omega arith, (omega arith, (omega arith, tt))))) (omega arith)

abbrev first_reads : List (List ℕ)
first_reads = (137 ∷ 1 ∷ 7 ∷ 129 ∷ []) ∷ []

abbrev second_reads : List (List ℕ)
second_reads = (5 ∷ 72 ∷ []) ∷ (101 ∷ 108 ∷ 108 ∷ 111 ∷ []) ∷ []

poll_reads-append_example :
    poll_reads (poll_reads open_client first_reads) second_reads
    ≡ poll_reads open_client (first_reads ++ second_reads)
unfolding poll read_loop drain parse_frame split_frame handle_frame send_frame send_all send_loop
    build_frame apply_mask
poll_reads-append_example =
    poll_reads-append open_client first_reads second_reads refl (omega arith, tt)
      (omega arith, (omega arith, tt)) (omega arith) refl

poll_reads-wire_frame_example :
    poll_reads open_client ((129 ∷ []) ∷ second_reads)
    ≡ record open_client { messages = hello ∷ [] }
unfolding wire_frame
poll_reads-wire_frame_example =
    poll_reads-wire_frame open_client none hello ((129 ∷ []) ∷ second_reads) refl refl tt
      (omega arith, (omega arith, (omega arith, (omega arith, (omega arith, tt))))) (omega arith)
      (omega arith, (omega arith, (omega arith, tt))) refl (omega arith)
