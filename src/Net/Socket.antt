-- ===== src/Net/Socket.antt =====
-- app/src/WebSocketClient.cpp: frames, masking, sending and polling. libcurl and the random source
-- are not part of the program: `incoming` and `outgoing` list what the next calls of
-- `curl_easy_recv` and `curl_easy_send` return, `entropy` the random bytes still to come, and `wire`
-- the bytes that libcurl has accepted. Where a script is at its end libcurl answers CURLE_AGAIN.
-- `connect` is not here; a client starts as it leaves it.
pub mod Wire
pub mod Masking
pub mod Parsing
pub mod Stable
pub mod Stream
pub mod Feed
pub mod Sending
mod Tests
use Prim.Native.Nat.{bit_xor}
use booster_nx.Common.{
  ℕ, zero, suc, ◌+◌, ◌-◌, ◌*◌, ◌/◌, ◌%◌, Bool, true, false, ◌&&◌, ◌||◌, not, Option, none, some,
  List, [], ◌∷◌, ◌++◌, length, take, drop, get_or, ltb, leb, ◌==◌, if◌then◌else◌,
}

pub data SendOutcome : Type 0 where
  send_again : SendOutcome
  send_failed : ℕ → SendOutcome
  accepted : ℕ → SendOutcome

-- `received []` is a success with no bytes: the peer has closed the connection.
pub data RecvOutcome : Type 0 where
  recv_again : RecvOutcome
  recv_failed : ℕ → RecvOutcome
  received : List ℕ → RecvOutcome

-- `last_error_`, by its cause.
pub data LastError : Type 0 where
  no_error send_timeout send_stalled remote_closed frame_too_large : LastError
  send_error receive_error : ℕ → LastError
  signaling_closed : ℕ → List ℕ → LastError

-- `messages` are the calls of `on_message_`, newest last. `faulted` marks an access outside the
-- buffer, which is undefined behaviour in the source.
pub record Client : Type 0 where
  pub connected : Bool
  pub last_error : LastError
  pub rx_buffer : List ℕ
  pub messages : List (List ℕ)
  pub faulted : Bool
  pub incoming : List RecvOutcome
  pub outgoing : List SendOutcome
  pub entropy : List ℕ
  pub wire : List ℕ

-- A `size_t` of 64 bits.
abbrev pub size_mod : ℕ
size_mod = 18446744073709551616

abbrev pub retry_limit : ℕ
retry_limit = 100

abbrev pub fail : Client → LastError → Client
fail c e = record c { last_error = e; connected = false }

-- The loop of `send_all` over the bytes still to send, with `retry_budget`.
pub send_loop : List SendOutcome → List ℕ → ℕ → Client → Client × Bool
send_loop os [] budget c = (record c { outgoing = os }, true)
send_loop [] (b ∷ bs) budget c = (fail (record c { outgoing = [] }) send_timeout, false)
send_loop (send_again ∷ os) (b ∷ bs) budget c = elim (leb (budget - 1) 0) [
  | true ↦ (fail (record c { outgoing = os }) send_timeout, false)
  | false ↦ send_loop os (b ∷ bs) (budget - 1) c
]
send_loop (send_failed e ∷ os) (b ∷ bs) budget c =
    (fail (record c { outgoing = os }) (send_error e), false)
send_loop (accepted zero ∷ os) (b ∷ bs) budget c =
    (fail (record c { outgoing = os }) send_stalled, false)
send_loop (accepted (suc n) ∷ os) (b ∷ bs) budget c =
    send_loop os (drop n bs) retry_limit (record c { wire = c.wire ++ (b ∷ take n bs) })

pub send_all : Client → List ℕ → Client × Bool
send_all c bytes = send_loop c.outgoing bytes retry_limit c

-- `payload[i] ^ mask_key[i % 4]` from index `i` on.
pub apply_mask : ℕ → List ℕ → List ℕ → List ℕ
apply_mask i key [] = []
apply_mask i key (b ∷ bs) = bit_xor b (get_or key (i % 4) 0) ∷ apply_mask (i + 1) key bs

-- The eight bytes of a length, the high one first, each `(length >> (i * 8)) & 0xFF`.
abbrev pub length_bytes : ℕ → List ℕ
length_bytes n =
    (n / 72057594037927936 % 256)
    ∷ (n / 281474976710656 % 256)
    ∷ (n / 1099511627776 % 256)
    ∷ (n / 4294967296 % 256)
    ∷ (n / 16777216 % 256)
    ∷ (n / 65536 % 256)
    ∷ (n / 256 % 256)
    ∷ (n % 256)
    ∷ []

-- `opcode | 0x80`, and the length with the mask bit, which is 128 over a value below 128.
abbrev pub frame_header : ℕ → ℕ → List ℕ
frame_header opcode n =
    (opcode % 128 + 128)
    ∷ (if ltb n 126
        then (128 + n) ∷ []
        else (if leb n 65535 then 254 ∷ (n / 256 % 256) ∷ (n % 256) ∷ [] else 255 ∷ length_bytes n))

-- The frame that `send_frame` builds, for a mask key.
pub build_frame : ℕ → List ℕ → List ℕ → List ℕ
build_frame opcode key payload =
    frame_header opcode (length payload) ++ (key ++ apply_mask 0 key payload)

-- `random_bytes(4)`.
abbrev pub random_key : Client → List ℕ
random_key c =
    get_or c.entropy 0 0 ∷ get_or c.entropy 1 0 ∷ get_or c.entropy 2 0 ∷ get_or c.entropy 3 0 ∷ []

pub send_frame : Client → ℕ → List ℕ → Client × Bool
send_frame c opcode payload =
    if not c.connected
    then (c, false)
    else send_all (record c { entropy = drop 4 c.entropy })
        (build_frame opcode (random_key c) payload)

pub send_message : Client → List ℕ → Client
send_message c msg = (send_frame c 129 msg).0

pub disconnect : Client → Client
disconnect c =
    if c.connected then record (send_frame c 136 (3 ∷ 232 ∷ [])).0 { connected = false } else c

-- The first loop of `poll`: all bytes that have come.
pub read_loop : List RecvOutcome → Client → Client
read_loop [] c = record c { incoming = [] }
read_loop (recv_again ∷ rs) c = record c { incoming = rs }
read_loop (recv_failed e ∷ rs) c = fail (record c { incoming = rs }) (receive_error e)
read_loop (received [] ∷ rs) c = fail (record c { incoming = rs }) remote_closed
read_loop (received (b ∷ bs) ∷ rs) c =
    read_loop rs (record c { rx_buffer = c.rx_buffer ++ (b ∷ bs) })

-- What the second loop of `poll` finds at the front of the buffer.
pub data Parse : Type 0 where
  need_more too_large out_of_bounds : Parse
  frame : ℕ → List ℕ → List ℕ → Parse

abbrev pub big_length : List ℕ → ℕ
big_length bytes =
    get_or bytes 2 0 * 72057594037927936
    + get_or bytes 3 0 * 281474976710656
    + get_or bytes 4 0 * 1099511627776
    + get_or bytes 5 0 * 4294967296
    + get_or bytes 6 0 * 16777216
    + get_or bytes 7 0 * 65536
    + get_or bytes 8 0 * 256
    + get_or bytes 9 0

abbrev pub unmask : Bool → List ℕ → List ℕ → List ℕ
unmask masked key payload = if masked then apply_mask 0 key payload else payload

-- From where `payload_len` is known. The sum is a `size_t` and may wrap round; what is then read is
-- out of bounds.
pub split_frame : List ℕ → ℕ → Bool → ℕ → ℕ → Parse
split_frame bytes opcode masked header payload_len =
    if ltb (length bytes) ((header + payload_len) % size_mod)
    then need_more
    else (if ltb (length bytes) (header + payload_len)
        then out_of_bounds
        else frame opcode
            (unmask masked (take 4 (drop (header - 4) bytes))
              (take payload_len (drop header bytes)))
            (drop (header + payload_len) bytes))

abbrev pub is_masked : ℕ → Bool
is_masked b = b / 128 % 2 == 1

abbrev pub with_mask : Bool → ℕ → ℕ
with_mask masked header = if masked then header + 4 else header

-- By the 7-bit length: `opcode`, `masked` and `payload_len_7` come from the first two bytes.
abbrev pub parse_length : List ℕ → ℕ → Bool → ℕ → Parse
parse_length bytes opcode masked len7 =
    if len7 == 126
    then (if ltb (length bytes) 4
        then need_more
        else split_frame bytes opcode masked (with_mask masked 4)
            (get_or bytes 2 0 * 256 + get_or bytes 3 0))
    else (if len7 == 127
        then (if ltb (length bytes) 10
            then need_more
            else (if ltb (size_mod - 1) (big_length bytes)
                then too_large
                else split_frame bytes opcode masked (with_mask masked 10) (big_length bytes)))
        else split_frame bytes opcode masked (with_mask masked 2) len7)

pub parse_frame : List ℕ → Parse
parse_frame bytes =
    if ltb (length bytes) 2
    then need_more
    else parse_length bytes (get_or bytes 0 0 % 16) (is_masked (get_or bytes 1 0))
        (get_or bytes 1 0 % 128)

abbrev pub close_code : List ℕ → ℕ
close_code payload =
    if leb 2 (length payload) then get_or payload 0 0 * 256 + get_or payload 1 0 else 0

pub handle_close : Client → List ℕ → Client
handle_close c payload =
    record (send_frame
      (record c { last_error = signaling_closed (close_code payload) (drop 2 payload) }) 136
      payload).0 { connected = false }

pub handle_frame : Client → ℕ → List ℕ → Client
handle_frame c opcode payload =
    if opcode == 1
    then record c { messages = c.messages ++ (payload ∷ []) }
    else (if opcode == 8
        then handle_close c payload
        else (if opcode == 9 then (send_frame c 138 payload).0 else c))

-- A round of the second loop of `poll`, and what is done with the rest of the buffer.
abbrev pub take_round : (Client → Client) → Client → Parse → Client
take_round again c need_more = c
take_round again c too_large = fail c frame_too_large
take_round again c out_of_bounds = record c { faulted = true }
take_round again c (frame opcode payload rest) =
    again (handle_frame (record c { rx_buffer = rest }) opcode payload)

-- The second loop of `poll`. A round takes a frame, so the length of the buffer is fuel enough.
pub drain : ℕ → Client → Client
drain zero c = c
drain (suc n) c = take_round (λ d. drain n d) c (parse_frame c.rx_buffer)

pub poll : Client → Client
poll c =
    if not c.connected then c else (let d = read_loop c.incoming c in drain (length d.rx_buffer) d)
