-- ===== src/Cs2/Wire.antt =====
-- The byte layouts of crates/xiaomi/src/cs2.rs: commands, packets, acknowledgements and the TCP
-- framing.
use lite_nvr.Common.{
  ◌||◌, ℕ, ◌+◌, ◌-◌, ◌%◌, ◌^◌, Bool, Option, none, some, List, [], ◌∷◌, ◌++◌, ltb, if◌then◌else◌,
  length, take, drop, replicate,
}
use lite_nvr.Common.Bytes.{be16, be32, from_be16}

abbrev pub magic : ℕ
magic = 0xf1

abbrev pub magic_drw : ℕ
magic_drw = 0xd1

abbrev pub magic_tcp : ℕ
magic_tcp = 0x68

abbrev pub msg_lan_search : ℕ
msg_lan_search = 0x30

abbrev pub msg_punch_pkt : ℕ
msg_punch_pkt = 0x41

abbrev pub msg_p2p_rdy_udp : ℕ
msg_p2p_rdy_udp = 0x42

abbrev pub msg_p2p_rdy_tcp : ℕ
msg_p2p_rdy_tcp = 0x43

abbrev pub msg_drw : ℕ
msg_drw = 0xd0

abbrev pub msg_drw_ack : ℕ
msg_drw_ack = 0xd1

abbrev pub msg_ping : ℕ
msg_ping = 0xe0

abbrev pub msg_pong : ℕ
msg_pong = 0xe1

abbrev pub hdr_size : ℕ
hdr_size = 32

-- The lengths are cut to u16 and u32 as by `as`.
unfoldable pub marshal_cmd : ℕ → ℕ → ℕ → List ℕ → List ℕ
marshal_cmd channel seq cmd payload =
    (magic ∷ msg_drw ∷ [])
    ++ (be16 ((12 + length payload) % 2 ^ 16)
        ++ ((magic_drw ∷ channel ∷ [])
            ++ (be16 seq ++ (be32 ((4 + length payload) % 2 ^ 32) ++ (be32 cmd ++ payload)))))

-- `xs` cut to `n` bytes and filled up with zeros, as copied into a zeroed buffer.
unfoldable pub fit : ℕ → List ℕ → List ℕ
fit n xs = take n xs ++ replicate (n - length xs) 0

-- The request of `write_packet`. `none` is the panic that a payload of 4 GiB less a header causes.
unfoldable pub packet_request : ℕ → List ℕ → List ℕ → Option (List ℕ)
unfolding fit
packet_request seq hdr payload =
    let n = (hdr_size + length payload) % 2 ^ 32 in
    if ltb n hdr_size
    then none
    else some (
        (magic ∷ msg_drw ∷ [])
        ++ (be16 ((n + 8) % 2 ^ 16)
            ++ ((magic_drw ∷ 3 ∷ [])
                ++ (be16 seq ++ (be32 n ++ (fit hdr_size hdr ++ fit (n - hdr_size) payload))))))

unfoldable pub ack_frame : ℕ → ℕ → ℕ → List ℕ
ack_frame ch seq_hi seq_lo =
    magic ∷ msg_drw_ack ∷ 0 ∷ 6 ∷ magic_drw ∷ ch ∷ 0 ∷ 1 ∷ seq_hi ∷ seq_lo ∷ []

-- What `Transport::write` sends on TCP.
unfoldable pub tcp_frame : List ℕ → List ℕ
tcp_frame buf = be16 (length buf % 2 ^ 16) ++ ((magic_tcp ∷ 0 ∷ 0 ∷ 0 ∷ 0 ∷ 0 ∷ []) ++ buf)

-- `Transport::read_frame` on the bytes of a TCP stream, into a buffer of `cap` bytes. `ended` is
-- the error of `read_exact`.
pub data TcpRead : Type 0 where
  frame_read : List ℕ → List ℕ → TcpRead
  too_small ended : TcpRead

unfoldable pub read_tcp : ℕ → List ℕ → TcpRead
read_tcp cap (a ∷ b ∷ c ∷ d ∷ e ∷ f ∷ g ∷ h ∷ rest) =
    let n = from_be16 a b in
    if ltb cap n
    then too_small
    else if ltb (length rest) n
    then ended
    else frame_read (take n rest) (drop n rest)
read_tcp cap _ = ended

-- `Transport::read_frame` on a datagram: whether it is returned.
unfoldable pub udp_accepts : Bool → ℕ → Bool
udp_accepts from_peer n = from_peer || ltb 7 n
