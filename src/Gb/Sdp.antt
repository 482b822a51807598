-- ===== src/Gb/Sdp.antt =====
-- crates/gb28181/src/sdp.rs: the offer and the answer of a session. A text is the list of its bytes.
pub mod Reader
pub mod Lines
pub mod Trims
pub mod Offer
pub mod Answer
mod Runs
use lite_nvr.Common.{
  ℕ, zero, suc, Bool, true, false, Option, none, some, List, [], ◌∷◌, ◌++◌, String, ◌+◌, ◌-◌, ◌^◌,
  ◌&&◌, ◌||◌, not, reverse, ltb, leb, if◌then◌else◌, ◌==◌, nat_eq, Result, ok, err,
}
use lite_nvr.Common.Digits.{all_digits, decimal, show}
use lite_nvr.Common.Text.{codes, same_codes}
use lite_nvr.Common.Int.{ℤ, pos, negsuc}
use lite_nvr.Gb.Registrar.{Transport, udp, tcp_active, tcp_passive}

pub data StreamType : Type 0 where
  play_live : StreamType
  play_back : ℤ → ℤ → StreamType
  download : StreamType

-- `{}` of an i64.
unfoldable pub show_ℤ : ℤ → List ℕ
show_ℤ (pos n) = show n
show_ℤ (negsuc n) = b'-' ∷ show (suc n)

unfoldable pub session_name : StreamType → List ℕ
session_name play_live = codes "Play"
session_name (play_back start end) = codes "Playback"
session_name download = codes "Download"

unfoldable pub proto_of : Transport → List ℕ
proto_of udp = codes "RTP/AVP"
proto_of tcp_passive = codes "TCP/RTP/AVP"
proto_of tcp_active = codes "TCP/RTP/AVP"

unfoldable pub time_line : StreamType → List ℕ
unfolding show_ℤ
time_line play_live = codes "t=0 0"
time_line (play_back start end) = codes "t=" ++ (show_ℤ start ++ (b' ' ∷ show_ℤ end))
time_line download = codes "t=0 0"

unfoldable pub setup_lines : Transport → List (List ℕ)
setup_lines udp = []
setup_lines tcp_passive = codes "a=setup:passive" ∷ codes "a=connection:new" ∷ []
setup_lines tcp_active = codes "a=setup:active" ∷ codes "a=connection:new" ∷ []

-- Each line with its end, one after the other.
unfoldable pub pushed : List (List ℕ) → List ℕ
pushed [] = []
pushed (l ∷ ls) = l ++ (13 ∷ 10 ∷ pushed ls)

unfoldable pub offer_lines : List ℕ → List ℕ → ℕ → List ℕ → Transport → StreamType → List (List ℕ)
unfolding session_name proto_of time_line setup_lines
offer_lines local_id recv_ip recv_port ssrc transport stream_type =
    codes "v=0"
    ∷ (codes "o=" ++ (local_id ++ (codes " 0 0 IN IP4 " ++ recv_ip)))
    ∷ (codes "s=" ++ session_name stream_type)
    ∷ (codes "c=IN IP4 " ++ recv_ip)
    ∷ time_line stream_type
    ∷ (codes "m=video " ++ (show recv_port ++ (b' ' ∷ (proto_of transport ++ codes " 96 98"))))
    ∷ codes "a=recvonly"
    ∷ codes "a=rtpmap:96 PS/90000"
    ∷ codes "a=rtpmap:98 H264/90000"
    ∷ (setup_lines transport ++ ((codes "y=" ++ ssrc) ∷ []))

unfoldable pub build_play_offer : List ℕ → List ℕ → ℕ → List ℕ → Transport → StreamType → List ℕ
unfolding offer_lines pushed
build_play_offer local_id recv_ip recv_port ssrc transport stream_type =
    pushed (offer_lines local_id recv_ip recv_port ssrc transport stream_type)

unfoldable pub answer_lines :
    List ℕ → List ℕ → ℕ → List ℕ → Transport → List ℕ → ℕ × ℕ → List (List ℕ)
unfolding proto_of
answer_lines local_id media_ip media_port ssrc transport session (start, stop) =
    codes "v=0"
    ∷ (codes "o=" ++ (local_id ++ (codes " 0 0 IN IP4 " ++ media_ip)))
    ∷ (codes "s=" ++ session)
    ∷ (codes "c=IN IP4 " ++ media_ip)
    ∷ (codes "t=" ++ (show start ++ (b' ' ∷ show stop)))
    ∷ (codes "m=video " ++ (show media_port ++ (b' ' ∷ (proto_of transport ++ codes " 96"))))
    ∷ codes "a=sendonly"
    ∷ codes "a=rtpmap:96 PS/90000"
    ∷ (codes "y=" ++ ssrc)
    ∷ []

unfoldable pub build_answer : List ℕ → List ℕ → ℕ → List ℕ → Transport → List ℕ → ℕ × ℕ → List ℕ
unfolding answer_lines pushed
build_answer local_id media_ip media_port ssrc transport session time_range =
    pushed (answer_lines local_id media_ip media_port ssrc transport session time_range)
