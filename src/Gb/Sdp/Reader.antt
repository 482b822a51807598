-- ===== src/Gb/Sdp/Reader.antt =====
-- sdp.rs: reading an offer or an answer. Of the white space, that of ASCII is cut off. How "ip:port" is
-- read as an address is a parameter.
use lite_nvr.Common.{
  ℕ, zero, suc, Bool, true, false, Option, none, some, List, [], ◌∷◌, ◌++◌, ◌-◌, ◌^◌, ◌&&◌, ◌||◌,
  reverse, leb, if◌then◌else◌, ◌==◌, nat_eq, Result, ok, err,
}
use lite_nvr.Common.Digits.{all_digits, decimal, show}
use lite_nvr.Common.Text.{codes, same_codes}
use lite_nvr.Gb.Registrar.{Transport, udp, tcp_active, tcp_passive}

unfoldable pub is_white : ℕ → Bool
is_white b = b == b' ' || (leb 9 b && leb b 13)

unfoldable pub trim_start : List ℕ → List ℕ
unfolding is_white
trim_start [] = []
trim_start (b ∷ bs) = let rest = trim_start bs in if is_white b then rest else b ∷ bs

unfoldable pub trim : List ℕ → List ℕ
unfolding trim_start
trim bs = reverse (trim_start (reverse (trim_start bs)))

unfoldable pub on_line : ℕ → List (List ℕ) → List (List ℕ)
on_line b [] = (b ∷ []) ∷ []
on_line b (l ∷ ls) = (b ∷ l) ∷ ls

-- `lines()`; the carriage returns that it cuts off too are white space, which each reader trims.
unfoldable pub lines : List ℕ → List (List ℕ)
unfolding on_line
lines [] = []
lines (b ∷ bs) = let rest = lines bs in if b == 10 then [] ∷ rest else on_line b rest

unfoldable pub word_on : ℕ → Bool → List (List ℕ) → List (List ℕ)
word_on b true ws = (b ∷ []) ∷ ws
word_on b false [] = (b ∷ []) ∷ []
word_on b false (w ∷ ws) = (b ∷ w) ∷ ws

unfoldable pub starts_white : List ℕ → Bool
unfolding is_white
starts_white [] = true
starts_white (b ∷ bs) = is_white b

-- `split_whitespace()`.
unfoldable pub words : List ℕ → List (List ℕ)
unfolding is_white word_on starts_white
words [] = []
words (b ∷ bs) =
    let rest = words bs in if is_white b then rest else word_on b (starts_white bs) rest

unfoldable pub strip_prefix : List ℕ → List ℕ → Option (List ℕ)
strip_prefix [] bs = some bs
strip_prefix (p ∷ ps) [] = none
strip_prefix (p ∷ ps) (b ∷ bs) = let rest = strip_prefix ps bs in if b == p then rest else none

-- `str::parse` of an unsigned number of at most `most`, with an optional plus sign.
unfoldable pub digits_up_to : ℕ → List ℕ → Option ℕ
unfolding all_digits decimal
digits_up_to most [] = none
digits_up_to most (b ∷ bs) =
    if all_digits (b ∷ bs) && leb (decimal 0 (b ∷ bs)) most then some (decimal 0 (b ∷ bs)) else none

unfoldable pub parse_up_to : ℕ → List ℕ → Option ℕ
unfolding digits_up_to
parse_up_to most [] = none
parse_up_to most (b ∷ bs) = if b == b'+' then digits_up_to most bs else digits_up_to most (b ∷ bs)

unfoldable pub contains : List ℕ → List ℕ → Bool
unfolding strip_prefix
contains w [] = false
contains w (b ∷ bs) = here (strip_prefix w (b ∷ bs)) || contains w bs
  where
    here : Option (List ℕ) → Bool
    here none = false
    here (some r) = true

pub data SdpError : Type 0 where
  missing_c missing_m bad_addr : SdpError

-- What has been read of an offer.
pub record Seen : Type 0 where
  pub session : List ℕ
  pub ip : Option (List ℕ)
  pub port : Option ℕ
  pub ssrc : Option (List ℕ)
  pub tcp : Bool
  pub setup_active : Bool
  pub start : ℕ
  pub stop : ℕ

unfoldable pub nothing_seen : Seen
nothing_seen = record {
  session = [];
  ip = none;
  port = none;
  ssrc = none;
  tcp = false;
  setup_active = false;
  start = 0;
  stop = 0;
}

unfoldable pub or_zero : Option ℕ → ℕ
or_zero none = 0
or_zero (some n) = n

unfoldable pub nth_number : ℕ → ℕ → List (List ℕ) → Option ℕ
unfolding parse_up_to
nth_number most n [] = none
nth_number most zero (w ∷ ws) = parse_up_to most w
nth_number most (suc n) (w ∷ ws) = nth_number most n ws

unfoldable pub second_is_tcp : List (List ℕ) → Bool
unfolding contains
second_is_tcp [] = false
second_is_tcp (w ∷ []) = false
second_is_tcp (w ∷ v ∷ ws) = contains (codes "TCP") v

unfoldable pub see_setup : Bool → Seen → Seen
see_setup true s = record s { setup_active = true }
see_setup false s = s

unfoldable pub see_ssrc : Option (List ℕ) → List ℕ → Seen → Seen
unfolding see_setup trim
see_ssrc (some rest) l s = record s { ssrc = some (trim rest) }
see_ssrc none l s = see_setup (same_codes l (codes "a=setup:active")) s

unfoldable pub see_media : Option (List ℕ) → List ℕ → Seen → Seen
unfolding see_ssrc strip_prefix words nth_number second_is_tcp
see_media (some rest) l s = record s {
  port = nth_number 65_535 0 (words rest);
  tcp = second_is_tcp (words rest);
}
see_media none l s = see_ssrc (strip_prefix (codes "y=") l) l s

unfoldable pub see_connection : Option (List ℕ) → List ℕ → Seen → Seen
unfolding see_media strip_prefix trim
see_connection (some rest) l s = record s { ip = some (trim rest) }
see_connection none l s = see_media (strip_prefix (codes "m=video ") l) l s

unfoldable pub see_time : Option (List ℕ) → List ℕ → Seen → Seen
unfolding see_connection strip_prefix words nth_number or_zero
see_time (some rest) l s = record s {
  start = or_zero (nth_number (2 ^ 64 - 1) 0 (words rest));
  stop = or_zero (nth_number (2 ^ 64 - 1) 1 (words rest));
}
see_time none l s = see_connection (strip_prefix (codes "c=IN IP4 ") l) l s

unfoldable pub see_session : Option (List ℕ) → List ℕ → Seen → Seen
unfolding see_time strip_prefix trim
see_session (some rest) l s = record s { session = trim rest }
see_session none l s = see_time (strip_prefix (codes "t=") l) l s

unfoldable pub see_line : List ℕ → Seen → Seen
unfolding see_session strip_prefix
see_line l s = see_session (strip_prefix (codes "s=") l) l s

unfoldable pub see_all : List (List ℕ) → Seen → Seen
unfolding see_line trim
see_all [] s = s
see_all (l ∷ ls) s = see_all ls (see_line (trim l) s)

unfoldable pub transport_of : Bool → Bool → Transport
transport_of false active = udp
transport_of true true = tcp_active
transport_of true false = tcp_passive

-- Of an answer only the address, the port and the SSRC are read.
unfoldable pub answer_media : Option (List ℕ) → List ℕ → Seen → Seen
unfolding strip_prefix words nth_number trim
answer_media (some rest) l s = record s { port = nth_number 65_535 0 (words rest) }
answer_media none l s = answer_ssrc (strip_prefix (codes "y=") l)
  where
    answer_ssrc : Option (List ℕ) → Seen
    answer_ssrc (some rest) = record s { ssrc = some (trim rest) }
    answer_ssrc none = s

unfoldable pub answer_line : Option (List ℕ) → List ℕ → Seen → Seen
unfolding answer_media strip_prefix trim
answer_line (some rest) l s = record s { ip = some (trim rest) }
answer_line none l s = answer_media (strip_prefix (codes "m=video ") l) l s

unfoldable pub answer_all : List (List ℕ) → Seen → Seen
unfolding answer_line trim strip_prefix
answer_all [] s = s
answer_all (l ∷ ls) s =
    answer_all ls (answer_line (strip_prefix (codes "c=IN IP4 ") (trim l)) (trim l) s)

module _ {Addr : Type 0} (parse_addr : List ℕ → Option Addr) where
  pub record OfferSdp : Type 0 where
    pub session : List ℕ
    pub media_addr : Addr
    pub ssrc : Option (List ℕ)
    pub transport : Transport
    pub start : ℕ
    pub stop : ℕ

  pub record AnswerSdp : Type 0 where
    pub media_addr : Addr
    pub ssrc : Option (List ℕ)

  unfoldable pub or_bad : Option Addr → Result SdpError Addr
  or_bad none = err bad_addr
  or_bad (some a) = ok a

  unfoldable pub address_of : Option (List ℕ) → Option ℕ → Result SdpError Addr
  unfolding or_bad
  address_of none port = err missing_c
  address_of (some ip) none = err missing_m
  address_of (some ip) (some port) = or_bad (parse_addr (ip ++ (b':' ∷ show port)))

  unfoldable pub offer_of : Seen → Result SdpError Addr → Result SdpError OfferSdp
  unfolding transport_of
  offer_of s (err e) = err e
  offer_of s (ok a) = ok (record {
    session = s.session;
    media_addr = a;
    ssrc = s.ssrc;
    transport = transport_of s.tcp s.setup_active;
    start = s.start;
    stop = s.stop;
  })

  unfoldable pub answer_of : Seen → Result SdpError Addr → Result SdpError AnswerSdp
  answer_of s (err e) = err e
  answer_of s (ok a) = ok (record { media_addr = a; ssrc = s.ssrc })

  unfoldable pub parse_offer : List ℕ → Result SdpError OfferSdp
  unfolding offer_of address_of see_all lines nothing_seen
  parse_offer sdp = let s = see_all (lines sdp) nothing_seen in offer_of s (address_of s.ip s.port)

  unfoldable pub parse_answer : List ℕ → Result SdpError AnswerSdp
  unfolding answer_of address_of answer_all lines nothing_seen
  parse_answer sdp =
      let s = answer_all (lines sdp) nothing_seen in answer_of s (address_of s.ip s.port)
