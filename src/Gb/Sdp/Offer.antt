-- ===== src/Gb/Sdp/Offer.antt =====
-- sdp.rs: who reads an offer gets what was put into it.
use lite_nvr.Gb.Sdp.Trims.{offer-IsTrim}
use lite_nvr.Common.{
  not, ℕ, Bool, true, false, Option, some, List, [], ◌∷◌, ◌++◌, map, ◌≡◌, ◌≤◌, ◌<◌, ◌^◌, ◌-◌, All,
  refl, ap, ◌∙◌, Result, ok, nat_eq,
}
use lite_nvr.Common.Int.{ℤ, pos, pos_part}
use lite_nvr.Common.Digits.{show}
use lite_nvr.Common.Text.{codes}
use lite_nvr.Gb.Registrar.{Transport, udp, tcp_active, tcp_passive}
use lite_nvr.Gb.Sdp.{
  StreamType, play_live, play_back, download, session_name, proto_of, offer_lines, build_play_offer,
  show_ℤ,
}
use lite_nvr.Gb.Sdp.Reader.{
  or_bad, lines, trim, words, Seen, nothing_seen, see_line, see_all, nth_number, second_is_tcp,
  parse_offer, offer_of, address_of, OfferSdp, transport_of, or_zero, SdpError,
}
use lite_nvr.Gb.Sdp.Lines.{
  IsWord, IsTrim, with_cr, lines-pushed, trim-with_cr, trim-word, words-append, words-word,
  show-IsWord, parse-show, show_ℤ-IsWord, parse-show_ℤ,
}

see_read : List (List ℕ) → Seen → Seen
see_read [] s = s
see_read (l ∷ ls) s = see_read ls (see_line l s)

see_all-with_cr :
    (ls : List (List ℕ)) (s : Seen) → All IsTrim ls → see_all (map with_cr ls) s ≡ see_read ls s
unfolding see_all see_read
see_all-with_cr [] s h = refl
see_all-with_cr (l ∷ ls) s h =
    ap (λ (x : List ℕ). see_all (map with_cr ls) (see_line x s)) (trim-with_cr l h.0)
    ∙ see_all-with_cr ls (see_line l s) h.1

is_udp : Transport → Bool
is_udp udp = true
is_udp tcp_active = false
is_udp tcp_passive = false

is_active : Transport → Bool
is_active udp = false
is_active tcp_active = true
is_active tcp_passive = false

-- The line of the times, without its name.
time_text : StreamType → List ℕ
time_text play_live = codes "0 0"
time_text (play_back start end) = show_ℤ start ++ (b' ' ∷ show_ℤ end)
time_text download = codes "0 0"

-- What the lines of an offer say.
unfoldable pub window : StreamType → ℤ × ℤ
window play_live = (pos 0, pos 0)
window (play_back start end) = (start, end)
window download = (pos 0, pos 0)

module _ (local_id ip ssrc : List ℕ) (port : ℕ) (id_word : IsWord local_id) (ip_word : IsWord ip)
    (ssrc_word : IsWord ssrc) where
  -- What is read of the offer, line by line.
  offer_seen : Transport → StreamType → Seen
  offer_seen t k = record {
    session = session_name k;
    ip = some ip;
    port = some port;
    ssrc = some ssrc;
    tcp = not (is_udp t);
    setup_active = is_active t;
    start = pos_part (window k).0;
    stop = pos_part (window k).1;
  }

  times_read :
      (k : StreamType)
      → pos_part (window k).0 < 2 ^ 64
      → pos_part (window k).1 < 2 ^ 64
      → (or_zero (nth_number (2 ^ 64 - 1) 0 (words (time_text k))) ≡ pos_part (window k).0)
        × (or_zero (nth_number (2 ^ 64 - 1) 1 (words (time_text k))) ≡ pos_part (window k).1)
  unfolding time_text window words nth_number or_zero
  times_read play_live h l = (refl, refl)
  times_read download h l = (refl, refl)
  times_read (play_back start end) h l =
      let both =
        words-append (show_ℤ start) (show_ℤ end) (show_ℤ-IsWord start)
        ∙ ap (λ (r : List (List ℕ)). show_ℤ start ∷ r)
            (words-word (show_ℤ end) (show_ℤ-IsWord end)) in
      (
        ap (λ (ws : List (List ℕ)). or_zero (nth_number (2 ^ 64 - 1) 0 ws)) both
            ∙ parse-show_ℤ start h,
        ap (λ (ws : List (List ℕ)). or_zero (nth_number (2 ^ 64 - 1) 1 ws)) both
            ∙ parse-show_ℤ end l,
      )

  -- What was read, before the words are recognised.
  as_read : List ℕ → List ℕ → List (List ℕ) → List ℕ → Bool → List (List ℕ) → Seen
  as_read session at ws y active tw = record {
    session = session;
    ip = some at;
    port = nth_number 65_535 0 ws;
    ssrc = some y;
    tcp = second_is_tcp ws;
    setup_active = active;
    start = or_zero (nth_number (2 ^ 64 - 1) 0 tw);
    stop = or_zero (nth_number (2 ^ 64 - 1) 1 tw);
  }

  tcp_read :
      (t : Transport)
      → second_is_tcp (show port ∷ words (proto_of t ++ codes " 96 98")) ≡ not (is_udp t)
  unfolding second_is_tcp proto_of is_udp words
  tcp_read udp = refl
  tcp_read tcp_active = refl
  tcp_read tcp_passive = refl

  recognised :
      (t : Transport) (k : StreamType)
      → port ≤ 65_535
      → pos_part (window k).0 < 2 ^ 64
      → pos_part (window k).1 < 2 ^ 64
      → as_read
          (session_name k)
          (trim ip)
          (words (show port ++ (b' ' ∷ (proto_of t ++ codes " 96 98"))))
          (trim ssrc)
          (is_active t)
          (words (time_text k))
        ≡ offer_seen t k
  unfolding as_read offer_seen nth_number
  recognised t k h l m =
      (λ i.
        as_read (session_name k) (trim-word ip ip_word i)
          (words-append (show port) (proto_of t ++ codes " 96 98") (show-IsWord port) i)
          (trim-word ssrc ssrc_word i) (is_active t) (words (time_text k)))
      ∙ (λ i. record {
        session = session_name k;
        ip = some ip;
        port = parse-show 65_535 port h i;
        ssrc = some ssrc;
        tcp = tcp_read t i;
        setup_active = is_active t;
        start = (times_read k l m).0 i;
        stop = (times_read k l m).1 i;
      })

  offer_read :
      (t : Transport) (k : StreamType)
      → port ≤ 65_535
      → pos_part (window k).0 < 2 ^ 64
      → pos_part (window k).1 < 2 ^ 64
      → see_read (offer_lines local_id ip port ssrc t k) nothing_seen ≡ offer_seen t k
  unfolding offer_lines see_read see_line as_read nothing_seen time_text is_active
  offer_read udp play_live h l m = recognised udp play_live h l m
  offer_read udp (play_back a b) h l m = recognised udp (play_back a b) h l m
  offer_read udp download h l m = recognised udp download h l m
  offer_read tcp_active play_live h l m = recognised tcp_active play_live h l m
  offer_read tcp_active (play_back a b) h l m = recognised tcp_active (play_back a b) h l m
  offer_read tcp_active download h l m = recognised tcp_active download h l m
  offer_read tcp_passive play_live h l m = recognised tcp_passive play_live h l m
  offer_read tcp_passive (play_back a b) h l m = recognised tcp_passive (play_back a b) h l m
  offer_read tcp_passive download h l m = recognised tcp_passive download h l m

transport_back : (t : Transport) → transport_of (not (is_udp t)) (is_active t) ≡ t
unfolding transport_of is_udp is_active
transport_back udp = refl
transport_back tcp_active = refl
transport_back tcp_passive = refl

-- Who reads an offer gets what was put into it: the kind of session, the address that the text of the IP and the
-- port stand for, the SSRC, the transport, and the window of a playback, or 0 0. The texts are words,
-- the port has 16 bits, and a time that is negative is read as 0.
pub parse-build_play_offer :
    {Addr : Type 0} (parse_addr : List ℕ → Option Addr) (local_id ip ssrc : List ℕ) (port : ℕ)
    (t : Transport) (k : StreamType) (a : Addr)
    → IsWord local_id
    → IsWord ip
    → IsWord ssrc
    → port ≤ 65_535
    → pos_part (window k).0 < 2 ^ 64
    → pos_part (window k).1 < 2 ^ 64
    → parse_addr (ip ++ (b':' ∷ show port)) ≡ some a
    → parse_offer parse_addr (build_play_offer local_id ip port ssrc t k)
      ≡ ok (record {
        session = session_name k;
        media_addr = a;
        ssrc = some ssrc;
        transport = t;
        start = pos_part (window k).0;
        stop = pos_part (window k).1;
      })
unfolding parse_offer build_play_offer offer_seen
parse-build_play_offer {Addr} parse_addr local_id ip ssrc port t k a hi hp hs small l m known =
    ap (λ (s : Seen). offer_of parse_addr s (address_of parse_addr s.ip s.port)) seen
    ∙ ap
        (λ (o : Option Addr).
          offer_of parse_addr (offer_seen local_id ip ssrc port hi hp hs t k) (or_bad parse_addr o))
        known
    ∙ ap told (transport_back t)
  where
    told : Transport → Result SdpError (OfferSdp parse_addr)
    told x = ok (record {
      session = session_name k;
      media_addr = a;
      ssrc = some ssrc;
      transport = x;
      start = pos_part (window k).0;
      stop = pos_part (window k).1;
    })

    seen :
        see_all (lines (build_play_offer local_id ip port ssrc t k)) nothing_seen
        ≡ offer_seen local_id ip ssrc port hi hp hs t k
    seen =
        ap (λ (ls : List (List ℕ)). see_all ls nothing_seen)
          (lines-pushed (offer_lines local_id ip port ssrc t k)
            (offer-IsTrim local_id ip ssrc port hi hp hs t k))
        ∙ see_all-with_cr (offer_lines local_id ip port ssrc t k) nothing_seen
            (offer-IsTrim local_id ip ssrc port hi hp hs t k)
        ∙ offer_read local_id ip ssrc port hi hp hs t k small l m
