-- ===== src/Gb/Sdp/Runs.antt =====
-- A playback over active TCP.
use lite_nvr.Common.{◌&&◌}
use lite_nvr.Common.{All, not}
use lite_nvr.Common.{
  ◌^◌, ◌<◌, ℕ, Bool, true, false, Option, some, List, [], ◌∷◌, ◌++◌, ◌≡◌, ok, refl, arith,
}
use lite_nvr.Common.Int.{pos, pos_part}
use lite_nvr.Common.Digits.{show}
use lite_nvr.Common.Text.{codes}
use lite_nvr.Gb.Registrar.{tcp_active}
use lite_nvr.Gb.Sdp.{StreamType, play_back, build_play_offer, session_name}
use lite_nvr.Gb.Sdp.Reader.{parse_offer, is_white, starts_white}
use lite_nvr.Gb.Sdp.Lines.{IsWord, IsDark}
use lite_nvr.Gb.Sdp.Offer.{parse-build_play_offer, window}

abbrev platform : List ℕ
platform = codes "34020000002000000001"

abbrev ip : List ℕ
ip = codes "10.0.0.1"

abbrev ssrc : List ℕ
ssrc = codes "1200000002"

no_white : List ℕ → Bool
no_white [] = true
no_white (b ∷ w) = not (is_white b) && no_white w

no_white-All : (w : List ℕ) → no_white w ≡ true → All IsDark w
unfolding no_white
no_white-All [] h = tt
no_white-All (b ∷ w) h =
    let (one, rest) = both (is_white b) (no_white w) h in (one, no_white-All w rest)
  where
    both : (x y : Bool) → (not x && y) ≡ true → (x ≡ false) × (y ≡ true)
    both true y h = cc
    both false y h = (refl, h)

platform-IsWord : IsWord platform
unfolding starts_white no_white
platform-IsWord = record { dark = no_white-All platform refl; not_empty = refl }

ip-IsWord : IsWord ip
unfolding starts_white no_white
ip-IsWord = record { dark = no_white-All ip refl; not_empty = refl }

ssrc-IsWord : IsWord ssrc
unfolding starts_white no_white
ssrc-IsWord = record { dark = no_white-All ssrc refl; not_empty = refl }

abbrev an_hour : StreamType
an_hour = play_back (pos 1_704_067_200) (pos 1_704_070_800)

abbrev as_text : List ℕ → Option (List ℕ)
as_text t = some t

an_hour-fits : (pos_part (window an_hour).0 < 2 ^ 64) × (pos_part (window an_hour).1 < 2 ^ 64)
unfolding window
an_hour-fits = omega arith

parse-build_play_offer_example :
    parse_offer as_text (build_play_offer platform ip 40_000 ssrc tcp_active an_hour)
    ≡ ok (record {
      session = session_name an_hour;
      media_addr = ip ++ (b':' ∷ show 40_000);
      ssrc = some ssrc;
      transport = tcp_active;
      start = pos_part (window an_hour).0;
      stop = pos_part (window an_hour).1;
    })
parse-build_play_offer_example =
    parse-build_play_offer as_text platform ip ssrc 40_000 tcp_active an_hour
      (ip ++ (b':' ∷ show 40_000)) platform-IsWord ip-IsWord ssrc-IsWord (omega arith)
      an_hour-fits.0 an_hour-fits.1 refl
