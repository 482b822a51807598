-- ===== src/Gb/Sdp/Trims.antt =====
-- sdp.rs: the lines of an offer and of an answer are lines that trimming leaves alone.
use lite_nvr.Common.{
  ◌&&◌, not, ℕ, Bool, true, false, List, [], ◌∷◌, ◌++◌, ◌≡◌, reverse, All, All-append, refl, ap,
  ◌∙◌, ◌==◌, nat_eq,
}
use lite_nvr.Common.Digits.{show}
use lite_nvr.Common.Text.{codes}
use lite_nvr.Gb.Registrar.{Transport, udp, tcp_active, tcp_passive}
use mathlib.Core.List.{reverse-append}
use lite_nvr.Gb.Sdp.{
  StreamType, play_live, play_back, download, session_name, proto_of, time_line, setup_lines,
  offer_lines, answer_lines, show_ℤ,
}
use lite_nvr.Gb.Sdp.Reader.{starts_white}
use lite_nvr.Gb.Sdp.Lines.{
  front-append, IsWord, IsTrim, word_last, word_unbroken, show-IsWord, show_ℤ-IsWord,
}

unbroken : List ℕ → Bool
unbroken [] = true
unbroken (b ∷ l) = not (b == 10) && unbroken l

unbroken-All : (l : List ℕ) → unbroken l ≡ true → All (λ b. (b == 10) ≡ false) l
unfolding unbroken
unbroken-All [] h = tt
unbroken-All (b ∷ l) h =
    let (one, rest) = both (b == 10) (unbroken l) h in (one, unbroken-All l rest)
  where
    both : (x y : Bool) → (not x && y) ≡ true → (x ≡ false) × (y ≡ true)
    both true y h = cc
    both false y h = (refl, h)

-- A text is known to be a line by evaluation.
literal :
    (l : List ℕ)
    → starts_white l ≡ false
    → starts_white (reverse l) ≡ false
    → unbroken l ≡ true
    → IsTrim l
literal l f b u = record { front = f; back = b; unbroken = unbroken-All l u }

back-append :
    (l t : List ℕ) → starts_white (reverse t) ≡ false → starts_white (reverse (l ++ t)) ≡ false
back-append l t h = ap starts_white (reverse-append l t) ∙ front-append (reverse t) (reverse l) h

-- A text, a word, and a text that does not end with white space.
one_word :
    (l w t : List ℕ)
    → starts_white l ≡ false
    → unbroken l ≡ true
    → IsWord w
    → starts_white (reverse t) ≡ false
    → All (λ b. (b == 10) ≡ false) t
    → IsTrim (l ++ (w ++ t))
one_word l w t f u h back tu = record {
  front = front-append l (w ++ t) f;
  back = back-append l (w ++ t) (back-append w t back);
  unbroken =
      All-append (λ b. (b == 10) ≡ false) l (w ++ t) (unbroken-All l u)
        (All-append (λ b. (b == 10) ≡ false) w t (word_unbroken w h.dark) tu);
}

-- A text, a word, another text and another word.
two_words :
    (l w m v : List ℕ)
    → starts_white l ≡ false
    → unbroken l ≡ true
    → IsWord w
    → unbroken m ≡ true
    → IsWord v
    → IsTrim (l ++ (w ++ (m ++ v)))
two_words l w m v f u h um k =
    one_word l w (m ++ v) f u h (word_last m v k)
      (All-append (λ b. (b == 10) ≡ false) m v (unbroken-All m um) (word_unbroken v k.dark))

word_line : (l w : List ℕ) → starts_white l ≡ false → unbroken l ≡ true → IsWord w → IsTrim (l ++ w)
word_line l w f u h = record {
  front = front-append l w f;
  back = word_last l w h;
  unbroken = All-append (λ b. (b == 10) ≡ false) l w (unbroken-All l u) (word_unbroken w h.dark);
}

module _ (local_id ip ssrc : List ℕ) (port : ℕ) (id_word : IsWord local_id) (ip_word : IsWord ip)
    (ssrc_word : IsWord ssrc) where
  pub origin-IsTrim : IsTrim (codes "o=" ++ (local_id ++ (codes " 0 0 IN IP4 " ++ ip)))
  unfolding starts_white unbroken
  origin-IsTrim =
      two_words (codes "o=") local_id (codes " 0 0 IN IP4 ") ip refl refl id_word refl ip_word

  pub setup-IsTrim : (t : Transport) → All IsTrim (setup_lines t ++ ((codes "y=" ++ ssrc) ∷ []))
  unfolding setup_lines starts_white unbroken
  setup-IsTrim udp = (word_line (codes "y=") ssrc refl refl ssrc_word, tt)
  setup-IsTrim tcp_passive = (
    literal (codes "a=setup:passive") refl refl refl,
    (
      literal (codes "a=connection:new") refl refl refl,
      (word_line (codes "y=") ssrc refl refl ssrc_word, tt),
    ),
  )
  setup-IsTrim tcp_active = (
    literal (codes "a=setup:active") refl refl refl,
    (
      literal (codes "a=connection:new") refl refl refl,
      (word_line (codes "y=") ssrc refl refl ssrc_word, tt),
    ),
  )

  pub time-IsTrim : (k : StreamType) → IsTrim (time_line k)
  unfolding time_line starts_white unbroken
  time-IsTrim play_live = literal (codes "t=0 0") refl refl refl
  time-IsTrim (play_back start end) =
      two_words (codes "t=") (show_ℤ start) (b' ' ∷ []) (show_ℤ end) refl refl (show_ℤ-IsWord start)
        refl (show_ℤ-IsWord end)
  time-IsTrim download = literal (codes "t=0 0") refl refl refl

  pub session-IsTrim : (k : StreamType) → IsTrim (codes "s=" ++ session_name k)
  unfolding session_name starts_white unbroken
  session-IsTrim play_live = literal (codes "s=Play") refl refl refl
  session-IsTrim (play_back start end) = literal (codes "s=Playback") refl refl refl
  session-IsTrim download = literal (codes "s=Download") refl refl refl

  pub media-IsTrim :
      (t : Transport)
      → IsTrim (codes "m=video " ++ (show port ++ (b' ' ∷ (proto_of t ++ codes " 96 98"))))
  unfolding proto_of starts_white unbroken
  media-IsTrim udp =
      one_word (codes "m=video ") (show port) (codes " RTP/AVP 96 98") refl refl (show-IsWord port)
        refl (unbroken-All (codes " RTP/AVP 96 98") refl)
  media-IsTrim tcp_passive =
      one_word (codes "m=video ") (show port) (codes " TCP/RTP/AVP 96 98") refl refl
        (show-IsWord port) refl (unbroken-All (codes " TCP/RTP/AVP 96 98") refl)
  media-IsTrim tcp_active =
      one_word (codes "m=video ") (show port) (codes " TCP/RTP/AVP 96 98") refl refl
        (show-IsWord port) refl (unbroken-All (codes " TCP/RTP/AVP 96 98") refl)

  pub offer-IsTrim :
      (t : Transport) (k : StreamType) → All IsTrim (offer_lines local_id ip port ssrc t k)
  unfolding offer_lines starts_white unbroken
  offer-IsTrim t k = (
    literal (codes "v=0") refl refl refl,
    (
      origin-IsTrim,
      (
        session-IsTrim k,
        (
          word_line (codes "c=IN IP4 ") ip refl refl ip_word,
          (
            time-IsTrim k,
            (
              media-IsTrim t,
              (
                literal (codes "a=recvonly") refl refl refl,
                (
                  literal (codes "a=rtpmap:96 PS/90000") refl refl refl,
                  (literal (codes "a=rtpmap:98 H264/90000") refl refl refl, setup-IsTrim t),
                ),
              ),
            ),
          ),
        ),
      ),
    ),
  )

  pub media96-IsTrim :
      (t : Transport)
      → IsTrim (codes "m=video " ++ (show port ++ (b' ' ∷ (proto_of t ++ codes " 96"))))
  unfolding proto_of starts_white unbroken
  media96-IsTrim udp =
      one_word (codes "m=video ") (show port) (codes " RTP/AVP 96") refl refl (show-IsWord port)
        refl (unbroken-All (codes " RTP/AVP 96") refl)
  media96-IsTrim tcp_passive =
      one_word (codes "m=video ") (show port) (codes " TCP/RTP/AVP 96") refl refl (show-IsWord port)
        refl (unbroken-All (codes " TCP/RTP/AVP 96") refl)
  media96-IsTrim tcp_active =
      one_word (codes "m=video ") (show port) (codes " TCP/RTP/AVP 96") refl refl (show-IsWord port)
        refl (unbroken-All (codes " TCP/RTP/AVP 96") refl)

  pub answer-IsTrim :
      (t : Transport) (session : List ℕ) (start stop : ℕ)
      → IsWord session
      → All IsTrim (answer_lines local_id ip port ssrc t session (start, stop))
  unfolding answer_lines starts_white unbroken
  answer-IsTrim t session start stop session_word = (
    literal (codes "v=0") refl refl refl,
    (
      origin-IsTrim,
      (
        word_line (codes "s=") session refl refl session_word,
        (
          word_line (codes "c=IN IP4 ") ip refl refl ip_word,
          (
            two_words (codes "t=") (show start) (b' ' ∷ []) (show stop) refl refl
                (show-IsWord start) refl (show-IsWord stop),
            (
              media96-IsTrim t,
              (
                literal (codes "a=sendonly") refl refl refl,
                (
                  literal (codes "a=rtpmap:96 PS/90000") refl refl refl,
                  (word_line (codes "y=") ssrc refl refl ssrc_word, tt),
                ),
              ),
            ),
          ),
        ),
      ),
    ),
  )
