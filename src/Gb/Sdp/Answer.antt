-- ===== src/Gb/Sdp/Answer.antt =====
-- sdp.rs: who reads an answer gets what was put into it.
use lite_nvr.Gb.Sdp.Trims.{answer-IsTrim}
use lite_nvr.Common.{
  ℕ, false, Option, some, List, [], ◌∷◌, ◌++◌, map, ◌≡◌, ◌≤◌, All, refl, ap, ◌∙◌, ok, nat_eq,
}
use lite_nvr.Common.Digits.{show}
use lite_nvr.Common.Text.{codes}
use lite_nvr.Gb.Registrar.{Transport}
use lite_nvr.Gb.Sdp.{proto_of, answer_lines, build_answer}
use lite_nvr.Gb.Sdp.Reader.{
  or_bad, lines, Seen, nothing_seen, answer_all, answer_line, strip_prefix, nth_number,
  parse_answer, answer_of, address_of,
}
use lite_nvr.Gb.Sdp.Lines.{
  IsWord, IsTrim, with_cr, lines-pushed, trim-with_cr, trim-word, words-append, show-IsWord,
  parse-show,
}

read_answer : List (List ℕ) → Seen → Seen
read_answer [] s = s
read_answer (l ∷ ls) s = read_answer ls (answer_line (strip_prefix (codes "c=IN IP4 ") l) l s)

answer_all-with_cr :
    (ls : List (List ℕ)) (s : Seen)
    → All IsTrim ls
    → answer_all (map with_cr ls) s ≡ read_answer ls s
unfolding answer_all read_answer
answer_all-with_cr [] s h = refl
answer_all-with_cr (l ∷ ls) s h =
    ap
      (λ (x : List ℕ).
        answer_all (map with_cr ls) (answer_line (strip_prefix (codes "c=IN IP4 ") x) x s))
      (trim-with_cr l h.0)
    ∙ answer_all-with_cr ls (answer_line (strip_prefix (codes "c=IN IP4 ") l) l s) h.1

module _ (local_id ip ssrc : List ℕ) (port : ℕ) (id_word : IsWord local_id) (ip_word : IsWord ip)
    (ssrc_word : IsWord ssrc) where
  answer_seen : Seen
  answer_seen = record nothing_seen { ip = some ip; port = some port; ssrc = some ssrc }

  answer_read :
      (t : Transport) (session : List ℕ) (start stop : ℕ)
      → port ≤ 65_535
      → read_answer (answer_lines local_id ip port ssrc t session (start, stop)) nothing_seen
        ≡ answer_seen
  unfolding answer_lines read_answer answer_line nothing_seen answer_seen nth_number
  answer_read t session start stop h =
      (λ i. record {
        session = [];
        ip = some (trim-word ip ip_word i);
        port =
            nth_number 65_535 0
              (words-append (show port) (proto_of t ++ codes " 96") (show-IsWord port) i);
        ssrc = some (trim-word ssrc ssrc_word i);
        tcp = false;
        setup_active = false;
        start = 0;
        stop = 0;
      })
      ∙ ap (λ (n : Option ℕ). record answer_seen { port = n }) (parse-show 65_535 port h)

-- Who reads an answer gets the address that the text of the IP and the port stand for, and the SSRC,
-- whatever session and window it echoes. The texts are words, and the port has 16 bits.
pub parse-build_answer :
    {Addr : Type 0} (parse_addr : List ℕ → Option Addr) (local_id ip ssrc session : List ℕ)
    (port start stop : ℕ) (t : Transport) (a : Addr)
    → IsWord local_id
    → IsWord ip
    → IsWord ssrc
    → IsWord session
    → port ≤ 65_535
    → parse_addr (ip ++ (b':' ∷ show port)) ≡ some a
    → parse_answer parse_addr (build_answer local_id ip port ssrc t session (start, stop))
      ≡ ok (record { media_addr = a; ssrc = some ssrc })
unfolding parse_answer build_answer answer_seen
parse-build_answer {Addr} parse_addr local_id ip ssrc session port start stop t a hi hp hs hn small
      known =
    ap (λ (s : Seen). answer_of parse_addr s (address_of parse_addr s.ip s.port)) seen
    ∙ ap
        (λ (o : Option Addr).
          answer_of parse_addr (answer_seen local_id ip ssrc port hi hp hs) (or_bad parse_addr o))
        known
  where
    seen :
        answer_all (lines (build_answer local_id ip port ssrc t session (start, stop))) nothing_seen
        ≡ answer_seen local_id ip ssrc port hi hp hs
    seen =
        ap (λ (ls : List (List ℕ)). answer_all ls nothing_seen)
          (lines-pushed (answer_lines local_id ip port ssrc t session (start, stop))
            (answer-IsTrim local_id ip ssrc port hi hp hs t session start stop hn))
        ∙ answer_all-with_cr (answer_lines local_id ip port ssrc t session (start, stop))
            nothing_seen (answer-IsTrim local_id ip ssrc port hi hp hs t session start stop hn)
        ∙ answer_read local_id ip ssrc port hi hp hs t session start stop small
