-- ===== src/Cs2/Worker/Frames.antt =====
-- What the worker does with the frames that it reads.
use lite_nvr.Common.{
  Bool, ◌↔◌, if◌then◌else◌, subst, ◌/◌, ℕ, ◌+◌, ◌%◌, ◌^◌, ◌<◌, ◌≡◌, refl, sym, ap, ◌∙◌, ◌⊎◌, inl,
  inr, true, false, some, List, [], ◌∷◌, ◌++◌, arith, leb, nat_eq, length, All, Bool-cases,
}
use lite_nvr.Common.Bytes.{be32, from_be16, from_le32}
use lite_nvr.Common.Int.{pos, negsuc}
use lite_nvr.Cs2.Wire.{msg_drw, marshal_cmd, ack_frame}
use lite_nvr.Cs2.Channel.{pushed, Pushed, broken, stuck, push, Answer, answered, push_seq}
use lite_nvr.Cs2.Channel.Whole.{delivered, push_whole}
use lite_nvr.Cs2.Channel.Order.{Window, half_range}
use lite_nvr.Cs2.Channel.Arrival.{Held, SeqLaw, push_seq_lem}
use lite_nvr.Cs2.Channel.{died, unfinished}
use lite_nvr.Common.Bytes.{IsByte}
use lite_nvr.Cs2.Worker.{
  hangs, at_ch0, Worker, Handled, goes_on, returns, panics, handle, drw, read_command, pinged,
  Place, at_ch2, nowhere, place, slice_from, tcp_drw, after_push, udp_drw, after_push_seq,
}

is_panic : Handled → Bool
is_panic panics = true
is_panic (goes_on out w) = false
is_panic (returns e out) = false
is_panic hangs = false

module _ (out : List (List ℕ)) (w : Worker) where
  push_calm : (p : Place) (a : Pushed) → is_panic (after_push p out w a) ≡ false
  unfolding after_push is_panic
  push_calm p (pushed l) = refl
  push_calm p (broken e l) = refl
  push_calm p stuck = refl

  push_seq_calm :
      (p : Place) (ack : List ℕ) (a : Answer) → is_panic (after_push_seq p ack w a) ≡ false
  unfolding after_push_seq is_panic
  push_seq_calm p ack (answered (pos n) l) = refl
  push_seq_calm p ack (answered (negsuc n) l) = refl
  push_seq_calm p ack (died e l) = refl
  push_seq_calm p ack unfinished = refl

tcp_calm : (now ch : ℕ) (b : List ℕ) (w : Worker) → is_panic (tcp_drw now ch b w) ≡ false
unfolding tcp_drw is_panic
tcp_calm now ch b w =
    let out = (pinged now w).0 in
    let w' = (pinged now w).1 in
    elim (place ch)
      as (λ p.
        is_panic (elim p [
          | nowhere ↦ goes_on out w'
          | at_ch0 ↦ after_push at_ch0 out w' (push b w'.ch0)
          | at_ch2 ↦ after_push at_ch2 out w' (push b w'.ch2)
        ])
        ≡ false) [
          | nowhere ↦ refl
          | at_ch0 ↦ push_calm out w' at_ch0 (push b w'.ch0)
          | at_ch2 ↦ push_calm out w' at_ch2 (push b w'.ch2)
        ]

udp_calm : (ch hi lo : ℕ) (b : List ℕ) (w : Worker) → is_panic (udp_drw ch hi lo b w) ≡ false
unfolding udp_drw is_panic
udp_calm ch hi lo b w =
    let ack = ack_frame ch hi lo in
    let seq = from_be16 hi lo in
    elim (place ch)
      as (λ p.
        is_panic (elim p [
          | nowhere ↦ goes_on [] w
          | at_ch0 ↦ after_push_seq at_ch0 ack w (push_seq seq b w.ch0)
          | at_ch2 ↦ after_push_seq at_ch2 ack w (push_seq seq b w.ch2)
        ])
        ≡ false) [
          | nowhere ↦ refl
          | at_ch0 ↦ push_seq_calm [] w at_ch0 ack (push_seq seq b w.ch0)
          | at_ch2 ↦ push_seq_calm [] w at_ch2 ack (push_seq seq b w.ch2)
        ]

both_panic : (b : Bool) → (if b then panics else panics) ≡ panics
both_panic true = refl
both_panic false = refl

-- A data frame panics the worker, on either transport, exactly when it has fewer than eight bytes:
-- the length is tested against two only, and nothing else in its handling panics.
pub short_drw_panics :
    (now msg0 : ℕ) (r : List ℕ) (w : Worker)
    → (handle now (msg0 ∷ msg_drw ∷ r) w ≡ panics) ↔ (length r < 6)
unfolding handle drw slice_from is_panic
short_drw_panics now m [] w = (λ h. omega arith, λ h. refl)
short_drw_panics now m (a ∷ []) w = (λ h. omega arith, λ h. refl)
short_drw_panics now m (a ∷ b ∷ []) w = (λ h. omega arith, λ h. refl)
short_drw_panics now m (a ∷ b ∷ c ∷ []) w = (λ h. omega arith, λ h. refl)
short_drw_panics now m (a ∷ b ∷ c ∷ d ∷ []) w = (λ h. omega arith, λ h. both_panic w.is_tcp)
short_drw_panics now m (a ∷ b ∷ c ∷ d ∷ e ∷ []) w = (λ h. omega arith, λ h. both_panic w.is_tcp)
short_drw_panics now m (a ∷ b ∷ c ∷ ch ∷ hi ∷ lo ∷ r) w =
    (λ h. absurd (no (sym (calm w.is_tcp) ∙ ap is_panic h)), λ h. absurd (omega (arith, h)))
  where
    no : false ≡ true → ⊥
    no h = cc

    calm : (t : Bool) → is_panic (if t then tcp_drw now ch r w else udp_drw ch hi lo r w) ≡ false
    calm true = tcp_calm now ch r w
    calm false = udp_calm ch hi lo r w

handle_tcp :
    (now seq cmd : ℕ) (payload : List ℕ) (w : Worker)
    → w.is_tcp ≡ true
    → handle now (marshal_cmd 0 seq cmd payload) w
      ≡ tcp_drw now 0 (be32 ((4 + length payload) % 2 ^ 32) ++ (be32 cmd ++ payload)) w
unfolding handle drw slice_from marshal_cmd
handle_tcp now seq cmd payload w t = simp t

handle_udp :
    (now h0 h2 h3 h4 hi lo : ℕ) (b : List ℕ) (w : Worker)
    → w.is_tcp ≡ false
    → handle now (h0 ∷ msg_drw ∷ h2 ∷ h3 ∷ h4 ∷ 0 ∷ hi ∷ lo ∷ b) w
      ≡ after_push_seq at_ch0 (ack_frame 0 hi lo) w (push_seq (from_be16 hi lo) b w.ch0)
unfolding handle drw slice_from udp_drw
handle_udp now h0 h2 h3 h4 hi lo b w t = simp t

tcp_whole :
    (now : ℕ) (r : List ℕ) (w : Worker)
    → push (be32 (length r) ++ r) w.ch0 ≡ pushed (delivered r w.ch0)
    → tcp_drw now 0 (be32 (length r) ++ r) w
      ≡ goes_on (pinged now w).0 (record ((pinged now w).1) { ch0 = delivered r w.ch0 })
unfolding tcp_drw pinged
tcp_whole now r w e = elim (Bool-cases (leb w.keepalive now)) [
  | inl b ↦ rw (b, pinged) (rw (e, after_push) refl)
  | inr b ↦ rw (b, pinged) (rw (e, after_push) refl)
]

-- On TCP a command that the peer writes on channel 0 goes through the worker in one piece, when
-- nothing is pending there and the open queue has room: the queue gets one record, of which
-- `read_command` makes the payload and the command number with its four bytes reversed, since the
-- number is written in big-endian order and read in little-endian order.
pub read_command-handle :
    (now seq cmd : ℕ) (payload : List ℕ) (w : Worker)
    → w.is_tcp ≡ true
    → length payload + 4 < 2 ^ 32
    → w.ch0.channel.wait_size ≡ 0
    → w.ch0.channel.wait_data ≡ []
    → w.ch0.tx.is_closed ≡ false
    → length w.ch0.tx.queue < w.ch0.tx.bound
    → (out : List (List ℕ)) × (v : Worker) × (handle now (marshal_cmd 0 seq cmd payload) w
        ≡ goes_on out v)
      × (v.ch0.tx.queue ≡ w.ch0.tx.queue ++ ((be32 cmd ++ payload) ∷ []))
      × (v.ch2 ≡ w.ch2)
      × (read_command (be32 cmd ++ payload)
          ≡ some (
            from_le32 (cmd / 2 ^ 24 % 256) (cmd / 2 ^ 16 % 256) (cmd / 2 ^ 8 % 256) (cmd % 256),
            payload,
          ))
unfolding pinged read_command
read_command-handle now seq cmd payload w t p z e o b = (
  (pinged now w).0,
  record ((pinged now w).1) { ch0 = delivered (be32 cmd ++ payload) w.ch0 },
  handle_tcp now seq cmd payload w t
      ∙ ap (λ (n : ℕ). tcp_drw now 0 (be32 n ++ (be32 cmd ++ payload)) w) size
      ∙ (tcp_whole now (be32 cmd ++ payload) w
          (push_whole (be32 cmd ++ payload) w.ch0 (omega arith) (omega arith) z o b e)),
  refl,
  ground arith,
  refl,
)
  where
    size : (4 + length payload) % 2 ^ 32 ≡ length (be32 cmd ++ payload)
    size = omega arith

module _ (frame : ℕ → List ℕ) (frame_bytes : (i : ℕ) → All IsByte (frame i)) where
  -- What a data frame on channel 0 may come to, when `n` is the awaited number.
  abbrev pub UdpLaw : ℕ → ℕ → ℕ → ℕ → Worker → Handled → Type 0
  UdpLaw hi lo n i w (goes_on out v) =
      ((out ≡ []) × (v.ch0 ≡ w.ch0))
      ⊎ ((out ≡ ack_frame 0 hi lo ∷ [])
          × ((m : ℕ) × Window frame (n + m) v.ch0.channel × Held frame frame_bytes (n + m) i v.ch0))
  UdpLaw hi lo n i w (returns e out) = i ≡ n
  UdpLaw hi lo n i w panics = ⊥
  UdpLaw hi lo n i w hangs = ⊥

  after_answer :
      (hi lo n i : ℕ) (w : Worker) (a : Answer)
      → SeqLaw frame frame_bytes n i w.ch0 a
      → UdpLaw hi lo n i w (after_push_seq at_ch0 (ack_frame 0 hi lo) w a)
  unfolding after_push_seq
  after_answer hi lo n i w (answered (pos k) l) (g, inl (e, h)) = cc
  after_answer hi lo n i w (answered (pos k) l) (g, inr (e, h)) = inr (refl, (k, g.window, h))
  after_answer hi lo n i w (answered (negsuc k) l) (g, inl (e, h)) = inl (refl, h)
  after_answer hi lo n i w (answered (negsuc k) l) (g, inr (e, h)) = cc
  after_answer hi lo n i w (died x l) (z, r) = z
  after_answer hi lo n i w unfinished h = h

  -- On UDP, for a data frame of channel 0 that is the sender's i-th when the n-th is awaited, i and n
  -- less than 2^15 apart: the worker acknowledges it, under the frame's own sequence bytes, only when the frame has been pushed or waits in the buffer; a frame that it does not acknowledge
  -- leaves the channel as it was. It returns with an error only on the awaited frame, and never
  -- panics or hangs on such a frame.
  pub acked_frame_held :
      (now h0 h2 h3 h4 hi lo n i : ℕ) (w : Worker)
      → w.is_tcp ≡ false
      → from_be16 hi lo ≡ i % 2 ^ 16
      → Window frame n w.ch0.channel
      → n < i + half_range
      → i < n + half_range
      → UdpLaw hi lo n i w (handle now (h0 ∷ msg_drw ∷ h2 ∷ h3 ∷ h4 ∷ 0 ∷ hi ∷ lo ∷ frame i) w)
  acked_frame_held now h0 h2 h3 h4 hi lo n i w t s v p q =
      subst (UdpLaw hi lo n i w) (sym (handle_udp now h0 h2 h3 h4 hi lo (frame i) w t)) (
        subst
          (λ (x : ℕ).
            UdpLaw hi lo n i w
              (after_push_seq at_ch0 (ack_frame 0 hi lo) w (push_seq x (frame i) w.ch0)))
          (sym s)
          (after_answer hi lo n i w (push_seq (i % 2 ^ 16) (frame i) w.ch0)
            (push_seq_lem frame frame_bytes n i w.ch0 v p q)))
