-- ===== src/Cs2/Channel/InOrder.antt =====
-- `DataChannel::push_seq` over any arrival of frames: what comes out is in the order of the numbers.
use native.Mathlib.Nat.{zero-add, add-zero, suc-add, add-suc}
use lite_nvr.Common.{
  subst, ℕ, zero, suc, ◌+◌, ◌%◌, ◌^◌, ◌<◌, ◌≡◌, refl, sym, ap, ◌∙◌, List, [], ◌∷◌, ◌++◌,
  append_assoc, arith, nat_eq, All,
}
use lite_nvr.Common.Dict.{lookup}
use lite_nvr.Common.Bytes.{IsByte}
use lite_nvr.Common.Int.{ℤ, pos_part}
use lite_nvr.Cs2.Channel.{Sender, Lane, new, answered, push_seq}
use lite_nvr.Cs2.Channel.Stream.{stream-append, stream, joined, pending}
use lite_nvr.Cs2.Channel.Order.{half_range, run, Window, Flushed}
use lite_nvr.Cs2.Channel.Arrival.{SeqLaw, push_seq_lem}

module _ (frame : ℕ → List ℕ) (frame_bytes : (i : ℕ) → All IsByte (frame i)) where
  run_add :
      (w m n : ℕ)
      → joined (run frame w (m + n)) ≡ joined (run frame w m) ++ joined (run frame (w + m) n)
  unfolding run joined
  run_add w zero n = rw (zero-add n, add-zero w)
  run_add w (suc m) n =
      rw (suc-add m n, add-suc w m)
        (ap (λ (b : List ℕ). frame w ++ b) (run_add (suc w) m n ∙ rw (suc-add w m) refl)
          ∙ sym (append_assoc (frame w) _ _))

  extend_history :
      (w n : ℕ) (t : List (List ℕ)) (k l : Lane)
      → joined (run frame 0 w) ≡ stream (t ++ k.tx.queue) ++ pending k.channel
      → Flushed frame w n k l
      → joined (run frame 0 (w + n)) ≡ stream (t ++ l.tx.queue) ++ pending l.channel
  extend_history w n t k l h g =
      run_add 0 w n
      ∙ ap (λ (x : ℕ). joined (run frame 0 w) ++ joined (run frame x n)) (zero-add w)
      ∙ ap (λ (b : List ℕ). b ++ joined (run frame w n)) h
      ∙ append_assoc (stream (t ++ k.tx.queue)) (pending k.channel) (joined (run frame w n))
      ∙ ap (λ (b : List ℕ). stream (t ++ k.tx.queue) ++ b) g.bytes
      ∙ sym (append_assoc (stream (t ++ k.tx.queue)) (stream g.items) (pending l.channel))
      ∙ ap (λ (b : List ℕ). b ++ pending l.channel)
          (sym (stream-append (t ++ k.tx.queue) g.items)
            ∙ ap stream (append_assoc t k.tx.queue g.items)
            ∙ ap (λ (q : List (List ℕ)). stream (t ++ q)) (sym g.queue))

  -- A history of a channel: a new one, frames that arrive in any order and any number of times, each
  -- less than 2^15 away from the awaited one, and records that the receiver takes. The indices are
  -- the number of the awaited frame, the records taken so far and the present state.
  pub data Arrivals (size : ℕ) : ℕ → List (List ℕ) → Lane → Type 0 where
    start :
        (tx : Sender) → tx.queue ≡ [] → Arrivals size 0 [] (record { channel = new size; tx = tx })
    arrive :
        {w : ℕ} {t : List (List ℕ)} {l : Lane} (i : ℕ) (c : ℤ) (v : ℕ) (m : Lane)
        → Arrivals size w t l
        → w < i + half_range
        → i < w + half_range
        → push_seq (i % 2 ^ 16) (frame i) l ≡ answered c m
        → v ≡ w + pos_part c
        → Arrivals size v t m
    take_one :
        {w : ℕ} {t : List (List ℕ)} {l : Lane} (r : List ℕ) (q u : List (List ℕ))
        → Arrivals size w t l
        → l.tx.queue ≡ r ∷ q
        → u ≡ t ++ (r ∷ [])
        → Arrivals size w u (record l { tx = record (l.tx) { queue = q } })

  -- After any history the records that came out, those in the queue and the bytes still pending are
  -- the bytes of the frames before the awaited one, each once and in the order of their numbers; the
  -- buffer holds frames ahead of it only, and no more than its size.
  pub Arrivals-in_order :
      (size w : ℕ) (t : List (List ℕ)) (l : Lane)
      → Arrivals size w t l
      → Window frame w l.channel
        × (joined (run frame 0 w) ≡ stream (t ++ l.tx.queue) ++ pending l.channel)
  unfolding new run joined stream lookup
  Arrivals-in_order size w t l (start tx e) = (
    record {
      seq = refl;
      kept = λ s b h. cc;
      room = omega arith;
      sane = record { size = omega arith; bytes = tt };
    },
    rw e refl,
  )
  Arrivals-in_order size w t l (arrive {w = x} {l = k} i c v m a p q h e) =
      let (v', b) = Arrivals-in_order size x t k a in
      let g : SeqLaw frame frame_bytes x i k (answered c l) =
        rw h at (push_seq_lem frame frame_bytes x i k v' p q) in
      (
        subst (λ (n : ℕ). Window frame n l.channel) (sym e) g.0.window,
        ap (λ (n : ℕ). joined (run frame 0 n)) e ∙ extend_history x (pos_part c) t k l b g.0,
      )
  Arrivals-in_order size w t l (take_one {t = s} {l = k} r q u a h e) =
      let (v, b) = Arrivals-in_order size w s k a in
      (
        v,
        b
            ∙ ap (λ (x : List (List ℕ)). stream (s ++ x) ++ pending k.channel) h
            ∙ ap (λ (x : List (List ℕ)). stream x ++ pending k.channel)
                (sym (append_assoc s (r ∷ []) q) ∙ ap (λ (x : List (List ℕ)). x ++ q) (sym e)),
      )
