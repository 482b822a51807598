-- ===== src/Cs2/Channel/Arrival.antt =====
-- One call of `DataChannel::push_seq`: what it delivers, keeps and refuses.
use lite_nvr.Common.{
  ==_refl, subst, ℕ, suc, ◌+◌, ◌%◌, ◌^◌, ◌<◌, ◌≡◌, ◌≢◌, refl, sym, ap, ◌∙◌, ◌⊎◌, inl, inr, none,
  some, List, [], append-nil, arith, ◌==◌, nat_eq, length, All, Bool-cases, Option-cases,
}
use lite_nvr.Common.Dict.{lookup, insert, contains_key, lookup-insert, remove_absent}
use lite_nvr.Common.Bytes.{IsByte}
use lite_nvr.Common.Int.{pos, negsuc, pos_part}
use lite_nvr.Cs2.Channel.{
  take_aged, Lane, Age, ahead, due, behind, age, Answer, answered, died, unfinished, keep, flush,
  push_seq,
}
use lite_nvr.Cs2.Channel.Stream.{Refusal, stream, joined, pending}
use lite_nvr.Cs2.Channel.Order.{half_range, AgeLaw, age_lem, run, Window, Flushed, FlushLaw}
use lite_nvr.Cs2.Channel.Flush.{flush_lem}

module _ (frame : ℕ → List ℕ) (frame_bytes : (i : ℕ) → All IsByte (frame i)) where
  -- A frame with an answer that is not -1 is delivered, or waits in the buffer.
  abbrev pub Held : ℕ → ℕ → Lane → Type 0
  Held w i l = (i < w) ⊎ (lookup (i % 2 ^ 16) l.channel.push_buf ≡ some (frame i))

  abbrev pub SeqLaw : ℕ → ℕ → Lane → Answer → Type 0
  SeqLaw w i l (answered c l') =
      Flushed frame w (pos_part c) l l'
      × (((c ≡ negsuc 0) × (l' ≡ l)) ⊎ ((c ≡ pos (pos_part c)) × Held (w + pos_part c) i l'))
  SeqLaw w i l (died e l') = (i ≡ w) × Refusal e l'.tx
  SeqLaw w i l unfinished = ⊥

  unmoved : (w : ℕ) (l : Lane) → Window frame w l.channel → Flushed frame w 0 l l
  unfolding run joined stream
  unmoved w l v = record {
    window = subst (λ (x : ℕ). Window frame x l.channel) (omega arith) v;
    items = [];
    queue = sym (append-nil l.tx.queue);
    bytes = append-nil (pending l.channel);
  }

  stored : ℕ → Lane → Lane
  stored i l = record l {
    channel = record (l.channel) { push_buf = insert (i % 2 ^ 16) (frame i) l.channel.push_buf };
  }

  stored-Flushed :
      (w i : ℕ) (l : Lane)
      → Window frame w l.channel
      → w < i
      → i < w + half_range
      → lookup (i % 2 ^ 16) l.channel.push_buf ≡ none
      → length l.channel.push_buf ≢ l.channel.push_size
      → Flushed frame w 0 l (stored i l)
  unfolding stored run joined stream insert
  stored-Flushed w i l v p q absent space = record {
    window =
        subst (λ (x : ℕ). Window frame x (stored i l).channel) (omega arith)
          (record {
            seq = v.seq;
            kept = λ s b e. new_kept s b e;
            room =
                rw (remove_absent (i % 2 ^ 16) l.channel.push_buf absent)
                  (omega (arith, v.room, space));
            sane = record { size = v.sane.size; bytes = v.sane.bytes };
          });
    items = [];
    queue = sym (append-nil l.tx.queue);
    bytes = append-nil (pending l.channel);
  }
    where
      new_kept :
          (s : ℕ) (b : List ℕ)
          → lookup s (insert (i % 2 ^ 16) (frame i) l.channel.push_buf) ≡ some b
          → (j : ℕ) × (w < j) × (j < w + half_range) × (j % 2 ^ 16 ≡ s) × (b ≡ frame j)
      new_kept s b e = elim (Bool-cases (i % 2 ^ 16 == s)) [
        | inl hit ↦ (
          i,
          p,
          q,
          ground arith,
          ground (arith, lookup-insert s (i % 2 ^ 16) (frame i) l.channel.push_buf),
        )
        | inr miss ↦
            v.kept s b (ground (arith, lookup-insert s (i % 2 ^ 16) (frame i) l.channel.push_buf))
      ]

  -- An entry under the number of a frame in the window is that frame.
  entry_is :
      (w i : ℕ) (l : Lane) (b : List ℕ)
      → Window frame w l.channel
      → w < i
      → i < w + half_range
      → lookup (i % 2 ^ 16) l.channel.push_buf ≡ some b
      → b ≡ frame i
  entry_is w i l b v p q e = go (v.kept (i % 2 ^ 16) b e)
    where
      go :
          ((j : ℕ) × (w < j) × (j < w + half_range) × (j % 2 ^ 16 ≡ i % 2 ^ 16) × (b ≡ frame j))
          → b ≡ frame i
      go (j, x, y, z, h) = h ∙ ap frame (omega arith)

  keep_lem :
      (w i : ℕ) (l : Lane)
      → Window frame w l.channel
      → w < i
      → i < w + half_range
      → SeqLaw w i l (keep (i % 2 ^ 16) (frame i) l)
  unfolding keep contains_key stored
  keep_lem w i l v p q = elim (Bool-cases (l.channel.push_size == 0)) [
    | inl none_kept ↦ rw (none_kept, keep) (unmoved w l v, inl (refl, refl))
    | inr some_kept ↦ elim (Option-cases (lookup (i % 2 ^ 16) l.channel.push_buf)) [
      | inr (b, e) ↦
          rw (some_kept, e, keep, contains_key)
            (unmoved w l v, inr (refl, inr (e ∙ ap some (entry_is w i l b v p q e))))
      | inl e ↦ elim (Bool-cases (length l.channel.push_buf == l.channel.push_size)) [
        | inl no_room ↦
            rw (some_kept, e, no_room, keep, contains_key) (unmoved w l v, inl (refl, refl))
        | inr free ↦
            rw (some_kept, e, free, keep, contains_key)
              (
                stored-Flushed w i l v p q e (ground arith),
                inr (
                  refl,
                  inr (
                      lookup-insert (i % 2 ^ 16) (i % 2 ^ 16) (frame i) l.channel.push_buf
                      ∙ rw (==_refl (i % 2 ^ 16)) refl),
                ),
              )
      ]
    ]
  ]

  -- One arrival of the frame numbered `i`, less than 2^15 away from the awaited number `w`.
  pub push_seq_lem :
      (w i : ℕ) (l : Lane)
      → Window frame w l.channel
      → w < i + half_range
      → i < w + half_range
      → SeqLaw w i l (push_seq (i % 2 ^ 16) (frame i) l)
  unfolding push_seq take_aged
  push_seq_lem w i l v p q =
      go (age (i % 2 ^ 16) l.channel.wait_seq) (age_lem i w l.channel.wait_seq v.seq p q)
    where
      flushed : (a : Answer) → FlushLaw frame w 1 l a → SeqLaw w w l a
      flushed (answered c l') (n, e, g) =
          rw e (
            subst (λ (k : ℕ). Flushed frame w k l l') (omega arith) g,
            inr (refl, inl (omega arith)),
          )
      flushed (died e l') r = (refl, r)
      flushed unfinished r = r

      go : (a : Age) → AgeLaw i w a → SeqLaw w i l (take_aged a (i % 2 ^ 16) (frame i) l)
      go ahead h = keep_lem w i l v h q
      go due h = rw h (
          flushed (flush (suc (length l.channel.push_buf)) (frame w) 1 l)
            (flush_lem frame frame_bytes (suc (length l.channel.push_buf)) w 1 l v (omega arith)))
      go behind h = (unmoved w l v, inr (refl, inl (omega arith)))
