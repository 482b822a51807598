-- ===== src/Cs2/Channel/Order.antt =====
-- `DataChannel::push_seq`: frames that arrive out of order are pushed in the order of their numbers.
-- The sender numbers its frames 0, 1, 2, …; the wire carries the number modulo 2^16.
use lite_nvr.Common.{
  subst, ℕ, zero, suc, ◌+◌, ◌%◌, ◌^◌, ◌≤◌, ◌<◌, ◌≡◌, ◌≢◌, sym, ap, ◌∙◌, none, some, List, [], ◌∷◌,
  ◌++◌, append-nil, append_assoc, arith, nat_eq, length,
}
use lite_nvr.Common.Dict.{Dict, lookup, remove, lookup-remove, length-remove-le}
use lite_nvr.Common.Int.{pos}
use lite_nvr.Cs2.Channel.{
  DataChannel, Lane, Age, ahead, due, behind, age, Answer, answered, died, unfinished, advanced,
  without,
}
use lite_nvr.Cs2.Channel.Stream.{
  Refusal, stream-append, regroup, stream, joined, pending, IsSane, Delivered,
}

abbrev pub half_range : ℕ
half_range = 2 ^ 15

-- How `push_seq` sorts a frame whose number is less than half the range away from the awaited one.
abbrev pub AgeLaw : ℕ → ℕ → Age → Type 0
AgeLaw i w ahead = w < i
AgeLaw i w due = i ≡ w
AgeLaw i w behind = i < w

pub age_lem :
    (i w s : ℕ)
    → s ≡ w % 2 ^ 16
    → w < i + half_range
    → i < w + half_range
    → AgeLaw i w (age (i % 2 ^ 16) s)
unfolding age
age_lem i w s e p q = ground arith

module _ (frame : ℕ → List ℕ) where
  -- The frames numbered w, …, w + n - 1.
  unfoldable pub run : ℕ → ℕ → List (List ℕ)
  run w zero = []
  run w (suc n) = frame w ∷ run (suc w) n

  -- Whatever is buffered is a frame from the window ahead of `w`, under its number on the wire.
  abbrev pub Kept : ℕ → Dict ℕ (List ℕ) → Type 0
  Kept w m =
      (s : ℕ) (b : List ℕ)
      → lookup s m ≡ some b
      → (i : ℕ) × (w < i) × (i < w + half_range) × (i % 2 ^ 16 ≡ s) × (b ≡ frame i)

  pub record Window (w : ℕ) (c : DataChannel) : Type 0 where
    pub seq : c.wait_seq ≡ w % 2 ^ 16
    pub kept : Kept w c.push_buf
    pub room : length c.push_buf ≤ c.push_size
    pub sane : IsSane c

  -- What `n` pushed frames have done.
  pub record Flushed (w n : ℕ) (l l' : Lane) : Type 0 where
    pub window : Window (w + n) l'.channel
    pub items : List (List ℕ)
    pub queue : l'.tx.queue ≡ l.tx.queue ++ items
    pub bytes : pending l.channel ++ joined (run w n) ≡ stream items ++ pending l'.channel

  Kept-remove :
      (w s : ℕ) (m : Dict ℕ (List ℕ)) → Kept w m → s ≡ suc w % 2 ^ 16 → Kept (suc w) (remove s m)
  Kept-remove w s m k e t b h = go (k t b (ground (arith, lookup-remove t s m)))
    where
      other : s ≢ t
      other = ground (arith, lookup-remove t s m)

      go :
          ((i : ℕ) × (w < i) × (i < w + half_range) × (i % 2 ^ 16 ≡ t) × (b ≡ frame i))
          → (i : ℕ) × (suc w < i) × (i < suc w + half_range) × (i % 2 ^ 16 ≡ t) × (b ≡ frame i)
      go (i, p, q, r, x) = (i, omega (arith, other), omega arith, r, x)

  Kept-suc :
      (w : ℕ) (m : Dict ℕ (List ℕ)) → Kept w m → lookup (suc w % 2 ^ 16) m ≡ none → Kept (suc w) m
  Kept-suc w m k e t b h = go (k t b h)
    where
      other : suc w % 2 ^ 16 ≢ t
      other z = cc

      go :
          ((i : ℕ) × (w < i) × (i < w + half_range) × (i % 2 ^ 16 ≡ t) × (b ≡ frame i))
          → (i : ℕ) × (suc w < i) × (i < suc w + half_range) × (i % 2 ^ 16 ≡ t) × (b ≡ frame i)
      go (i, p, q, r, x) = (i, omega (arith, other), omega arith, r, x)

  -- The frame found under the next number is the next frame.
  pub next_frame :
      (w : ℕ) (m : Dict ℕ (List ℕ)) (b : List ℕ)
      → Kept w m
      → lookup (suc w % 2 ^ 16) m ≡ some b
      → b ≡ frame (suc w)
  next_frame w m b k e = go (k (suc w % 2 ^ 16) b e)
    where
      go :
          ((i : ℕ) × (w < i) × (i < w + half_range) × (i % 2 ^ 16 ≡ suc w % 2 ^ 16) × (b ≡ frame i))
          → b ≡ frame (suc w)
      go (i, p, q, r, x) = x ∙ ap frame (omega arith)

  abbrev pub FlushLaw : ℕ → ℕ → Lane → Answer → Type 0
  FlushLaw w i l (answered c l') = (n : ℕ) × (c ≡ pos (i + n)) × Flushed w (suc n) l l'
  FlushLaw w i l (died e l') = Refusal e l'.tx
  FlushLaw w i l unfinished = ⊥

  -- The last round of the loop.
  pub flush_last :
      (w : ℕ) (l m : Lane)
      → Window w l.channel
      → Delivered (frame w) l m
      → lookup (suc w % 2 ^ 16) l.channel.push_buf ≡ none
      → Flushed w 1 l (advanced m)
  unfolding run joined
  flush_last w l m v d e = record {
    window = rw (plus_one w) (record {
      seq = omega (arith, d.keeps.seq, v.seq);
      kept = rw d.keeps.buf (Kept-suc w l.channel.push_buf v.kept e);
      room = rw (d.keeps.buf, d.keeps.size) v.room;
      sane = record { size = d.sane.size; bytes = d.sane.bytes };
    });
    items = d.items;
    queue = d.queue;
    bytes = rw (append-nil (frame w)) d.bytes;
  }
    where
      plus_one : (k : ℕ) → k + 1 ≡ suc k
      plus_one k = omega arith

  -- The state in which the next buffered frame is pushed.
  pub flush_step :
      (w s : ℕ) (l m : Lane)
      → Window w l.channel
      → Delivered (frame w) l m
      → s ≡ suc w % 2 ^ 16
      → Window (suc w) (without s (advanced m)).channel
  flush_step w s l m v d e = record {
    seq = omega (arith, d.keeps.seq, v.seq);
    kept = rw d.keeps.buf (Kept-remove w s l.channel.push_buf v.kept e);
    room =
        rw (d.keeps.buf, d.keeps.size)
          (omega (arith, v.room, length-remove-le s l.channel.push_buf));
    sane = record { size = d.sane.size; bytes = d.sane.bytes };
  }

  pub flush_join :
      (w n s : ℕ) (l m k : Lane)
      → Delivered (frame w) l m
      → Flushed (suc w) (suc n) (without s (advanced m)) k
      → Flushed w (suc (suc n)) l k
  unfolding run joined
  flush_join w n s l m k d g = record {
    window = subst (λ (x : ℕ). Window x k.channel) (omega arith) g.window;
    items = d.items ++ g.items;
    queue = g.queue ∙ rw d.queue (append_assoc l.tx.queue d.items g.items);
    bytes =
        regroup (pending l.channel) (frame w) (joined (run (suc w) (suc n))) (stream d.items)
          (pending m.channel) (stream g.items) (pending k.channel) d.bytes g.bytes
        ∙ ap (λ (p : List ℕ). p ++ pending k.channel) (sym (stream-append d.items g.items));
  }
