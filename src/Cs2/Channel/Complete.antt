-- ===== src/Cs2/Channel/Complete.antt =====
-- `DataChannel::push` over a stream that arrives in chunks: when every record comes out, and which
-- records come out late.
use lite_nvr.Common.{
  ℕ, ◌+◌, ◌^◌, ◌≤◌, ◌<◌, ◌≡◌, refl, sym, ap, ◌∙◌, inl, false, List, [], ◌∷◌, ◌++◌, append-nil,
  append_assoc, arith, nat_eq, length, All, All-append, length-append,
}
use lite_nvr.Common.Bytes.{IsByte, be32, from_be32-be32}
use lite_nvr.Cs2.Channel.{
  full, disconnected, new, SendError, Sender, Lane, Pushed, pushed, broken, stuck, push_loop,
  push_round, halt, header, read_size, take_record, extended, push, push_all,
}
use lite_nvr.Cs2.Channel.Stream.{
  stream-append, regroup, stream, joined, pending, IsSane, IsResting, Delivered, Failed, PushLaw,
}
use lite_nvr.Cs2.Channel.Push.{push_lem}
use lite_nvr.Cs2.Channel.Decode.{IsLong, stream_unique, stream_longer}

deliver_both :
    (b r : List ℕ) (l m n : Lane) → Delivered b l m → Delivered r m n → Delivered (b ++ r) l n
deliver_both b r l m n d e = record {
  items = d.items ++ e.items;
  queue = e.queue ∙ rw d.queue (append_assoc l.tx.queue d.items e.items);
  bytes =
      regroup (pending l.channel) b r (stream d.items) (pending m.channel) (stream e.items)
        (pending n.channel) d.bytes e.bytes
      ∙ ap (λ (p : List ℕ). p ++ pending n.channel) (sym (stream-append d.items e.items));
  sane = e.sane;
  resting = e.resting;
  short = All-append (λ (x : List ℕ). length x < 2 ^ 32) d.items e.items d.short e.short;
  keeps = record {
    seq = e.keeps.seq ∙ d.keeps.seq;
    buf = e.keeps.buf ∙ d.keeps.buf;
    size = e.keeps.size ∙ d.keeps.size;
    bound = e.keeps.bound ∙ d.keeps.bound;
    closed = e.keeps.closed ∙ d.keeps.closed;
  };
}

fail_both :
    (e : SendError) (b r : List ℕ) (l m n : Lane)
    → Delivered b l m
    → Failed e r m n
    → Failed e (b ++ r) l n
fail_both e b r l m n d f = record {
  items = d.items ++ f.items;
  item = f.item;
  tail = f.tail;
  queue = f.queue ∙ rw d.queue (append_assoc l.tx.queue d.items f.items);
  bytes =
      regroup (pending l.channel) b r (stream d.items) (pending m.channel) (stream f.items) _
        d.bytes f.bytes
      ∙ ap (λ (p : List ℕ). p ++ (be32 (length f.item) ++ (f.item ++ f.tail)))
          (sym (stream-append d.items f.items));
  short =
      (All-append (λ (x : List ℕ). length x < 2 ^ 32) d.items f.items d.short f.short.0, f.short.1);
  refusal = f.refusal;
  bound = f.bound ∙ d.keeps.bound;
  closed = f.closed ∙ d.keeps.closed;
}

fail_before : (e : SendError) (b r : List ℕ) (l n : Lane) → Failed e b l n → Failed e (b ++ r) l n
fail_before e b r l n f = record {
  items = f.items;
  item = f.item;
  tail = f.tail ++ r;
  queue = f.queue;
  bytes =
      regroup (pending l.channel) b r (stream f.items) (be32 (length f.item) ++ (f.item ++ f.tail))
        (be32 (length f.item) ++ (f.item ++ f.tail)) r f.bytes refl
      ∙ append_assoc (stream f.items) (be32 (length f.item) ++ (f.item ++ f.tail)) r
      ∙ ap (λ (p : List ℕ). stream f.items ++ (be32 (length f.item) ++ p))
          (append_assoc f.item f.tail r);
  short = f.short;
  refusal = f.refusal;
  bound = f.bound;
  closed = f.closed;
}

-- Any number of chunks is delivered as their concatenation would be.
pub push_all_lem :
    (bs : List (List ℕ)) (l : Lane)
    → IsSane l.channel
    → IsResting l.channel
    → All (All IsByte) bs
    → PushLaw (joined bs) l (push_all bs l)
unfolding push_all joined stream
push_all_lem [] l v r h = record {
  items = [];
  queue = sym (append-nil l.tx.queue);
  bytes = append-nil (pending l.channel);
  sane = v;
  resting = r;
  short = tt;
  keeps = record { seq = refl; buf = refl; size = refl; bound = refl; closed = refl };
}
push_all_lem (b ∷ bs) l v r h =
    go (push b l) (push_lem b l v h.0) (λ m w s. push_all_lem bs m w s h.1)
  where
    next :
        (m : Lane) (p : Pushed)
        → Delivered b l m
        → PushLaw (joined bs) m p
        → PushLaw (b ++ joined bs) l p
    next m (pushed n) d e = deliver_both b (joined bs) l m n d e
    next m (broken x n) d e = fail_both x b (joined bs) l m n d e
    next m stuck d e = e

    go :
        (p : Pushed)
        → PushLaw b l p
        → ((m : Lane)
            → IsSane m.channel
            → IsResting m.channel
            → PushLaw (joined bs) m (push_all bs m))
        → PushLaw
            (b ++ joined bs)
            l
            (elim p [ pushed m ↦ push_all bs m | broken x m ↦ broken x m | stuck ↦ stuck ])
    go (pushed m) d ih = next m (push_all bs m) d (ih m d.sane d.resting)
    go (broken x m) d ih = fail_before x b (joined bs) l m d
    go stuck d ih = d

-- However the bytes of some records are cut into chunks, pushing the chunks on a new channel
-- succeeds and delivers exactly those records, in order, with nothing left pending, if each record
-- has more than four bytes (and below 2^32) and the open queue has room for all of them.
pub push_all_complete :
    (n : ℕ) (bs rs : List (List ℕ)) (tx : Sender)
    → All (All IsByte) bs
    → All IsLong rs
    → joined bs ≡ stream rs
    → tx.is_closed ≡ false
    → length tx.queue + length rs ≤ tx.bound
    → (l : Lane) × (push_all bs (record { channel = new n; tx = tx }) ≡ pushed l)
      × (l.tx.queue ≡ tx.queue ++ rs)
      × (pending l.channel ≡ [])
unfolding new
push_all_complete n bs rs tx hb hr e open_tx room =
    go (push_all bs start) (push_all_lem bs start sane (inl (omega arith)) hb)
  where
    start : Lane
    start = record { channel = new n; tx = tx }

    sane : IsSane start.channel
    sane = record { size = omega arith; bytes = tt }

    refused : (x : SendError) (l : Lane) → Failed x (joined bs) start l → ⊥
    refused disconnected l d = cc (d.closed, open_tx, d.refusal)
    refused full l d = omega (
      arith,
      d.refusal.1,
      d.bound,
      ap length d.queue,
      length-append tx.queue d.items,
      stream_longer d.items rs d.item d.tail d.short.0 hr (sym d.bytes ∙ e),
    )

    go :
        (p : Pushed)
        → PushLaw (joined bs) start p
        → (l : Lane) × (p ≡ pushed l) × (l.tx.queue ≡ tx.queue ++ rs) × (pending l.channel ≡ [])
    go (pushed l) d =
        let u = stream_unique d.items rs l.channel d.short hr d.sane d.resting (sym d.bytes ∙ e) in
        (l, refl, d.queue ∙ ap (λ (x : List (List ℕ)). tx.queue ++ x) u.0, u.1)
    go (broken x l) d = absurd (refused x l d)
    go stuck d = absurd d

-- A push that leaves at most four bytes at hand only stores them.
push_few :
    (b : List ℕ) (l : Lane)
    → length l.channel.wait_data + length b ≤ 4
    → push b l ≡ pushed (extended b l)
unfolding push push_loop push_round
push_few b l h = ground (arith, length-append l.channel.wait_data b)

header_round :
    (a : List ℕ) (k : ℕ) (l : Lane)
    → l.channel.wait_size ≡ 0
    → 0 < length a
    → length a < k
    → k < 2 ^ 32
    → push_round (record l { channel = record (l.channel) { wait_data = be32 k ++ a } })
      ≡ halt (record l { channel = record (l.channel) { wait_size = k; wait_data = a } })
unfolding push_round read_size header take_record
header_round a k l z p q r = ground (arith, from_be32-be32 k r)

-- A header and part of its record: the header is taken off, and the channel waits for the rest.
push_header :
    (a : List ℕ) (k : ℕ) (l : Lane)
    → l.channel.wait_size ≡ 0
    → l.channel.wait_data ≡ []
    → 0 < length a
    → length a < k
    → k < 2 ^ 32
    → push (be32 k ++ a) l
      ≡ pushed (record l { channel = record (l.channel) { wait_size = k; wait_data = a } })
unfolding push push_loop
push_header a k l z e p q r = rw e (rw (round, push_loop) refl)
  where
    round :
        push_round (record l { channel = record (l.channel) { wait_data = be32 k ++ a } })
        ≡ halt (record l { channel = record (l.channel) { wait_size = k; wait_data = a } })
    round = header_round a k l z p q r

-- The records that are late: one of two to four bytes, of which at least one byte comes in the chunk
-- of the header and the others in a chunk of their own, on a channel with nothing pending. Both
-- pushes succeed, all the bytes of the record are then at
-- hand, and it is not delivered.
pub short_record_late :
    (a b : List ℕ) (l : Lane)
    → l.channel.wait_size ≡ 0
    → l.channel.wait_data ≡ []
    → 0 < length a
    → 0 < length b
    → length a + length b ≤ 4
    → (m n : Lane) × (push (be32 (length (a ++ b)) ++ a) l ≡ pushed m)
      × (push b m ≡ pushed n)
      × (n.tx ≡ l.tx)
      × (n.channel.wait_size ≡ length (a ++ b))
      × (n.channel.wait_data ≡ a ++ b)
short_record_late a b l z e p q r =
    let m = record l {
      channel = record (l.channel) { wait_size = length (a ++ b); wait_data = a };
    } in
    (
      m,
      extended b m,
      push_header a (length (a ++ b)) l z e p few bound,
      push_few b m r,
      refl,
      refl,
      refl,
    )
  where
    few : length a < length (a ++ b)
    few = omega (arith, length-append a b)

    bound : length (a ++ b) < 2 ^ 32
    bound = omega (arith, length-append a b)
