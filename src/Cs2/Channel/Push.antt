-- ===== src/Cs2/Channel/Push.antt =====
-- `DataChannel::push`: which records the bytes of the stream stand for.
use lite_nvr.Common.{
  ℕ, zero, suc, ◌+◌, ◌<◌, ◌≡◌, sym, ap, ◌∙◌, List, [], ◌∷◌, ◌++◌, append-nil, append_assoc, arith,
  nat_eq, length, All, All-append, length-append,
}
use lite_nvr.Common.Bytes.{IsByte, be32}
use lite_nvr.Cs2.Channel.{
  SendError, Sender, Lane, Round, halt, more, failed, push_round, Pushed, pushed, broken, stuck,
  push_loop, extended, push,
}
use lite_nvr.Cs2.Channel.Stream.{stream, pending, IsSane, Keeps, Delivered, Failed, PushLaw}
use lite_nvr.Cs2.Channel.Rounds.{Lost, Took, RoundLaw, push_round_lem}

Keeps-trans : (l m n : Lane) → Keeps l m → Keeps m n → Keeps l n
Keeps-trans l m n h k = record {
  seq = k.seq ∙ h.seq;
  buf = k.buf ∙ h.buf;
  size = k.size ∙ h.size;
  bound = k.bound ∙ h.bound;
  closed = k.closed ∙ h.closed;
}

deliver_first : (l m n : Lane) → Took l m → Delivered [] m n → Delivered [] l n
unfolding stream
deliver_first l m n t d = record {
  items = t.item ∷ d.items;
  queue = d.queue ∙ rw t.queue (append_assoc l.tx.queue (t.item ∷ []) d.items);
  bytes =
      append-nil (pending l.channel)
      ∙ t.rest
      ∙ ap (λ (p : List ℕ). be32 (length t.item) ++ (t.item ++ p))
          (sym (append-nil (pending m.channel)) ∙ d.bytes)
      ∙ ap (λ (p : List ℕ). be32 (length t.item) ++ p)
          (sym (append_assoc t.item (stream d.items) (pending n.channel)));
  sane = d.sane;
  resting = d.resting;
  short = (t.short, d.short);
  keeps = Keeps-trans l m n t.keeps d.keeps;
}

fail_later : (e : SendError) (l m n : Lane) → Took l m → Failed e [] m n → Failed e [] l n
unfolding stream
fail_later e l m n t d = record {
  items = t.item ∷ d.items;
  item = d.item;
  tail = d.tail;
  queue = d.queue ∙ rw t.queue (append_assoc l.tx.queue (t.item ∷ []) d.items);
  bytes =
      append-nil (pending l.channel)
      ∙ t.rest
      ∙ ap (λ (p : List ℕ). be32 (length t.item) ++ (t.item ++ p))
          (sym (append-nil (pending m.channel)) ∙ d.bytes)
      ∙ ap (λ (p : List ℕ). be32 (length t.item) ++ p)
          (sym (append_assoc t.item (stream d.items) _));
  short = ((t.short, d.short.0), d.short.1);
  refusal = d.refusal;
  bound = d.bound ∙ t.keeps.bound;
  closed = d.closed ∙ t.keeps.closed;
}

fail_now : (e : SendError) (l l' : Lane) → Lost e l l' → Failed e [] l l'
unfolding stream
fail_now e l l' s = record {
  items = [];
  item = s.item;
  tail = s.tail;
  queue = rw s.same (sym (append-nil l.tx.queue));
  bytes = append-nil (pending l.channel) ∙ s.rest;
  short = (tt, s.short);
  refusal = rw s.same s.refusal;
  bound = ap (λ (x : Sender). x.bound) s.same;
  closed = ap (λ (x : Sender). x.is_closed) s.same;
}

push_loop_lem :
    (f : ℕ) (l : Lane)
    → IsSane l.channel
    → length l.channel.wait_data < f
    → PushLaw [] l (push_loop f l)
unfolding push_loop stream
push_loop_lem zero l v h = absurd (omega arith)
push_loop_lem (suc f) l v h = go (push_round l) (push_round_lem l v) (λ l'. push_loop_lem f l')
  where
    next : (l' : Lane) (p : Pushed) → Took l l' → PushLaw [] l' p → PushLaw [] l p
    next l' (pushed n) t d = deliver_first l l' n t d
    next l' (broken e n) t d = fail_later e l l' n t d
    next l' stuck t d = d

    go :
        (r : Round)
        → RoundLaw l r
        → ((l' : Lane)
            → IsSane l'.channel
            → length l'.channel.wait_data < f
            → PushLaw [] l' (push_loop f l'))
        → PushLaw [] l
            (elim r [ halt l' ↦ pushed l' | more l' ↦ push_loop f l' | failed e l' ↦ broken e l' ])
    go (halt l') s ih = record {
      items = [];
      queue = rw s.same (sym (append-nil l.tx.queue));
      bytes = append-nil (pending l.channel) ∙ s.rest;
      sane = s.sane;
      resting = s.resting;
      short = tt;
      keeps = s.keeps;
    }
    go (more l') t ih = next l' (push_loop f l') t (ih l' t.sane (omega (arith, t.shorter)))
    go (failed e l') s ih = fail_now e l l' s

extended-pending : (b : List ℕ) (l : Lane) → pending (extended b l).channel ≡ pending l.channel ++ b
extended-pending b l = sym (append_assoc _ l.channel.wait_data b)

-- On a sane channel a push of bytes ends. If it succeeds, the bytes that were pending and the new
-- ones are the wire form of the records that it delivers, in order, followed by what it keeps
-- pending, which is at most four bytes or less than a record; the channel stays sane, and its
-- sequence state is untouched. If it fails, the queue is full or closed, the records before the
-- failing one are delivered, and that one is lost.
pub push_lem : (b : List ℕ) (l : Lane) → IsSane l.channel → All IsByte b → PushLaw b l (push b l)
unfolding push
push_lem b l v hb = widen _ (push_loop_lem _ (extended b l) sane_after enough)
  where
    sane_after : IsSane (extended b l).channel
    sane_after = record {
      size = v.size;
      bytes = All-append IsByte l.channel.wait_data b v.bytes hb;
    }

    enough : length (extended b l).channel.wait_data < suc (length l.channel.wait_data + length b)
    enough = omega (arith, length-append l.channel.wait_data b)

    widen : (p : Pushed) → PushLaw [] (extended b l) p → PushLaw b l p
    widen (pushed l') d = record {
      items = d.items;
      queue = d.queue;
      bytes =
          sym (extended-pending b l) ∙ sym (append-nil (pending (extended b l).channel)) ∙ d.bytes;
      sane = d.sane;
      resting = d.resting;
      short = d.short;
      keeps = record {
        seq = d.keeps.seq;
        buf = d.keeps.buf;
        size = d.keeps.size;
        bound = d.keeps.bound;
        closed = d.keeps.closed;
      };
    }
    widen (broken e l') d = record {
      items = d.items;
      item = d.item;
      tail = d.tail;
      queue = d.queue;
      bytes =
          sym (extended-pending b l) ∙ sym (append-nil (pending (extended b l).channel)) ∙ d.bytes;
      short = d.short;
      refusal = d.refusal;
      bound = d.bound;
      closed = d.closed;
    }
    widen stuck d = d
