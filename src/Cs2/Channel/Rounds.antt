-- ===== src/Cs2/Channel/Rounds.antt =====
-- One round of the loop in `DataChannel::push`.
use lite_nvr.Common.{
  ℕ, ◌^◌, ◌≤◌, ◌<◌, min, ◌≡◌, ◌≢◌, refl, sym, ap, ◌∙◌, ◌⊎◌, inl, inr, List, [], ◌∷◌, ◌++◌, arith,
  ltb, nat_eq, length, take, drop, All, All-drop, length-take, length-drop, take-append-drop,
  Bool-cases,
}
use lite_nvr.Common.Bytes.{IsByte, be32, from_be32_lt, be32-from_be32}
use lite_nvr.Cs2.Channel.{
  SendError, Sender, Sent, sent, refused, try_send, DataChannel, Lane, Round, halt, more, failed,
  header, read_size, deliver, take_record, push_round,
}
use lite_nvr.Cs2.Channel.Stream.{pending, IsSane, IsResting, Keeps, Refusal}

abbrev SentLaw : List ℕ → Sender → Sent → Type 0
SentLaw r tx (sent tx') =
    (tx'.queue ≡ tx.queue ++ (r ∷ [])) × (tx'.bound ≡ tx.bound) × (tx'.is_closed ≡ tx.is_closed)
SentLaw r tx (refused e) = Refusal e tx

try_send_lem : (r : List ℕ) (tx : Sender) → SentLaw r tx (try_send r tx)
unfolding try_send
try_send_lem r tx = ground arith

-- The record's length stands before what is at hand.
abbrev opened : DataChannel → List ℕ
opened c = be32 c.wait_size ++ c.wait_data

header-drop : (b : List ℕ) → 4 < length b → All IsByte b → be32 (header b) ++ drop 4 b ≡ b
unfolding header
header-drop [] h a = absurd (omega arith)
header-drop (x ∷ []) h a = absurd (omega arith)
header-drop (x ∷ y ∷ []) h a = absurd (omega arith)
header-drop (x ∷ y ∷ z ∷ []) h a = absurd (omega arith)
header-drop (x ∷ y ∷ z ∷ w ∷ r) h (p, (q, (s, (t, u)))) =
    ap (λ (v : List ℕ). v ++ r) (be32-from_be32 x y z w p q s t)

header_lt : (b : List ℕ) → All IsByte b → header b < 2 ^ 32
unfolding header
header_lt [] a = omega arith
header_lt (x ∷ []) a = omega arith
header_lt (x ∷ y ∷ []) a = omega arith
header_lt (x ∷ y ∷ z ∷ []) a = omega arith
header_lt (x ∷ y ∷ z ∷ w ∷ r) (p, (q, (s, (t, u)))) = from_be32_lt x y z w p q s t

record Read (c c' : DataChannel) : Type 0 where
  whole : opened c' ≡ pending c
  sane : IsSane c'
  shorter : length c'.wait_data ≤ length c.wait_data
  progress : (0 < c'.wait_size) ⊎ (length c'.wait_data < length c.wait_data)
  seq : c'.wait_seq ≡ c.wait_seq
  buf : c'.push_buf ≡ c.push_buf
  size : c'.push_size ≡ c.push_size

read_size_lem : (c : DataChannel) → IsSane c → 4 < length c.wait_data → Read c (read_size c)
unfolding read_size
read_size_lem c v h = ground (
  arith,
  header-drop c.wait_data h v.bytes,
  header_lt c.wait_data v.bytes,
  All-drop IsByte 4 c.wait_data v.bytes,
  length-drop 4 c.wait_data,
)

-- What a round of the loop does to a channel whose state is `c` and whose queue is `q`.
pub record Took (l l' : Lane) : Type 0 where
  pub item : List ℕ
  pub queue : l'.tx.queue ≡ l.tx.queue ++ (item ∷ [])
  pub rest : pending l.channel ≡ be32 (length item) ++ (item ++ pending l'.channel)
  pub sane : IsSane l'.channel
  pub shorter : length l'.channel.wait_data < length l.channel.wait_data
  pub short : length item < 2 ^ 32
  pub keeps : Keeps l l'

pub record Stopped (l l' : Lane) : Type 0 where
  pub same : l'.tx ≡ l.tx
  pub rest : pending l.channel ≡ pending l'.channel
  pub sane : IsSane l'.channel
  pub resting : IsResting l'.channel
  pub keeps : Keeps l l'

-- A send that fails loses the record that it was given.
pub record Lost (e : SendError) (l l' : Lane) : Type 0 where
  pub item : List ℕ
  pub tail : List ℕ
  pub same : l'.tx ≡ l.tx
  pub rest : pending l.channel ≡ be32 (length item) ++ (item ++ tail)
  pub short : length item < 2 ^ 32
  pub refusal : Refusal e l.tx

abbrev pub RoundLaw : Lane → Round → Type 0
RoundLaw l (halt l') = Stopped l l'
RoundLaw l (more l') = Took l l'
RoundLaw l (failed e l') = Lost e l l'

abbrev DeliverLaw : DataChannel → Sender → List ℕ → Round → Type 0
DeliverLaw c tx r (halt l') = ⊥
DeliverLaw c tx r (more l') =
    (l'.channel ≡ record c { wait_size = 0 })
    × (l'.tx.queue ≡ tx.queue ++ (r ∷ []))
    × (l'.tx.bound ≡ tx.bound)
    × (l'.tx.is_closed ≡ tx.is_closed)
DeliverLaw c tx r (failed e l') = (l'.tx ≡ tx) × Refusal e tx

deliver_lem :
    (c : DataChannel) (tx : Sender) (r : List ℕ) (s : Sent)
    → SentLaw r tx s
    → DeliverLaw c tx r (deliver c s tx)
unfolding deliver
deliver_lem c tx r (sent tx') h = (refl, h.0, h.1, h.2)
deliver_lem c tx r (refused e) h = (refl, h)

pending-zero : (c : DataChannel) → c.wait_size ≡ 0 → pending c ≡ c.wait_data
pending-zero c h = ground arith

opened-pending : (c : DataChannel) → c.wait_size ≢ 0 → opened c ≡ pending c
opened-pending c h = ground arith

opened_split :
    (c : DataChannel)
    → c.wait_size ≤ length c.wait_data
    → opened c
      ≡ be32 (length (take c.wait_size c.wait_data))
        ++ (take c.wait_size c.wait_data ++ drop c.wait_size c.wait_data)
opened_split c h = rw (
  take-append-drop c.wait_size c.wait_data,
  length-take c.wait_size c.wait_data,
  min_left c.wait_size (length c.wait_data) h,
)
  where
    min_left : (a b : ℕ) → a ≤ b → min a b ≡ a
    min_left a b p = omega arith

module _ (l : Lane) (c : DataChannel) (read : Read l.channel c) where
  halted : length c.wait_data < c.wait_size → Stopped l (record { channel = c; tx = l.tx })
  halted h = record {
    same = refl;
    rest = sym read.whole ∙ opened-pending c (λ z. omega arith);
    sane = read.sane;
    resting = inr h;
    keeps = record {
      seq = read.seq;
      buf = read.buf;
      size = read.size;
      bound = refl;
      closed = refl;
    };
  }

  took :
      (l' : Lane)
      → c.wait_size ≤ length c.wait_data
      → l'.channel ≡ record c { wait_data = drop c.wait_size c.wait_data; wait_size = 0 }
      → l'.tx.queue ≡ l.tx.queue ++ (take c.wait_size c.wait_data ∷ [])
      → l'.tx.bound ≡ l.tx.bound
      → l'.tx.is_closed ≡ l.tx.is_closed
      → Took l l'
  took l' h e q b x = record {
    item = take c.wait_size c.wait_data;
    queue = q;
    rest =
        sym read.whole
        ∙ opened_split c h
        ∙ rw (pending-zero l'.channel (ap (λ (d : DataChannel). d.wait_size) e), e) refl;
    sane = rw e (record {
      size = omega arith;
      bytes = All-drop IsByte c.wait_size c.wait_data read.sane.bytes;
    });
    shorter =
        rw e (omega (arith, length-drop c.wait_size c.wait_data, read.progress, read.shorter));
    short = omega (arith, length-take c.wait_size c.wait_data, read.sane.size);
    keeps = record {
      seq = ap (λ (d : DataChannel). d.wait_seq) e ∙ read.seq;
      buf = ap (λ (d : DataChannel). d.push_buf) e ∙ read.buf;
      size = ap (λ (d : DataChannel). d.push_size) e ∙ read.size;
      bound = b;
      closed = x;
    };
  }

take_record_lem : (l : Lane) (c : DataChannel) → Read l.channel c → RoundLaw l (take_record c l.tx)
unfolding take_record
take_record_lem l c read = elim (Bool-cases (ltb (length c.wait_data) c.wait_size)) [
  | inl short ↦ rw (short, take_record) (halted l c read (ground arith))
  | inr whole ↦
      rw (whole, take_record)
        (finish (deliver after (try_send r l.tx) l.tx)
          (deliver_lem after l.tx r (try_send r l.tx) (try_send_lem r l.tx)) (ground arith))
]
  where
    r : List ℕ
    r = take c.wait_size c.wait_data

    after : DataChannel
    after = record c { wait_data = drop c.wait_size c.wait_data }

    finish :
        (d : Round) → DeliverLaw after l.tx r d → c.wait_size ≤ length c.wait_data → RoundLaw l d
    finish (halt l') h k = absurd h
    finish (more l') h k = took l c read l' k h.0 h.1 h.2 h.3
    finish (failed e l') h k = record {
      item = r;
      tail = drop c.wait_size c.wait_data;
      same = h.0;
      rest = sym read.whole ∙ opened_split c k;
      short = omega (arith, length-take c.wait_size c.wait_data, read.sane.size);
      refusal = h.1;
    }

pub push_round_lem : (l : Lane) → IsSane l.channel → RoundLaw l (push_round l)
unfolding push_round
push_round_lem l v = elim (Bool-cases (ltb 4 (length l.channel.wait_data))) [
  | inl go ↦
      rw (go, push_round)
        (take_record_lem l (read_size l.channel) (read_size_lem l.channel v (ground arith)))
  | inr over ↦
      rw (over, push_round)
        (record {
          same = refl;
          rest = refl;
          sane = v;
          resting = inl (ground arith);
          keeps = record { seq = refl; buf = refl; size = refl; bound = refl; closed = refl };
        })
]
