-- ===== src/Cs2/Channel/Stream.antt =====
-- The byte stream behind `DataChannel::push`: records behind their lengths.
use lite_nvr.Common.{
  refl, append_assoc, ◌∙◌, sym, ap, ℕ, ◌^◌, ◌≤◌, ◌<◌, ◌≡◌, ◌⊎◌, true, false, List, [], ◌∷◌, ◌++◌,
  ◌==◌, nat_eq, if◌then◌else◌, length, All,
}
use lite_nvr.Common.Bytes.{IsByte, be32}
use lite_nvr.Cs2.Channel.{
  SendError, full, disconnected, Sender, DataChannel, Lane, Pushed, pushed, broken, stuck,
}

-- The wire form of a run of records: each behind its length.
unfoldable pub stream : List (List ℕ) → List ℕ
stream [] = []
stream (d ∷ ds) = be32 (length d) ++ (d ++ stream ds)

-- The bytes that a channel has taken in and not yet delivered.
abbrev pub pending : DataChannel → List ℕ
pending c = (if c.wait_size == 0 then [] else be32 c.wait_size) ++ c.wait_data

pub record IsSane (c : DataChannel) : Type 0 where
  pub size : c.wait_size < 2 ^ 32
  pub bytes : All IsByte c.wait_data

-- The channel waits for more bytes: at most four are at hand, or fewer than the record has.
abbrev pub IsResting : DataChannel → Type 0
IsResting c = (length c.wait_data ≤ 4) ⊎ (length c.wait_data < c.wait_size)

-- What `push` leaves alone.
pub record Keeps (l l' : Lane) : Type 0 where
  pub seq : l'.channel.wait_seq ≡ l.channel.wait_seq
  pub buf : l'.channel.push_buf ≡ l.channel.push_buf
  pub size : l'.channel.push_size ≡ l.channel.push_size
  pub bound : l'.tx.bound ≡ l.tx.bound
  pub closed : l'.tx.is_closed ≡ l.tx.is_closed

-- Why a send failed.
abbrev pub Refusal : SendError → Sender → Type 0
Refusal full tx = (tx.is_closed ≡ false) × (tx.bound ≤ length tx.queue)
Refusal disconnected tx = tx.is_closed ≡ true

-- What a push that succeeds has done: the records that it delivered, in the order of the bytes.
pub record Delivered (b : List ℕ) (l l' : Lane) : Type 0 where
  pub items : List (List ℕ)
  pub queue : l'.tx.queue ≡ l.tx.queue ++ items
  pub bytes : pending l.channel ++ b ≡ stream items ++ pending l'.channel
  pub sane : IsSane l'.channel
  pub resting : IsResting l'.channel
  pub short : All (λ d. length d < 2 ^ 32) items
  pub keeps : Keeps l l'

-- What a push that fails has done: some records delivered, and the next one lost.
pub record Failed (e : SendError) (b : List ℕ) (l l' : Lane) : Type 0 where
  pub items : List (List ℕ)
  pub item : List ℕ
  pub tail : List ℕ
  pub queue : l'.tx.queue ≡ l.tx.queue ++ items
  pub bytes : pending l.channel ++ b ≡ stream items ++ (be32 (length item) ++ (item ++ tail))
  pub short : All (λ d. length d < 2 ^ 32) items × (length item < 2 ^ 32)
  pub refusal : Refusal e l'.tx
  pub bound : l'.tx.bound ≡ l.tx.bound
  pub closed : l'.tx.is_closed ≡ l.tx.is_closed

-- All that the chunks hold, one after the other.
unfoldable pub joined : List (List ℕ) → List ℕ
joined [] = []
joined (b ∷ bs) = b ++ joined bs

abbrev pub PushLaw : List ℕ → Lane → Pushed → Type 0
PushLaw b l (pushed l') = Delivered b l l'
PushLaw b l (broken e l') = Failed e b l l'
PushLaw b l stuck = ⊥

pub stream-append : (xs ys : List (List ℕ)) → stream (xs ++ ys) ≡ stream xs ++ stream ys
unfolding stream
stream-append [] ys = refl
stream-append (x ∷ xs) ys =
    ap (λ (p : List ℕ). be32 (length x) ++ p)
      (ap (λ (p : List ℕ). x ++ p) (stream-append xs ys)
        ∙ sym (append_assoc x (stream xs) (stream ys)))

pub regroup :
    (p b r s m t q : List ℕ) → p ++ b ≡ s ++ m → m ++ r ≡ t ++ q → p ++ (b ++ r) ≡ (s ++ t) ++ q
regroup p b r s m t q h k =
    sym (append_assoc p b r)
    ∙ ap (λ (x : List ℕ). x ++ r) h
    ∙ append_assoc s m r
    ∙ ap (λ (x : List ℕ). s ++ x) k
    ∙ sym (append_assoc s t q)
