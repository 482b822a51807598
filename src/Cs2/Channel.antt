-- ===== src/Cs2/Channel.antt =====
-- `DataChannel` of crates/xiaomi/src/cs2.rs, with the bounded queue that it delivers records to.
pub mod Stream
mod Rounds
pub mod Push
mod Decode
pub mod Complete
pub mod Whole
pub mod Order
mod Flush
pub mod Arrival
pub mod InOrder
mod Runs
use lite_nvr.Common.{
  ℕ, zero, suc, ◌+◌, ◌-◌, ◌%◌, ◌^◌, ◌≡◌, Bool, true, false, Option, none, some, List, [], ◌∷◌, ◌++◌,
  ltb, leb, ◌==◌, nat_eq, if◌then◌else◌, length, take, drop,
}
use lite_nvr.Common.Dict.{Dict, lookup, insert, remove, contains_key}
use lite_nvr.Common.Bytes.{from_be32}
use lite_nvr.Common.Int.{ℤ, pos, negsuc}

-- The errors of `try_send`: "pop buffer is full" and "pop buffer closed".
pub data SendError : Type 0 where
  full disconnected : SendError

-- A `SyncSender<Vec<u8>>` with what its receiver has not taken yet.
pub record Sender : Type 0 where
  pub queue : List (List ℕ)
  pub bound : ℕ
  pub is_closed : Bool

pub data Sent : Type 0 where
  sent : Sender → Sent
  refused : SendError → Sent

pub try_send : List ℕ → Sender → Sent
try_send r tx =
    if tx.is_closed
    then refused disconnected
    else if ltb (length tx.queue) tx.bound
    then sent (record tx { queue = tx.queue ++ (r ∷ []) })
    else refused full

-- `push_buf` is keyed by a u16; `wait_seq` is a u16.
pub record DataChannel : Type 0 where
  pub wait_seq : ℕ
  pub push_buf : Dict ℕ (List ℕ)
  pub push_size : ℕ
  pub wait_data : List ℕ
  pub wait_size : ℕ

pub new : ℕ → DataChannel
new n = record { wait_seq = 0; push_buf = []; push_size = n; wait_data = []; wait_size = 0 }

-- A channel and its sender, as the worker holds them.
pub record Lane : Type 0 where
  pub channel : DataChannel
  pub tx : Sender

-- How a round of the loop in `push` ends. `failed` keeps the state that the error leaves behind.
pub data Round : Type 0 where
  halt : Lane → Round
  more : Lane → Round
  failed : SendError → Lane → Round

-- `u32::from_be_bytes` of the first four bytes. The source indexes, under a guard on the length.
pub header : List ℕ → ℕ
header (a ∷ b ∷ c ∷ d ∷ r) = from_be32 a b c d
header _ = 0

pub read_size : DataChannel → DataChannel
unfolding header
read_size c =
    if c.wait_size == 0
    then record c { wait_size = header c.wait_data; wait_data = drop 4 c.wait_data }
    else c

pub deliver : DataChannel → Sent → Sender → Round
deliver c (sent tx') tx = more (record { channel = record c { wait_size = 0 }; tx = tx' })
deliver c (refused e) tx = failed e (record { channel = c; tx = tx })

pub take_record : DataChannel → Sender → Round
unfolding deliver try_send
take_record c tx =
    if ltb (length c.wait_data) c.wait_size
    then halt (record { channel = c; tx = tx })
    else deliver (record c { wait_data = drop c.wait_size c.wait_data })
        (try_send (take c.wait_size c.wait_data) tx) tx

-- One test and body of `while self.wait_data.len() > 4`.
pub push_round : Lane → Round
push_round l =
    if ltb 4 (length l.channel.wait_data) then take_record (read_size l.channel) l.tx else halt l

-- What a push comes to. `stuck` is no value of the source: the fuel ran out.
pub data Pushed : Type 0 where
  pushed : Lane → Pushed
  broken : SendError → Lane → Pushed
  stuck : Pushed

pub push_loop : ℕ → Lane → Pushed
push_loop zero l = stuck
push_loop (suc f) l = elim (push_round l) [
  | halt l' ↦ pushed l'
  | more l' ↦ push_loop f l'
  | failed e l' ↦ broken e l'
]

abbrev pub extended : List ℕ → Lane → Lane
extended b l = record l { channel = record (l.channel) { wait_data = l.channel.wait_data ++ b } }

-- Each round but the last takes a byte at least.
pub push : List ℕ → Lane → Pushed
push b l = push_loop (suc (length l.channel.wait_data + length b)) (extended b l)

-- Chunks pushed one after the other, until a push fails.
pub push_all : List (List ℕ) → Lane → Pushed
push_all [] l = pushed l
push_all (b ∷ bs) l = elim (push b l) [
  | pushed l' ↦ push_all bs l'
  | broken e l' ↦ broken e l'
  | stuck ↦ stuck
]

-- `seq.wrapping_sub(wait_seq) as i16`, as a sign.
pub data Age : Type 0 where
  ahead due behind : Age

pub age : ℕ → ℕ → Age
age seq wait_seq =
    let diff = (seq + 2 ^ 16 - wait_seq) % 2 ^ 16 in
    if diff == 0 then due else if ltb diff (2 ^ 15) then ahead else behind

-- The result of `push_seq`: `answered` carries the i32 that it returns.
pub data Answer : Type 0 where
  answered : ℤ → Lane → Answer
  died : SendError → Lane → Answer
  unfinished : Answer

-- A frame from the future is kept, unless the buffer is full.
pub keep : ℕ → List ℕ → Lane → Answer
keep seq b l =
    let c = l.channel in
    if c.push_size == 0
    then answered (negsuc 0) l
    else if contains_key seq c.push_buf
    then answered (pos 0) l
    else if length c.push_buf == c.push_size
    then answered (negsuc 0) l
    else answered (pos 0) (record l { channel = record c { push_buf = insert seq b c.push_buf } })

abbrev pub advanced : Lane → Lane
advanced l = record l {
  channel = record (l.channel) { wait_seq = (l.channel.wait_seq + 1) % 2 ^ 16 };
}

abbrev pub without : ℕ → Lane → Lane
without seq l = record l {
  channel = record (l.channel) { push_buf = remove seq l.channel.push_buf };
}

-- The loop of `push_seq`: `i` frames are pushed when it returns.
pub flush : ℕ → List ℕ → ℕ → Lane → Answer
flush zero cur i l = unfinished
flush (suc f) cur i l = elim (push cur l) [
  | pushed l' ↦ elim (lookup (advanced l').channel.wait_seq l'.channel.push_buf) [
    | none ↦ answered (pos i) (advanced l')
    | some next ↦ flush f next (i + 1) (without (advanced l').channel.wait_seq (advanced l'))
  ]
  | broken e l' ↦ died e l'
  | stuck ↦ unfinished
]

-- Each round of `flush` but the last removes a frame from `push_buf`.
pub take_aged : Age → ℕ → List ℕ → Lane → Answer
unfolding keep
take_aged ahead seq b l = keep seq b l
take_aged behind seq b l = answered (pos 0) l
take_aged due seq b l = flush (suc (length l.channel.push_buf)) b 1 l

pub push_seq : ℕ → List ℕ → Lane → Answer
unfolding age take_aged
push_seq seq b l = take_aged (age seq l.channel.wait_seq) seq b l
