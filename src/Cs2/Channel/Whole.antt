-- ===== src/Cs2/Channel/Whole.antt =====
-- `DataChannel::push` of one whole record.
use native.Mathlib.Nat.{zero-add}
use lite_nvr.Common.{
  drop-length, take-length, ℕ, ◌^◌, ◌<◌, ◌≡◌, refl, false, List, [], ◌∷◌, ◌++◌, arith, nat_eq,
  length,
}
use lite_nvr.Common.Bytes.{be32, from_be32-be32}
use lite_nvr.Cs2.Channel.{
  more, try_send, deliver, Lane, pushed, push_loop, push_round, header, read_size, take_record,
  push,
}

module _ (r : List ℕ) (l : Lane) where
  -- The lane with one record more in its queue, and nothing pending.
  abbrev pub delivered : Lane
  delivered = record {
    channel = record (l.channel) { wait_data = []; wait_size = 0 };
    tx = record (l.tx) { queue = l.tx.queue ++ (r ∷ []) };
  }

  abbrev loaded : Lane
  loaded = record l { channel = record (l.channel) { wait_data = be32 (length r) ++ r } }

  module _ (some_bytes : 0 < length r) (bound : length r < 2 ^ 32)
      (no_size : l.channel.wait_size ≡ 0) (is_open : l.tx.is_closed ≡ false)
      (room : length l.tx.queue < l.tx.bound) where
    whole_round : push_round loaded ≡ more delivered
    unfolding push_round read_size header take_record deliver try_send
    whole_round = ground (arith, from_be32-be32 (length r) bound, take-length r, drop-length r)

    -- A whole record pushed on a lane with nothing pending and room in its queue is delivered at once.
    pub push_whole : l.channel.wait_data ≡ [] → push (be32 (length r) ++ r) l ≡ pushed delivered
    unfolding push push_loop push_round
    push_whole e = rw e (rw (whole_round, push_loop) (rw zero-add refl))
