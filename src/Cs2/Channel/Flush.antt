-- ===== src/Cs2/Channel/Flush.antt =====
-- The loop of `DataChannel::push_seq`.
use lite_nvr.Common.{
  ℕ, zero, suc, ◌+◌, ◌%◌, ◌^◌, ◌<◌, ◌≡◌, refl, ap, ◌∙◌, Option, none, some, List, arith, nat_eq,
  length, All,
}
use lite_nvr.Common.Dict.{lookup, length-remove-lt}
use lite_nvr.Common.Bytes.{IsByte}
use lite_nvr.Common.Int.{pos}
use lite_nvr.Cs2.Channel.{
  Lane, Pushed, pushed, broken, stuck, push, Answer, answered, died, unfinished, advanced, without,
  flush,
}
use lite_nvr.Cs2.Channel.Stream.{Delivered, PushLaw}
use lite_nvr.Cs2.Channel.Push.{push_lem}
use lite_nvr.Cs2.Channel.Order.{Window, FlushLaw, next_frame, flush_last, flush_step, flush_join}

module _ (frame : ℕ → List ℕ) (frame_bytes : (i : ℕ) → All IsByte (frame i)) where
  -- With more fuel than buffered frames, the loop of `push_seq` ends.
  pub flush_lem :
      (f w i : ℕ) (l : Lane)
      → Window frame w l.channel
      → length l.channel.push_buf < f
      → FlushLaw frame w i l (flush f (frame w) i l)
  unfolding flush
  flush_lem zero w i l v h = absurd (omega arith)
  flush_lem (suc f) w i l v h =
      go (push (frame w) l) (push_lem (frame w) l v.sane (frame_bytes w))
        (flush_lem f (suc w) (i + 1))
    where
      after : Lane → Answer
      after m = elim (lookup (advanced m).channel.wait_seq m.channel.push_buf) [
        | none ↦ answered (pos i) (advanced m)
        | some next ↦ flush f next (i + 1) (without (advanced m).channel.wait_seq (advanced m))
      ]

      join :
          (m : Lane) (s : ℕ) (a : Answer)
          → Delivered (frame w) l m
          → FlushLaw frame (suc w) (i + 1) (without s (advanced m)) a
          → FlushLaw frame w i l a
      join m s (answered c k) d (n, e, g) =
          (suc n, e ∙ ap pos (omega arith), flush_join frame w n s l m k d g)
      join m s (died e k) d g = g
      join m s unfinished d g = g

      found :
          (m : Lane) (s : ℕ)
          → Delivered (frame w) l m
          → s ≡ suc w % 2 ^ 16
          → (o : Option (List ℕ)) → lookup s l.channel.push_buf ≡ o
          → ((k : Lane)
              → Window frame (suc w) k.channel
              → length k.channel.push_buf < f
              → FlushLaw frame (suc w) (i + 1) k (flush f (frame (suc w)) (i + 1) k))
          → FlushLaw frame w i l (elim o [
            | none ↦ answered (pos i) (advanced m)
            | some next ↦ flush f next (i + 1) (without s (advanced m))
          ])
      found m s d e none q ih = (0, ap pos (omega arith), flush_last frame w l m v d (rw (← e) q))
      found m s d e (some b) q ih =
          rw (next_frame frame w l.channel.push_buf b v.kept (rw (← e) q)) (
            join m s (flush f (frame (suc w)) (i + 1) (without s (advanced m))) d (
              ih (without s (advanced m)) (flush_step frame w s l m v d e)
                (rw d.keeps.buf (omega (arith, length-remove-lt s b l.channel.push_buf q)))))

      go :
          (p : Pushed)
          → PushLaw (frame w) l p
          → ((k : Lane)
              → Window frame (suc w) k.channel
              → length k.channel.push_buf < f
              → FlushLaw frame (suc w) (i + 1) k (flush f (frame (suc w)) (i + 1) k))
          → FlushLaw frame w i l
              (elim p [ pushed m ↦ after m | broken e m ↦ died e m | stuck ↦ unfinished ])
      go (pushed m) d ih =
          found m (advanced m).channel.wait_seq d (omega (arith, d.keeps.seq, v.seq))
            (lookup (advanced m).channel.wait_seq m.channel.push_buf) (rw (← d.keeps.buf) refl) ih
      go (broken e m) d ih = d.refusal
      go stuck d ih = d
