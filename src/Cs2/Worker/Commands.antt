-- ===== src/Cs2/Worker/Commands.antt =====
-- The retransmission of commands by `Conn::write_command`.
use lite_nvr.Common.{ℕ, zero, suc, ◌+◌, ◌<◌, ◌≡◌, refl, ap, ◌∙◌, true, false, List, arith}
use lite_nvr.Cs2.Worker.{
  Try, write_fails, acked, times_out, Written, sent_ok, cannot_send, io_error, Sending, send_loop,
  Conn, write_command,
}

-- The tries n, …, n + k - 1 all went without an answer.
abbrev pub Silent : (ℕ → Try) → ℕ → ℕ → Type 0
Silent env n zero = Unit {0}
Silent env n (suc k) = (env n ≡ times_out) × Silent env (suc n) k

-- The loop stops at the first try that is answered or fails, and after `r` silent ones.
abbrev pub LoopLaw : (ℕ → Try) → ℕ → ℕ → Sending → Written → Type 0
LoopLaw env r n s sent_ok =
    (k : ℕ) × (k < r) × Silent env n k × (env (n + k) ≡ acked) × (s.writes ≡ n + k + 1)
LoopLaw env r n s cannot_send = Silent env n r × (s.writes ≡ n + r)
LoopLaw env r n s io_error =
    (k : ℕ) × (k < r) × Silent env n k × (env (n + k) ≡ write_fails) × (s.writes ≡ n + k)

later :
    (env : ℕ → Try) (r n : ℕ) (s : Sending) (x : Written)
    → env n ≡ times_out
    → LoopLaw env r (suc n) s x
    → LoopLaw env (suc r) n s x
later env r n s sent_ok e (k, p, q, h, w) =
    (suc k, omega arith, (e, q), ap env (omega arith) ∙ h, omega arith)
later env r n s cannot_send e (q, w) = ((e, q), omega arith)
later env r n s io_error e (k, p, q, h, w) =
    (suc k, omega arith, (e, q), ap env (omega arith) ∙ h, omega arith)

send_loop_lem :
    (env : ℕ → Try) (r n : ℕ) → LoopLaw env r n (send_loop r env n) (send_loop r env n).result
unfolding send_loop
send_loop_lem env zero n = (tt, omega arith)
send_loop_lem env (suc r) n = go (env n) refl (send_loop_lem env r (suc n))
  where
    go :
        (t : Try)
        → env n ≡ t
        → LoopLaw env r (suc n) (send_loop r env (suc n)) (send_loop r env (suc n)).result
        → let s : Sending = elim t [
          | write_fails ↦ record { writes = n; result = io_error; waits = true }
          | acked ↦ record { writes = suc n; result = sent_ok; waits = false }
          | times_out ↦ send_loop r env (suc n)
        ] in
          LoopLaw env (suc r) n s s.result
    go write_fails e h = (0, omega arith, tt, ap env (omega arith) ∙ e, omega arith)
    go acked e h = (0, omega arith, tt, ap env (omega arith) ∙ e, omega arith)
    go times_out e h = later env r n (send_loop r env (suc n)) _ e h

-- On UDP a command is written until the first acknowledgement, at most five times: it succeeds
-- exactly at the acknowledged try, fails for good only after five silent ones, and breaks off at a
-- transmission that fails.
pub write_command_retries :
    (c : Conn) (cmd : ℕ) (payload : List ℕ) (env : ℕ → Try)
    → c.is_tcp ≡ false
    → let s = (write_command c cmd payload env).2 in LoopLaw env 5 0 s s.result
unfolding write_command
write_command_retries c cmd payload env u = rw u (send_loop_lem env 5 0)
