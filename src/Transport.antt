-- ===== src/Transport.antt =====
-- irida-core/core/transport: `GdbClient`, requests and replies over a TCP socket.
pub mod Receive
pub mod Replies
mod Tests
use irida.Common.{Option, Text, codes, if◌then◌else◌, none, pos, some, suc, zero, ℕ, ℤ, ◌++◌}
use irida.Base.{Bytes, Result, ok, err}
use irida.Base.Action.{Action, pure, lift, ignore, on, ◌>>=◌, ◌>>◌}
use irida.Proto.Hex.{hex_decode}
use irida.Proto.Frame.{frame, feed, next_payload}
use irida.Proto.Packets.Numbers.{to_string}
use irida.Proto.Packets.Requests.{
  req_read_registers, req_read_memory, req_write_memory, req_set_breakpoint, req_remove_breakpoint,
  req_continue, req_step, req_halt_reason, req_qsupported, reply_is_ok, reply_error_code,
}
use irida.Proto.Packets.StopReply.{StopReply, parse_stop_reply}

-- `host::TcpClient`: `recv` is given the buffer's size and a timeout in milliseconds, and returns
-- the bytes that it put into the buffer.
pub record Socket : Type 1 where
  pub State : Type 0
  pub connect : Text → ℕ → Action State (Unit {0})
  pub send : Bytes → Action State ℕ
  pub recv : ℕ → ℕ → Action State Bytes
  pub close : State → State

abbrev pub timeout_ms : ℕ
timeout_ms = 3000

module _ (T : Socket) where
  -- `sock_`, and the buffer of `decoder_`
  pub record GdbClient : Type 0 where
    pub sock : T.State
    pub decoder : Text

-- An `E` reply ends in an error that names its code.
abbrev pub checked : Option ℕ → Text → Result Bytes
checked none t = hex_decode t
checked (some e) t = err (codes "read_memory: target error E" ++ to_string (pos e))

-- `write_memory` spells out what `expect_ok` does for the breakpoint calls.
abbrev pub expect_ok : Text → Text → Result (Unit {0})
expect_ok what t =
    if reply_is_ok t then ok tt else err (what ++ (codes ": not OK (" ++ (t ++ codes ")")))

module _ (T : Socket) where
  abbrev pub on_sock : {A : Type 0} → Action T.State A → Action (GdbClient T) A
  on_sock m = on (λ c. c.sock) (λ c s. record c { sock = s }) m

  -- The loop over `attempts`. The fuel is the number of attempts left.
  unfoldable pub receive : ℕ → Action (GdbClient T) Text
  receive zero c = (err (codes "transact: no reply within attempt budget"), c)
  receive (suc attempts) c = elim (next_payload c.decoder).0 [
    | some p ↦ (ok p, record c { decoder = (next_payload c.decoder).1 })
    | none ↦
        (do
          bytes ← on_sock (T.recv 512 timeout_ms)
          λ c'. receive attempts (record c' { decoder = feed c'.decoder bytes }))
          (record c { decoder = (next_payload c.decoder).1 })
  ]

  unfoldable pub transact : Text → Action (GdbClient T) Text
  transact payload = do on_sock (T.send (frame payload)); receive 64

  unfoldable pub connect : Text → ℕ → Action (GdbClient T) (Unit {0})
  connect host port = do on_sock (T.connect host port); ignore (transact req_qsupported)

  unfoldable pub read_registers : Action (GdbClient T) Bytes
  read_registers = do t ← transact req_read_registers; lift (hex_decode t)

  unfoldable pub read_memory : ℕ → ℕ → Action (GdbClient T) Bytes
  read_memory addr len = do
    t ← transact (req_read_memory addr len)
    lift (checked (reply_error_code t) t)

  unfoldable pub write_memory : ℕ → Bytes → Action (GdbClient T) (Unit {0})
  write_memory addr bytes = do
    t ← transact (req_write_memory addr bytes)
    lift (expect_ok (codes "write_memory") t)

  unfoldable pub set_breakpoint : ℤ → ℕ → ℤ → Action (GdbClient T) (Unit {0})
  set_breakpoint type addr kind = do
    t ← transact (req_set_breakpoint type addr kind)
    lift (expect_ok (codes "set_breakpoint") t)

  unfoldable pub remove_breakpoint : ℤ → ℕ → ℤ → Action (GdbClient T) (Unit {0})
  remove_breakpoint type addr kind = do
    t ← transact (req_remove_breakpoint type addr kind)
    lift (expect_ok (codes "remove_breakpoint") t)

  unfoldable pub as_stop : Action (GdbClient T) Text → Action (GdbClient T) StopReply
  as_stop m = do t ← m; pure (parse_stop_reply t)

  unfoldable pub cont : Action (GdbClient T) StopReply
  unfolding as_stop
  cont = as_stop (transact req_continue)

  unfoldable pub step : Action (GdbClient T) StopReply
  unfolding as_stop
  step = as_stop (transact req_step)

  unfoldable pub halt_reason : Action (GdbClient T) StopReply
  unfolding as_stop
  halt_reason = as_stop (transact req_halt_reason)

  unfoldable pub disconnect : GdbClient T → GdbClient T
  disconnect c = record c { sock = T.close c.sock }
