-- ===== src/Virtio9p/Interface.antt =====
-- src/c/p9_transport.h: what the client asks of a transport.
use isiki.Prelude.{ℕ, Option, List}
use isiki.P9.{Text}

-- The end of `recv`: an error text, or the receive buffer with the number of bytes received.
pub data Received : Type 0 where
  timed_out : Text → Received
  received : List ℕ → ℕ → Received

-- p9_transport_t with its state; `ensure_ready` and `send` end with an error text or with none.
pub record Transport : Type 1 where
  pub State : Type 0
  pub ensure_ready : State → State × Option Text
  pub send : State → List ℕ → State × Option Text
  pub recv : State → State × Received
