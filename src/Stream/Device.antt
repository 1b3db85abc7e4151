-- ===== src/Stream/Device.antt =====
-- What src/c/stream.c calls: the 9P client, the screen, the keyboard, and the Lisp functions of a FAT
-- file. The client's calls are those of src/c/virtio9p.h, with a failed call as `none`.
use isiki.Prelude.{ℕ, Option, List}

-- The end of WRITE-FROM! or READ-INTO!: the function is not defined, control leaves it for an outer
-- block, it returns nil, or it returns something else.
pub data Called {ℓ} (A : Type ℓ) : Type ℓ where
  undefined_function : Called A
  escaped : ℕ → Called A
  returned_nil : Called A
  returned : A → Called A

pub record Devices : Type 1 where
  pub State : Type 0
  pub open_fid : State → List ℕ → ℕ → State × Option ℕ
  pub create_fid : State → List ℕ → ℕ → ℕ → State × Option ℕ
  pub read_chunk : State → ℕ → ℕ → ℕ → State × Option (List ℕ)
  pub write_chunk : State → ℕ → ℕ → List ℕ → State × Option ℕ
  pub close_fid : State → ℕ → State
  pub screen_write : State → ℕ → State
  -- `none` at the end of the input, and for a stream without a function to read.
  pub keyboard_read : State → State × Option ℕ
  -- The node, the offset and the bytes.
  pub write_from : State → ℕ → ℕ → List ℕ → State × Called (Unit {0})
  -- The node, the offset and the size of the vector; a number returned, and the vector's contents.
  pub read_into : State → ℕ → ℕ → ℕ → State × Called (ℕ × List ℕ)
