-- ===== src/Network/Buffer/Bytes.antt =====
-- What src/network/buffer.rs takes from `BytesMut` of the crate bytes: a buffer that is resized, read
-- and written by index.
use fluidic_node.Prelude.{ℕ, ◌<◌, ◌≡◌, ◌≢◌}

pub record BytesMut : Type 1 where
  pub Buf : Type 0
  pub with_capacity : ℕ → Buf
  pub resize : ℕ → ℕ → Buf → Buf
  pub at : ℕ → Buf → ℕ
  pub set : ℕ → ℕ → Buf → Buf
  pub size : Buf → ℕ
  pub size-resize : (n x : ℕ) (b : Buf) → size (resize n x b) ≡ n
  pub size-set : (i x : ℕ) (b : Buf) → size (set i x b) ≡ size b
  pub at-resize : (i n x : ℕ) (b : Buf) → i < size b → i < n → at i (resize n x b) ≡ at i b
  pub at-set_self : (i x : ℕ) (b : Buf) → i < size b → at i (set i x b) ≡ x
  pub at-set_other : (i j x : ℕ) (b : Buf) → i ≢ j → at i (set j x b) ≡ at i b
