-- ===== src/Network/Buffer/Tests.antt =====
-- Runs and instances for src/network/buffer.rs.
use fluidic_node.Prelude.{◌≡◌, refl, List, [], ◌∷◌, true, false, arith}
use fluidic_node.Network.Buffer.Vector.{vector}
use fluidic_node.Network.Buffer.{new, store, write, load, peek, consume, read_chunk}
use fluidic_node.Network.Buffer.Contents.{contents}
use fluidic_node.Network.Buffer.Fifo.{
  to_write, to_peek, to_read, to_measure, count, read, measured, step, run, fifo_run, run_fifo,
  Call,
}

abbrev calls : List Call
calls =
    to_write (1 ∷ 2 ∷ 3 ∷ [])
    ∷ to_write (4 ∷ 5 ∷ [])
    ∷ to_read 2
    ∷ to_write (6 ∷ 7 ∷ 8 ∷ [])
    ∷ to_peek 3
    ∷ to_measure
    ∷ []

calls-run :
    (run vector calls (new vector 4)).1
    ≡ count 3
      ∷ count 1
      ∷ read (1 ∷ 2 ∷ [])
      ∷ count 2
      ∷ read (3 ∷ 4 ∷ 6 ∷ [])
      ∷ measured 4 false true
      ∷ []
unfolding run step write store read_chunk peek load consume
calls-run = refl

run_fifo_example :
    ((run vector calls (new vector 4)).1 ≡ (fifo_run 4 calls []).1)
    × (contents vector (run vector calls (new vector 4)).0 ≡ (fifo_run 4 calls []).0)
run_fifo_example = run_fifo vector 4 calls (omega arith)
