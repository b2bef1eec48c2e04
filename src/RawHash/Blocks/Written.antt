-- ===== src/RawHash/Blocks/Written.antt =====
-- A checkpoint behind a run of src/RawDeviceHashAdvanced.cpp is the old one, or was written by it.
use Prim.Native.Nat.{min}
use flashsentry.Base.{
  ℕ, zero, suc, ◌+◌, ◌-◌, ◌*◌, ◌%◌, ◌||◌, Option, none, some, List, [], ◌∷◌, ◌++◌, Text, length,
  ◌==◌, Bool-cases, inl, inr,
}
use flashsentry.HashCheckpoint.{HashCheckpoint}
use flashsentry.RawHash.{Options, Digests, Device, chunk_bytes, at_least_one, finalize_ctx}
use flashsentry.RawHash.Blocks.{
  Run, Block, finished, stopped, broke, num_blocks, start_of, write_checkpoint, with_ctx, with_hex,
  after_block, checkpointed, read_block, block_loop, hash_chunked_resume,
}

module _ {Ctx : Type 0} (g : Digests Ctx) (d : Device) (o : Options) (size : ℕ)
    (Q : Option HashCheckpoint → Type 0)
    (written : (hs : List Text) (n : ℕ) (cp : Option HashCheckpoint)
      → Q cp
      → Q (write_checkpoint o size hs n cp)) where
  with_ctx-keeps :
      (c : Option Ctx) (cp : Option HashCheckpoint) (next : Ctx → Run)
      → Q cp
      → ((x : Ctx) → Q (next x).1)
      → Q (with_ctx g d o size c cp next).1
  unfolding with_ctx
  with_ctx-keeps none cp next q keeps = q
  with_ctx-keeps (some x) cp next q keeps = keeps x

  with_hex-keeps :
      (h : Option Text) (cp : Option HashCheckpoint) (next : Text → Run)
      → Q cp
      → ((x : Text) → Q (next x).1)
      → Q (with_hex g d o size h cp next).1
  unfolding with_hex
  with_hex-keeps none cp next q keeps = q
  with_hex-keeps (some x) cp next q keeps = keeps x

  after_block-keeps :
      (b : Block Ctx) (hs : List Text) (cp : Option HashCheckpoint) (next : Text → ℕ → Run)
      → Q cp
      → ((x : Text) (n : ℕ) → Q (next x n).1)
      → Q (after_block g d o size b hs cp next).1
  unfolding after_block
  after_block-keeps (broke e) hs cp next q keeps = q
  after_block-keeps (stopped n) hs cp next q keeps = written hs n cp q
  after_block-keeps (finished c n) hs cp next q keeps =
      with_hex-keeps (finalize_ctx g c) cp (λ x. next x n) q (λ x. keeps x n)

  checkpointed-keeps :
      (block : ℕ) (hs : List Text) (n : ℕ) (cp : Option HashCheckpoint)
      → Q cp
      → Q (checkpointed g d o size block hs n cp)
  unfolding checkpointed
  checkpointed-keeps block hs n cp q =
      elim (Bool-cases (
        (length hs % at_least_one o.checkpoint_every_blocks) == 0
        || (block + 1) == num_blocks size)) [
          | inl due ↦ rw due (written hs n cp q)
          | inr other ↦ rw other q
        ]

  block_loop-keeps :
      (rounds block : ℕ) (hs : List Text) (n : ℕ) (cp : Option HashCheckpoint)
      → Q cp
      → Q (block_loop g d o size rounds block hs n cp).1
  unfolding block_loop
  block_loop-keeps zero block hs n cp q = q
  block_loop-keeps (suc rounds) block hs n cp q =
      let offset = block * chunk_bytes in
      let len = min chunk_bytes (size - offset) in
      let next = λ (x : Text) (n' : ℕ).
        block_loop g d o size rounds (block + 1) (hs ++ x ∷ []) n'
          (checkpointed g d o size block (hs ++ x ∷ []) n' cp) in
      elim (Bool-cases (d.stop_before block)) [
        | inl stop ↦ rw stop (written hs n cp q)
        | inr go ↦ elim (Bool-cases (d.seeks offset)) [
          | inr broken ↦ rw (go, broken) q
          | inl found ↦
              rw (go, found)
                (with_ctx-keeps (g.init o.algorithm) cp
                  (λ c.
                    after_block g d o size (read_block g d o size len offset len 0 n c) hs cp next)
                  q
                  λ c.
                    after_block-keeps (read_block g d o size len offset len 0 n c) hs cp next q
                      λ x n'.
                        block_loop-keeps rounds (block + 1) (hs ++ x ∷ []) n'
                          (checkpointed g d o size block (hs ++ x ∷ []) n' cp)
                          (checkpointed-keeps block (hs ++ x ∷ []) n' cp q))
        ]
      ]

  -- What holds of the old checkpoint, and stays when one is written, holds of the one that a run leaves.
  pub hash_chunked_resume-keeps : Q o.checkpoint_out → Q (hash_chunked_resume g d o size).1
  unfolding hash_chunked_resume
  hash_chunked_resume-keeps q =
      let s = start_of o size o.checkpoint_out in
      block_loop-keeps (num_blocks size - s.block) s.block s.hashes s.bytes_done o.checkpoint_out q
