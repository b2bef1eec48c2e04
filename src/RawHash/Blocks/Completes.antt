-- ===== src/RawHash/Blocks/Completes.antt =====
-- When the hash of a device in blocks comes to its end (src/RawDeviceHashAdvanced.cpp).
use Prim.Native.Nat.{min}
use flashsentry.Base.{
  to_int32, ℕ, zero, suc, ◌+◌, ◌-◌, ◌*◌, ◌/◌, ◌%◌, ◌^◌, ◌≤◌, ◌<◌, ◌≡◌, refl, true, false, Option,
  some, List, [], ◌∷◌, ◌++◌, Text, Bytes, ltb, arith, Bool-cases, inl, inr, is_empty,
}
use flashsentry.HashCheckpoint.{HashCheckpoint}
use flashsentry.RawHash.{
  Options, Digests, DigestLaws, Device, IsFile, got, chunk_bytes, bytes_at, finalize_ctx,
  digest_to_hex, hex_digit, combine_block_hashes, update_all,
}
use flashsentry.RawHash.Blocks.{
  finished, num_blocks, start_of, checkpointed, after_read, buffer_bytes, buffer_length, with_ctx,
  after_block, block_loop, read_block, combined, hash_chunked_resume,
}
use flashsentry.RawHash.Blocks.Sound.{IsDeviceHash, IsSound}
use flashsentry.RawHash.Blocks.Resumed.{
  Resumes, start_of-Begins, hash_chunked_resume-IsGood, block_inside,
}

-- Nothing stops the run: a read of a byte or more inside the device returns one or more, every block is
-- found, and nobody cancels.
pub record IsOpen (d : Device) (size : ℕ) : Type 0 where
  pub reads : (i n : ℕ) → 0 < n → i < size → (k : ℕ) × (d.read i n ≡ got (suc k))
  pub finds : (i : ℕ) → d.seeks i ≡ true
  pub goes : (k : ℕ) → d.stop_before k ≡ false
  pub goes_on : (i : ℕ) → d.stop_within i ≡ false

-- OpenSSL starts and ends each digest, which has a byte at least.
pub record Digesting {Ctx : Type 0} (g : Digests Ctx) (o : Options) : Type 0 where
  pub starts : (c : Ctx) × (g.init o.algorithm ≡ some c)
  pub ends : (c : Ctx) → (b : ℕ) × (bs : Bytes) × (g.final c ≡ some (b ∷ bs))

module _ {Ctx : Type 0} (g : Digests Ctx) (d : Device) (o : Options) (size : ℕ)
    (file : IsFile d size) (small : size + chunk_bytes < 2 ^ 64) (open_device : IsOpen d size)
    (digesting : Digesting g o) (buffer : 0 < buffer_bytes o) (fits : buffer_bytes o < 2 ^ 31) where
  -- No read is longer than the buffer.
  buffer-fits : (n : ℕ) → ltb (buffer_length o) (min (buffer_bytes o) n) ≡ false
  unfolding buffer_length to_int32
  buffer-fits n = ground arith

  read_block-ends :
      (fuel offset len r n : ℕ) (c : Ctx)
      → offset + len ≤ size
      → len ≤ r + fuel
      → (c' : Ctx) × (n' : ℕ) × (read_block g d o size fuel offset len r n c ≡ finished c' n')
  unfolding read_block after_read
  read_block-ends zero offset len r n c inside lf = (c, n, refl)
  read_block-ends (suc fuel) offset len r n c inside lf = elim (Bool-cases (ltb r len)) [
    | inr last ↦ (c, n, rw last)
    | inl more ↦
        let i = offset + r in
        let (k, read) =
          open_device.reads i (min (buffer_bytes o) (len - r)) (ground arith) (ground arith) in
        let (c', n', rest) =
          read_block-ends fuel offset len (r + suc k) ((n + suc k) % 2 ^ 64)
            (g.update c (bytes_at d.content i (suc k))).0 inside (omega arith) in
        (c', n', rw (more, open_device.goes_on i, buffer-fits (len - r), read) rest)
  ]

  finalize_ctx-some : (c : Ctx) → (x : ℕ) × (xs : Text) × (finalize_ctx g c ≡ some (x ∷ xs))
  unfolding finalize_ctx digest_to_hex
  finalize_ctx-some c =
      let (b, bs, e) = digesting.ends c in
      (hex_digit (b / 16), hex_digit (b % 16) ∷ digest_to_hex bs, rw (e, finalize_ctx))

  combined-success : (hs : List Text) (n : ℕ) → (combined g d o size hs n).success ≡ true
  unfolding combined combine_block_hashes is_empty
  combined-success hs n =
      let (c, start) = digesting.starts in
      let (x, xs, e) = finalize_ctx-some (update_all g c hs) in
      rw (start, combine_block_hashes) (rw (e, is_empty))

  block_loop-success :
      (rounds block : ℕ) (hs : List Text) (n : ℕ) (cp : Option HashCheckpoint)
      → block + rounds ≤ num_blocks size
      → (block_loop g d o size rounds block hs n cp).0.success ≡ true
  unfolding block_loop with_ctx after_block
  block_loop-success zero block hs n cp all = combined-success hs n
  block_loop-success (suc rounds) block hs n cp all =
      let offset = block * chunk_bytes in
      let len = min chunk_bytes (size - offset) in
      let inside : offset < size = block_inside size block small (omega arith) in
      let (c, start) = digesting.starts in
      let (c', n', hashed) = read_block-ends len offset len 0 n c (omega arith) (omega arith) in
      let (x, xs, hex) = finalize_ctx-some c' in
      rw (open_device.goes block, open_device.finds offset, start, hashed, hex)
        (block_loop-success rounds (block + 1) (hs ++ (x ∷ xs) ∷ []) n'
          (checkpointed g d o size block (hs ++ (x ∷ xs) ∷ []) n' cp) (omega arith))

  -- A run that starts anew, or from a sound checkpoint at what it has completed, succeeds, its hash is
  -- that of the device's blocks, and it counted all bytes: where reads return bytes of the device, at
  -- least one where some are left, nothing stops the run, no block is out of reach, the digests work,
  -- the buffer has at least one byte and less than 2 ^ 31, and the size and a block fit 64 bits.
  pub hash_chunked_resume-completes :
      (laws : DigestLaws g)
      → IsSound g d.content o.algorithm size o.checkpoint_out
      → Resumes o.checkpoint_out o.resume_from_bytes
      → ((hash_chunked_resume g d o size).0.success ≡ true)
        × IsDeviceHash g d.content o.algorithm size (hash_chunked_resume g d o size).0.hash
        × ((hash_chunked_resume g d o size).0.bytes_processed ≡ size)
  unfolding hash_chunked_resume
  hash_chunked_resume-completes laws sound at =
      let s = start_of o size o.checkpoint_out in
      let b = start_of-Begins g laws d o size file small o.checkpoint_out sound at in
      let success =
        block_loop-success (num_blocks size - s.block) s.block s.hashes s.bytes_done
          o.checkpoint_out (omega (arith, b.within)) in
      let (hash, count) =
        (hash_chunked_resume-IsGood g laws d o size file small sound at).1 success in
      (success, hash, count)
