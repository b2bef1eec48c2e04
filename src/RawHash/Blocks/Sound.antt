-- ===== src/RawHash/Blocks/Sound.antt =====
-- Checkpoints of a device, and the hash of it in blocks (src/RawDeviceHashAdvanced.cpp): what a run
-- leaves, whether it was stopped, failed or came to its end.
use Prim.Native.Nat.{min}
use flashsentry.Base.{
  ℕ, zero, suc, ◌+◌, ◌-◌, ◌*◌, ◌/◌, ◌%◌, ◌^◌, ◌≤◌, ◌<◌, ◌≡◌, refl, sym, ap, ◌∙◌, true, ◌||◌, Option,
  none, some, List, [], ◌∷◌, ◌++◌, Text, Bytes, ◌==◌, take, length, arith, Bool-cases, inl, inr,
}
use flashsentry.HashCheckpoint.{HashCheckpoint}
use flashsentry.RawHash.{
  Options, Algorithm, Digests, DigestLaws, Device, IsFile, chunk_bytes, bytes_at, digest_hex,
  finalize_ctx, at_least_one, combine_block_hashes,
}
use flashsentry.RawHash.Blocks.{
  Run, Block, finished, stopped, broke, num_blocks, write_checkpoint, read_block, with_ctx,
  with_hex, after_block, checkpointed, combined,
}
use flashsentry.RawHash.Blocks.Content.{read_block-finished}

module _ {Ctx : Type 0} (g : Digests Ctx) (content : Bytes) (algorithm : Algorithm) (size : ℕ) where
  -- The digest of the bytes of a block.
  unfoldable pub block_text : ℕ → Option Text
  block_text k =
      digest_hex g algorithm
        (bytes_at content (k * chunk_bytes) (min chunk_bytes (size - k * chunk_bytes)))

  -- The hashes are those of the blocks from a number on.
  abbrev pub Describes : ℕ → List Text → Type 0
  Describes k [] = Unit {0}
  Describes k (h ∷ hs) = (block_text k ≡ some h) × Describes (suc k) hs

  -- The hash of all blocks.
  pub record IsDeviceHash (hash : Text) : Type 0 where
    pub hashes : List Text
    pub each : Describes 0 hashes
    pub all : length hashes ≡ num_blocks size
    pub combines : hash ≡ combine_block_hashes g hashes algorithm

  -- A checkpoint of a device of this size: the first blocks, with no more of them counted.
  pub record IsPart (cp : HashCheckpoint) : Type 0 where
    pub each : Describes 0 cp.block_hashes
    pub counted : cp.bytes_completed / chunk_bytes ≤ length cp.block_hashes
    pub some_done : cp.bytes_completed ≡ 0 → length cp.block_hashes ≡ 0
    pub within : length cp.block_hashes ≤ num_blocks size
    pub bounded : cp.bytes_completed ≤ size

  abbrev pub IsSound : Option HashCheckpoint → Type 0
  IsSound none = Unit {0}
  IsSound (some cp) = cp.device_size ≡ size → IsPart cp

  -- What a run may leave.
  abbrev pub IsGood : Run → Type 0
  IsGood (r, cp) =
      IsSound cp × (r.success ≡ true → IsDeviceHash r.hash × (r.bytes_processed ≡ size))

  pub Describes-snoc :
      (k : ℕ) (hs : List Text) (h : Text)
      → Describes k hs
      → block_text (k + length hs) ≡ some h
      → Describes k (hs ++ h ∷ [])
  Describes-snoc k [] h dhs e = (ap block_text (omega arith) ∙ e, tt)
  Describes-snoc k (x ∷ hs) h (dx, dhs) e =
      (dx, Describes-snoc (suc k) hs h dhs (ap block_text (omega arith) ∙ e))

  pub Describes-take : (n k : ℕ) (hs : List Text) → Describes k hs → Describes k (take n hs)
  Describes-take zero k hs h = tt
  Describes-take (suc n) k [] h = tt
  Describes-take (suc n) k (x ∷ hs) (e, h) = (e, Describes-take n (suc k) hs h)

  Describes-unique :
      (k : ℕ) (hs is : List Text)
      → length hs ≡ length is
      → Describes k hs
      → Describes k is
      → hs ≡ is
  Describes-unique k [] [] e a b = refl
  Describes-unique k [] (i ∷ is) e a b = absurd (omega arith)
  Describes-unique k (h ∷ hs) [] e a b = absurd (omega arith)
  Describes-unique k (h ∷ hs) (i ∷ is) e (own, a) (own', b) =
      let rest = Describes-unique (suc k) hs is (omega arith) a b in cc

  -- A device has one hash.
  pub IsDeviceHash-unique : (h i : Text) → IsDeviceHash h → IsDeviceHash i → h ≡ i
  IsDeviceHash-unique h i a b =
      a.combines
      ∙ ap (λ hs. combine_block_hashes g hs algorithm)
          (Describes-unique 0 a.hashes b.hashes (a.all ∙ sym b.all) a.each b.each)
      ∙ sym b.combines

module _ {Ctx : Type 0} (g : Digests Ctx) (laws : DigestLaws g) (d : Device) (o : Options)
    (size : ℕ) (file : IsFile d size) (small : size + chunk_bytes < 2 ^ 64) where
  pub written-IsSound :
      (hs : List Text) (n : ℕ) (cp : Option HashCheckpoint)
      → Describes g d.content o.algorithm size 0 hs
      → n / chunk_bytes ≤ length hs
      → (n ≡ 0 → length hs ≡ 0)
      → length hs ≤ num_blocks size
      → n ≤ size
      → IsSound g d.content o.algorithm size (write_checkpoint o size hs n cp)
  unfolding write_checkpoint
  written-IsSound hs n none each counted some_done within bounded = tt
  written-IsSound hs n (some cp) each counted some_done within bounded = λ same. record {
    each = each;
    counted = counted;
    some_done = some_done;
    within = within;
    bounded = bounded;
  }

  pub combined-hash :
      (hs : List Text) (n : ℕ)
      → Describes g d.content o.algorithm size 0 hs
      → length hs ≡ num_blocks size
      → n ≡ size
      → IsDeviceHash g d.content o.algorithm size (combined g d o size hs n).hash
        × ((combined g d o size hs n).bytes_processed ≡ size)
  unfolding combined
  combined-hash hs n each all count =
      (record { hashes = hs; each = each; all = all; combines = refl }, count)

  pub with_ctx-IsGood :
      (c : Option Ctx) (cp : Option HashCheckpoint) (next : Ctx → Run)
      → IsSound g d.content o.algorithm size cp
      → ((x : Ctx) → c ≡ some x → IsGood g d.content o.algorithm size (next x))
      → IsGood g d.content o.algorithm size (with_ctx g d o size c cp next)
  unfolding with_ctx
  with_ctx-IsGood none cp next sound good = (sound, λ e. cc)
  with_ctx-IsGood (some x) cp next sound good = good x refl

  with_hex-IsGood :
      (h : Option Text) (cp : Option HashCheckpoint) (next : Text → Run)
      → IsSound g d.content o.algorithm size cp
      → ((x : Text) → h ≡ some x → IsGood g d.content o.algorithm size (next x))
      → IsGood g d.content o.algorithm size (with_hex g d o size h cp next)
  unfolding with_hex
  with_hex-IsGood none cp next sound good = (sound, λ e. cc)
  with_hex-IsGood (some x) cp next sound good = good x refl

  pub after_block-IsGood :
      (b : Block Ctx) (hs : List Text) (cp : Option HashCheckpoint) (next : Text → ℕ → Run)
      → IsSound g d.content o.algorithm size cp
      → ((n : ℕ)
          → b ≡ stopped n
          → IsSound g d.content o.algorithm size (write_checkpoint o size hs n cp))
      → ((c : Ctx) (n : ℕ) (x : Text)
          → b ≡ finished c n
          → finalize_ctx g c ≡ some x
          → IsGood g d.content o.algorithm size (next x n))
      → IsGood g d.content o.algorithm size (after_block g d o size b hs cp next)
  unfolding after_block
  after_block-IsGood (broke e) hs cp next sound stops good = (sound, λ e'. cc)
  after_block-IsGood (stopped n) hs cp next sound stops good = (stops n refl, λ e'. cc)
  after_block-IsGood (finished c n) hs cp next sound stops good =
      with_hex-IsGood (finalize_ctx g c) cp (λ x. next x n) sound (λ x e. good c n x refl e)

  pub checkpointed-IsSound :
      (block : ℕ) (hs : List Text) (n : ℕ) (cp : Option HashCheckpoint)
      → IsSound g d.content o.algorithm size cp
      → IsSound g d.content o.algorithm size (write_checkpoint o size hs n cp)
      → IsSound g d.content o.algorithm size (checkpointed g d o size block hs n cp)
  unfolding checkpointed
  checkpointed-IsSound block hs n cp sound written =
      elim (Bool-cases (
        (length hs % at_least_one o.checkpoint_every_blocks) == 0
        || (block + 1) == num_blocks size)) [
          | inl due ↦ rw due written
          | inr other ↦ rw other sound
        ]

  -- The digest of a block, as the loop in it leaves it.
  pub block-hashed :
      (block n : ℕ) (c c' : Ctx) (n' : ℕ) (x : Text)
      → g.init o.algorithm ≡ some c
      → n < 2 ^ 64
      → read_block g d o size
          (min chunk_bytes (size - block * chunk_bytes))
          (block * chunk_bytes)
          (min chunk_bytes (size - block * chunk_bytes))
          0
          n
          c
        ≡ finished c' n'
      → finalize_ctx g c' ≡ some x
      → (block_text g d.content o.algorithm size block ≡ some x)
        × (n' ≡ (n + min chunk_bytes (size - block * chunk_bytes)) % 2 ^ 64)
  unfolding block_text digest_hex
  block-hashed block n c c' n' x init small' e hex =
      let len = min chunk_bytes (size - block * chunk_bytes) in
      let (ctx, count) =
        read_block-finished g laws d o size file len (block * chunk_bytes) len 0 n c c' n'
          (omega arith) (omega arith) small' e in
      let at_start : c' ≡ (g.update c (bytes_at d.content (block * chunk_bytes) len)).0 =
        ctx
        ∙ ap (λ i. (g.update c (bytes_at d.content i (len - 0))).0) (omega arith)
        ∙ ap (λ m. (g.update c (bytes_at d.content (block * chunk_bytes) m)).0) (omega arith) in
      (rw (init, digest_hex) (ap (finalize_ctx g) (sym at_start) ∙ hex), omega arith)
