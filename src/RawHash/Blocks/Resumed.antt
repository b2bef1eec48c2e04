-- ===== src/RawHash/Blocks/Resumed.antt =====
-- The hash of a device in blocks (src/RawDeviceHashAdvanced.cpp), from its start or from a checkpoint.
use Prim.Native.Nat.{min}
use flashsentry.Base.{
  ℕ, zero, suc, ◌+◌, ◌-◌, ◌*◌, ◌/◌, ◌^◌, ◌≤◌, ◌<◌, ◌≡◌, refl, sym, ap, ◌∙◌, true, Option, none,
  some, List, [], ◌∷◌, ◌++◌, Text, ltb, length, arith, Bool-cases, inl, inr, length-append,
  length-take, subst,
}
use flashsentry.HashCheckpoint.{HashCheckpoint, is_valid}
use flashsentry.RawHash.{Options, Digests, DigestLaws, Device, IsFile, chunk_bytes}
use flashsentry.RawHash.Blocks.{
  num_blocks, Start, start_of, resumed, fits, checkpointed, block_loop, read_block, after_block,
  hash_chunked_resume,
}
use flashsentry.RawHash.Blocks.Content.{read_block-stopped}
use flashsentry.RawHash.Blocks.Sound.{
  block_text, Describes, IsPart, IsSound, IsGood, Describes-snoc, Describes-take, written-IsSound,
  combined-hash, with_ctx-IsGood, after_block-IsGood, checkpointed-IsSound, block-hashed,
}

pub block_inside :
    (size block : ℕ)
    → size + chunk_bytes < 2 ^ 64
    → block < num_blocks size
    → block * chunk_bytes < size
block_inside size block small h = omega arith

all_inside :
    (size : ℕ) → size + chunk_bytes < 2 ^ 64 → min (num_blocks size * chunk_bytes) size ≡ size
all_inside size small = omega arith

-- `resumeFromBytes` is what a valid checkpoint has completed, as `HashWorker::executeHash` sets it.
abbrev pub Resumes : Option HashCheckpoint → ℕ → Type 0
Resumes none n = Unit {0}
Resumes (some cp) n = is_valid cp ≡ true → n ≡ cp.bytes_completed

module _ {Ctx : Type 0} (g : Digests Ctx) (laws : DigestLaws g) (d : Device) (o : Options)
    (size : ℕ) (file : IsFile d size) (small : size + chunk_bytes < 2 ^ 64) where
  -- The loop from a block on, whose hashes so far are those of the blocks before it.
  block_loop-IsGood :
      (rounds block : ℕ) (hs : List Text) (n : ℕ) (cp : Option HashCheckpoint)
      → block + rounds ≡ num_blocks size
      → Describes g d.content o.algorithm size 0 hs
      → length hs ≡ block
      → n ≡ min (block * chunk_bytes) size
      → IsSound g d.content o.algorithm size cp
      → IsGood g d.content o.algorithm size (block_loop g d o size rounds block hs n cp)
  unfolding block_loop
  block_loop-IsGood zero block hs n cp all each known count sound = (
    sound,
    λ _.
        combined-hash g laws d o size file small hs n each (omega arith)
          (omega (arith, all_inside size small)),
  )
  block_loop-IsGood (suc rounds) block hs n cp all each known count sound =
      let inside : block * chunk_bytes < size = block_inside size block small (omega arith) in
      let offset = block * chunk_bytes in
      let len = min chunk_bytes (size - offset) in
      let next = λ (x : Text) (n' : ℕ).
        block_loop g d o size rounds (block + 1) (hs ++ x ∷ []) n'
          (checkpointed g d o size block (hs ++ x ∷ []) n' cp) in
      let written = written-IsSound g laws d o size file small hs in
      elim (Bool-cases (d.stop_before block)) [
        | inl stop ↦ rw stop (
          written n cp each (omega arith) (λ e. omega arith) (omega arith) (omega arith),
          λ e. cc,
        )
        | inr go ↦ elim (Bool-cases (d.seeks (block * chunk_bytes))) [
          | inr broken ↦ rw (go, broken) (sound, λ e. cc)
          | inl found ↦
              rw (go, found)
                (with_ctx-IsGood g laws d o size file small (g.init o.algorithm) cp
                  (λ c.
                    after_block g d o size (read_block g d o size len offset len 0 n c) hs cp next)
                  sound
                  λ c init.
                    after_block-IsGood g laws d o size file small
                      (read_block g d o size len offset len 0 n c) hs cp next sound
                      (λ n' e.
                        let (m, short, counted) =
                          read_block-stopped g laws d o size file len offset len 0 n c n'
                            (omega arith) (omega arith) e in
                        written n' cp each (omega arith) (λ z. omega arith) (omega arith)
                          (omega arith))
                      (λ c' n' x e hex.
                        let (own, counted) =
                          block-hashed g laws d o size file small block n c c' n' x init
                            (omega arith) e hex in
                        let hs' = hs ++ x ∷ [] in
                        let longer : length hs' ≡ block + 1 =
                          omega (arith, length-append hs (x ∷ [])) in
                        let each' =
                          Describes-snoc g d.content o.algorithm size 0 hs x each
                            (ap (block_text g d.content o.algorithm size) (omega arith) ∙ own) in
                        block_loop-IsGood rounds (block + 1) hs' n'
                          (checkpointed g d o size block hs' n' cp) (omega arith) each' longer
                          (omega arith)
                          (checkpointed-IsSound g laws d o size file small block hs' n' cp sound (
                            written-IsSound g laws d o size file small hs' n' cp each' (omega arith)
                              (λ z. omega arith) (omega arith) (omega arith)))))
        ]
      ]

  -- Where a run begins: at the first block, or behind those that a sound checkpoint has.
  pub record Begins (s : Start) : Type 0 where
    pub each : Describes g d.content o.algorithm size 0 s.hashes
    pub as_many : length s.hashes ≡ s.block
    pub within : s.block ≤ num_blocks size
    pub count : s.bytes_done ≡ min (s.block * chunk_bytes) size

  resumed-Begins :
      (cp : HashCheckpoint)
      → IsPart g d.content o.algorithm size cp
      → Begins (resumed cp.bytes_completed cp)
  unfolding resumed
  resumed-Begins cp part = elim (Bool-cases (ltb 0 cp.bytes_completed)) [
    | inl some_done ↦ rw some_done (record {
      each =
          Describes-take g d.content o.algorithm size (cp.bytes_completed / chunk_bytes) 0
            cp.block_hashes part.each;
      as_many =
          length-take (cp.bytes_completed / chunk_bytes) cp.block_hashes
          ∙ omega (arith, part.counted);
      within = omega (arith, part.counted, part.within);
      count = omega (arith, part.bounded);
    })
    | inr nothing ↦
        let zero_done : cp.bytes_completed ≡ 0 = ground arith in
        rw nothing (record {
          each = part.each;
          as_many = refl;
          within = part.within;
          count = omega (arith, part.some_done zero_done);
        })
  ]

  pub start_of-Begins :
      (cp : Option HashCheckpoint)
      → IsSound g d.content o.algorithm size cp
      → Resumes cp o.resume_from_bytes
      → Begins (start_of o size cp)
  unfolding start_of fits
  start_of-Begins none sound at = record {
    each = tt;
    as_many = refl;
    within = omega arith;
    count = omega arith;
  }
  start_of-Begins (some cp) sound at = elim (Bool-cases (fits size cp)) [
    | inl same ↦
        let known : (is_valid cp ≡ true) × (cp.device_size ≡ size) = ground arith in
        rw same (
          subst (λ n. Begins (resumed n cp)) (sym (at known.0)) (resumed-Begins cp (sound known.1)))
    | inr other ↦
        rw other (record { each = tt; as_many = refl; within = omega arith; count = omega arith })
  ]

  -- A run that starts anew, or from a sound checkpoint at what it has completed, leaves a sound
  -- checkpoint, and if it succeeds its hash is that of the blocks of the device and it counted all of
  -- them, where reads return bytes of the device, and its size and a block fit 64 bits: however the
  -- reads were cut, and whether earlier runs were stopped or not.
  pub hash_chunked_resume-IsGood :
      IsSound g d.content o.algorithm size o.checkpoint_out
      → Resumes o.checkpoint_out o.resume_from_bytes
      → IsGood g d.content o.algorithm size (hash_chunked_resume g d o size)
  unfolding hash_chunked_resume
  hash_chunked_resume-IsGood sound at =
      let s = start_of o size o.checkpoint_out in
      let b = start_of-Begins o.checkpoint_out sound at in
      block_loop-IsGood (num_blocks size - s.block) s.block s.hashes s.bytes_done o.checkpoint_out
        (omega (arith, b.within)) b.each b.as_many b.count sound
