-- ===== src/RawHash/Whole/Digest.antt =====
-- What the loops of src/RawDeviceHash.cpp return where they succeed: the digest of the device's bytes.
use Prim.Native.Nat.{min}
use flashsentry.Base.{
  ℕ, zero, suc, ◌+◌, ◌-◌, ◌*◌, ◌%◌, ◌^◌, ◌≤◌, ◌<◌, ◌≡◌, refl, sym, ap, ◌∙◌, true, Option, none,
  some, Text, ℤ, pos, negsuc, ltb, take, arith, Bool-cases, inl, inr, take-length, take-append_drop,
}
use flashsentry.RawHash.{
  Options, HashResult, Digests, DigestLaws, Device, IsFile, ReadAnswer, failed, got, bytes_at,
  finalize_ctx, digest_hex, normalized_buffer_size_kb,
}
use flashsentry.RawHash.Whole.{
  with_final, start_digest, with_read, read_loop, hash_read_loop, mmap_loop, hash_mmap_loop,
  map_bytes,
}

-- The result's hash is the digest of the whole device.
abbrev pub IsWhole : {Ctx : Type 0} → Digests Ctx → Device → Options → ℕ → HashResult → Type 0
IsWhole g d o size r =
    r.success ≡ true
    → (digest_hex g o.algorithm d.content ≡ some r.hash) × (r.bytes_processed ≡ size)

-- The normalized buffer is not empty.
buffer_pos : (kb : ℤ) → 0 < normalized_buffer_size_kb kb * 1024
unfolding normalized_buffer_size_kb
buffer_pos (pos n) = ground arith
buffer_pos (negsuc n) = omega arith

module _ {Ctx : Type 0} (g : Digests Ctx) (laws : DigestLaws g) (d : Device) (o : Options)
    (size : ℕ) (file : IsFile d size) (small : size < 2 ^ 64) where
  -- The context has the first bytes of the device.
  abbrev Has : Ctx → Ctx → ℕ → Type 0
  Has c c' n = c' ≡ (g.update c (take n d.content)).0

  Has-more :
      (c c' : Ctx) (m n : ℕ) → Has c c' m → Has c (g.update c' (bytes_at d.content m n)).0 (m + n)
  Has-more c c' m n h =
      ap (λ x. (g.update x (bytes_at d.content m n)).0) h
      ∙ laws.update_twice c (take m d.content) (bytes_at d.content m n)
      ∙ ap (λ b. (g.update c b).0) (take-append_drop m n d.content)

  with_final-IsWhole :
      (x : Option Text) (n : ℕ)
      → digest_hex g o.algorithm d.content ≡ x
      → n ≡ size
      → IsWhole g d o size (with_final g d o size x n)
  unfolding with_final
  with_final-IsWhole none n e count = λ e'. cc
  with_final-IsWhole (some hex) n e count = λ _. (e, count)

  finished-IsWhole :
      (c c' : Ctx) (n : ℕ)
      → g.init o.algorithm ≡ some c
      → Has c c' n
      → n ≡ size
      → IsWhole g d o size (with_final g d o size (finalize_ctx g c') n)
  unfolding digest_hex
  finished-IsWhole c c' n init has e =
      let all : take n d.content ≡ d.content =
        ap (λ k. take k d.content) (e ∙ sym file.whole) ∙ take-length d.content in
      with_final-IsWhole (finalize_ctx g c') n
        (rw (init, digest_hex) (ap (finalize_ctx g) (sym (has ∙ ap (λ b. (g.update c b).0) all)))) e

  start_digest-IsWhole :
      (c : Option Ctx) (next : Ctx → HashResult)
      → ((x : Ctx) → c ≡ some x → IsWhole g d o size (next x))
      → IsWhole g d o size (start_digest g d o size c next)
  unfolding start_digest
  start_digest-IsWhole none next h = λ e. cc
  start_digest-IsWhole (some x) next h = h x refl

  started : (c : Ctx) → Has c c 0
  started c = sym (laws.update_nothing c)

  with_read-IsWhole :
      (a : ReadAnswer) (c c' : Ctx) (total : ℕ) (next : ℕ → HashResult)
      → g.init o.algorithm ≡ some c
      → Has c c' total
      → (a ≡ got 0 → total ≡ size)
      → ((n : ℕ) → a ≡ got (suc n) → IsWhole g d o size (next (suc n)))
      → IsWhole g d o size (with_read g d o size a c' total next)
  unfolding with_read
  with_read-IsWhole failed c c' total next init has ends more = λ e. cc
  with_read-IsWhole (got zero) c c' total next init has ends more =
      finished-IsWhole c c' total init has (ends refl)
  with_read-IsWhole (got (suc n)) c c' total next init has ends more =
      elim (Bool-cases (d.stop_within total)) [
        | inl stop ↦ rw stop (λ e. cc)
        | inr go ↦ elim (Bool-cases (g.update c' (bytes_at d.content total (suc n))).1) [
          | inl updated ↦ rw (go, updated) (more n refl)
          | inr broken ↦ rw (go, broken) (λ e. cc)
        ]
      ]

  module _ (ends : (i n : ℕ) → 0 < n → d.read i n ≡ got 0 → size ≤ i) where
    read_loop-IsWhole :
        (fuel total : ℕ) (c c' : Ctx)
        → g.init o.algorithm ≡ some c
        → Has c c' total
        → total ≤ size
        → IsWhole g d o size (read_loop g d o size fuel c' total)
    unfolding read_loop
    read_loop-IsWhole zero total c c' init has within = λ e. cc
    read_loop-IsWhole (suc fuel) total c c' init has within =
        let buffer = normalized_buffer_size_kb o.buffer_size_kb * 1024 in
        with_read-IsWhole (d.read total buffer) c c' total
          (λ n.
            read_loop g d o size fuel (g.update c' (bytes_at d.content total n)).0
              ((total + n) % 2 ^ 64))
          init has (λ e. omega (arith, ends total buffer (buffer_pos o.buffer_size_kb) e))
          (λ n e.
            let (fits, inside) = file.read_within total buffer (suc n) e in
            let count : (total + suc n) % 2 ^ 64 ≡ total + suc n = omega arith in
            rw count (
              read_loop-IsWhole fuel (total + suc n) c
                (g.update c' (bytes_at d.content total (suc n))).0 init
                (Has-more c c' total (suc n) has) (omega (arith, inside))))

    -- Where the loop that reads succeeds, its hash is the digest of the device's bytes, and it counted
    -- all of them: however the reads were cut.
    pub hash_read_loop-IsWhole : IsWhole g d o size (hash_read_loop g d o size)
    unfolding hash_read_loop
    hash_read_loop-IsWhole =
        start_digest-IsWhole (g.init o.algorithm) (λ c. read_loop g d o size (suc size) c 0)
          λ c init. read_loop-IsWhole (suc size) 0 c c init (started c) (omega arith)

  mmap_loop-IsWhole :
      (fuel offset : ℕ) (c c' : Ctx)
      → g.init o.algorithm ≡ some c
      → Has c c' offset
      → offset ≤ size
      → size ≤ offset + fuel
      → IsWhole g d o size (mmap_loop g d o size fuel c' offset)
  unfolding mmap_loop
  mmap_loop-IsWhole zero offset c c' init has within enough =
      finished-IsWhole c c' offset init has (omega arith)
  mmap_loop-IsWhole (suc fuel) offset c c' init has within enough =
      let map_size = min (size - offset) map_bytes in
      let rest =
        mmap_loop-IsWhole fuel (offset + map_size) c
          (g.update c' (bytes_at d.content offset map_size)).0 init
          (Has-more c c' offset map_size has) (omega arith) in
      elim (Bool-cases (ltb offset size)) [
        | inr last ↦ rw last (finished-IsWhole c c' offset init has (ground arith))
        | inl more ↦ elim (Bool-cases (d.stop_within offset)) [
          | inl stop ↦ rw (more, stop) (λ e. cc)
          | inr go ↦ elim (Bool-cases (d.maps offset)) [
            | inr broken ↦ rw (more, go, broken) (λ e. cc)
            | inl mapped ↦ elim (Bool-cases (g.update c' (bytes_at d.content offset map_size)).1) [
              | inr broken ↦ rw (more, go, mapped, broken) (λ e. cc)
              | inl updated ↦ rw (more, go, mapped, updated) (rest (ground arith))
            ]
          ]
        ]
      ]

  -- The same of the loop that maps.
  pub hash_mmap_loop-IsWhole : IsWhole g d o size (hash_mmap_loop g d o size)
  unfolding hash_mmap_loop
  hash_mmap_loop-IsWhole = elim (Bool-cases (ltb 0 size)) [
    | inr none_there ↦ rw none_there (λ e. cc)
    | inl some_there ↦ rw some_there (
        start_digest-IsWhole (g.init o.algorithm) (λ c. mmap_loop g d o size size c 0)
          λ c init. mmap_loop-IsWhole size 0 c c init (started c) (omega arith) (omega arith))
  ]
