-- ===== src/RawHash/Blocks/Content.antt =====
-- What the loop in a block of src/RawDeviceHashAdvanced.cpp leaves: the digest of the block's bytes,
-- however the reads came.
use Prim.Native.Nat.{min}
use flashsentry.Base.{
  ℕ, zero, suc, ◌+◌, ◌-◌, ◌%◌, ◌^◌, ◌≤◌, ◌<◌, ◌≡◌, refl, sym, ap, ◌∙◌, ◌++◌, ltb, take, drop, arith,
  Bool-cases, inl, inr, take-append_drop, drop-drop,
}
use flashsentry.RawHash.{
  Options, Digests, DigestLaws, Device, IsFile, ReadAnswer, failed, got, bytes_at,
}
use flashsentry.RawHash.Blocks.{
  Block, finished, stopped, after_read, read_block, buffer_bytes, buffer_length,
}

-- What a read that lets the loop go on returned.
after_read-finished :
    {Ctx : Type 0} (g : Digests Ctx) (d : Device) (o : Options) (size : ℕ)
    → (a : ReadAnswer) (next : ℕ → Block Ctx) (c : Ctx) (n : ℕ)
    → after_read g d o size a next ≡ finished c n
    → (k : ℕ) × (a ≡ got (suc k)) × (next (suc k) ≡ finished c n)
unfolding after_read
after_read-finished g d o size failed next c n h = cc
after_read-finished g d o size (got zero) next c n h = cc
after_read-finished g d o size (got (suc k)) next c n h = (k, refl, h)

after_read-stopped :
    {Ctx : Type 0} (g : Digests Ctx) (d : Device) (o : Options) (size : ℕ)
    → (a : ReadAnswer) (next : ℕ → Block Ctx) (n : ℕ) → after_read g d o size a next ≡ stopped n
    → (k : ℕ) × (a ≡ got (suc k)) × (next (suc k) ≡ stopped n)
unfolding after_read
after_read-stopped g d o size failed next n h = cc
after_read-stopped g d o size (got zero) next n h = cc
after_read-stopped g d o size (got (suc k)) next n h = (k, refl, h)

module _ {Ctx : Type 0} (g : Digests Ctx) (laws : DigestLaws g) (d : Device) (o : Options)
    (size : ℕ) (file : IsFile d size) where
  -- The bytes of two reads, one behind the other.
  update-reads :
      (c : Ctx) (i m n : ℕ)
      → (g.update (g.update c (bytes_at d.content i m)).0 (bytes_at d.content (i + m) n)).0
        ≡ (g.update c (bytes_at d.content i (m + n))).0
  update-reads c i m n =
      laws.update_twice c (bytes_at d.content i m) (bytes_at d.content (i + m) n)
      ∙ ap (λ b. (g.update c b).0)
          (ap (λ b. bytes_at d.content i m ++ take n b) (sym (drop-drop i m d.content))
            ∙ take-append_drop m n (drop i d.content))

  update-none : (c : Ctx) (i n : ℕ) → n ≡ 0 → c ≡ (g.update c (bytes_at d.content i n)).0
  update-none c i n e = rw e (sym (laws.update_nothing c))

  -- Nothing of the block is left.
  at_end :
      (offset len r n : ℕ) (c c' : Ctx) (n' : ℕ)
      → r ≤ len
      → len ≤ r
      → n < 2 ^ 64
      → finished c n ≡ finished c' n'
      → (c' ≡ (g.update c (bytes_at d.content (offset + r) (len - r))).0)
        × (n' ≡ (n + (len - r)) % 2 ^ 64)
  at_end offset len r n c c' n' le ge small e =
      let same : n ≡ n' = cc in
      let ctx : c' ≡ c = cc in
      (ctx ∙ update-none c (offset + r) (len - r) (omega arith), omega arith)

  -- A loop that ends by its test has updated the context with the rest of the block, and counted it.
  pub read_block-finished :
      (fuel offset len r n : ℕ) (c c' : Ctx) (n' : ℕ)
      → r ≤ len
      → len ≤ r + fuel
      → n < 2 ^ 64
      → read_block g d o size fuel offset len r n c ≡ finished c' n'
      → (c' ≡ (g.update c (bytes_at d.content (offset + r) (len - r))).0)
        × (n' ≡ (n + (len - r)) % 2 ^ 64)
  unfolding read_block
  read_block-finished zero offset len r n c c' n' rl lf small e =
      at_end offset len r n c c' n' rl (omega arith) small e
  read_block-finished (suc fuel) offset len r n c c' n' rl lf small e =
      elim (Bool-cases (ltb r len)) [
        | inr last ↦ at_end offset len r n c c' n' rl (ground arith) small (rw (last) at e)
        | inl more ↦ elim (Bool-cases (d.stop_within (offset + r))) [
          | inl stop ↦ cc (rw (more, stop) at e)
          | inr go ↦ elim (Bool-cases (ltb (buffer_length o) (min (buffer_bytes o) (len - r)))) [
            | inl over ↦ cc (rw (more, go, over) at e)
            | inr room ↦
                let i = offset + r in
                let (k, read, e') =
                  after_read-finished g d o size (d.read i (min (buffer_bytes o) (len - r)))
                    (λ m.
                      read_block g d o size fuel offset len (r + m) ((n + m) % 2 ^ 64)
                        (g.update c (bytes_at d.content i m)).0)
                    c' n' (rw (more, go, room) at e) in
                let (fits, within) =
                  file.read_within i (min (buffer_bytes o) (len - r)) (suc k) read in
                let (ctx, count) =
                  read_block-finished fuel offset len (r + suc k) ((n + suc k) % 2 ^ 64)
                    (g.update c (bytes_at d.content i (suc k))).0 c' n' (omega arith) (omega arith)
                    (omega arith) e' in
                (
                  ctx
                      ∙ ap
                          (λ x.
                            (g.update (g.update c (bytes_at d.content i (suc k))).0
                              (bytes_at d.content x (len - (r + suc k)))).0)
                          (omega arith)
                      ∙ update-reads c i (suc k) (len - (r + suc k))
                      ∙ ap (λ x. (g.update c (bytes_at d.content i x)).0) (omega arith),
                  omega arith,
                )
          ]
        ]
      ]

  -- A loop that was stopped has counted a part of the block, and not all of it.
  pub read_block-stopped :
      (fuel offset len r n : ℕ) (c : Ctx) (n' : ℕ)
      → len ≤ r + fuel
      → n < 2 ^ 64
      → read_block g d o size fuel offset len r n c ≡ stopped n'
      → (m : ℕ) × (r + m < len) × (n' ≡ (n + m) % 2 ^ 64)
  unfolding read_block
  read_block-stopped zero offset len r n c n' lf small e = cc
  read_block-stopped (suc fuel) offset len r n c n' lf small e = elim (Bool-cases (ltb r len)) [
    | inr last ↦ cc (rw (last) at e)
    | inl more ↦ elim (Bool-cases (d.stop_within (offset + r))) [
      | inl stop ↦
          let e' : ◌≡◌ {A = Block Ctx} (stopped n) (stopped n') = rw (more, stop) at e in
          let same : n ≡ n' = cc in (0, ground arith, omega arith)
      | inr go ↦ elim (Bool-cases (ltb (buffer_length o) (min (buffer_bytes o) (len - r)))) [
        | inl over ↦ cc (rw (more, go, over) at e)
        | inr room ↦
            let i = offset + r in
            let (k, read, e') =
              after_read-stopped g d o size (d.read i (min (buffer_bytes o) (len - r)))
                (λ m.
                  read_block g d o size fuel offset len (r + m) ((n + m) % 2 ^ 64)
                    (g.update c (bytes_at d.content i m)).0)
                n' (rw (more, go, room) at e) in
            let (m, short, count) =
              read_block-stopped fuel offset len (r + suc k) ((n + suc k) % 2 ^ 64)
                (g.update c (bytes_at d.content i (suc k))).0 n' (omega arith) (omega arith) e' in
            (suc k + m, omega arith, omega arith)
      ]
    ]
  ]
