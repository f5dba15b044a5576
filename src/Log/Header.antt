-- ===== src/Log/Header.antt =====
-- kernel/filesystem/log.c: what `write_head` writes, `read_head` reads back.
use os2025_yyds.Common.{
  ℕ, ◌+◌, ◌*◌, ◌^◌, ◌≤◌, ◌<◌, ◌≡◌, refl, ◌∙◌, ap, inl, true, List, [], ◌∷◌, arith, ltb, length, All,
}
use os2025_yyds.Fs.{Block, load, store}
use os2025_yyds.Fs.Bits.{load-store, load-store_other}
use os2025_yyds.Log.{logsize, words_from, words_to, header_read, header_write}

-- Block numbers are 32 bits wide.
abbrev pub IsWord : ℕ → Type 0
IsWord b = b < 2 ^ 32

words_to-below :
    (bs : List ℕ) (i k : ℕ) (f : Block)
    → k < i
    → load 32 (32 * k) (words_to bs i f) ≡ load 32 (32 * k) f
unfolding words_to
words_to-below [] i k f lt = refl
words_to-below (b ∷ bs) i k f lt =
    words_to-below bs (i + 1) k (store 32 (32 * i) b f) (omega (arith, lt))
    ∙ load-store_other 32 (32 * k) 32 (32 * i) b f (inl (omega (arith, lt)))

words_from-to :
    (bs : List ℕ) (i : ℕ) (f : Block)
    → All IsWord bs
    → words_from (length bs) i (words_to bs i f) ≡ bs
unfolding words_from words_to
words_from-to [] i f w = refl
words_from-to (b ∷ bs) i f w =
    let first : load 32 (32 * i) (words_to bs (i + 1) (store 32 (32 * i) b f)) ≡ b =
      words_to-below bs (i + 1) i (store 32 (32 * i) b f) (omega arith)
      ∙ load-store 32 (32 * i) b f w.0 in
    let rest = words_from-to bs (i + 1) (store 32 (32 * i) b f) w.1 in
    ap (λ x. x ∷ words_from (length bs) (i + 1) (words_to bs (i + 1) (store 32 (32 * i) b f))) first
    ∙ ap (λ l. b ∷ l) rest

pub header_read-write :
    (bs : List ℕ) (f : Block)
    → length bs ≤ logsize
    → All IsWord bs
    → header_read (header_write bs f) ≡ bs
unfolding header_read header_write
header_read-write bs f small w =
    let n : load 32 0 (words_to bs 1 (store 32 0 (length bs) f)) ≡ length bs =
      words_to-below bs 1 0 (store 32 0 (length bs) f) (omega arith)
      ∙ load-store 32 0 (length bs) f (omega (arith, small)) in
    let low : ltb (length bs) (2 ^ 31) ≡ true = ground (arith, small) in
    rw (n, low) (words_from-to bs 1 (store 32 0 (length bs) f) w)
