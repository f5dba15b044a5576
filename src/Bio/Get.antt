-- ===== src/Bio/Get.antt =====
-- kernel/filesystem/bio.c: `bget` in a cache whose buffers are where they belong.
use os2025_yyds.Common.{
  ℕ, zero, suc, ◌+◌, ◌-◌, ◌%◌, ◌^◌, ◌≤◌, ◌<◌, ◌≡◌, refl, sym, subst, ◌∙◌, ◌≢◌, ◌⊎◌, inl, inr, true,
  false, List, [], arith, ltb, ◌==◌, if◌then◌else◌, total, count, done, panic, Bool-cases, ==_refl,
  ne→==, ℕ_discrete,
}
use os2025_yyds.Bio.{
  Buf, Bcache, nbuf, nbucket, hash, holds, link_bufs, binit, touch, recycle, bget,
}
use os2025_yyds.Bio.Search.{Hit, search_bucket-cases, find_unused-cases, Best}
use os2025_yyds.Bio.Invariant.{IsBcache, in_bucket, is_buffer, set_buf-IsBcache, recycle-IsBcache}

count-link_bufs : (b n : ℕ) → count b (link_bufs n []) ≡ (if ltb b n then 1 else 0)
unfolding link_bufs
count-link_bufs b zero = ground arith
count-link_bufs b (suc n) = ground (arith, count-link_bufs b n)

total-first :
    (b n : ℕ) (l : List ℕ) → total (count b) (suc n) (λ i. if i == 0 then l else []) ≡ count b l
unfolding total
total-first b zero l = omega arith
total-first b (suc n) l = ground (arith, total-first b n l)

slot : (i j : ℕ) → i < nbucket → j < nbucket → (i + (j + nbucket - i) % nbucket) % nbucket ≡ j
slot i j li lj = omega arith

slot_low : (i j : ℕ) → (j + nbucket - i) % nbucket < nbucket
slot_low i j = omega arith

module _ {B : Type 0} where
  pub binit-IsBcache : (zeroes : B) (disk : ℕ → ℕ → B) → IsBcache (binit zeroes disk)
  unfolding binit
  binit-IsBcache zeroes disk = record {
    placed = λ b. first b;
    hashed = λ b i low on. elim (ℕ_discrete 0 i) [
      | yes e ↦ e
      | no apart ↦ absurd (on (rw (ne→== i 0 (λ e. apart (sym e))) refl))
    ];
    unique = λ a b la lb ne dev block. absurd (ne refl);
  }
    where
      first :
          (b : ℕ)
          → total (count b) nbucket (λ i. if i == 0 then link_bufs nbuf [] else [])
            ≡ (if ltb b nbuf then 1 else 0)
      first b = total-first b 12 (link_bufs nbuf []) ∙ count-link_bufs b nbuf

  holds-blockno : (dev blockno : ℕ) (b : Buf B) → holds dev blockno b ≡ true → b.blockno ≡ blockno
  holds-blockno dev blockno b h = ground (arith, h)

  -- What the search of one bucket misses is in no buffer.
  not_cached :
      (dev blockno : ℕ) (s : Bcache B)
      → IsBcache s
      → ((b : ℕ) → count b (s.buckets (hash blockno)) ≢ 0 → holds dev blockno (s.bufs b) ≡ false)
      → (b : ℕ) → b < nbuf
      → holds dev blockno (s.bufs b) ≡ false
  not_cached dev blockno s v never b lt = elim (Bool-cases (holds dev blockno (s.bufs b))) [
    | inr e ↦ e
    | inl e ↦ never b (
        subst (λ k. count b (s.buckets (hash k)) ≢ 0) (holds-blockno dev blockno (s.bufs b) e)
          (in_bucket s b v lt))
  ]

  -- Which buffer `bget` returns, and what it did to it.
  pub record Got (now dev blockno : ℕ) (s : Bcache B) (b : ℕ) (t : Bcache B) : Type 0 where
    pub buffer : b < nbuf
    pub valid_state : IsBcache t
    pub others : (c : ℕ) → b ≢ c → t.bufs c ≡ s.bufs c
    pub same_disk : t.disk ≡ s.disk
    pub how :
        ((holds dev blockno (s.bufs b) ≡ true)
          × (t.bufs b
              ≡ record (s.bufs b) { refcnt = ((s.bufs b).refcnt + 1) % 2 ^ 32; timestamp = now }))
        ⊎ (((c : ℕ) → c < nbuf → holds dev blockno (s.bufs c) ≡ false)
            × ((s.bufs b).refcnt ≡ 0)
            × ((c : ℕ)
                → c < nbuf
                → hash (s.bufs c).blockno ≡ hash (s.bufs b).blockno
                → (s.bufs c).refcnt ≡ 0
                → (s.bufs b).timestamp ≤ (s.bufs c).timestamp)
            × (t.bufs b ≡ record {
              valid = false;
              dev = dev;
              blockno = blockno;
              refcnt = 1;
              timestamp = now;
              content = (s.bufs b).content;
            }))

  touch-Got :
      (now dev blockno b : ℕ) (s : Bcache B)
      → IsBcache s
      → Hit s.bufs dev blockno (s.buckets (hash blockno)) b
      → Got now dev blockno s b (touch now b s)
  unfolding touch
  touch-Got now dev blockno b s v h = record {
    buffer = is_buffer s b (hash blockno) v (omega arith) h.on_list;
    valid_state = set_buf-IsBcache s b _ refl refl v;
    others = λ c apart. rw (ne→== b c apart) refl;
    same_disk = refl;
    how = inl (h.it, rw (==_refl b) refl);
  }

  recycle-Got :
      (now dev blockno i b : ℕ) (s : Bcache B)
      → IsBcache s
      → i < nbucket
      → Best s.bufs (s.buckets i) b
      → ((c : ℕ) → c < nbuf → holds dev blockno (s.bufs c) ≡ false)
      → Got now dev blockno s b (recycle now dev blockno i b s)
  unfolding recycle
  recycle-Got now dev blockno i b s v low best fresh = record {
    buffer = is_buffer s b i v low best.on_list;
    valid_state = recycle-IsBcache now dev blockno i b s low best.on_list fresh v;
    others = λ c apart. rw (ne→== b c apart) refl;
    same_disk = refl;
    how = inr (
      fresh,
      best.unused,
      λ c lt same free.
          best.oldest c
            (subst (λ k. count c (s.buckets k) ≢ 0) (same ∙ v.hashed b i low best.on_list)
              (in_bucket s c v lt))
            free,
      rw (==_refl b) refl,
    );
  }

  all_used :
      (s : Bcache B) (i : ℕ)
      → IsBcache s
      → i < nbucket
      → ((k c : ℕ)
          → k < nbucket
          → count c (s.buckets ((i + k) % nbucket)) ≢ 0
          → (s.bufs c).refcnt ≢ 0)
      → (c : ℕ) → c < nbuf
      → (s.bufs c).refcnt ≢ 0
  all_used s i v low used c lt =
      let j = hash (s.bufs c).blockno in
      used ((j + nbucket - i) % nbucket) c (slot_low i j)
        (rw (slot i j low (omega arith)) (in_bucket s c v lt))

  -- In a cache whose buffers are where they belong, `bget` panics only when no buffer has the block
  -- and each one is in use. Otherwise it returns a buffer, nothing but that buffer changes in the
  -- array, and the cache stays well-formed: it is the buffer that has the block, used once more,
  -- or, when no buffer has it, an unused one, the least recently used of its bucket,
  -- that is made invalid and the block's.
  pub bget-Got :
      (now dev blockno : ℕ) (s : Bcache B)
      → IsBcache s
      → ((bget now dev blockno s ≡ panic)
          × ((c : ℕ) → c < nbuf → ((s.bufs c).refcnt ≢ 0) × (holds dev blockno (s.bufs c) ≡ false)))
        ⊎ ((b : ℕ) × (t : Bcache B) × (bget now dev blockno s ≡ done (b, t))
            × Got now dev blockno s b t)
  unfolding bget
  bget-Got now dev blockno s v =
      elim (search_bucket-cases s.bufs dev blockno (s.buckets (hash blockno))) [
        | inr (b, e, h) ↦
            inr (b, touch now b s, rw (e, bget) refl, touch-Got now dev blockno b s v h)
        | inl (e, never) ↦
            let fresh = not_cached dev blockno s v never in
            elim (find_unused-cases s.bufs s.buckets nbucket (hash blockno) (omega arith)) [
              | inr (i, b, f, low, best) ↦ inr (
                b,
                recycle now dev blockno i b s,
                rw (e, bget, f) refl,
                recycle-Got now dev blockno i b s v low best fresh,
              )
              | inl (f, used) ↦ inl (
                rw (e, bget, f) refl,
                λ c lt. (all_used s (hash blockno) v (omega arith) used c lt, fresh c lt),
              )
            ]
      ]
