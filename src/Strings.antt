-- ===== src/Strings.antt =====
-- kernel/lib/string.c: bytes in memory.
--
-- Memory is the function from an address to its byte. The functions return their first argument,
-- which is left out, or a difference of two bytes, of which the sign is kept: `memcmp` and `strncmp`
-- give the two bytes that differ first. A C string is one that has a NUL within the bound `fuel`.
pub mod Move
pub mod Copy
mod Tests
use os2025_yyds.Common.{
  ℕ, zero, suc, ◌+◌, ◌-◌, ◌%◌, Bool, true, false, ◌&&◌, Option, none, some, ltb, ◌==◌,
  if◌then◌else◌, update,
}

abbrev pub Memory : Type 0
Memory = ℕ → ℕ

-- The loop at the address `d`, with `n` bytes left.
pub memset : ℕ → ℕ → ℕ → Memory → Memory
memset d c zero m = m
memset d c (suc n) m = memset (d + 1) c n (update m d (c % 256))

pub memcmp : ℕ → ℕ → ℕ → Memory → Option (ℕ × ℕ)
memcmp p q zero m = none
memcmp p q (suc n) m =
    let later = memcmp (p + 1) (q + 1) n m in if m p == m q then later else some (m p, m q)

-- The loop from the front, and the one from the back, which starts behind the last bytes.
pub move_up : ℕ → ℕ → ℕ → Memory → Memory
move_up zero d s m = m
move_up (suc n) d s m = move_up n (d + 1) (s + 1) (update m d (m s))

pub move_down : ℕ → ℕ → ℕ → Memory → Memory
move_down zero d s m = m
move_down (suc n) d s m = move_down n (d - 1) (s - 1) (update m (d - 1) (m (s - 1)))

pub memmove : ℕ → ℕ → ℕ → Memory → Memory
memmove dst src n m =
    if ltb src dst && ltb dst (src + n)
    then move_down n (dst + n) (src + n) m
    else move_up n dst src m

pub memcpy : ℕ → ℕ → ℕ → Memory → Memory
memcpy dst src n m = memmove dst src n m

pub strncmp : ℕ → ℕ → ℕ → Memory → Option (ℕ × ℕ)
strncmp p q zero m = none
strncmp p q (suc n) m =
    let later = strncmp (p + 1) (q + 1) n m in
    if m p == 0 then some (m p, m q) else if m p == m q then later else some (m p, m q)

pub fill_zero : ℕ → ℕ → Memory → Memory
fill_zero zero s m = m
fill_zero (suc n) s m = fill_zero n (s + 1) (update m s 0)

-- The first loop copies up to the NUL, which it copies too, and the second fills with NULs.
pub strncpy : ℕ → ℕ → ℕ → Memory → Memory
strncpy s t zero m = m
strncpy s t (suc n) m =
    let after = update m s (m t) in
    if m t == 0 then fill_zero n (s + 1) after else strncpy (s + 1) (t + 1) n after

-- The loop of `safestrcpy` with `n` bytes left before the one for the NUL.
pub safe_loop : ℕ → ℕ → ℕ → Memory → Memory
safe_loop zero s t m = update m s 0
safe_loop (suc n) s t m =
    let after = update m s (m t) in
    let later = safe_loop n (s + 1) (t + 1) after in
    if m t == 0 then update after (s + 1) 0 else later

pub safestrcpy : ℕ → ℕ → ℕ → Memory → Memory
safestrcpy s t zero m = m
safestrcpy s t (suc n) m = safe_loop n s t m

pub strlen : ℕ → ℕ → Memory → Option ℕ
strlen zero s m = none
strlen (suc fuel) s m =
    if m s == 0
    then some 0
    else (let later = strlen fuel (s + 1) m in elim later [ none ↦ none | some k ↦ some (k + 1) ])
