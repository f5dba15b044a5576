-- ===== src/Strings/Tests.antt =====
-- kernel/lib/string.c: runs of the model, and its theorems at concrete inputs.
use os2025_yyds.Common.{
  ℕ, zero, suc, ◌+◌, ◌<◌, ◌≡◌, ◌≢◌, refl, inl, arith, none, some, ◌==◌, if◌then◌else◌,
}
use os2025_yyds.Strings.{Memory, memset, memcmp, memmove, move_up, move_down, safestrcpy}
use os2025_yyds.Strings.Move.{copied, memmove-copied}
use os2025_yyds.Strings.Copy.{IsString, Copied, safestrcpy-Copied}

-- "hi" at address 0.
abbrev hi : Memory
hi k = if k == 0 then 104 else if k == 1 then 105 else 0

shifted : (memmove 1 0 2 hi 0 ≡ 104) × (memmove 1 0 2 hi 1 ≡ 104) × (memmove 1 0 2 hi 2 ≡ 105)
unfolding memmove move_up move_down
shifted = (refl, refl, refl)

compared : (memcmp 0 1 2 hi ≡ some (104, 105)) × (memcmp 2 5 3 hi ≡ none)
unfolding memcmp
compared = (refl, refl)

filled : (memset 4 300 2 hi 5 ≡ 44) × (memset 4 300 2 hi 6 ≡ 0)
unfolding memset
filled = (refl, refl)

hi-IsString : IsString hi 0 2
hi-IsString = (letter, refl)
  where
    letter : (j : ℕ) → j < 2 → hi (0 + j) ≢ 0
    letter zero lt = λ e. omega (arith, e)
    letter (suc zero) lt = λ e. omega (arith, e)
    letter (suc (suc j)) lt = absurd (omega (arith, lt))

memmove-copied_example : memmove 1 0 2 hi 2 ≡ copied 1 0 2 hi 2
memmove-copied_example = memmove-copied 1 0 2 hi 2

-- Room for two bytes: "h" and the NUL.
safestrcpy-Copied_example : Copied 10 0 2 1 hi (safestrcpy 10 0 2 hi)
safestrcpy-Copied_example = safestrcpy-Copied 10 0 2 1 hi hi-IsString (inl (omega arith))
