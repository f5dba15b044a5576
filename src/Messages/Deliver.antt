-- ===== src/Messages/Deliver.antt =====
-- kernel/proc/ability.c: a message that is sent, and the next receive.
use os2025_yyds.Common.{
  ℕ, ◌≤◌, ◌<◌, ◌≡◌, refl, sym, ap, subst, ◌∙◌, ◌≢◌, inl, inr, Bool, true, false, not, List, [],
  some, arith, ltb, length, take, first_of, first_of-cases, first_of-found, ==_refl, ne→==,
}
use mathlib.Core.Option.{some-injective}
use os2025_yyds.Messages.{
  Mq, max_ability_messages, max_message_data, msg_response, find_slot, sent, ability_send_message,
  waits_for, ability_recv_message, replied, ability_reply,
}

abbrev pub waiting : ℕ → Mq → ℕ → Bool
waiting dst s i = waits_for dst (s.messages i)

-- The only message that waits is received.
received :
    (s : Mq) (dst n i : ℕ)
    → i < max_ability_messages
    → ((j : ℕ) → j < max_ability_messages → waiting dst s j ≡ false)
    → (t : Mq) → ((j : ℕ) → i ≢ j → t.messages j ≡ s.messages j)
    → waits_for dst (t.messages i) ≡ true
    → (ability_recv_message dst n t).0
      ≡ some (take n (t.messages i).content, (t.messages i).src_ability, (t.messages i).kind)
unfolding ability_recv_message
received s dst n i low idle t others on =
    let found : first_of max_ability_messages (waiting dst t) ≡ some i =
      first_of-found max_ability_messages (waiting dst t) i low on (λ j lt.
        ap (waits_for dst) (others j (λ e. absurd (omega (arith, e, lt))))
        ∙ idle j (omega (arith, lt, low))) in
    rw (found, ability_recv_message) refl

-- No message waits for `dst` and one slot is free: a message that fits is sent under the next id,
-- and the next receive of `dst` gives its sender, its type, and as many of its bytes as fit the buffer.
send-recv :
    (now src dst kind n free : ℕ) (content : List ℕ) (s : Mq)
    → length content ≤ max_message_data
    → ((j : ℕ) → j < max_ability_messages → waits_for dst (s.messages j) ≡ false)
    → free < max_ability_messages
    → (s.messages free).used ≡ false
    → ((ability_send_message now src dst kind content s).0 ≡ some s.next_msg_id)
      × ((ability_recv_message dst n (ability_send_message now src dst kind content s).1).0
          ≡ some (take n content, src, kind))
unfolding ability_send_message sent
send-recv now src dst kind n free content s fits idle low unused =
    elim (first_of-cases max_ability_messages (λ i. not (s.messages i).used)) [
      | inl (e, never) ↦ absurd (ground (arith, never free low, unused))
      | inr (i, e, first) ↦
          let small : ltb max_message_data (length content) ≡ false = ground (arith, fits) in
          rw (small, e, ability_send_message)
            (
              refl,
              received s dst n i first.below idle _ (λ j apart. rw (ne→== i j apart) refl)
                    (rw (==_refl i, ==_refl dst) refl)
                  ∙ rw (==_refl i) refl,
            )
    ]

-- A response without bytes takes the first free slot with the content of the message that was there
-- before, whoever it was for, and the next receive of `dst` hands it out.
pub empty_reply_leaks :
    (now src dst request_id n i : ℕ) (s : Mq)
    → ((j : ℕ) → j < max_ability_messages → waits_for dst (s.messages j) ≡ false)
    → find_slot s ≡ some i
    → (ability_recv_message dst n (ability_reply now src dst request_id [] s).1).0
      ≡ some (take n (s.messages i).content, src, msg_response)
unfolding ability_reply replied
empty_reply_leaks now src dst request_id n i s idle e =
    elim (first_of-cases max_ability_messages (λ i. not (s.messages i).used)) [
      | inl (none_free, never) ↦ cc
      | inr (k, found, first) ↦
          let same : k ≡ i = some-injective _ _ (sym found ∙ e) in
          rw (e, ability_reply)
            (received s dst n i (subst (λ j. j < max_ability_messages) same first.below) idle _
                (λ j apart. rw (ne→== i j apart) refl) (rw (==_refl i, ==_refl dst) refl)
              ∙ rw (==_refl i) refl)
    ]
