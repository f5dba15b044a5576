-- ===== src/Messages/Tests.antt =====
-- The statements about the messages of kernel/proc/ability.c at concrete queues.
use os2025_yyds.Common.{◌≡◌, refl, [], ◌∷◌, some, first_from, true, false}
use os2025_yyds.Messages.{Mq, msg_response, ability_recv_message, ability_reply}
use os2025_yyds.Messages.Deliver.{empty_reply_leaks}

-- Every slot has carried a message from 1 to 3.
abbrev used_before : Mq
used_before = record {
  messages = λ i. record {
    used = false;
    id = 1;
    kind = 3;
    src_ability = 1;
    dst_ability = 3;
    request_id = 0;
    content = 7 ∷ 8 ∷ 9 ∷ [];
    timestamp = 4;
    processed = true;
  };
  next_msg_id = 65;
  next_request_id = 1;
  total_messages = 64;
  total_requests = 0;
  total_responses = 0;
}

leaks :
    (ability_recv_message 2 10 (ability_reply 5 1 2 1 [] used_before).1).0
    ≡ some (7 ∷ 8 ∷ 9 ∷ [], 1, msg_response)
unfolding first_from
leaks = empty_reply_leaks 5 1 2 1 10 0 used_before (λ j lt. refl) refl
