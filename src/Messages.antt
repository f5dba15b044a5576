-- ===== src/Messages.antt =====
-- kernel/proc/ability.c: the messages between abilities, `ability_mq`.
--
-- The field `content` is `data[0]` .. `data[data_len - 1]`. A list of bytes stands for the arguments
-- `data` and `len`, the empty one for a null pointer or a `len` that is not positive; `now` is `ticks`.
-- A call that returns -1 gives `none`. `ability_call` sends, looks up the number of its request, and
-- then polls until a response is there or 1000 ticks are over: `call_begin` is the first part and
-- `call_poll` one round of the loop, between which other processes run.
pub mod Deliver
mod Tests
use os2025_yyds.Common.{
  ℕ, zero, suc, ◌+◌, ◌%◌, ◌^◌, Bool, true, false, not, ◌&&◌, ◌||◌, List, [], ◌∷◌, Option, none,
  some, ltb, ◌==◌, if◌then◌else◌, update, length, take, first_of,
}

abbrev pub max_ability_messages : ℕ
max_ability_messages = 64

abbrev pub max_message_data : ℕ
max_message_data = 256

abbrev pub msg_request : ℕ
msg_request = 1

abbrev pub msg_response : ℕ
msg_response = 2

pub record Message : Type 0 where
  pub used : Bool
  pub id : ℕ
  pub kind : ℕ
  pub src_ability : ℕ
  pub dst_ability : ℕ
  pub request_id : ℕ
  pub content : List ℕ
  pub timestamp : ℕ
  pub processed : Bool

pub record Mq : Type 0 where
  pub messages : ℕ → Message
  pub next_msg_id : ℕ
  pub next_request_id : ℕ
  pub total_messages : ℕ
  pub total_requests : ℕ
  pub total_responses : ℕ

pub ability_mq_init : Mq
ability_mq_init = record {
  messages = λ i. record {
    used = false;
    id = 0;
    kind = 0;
    src_ability = 0;
    dst_ability = 0;
    request_id = 0;
    content = [];
    timestamp = 0;
    processed = false;
  };
  next_msg_id = 1;
  next_request_id = 1;
  total_messages = 0;
  total_requests = 0;
  total_responses = 0;
}

abbrev pub counted : Bool → ℕ → ℕ
counted yes_it n = if yes_it then (n + 1) % 2 ^ 64 else n

abbrev pub find_slot : Mq → Option ℕ
find_slot s = first_of max_ability_messages (λ i. not (s.messages i).used)

abbrev pub set_message : ℕ → Message → Mq → Mq
set_message i m s = record s { messages = update s.messages i m }

pub sent : ℕ → ℕ → ℕ → ℕ → List ℕ → Mq → Message
sent now src dst kind content s = record {
  used = true;
  id = s.next_msg_id;
  kind = kind;
  src_ability = src;
  dst_ability = dst;
  request_id = if kind == msg_request then s.next_request_id else 0;
  content = content;
  timestamp = now;
  processed = false;
}

pub ability_send_message : ℕ → ℕ → ℕ → ℕ → List ℕ → Mq → Option ℕ × Mq
ability_send_message now src dst kind content s =
    if ltb max_message_data (length content) then (none, s) else elim (find_slot s) [
      | none ↦ (none, s)
      | some i ↦ (
        some s.next_msg_id,
        record (set_message i (sent now src dst kind content s) s) {
          next_msg_id = (s.next_msg_id + 1) % 2 ^ 32;
          next_request_id =
              if kind == msg_request then (s.next_request_id + 1) % 2 ^ 32 else s.next_request_id;
          total_messages = counted true s.total_messages;
          total_requests = counted (kind == msg_request) s.total_requests;
          total_responses = counted (kind == msg_response) s.total_responses;
        },
      )
    ]

abbrev pub waits_for : ℕ → Message → Bool
waits_for dst m = m.used && m.dst_ability == dst && not m.processed

-- The bytes that are copied, the sender and the type.
pub ability_recv_message : ℕ → ℕ → Mq → Option (List ℕ × ℕ × ℕ) × Mq
ability_recv_message dst buflen s =
    elim (first_of max_ability_messages (λ i. waits_for dst (s.messages i))) [
      | none ↦ (none, s)
      | some i ↦
          let m = s.messages i in
          (
            some (take buflen m.content, m.src_ability, m.kind),
            set_message i (record m { processed = true; used = false }) s,
          )
    ]

-- A response takes a slot; the content of the slot stays when there are no bytes to copy.
pub replied : ℕ → ℕ → ℕ → ℕ → List ℕ → Mq → Message → Message
replied now src dst request_id content s m = record {
  used = true;
  id = s.next_msg_id;
  kind = msg_response;
  src_ability = src;
  dst_ability = dst;
  request_id = request_id;
  content = if ltb 0 (length content) then content else m.content;
  timestamp = now;
  processed = false;
}

pub ability_reply : ℕ → ℕ → ℕ → ℕ → List ℕ → Mq → Option ℕ × Mq
ability_reply now src dst request_id content s =
    if ltb max_message_data (length content) then (none, s) else elim (find_slot s) [
      | none ↦ (none, s)
      | some i ↦ (
        some s.next_msg_id,
        record (set_message i (replied now src dst request_id content s (s.messages i)) s) {
          next_msg_id = (s.next_msg_id + 1) % 2 ^ 32;
          total_responses = counted true s.total_responses;
        },
      )
    ]

-- The number of the request that was just sent: of the first message with its id, used or not.
pub call_begin : ℕ → ℕ → ℕ → List ℕ → Mq → Option ℕ × Mq
call_begin now src dst request s =
    let r = ability_send_message now src dst msg_request request s in
    elim r.0 [
      | none ↦ (none, r.1)
      | some msg ↦ elim (first_of max_ability_messages (λ i. (r.1.messages i).id == msg)) [
        | none ↦ (some 0, r.1)
        | some i ↦ (some (r.1.messages i).request_id, r.1)
      ]
    ]

abbrev pub answers : ℕ → ℕ → Message → Bool
answers src request_id m =
    m.used && m.kind == msg_response && m.dst_ability == src && m.request_id == request_id

pub call_poll : ℕ → ℕ → ℕ → Mq → Option (List ℕ) × Mq
call_poll src request_id resp_len s =
    elim (first_of max_ability_messages (λ i. answers src request_id (s.messages i))) [
      | none ↦ (none, s)
      | some i ↦
          let m = s.messages i in
          (some (take resp_len m.content), set_message i (record m { used = false }) s)
    ]

abbrev pub is_between : ℕ → ℕ → Message → Bool
is_between src dst m =
    m.used
    && (m.src_ability == src && m.dst_ability == dst
        || m.src_ability == dst && m.dst_ability == src)

pub ability_disconnect : ℕ → ℕ → Mq → Mq
ability_disconnect src dst s = record s {
  messages = λ i.
      let m = s.messages i in
      if ltb i max_ability_messages && is_between src dst m then record m { used = false } else m;
}
