-- ===== src/Sandbox/ProcessTests.antt =====
-- Exchanges with a worker process that answers pings, and their theorems.
use doc_bunker.Prelude.{
  ℕ, Option, codes, zero, suc, ◌*◌, ◌≡◌, ◌↔◌, refl, true, false, none, some, [], ◌∷◌, ok, arith,
}
use doc_bunker.Protocol.Message.{Request, ping, Response, pong, hello_ok}
use doc_bunker.Protocol.Payload.{Codec, encode_request, decode_response}
use doc_bunker.Protocol.ShmName.{
  is_valid_shm_name, strip_prefix, split_once, strip_suffix, same, all_digits,
}
use doc_bunker.Protocol.Validate.{client_negotiate, validate_hello_ok}
use doc_bunker.Sandbox.Region.{normalize_shm}
use doc_bunker.Sandbox.Process.{
  ProcessTransport, empty, sent, full, arrived, frame, Exchange, Sent, terminate, send_raw, receive,
  enqueue, validate_response,
}
use doc_bunker.Sandbox.Process.Exchanges.{
  Answers, Ending, IsTicking, send_raw-Ending, send_raw_total, validate_response_iff,
}
use doc_bunker.Sandbox.Handshake.{
  RegionFile, open_region, with_region, hello_request, spawned, from_child_io,
}
use doc_bunker.Sandbox.Handshake.Ready.{IsReady, from_child_io-IsReady}

-- Codecs that know one message each.
abbrev requests : Codec Request
requests = record {
  to_allocvec = λ q. ok [];
  from_bytes = λ bytes. ok (ping (record { nonce = 5 }));
}

abbrev pongs : Codec Response
pongs = record { to_allocvec = λ r. ok []; from_bytes = λ bytes. ok (pong (record { nonce = 5 })) }

-- The channel is full at the first attempt and the frame then comes in time.
abbrev in_time : Exchange
in_time = record {
  overflow_before = false;
  pending = empty;
  start = 0;
  try_send = λ n. elim n [ zero ↦ full | suc m ↦ sent ];
  clock = λ n. 5 * n;
  before_write = 6;
  write_result = arrived true;
  before_read = 7;
  frame_result = arrived (frame (2 ∷ 0x85 ∷ []));
  overflow_after = false;
  extra = empty;
}

in_time-IsTicking : IsTicking in_time
in_time-IsTicking = record { begins = omega arith; sleeps = λ n. omega arith }

abbrev transport : ProcessTransport
transport = record (spawned 20) { timeout = 20 }

abbrev request : Request
request = ping (record { nonce = 5 })

answers :
    send_raw requests pongs 5 in_time request transport
    ≡ some (ok (pong (record { nonce = 5 })), transport)
unfolding send_raw enqueue receive spawned validate_response encode_request decode_response
    normalize_shm
answers = refl

send_raw-Ending_example :
    Ending requests pongs request transport (ok (pong (record { nonce = 5 })), transport)
send_raw-Ending_example =
    send_raw-Ending requests pongs 5 in_time request transport
      (ok (pong (record { nonce = 5 })), transport) answers

send_raw_total_example : (s : Sent) × (send_raw requests pongs 5 in_time request transport ≡ some s)
send_raw_total_example =
    send_raw_total requests pongs 5 in_time request transport in_time-IsTicking (omega arith)

refused : (s : Sent) × (send_raw requests pongs 5 in_time request (terminate transport) ≡ some s)
refused =
    send_raw_total requests pongs 5 in_time request (terminate transport) in_time-IsTicking
      (unfold terminate in omega arith)

validate_response_iff_example :
    (validate_response transport.limits request (pong (record { nonce = 5 })) ≡ ok tt)
    ↔ Answers transport.limits request (pong (record { nonce = 5 }))
validate_response_iff_example =
    validate_response_iff transport.limits request (pong (record { nonce = 5 }))

-- A worker that takes the hello and offers a shared region, which the second attempt opens.
abbrev greetings : Codec Response
greetings = record {
  to_allocvec = λ r. ok [];
  from_bytes = λ bytes. ok (
      hello_ok (record {
        protocol_version = 2;
        max_document_size = 5000;
        max_ipc_message = 8192;
        max_page_width = 4096;
        max_page_height = 4096;
        max_pixel_buffer = 67108864;
        shm_name = some (codes "docbunker_pagebuf_1_1.bin");
        shm_capacity = some 64;
      }));
}

abbrev greeting : Exchange
greeting = record in_time { frame_result = arrived (frame (2 ∷ 0x80 ∷ [])) }

abbrev connected : ProcessTransport
connected = record (spawned 20) {
  limits = record {
    max_document_size = 5000;
    max_ipc_message = 8192;
    max_page_width = 4096;
    max_page_height = 4096;
    max_pixel_buffer = 67108864;
  };
  shm = some (record { read_at = λ offset n. none; capacity = 64 });
}

abbrev region_file : RegionFile
region_file = record { is_file = some true; len = some 100; read_at = λ offset n. none }

abbrev second_opens : ℕ → Option RegionFile
second_opens n = elim n [ zero ↦ none | suc m ↦ some region_file ]

connects : from_child_io requests greetings greeting second_opens 20 true ≡ some (ok connected)
unfolding from_child_io send_raw enqueue receive spawned validate_response encode_request
    decode_response normalize_shm client_negotiate hello_request validate_hello_ok with_region
    open_region is_valid_shm_name strip_prefix split_once strip_suffix same all_digits
connects = refl

from_child_io-IsReady_example : IsReady second_opens connected
from_child_io-IsReady_example =
    from_child_io-IsReady requests greetings greeting second_opens 20 true connected connects
