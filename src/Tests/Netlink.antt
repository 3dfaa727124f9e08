-- ===== src/Tests/Netlink.antt =====
-- A dump of src/privileged_helper/netlink.rs with two bodies in two packets, and an attribute stream.
use procinsh.Prelude.{ℕ, ◌≡◌, refl, arith, List, [], ◌∷◌, ◌++◌, ok, err}
use procinsh.Netlink.{parse_netlink_attributes, invalid_attribute_length}
use procinsh.Netlink.Attributes.{attributes_code, parse_netlink_attributes-attributes_code}
use procinsh.Netlink.Reads.{Reads}
use procinsh.Netlink.Dump.{NetlinkDumpRequest, Round, nothing, packet}
use procinsh.Netlink.Replies.{KernelMessage, replies_code, done_code}

abbrev dump : NetlinkDumpRequest
dump = record { message_type = 20; reply_type = 20; sequence = 7; payload = [] }

-- With NLM_F_MULTI, to port 513.
abbrev part : List ℕ → KernelMessage
part body = record { flags = 2; port = 513; body = body }

abbrev first_part : List KernelMessage
first_part = part (1 ∷ 2 ∷ 3 ∷ []) ∷ []

abbrev last_part : List KernelMessage
last_part = part (4 ∷ []) ∷ []

abbrev first_packet : List ℕ
first_packet = replies_code dump first_part

abbrev last_packet : List ℕ
last_packet = replies_code dump last_part ++ done_code dump 2 513

abbrev first_round : Round
first_round = record { now = 2; arrival = packet 20 0 first_packet }

abbrev last_round : Round
last_round = record { now = 3; arrival = packet 40 0 last_packet }

abbrev quiet_round : Round
quiet_round = record { now = 1; arrival = nothing }

abbrev rounds : List Round
rounds = quiet_round ∷ first_round ∷ last_round ∷ []

abbrev sent : List (ℕ × List ℕ)
sent = (1, 5 ∷ []) ∷ (3, 6 ∷ 7 ∷ 8 ∷ 9 ∷ []) ∷ (4, []) ∷ []

parse_netlink_attributes-attributes_code_example :
    parse_netlink_attributes (attributes_code sent) ≡ ok sent
parse_netlink_attributes-attributes_code_example =
    parse_netlink_attributes-attributes_code sent (omega arith)

-- A length of 3 is refused, and one above the bytes too.
invalid_lengths :
    (parse_netlink_attributes (3 ∷ 0 ∷ 1 ∷ 0 ∷ []) ≡ err invalid_attribute_length)
    × (parse_netlink_attributes (5 ∷ 0 ∷ 1 ∷ 0 ∷ []) ≡ err invalid_attribute_length)
unfolding parse_netlink_attributes
invalid_lengths = (refl, refl)
