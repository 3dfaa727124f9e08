-- ===== src/Netlink/Receive.antt =====
-- `receive_replies` of src/privileged_helper/netlink.rs against a kernel that answers.
use procinsh.Prelude.{List, ◌>>=◌}
