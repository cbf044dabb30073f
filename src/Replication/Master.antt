-- ===== src/Replication/Master.antt =====
-- The master side of src/replication.cpp, and the operations of a replica's link that the command
-- table reaches. The clock's reading and a client's address are arguments.
pub mod Sent
use redis_plus.Prelude.{
  ℕ, zero, suc, ◌+◌, ◌-◌, Bool, true, false, not, Option, none, some, List, [], ◌∷◌, ◌++◌, Bytes,
  codes, ◌==◌, if◌then◌else◌, length,
}
use redis_plus.Prelude.Int.{ℤ, pos, ◌+ℤ◌, ◌-ℤ◌}
use redis_plus.Decimal.{to_string, int_to_string}
use redis_plus.Resp.Reply.{encode}
use redis_plus.Store.{Store, snapshot}
use redis_plus.Rdb.Write.{rdb_serialize}
use redis_plus.Commands.Base.{Args}
use redis_plus.Commands.Ops.{Link, Failure, ReplicationOps}
use redis_plus.Replication.{
  ReplicaInfo, Replica, Replication, LinkState, unlinked, connecting, connected, link_state_name,
  Outbox,
}

-- `pending_ports_` as a table with each client once
unfoldable pub find_port : ℕ → List (ℕ × ℕ) → Option ℕ
find_port link [] = none
find_port link ((other, port) ∷ ports) =
    let later = find_port link ports in if other == link then some port else later

unfoldable pub erase_port : ℕ → List (ℕ × ℕ) → List (ℕ × ℕ)
erase_port link [] = []
erase_port link ((other, port) ∷ ports) =
    let rest = erase_port link ports in if other == link then rest else (other, port) ∷ rest

abbrev send : ℕ → Bytes → Replication → Replication
send link bytes r = record r { outbox = r.outbox ++ ((link, bytes) ∷ []) }

abbrev pub full_resync_line : Replication → Bytes
full_resync_line r =
    codes "+FULLRESYNC "
    ++ (r.replid ++ (codes " " ++ (int_to_string r.master_offset ++ codes "\r\n")))

-- `"$" + std::to_string(payload.size()) + "\r\n"`
abbrev pub rdb_header : Bytes → Bytes
rdb_header payload = codes "$" ++ (to_string (length payload) ++ codes "\r\n")

abbrev pub new_replica : ℕ → Bytes → ℤ → Replication → Replica
new_replica link peer now r = record {
  link = link;
  info = record {
    address = peer;
    listening_port = elim (find_port link r.pending_ports) [ none ↦ 0 | some port ↦ port ];
    ack_offset = pos 0;
    ack_time_ms = now;
  };
}

unfoldable pub start_full_resync : Bytes → ℤ → Link → Store → Replication → Replication
start_full_resync peer now none store r = r
start_full_resync peer now (some link) store r =
    let payload = rdb_serialize (snapshot store) in
    let sent =
      send link payload (send link (rdb_header payload) (send link (full_resync_line r) r)) in
    record sent { replicas = r.replicas ++ (new_replica link peer now r ∷ []) }

-- a change to the entries of one client
abbrev on_link : ℕ → (ReplicaInfo → ReplicaInfo) → List Replica → List Replica
on_link link f [] = []
on_link link f (replica ∷ rest) =
    let others = on_link link f rest in
    if replica.link == link
    then record replica { info = f replica.info } ∷ others
    else replica ∷ others

-- A null link is no client: it has no entry, and its port is parked under a key that no client has.
unfoldable pub set_replica_port : Link → ℕ → Replication → Replication
set_replica_port none port r = r
set_replica_port (some link) port r = record r {
  replicas = on_link link (λ info. record info { listening_port = port }) r.replicas;
  pending_ports = (link, port) ∷ erase_port link r.pending_ports;
}

unfoldable pub on_replica_ack : ℤ → Link → ℤ → Replication → Replication
on_replica_ack now none offset r = r
on_replica_ack now (some link) offset r = record r {
  replicas =
      on_link link (λ info. record info { ack_offset = offset; ack_time_ms = now }) r.replicas;
}

abbrev without : ℕ → List Replica → List Replica
without link [] = []
without link (replica ∷ rest) =
    let others = without link rest in if replica.link == link then others else replica ∷ others

unfoldable pub on_disconnect : ℕ → Replication → Replication
on_disconnect link r = record r {
  replicas = without link r.replicas;
  pending_ports = erase_port link r.pending_ports;
}

-- `replica.link->send(encoded)` for each replica
abbrev pub broadcast : Bytes → List Replica → Outbox
broadcast bytes [] = []
broadcast bytes (replica ∷ rest) = (replica.link, bytes) ∷ broadcast bytes rest

-- With no replica the loop sends nothing, and the offset advances all the same.
unfoldable pub propagate : Args → Replication → Replication
propagate args r = record r {
  master_offset = r.master_offset +ℤ pos (length (encode args));
  outbox = r.outbox ++ broadcast (encode args) r.replicas;
}

-- The thread that is joined sets `link_state_` too, and this assignment comes after.
unfoldable pub stop_replication : Replication → Replication
stop_replication r = record r {
  link_stop = true;
  running = false;
  replica_of_host = [];
  replica_of_port = 0;
  link_state = unlinked;
}

unfoldable pub replicaof : Bytes → ℕ → Replication → Failure × Replication
replicaof host port r =
    if r.attached
    then (
      none,
      record (stop_replication r) {
        replica_of_host = host;
        replica_of_port = port;
        link_stop = false;
        link_state = connecting;
        replica_offset = pos 0;
        running = true;
      },
    )
    else (some (codes "replication is not attached to a server"), r)

abbrev pub is_replica : Replication → Bool
is_replica r = not (r.replica_of_port == 0)

text_line : Bytes → Bytes → Bytes
text_line name text = name ++ (text ++ codes "\r\n")

abbrev link_status : LinkState → Bytes
link_status connected = codes "up"
link_status _ = codes "down"

abbrev error_line : Bytes → Bytes
error_line [] = []
error_line (c ∷ error) = text_line (codes "master_link_error:") (c ∷ error)

role_lines : Replication → Bytes
role_lines r =
    if is_replica r
    then codes "role:slave\r\n"
      ++ (text_line (codes "master_host:") r.replica_of_host
          ++ (text_line (codes "master_port:") (to_string r.replica_of_port)
              ++ (text_line (codes "master_link_status:") (link_status r.link_state)
                  ++ (text_line (codes "master_link_state:") (link_state_name r.link_state)
                      ++ (codes "slave_read_only:1\r\n"
                          ++ (text_line (codes "slave_repl_offset:")
                                (int_to_string r.replica_offset)
                              ++ error_line r.link_error))))))
    else codes "role:master\r\n"

replica_lines : ℤ → ℕ → List Replica → Bytes
replica_lines offset i [] = []
replica_lines offset i (replica ∷ rest) =
    codes "slave"
    ++ (to_string i
        ++ (codes ":addr="
            ++ (replica.info.address
                ++ (codes ",port="
                    ++ (to_string replica.info.listening_port
                        ++ (codes ",state=online,offset="
                            ++ (int_to_string replica.info.ack_offset
                                ++ (codes ",lag="
                                    ++ (int_to_string (offset -ℤ replica.info.ack_offset)
                                        ++ (codes "\r\n"
                                            ++ replica_lines offset (suc i) rest))))))))))

unfoldable pub info_section : Replication → Bytes
unfolding role_lines replica_lines text_line
info_section r =
    role_lines r
    ++ (text_line (codes "connected_slaves:") (to_string (length r.replicas))
        ++ (replica_lines r.master_offset 0 r.replicas
            ++ (text_line (codes "master_replid:") r.replid
                ++ text_line (codes "master_repl_offset:") (int_to_string r.master_offset))))

-- The operations as the command table reaches them, at one reading of the clock.
abbrev pub replication_ops : (ℕ → Bytes) → ℤ → ReplicationOps Replication
replication_ops peers now = record {
  start_full_resync = λ link store r.
      start_full_resync (elim link [ none ↦ [] | some l ↦ peers l ]) now link store r;
  on_replica_ack = λ link offset r. on_replica_ack now link offset r;
  set_replica_port = λ link port r. set_replica_port link port r;
  replicaof = λ host port r. replicaof host port r;
  stop_replication = λ r. stop_replication r;
  is_replica = λ r. is_replica r;
  info_section = λ r. info_section r;
}
