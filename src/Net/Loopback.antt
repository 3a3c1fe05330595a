-- ===== src/Net/Loopback.antt =====
-- src/net/loopback.cpp: the transport between a server and clients of one process.
-- A connection id is a number; the hub that all transports share is passed on. An object that `find`
-- points to is changed in its place by `update`.
pub mod Links
pub mod History
use voxel_browser.Prelude.{
  ℕ, suc, ◌+◌, Bool, true, false, ◌&&◌, ◌||◌, not, Option, none, some, List, [], ◌∷◌, ◌++◌, ◌==◌,
  if◌then◌else◌,
}
use voxel_browser.Protocol.Message.{Lane, control}

pub data NetError : Type 0 where
  no_error already_listening not_listening bind_failed connect_failed : NetError
  unknown_connection backend_unavailable handshake_timeout handshake_protocol : NetError
  server_full auth_rejected disconnected_error : NetError

pub data Kind : Type 0 where
  connected disconnected message : Kind

pub record TransportEvent : Type 0 where
  pub kind : Kind
  pub conn : ℕ
  pub lane : Lane
  pub frame : List ℕ
  pub reason : List ℕ

pub record Link : Type 0 where
  pub id : ℕ
  pub to_server : List TransportEvent
  pub to_client : List TransportEvent
  pub closed : Bool

pub record Hub : Type 0 where
  pub listening : Bool
  pub next_id : ℕ
  pub links : List Link

pub record LoopbackTransport : Type 0 where
  pub server : Bool
  pub owned : List ℕ

abbrev pub new_hub : Hub
new_hub = record { listening = false; next_id = 1; links = [] }

abbrev pub make_event : Kind → ℕ → TransportEvent
make_event kind conn = record { kind = kind; conn = conn; lane = control; frame = []; reason = [] }

unfoldable pub find : ℕ → List Link → Option Link
find conn [] = none
find conn (l ∷ ls) = let rest = find conn ls in if l.id == conn then some l else rest

-- The link that `find` points to, changed.
unfoldable pub update : ℕ → (Link → Link) → List Link → List Link
update conn f [] = []
update conn f (l ∷ ls) = let rest = update conn f ls in if l.id == conn then f l ∷ ls else l ∷ rest

-- The error, or none, and the hub.
unfoldable pub listen : LoopbackTransport → Hub → Option NetError × Hub
listen t hub =
    if not t.server
    then (some connect_failed, hub)
    else if hub.listening
    then (some already_listening, hub)
    else (none, record hub { listening = true })

abbrev pub new_link : ℕ → Link
new_link id = record {
  id = id;
  to_server = make_event connected id ∷ [];
  to_client = make_event connected id ∷ [];
  closed = false;
}

-- The connection, or none where the source answers kConnectFailed.
unfoldable pub connect : LoopbackTransport → Hub → Option ℕ × (LoopbackTransport × Hub)
connect t hub = if t.server || not hub.listening then (none, (t, hub)) else (
  some hub.next_id,
  (
    record t { owned = t.owned ++ (hub.next_id ∷ []) },
    record hub { next_id = hub.next_id + 1; links = hub.links ++ (new_link hub.next_id ∷ []) },
  ),
)

abbrev pub push : Bool → TransportEvent → Link → Link
push true event l = record l { to_client = l.to_client ++ (event ∷ []) }
push false event l = record l { to_server = l.to_server ++ (event ∷ []) }

-- Whether the link is there and open.
abbrev pub is_open : Option Link → Bool
is_open none = false
is_open (some l) = not l.closed

unfoldable pub send : LoopbackTransport → ℕ → Lane → List ℕ → Hub → Hub
send t conn lane frame hub =
    let event : TransportEvent = record (make_event message conn) { lane = lane; frame = frame } in
    if is_open (find conn hub.links)
    then record hub { links = update conn (push t.server event) hub.links }
    else hub

abbrev pub disconnect : TransportEvent → Link → Link
disconnect event l = record l {
  closed = true;
  to_server = l.to_server ++ (event ∷ []);
  to_client = l.to_client ++ (event ∷ []);
}

unfoldable pub close : ℕ → List ℕ → Hub → Hub
close conn reason hub =
    let event : TransportEvent = record (make_event disconnected conn) { reason = reason } in
    if is_open (find conn hub.links)
    then record hub { links = update conn (disconnect event) hub.links }
    else hub

abbrev pub owns : ℕ → List ℕ → Bool
owns conn [] = false
owns conn (c ∷ cs) = c == conn || owns conn cs

abbrev pub queue : Bool → Link → List TransportEvent
queue true l = l.to_server
queue false l = l.to_client

abbrev pub emptied : Bool → Link → Link
emptied true l = record l { to_server = [] }
emptied false l = record l { to_client = [] }

-- The events that are taken from the links, and the links after.
unfoldable pub drain : LoopbackTransport → List Link → List TransportEvent × List Link
drain t [] = ([], [])
drain t (l ∷ ls) =
    let rest = drain t ls in
    if t.server || owns l.id t.owned
    then (queue t.server l ++ rest.0, emptied t.server l ∷ rest.1)
    else (rest.0, l ∷ rest.1)

unfoldable pub poll : LoopbackTransport → Hub → List TransportEvent × Hub
poll t hub = let r = drain t hub.links in (r.0, record hub { links = r.1 })

unfoldable pub connection_count : LoopbackTransport → List Link → ℕ
connection_count t [] = 0
connection_count t (l ∷ ls) =
    let rest = connection_count t ls in
    if not l.closed && (t.server || owns l.id t.owned) then suc rest else rest
