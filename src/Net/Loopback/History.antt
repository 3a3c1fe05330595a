-- ===== src/Net/Loopback/History.antt =====
-- src/net/loopback.cpp: what the server receives on a connection, against what was sent on it.
use voxel_browser.Prelude.{
  ℕ, ◌+◌, ◌≡◌, ◌⊎◌, refl, sym, subst, ap, ◌∙◌, Bool, true, false, ◌&&◌, ◌||◌, not, some, List, [],
  ◌∷◌, ◌++◌, append-nil, append_assoc, ◌==◌, if◌then◌else◌, arith, Bool-cases, inl, inr,
}
use voxel_browser.Protocol.Message.{Lane}
use voxel_browser.Net.Loopback.{
  TransportEvent, Link, Hub, LoopbackTransport, listen, connect, send, close, poll, find, update,
  drain, new_link, message, disconnected, make_event, push, disconnect, is_open,
}
use voxel_browser.Net.Loopback.Links.{
  Own, Ascending, events_of, events_of-append, Own-snoc, find-append, Ascending-append, find-update,
  Ascending-update, drain-server, drain-client,
}

-- A call on a transport, the server's or a client's.
pub data Action : Type 0 where
  listens connects polls : LoopbackTransport → Action
  sends : LoopbackTransport → ℕ → Lane → List ℕ → Action
  closes : ℕ → List ℕ → Action

-- What a poll of the server takes, and the hub after the call.
unfoldable pub act : Action → Hub → List TransportEvent × Hub
act (listens t) hub = ([], (listen t hub).1)
act (connects t) hub = ([], (connect t hub).1.1)
act (polls t) hub = let r = poll t hub in (if t.server then r.0 else [], r.1)
act (sends t conn lane frame) hub = ([], send t conn lane frame hub)
act (closes conn reason) hub = ([], close conn reason hub)

-- What the server takes along the calls, and the hub after them.
unfoldable pub act_all : List Action → Hub → List TransportEvent × Hub
act_all [] hub = ([], hub)
act_all (a ∷ actions) hub =
    let r = act a hub in let after = act_all actions r.1 in (r.0 ++ after.0, after.1)

-- What the calls put on a connection for the server: each frame that a client sends while it is open, and
-- one disconnect when it is closed first.
unfoldable pub put_on : ℕ → Bool → Action → List TransportEvent
put_on conn closed (sends t c lane frame) =
    if not closed && (c == conn && not t.server)
    then record (make_event message conn) { lane = lane; frame = frame } ∷ []
    else []
put_on conn closed (closes c reason) =
    if not closed && c == conn
    then record (make_event disconnected conn) { reason = reason } ∷ []
    else []
put_on conn closed other = []

unfoldable pub closed_by : ℕ → Bool → Action → Bool
closed_by conn closed (closes c reason) = closed || c == conn
closed_by conn closed other = closed

unfoldable pub put_all : ℕ → Bool → List Action → List TransportEvent
put_all conn closed [] = []
put_all conn closed (a ∷ actions) =
    put_on conn closed a ++ put_all conn (closed_by conn closed a) actions

-- The hub's ids ascend from 1 on, below the next one.
abbrev pub IsHub : Hub → Type 0
IsHub hub = Ascending 1 hub.links hub.next_id

-- After a call with this result the connection has a link, with what was there for the server, without
-- what the call took, and with what it put there.
abbrev Moves : ℕ → Action → Link → List TransportEvent × Hub → Type 0
Moves conn a l r =
    IsHub r.1
    × ((l' : Link) × (find conn r.1.links ≡ some l')
        × (l'.closed ≡ closed_by conn l.closed a)
        × (events_of conn r.0 ++ l'.to_server ≡ l.to_server ++ put_on conn l.closed a))

-- A call that leaves the hub as it is and puts nothing on the connection.
idle-Moves :
    (conn : ℕ) (a : Action) (l : Link) (hub : Hub)
    → IsHub hub
    → find conn hub.links ≡ some l
    → put_on conn l.closed a ≡ []
    → closed_by conn l.closed a ≡ l.closed
    → Moves conn a l ([], hub)
unfolding events_of
idle-Moves conn a l hub h e p c = (
  h,
  (
    l,
    e,
    sym c,
    sym (append-nil l.to_server) ∙ ap (λ (es : List TransportEvent). l.to_server ++ es) (sym p),
  ),
)

listen-cases :
    (t : LoopbackTransport) (hub : Hub)
    → ((listen t hub).1 ≡ hub) ⊎ ((listen t hub).1 ≡ record hub { listening = true })
unfolding listen
listen-cases t hub = ground arith

listens-Moves :
    (conn : ℕ) (t : LoopbackTransport) (l : Link) (hub : Hub)
    → IsHub hub
    → find conn hub.links ≡ some l
    → Moves conn (listens t) l (act (listens t) hub)
unfolding act closed_by put_on
listens-Moves conn t l hub h e = elim (listen-cases t hub) [
  | inl q ↦
      subst (λ (x : Hub). Moves conn (listens t) l ([], x)) (sym q)
        (idle-Moves conn (listens t) l hub h e refl refl)
  | inr q ↦
      subst (λ (x : Hub). Moves conn (listens t) l ([], x)) (sym q)
        (idle-Moves conn (listens t) l (record hub { listening = true }) h e refl refl)
]

connects-cases :
    (t : LoopbackTransport) (hub : Hub)
    → ((connect t hub).1.1 ≡ hub)
      ⊎ ((connect t hub).1.1 ≡ record hub {
        next_id = hub.next_id + 1;
        links = hub.links ++ (new_link hub.next_id ∷ []);
      })
unfolding connect
connects-cases t hub = ground arith

connects-Moves :
    (conn : ℕ) (t : LoopbackTransport) (l : Link) (hub : Hub)
    → IsHub hub
    → find conn hub.links ≡ some l
    → Moves conn (connects t) l (act (connects t) hub)
unfolding act closed_by put_on events_of
connects-Moves conn t l hub h e = elim (connects-cases t hub) [
  | inl q ↦
      subst (λ (x : Hub). Moves conn (connects t) l ([], x)) (sym q)
        (idle-Moves conn (connects t) l hub h e refl refl)
  | inr q ↦
      subst (λ (x : Hub). Moves conn (connects t) l ([], x)) (sym q)
        (
          Ascending-append 1 hub.links hub.next_id h,
          (
            l,
            find-append conn hub.links (new_link hub.next_id ∷ []) l e,
            refl,
            sym (append-nil l.to_server),
          ),
        )
]

polls-cases :
    (t : LoopbackTransport) (hub : Hub)
    → let r = drain t hub.links in
      ((t.server ≡ true) × (act (polls t) hub ≡ (r.0, record hub { links = r.1 })))
      ⊎ ((t.server ≡ false) × (act (polls t) hub ≡ ([], record hub { links = r.1 })))
unfolding act poll
polls-cases t hub = elim (Bool-cases t.server) [
  | inl v ↦ inl (v, ground (arith, v))
  | inr v ↦ inr (v, ground (arith, v))
]

polls-Moves :
    (conn : ℕ) (t : LoopbackTransport) (l : Link) (hub : Hub)
    → IsHub hub
    → find conn hub.links ≡ some l
    → Moves conn (polls t) l (act (polls t) hub)
unfolding closed_by put_on events_of
polls-Moves conn t l hub h e = elim (polls-cases t hub) [
  | inl (v, q) ↦
      let (x, y, z) = drain-server t conn 1 hub.links hub.next_id l v h e in
      subst (λ (r : List TransportEvent × Hub). Moves conn (polls t) l r) (sym q)
        (z, (record l { to_server = [] }, y, refl, ap (λ (es : List TransportEvent). es ++ []) x))
  | inr (v, q) ↦
      let ((queued, y), z) = drain-client t conn 1 hub.links hub.next_id l v h e in
      subst (λ (r : List TransportEvent × Hub). Moves conn (polls t) l r) (sym q)
        (z, (record l { to_client = queued }, y, refl, sym (append-nil l.to_server)))
]

-- A link that is changed in its place.
updates-Moves :
    (conn c : ℕ) (f : Link → Link) (a : Action) (l : Link) (hub : Hub)
    → IsHub hub
    → find conn hub.links ≡ some l
    → ((k : Link) → (f k).id ≡ k.id)
    → ((k : Link) → k.id ≡ c → Own k.id k.to_server → Own k.id (f k).to_server)
    → (if c == conn then f l else l).closed ≡ closed_by conn l.closed a
    → (if c == conn then f l else l).to_server ≡ l.to_server ++ put_on conn l.closed a
    → Moves conn a l ([], record hub { links = update c f hub.links })
unfolding events_of
updates-Moves conn c f a l hub h e i o q p = (
  Ascending-update 1 c f hub.links hub.next_id i o h,
  (if c == conn then f l else l, find-update conn c f hub.links l i e, q, p),
)

send-open :
    (t : LoopbackTransport) (c : ℕ) (lane : Lane) (frame : List ℕ) (hub : Hub)
    → is_open (find c hub.links) ≡ true
    → send t c lane frame hub ≡ record hub {
      links =
          update c
            (push t.server (record (make_event message c) { lane = lane; frame = frame }))
            hub.links;
    }
unfolding send
send-open t c lane frame hub b = rw b refl

send-closed :
    (t : LoopbackTransport) (c : ℕ) (lane : Lane) (frame : List ℕ) (hub : Hub)
    → is_open (find c hub.links) ≡ false
    → send t c lane frame hub ≡ hub
unfolding send
send-closed t c lane frame hub b = rw b refl

close-open :
    (c : ℕ) (reason : List ℕ) (hub : Hub)
    → is_open (find c hub.links) ≡ true
    → close c reason hub ≡ record hub {
      links =
          update c (disconnect (record (make_event disconnected c) { reason = reason })) hub.links;
    }
unfolding close
close-open c reason hub b = rw b refl

close-closed :
    (c : ℕ) (reason : List ℕ) (hub : Hub)
    → is_open (find c hub.links) ≡ false
    → close c reason hub ≡ hub
unfolding close
close-closed c reason hub b = rw b refl

-- A connection is open as its link says.
open_of :
    (conn c : ℕ) (ls : List Link) (l : Link)
    → find conn ls ≡ some l
    → (c == conn) ≡ true
    → is_open (find c ls) ≡ not l.closed
open_of conn c ls l e i =
    let same : c ≡ conn = ground (arith, i) in
    ap (λ (k : ℕ). is_open (find k ls)) same ∙ ap is_open e

push-id : (server : Bool) (event : TransportEvent) (k : Link) → (push server event k).id ≡ k.id
push-id true event k = refl
push-id false event k = refl

push-Own :
    (server : Bool) (event : TransportEvent) (k : Link)
    → event.conn ≡ k.id
    → Own k.id k.to_server
    → Own k.id (push server event k).to_server
push-Own true event k e o = o
push-Own false event k e o = Own-snoc k.id k.to_server event o e

push-closed :
    (server : Bool) (event : TransportEvent) (k : Link) → (push server event k).closed ≡ k.closed
push-closed true event k = refl
push-closed false event k = refl

push-to_server :
    (server : Bool) (event : TransportEvent) (k : Link)
    → (push server event k).to_server ≡ k.to_server ++ (if not server then event ∷ [] else [])
push-to_server true event k = sym (append-nil k.to_server)
push-to_server false event k = refl

sends-Moves :
    (conn : ℕ) (t : LoopbackTransport) (c : ℕ) (lane : Lane) (frame : List ℕ) (l : Link) (hub : Hub)
    → IsHub hub
    → find conn hub.links ≡ some l
    → Moves conn (sends t c lane frame) l (act (sends t c lane frame) hub)
unfolding act send closed_by put_on
sends-Moves conn t c lane frame l hub h e =
    let a = sends t c lane frame in
    let event : TransportEvent = record (make_event message c) { lane = lane; frame = frame } in
    elim (Bool-cases (is_open (find c hub.links))) [
      | inl b ↦
          subst (λ (x : Hub). Moves conn a l ([], x)) (sym (send-open t c lane frame hub b))
            (updates-Moves conn c (push t.server event) a l hub h e (push-id t.server event)
              (λ (k : Link) (i : k.id ≡ c). push-Own t.server event k (sym i))
              (ground (arith, push-closed t.server event l))
              (elim (Bool-cases (c == conn)) [
                | inl i ↦ ground (
                  arith,
                  i,
                  b,
                  open_of conn c hub.links l e i,
                  push-to_server t.server event l,
                  append-nil l.to_server,
                )
                | inr i ↦ ground (arith, i, append-nil l.to_server)
              ]))
      | inr b ↦
          subst (λ (x : Hub). Moves conn a l ([], x)) (sym (send-closed t c lane frame hub b))
            (idle-Moves conn a l hub h e
              (elim (Bool-cases (c == conn)) [
                | inl i ↦ ground (arith, i, b, open_of conn c hub.links l e i)
                | inr i ↦ ground (arith, i)
              ])
              refl)
    ]

closes-Moves :
    (conn c : ℕ) (reason : List ℕ) (l : Link) (hub : Hub)
    → IsHub hub
    → find conn hub.links ≡ some l
    → Moves conn (closes c reason) l (act (closes c reason) hub)
unfolding act close closed_by put_on
closes-Moves conn c reason l hub h e =
    let a = closes c reason in
    let event : TransportEvent = record (make_event disconnected c) { reason = reason } in
    elim (Bool-cases (is_open (find c hub.links))) [
      | inl b ↦
          subst (λ (x : Hub). Moves conn a l ([], x)) (sym (close-open c reason hub b))
            (updates-Moves conn c (disconnect event) a l hub h e (λ k. refl)
              (λ (k : Link) (i : k.id ≡ c) (o : Own k.id k.to_server).
                Own-snoc k.id k.to_server event o (sym i))
              (elim (Bool-cases (c == conn)) [
                | inl i ↦ ground (arith, i)
                | inr i ↦ ground (arith, i)
              ])
              (elim (Bool-cases (c == conn)) [
                | inl i ↦ ground (arith, i, b, open_of conn c hub.links l e i)
                | inr i ↦ ground (arith, i, append-nil l.to_server)
              ]))
      | inr b ↦
          subst (λ (x : Hub). Moves conn a l ([], x)) (sym (close-closed c reason hub b))
            (idle-Moves conn a l hub h e
              (elim (Bool-cases (c == conn)) [
                | inl i ↦ ground (arith, i, b, open_of conn c hub.links l e i)
                | inr i ↦ ground (arith, i)
              ])
              (elim (Bool-cases (c == conn)) [
                | inl i ↦ ground (arith, i, b, open_of conn c hub.links l e i)
                | inr i ↦ ground (arith, i)
              ]))
    ]

act-Moves :
    (conn : ℕ) (a : Action) (l : Link) (hub : Hub)
    → IsHub hub
    → find conn hub.links ≡ some l
    → Moves conn a l (act a hub)
act-Moves conn (listens t) l hub = listens-Moves conn t l hub
act-Moves conn (connects t) l hub = connects-Moves conn t l hub
act-Moves conn (polls t) l hub = polls-Moves conn t l hub
act-Moves conn (sends t c lane frame) l hub = sends-Moves conn t c lane frame l hub
act-Moves conn (closes c reason) l hub = closes-Moves conn c reason l hub

-- On a connection of a hub whose ids ascend, along any calls on any transports, what the server takes and
-- what is left in its queue at the end are, in this order, what was in the queue at the start and what the
-- calls put there: each frame that a client sends while the connection is open, and one disconnect.
pub act_all-put_all :
    (conn : ℕ) (actions : List Action) (l : Link) (hub : Hub)
    → IsHub hub
    → find conn hub.links ≡ some l
    → (l' : Link) × (find conn (act_all actions hub).1.links ≡ some l')
      × (events_of conn (act_all actions hub).0 ++ l'.to_server
          ≡ l.to_server ++ put_all conn l.closed actions)
unfolding act_all put_all events_of
act_all-put_all conn [] l hub a e = (l, e, sym (append-nil l.to_server))
act_all-put_all conn (x ∷ actions) l hub a e =
    let (h', (l', e', q, p)) = act-Moves conn x l hub a e in
    let (m, f, r) = act_all-put_all conn actions l' (act x hub).1 h' e' in
    (
      m,
      f,
      ap (λ (es : List TransportEvent). es ++ m.to_server)
            (events_of-append conn (act x hub).0 (act_all actions (act x hub).1).0)
          ∙ (append_assoc (events_of conn (act x hub).0)
                (events_of conn (act_all actions (act x hub).1).0) m.to_server
              ∙ (ap (λ (es : List TransportEvent). events_of conn (act x hub).0 ++ es) r
                  ∙ (sym (
                        append_assoc (events_of conn (act x hub).0) l'.to_server
                          (put_all conn l'.closed actions))
                      ∙ (ap (λ (es : List TransportEvent). es ++ put_all conn l'.closed actions) p
                          ∙ (append_assoc l.to_server (put_on conn l.closed x)
                                (put_all conn l'.closed actions)
                              ∙ ap
                                  (λ (b : Bool).
                                    l.to_server
                                    ++ (put_on conn l.closed x ++ put_all conn b actions))
                                  q))))),
    )
