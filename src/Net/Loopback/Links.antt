-- ===== src/Net/Loopback/Links.antt =====
-- src/net/loopback.cpp: what the operations on the list of links do to one connection.
use voxel_browser.Prelude.{
  ℕ, suc, ◌+◌, ◌≤◌, ◌<◌, ◌≡◌, ◌≢◌, refl, subst, ap, ◌∙◌, true, false, Option, some, List, [], ◌∷◌,
  ◌++◌, append-nil, All, ◌==◌, if◌then◌else◌, arith, Bool-cases, inl, inr,
}
use voxel_browser.Net.Loopback.{
  TransportEvent, Link, LoopbackTransport, find, update, drain, owns, new_link,
}

-- The events of a queue are of its link's connection.
abbrev pub Own : ℕ → List TransportEvent → Type 0
Own conn = All (λ e. e.conn ≡ conn)

-- The ids of the links ascend from `lo` on, all below `next_id`, and the queues for the server are theirs.
abbrev pub Ascending : ℕ → List Link → ℕ → Type 0
Ascending lo [] next_id = lo ≤ next_id
Ascending lo (l ∷ ls) next_id = (lo ≤ l.id) × Own l.id l.to_server × Ascending (suc l.id) ls next_id

-- The events of one connection among those that were taken.
unfoldable pub events_of : ℕ → List TransportEvent → List TransportEvent
events_of conn [] = []
events_of conn (e ∷ es) = let rest = events_of conn es in if e.conn == conn then e ∷ rest else rest

pub events_of-append :
    (conn : ℕ) (xs ys : List TransportEvent)
    → events_of conn (xs ++ ys) ≡ events_of conn xs ++ events_of conn ys
unfolding events_of
events_of-append conn [] ys = refl
events_of-append conn (x ∷ xs) ys = ground (arith, events_of-append conn xs ys)

events_of-Own : (conn : ℕ) (xs : List TransportEvent) → Own conn xs → events_of conn xs ≡ xs
unfolding events_of
events_of-Own conn [] o = refl
events_of-Own conn (x ∷ xs) (e, o) = ground (arith, e, events_of-Own conn xs o)

events_of-other :
    (conn c : ℕ) (xs : List TransportEvent) → c ≢ conn → Own c xs → events_of conn xs ≡ []
unfolding events_of
events_of-other conn c [] d o = refl
events_of-other conn c (x ∷ xs) d (e, o) = ground (arith, e, d, events_of-other conn c xs d o)

pub Own-snoc :
    (conn : ℕ) (xs : List TransportEvent) (x : TransportEvent)
    → Own conn xs
    → x.conn ≡ conn
    → Own conn (xs ++ (x ∷ []))
Own-snoc conn [] x o e = (e, tt)
Own-snoc conn (y ∷ ys) x (d, o) e = (d, Own-snoc conn ys x o e)

pub find-append :
    (conn : ℕ) (ls ms : List Link) (l : Link)
    → find conn ls ≡ some l
    → find conn (ls ++ ms) ≡ some l
unfolding find
find-append conn [] ms l e = ground (arith, e)
find-append conn (k ∷ ls) ms l e = ground (arith, e, find-append conn ls ms l)

pub find-id : (conn : ℕ) (ls : List Link) (l : Link) → find conn ls ≡ some l → l.id ≡ conn
unfolding find
find-id conn [] l e = ground (arith, e)
find-id conn (k ∷ ls) l e = ground (arith, e, find-id conn ls l)

pub Ascending-append :
    (lo : ℕ) (ls : List Link) (next_id : ℕ)
    → Ascending lo ls next_id
    → Ascending lo (ls ++ (new_link next_id ∷ [])) (next_id + 1)
Ascending-append lo [] next_id a = (a, (refl, tt), omega arith)
Ascending-append lo (l ∷ ls) next_id (a, o, r) = (a, o, Ascending-append (suc l.id) ls next_id r)

-- An update of the connection changes its link, and of another one does not.
pub find-update :
    (conn c : ℕ) (f : Link → Link) (ls : List Link) (l : Link)
    → ((k : Link) → (f k).id ≡ k.id)
    → find conn ls ≡ some l
    → find conn (update c f ls) ≡ some (if c == conn then f l else l)
unfolding find update
find-update conn c f [] l h e = ground (arith, e)
find-update conn c f (k ∷ ls) l h e = ground (arith, e, h k, find-update conn c f ls l h)

pub Ascending-update :
    (lo c : ℕ) (f : Link → Link) (ls : List Link) (next_id : ℕ)
    → ((k : Link) → (f k).id ≡ k.id)
    → ((k : Link) → k.id ≡ c → Own k.id k.to_server → Own k.id (f k).to_server)
    → Ascending lo ls next_id
    → Ascending lo (update c f ls) next_id
unfolding update
Ascending-update lo c f [] next_id h g a = a
Ascending-update lo c f (k ∷ ls) next_id h g (a, o, r) = elim (Bool-cases (k.id == c)) [
  | inl e ↦ rw (e, h k) (a, g k (ground (arith, e)) o, r)
  | inr e ↦ rw e (a, o, Ascending-update (suc k.id) c f ls next_id h g r)
]

-- The links above hold no events of a connection below.
events_of-drain_above :
    (t : LoopbackTransport) (conn lo : ℕ) (ls : List Link) (next_id : ℕ)
    → t.server ≡ true
    → Ascending lo ls next_id
    → conn < lo
    → events_of conn (drain t ls).0 ≡ []
unfolding drain events_of
events_of-drain_above t conn lo [] next_id v a h = refl
events_of-drain_above t conn lo (l ∷ ls) next_id v (a, o, r) h = rw v (
    events_of-append conn l.to_server (drain t ls).0
    ∙ (ap (λ (es : List TransportEvent). es ++ events_of conn (drain t ls).0)
          (events_of-other conn l.id l.to_server (omega arith) o)
        ∙ events_of-drain_above t conn (suc l.id) ls next_id v r (omega arith)))

Ascending-drain :
    (t : LoopbackTransport) (lo : ℕ) (ls : List Link) (next_id : ℕ)
    → Ascending lo ls next_id
    → Ascending lo (drain t ls).1 next_id
unfolding drain
Ascending-drain t lo [] next_id a = a
Ascending-drain t lo (l ∷ ls) next_id (a, o, r) =
    let above = Ascending-drain t (suc l.id) ls next_id r in
    elim (Bool-cases t.server) [
      | inl v ↦ rw v (a, tt, above)
      | inr v ↦ elim (Bool-cases (owns l.id t.owned)) [
        | inl w ↦ rw (v, w) (a, o, above)
        | inr w ↦ rw (v, w) (a, o, above)
      ]
    ]

same_of : (conn : ℕ) (k : Link) → (k.id == conn) ≡ true → k.id ≡ conn
same_of conn k i = ground (arith, i)

find-none : (conn : ℕ) (l : Link) → find conn [] ≡ some l → ⊥
unfolding find
find-none conn l e = cc

find-here :
    (conn : ℕ) (k l : Link) (ls : List Link)
    → (k.id == conn) ≡ true
    → find conn (k ∷ ls) ≡ some l
    → k ≡ l
unfolding find
find-here conn k l ls i e = ground (arith, i, e)

find-there :
    (conn : ℕ) (k : Link) (ls : List Link) (o : Option Link)
    → (k.id == conn) ≡ false
    → find conn (k ∷ ls) ≡ o
    → find conn ls ≡ o
unfolding find
find-there conn k ls o i e = ground (arith, i, e)

find-first :
    (conn : ℕ) (k : Link) (ls : List Link) → (k.id == conn) ≡ true → find conn (k ∷ ls) ≡ some k
unfolding find
find-first conn k ls i = ground (arith, i)

find-rest :
    (conn : ℕ) (k : Link) (ls : List Link)
    → (k.id == conn) ≡ false
    → find conn (k ∷ ls) ≡ find conn ls
unfolding find
find-rest conn k ls i = ground (arith, i)

-- The server takes the queue of the connection, as it stands, and leaves it empty.
pub drain-server :
    (t : LoopbackTransport) (conn lo : ℕ) (ls : List Link) (next_id : ℕ) (l : Link)
    → t.server ≡ true
    → Ascending lo ls next_id
    → find conn ls ≡ some l
    → (events_of conn (drain t ls).0 ≡ l.to_server)
      × (find conn (drain t ls).1 ≡ some (record l { to_server = [] }))
      × Ascending lo (drain t ls).1 next_id
unfolding drain
drain-server t conn lo [] next_id l v a e = absurd (find-none conn l e)
drain-server t conn lo (k ∷ ls) next_id l v (a, o, r) e = elim (Bool-cases (k.id == conn)) [
  | inl i ↦
      let taken =
        events_of-append conn k.to_server (drain t ls).0
        ∙ (ap (λ (es : List TransportEvent). es ++ events_of conn (drain t ls).0)
              (events_of-Own conn k.to_server
                (subst (λ (c : ℕ). Own c k.to_server) (same_of conn k i) o))
            ∙ (ap (λ (es : List TransportEvent). k.to_server ++ es)
                  (events_of-drain_above t conn (suc k.id) ls next_id v r
                    (omega (arith, same_of conn k i)))
                ∙ append-nil k.to_server)) in
      subst
        (λ (m : Link).
          (events_of conn (drain t (k ∷ ls)).0 ≡ m.to_server)
          × (find conn (drain t (k ∷ ls)).1 ≡ some (record m { to_server = [] }))
          × Ascending lo (drain t (k ∷ ls)).1 next_id)
        (find-here conn k l ls i e)
        (rw v (
          taken,
          find-first conn (record k { to_server = [] }) (drain t ls).1 i,
          (a, tt, Ascending-drain t (suc k.id) ls next_id r),
        ))
  | inr i ↦
      let (x, y, z) =
        drain-server t conn (suc k.id) ls next_id l v r (find-there conn k ls (some l) i e) in
      let taken =
        events_of-append conn k.to_server (drain t ls).0
        ∙ (ap (λ (es : List TransportEvent). es ++ events_of conn (drain t ls).0)
              (events_of-other conn k.id k.to_server (ground (arith, i)) o)
            ∙ x) in
      rw v (taken, find-rest conn (record k { to_server = [] }) (drain t ls).1 i ∙ y, (a, tt, z))
]

-- A client leaves the queue for the server alone.
pub drain-client :
    (t : LoopbackTransport) (conn lo : ℕ) (ls : List Link) (next_id : ℕ) (l : Link)
    → t.server ≡ false
    → Ascending lo ls next_id
    → find conn ls ≡ some l
    → ((queued : List TransportEvent) × (find conn (drain t ls).1
          ≡ some (record l { to_client = queued })))
      × Ascending lo (drain t ls).1 next_id
unfolding drain
drain-client t conn lo [] next_id l v a e = absurd (find-none conn l e)
drain-client t conn lo (k ∷ ls) next_id l v (a, o, r) e = elim (Bool-cases (owns k.id t.owned)) [
  | inl w ↦ elim (Bool-cases (k.id == conn)) [
    | inl i ↦
        subst
          (λ (m : Link).
            ((queued : List TransportEvent) × (find conn (drain t (k ∷ ls)).1
                ≡ some (record m { to_client = queued })))
            × Ascending lo (drain t (k ∷ ls)).1 next_id)
          (find-here conn k l ls i e)
          (rw (v, w)
            (
              ([], find-first conn (record k { to_client = [] }) (drain t ls).1 i),
              (a, o, Ascending-drain t (suc k.id) ls next_id r),
            ))
    | inr i ↦
        let ((queued, y), z) =
          drain-client t conn (suc k.id) ls next_id l v r (find-there conn k ls (some l) i e) in
        rw (v, w)
          ((queued, find-rest conn (record k { to_client = [] }) (drain t ls).1 i ∙ y), (a, o, z))
  ]
  | inr w ↦ elim (Bool-cases (k.id == conn)) [
    | inl i ↦
        subst
          (λ (m : Link).
            ((queued : List TransportEvent) × (find conn (drain t (k ∷ ls)).1
                ≡ some (record m { to_client = queued })))
            × Ascending lo (drain t (k ∷ ls)).1 next_id)
          (find-here conn k l ls i e)
          (rw (v, w)
            (
              (k.to_client, find-first conn k (drain t ls).1 i),
              (a, o, Ascending-drain t (suc k.id) ls next_id r),
            ))
    | inr i ↦
        let ((queued, y), z) =
          drain-client t conn (suc k.id) ls next_id l v r (find-there conn k ls (some l) i e) in
        rw (v, w) ((queued, find-rest conn k (drain t ls).1 i ∙ y), (a, o, z))
  ]
]
