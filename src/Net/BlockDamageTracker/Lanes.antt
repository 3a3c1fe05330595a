-- ===== src/Net/BlockDamageTracker/Lanes.antt =====
-- inc/vb/net/block_damage_tracker.hpp: damage and block changes travel on two lanes that are not
-- ordered against each other.
use voxel_browser.Prelude.{
  ℕ, ◌≡◌, refl, ap, ◌∙◌, Option, none, some, List, [], ◌∷◌, inl, inr, arith, ◌==◌, Bool-cases,
  if◌then◌else◌,
}
use voxel_browser.Core.Ids.{IVec3, same_voxel, same_voxel→eq, same_voxel_refl}
use voxel_browser.Net.BlockDamageTracker.{
  Clock, Change, BlockDamageTracker, on_damage, on_block_changed, change_after, replaced_after,
  newer, older,
}

module _ (clock : Clock) where
  abbrev T : Type 0
  T = BlockDamageTracker clock

  -- What the tracker knows of one position.
  pub record Cell : Type 0 where
    pub punches : Option ℕ
    pub damage_revision : Option ℕ
    pub change : Option (Change clock)

  abbrev pub cell : T → IVec3 → Cell
  cell t p = record {
    punches = t.punches p;
    damage_revision = t.damage_revision p;
    change = t.changes p;
  }

  damage_cell : ℕ → ℕ → Cell → Cell
  damage_cell punches revision c =
      if replaced_after clock c.change revision
      then c
      else if newer clock c.damage_revision revision
      then c
      else if punches == 0
      then record c { punches = none; damage_revision = none }
      else record c { punches = some punches; damage_revision = some revision }

  change_cell : ℕ → clock.Time → Cell → Cell
  change_cell revision now c =
      let change = some (change_after clock c.change revision now) in
      if older clock c.damage_revision revision
      then record { punches = none; damage_revision = none; change = change }
      else record c { change = change }

  -- `punches_` and `damage_revision_` hold the same positions.
  abbrev pub Paired : Option ℕ → Option ℕ → Type 0
  Paired none none = Unit
  Paired none (some d) = ⊥
  Paired (some p) none = ⊥
  Paired (some p) (some d) = Unit

  damage_change_comm :
      (n r s : ℕ) (now : clock.Time) (p d : Option ℕ) (c : Option (Change clock))
      → Paired p d
      → let cell : Cell = record { punches = p; damage_revision = d; change = c } in
        damage_cell n r (change_cell s now cell) ≡ change_cell s now (damage_cell n r cell)
  unfolding damage_cell change_cell
  damage_change_comm n r s now none none none h = ground arith
  damage_change_comm n r s now none none (some c) h = ground arith
  damage_change_comm n r s now (some p) none c h = absurd h
  damage_change_comm n r s now none (some d) c h = absurd h
  damage_change_comm n r s now (some p) (some d) none h = ground arith
  damage_change_comm n r s now (some p) (some d) (some c) h = ground arith

  damage_cell-Paired :
      (n r : ℕ) (c : Cell)
      → Paired c.punches c.damage_revision
      → Paired (damage_cell n r c).punches (damage_cell n r c).damage_revision
  unfolding damage_cell
  damage_cell-Paired n r c h = ground arith

  change_cell-Paired :
      (s : ℕ) (now : clock.Time) (c : Cell)
      → Paired c.punches c.damage_revision
      → Paired (change_cell s now c).punches (change_cell s now c).damage_revision
  unfolding change_cell
  change_cell-Paired s now c h = ground arith

  -- An operation at `q`, seen from every position.
  cell-on_damage :
      (q : IVec3) (n r : ℕ) (t : T) (p : IVec3)
      → cell (on_damage clock q n r t) p
        ≡ (if same_voxel q p then damage_cell n r (cell t p) else cell t p)
  unfolding on_damage damage_cell
  cell-on_damage q n r t p = elim (Bool-cases (same_voxel q p)) [
    | inl e ↦ rw (same_voxel→eq q p e, same_voxel_refl p) (ground (arith, same_voxel_refl p))
    | inr e ↦ rw e (ground arith)
  ]

  cell-on_block_changed :
      (q : IVec3) (s : ℕ) (t : T) (p : IVec3)
      → cell (on_block_changed clock q s t) p
        ≡ (if same_voxel q p then change_cell s t.now (cell t p) else cell t p)
  unfolding on_block_changed change_cell
  cell-on_block_changed q s t p = elim (Bool-cases (same_voxel q p)) [
    | inl e ↦ rw (same_voxel→eq q p e, same_voxel_refl p) (ground (arith, same_voxel_refl p))
    | inr e ↦ rw e (ground arith)
  ]

  -- A message of the damage lane, or a block change from the chunk lane.
  pub data Event : Type 0 where
    damaged : IVec3 → ℕ → ℕ → Event
    changed : IVec3 → ℕ → Event

  unfoldable pub deliver : Event → T → T
  deliver (damaged q n r) t = on_damage clock q n r t
  deliver (changed q s) t = on_block_changed clock q s t

  unfoldable pub deliver_all : List Event → T → T
  deliver_all [] t = t
  deliver_all (e ∷ es) t = deliver_all es (deliver e t)

  -- The order of arrival `es` takes the damage lane `ds` and the chunk lane `cs` in their orders.
  pub data Merge : List Event → List Event → List Event → Type 0 where
    end : Merge [] [] []
    next_damage :
        (q : IVec3) (n r : ℕ) {ds cs es : List Event}
        → Merge ds cs es
        → Merge (damaged q n r ∷ ds) cs (damaged q n r ∷ es)
    next_change :
        (q : IVec3) (s : ℕ) {ds cs es : List Event}
        → Merge ds cs es
        → Merge ds (changed q s ∷ cs) (changed q s ∷ es)

  event_cell : IVec3 → clock.Time → Event → Cell → Cell
  event_cell p now (damaged q n r) c = if same_voxel q p then damage_cell n r c else c
  event_cell p now (changed q s) c = if same_voxel q p then change_cell s now c else c

  events_cell : IVec3 → clock.Time → List Event → Cell → Cell
  events_cell p now [] c = c
  events_cell p now (e ∷ es) c = events_cell p now es (event_cell p now e c)

  deliver-now : (e : Event) (t : T) → (deliver e t).now ≡ t.now
  unfolding deliver on_damage on_block_changed
  deliver-now (damaged q n r) t = ground arith
  deliver-now (changed q s) t = ground arith

  cell-deliver :
      (e : Event) (t : T) (p : IVec3) → cell (deliver e t) p ≡ event_cell p t.now e (cell t p)
  unfolding deliver event_cell
  cell-deliver (damaged q n r) t p = cell-on_damage q n r t p
  cell-deliver (changed q s) t p = cell-on_block_changed q s t p

  cell-deliver_all :
      (es : List Event) (t : T) (p : IVec3)
      → cell (deliver_all es t) p ≡ events_cell p t.now es (cell t p)
  unfolding deliver_all events_cell
  cell-deliver_all [] t p = refl
  cell-deliver_all (e ∷ es) t p =
      cell-deliver_all es (deliver e t) p ∙ rw (deliver-now e t, cell-deliver e t p) refl

  deliver_all-now : (es : List Event) (t : T) → (deliver_all es t).now ≡ t.now
  unfolding deliver_all
  deliver_all-now [] t = refl
  deliver_all-now (e ∷ es) t = deliver_all-now es (deliver e t) ∙ deliver-now e t

  PairedCell : Cell → Type 0
  PairedCell c = Paired c.punches c.damage_revision

  event_cell-Paired :
      (p : IVec3) (now : clock.Time) (e : Event) (c : Cell)
      → PairedCell c
      → PairedCell (event_cell p now e c)
  unfolding event_cell PairedCell
  event_cell-Paired p now (damaged q n r) c h = ground (arith, damage_cell-Paired n r c)
  event_cell-Paired p now (changed q s) c h = ground (arith, change_cell-Paired s now c)

  -- A change moves past any damage, at the same position or at another.
  change_past_damage :
      (p : IVec3) (now : clock.Time) (q q' : IVec3) (n r s : ℕ) (c : Cell)
      → PairedCell c
      → event_cell p now (damaged q n r) (event_cell p now (changed q' s) c)
        ≡ event_cell p now (changed q' s) (event_cell p now (damaged q n r) c)
  unfolding event_cell PairedCell
  change_past_damage p now q q' n r s c h =
      ground (arith, damage_change_comm n r s now c.punches c.damage_revision c.change h)

  change_past_damages :
      (p : IVec3) (now : clock.Time) (q : IVec3) (s : ℕ) {ds cs es : List Event} (c : Cell)
      → Merge ds cs es
      → PairedCell c
      → events_cell p now ds (event_cell p now (changed q s) c)
        ≡ event_cell p now (changed q s) (events_cell p now ds c)
  unfolding events_cell
  change_past_damages p now q s c end h = refl
  change_past_damages p now q s c (next_damage q' n r m) h =
      rw (change_past_damage p now q' q n r s c h) (
        change_past_damages p now q s (event_cell p now (damaged q' n r) c) m
          (event_cell-Paired p now (damaged q' n r) c h))
  change_past_damages p now q s c (next_change q' s' m) h = change_past_damages p now q s c m h

  events_cell-Merge :
      (p : IVec3) (now : clock.Time) {ds cs es : List Event} (c : Cell)
      → Merge ds cs es
      → PairedCell c
      → events_cell p now es c ≡ events_cell p now cs (events_cell p now ds c)
  unfolding events_cell
  events_cell-Merge p now c end h = refl
  events_cell-Merge p now c (next_damage q n r m) h =
      events_cell-Merge p now (event_cell p now (damaged q n r) c) m
        (event_cell-Paired p now (damaged q n r) c h)
  events_cell-Merge p now c (next_change q s {cs = cs} m) h =
      events_cell-Merge p now (event_cell p now (changed q s) c) m
        (event_cell-Paired p now (changed q s) c h)
      ∙ ap (events_cell p now cs) (change_past_damages p now q s c m h)

  -- However the two lanes are interleaved on arrival, the tracker ends at a position with the same
  -- punches, revision and change record as if the whole damage lane had arrived first, if punches and
  -- revision of the position are both set or both missing at the start.
  pub deliver_all-Merge :
      (t : T) {ds cs es : List Event} (p : IVec3)
      → Merge ds cs es
      → Paired (t.punches p) (t.damage_revision p)
      → cell (deliver_all es t) p ≡ cell (deliver_all cs (deliver_all ds t)) p
  unfolding PairedCell
  deliver_all-Merge t {ds} {cs} {es} p m h =
      cell-deliver_all es t p
      ∙ events_cell-Merge p t.now (cell t p) m h
      ∙ rw (cell-deliver_all cs (deliver_all ds t) p, cell-deliver_all ds t p, deliver_all-now ds t)
          refl
