-- ===== src/Net/BlockDamageTracker.antt =====
-- inc/vb/net/block_damage_tracker.hpp and src/net/block_damage_tracker.cpp: the client's mirror of
-- block damage. A map is a function into Option. Time is a double in the source and a parameter here.
pub mod Lanes
pub mod Pairing
use voxel_browser.Prelude.{
  ℕ, ◌≡◌, Bool, true, false, Option, none, some, leb, ltb, if◌then◌else◌, ◌==◌,
}
use voxel_browser.Core.Ids.{IVec3, ChunkCoord, chunk_of, same_voxel, same_chunk}

-- `now_ + dt`, `now_ < next_prune_`, `next_prune_ = now_ + kForgetAfterSeconds` and
-- `now_ - at > kForgetAfterSeconds`.
pub record Clock : Type 1 where
  pub Time : Type 0
  pub later : Time → Time → Time
  pub before : Time → Time → Bool
  pub forget_after : Time → Time
  pub expired : Time → Time → Bool

abbrev pub Map : Type 0 → Type 0
Map A = IVec3 → Option A

abbrev pub update : {A : Type 0} → Map A → IVec3 → A → Map A
update m k v = λ j. if same_voxel k j then some v else m j

abbrev pub erase : {A : Type 0} → Map A → IVec3 → Map A
erase m k = λ j. if same_voxel k j then none else m j

module _ (clock : Clock) where
  open clock use {Time, later, before, forget_after, expired}

  pub record Change : Type 0 where
    pub revision : ℕ
    pub at : Time

  pub record BlockDamageTracker : Type 0 where
    pub punches : Map ℕ
    pub damage_revision : Map ℕ
    pub changes : Map Change
    pub now : Time
    pub next_prune : Time

  -- `it != end() && revision < it->second.revision`.
  abbrev pub replaced_after : Option Change → ℕ → Bool
  replaced_after none revision = false
  replaced_after (some change) revision = ltb revision change.revision

  -- `it != end() && revision < it->second`.
  abbrev pub newer : Option ℕ → ℕ → Bool
  newer none revision = false
  newer (some r) revision = ltb revision r

  unfoldable pub on_damage : IVec3 → ℕ → ℕ → BlockDamageTracker → BlockDamageTracker
  on_damage pos punches revision t =
      if replaced_after (t.changes pos) revision
      then t
      else if newer (t.damage_revision pos) revision
      then t
      else if punches == 0
      then record t { punches = erase t.punches pos; damage_revision = erase t.damage_revision pos }
      else record t {
        punches = update t.punches pos punches;
        damage_revision = update t.damage_revision pos revision;
      }

  -- `changes_[pos]` makes a record of revision 0 and time 0 where there is none.
  abbrev pub change_after : Option Change → ℕ → Time → Change
  change_after none revision now = record { revision = revision; at = now }
  change_after (some change) revision now =
      if leb change.revision revision then record { revision = revision; at = now } else change

  -- `it != end() && it->second < revision`.
  abbrev pub older : Option ℕ → ℕ → Bool
  older none revision = false
  older (some r) revision = ltb r revision

  unfoldable pub on_block_changed : IVec3 → ℕ → BlockDamageTracker → BlockDamageTracker
  on_block_changed pos revision t =
      let changes = update t.changes pos (change_after (t.changes pos) revision t.now) in
      if older (t.damage_revision pos) revision
      then record t {
        punches = erase t.punches pos;
        damage_revision = erase t.damage_revision pos;
        changes = changes;
      }
      else record t { changes = changes }

  abbrev pub erase_if_some : Option ℕ → Option ℕ → Option ℕ
  erase_if_some none o = o
  erase_if_some (some n) o = none

  unfoldable pub on_chunk_removed : ChunkCoord → BlockDamageTracker → BlockDamageTracker
  on_chunk_removed coord t = record t {
    punches = λ p. if same_chunk (chunk_of p) coord then none else t.punches p;
    damage_revision = λ p.
        if same_chunk (chunk_of p) coord
        then erase_if_some (t.punches p) (t.damage_revision p)
        else t.damage_revision p;
    changes = λ p. if same_chunk (chunk_of p) coord then none else t.changes p;
  }

  abbrev pub prune : Time → Option Change → Option Change
  prune now none = none
  prune now (some change) = if expired now change.at then none else some change

  unfoldable pub advance : Time → BlockDamageTracker → BlockDamageTracker
  advance dt t =
      let now' = later t.now dt in
      if before now' t.next_prune then record t { now = now' } else record t {
        now = now';
        next_prune = forget_after now';
        changes = λ p. prune now' (t.changes p);
      }
