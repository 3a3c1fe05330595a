-- ===== src/Net/BlockDamageTracker/Pairing.antt =====
-- src/net/block_damage_tracker.cpp: the positions in `punches_`, `damage_revision_` and `changes_`
-- over sequences of operations.
use voxel_browser.Prelude.{
  ℕ, ◌≡◌, refl, Bool, true, false, Option, none, some, List, [], ◌∷◌, arith,
}
use voxel_browser.Core.Ids.{IVec3, ChunkCoord, chunk_of, same_chunk, same_chunk_refl}
use voxel_browser.Net.BlockDamageTracker.{
  Clock, BlockDamageTracker, on_damage, on_block_changed, on_chunk_removed, advance,
}

abbrev pub is_some : Option ℕ → Bool
is_some none = false
is_some (some n) = true

module _ (clock : Clock) where
  -- A position has punches exactly if it has the revision that they belong to.
  pub Matched : BlockDamageTracker clock → Type 0
  Matched t = (p : IVec3) → is_some (t.punches p) ≡ is_some (t.damage_revision p)

  on_damage-Matched :
      (q : IVec3) (n r : ℕ) (t : BlockDamageTracker clock)
      → Matched t
      → Matched (on_damage clock q n r t)
  unfolding Matched on_damage
  on_damage-Matched q n r t h p = ground (arith, h p)

  on_block_changed-Matched :
      (q : IVec3) (r : ℕ) (t : BlockDamageTracker clock)
      → Matched t
      → Matched (on_block_changed clock q r t)
  unfolding Matched on_block_changed
  on_block_changed-Matched q r t h p = ground (arith, h p)

  on_chunk_removed-Matched :
      (c : ChunkCoord) (t : BlockDamageTracker clock)
      → Matched t
      → Matched (on_chunk_removed clock c t)
  unfolding Matched on_chunk_removed
  on_chunk_removed-Matched c t h p = ground (arith, h p)

  advance-Matched :
      (dt : clock.Time) (t : BlockDamageTracker clock) → Matched t → Matched (advance clock dt t)
  unfolding Matched advance
  advance-Matched dt t h p = ground (arith, h p)

  -- A call of one of the tracker's operations.
  pub data Operation : Type 0 where
    damage : IVec3 → ℕ → ℕ → Operation
    block_changed : IVec3 → ℕ → Operation
    chunk_removed : ChunkCoord → Operation
    advanced : clock.Time → Operation

  unfoldable pub apply : Operation → BlockDamageTracker clock → BlockDamageTracker clock
  apply (damage pos punches revision) t = on_damage clock pos punches revision t
  apply (block_changed pos revision) t = on_block_changed clock pos revision t
  apply (chunk_removed coord) t = on_chunk_removed clock coord t
  apply (advanced dt) t = advance clock dt t

  unfoldable pub apply_all : List Operation → BlockDamageTracker clock → BlockDamageTracker clock
  apply_all [] t = t
  apply_all (o ∷ os) t = apply_all os (apply o t)

  -- A tracker as it is constructed, at this time and with this time of the first pruning.
  abbrev pub new_tracker : clock.Time → clock.Time → BlockDamageTracker clock
  new_tracker now next_prune = record {
    punches = λ p. none;
    damage_revision = λ p. none;
    changes = λ p. none;
    now = now;
    next_prune = next_prune;
  }

  apply-Matched : (o : Operation) (t : BlockDamageTracker clock) → Matched t → Matched (apply o t)
  unfolding apply
  apply-Matched (damage pos punches revision) t h = on_damage-Matched pos punches revision t h
  apply-Matched (block_changed pos revision) t h = on_block_changed-Matched pos revision t h
  apply-Matched (chunk_removed coord) t h = on_chunk_removed-Matched coord t h
  apply-Matched (advanced dt) t h = advance-Matched dt t h

  apply_all-Matched :
      (os : List Operation) (t : BlockDamageTracker clock) → Matched t → Matched (apply_all os t)
  unfolding apply_all
  apply_all-Matched [] t h = h
  apply_all-Matched (o ∷ os) t h = apply_all-Matched os (apply o t) (apply-Matched o t h)

  -- After any sequence of operations on a new tracker, a position has punches exactly if it has the
  -- revision that they belong to.
  pub new_tracker-Matched :
      (os : List Operation) (now next_prune : clock.Time)
      → Matched (apply_all os (new_tracker now next_prune))
  unfolding Matched
  new_tracker-Matched os now next_prune =
      apply_all-Matched os (new_tracker now next_prune) (λ p. refl)

  forgotten :
      (coord : ChunkCoord) (t : BlockDamageTracker clock) (p : IVec3)
      → Matched t
      → same_chunk (chunk_of p) coord ≡ true
      → ((on_chunk_removed clock coord t).punches p ≡ none)
        × ((on_chunk_removed clock coord t).damage_revision p ≡ none)
        × ((on_chunk_removed clock coord t).changes p ≡ none)
  unfolding on_chunk_removed Matched
  forgotten coord t p h e = rw e (refl, ground (arith, h p), refl)

  -- A removed chunk leaves nothing behind: after any operations, `on_chunk_removed` of the chunk of a
  -- position leaves no punches, no revision and no change record there.
  pub on_chunk_removed-new_tracker :
      (os : List Operation) (now next_prune : clock.Time) (p : IVec3)
      → let t = on_chunk_removed clock (chunk_of p) (apply_all os (new_tracker now next_prune)) in
        (t.punches p ≡ none) × (t.damage_revision p ≡ none) × (t.changes p ≡ none)
  on_chunk_removed-new_tracker os now next_prune p =
      forgotten (chunk_of p) (apply_all os (new_tracker now next_prune)) p
        (new_tracker-Matched os now next_prune) (same_chunk_refl (chunk_of p))
