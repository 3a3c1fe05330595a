-- ===== src/Core/VersionReq/Bounds.antt =====
-- src/core/version_req.cpp: what a requirement admits.
use voxel_browser.Prelude.{
  ℕ, ◌+◌, Bool, true, false, ◌&&◌, ◌||◌, not, some, [], ◌∷◌, ◌≡◌, arith, ltb, ◌==◌, if◌then◌else◌,
  Bool-cases, inl, inr,
}
use voxel_browser.Prelude.Int.{pos, ◌+ℤ◌}
use voxel_browser.Core.VersionReq.Parse.{
  SemVer, version, less, same, Comparator, VersionReq, Partial, caret, tilde, caret_upper, expand,
  accepts, matches, lower_bound, tilde_upper, bounds_below,
}

accepts-lower :
    (c : Comparator) (v : SemVer)
    → bounds_below c.op ≡ true
    → accepts c v ≡ true
    → less v c.version ≡ false
unfolding accepts less same
accepts-lower c v b a = ground arith

-- A version that a requirement admits is not below the requirement's lower bound, where it has one.
pub matches-lower_bound :
    (req : VersionReq) (v w : SemVer)
    → matches req v ≡ true
    → lower_bound req ≡ some w
    → less v w ≡ false
unfolding matches lower_bound
matches-lower_bound [] v w m b = ground arith
matches-lower_bound (c ∷ cs) v w m b = elim (Bool-cases (bounds_below c.op)) [
  | inl e ↦ ground (arith, e, accepts-lower c v e)
  | inr e ↦ ground (arith, e, matches-lower_bound cs v w)
]

-- The releases that count as compatible with a.b.c, of which so many parts are written: those that agree
-- with it up to its first part above 0, or, where all parts are 0, up to the last one written.
unfoldable pub same_series : (written a b c x y z : ℕ) → Bool
same_series written a b c x y z =
    if ltb 0 a || written == 1
    then x == a
    else if ltb 0 b || written == 2
    then x == a && y == b
    else x == a && (y == b && z == c)

-- Not older than a.b.c, and before the next major, minor or patch release.
less-next_major :
    (a b c x y z : ℕ)
    → let v = version (pos x) (pos y) (pos z) in
      let w = version (pos a) (pos b) (pos c) in
      (not (less v w) && less v (version (pos (a + 1)) (pos 0) (pos 0)))
      ≡ (not (less v w) && x == a)
unfolding less
less-next_major a b c x y z = ground arith

less-next_minor :
    (a b c x y z : ℕ)
    → let v = version (pos x) (pos y) (pos z) in
      let w = version (pos a) (pos b) (pos c) in
      (not (less v w) && less v (version (pos a) (pos (b + 1)) (pos 0)))
      ≡ (not (less v w) && (x == a && y == b))
unfolding less
less-next_minor a b c x y z = ground arith

less-next_patch :
    (a b c x y z : ℕ)
    → let v = version (pos x) (pos y) (pos z) in
      let w = version (pos a) (pos b) (pos c) in
      (not (less v w) && less v (version (pos a) (pos b) (pos (c + 1))))
      ≡ (not (less v w) && (x == a && (y == b && z == c)))
unfolding less
less-next_patch a b c x y z = ground arith

-- Of a written version a.b.c and an engine version x.y.z, neither with a negative part: `^` admits exactly
-- the compatible releases that are not older, and `~` exactly the releases that are not older and
-- agree in the major part and, where more than one part is written, in the minor part.
pub expand-matches :
    (written a b c x y z : ℕ)
    → let p : Partial = record { v = version (pos a) (pos b) (pos c); parts = written } in
      let v = version (pos x) (pos y) (pos z) in
      (matches (expand caret p) v ≡ (not (less v p.v) && same_series written a b c x y z))
      × (matches (expand tilde p) v ≡ (not (less v p.v) && (x == a && (written == 1 || y == b))))
unfolding matches expand accepts caret_upper tilde_upper same_series ◌+ℤ◌
expand-matches written a b c x y z = (
  ground (
    arith,
    less-next_major a b c x y z,
    less-next_minor a b c x y z,
    less-next_patch a b c x y z,
  ),
  ground (arith, less-next_major a b c x y z, less-next_minor a b c x y z),
)
