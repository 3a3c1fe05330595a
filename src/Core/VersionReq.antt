-- ===== src/Core/VersionReq.antt =====
-- inc/vb/core/version_req.hpp and src/core/version_req.cpp: versions and the requirements on them.
-- Texts are lists of bytes. The components of a version are ints; a parsed one has at most six characters.
pub mod Decimal
pub mod Texts
pub mod Parse
pub mod Bounds
