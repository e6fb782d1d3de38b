-- ===== src/Link/Address.antt =====
-- The address of the station in the received frames (`m_analyze_frame`, src/hnzpath.cpp).
use fledge_south_hnz.Prelude.{
  ℕ, ◌≡◌, refl, ◌≤◌, ◌<◌, ◌==◌, ◌/◌, false, List, [], get_or, shr, ok, arith,
}
use fledge_south_hnz.State.Link.{PathId}
use fledge_south_hnz.State.Station.{World, path}
use fledge_south_hnz.Link.Frames.{analyze_frame}

no_match : (addr b : ℕ) → 64 ≤ addr → b < 256 → (addr == shr b 2) ≡ false
no_match addr b h k = let q : b / 4 < 64 = omega arith in ground arith

-- If the address of the station of a path is 64 or more, no frame whose first byte is a byte
-- reaches it: nothing is extracted and nothing changes.
pub analyze_frame-unreachable :
    (now : ℕ) (i : PathId) (frame : List ℕ) (w : World)
    → 64 ≤ (path i w).remote_address
    → get_or frame 0 0 < 256
    → analyze_frame now i frame w ≡ ok ([], w)
unfolding analyze_frame
analyze_frame-unreachable now i frame w h k =
    rw (no_match (path i w).remote_address (get_or frame 0 0) h k) refl
