-- ===== src/Engine/Session/Roles.antt =====
-- services/api/internal/engine/session.go: AssignRoles. The slice `roles` is written by index, and
-- holds `no_role` where it was not written.
pub mod Arc
use ruskiy.Shared.{
  ℕ, zero, suc, ◌+◌, ◌-◌, ◌/◌, leb, ltb, if◌then◌else◌, List, [], ◌∷◌, set, replicate,
}
use ruskiy.Model.{SessionItemRole, no_role, warmup, ramp, core, relief, challenge, cooldown}

-- for j := i; j < i+rounds; j++ { roles[j] = r }
unfoldable pub fill : ℕ → ℕ → SessionItemRole → List SessionItemRole → List SessionItemRole
fill zero i r roles = roles
fill (suc rounds) i r roles = fill rounds (i + 1) r (set roles i r)

unfoldable pub assign_small : ℕ → List SessionItemRole → List SessionItemRole
assign_small count roles =
    let r1 = fill (count - 2) 1 core (set roles 0 warmup) in
    if ltb 1 count then set r1 (count - 1) cooldown else r1

unfoldable pub assign_middle : ℕ → List SessionItemRole → List SessionItemRole
assign_middle count roles =
    set (fill (count - 3) 2 core (set (set roles 0 warmup) 1 ramp)) (count - 1) cooldown

unfoldable pub assign_full : ℕ → List SessionItemRole → List SessionItemRole
assign_full count roles =
    let relief_idx = count / 2 + 1 in
    let challenge_start = relief_idx + 1 in
    let r1 = set (set roles 0 warmup) 1 ramp in
    let r2 = set (fill (relief_idx - 2) 2 core r1) relief_idx relief in
    let r3 = fill (count - 1 - challenge_start) challenge_start challenge r2 in
    set r3 (count - 1) cooldown

-- For count <= 0 the result is nil.
unfoldable pub assign_roles : ℕ → List SessionItemRole
assign_roles zero = []
assign_roles (suc n) =
    let count = suc n in
    let roles = replicate count no_role in
    if leb count 3
    then assign_small count roles
    else if leb count 5
    then assign_middle count roles
    else assign_full count roles
