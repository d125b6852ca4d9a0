-- ===== src/Engine/Session/Roles/Arc.antt =====
-- AssignRoles of session.go: the role at each position.
use ruskiy.Shared.{
  ℕ, zero, suc, ◌+◌, ◌-◌, ◌/◌, ◌≤◌, ◌<◌, leb, ltb, ◌==◌, ◌&&◌, if◌then◌else◌, List, [], ◌∷◌, set,
  replicate, length, get_elem?, some, ◌≡◌, ◌≢◌, refl, arith, length-set, length-replicate, ◌∙◌,
  All-get_elem?,
}
use ruskiy.Model.{SessionItemRole, no_role, warmup, ramp, core, relief, challenge, cooldown}
use ruskiy.Engine.Session.Roles.{fill, assign_small, assign_middle, assign_full, assign_roles}

get_elem?-set :
    (xs : List SessionItemRole) (i j : ℕ) (v : SessionItemRole)
    → j < length xs
    → get_elem? (set xs i v) j ≡ (if i == j then some v else get_elem? xs j)
get_elem?-set [] i j v h = elim h [ ]
get_elem?-set (x ∷ xs) zero zero v h = refl
get_elem?-set (x ∷ xs) zero (suc j) v h = ground arith
get_elem?-set (x ∷ xs) (suc i) zero v h = ground arith
get_elem?-set (x ∷ xs) (suc i) (suc j) v h = ground (arith, get_elem?-set xs i j v)

pub length-fill :
    (k i : ℕ) (r : SessionItemRole) (xs : List SessionItemRole) → length (fill k i r xs) ≡ length xs
unfolding fill
length-fill zero i r xs = refl
length-fill (suc k) i r xs = length-fill k (i + 1) r (set xs i r) ∙ length-set xs i r

get_elem?-fill :
    (k i : ℕ) (r : SessionItemRole) (xs : List SessionItemRole) (j : ℕ)
    → j < length xs
    → get_elem? (fill k i r xs) j ≡ (if leb i j && ltb j (i + k) then some r else get_elem? xs j)
unfolding fill
get_elem?-fill zero i r xs j h = ground arith
get_elem?-fill (suc k) i r xs j h =
    ground (
      arith,
      get_elem?-fill k (i + 1) r (set xs i r) j,
      get_elem?-set xs i j r h,
      length-set xs i r,
    )

-- The role of the item at a position, of six items or more.
abbrev pub full_role : ℕ → ℕ → SessionItemRole
full_role count i =
    if i == 0
    then warmup
    else if i == 1
    then ramp
    else if i == count - 1
    then cooldown
    else if ltb i (count / 2 + 1)
    then core
    else if i == count / 2 + 1
    then relief
    else challenge

assign_full-role :
    (count i : ℕ) (roles : List SessionItemRole)
    → 6 ≤ count
    → length roles ≡ count
    → i < count
    → get_elem? (assign_full count roles) i ≡ some (full_role count i)
unfolding assign_full
assign_full-role count i roles big size h =
    let mid = count / 2 + 1 in
    let a = set roles 0 warmup in
    let b = set a 1 ramp in
    let c = fill (mid - 2) 2 core b in
    let d = set c mid relief in
    let e = fill (count - 1 - (mid + 1)) (mid + 1) challenge d in
    let la : i < length a = omega (arith, length-set roles 0 warmup) in
    let lb : i < length b = omega (arith, la, length-set a 1 ramp) in
    let lc : i < length c = omega (arith, lb, length-fill (mid - 2) 2 core b) in
    let ld : i < length d = omega (arith, lc, length-set c mid relief) in
    let le : i < length e =
      omega (arith, ld, length-fill (count - 1 - (mid + 1)) (mid + 1) challenge d) in
    ground (
      arith,
      get_elem?-set roles 0 i warmup (omega arith),
      get_elem?-set a 1 i ramp la,
      get_elem?-fill (mid - 2) 2 core b i lb,
      get_elem?-set c mid i relief lc,
      get_elem?-fill (count - 1 - (mid + 1)) (mid + 1) challenge d i ld,
      get_elem?-set e (count - 1) i cooldown le,
    )

assign_roles-full :
    (count : ℕ) → 6 ≤ count → assign_roles count ≡ assign_full count (replicate count no_role)
unfolding assign_roles
assign_roles-full zero h = absurd (omega arith)
assign_roles-full (suc n) h = ground arith

-- For six or more items AssignRoles gives a warmup, a ramp, core items up to the middle, a relief right
-- behind it, challenges, and a cooldown at the end.
assign_roles_arc :
    (count i : ℕ)
    → 6 ≤ count
    → i < count
    → get_elem? (assign_roles count) i ≡ some (full_role count i)
assign_roles_arc count i big h =
    rw (assign_roles-full count big)
      (assign_full-role count i (replicate count no_role) big (length-replicate count no_role) h)

full_role_ne : (count i : ℕ) → full_role count i ≢ no_role
full_role_ne count i = ground arith

-- AssignRoles leaves no item without a role, for any number of items.
assign_roles_filled :
    (count i : ℕ)
    → i < count
    → (r : SessionItemRole) × (get_elem? (assign_roles count) i ≡ some r) × (r ≢ no_role)
unfolding assign_roles assign_small assign_middle fill
assign_roles_filled zero i h = elim h [ ]
assign_roles_filled (suc zero) i h =
    All-get_elem? (λ r. r ≢ no_role) (assign_roles 1) i ((λ e. cc), tt) h
assign_roles_filled (suc (suc zero)) i h =
    All-get_elem? (λ r. r ≢ no_role) (assign_roles 2) i ((λ e. cc), ((λ e. cc), tt)) h
assign_roles_filled (suc (suc (suc zero))) i h =
    All-get_elem? (λ r. r ≢ no_role) (assign_roles 3) i ((λ e. cc), ((λ e. cc), ((λ e. cc), tt))) h
assign_roles_filled (suc (suc (suc (suc zero)))) i h =
    All-get_elem? (λ r. r ≢ no_role) (assign_roles 4) i
      ((λ e. cc), ((λ e. cc), ((λ e. cc), ((λ e. cc), tt)))) h
assign_roles_filled (suc (suc (suc (suc (suc zero))))) i h =
    All-get_elem? (λ r. r ≢ no_role) (assign_roles 5) i
      ((λ e. cc), ((λ e. cc), ((λ e. cc), ((λ e. cc), ((λ e. cc), tt))))) h
assign_roles_filled (suc (suc (suc (suc (suc (suc n)))))) i h =
    let count = suc (suc (suc (suc (suc (suc n))))) in
    (full_role count i, assign_roles_arc count i (omega arith) h, full_role_ne count i)
