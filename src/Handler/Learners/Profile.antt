-- ===== src/Handler/Learners/Profile.antt =====
-- Which profiles Create stores.
use ruskiy.Shared.{
  Bool, Bool-cases, true, false, none, some, String, str_eq, str_eq_iff, str_eq_self, has, List, [],
  ◌∷◌, ◌++◌, ◌≡◌, ◌≢◌, ◌∙◌, ap, refl, sym, arith, inl, inr, ◌⊎◌,
}
use mathlib.Core.Path.{subst}
use ruskiy.Platform.{Float}
use ruskiy.Model.{LearnerProfile}
use ruskiy.Middleware.Http.{Request, get_user_id}
use ruskiy.Shared.Int.{ℤ}
use ruskiy.Handler.Sessions.Submit.{kept_on_error}
use ruskiy.Store.Database.{Tables, Postgres, query_row, exists_where}
use ruskiy.Store.Profiles
use ruskiy.Store.Profiles.{segments, domains, in_enums, with_profiles}
use ruskiy.Store.Skills.{initialize_skills}
use ruskiy.Handler.Sessions.{Services, insert_profile, init_skills}
use ruskiy.Handler.Learners.{
  CreateProfileRequest, LearnerAnswer, refused, profile, valid_segments, profile_error, new_profile,
  store_profile, create_profile,
}

checked_segment :
    (req : CreateProfileRequest) → profile_error req ≡ none → has req.segment valid_segments ≡ true
unfolding profile_error
checked_segment req e = ground (arith, e)

segment_in_enum :
    (s : String) → has s valid_segments ≡ true → s ≢ "professional" → has s segments ≡ true
segment_in_enum s e ne = ground (arith, e, (str_eq_iff "professional" s).0, ne)

professional_not_in_enum : has "professional" segments ≡ false
professional_not_in_enum = refl

query_row-append_new :
    (id : String) (ps : List LearnerProfile) (p : LearnerProfile)
    → p.id ≡ id
    → exists_where (λ q. str_eq q.id id) ps ≡ false
    → query_row (λ q. str_eq q.id id) (ps ++ p ∷ []) ≡ some p
query_row-append_new id [] p e h = rw (e, str_eq_self id) refl
query_row-append_new id (q ∷ ps) p e h = elim (Bool-cases (str_eq q.id id)) [
  | inl eq ↦ absurd (ground (arith, (rw eq at h)))
  | inr ne ↦ rw ne (query_row-append_new id ps p e (rw ne at h))
]

-- InitializeSkills leaves the profiles alone.
initialize_skills-profiles :
    {F : Type 0} ⦃fl : Float F⦄ (fails : Bool) (pg : Postgres F) (now : ℤ) (learner level : String)
    (t : Tables F)
    → (kept_on_error fails (initialize_skills pg now learner level t) t).profiles ≡ t.profiles
unfolding initialize_skills
initialize_skills-profiles fails pg now learner level t = ground arith

module _ {F : Type 0} ⦃fl : Float F⦄ (env : Services F) (has_user : String → Bool)
    (new_uuid : String) (req : CreateProfileRequest) (r : Request) (t : Tables F) where
  abbrev created : LearnerProfile
  created = new_profile env new_uuid (get_user_id r) req

  abbrev create_it : LearnerAnswer F × Tables F
  create_it = create_profile env has_user new_uuid (some req) r t

  create-taken :
      has_user created.user_id ≡ true
      → exists_where (λ q. str_eq q.id new_uuid) t.profiles ≡ false
      → has req.segment segments ≡ true
      → has created.domain domains ≡ true
      → Profiles.create has_user created t ≡ some (with_profiles (t.profiles ++ created ∷ []) t)
  unfolding Profiles.create in_enums
  create-taken known fresh segment domain = rw (fresh, known, segment, domain) refl

  create-refused : has req.segment segments ≡ false → Profiles.create has_user created t ≡ none
  unfolding Profiles.create in_enums
  create-refused segment = ground (arith, segment)

  -- For an authenticated user that the database has, a request that passes the checks of the handler, a new
  -- UUID and a database that answers without other errors: Create stores the profile, which GetByID
  -- then finds, and answers 201 with it, when the segment is not "professional"; and for the segment
  -- "professional", which the checks let pass and the enum does not have, it answers 500 and changes no
  -- table. The domain is empty or one of the database's enum.
  pub create_profile-get_by_id :
      (get_user_id r ≢ "")
      → profile_error req ≡ none
      → has_user created.user_id ≡ true
      → exists_where (λ q. str_eq q.id new_uuid) t.profiles ≡ false
      → env.fails insert_profile ≡ false
      → has created.domain domains ≡ true
      → ((req.segment ≢ "professional")
          × (create_it.0 ≡ profile 201 created)
          × (Profiles.get_by_id new_uuid create_it.1 ≡ some created))
        ⊎ ((req.segment ≡ "professional")
            × (create_it ≡ (refused 500 "failed to create profile", t)))
  unfolding create_profile Profiles.get_by_id initialize_skills
  create_profile-get_by_id user ok known fresh works domain =
      let named : str_eq (get_user_id r) "" ≡ false =
        ground (arith, user, (str_eq_iff (get_user_id r) "").0) in
      elim (Bool-cases (str_eq req.segment "professional")) [
        | inr e ↦
            let other : req.segment ≢ "professional" =
              λ q. absurd (ground (arith, e, (str_eq_iff req.segment "professional").1 q)) in
            let in_enum = segment_in_enum req.segment (checked_segment req ok) other in
            let found = query_row-append_new new_uuid t.profiles created refl fresh in
            inl (
              rw
                (
                  named,
                  ok,
                  works,
                  create-taken known fresh in_enum domain,
                  create_profile,
                  store_profile,
                )
                (
                  other,
                  refl,
                  ap (query_row (λ q. str_eq q.id new_uuid)) (
                        initialize_skills-profiles (env.fails init_skills) env.pg (env.clock 1)
                          new_uuid created.current_level
                          (with_profiles (t.profiles ++ created ∷ []) t))
                      ∙ found,
                ))
        | inl e ↦
            let segment = (str_eq_iff req.segment "professional").0 e in
            let not_in_enum =
              subst (λ s. has s segments ≡ false) (sym segment) professional_not_in_enum in
            inr (
              segment,
              rw (named, ok, works, create-refused not_in_enum, create_profile, store_profile) refl,
            )
      ]
