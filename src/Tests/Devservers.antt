-- ===== src/Tests/Devservers.antt =====
-- Inputs for the theorems on the in-memory server.
use ruskiy.Shared.{str_eq, ℕ, suc, ◌+◌, min, put_at, true, some, List, [], ◌∷◌, length, ◌≡◌, refl}
use Prim.Native.Nat.{max}
use ruskiy.Shared.Int.{pos, pos_part}
use ruskiy.Model.{ContentAtom, SessionItem, warmup, cooldown}
use ruskiy.Engine.Session.Build.{session_item}
use ruskiy.Engine.Session.Roles.{fill}
use ruskiy.Devserver.{MemStore, new_mem_store, assign_roles, assign_few}
use ruskiy.Devserver.{User}
use ruskiy.Devserver.Accounts.{Secrets, refused, tokens_for, new_user, register, token}
use ruskiy.Devserver.Accounts.Signin.{registered, register-token}
use ruskiy.Devserver.Sessions.{
  SubmitRequest, generate, make_items, max_items, bound_items, new_session, find_session, submit,
}
use ruskiy.Devserver.Sessions.Tally.{
  AllTallied, generates, submits, Reachable, start, next, reachable-AllTallied,
}
use ruskiy.Devserver.Sessions.Planned.{Planned, wanted_items, generate-Planned}
use ruskiy.Tests.Decimals.{Decimal, decimal_float}
use ruskiy.Tests.Sessions.{atom}

abbrev two_atoms : List (ContentAtom Decimal)
two_atoms = atom 7 "cases" ∷ atom 8 "verbs" ∷ []

abbrev seeded : MemStore Decimal
seeded = new_mem_store [] two_atoms

abbrev ids : ℕ → ℕ
ids n = 50 + n

abbrev two_items : List SessionItem
two_items = session_item 51 50 0 7 "cases" warmup ∷ session_item 52 50 1 8 "verbs" cooldown ∷ []

abbrev with_session : MemStore Decimal
with_session = record seeded {
  sessions = new_session 50 "ann" (pos 9) ∷ [];
  session_items = put_at 50 two_items (λ k. []);
}

abbrev answer : SubmitRequest
answer = record {
  content_id = 7;
  response = "a";
  correct_answer = "a";
  is_correct = true;
  response_time_ms = pos 900;
  hint_level_used = pos 0;
}

generated :
    generate ids (pos 9) "ann" (pos 15) seeded
    ≡ some (new_session 50 "ann" (pos 9), two_items, with_session)
unfolding generate make_items max_items bound_items assign_roles assign_few fill
generated = refl

submitted : Reachable [] two_atoms (submit (pos 9) 50 answer with_session).1
submitted =
    next (next start (generates ids (pos 9) "ann" (pos 15) generated refl))
      (submits (pos 9) 50 answer)

reachable-AllTallied_example : AllTallied (submit (pos 9) 50 answer with_session).1
reachable-AllTallied_example = reachable-AllTallied submitted

generate-Planned_example :
    (items : List SessionItem) × (s' : MemStore Decimal) × (generate ids
        (pos 9)
        "ann"
        (pos 15)
        seeded
      ≡ some (new_session 50 "ann" (pos 9), items, s'))
    × (length items ≡ min 15 (min 2 (max 5 (pos_part (wanted_items Decimal (pos 15))))))
    × Planned (λ i. ids (suc i)) 50 (assign_roles (length items)) two_atoms 0 items
    × (s'.session_items 50 ≡ items)
    × (find_session 50 s' ≡ some (new_session 50 "ann" (pos 9)))
generate-Planned_example =
    generate-Planned ids (pos 9) "ann" (pos 15) seeded (("cases", refl), (("verbs", refl), tt))

-- Hashes are the passwords, and a token is its subject.
abbrev plain : Secrets
plain = record {
  hash_password = λ p. p;
  verify_password = λ h p. str_eq h p;
  sign = λ subject expires issued. subject;
  parse = λ now t. some t;
}

abbrev bea : User
bea = new_user plain "7" (pos 3) "b@x.org" "long enough" ""

abbrev with_bea : MemStore Decimal
with_bea = registered plain "7" (pos 3) "b@x.org" "long enough" "" seeded

register-token_example :
    (token plain (pos 5) "b@x.org" "long enough" with_bea ≡ tokens_for plain 200 (pos 5) bea)
    × (bea.email ≡ "b@x.org")
    × (token plain (pos 5) "b@x.org" "wrong" with_bea ≡ refused 401 "invalid credentials")
unfolding register
register-token_example =
    register-token plain "7" (pos 3) "b@x.org" "long enough" "" seeded 201 bea "7" "7" (pos 5)
      "wrong" refl refl refl
