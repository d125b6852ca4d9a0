-- ===== src/Handler/Sessions/Complete.antt =====
-- services/api/internal/handler/session.go: SessionHandler.Complete. A Go map has no order: the skills of
-- the summary come in the order in which they last stand in the items.
pub mod Repeats
use ruskiy.Shared.{
  ℕ, not, ◌||◌, if◌then◌else◌, Bool, true, false, Option, none, some, String, str_eq, has, List, [],
  ◌∷◌, length,
}
use ruskiy.Shared.Int.{ℤ, pos, ◌-ℤ◌}
use ruskiy.Platform.{Float}
use ruskiy.Model.{Session, SessionItem}
use ruskiy.Engine.Xp.{level_from_xp}
use ruskiy.Middleware.Http.{Request}
use ruskiy.Store.Streak.{Streaks, LearnerStats, record_activity, update_level}
use ruskiy.Store.Database.{Tables}
use ruskiy.Store.Sessions.{complete_session, get_session_items}
use ruskiy.Handler.Sessions.{
  Services, Answer, refused, summary, ask, with_session, finish_session, record_streak, set_level,
  find_items,
}
use ruskiy.Handler.Sessions.Submit.{stats_of}

abbrev pub skills_practiced : List SessionItem → List String
skills_practiced [] = []
skills_practiced (i ∷ items) =
    let rest = skills_practiced items in
    if str_eq i.skill_id "" || has i.skill_id rest then rest else i.skill_id ∷ rest

module _ {F : Type 0} where
  abbrev pub with_streaks : Streaks → Tables F → Tables F
  with_streaks streaks t = record t { streaks = streaks }

module _ {F : Type 0} ⦃fl : Float F⦄ (env : Services F) where
  abbrev pub duration_of : Session F → ℤ
  duration_of s = env.whole_seconds (env.clock 0 -ℤ s.started_at)

  -- The streak and the level of the session's learner; the errors are ignored.
  unfoldable pub count_session : Session F → Tables F → Tables F
  unfolding level_from_xp record_activity update_level
  count_session s t =
      let active =
        if env.fails record_streak
        then t
        else with_streaks (record_activity env.today s.learner_id s.total_xp t.streaks) t in
      let stats = stats_of env s.learner_id active in
      if env.fails set_level
      then active
      else with_streaks
          (update_level s.learner_id (pos (level_from_xp F stats.total_xp)) active.streaks) active

  -- The stats of the summary are those of Get, before UpdateLevel, which leaves the streak alone.
  abbrev pub summary_of : ℕ → Session F → Tables F → Answer F
  summary_of id s t =
      let items = ask env find_items [] (get_session_items env.pg id t) in
      summary (record {
        session_id = id;
        total_exercises = length items;
        correct_count = fl.to_int (fl.mul s.accuracy_rate (fl.of_int (pos (length items))));
        accuracy_rate = s.accuracy_rate;
        total_xp = s.total_xp;
        skills_practiced = skills_practiced items;
        duration = duration_of s;
        streak_days = (stats_of env s.learner_id t).current_streak;
      })

  -- Behind the check of the owner.
  unfoldable pub finish : ℕ → Session F → Tables F → Answer F × Tables F
  unfolding count_session
  finish id s t =
      let finished =
        complete_session env.pg (env.clock 1) id s.total_xp s.accuracy_rate (duration_of s) t in
      let counted = count_session s finished in
      if env.fails finish_session
      then (refused 500 "failed to complete session", t)
      else (summary_of id s counted, counted)

  unfoldable pub complete : Option ℕ → Request → Tables F → Answer F × Tables F
  unfolding finish
  complete id r t = with_session env id r t λ id s. finish id s t
