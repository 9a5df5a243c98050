-- ===== src/Interactive/Lifetimes.antt =====
-- What the sweep of lib/interactive/sweep.ts promises: sessions past their lifetime end, and ended sessions
-- stay as they are.
use extension_lab.Common.{
  All, Bool, Bool-cases, List, Option-cases, [], ap, arith, false, inl, inr, not, refl, some, sym,
  true, ℕ, ◌<◌, ◌==◌, ◌∙◌, ◌∷◌, ◌≡◌, ◌⊎◌,
}
use extension_lab.Interactive.Moves.{
  Moved, Moved-IsKeyed, Moved-overdue, Moved-terminal, Moved-trans, is_overdue,
}
use extension_lab.Interactive.Stopping.{RuntimeOf, ending_fields, live_statuses}
use extension_lab.Interactive.Sweep.{
  SweepConfig, destroy_by, fail_orphan, idle_out, make_idle, outlived, run_interactive_sweep,
  sweep_each,
}
use extension_lab.Interactive.Sweeps.{
  anything, destroy-sessions, destroy_by-Moved, fail_orphan-Moved, make_idle-Moved,
  sweep_each-Moved,
}
use extension_lab.Interactive.World.{World}
use extension_lab.Sessions.Row.{
  SessionRow, SessionStatus, created, find_session, includes_status, is_terminal_session_status,
  session_key, stopped,
}
use extension_lab.Sessions.Transitions.{transition_found}
use extension_lab.Sessions.Updates.{
  list_admitted_sessions, list_expired_sessions, list_idle_expired_sessions, list_idle_sessions,
  transition_row, transition_session,
}
use extension_lab.Sql.Defs.{IsKeyed, find_by, find_where, select_where}

abbrev Unnamed : ℕ → List SessionRow → Type 0
Unnamed j rs = All (λ r. (r.id == j) ≡ false) rs

-- A row that a SELECT gives is named in its result.
selected_named :
    (p : SessionRow → Bool) (t : List SessionRow) (j : ℕ) (s : SessionRow)
    → find_session j t ≡ some s
    → p s ≡ true
    → Unnamed j (select_where p t)
    → ⊥
unfolding find_by find_where select_where
selected_named p [] j s here h u = cc
selected_named p (x ∷ t) j s here h u = elim (Bool-cases (x.id == j)) [
  | inl e ↦
      let same : x ≡ s = ground arith in let kept : p x ≡ true = rw same h in absurd (ground arith)
  | inr e ↦ elim (Bool-cases (p x)) [
    | inl k ↦ selected_named p t j s (ground arith) h (ground arith)
    | inr k ↦ selected_named p t j s (ground arith) h (ground arith)
  ]
]

pub every_live :
    (s : SessionStatus)
    → includes_status (created ∷ live_statuses) s ≡ not (is_terminal_session_status s)
unfolding includes_status
every_live stopped = refl
every_live _ = refl

module _ (runtime_of : RuntimeOf) (now : ℕ) where
  -- The destruction of a session past its lifetime leaves none under its identifier.
  destroyed_settled :
      (row : SessionRow) (w : World)
      → IsKeyed session_key w.sessions
      → (s : SessionRow)
      → find_session row.id (destroy_by runtime_of now outlived row w).0.sessions ≡ some s
      → is_overdue now s ≡ false
  unfolding destroy_by transition_row
  destroyed_settled row w k s there =
      let from = created ∷ live_statuses in
      let fields = ending_fields now outlived in
      let found =
        transition_found now row.id from SessionStatus.expired fields w.sessions k row.id in
      let here : find_session row.id
            (transition_session now row.id from SessionStatus.expired fields w.sessions).0
          ≡ some s =
        ap (find_session row.id) (sym (destroy-sessions runtime_of now row outlived w)) ∙ there in
      elim (Option-cases (find_session row.id w.sessions)) [
        | inl e ↦ absurd (ground (arith, found, here))
        | inr (r, e) ↦ elim (Bool-cases (includes_status from r.status)) [
          | inl h ↦
              let s_is : s ≡ transition_row now SessionStatus.expired fields r =
                ground (arith, found, here) in
              ground arith
          | inr h ↦
              let s_is : s ≡ r = ground (arith, found, here) in ground (arith, every_live r.status)
        ]
      ]

  outlived_step :
      (r : SessionRow) (w : World)
      → Moved now is_terminal_session_status w.sessions
          (destroy_by runtime_of now outlived r w).0.sessions
  unfolding includes_status
  outlived_step r w = destroy_by-Moved runtime_of now r outlived w refl refl

  outlived_gone :
      (rs : List SessionRow) (w : World)
      → IsKeyed session_key w.sessions
      → (j : ℕ) (s : SessionRow)
      → find_session j (sweep_each (destroy_by runtime_of now outlived) rs w).0.sessions ≡ some s
      → is_overdue now s ≡ true
      → Unnamed j rs
  unfolding sweep_each
  outlived_gone [] w k j s there late = tt
  outlived_gone (r ∷ rs) w k j s there late =
      let next = (destroy_by runtime_of now outlived r w).0 in
      let k' = Moved-IsKeyed (outlived_step r w) k in
      let before =
        Moved-overdue (sweep_each-Moved (destroy_by runtime_of now outlived) outlived_step rs next)
          k' j s there late in
      elim (Bool-cases (r.id == j)) [
        | inl e ↦
            let at : r.id ≡ j = ground arith in
            absurd (
              ground (
                arith,
                destroyed_settled r w k s (ap (λ i. find_session i next.sessions) at ∙ before),
              ))
        | inr e ↦ (e, outlived_gone rs next k' j s there late)
      ]

module _ (runtime_of : RuntimeOf) (is_running : SessionRow → Bool) (config : SweepConfig) (now : ℕ)
    (w : World) (keyed : IsKeyed session_key w.sessions) where
  -- The states after the first three steps of a sweep.
  abbrev w1 : World
  w1 = (sweep_each (make_idle now) (list_idle_sessions config.idle_timeout_ms now w.sessions) w).0

  abbrev w2 : World
  w2 =
      (sweep_each (destroy_by runtime_of now idle_out)
        (list_idle_expired_sessions config.idle_grace_ms now w1.sessions) w1).0

  abbrev w3 : World
  w3 =
      (sweep_each (destroy_by runtime_of now outlived) (list_expired_sessions now w2.sessions) w2).0

  to_w2 : Moved now anything w.sessions w2.sessions
  unfolding includes_status
  to_w2 =
      Moved-trans
        (sweep_each-Moved (make_idle now) (make_idle-Moved now)
          (list_idle_sessions config.idle_timeout_ms now w.sessions) w)
        (sweep_each-Moved (destroy_by runtime_of now idle_out)
          (λ r u. destroy_by-Moved runtime_of now r idle_out u refl refl)
          (list_idle_expired_sessions config.idle_grace_ms now w1.sessions) w1)

  to_w3 : Moved now is_terminal_session_status w2.sessions w3.sessions
  to_w3 =
      sweep_each-Moved (destroy_by runtime_of now outlived) (outlived_step runtime_of now)
        (list_expired_sessions now w2.sessions) w2

  to_end :
      Moved now is_terminal_session_status w3.sessions
        (run_interactive_sweep runtime_of is_running config now w).0.sessions
  unfolding run_interactive_sweep
  to_end =
      sweep_each-Moved (fail_orphan runtime_of is_running now)
        (fail_orphan-Moved runtime_of is_running now) (list_admitted_sessions w3.sessions) w3

  -- After a sweep no session is past its lifetime: whatever the driver answered, every session under its
  -- identifier has ended or has its deadline in the future.
  pub run_interactive_sweep_expires :
      (j : ℕ) (s : SessionRow)
      → find_session j (run_interactive_sweep runtime_of is_running config now w).0.sessions
        ≡ some s
      → (is_terminal_session_status s.status ≡ true) ⊎ (now < s.expires_at)
  unfolding list_expired_sessions
  run_interactive_sweep_expires j s there = elim (Bool-cases (is_overdue now s)) [
    | inr in_time ↦ elim (Bool-cases (is_terminal_session_status s.status)) [
      | inl ended ↦ inl ended
      | inr live ↦ inr (ground arith)
    ]
    | inl late ↦
        let k2 = Moved-IsKeyed to_w2 keyed in
        let at3 = Moved-overdue to_end (Moved-IsKeyed to_w3 k2) j s there late in
        absurd (
          selected_named (is_overdue now) w2.sessions j s (Moved-overdue to_w3 k2 j s at3 late) late
            (outlived_gone runtime_of now (list_expired_sessions now w2.sessions) w2 k2 j s at3
              late))
  ]

  -- A sweep leaves every session that has ended as it is, with its status, its reason and its stop time.
  pub run_interactive_sweep_terminal :
      (j : ℕ) (r : SessionRow)
      → find_session j w.sessions ≡ some r
      → is_terminal_session_status r.status ≡ true
      → find_session j (run_interactive_sweep runtime_of is_running config now w).0.sessions
        ≡ some r
  run_interactive_sweep_terminal j r here ended =
      let k2 = Moved-IsKeyed to_w2 keyed in
      let at2 = Moved-terminal to_w2 keyed j r here ended in
      let at3 = Moved-terminal to_w3 k2 j r at2 ended in
      Moved-terminal to_end (Moved-IsKeyed to_w3 k2) j r at3 ended
