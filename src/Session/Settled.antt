-- ===== src/Session/Settled.antt =====
-- What holds of the session over its runs.
use greenlink.Prelude.{
  String, ◌≡◌, ◌≢◌, refl, true, false, Option, none, some, [], ◌∷◌, arith, Bool-cases, ◌⊎◌, inl,
  inr,
}
use greenlink.Prelude.Text.{is_set}
use greenlink.Types.Session.{SessionBootstrap}
use greenlink.Move.{ok, err}
use greenlink.Api.{Failure}
use greenlink.Session.{
  Task, fetching, refreshing, refetching, Session, opened, handle_token_changed,
  handle_session_expired, persist_access_token, set_access_token, expire_session, load_bootstrap,
  run_effect, is_unauthorized, give_up, set_bootstrap, fetched, refreshed, refetched, login,
  accept_invitation, activate_invitation, logout, refresh, change_selected_club,
}
use greenlink.Session.Runs.{
  Answer, of_bootstrap, of_refresh, answered, Fits, Step, effect, logs_in, accepts, activates,
  reloads, selects, logs_out, refreshes, answer, client_refreshes, client_expires, Reach, here,
  next,
}

-- The token is the stored one. A bootstrap is there only when the session is initialised, and without
-- a token it is, once the effect has run.
pub record IsKept (s : Session) : Type 0 where
  pub stored : s.access_token ≡ s.stored_token
  pub known : s.initialized ≡ false → s.bootstrap ≡ none
  pub signed_out :
      is_set s.access_token ≡ false
      → (s.initialized ≡ true) ⊎ (s.effect_token ≢ some s.access_token)

-- Without an open request nothing loads.
pub record IsSettled (s : Session) : Type 0 where
  pub kept : IsKept s
  pub idle : s.tasks ≡ [] → s.loading ≡ false

set_access_token-IsKept :
    (token : Option String) (s : Session) → IsKept s → IsKept (set_access_token token s)
unfolding set_access_token persist_access_token handle_token_changed
set_access_token-IsKept token s k = elim (Bool-cases (is_set token)) [
  | inl set ↦ rw set (record { stored = refl; known = k.known; signed_out = λ unset. ground arith })
  | inr unset ↦ rw unset (record { stored = refl; known = λ h. refl; signed_out = λ h. inl refl })
]

expire_session-IsKept : (s : Session) → IsKept (expire_session s)
unfolding expire_session persist_access_token handle_token_changed handle_session_expired
expire_session-IsKept s = record { stored = refl; known = λ h. refl; signed_out = λ h. inl refl }

load_bootstrap-IsKept :
    (club token : Option String) (s : Session) → IsKept s → IsKept (load_bootstrap club token s)
unfolding load_bootstrap
load_bootstrap-IsKept club none s k = ground arith
load_bootstrap-IsKept club (some token) s k = ground arith

load_bootstrap-IsSettled :
    (club token : Option String) (s : Session)
    → IsSettled s
    → IsSettled (load_bootstrap club token s)
unfolding load_bootstrap
load_bootstrap-IsSettled club none s h = record {
  kept = load_bootstrap-IsKept club none s h.kept;
  idle = h.idle;
}
load_bootstrap-IsSettled club (some token) s h = elim (Bool-cases (is_set (some token))) [
  | inl set ↦ rw set (record {
    kept = record { stored = h.kept.stored; known = h.kept.known; signed_out = h.kept.signed_out };
    idle = λ e. ground arith;
  })
  | inr unset ↦ rw unset (record {
    kept = record { stored = h.kept.stored; known = λ e. ground arith; signed_out = λ e. inl refl };
    idle = h.idle;
  })
]

effect-IsSettled :
    (token : Option String) (s : Session)
    → IsSettled s
    → s.access_token ≡ token
    → IsSettled
        (load_bootstrap s.stored_club token (record s { effect_token = some s.access_token }))
unfolding load_bootstrap
effect-IsSettled none s h e = record {
  kept = record { stored = h.kept.stored; known = λ e. ground arith; signed_out = λ e. inl refl };
  idle = h.idle;
}
effect-IsSettled (some token) s h e = elim (Bool-cases (is_set (some token))) [
  | inl set ↦ rw set (record {
    kept = record { stored = h.kept.stored; known = h.kept.known; signed_out = λ u. ground arith };
    idle = λ e. ground arith;
  })
  | inr unset ↦ rw unset (record {
    kept = record { stored = h.kept.stored; known = λ e. ground arith; signed_out = λ e. inl refl };
    idle = h.idle;
  })
]

run_effect-IsSettled : (s : Session) → IsSettled s → IsSettled (run_effect s)
unfolding run_effect
run_effect-IsSettled s h = effect-IsSettled s.access_token s h refl

set_access_token-IsSettled :
    (token : Option String) (s : Session) → IsSettled s → IsSettled (set_access_token token s)
unfolding set_access_token persist_access_token handle_token_changed
set_access_token-IsSettled token s h = record {
  kept = set_access_token-IsKept token s h.kept;
  idle = elim (Bool-cases (is_set token)) [
    | inl set ↦ rw set h.idle
    | inr unset ↦ rw unset (λ e. refl)
  ];
}

done-IsSettled : (s : Session) → IsKept s → IsSettled (record s { loading = false })
done-IsSettled s k = record {
  kept = record { stored = k.stored; known = k.known; signed_out = k.signed_out };
  idle = λ e. refl;
}

give_up-IsSettled : (error : Failure) (s : Session) → IsKept s → IsSettled (give_up error s)
give_up-IsSettled error s k = elim (Bool-cases (is_unauthorized error)) [
  | inl expired ↦ rw expired (done-IsSettled (expire_session s) (expire_session-IsKept s))
  | inr other ↦ rw other (done-IsSettled s k)
]

opens-IsSettled :
    (task : Task) (s : Session) → IsKept s → IsSettled (record s { tasks = task ∷ s.tasks })
opens-IsSettled task s k = record {
  kept = record { stored = k.stored; known = k.known; signed_out = k.signed_out };
  idle = λ e. ground arith;
}

set_bootstrap-IsSettled :
    (b : SessionBootstrap) (s : Session) → IsKept s → IsSettled (set_bootstrap b s)
set_bootstrap-IsSettled b s k = record {
  kept = record { stored = k.stored; known = λ e. ground arith; signed_out = λ e. inl refl };
  idle = λ e. refl;
}

answered-IsSettled :
    (task : Task) (a : Answer) (s : Session)
    → Fits task a
    → IsKept s
    → IsSettled (answered task a s)
unfolding fetched refreshed refetched
answered-IsSettled (fetching token club) (of_bootstrap (ok b)) s f k = set_bootstrap-IsSettled b s k
answered-IsSettled (fetching token club) (of_bootstrap (err e)) s f k =
    elim (Bool-cases (is_unauthorized e)) [
      | inl expired ↦ rw expired (opens-IsSettled (refreshing club) s k)
      | inr other ↦ rw other (done-IsSettled s k)
    ]
answered-IsSettled (refreshing club) (of_refresh (ok r)) s f k =
    opens-IsSettled (refetching r.access_token) _
      (set_access_token-IsKept (some r.access_token) s k)
answered-IsSettled (refreshing club) (of_refresh (err e)) s f k = give_up-IsSettled e s k
answered-IsSettled (refetching token) (of_bootstrap (ok b)) s f k = set_bootstrap-IsSettled b s k
answered-IsSettled (refetching token) (of_bootstrap (err e)) s f k = give_up-IsSettled e s k
answered-IsSettled (fetching token club) (of_refresh r) s f k = absurd f
answered-IsSettled (refetching token) (of_refresh r) s f k = absurd f
answered-IsSettled (refreshing club) (of_bootstrap r) s f k = absurd f

logged_in-IsSettled :
    (token : String) (s : Session)
    → IsSettled s
    → IsSettled (load_bootstrap s.stored_club (some token) (set_access_token (some token) s))
logged_in-IsSettled token s h =
    load_bootstrap-IsSettled s.stored_club (some token) _
      (set_access_token-IsSettled (some token) s h)

Step-IsSettled : {s t : Session} → Step s t → IsSettled s → IsSettled t
unfolding login accept_invitation activate_invitation logout refresh change_selected_club
    handle_session_expired set_access_token
Step-IsSettled {s} (effect due) h = run_effect-IsSettled s h
Step-IsSettled {s} (logs_in r) h = logged_in-IsSettled r.access_token s h
Step-IsSettled {s} (accepts r) h = logged_in-IsSettled r.access_token s h
Step-IsSettled {s} (activates token) h = load_bootstrap-IsSettled s.stored_club token s h
Step-IsSettled {s} (reloads club token) h = load_bootstrap-IsSettled club token s h
Step-IsSettled {s} (selects club token) h = load_bootstrap-IsSettled club token _ (record {
  kept = record { stored = h.kept.stored; known = h.kept.known; signed_out = h.kept.signed_out };
  idle = h.idle;
})
Step-IsSettled {s} logs_out h = record {
  kept = record { stored = refl; known = λ e. refl; signed_out = λ e. inl refl };
  idle = λ e. refl;
}
Step-IsSettled {s} (refreshes r) h = set_access_token-IsSettled (some r.access_token) s h
Step-IsSettled {s} (answer before after task a found f) h =
    answered-IsSettled task a _ f
      (record { stored = h.kept.stored; known = h.kept.known; signed_out = h.kept.signed_out })
Step-IsSettled {s} (client_refreshes token) h = set_access_token-IsSettled (some token) s h
Step-IsSettled {s} client_expires h = record {
  kept = record { stored = refl; known = λ e. refl; signed_out = λ e. inl refl };
  idle = λ e. refl;
}

-- In every reachable state of the session its token is the stored one, nothing loads unless a request
-- is open, a bootstrap is there only when the session is initialised, and without a token it is
-- initialised once the effect has run.
pub Reach-IsSettled :
    {token club : Option String} {s : Session} → Reach (opened token club) s → IsSettled s
Reach-IsSettled here = record {
  kept = record { stored = refl; known = λ e. refl; signed_out = λ e. inr (λ k. ground arith) };
  idle = λ e. refl;
}
Reach-IsSettled (next r st) = Step-IsSettled st (Reach-IsSettled r)
