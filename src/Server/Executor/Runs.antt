-- ===== src/Server/Executor/Runs.antt =====
-- src/server/command_executor.rs: a handler that succeeds, step by step.
use obsctl_rs.Prelude.{
  ◌≡◌, refl, ap, sym, ◌∙◌, Bool, true, false, [], ◌∷◌, ◌++◌, Result, ok, err, if◌then◌else◌, arith,
}
use obsctl_rs.Errors.{ObsctlError, obs_unavailable}
use obsctl_rs.Obs.Requests.{RequestData}
use obsctl_rs.Server.Executor.{
  Setup, Daemon, Action, resume, ◌>>=◌, ◌>>◌, lift, reads, require_obs, request,
}

module _ {F J Fs : Type 0} where
  -- The action returns `a` and leaves `d'`.
  abbrev pub Runs : {A : Type 0} → Action F J Fs A → Daemon F J Fs → A → Daemon F J Fs → Type 0
  Runs action d a d' = action d ≡ (ok a, d')

  resume-ok :
      {A B : Type 0} (k : A → Action F J Fs B) (r : Result ObsctlError A × Daemon F J Fs) (b : B)
      (d' : Daemon F J Fs)
      → resume k r ≡ (ok b, d')
      → (a : A) × (d1 : Daemon F J Fs) × (r ≡ (ok a, d1)) × (k a d1 ≡ (ok b, d'))
  resume-ok k (ok a, d1) b d' h = (a, d1, refl, h)
  resume-ok k (err e, d1) b d' h = cc (ap (λ r. r.0) h)

  pub bind-Runs :
      {A B : Type 0} (action : Action F J Fs A) (k : A → Action F J Fs B) (d : Daemon F J Fs)
      (b : B) (d' : Daemon F J Fs)
      → Runs (action >>= k) d b d'
      → (a : A) × (d1 : Daemon F J Fs) × Runs action d a d1 × Runs (k a) d1 b d'
  unfolding ◌>>=◌
  bind-Runs action k d b d' h = resume-ok k (action d) b d' h

  pub then-Runs :
      {A B : Type 0} (action : Action F J Fs A) (k : Action F J Fs B) (d : Daemon F J Fs) (b : B)
      (d' : Daemon F J Fs)
      → Runs (action >> k) d b d'
      → (a : A) × (d1 : Daemon F J Fs) × Runs action d a d1 × Runs k d1 b d'
  unfolding ◌>>◌
  then-Runs action k d b d' h = bind-Runs action (λ unused. k) d b d' h

  pub lift-bind :
      {A B : Type 0} (r : Result ObsctlError A) (k : A → Action F J Fs B) (d : Daemon F J Fs)
      (b : B) (d' : Daemon F J Fs)
      → Runs (lift r >>= k) d b d'
      → (a : A) × (r ≡ ok a) × Runs (k a) d b d'
  unfolding lift ◌>>=◌
  lift-bind (ok a) k d b d' h = (a, refl, h)
  lift-bind (err e) k d b d' h = cc (ap (λ r. r.0) h)

  pub lift-then :
      {A B : Type 0} (r : Result ObsctlError A) (k : Action F J Fs B) (d : Daemon F J Fs) (b : B)
      (d' : Daemon F J Fs)
      → Runs (lift r >> k) d b d'
      → (a : A) × (r ≡ ok a) × Runs k d b d'
  unfolding ◌>>◌
  lift-then r k d b d' h = lift-bind r (λ unused. k) d b d' h

  pub lift-Runs :
      {A : Type 0} (r : Result ObsctlError A) (d : Daemon F J Fs) (a : A) (d' : Daemon F J Fs)
      → Runs (lift r) d a d'
      → (r ≡ ok a) × (d' ≡ d)
  unfolding lift
  lift-Runs r d a d' h = (ap (λ p. p.0) h, sym (ap (λ p. p.1) h))

  pub require_obs-Runs :
      {B : Type 0} (k : Action F J Fs B) (d : Daemon F J Fs) (b : B) (d' : Daemon F J Fs)
      → Runs (require_obs >> k) d b d'
      → (d.obs ≡ true) × Runs k d b d'
  unfolding require_obs ◌>>◌ ◌>>=◌
  require_obs-Runs {B} k d b d' h = go d.obs refl h
    where
      go :
          (there : Bool)
          → d.obs ≡ there
          → resume (λ (_ : Unit {0}). k) (if there then ok tt else err obs_unavailable, d)
            ≡ (ok b, d')
          → (d.obs ≡ true) × Runs k d b d'
      go true p h' = (p, h')
      go false p h' = cc (ap (λ r. r.0) h')

  -- A request that OBS granted was sent.
  pub request-Runs :
      (s : Setup F J Fs) (q : RequestData F) (d : Daemon F J Fs) (v : J) (d' : Daemon F J Fs)
      → Runs (request s q) d v d'
      → d' ≡ record d { sent = d.sent ++ q ∷ [] }
  unfolding request
  request-Runs s q d v d' h = sym (ap (λ p. p.1) h)

  pub reads-bind :
      {A B : Type 0} (f : Daemon F J Fs → A) (k : A → Action F J Fs B) (d : Daemon F J Fs) (b : B)
      (d' : Daemon F J Fs)
      → Runs (reads f >>= k) d b d'
      → Runs (k (f d)) d b d'
  unfolding reads ◌>>=◌
  reads-bind f k d b d' h = h

  -- The end of a command that asks OBS: the question could be put, and it was sent.
  pub ask-Runs :
      (s : Setup F J Fs) (q : Result ObsctlError (RequestData F)) (answer : J) (d : Daemon F J Fs)
      (v : J) (d' : Daemon F J Fs)
      → Runs (lift q >>= λ question. request s question >> lift (ok answer)) d v d'
      → (question : RequestData F) × (q ≡ ok question)
        × (d' ≡ record d { sent = d.sent ++ question ∷ [] })
        × (v ≡ answer)
  ask-Runs s q answer d v d' h =
      let (question, put, h1) = lift-bind q _ d v d' h in
      let (reply, d1, sent, h2) = then-Runs (request s question) _ d v d' h1 in
      let (same, last) = lift-Runs (ok answer) d1 v d' h2 in
      (question, put, last ∙ request-Runs s question d reply d1 sent, ground arith)
