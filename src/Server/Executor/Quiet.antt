-- ===== src/Server/Executor/Quiet.antt =====
-- src/server/command_executor.rs: what a command sends while OBS is away.
pub mod Control
pub mod Commands
pub mod Serve
use obsctl_rs.Prelude.{
  ℕ, ◌≡◌, refl, sym, ◌∙◌, Bool, true, false, Option, none, some, List, [], ◌∷◌, Result, ok, err,
  arith, if◌then◌else◌, Bool-cases, inl, inr, Result-cases, ◌++◌,
}
use obsctl_rs.Text.{Text, text}
use obsctl_rs.Errors.{ObsctlError, obs_unavailable}
use obsctl_rs.Obs.Requests.{RequestData}
use obsctl_rs.Server.Executor.{
  Setup, Daemon, Action, ◌>>=◌, ◌>>◌, resume, lift, reads, changes, require_obs, request, log,
}

-- OBS is as present as it was; without it nothing was sent.
pub record IsQuiet {F J Fs : Type 0} (d d' : Daemon F J Fs) : Type 0 where
  pub obs : d'.obs ≡ d.obs
  pub sent : d.obs ≡ false → d'.sent ≡ d.sent

-- A relation between the state before a step and the state after it.
abbrev pub Relation : (F J Fs : Type 0) → Type 1
Relation F J Fs = Daemon F J Fs → Daemon F J Fs → Type 0

-- OBS is as present as it was.
pub record IsSteady {F J Fs : Type 0} (d d' : Daemon F J Fs) : Type 0 where
  pub obs : d'.obs ≡ d.obs

module _ {F J Fs : Type 0} where
  -- Every step leads to a related state.
  pub record Keeps {A : Type 0} (R : Relation F J Fs) (a : Action F J Fs A) : Type 0 where
    pub along : (d : Daemon F J Fs) → R d (a d).1

  pub record IsPreorder (R : Relation F J Fs) : Type 0 where
    pub reflexive : (d : Daemon F J Fs) → R d d
    pub transitive : (d d' d'' : Daemon F J Fs) → R d d' → R d' d'' → R d d''

  resume-Keeps :
      {A B : Type 0} (R : Relation F J Fs) (k : A → Action F J Fs B) (d : Daemon F J Fs)
      (r : Result ObsctlError A × Daemon F J Fs)
      → IsPreorder R
      → R d r.1
      → ((x : A) → Keeps R (k x))
      → R d (resume k r).1
  resume-Keeps R k d (ok x, d') p h hk = p.transitive d d' (k x d').1 h ((hk x).along d')
  resume-Keeps R k d (err e, d') p h hk = h

  module _ {R : Relation F J Fs} ⦃p : IsPreorder R⦄ where
    pub Keeps-bind :
        {A B : Type 0} {a : Action F J Fs A} {k : A → Action F J Fs B}
        → Keeps R a
        → ((x : A) → Keeps R (k x))
        → Keeps R (a >>= k)
    unfolding ◌>>=◌
    Keeps-bind {a = a} {k = k} h hk = record {
      along = λ d. resume-Keeps R k d (a d) p (h.along d) hk;
    }

    pub Keeps-then :
        {A B : Type 0} {a : Action F J Fs A} {k : Action F J Fs B}
        → Keeps R a
        → Keeps R k
        → Keeps R (a >> k)
    unfolding ◌>>◌
    Keeps-then h hk = Keeps-bind h (λ x. hk)

    pub Keeps-lift : {A : Type 0} (r : Result ObsctlError A) → Keeps R (lift r)
    unfolding lift
    Keeps-lift r = record { along = λ d. p.reflexive d }

    pub Keeps-reads : {A : Type 0} (f : Daemon F J Fs → A) → Keeps R (reads f)
    unfolding reads
    Keeps-reads f = record { along = λ d. p.reflexive d }

    pub Keeps-if :
        {A : Type 0} (b : Bool) {x y : Action F J Fs A}
        → Keeps R x
        → Keeps R y
        → Keeps R (if b then x else y)
    Keeps-if true h k = h
    Keeps-if false h k = k

    pub Keeps-require_obs : Keeps R require_obs
    unfolding require_obs
    Keeps-require_obs = record { along = λ d. p.reflexive d }

  instance abbrev pub IsSteady-IsPreorder : IsPreorder (IsSteady {F = F} {J = J} {Fs = Fs})
  IsSteady-IsPreorder = record {
    reflexive = λ d. record { obs = refl };
    transitive = λ d d' d'' h k. record { obs = k.obs ∙ h.obs };
  }

  instance abbrev pub IsQuiet-IsPreorder : IsPreorder (IsQuiet {F = F} {J = J} {Fs = Fs})
  IsQuiet-IsPreorder = record {
    reflexive = λ d. record { obs = refl; sent = λ away. refl };
    transitive = λ d d' d'' h k. record {
      obs = k.obs ∙ h.obs;
      sent = λ away. k.sent (h.obs ∙ away) ∙ h.sent away;
    };
  }

  guarded :
      {B : Type 0} (k : Action F J Fs B) (d : Daemon F J Fs) (e : ObsctlError) (there : Bool)
      → d.obs ≡ there
      → Keeps IsSteady k
      → IsQuiet d (resume (λ (_ : Unit {0}). k) (if there then ok tt else err e, d)).1
  guarded k d e true p h = record { obs = (h.along d).obs; sent = λ away. cc (p, away) }
  guarded k d e false p h = record { obs = refl; sent = λ away. refl }

  -- What follows a check that OBS is there sends nothing without it.
  pub require_obs-Quiet :
      {B : Type 0} {k : Action F J Fs B} → Keeps IsSteady k → Keeps IsQuiet (require_obs >> k)
  unfolding require_obs ◌>>◌ ◌>>=◌
  require_obs-Quiet {k = k} h = record { along = λ d. guarded k d obs_unavailable d.obs refl h }
