-- ===== src/UsageLimits/Quota.antt =====
-- What the quotas of backend/app/usage_limits.py bound, however calls and time follow each other.
use mathlib.Core.Path.{subst}
use aira_agent.Base.{
  ℕ, suc, ◌≤◌, ◌<◌, String, List, [], ◌∷◌, Bool, true, not, ◌≡◌, ◌&&◌, ◌==◌, arith, if◌then◌else◌,
  keep, tally, tally-append, refl, eq_iff, Bool-cases, inl, inr, sym, ◌∙◌, ap, if_split,
}
use aira_agent.UsageLimits.{
  UsageRecord, Usage, Kind, execution, artifact, startup, kind_text, Settings, in_window,
  count_in_window, check, record_usage, is_old, purge_old, limit_for, check_windowed, record_action,
  log_rejection,
}

-- An action as the supervisor does it: the check, and the record only where it is allowed.
unfoldable pub guarded : Settings → String → String → Kind → Usage → Usage
guarded s id owner kind u =
    let (d, v) = check_windowed s owner kind u in
    if d.allowed then record_action s id owner kind v else v

-- Calls by any owners, with time that passes between them.
pub data Reach (s : Settings) : Usage → Usage → Type 0 where
  done : {u : Usage} → Reach s u u
  acts :
      {u v : Usage} (id owner : String) (kind : Kind)
      → Reach s (guarded s id owner kind u) v
      → Reach s u v
  passes : {u v : Usage} (now : ℕ) → u.now ≤ now → Reach s (record u { now = now }) v → Reach s u v
  purges :
      {u v : Usage} (older_than_seconds : ℕ)
      → Reach s (purge_old older_than_seconds u).1 v
      → Reach s u v

unfoldable pub used : Settings → String → Kind → Usage → ℕ
used s owner kind u = count_in_window owner (kind_text kind) s.quota_window_seconds u

tally-le :
    (p q : UsageRecord → Bool) (rs : List UsageRecord)
    → ((r : UsageRecord) → p r ≡ true → q r ≡ true)
    → tally p rs ≤ tally q rs
unfolding tally
tally-le p q [] h = omega arith
tally-le p q (r ∷ rs) h = ground (arith, h r, tally-le p q rs h)

tally-keep_le :
    (p k : UsageRecord → Bool) (rs : List UsageRecord) → tally p (keep k rs) ≤ tally p rs
unfolding tally keep
tally-keep_le p k [] = omega arith
tally-keep_le p k (r ∷ rs) = ground (arith, tally-keep_le p k rs)

kind_of : String → Kind
kind_of t =
    if t == "execution_start"
    then execution
    else if t == "artifact_generation"
    then artifact
    else startup

kind_of-kind_text : (k : Kind) → kind_of (kind_text k) ≡ k
unfolding kind_of
kind_of-kind_text execution = refl
kind_of-kind_text artifact = refl
kind_of-kind_text startup = refl

kind_text_injective : (a b : Kind) → kind_text a ≡ kind_text b → a ≡ b
kind_text_injective a b h = sym (kind_of-kind_text a) ∙ ap kind_of h ∙ kind_of-kind_text b

-- A record counts against its own owner and kind only.
used-record_usage :
    (s : Settings) (id owner o : String) (kind k : Kind) (u : Usage)
    → used s o k (record_usage id owner (kind_text kind) u)
      ≤ (if owner == o && kind_text kind == kind_text k then suc (used s o k u) else used s o k u)
unfolding used record_usage count_in_window in_window tally
used-record_usage s id owner o kind k u = ground (
  arith,
  tally-append (in_window o (kind_text k) s.quota_window_seconds u.now) u.records
      (record { id = id; owner = owner; kind = kind_text kind; created_at = u.now } ∷ []),
)

-- An allowed action is recorded while its quota has room.
recorded_within :
    (s : Settings) (id owner o : String) (kind k : Kind) (u : Usage)
    → check owner (kind_text kind) (limit_for s kind owner) s.quota_window_seconds u ≡ true
    → used s o k u ≤ limit_for s k o
    → used s o k (record_usage id owner (kind_text kind) u) ≤ limit_for s k o
unfolding check used
recorded_within s id owner o kind k u room h =
    elim (Bool-cases (owner == o && kind_text kind == kind_text k)) [
      | inl e ↦
          (let same : kind ≡ k =
              kind_text_injective kind k (ground (arith, eq_iff (kind_text kind) (kind_text k))) in
            let mine : owner ≡ o = ground (arith, eq_iff owner o) in
            (let full : used s o k u < limit_for s k o = rw (sym same, sym mine) (ground arith) in
              ground (arith, full, e, used-record_usage s id owner o kind k u)))
      | inr e ↦ ground (arith, e, used-record_usage s id owner o kind k u)
    ]

guarded_on :
    (s : Settings) (id owner : String) (kind : Kind) (u : Usage)
    → s.quotas_enabled ≡ true
    → guarded s id owner kind u ≡ (
        if check owner (kind_text kind) (limit_for s kind owner) s.quota_window_seconds u
        then record_usage id owner (kind_text kind) u
        else log_rejection owner (kind_text kind) u)
unfolding guarded check_windowed record_action
guarded_on s id owner kind u on = ground arith

guarded_within :
    (s : Settings) (id owner o : String) (kind k : Kind) (u : Usage)
    → s.quotas_enabled ≡ true
    → used s o k u ≤ limit_for s k o
    → used s o k (guarded s id owner kind u) ≤ limit_for s k o
guarded_within s id owner o kind k u on h =
    subst (λ v. used s o k v ≤ limit_for s k o) (sym (guarded_on s id owner kind u on))
      (if_split (λ v. used s o k v ≤ limit_for s k o) _ _ _
        (λ e. recorded_within s id owner o kind k u e h)
        (λ e. unfold used log_rejection count_in_window in h))

later_within :
    (s : Settings) (o : String) (k : Kind) (u : Usage) (now : ℕ)
    → u.now ≤ now
    → used s o k (record u { now = now }) ≤ used s o k u
unfolding used count_in_window in_window
later_within s o k u now later =
    tally-le (in_window o (kind_text k) s.quota_window_seconds now)
      (in_window o (kind_text k) s.quota_window_seconds u.now) u.records λ r t. ground arith

-- With quotas enabled, if an owner's recorded actions of a kind in the window are within the limit at
-- first, they are after any sequence of checked actions of any owners and kinds, of purges and of
-- time passing.
pub Reach-within :
    (s : Settings) {u v : Usage} (o : String) (k : Kind)
    → s.quotas_enabled ≡ true
    → Reach s u v
    → count_in_window o (kind_text k) s.quota_window_seconds u ≤ limit_for s k o
    → count_in_window o (kind_text k) s.quota_window_seconds v ≤ limit_for s k o
unfolding used purge_old count_in_window
Reach-within s o k on done h = h
Reach-within s {u} o k on (acts id owner kind rest) h =
    Reach-within s o k on rest (guarded_within s id owner o kind k u on h)
Reach-within s {u} o k on (passes now later rest) h =
    Reach-within s o k on rest (omega (arith, h, later_within s o k u now later))
Reach-within s {u} o k on (purges age rest) h = Reach-within s o k on rest (
    omega (
      arith,
      h,
      tally-keep_le (in_window o (kind_text k) s.quota_window_seconds u.now)
          (λ r. not (is_old age u.now r)) u.records,
    ))

-- A purge of records older than the window, or longer ago, changes no count that a check makes of it.
pub purge_old_keeps :
    (owner kind : String) (window age : ℕ) (u : Usage)
    → window ≤ age
    → count_in_window owner kind window (purge_old age u).1 ≡ count_in_window owner kind window u
unfolding count_in_window purge_old tally keep is_old in_window
purge_old_keeps owner kind window age u long = kept u.records
  where
    kept :
        (rs : List UsageRecord)
        → tally (in_window owner kind window u.now) (keep (λ r. not (is_old age u.now r)) rs)
          ≡ tally (in_window owner kind window u.now) rs
    kept [] = refl
    kept (r ∷ rs) = ground (arith, kept rs)
