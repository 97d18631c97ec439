-- ===== src/Billing/Access.antt =====
-- src/billing/subscription-access.service.ts: may an organisation act on an account now? The answer
-- is cached in Redis (src/redis/redis.service.ts) under a key that carries the payer's version.
pub mod Keys
pub mod Clear
pub mod Current
mod Examples
use drasken_labs_communicati.Prelude.{
  ℕ, suc, zero, Text, Bool, true, false, ◌||◌, ◌&&◌, List, [], ◌∷◌, ◌++◌, Option, none, some, ltb,
  codes, decimal, text_eq, get_elem?, if◌then◌else◌,
}
use drasken_labs_communicati.Prelude.Table.{find_first}
use drasken_labs_communicati.OrganisationSettings.{
  Settings, cache_version_for, billing_org_for, bump_payer_version,
}

pub data SubscriptionStatus : Type 0 where
  created authenticated active pending halted cancelled completed expired superseded :
      SubscriptionStatus

-- `model Subscription`, the columns that decide access.
pub record Subscription : Type 0 where
  pub waba_id : Option Text
  pub sso_org_id : Text
  pub status : SubscriptionStatus
  pub current_end : Option ℕ
  pub created_at : ℕ

-- The last two tests of `grants`.
abbrev pub is_paying : SubscriptionStatus → Bool
is_paying SubscriptionStatus.active = true
is_paying SubscriptionStatus.authenticated = true
is_paying _ = false

abbrev pub runs_past : Option ℕ → ℕ → Bool
runs_past none now = false
runs_past (some at) now = ltb now at

unfoldable pub status_grants : SubscriptionStatus → Option ℕ → ℕ → Bool
status_grants SubscriptionStatus.superseded current_end now = false
status_grants status current_end now = if runs_past current_end now then true else is_paying status

unfoldable pub grants : Option Subscription → ℕ → Bool
grants none now = false
grants (some sub) now = status_grants sub.status sub.current_end now

unfoldable pub scope : Text → Text → ℕ → Text
scope sso_org_id waba_id payer_version =
    sso_org_id ++ (b':' ∷ (waba_id ++ (b':' ∷ b'v' ∷ decimal payer_version)))

-- The strings under Redis's keys, as pairs.
unfoldable pub read_key : Text → List (Text × Text) → Option Text
read_key key [] = none
read_key key ((k, value) ∷ cache) = if text_eq k key then some value else read_key key cache

unfoldable pub delete_key : Text → List (Text × Text) → List (Text × Text)
delete_key key [] = []
delete_key key ((k, value) ∷ cache) =
    let rest = delete_key key cache in if text_eq k key then rest else (k, value) ∷ rest

-- `getSubscriptionAccess`, `setSubscriptionAccess` and `invalidateSubscriptionAccess`.
abbrev pub access_key : Text → Text
access_key scope = codes "sub:" ++ scope

abbrev pub as_answer : Option Text → Option Bool
as_answer none = none
as_answer (some raw) = some (text_eq raw (codes "1"))

unfoldable pub get_subscription_access : Text → List (Text × Text) → Option Bool
get_subscription_access scope cache = as_answer (read_key (access_key scope) cache)

unfoldable pub set_subscription_access : Text → Bool → List (Text × Text) → List (Text × Text)
set_subscription_access scope allowed cache =
    (access_key scope, if allowed then codes "1" else codes "0") ∷ cache

unfoldable pub invalidate_subscription_access : Text → List (Text × Text) → List (Text × Text)
invalidate_subscription_access scope cache = delete_key (access_key scope) cache

abbrev pub is_account : Text → Option Text → Bool
is_account waba_id none = false
is_account waba_id (some waba) = text_eq waba waba_id

abbrev pub is_none : Option Text → Bool
is_none none = true
is_none (some s) = false

-- `findUnique` by account and organisation.
unfoldable pub account_subscription : Text → Text → List Subscription → Option Subscription
account_subscription sso_org_id waba_id rows =
    find_first (λ s. is_account waba_id s.waba_id && text_eq s.sso_org_id sso_org_id) rows

abbrev pub newer : Subscription → Option Subscription → Option Subscription
newer s none = some s
newer s (some t) = if ltb s.created_at t.created_at then some t else some s

-- `findFirst` of the rows without an account, the newest first.
unfoldable pub organisation_subscription : Text → List Subscription → Option Subscription
organisation_subscription sso_org_id [] = none
organisation_subscription sso_org_id (s ∷ rows) =
    let rest = organisation_subscription sso_org_id rows in
    if text_eq s.sso_org_id sso_org_id && is_none s.waba_id then newer s rest else rest

abbrev pub first_of : Option Subscription → Option Subscription → Option Subscription
first_of none other = other
first_of (some s) other = some s

unfoldable pub for_organisation : Text → Text → List Subscription → Option Subscription
for_organisation sso_org_id waba_id rows =
    first_of (account_subscription sso_org_id waba_id rows)
      (organisation_subscription sso_org_id rows)

unfoldable pub from_payer : Text → Text → List Settings → List Subscription → Option Subscription
from_payer sso_org_id waba_id settings rows =
    let payer = billing_org_for sso_org_id settings in
    if text_eq payer sso_org_id then none else for_organisation payer waba_id rows

-- The subscription that `hasAccess` asks.
unfoldable pub deciding : Text → Text → List Settings → List Subscription → Option Subscription
deciding sso_org_id waba_id settings rows =
    first_of (for_organisation sso_org_id waba_id rows)
      (from_payer sso_org_id waba_id settings rows)

-- A call of `hasAccess` that has read the version and nothing else yet.
pub record Call : Type 0 where
  pub sso_org_id : Text
  pub waba_id : Text
  pub version : ℕ

-- The tables, the cache and the calls under way.
pub record World : Type 0 where
  pub settings : List Settings
  pub subscriptions : List Subscription
  pub cache : List (Text × Text)
  pub calls : List Call

-- The two halves of `hasAccess`, which other calls can come between.
abbrev pub begin_call : Text → Text → World → Call
begin_call sso_org_id waba_id world = record {
  sso_org_id = sso_org_id;
  waba_id = waba_id;
  version = cache_version_for sso_org_id world.settings;
}

abbrev pub call_key : Call → Text
call_key call = scope call.sso_org_id call.waba_id call.version

unfoldable pub answer_from : Option Bool → Call → ℕ → World → Bool × World
answer_from (some cached) call now world = (cached, world)
answer_from none call now world =
    let allowed =
      grants (deciding call.sso_org_id call.waba_id world.settings world.subscriptions) now in
    (allowed, record world { cache = set_subscription_access (call_key call) allowed world.cache })

unfoldable pub finish_call : Call → ℕ → World → Bool × World
finish_call call now world =
    answer_from (get_subscription_access (call_key call) world.cache) call now world

unfoldable pub has_access : Text → Text → ℕ → World → Bool × World
has_access sso_org_id waba_id now world =
    finish_call (begin_call sso_org_id waba_id world) now world

-- `requireAccess`: `none`, or the account that the error names.
unfoldable pub require_access : Bool → Text → Text → ℕ → World → Option Text × World
require_access false sso_org_id waba_id now world = (none, world)
require_access true sso_org_id waba_id now world =
    let (allowed, after) = has_access sso_org_id waba_id now world in
    (if allowed then none else some waba_id, after)

unfoldable pub invalidate : Text → Text → World → World
invalidate sso_org_id waba_id world = record world {
  cache =
      invalidate_subscription_access
        (scope sso_org_id waba_id (cache_version_for sso_org_id world.settings)) world.cache;
}

unfoldable pub invalidate_payer : Text → World → World
invalidate_payer sso_org_id world = record world {
  settings = bump_payer_version sso_org_id world.settings;
}

unfoldable pub without : ℕ → List Call → List Call
without n [] = []
without zero (call ∷ calls) = calls
without (suc n) (call ∷ calls) = call ∷ without n calls

-- What happens to the world: calls that begin and end in any order, keys that expire, subscriptions
-- that change in any way, and the two invalidations.
pub data Step : Type 0 where
  begins : Text → Text → Step
  ends : ℕ → ℕ → Step
  expires : Text → Step
  writes : List Subscription → Step
  drops : Text → Text → Step
  bumps : Text → Step

abbrev pub end_call : Option Call → ℕ → ℕ → World → World
end_call none n now world = world
end_call (some call) n now world =
    (finish_call call now (record world { calls = without n world.calls })).1

unfoldable pub step : Step → World → World
step (begins sso_org_id waba_id) world = record world {
  calls = begin_call sso_org_id waba_id world ∷ world.calls;
}
step (ends n now) world = end_call (get_elem? world.calls n) n now world
step (expires key) world = record world { cache = delete_key key world.cache }
step (writes rows) world = record world { subscriptions = rows }
step (drops sso_org_id waba_id) world = invalidate sso_org_id waba_id world
step (bumps payer) world = invalidate_payer payer world

unfoldable pub run : List Step → World → World
run [] world = world
run (s ∷ steps) world = run steps (step s world)
